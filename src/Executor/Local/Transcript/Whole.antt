-- ===== src/Executor/Local/Transcript/Whole.antt =====
-- What the local executor logs of a plan that it applies.

use that_goes_there.Executor.Local.Heard.{GivesAll, transcript}
use that_goes_there.Executor.Local.Transcript.{IsReady, sink-said, sink_one-said, for_each-AllTold}
use mathlib.Core.List.{append_assoc}
use that_goes_there.Prelude.{
  String, ◌<>◌, ℕ, ◌+◌, ◌^◌, ◌<◌, ◌≡◌, refl, ap, ◌∙◌, subst, arith, Bool, true, Option, some, List,
  [], ◌∷◌, ◌++◌, All, length,
}
use that_goes_there.Text.{decimal}
use that_goes_there.Outcome.{ok}
use that_goes_there.Exec.{Exec, pure, gets, ◌>>=◌, for_each}
use that_goes_there.Exec.Returns.{bind-behind}
use that_goes_there.Exec.Says.{Says, pure-Says, bind-Says}
use that_goes_there.Plan.Task.{PlannedTask, Plan}
use that_goes_there.Executor.Stream.{PartialLogStream, next, end, ends, Channel}
use that_goes_there.Executor.State.{on_chan}
use that_goes_there.Executor.Local.{
  FileType, Round, Machine, SimpleExecutor, sink, sink_one, execute_task, execute, finished_line,
}
use that_goes_there.Executor.Local.Quiet.{Same}
use that_goes_there.Executor.Local.Tasks.{commands_of, LoopPost, for_each-LoopPost}

-- Four additions, one after another.
joined :
    (front a b c d : List PartialLogStream) {u v w z : List PartialLogStream}
    → u ≡ front ++ a
    → v ≡ u ++ b
    → w ≡ v ++ c
    → z ≡ w ++ d
    → z ≡ front ++ (a ++ (b ++ (c ++ d)))
joined front a b c d e1 e2 e3 e4 =
    rw (e4, e3, e2, e1)
      (append_assoc ((front ++ a) ++ b) c d
        ∙ append_assoc (front ++ a) b (c ++ d)
        ∙ append_assoc front a (b ++ (c ++ d)))

-- A channel with room, and a machine whose files and executables stay as they are, and on which
-- every command can be started.
module _ (kind : String → Option FileType) (has_exe : String → Bool) (debug_str : String → String)
    (C : Channel) (M : Machine) (room : (m : PartialLogStream) (c : C.Chan) → (C.send m c).0 ≡ true)
    (stays : (p : String) (w : M.World) → (M.metadata p w).0 ≡ kind p)
    (has : (e : String) (w : M.World) → (M.which e w).0 ≡ has_exe e)
    (starts : (c : String) (args : List String) (w : M.World)
      → (rounds : List Round) × ((M.spawn c args w).0 ≡ some rounds)) where
  abbrev sent : SimpleExecutor debug_str C M → List PartialLogStream
  sent s = C.sent s.chan

  abbrev Any : {A : Type 0} → A → Type 0
  Any a = Unit

  -- The end of `execute`, for a number of completed tasks.
  abbrev finish : Plan → ℕ → Exec (SimpleExecutor debug_str C M) Unit
  finish plan done = do
    i ← sink_one debug_str C M (finished_line debug_str C M plan done)
    j ← sink debug_str C M end
    pure tt

  finish-Says :
      (plan : Plan) (done : ℕ)
      → Says sent
          (next (finished_line debug_str C M plan done ∷ []) ∷ end ∷ [])
          Any
          (finish plan done)
  finish-Says plan done =
      bind-Says sent _ _ (sink_one-said kind has_exe debug_str C M room stays has starts _) λ _ _.
        bind-Says sent _ _ (sink-said kind has_exe debug_str C M room stays has starts end)
          λ _ _. pure-Says sent tt tt

  -- The counter behind the loop over the tasks, from a fresh one.
  counted :
      (ts : List PlannedTask) (s : SimpleExecutor debug_str C M)
      → s.tasks_completed ≡ 0
      → length ts < 2 ^ 32
      → (for_each (execute_task debug_str C M) ts s).0 ≡ ok tt
      → (for_each (execute_task debug_str C M) ts s).1.tasks_completed ≡ length ts
  counted ts s fresh fits returned =
      let n = ends (C.sent s.chan) in
      let cs = M.commands s.world in
      let same : Same debug_str C M n (0 + length ts) (cs ++ commands_of ts)
          (for_each (execute_task debug_str C M) ts s).1 =
        subst
          (λ r. LoopPost debug_str C M ts n 0 cs r (for_each (execute_task debug_str C M) ts s).1)
          returned
          (for_each-LoopPost debug_str C M ts n 0 cs s (omega (arith, fits))
            (record { ended = refl; completed = fresh; started = refl })) in
      same.completed ∙ omega arith

  sink_one_counts :
      (m : String) (s : SimpleExecutor debug_str C M)
      → (sink_one debug_str C M m s).1.tasks_completed ≡ s.tasks_completed
  unfolding sink_one on_chan
  sink_one_counts m s = refl

  sink_one_leaves :
      (m : String) (s : SimpleExecutor debug_str C M)
      → (sink_one debug_str C M m s).1.world ≡ s.world
  unfolding sink_one on_chan
  sink_one_leaves m s = refl

  -- With a receiver of the logs that has room, on a machine whose files and executables stay as they
  -- are and on which every command can be started: `execute`, with a fresh counter, of a plan of fewer
  -- than 2^32 runnable tasks whose prerequisites the machine meets, returns, and there is for each
  -- task, in order, what the machine gave the loop over its child to read, at a state in which
  -- exactly the commands of the tasks before it had been started. It has sent exactly two lines for
  -- the plan, for each task a line for each prerequisite, what the loop read of its child and an
  -- empty line, then the line with the number of completed tasks, and the end, in this order.
  pub execute-transcript :
      (plan : Plan) (s : SimpleExecutor debug_str C M)
      → s.tasks_completed ≡ 0
      → length plan.blueprint < 2 ^ 32
      → All (IsReady kind has_exe debug_str C M room stays has starts) plan.blueprint
      → ((execute debug_str C M plan s).0 ≡ ok tt)
        × (reads : List (List Round)) × GivesAll M (M.commands s.world) plan.blueprint reads
        × (C.sent (execute debug_str C M plan s).1.chan
            ≡ C.sent s.chan ++ transcript debug_str C M plan reads)
  unfolding execute gets
  execute-transcript plan s fresh fits ready =
      let n = length plan.blueprint in
      let (_, e1, _, said1) =
        (sink_one-said kind has_exe debug_str C M room stays has starts
            ("* applying plan: " <> plan.name)).at
          s in
      let u = (sink_one debug_str C M ("* applying plan: " <> plan.name) s).1 in
      let (_, e2, _, said2) =
        (sink_one-said kind has_exe debug_str C M room stays has starts
            ("* steps: " <> decimal n)).at
          u in
      let v = (sink_one debug_str C M ("* steps: " <> decimal n) u).1 in
      let looped =
        for_each-AllTold kind has_exe debug_str C M room stays has starts plan.blueprint ready v in
      let w = (for_each (execute_task debug_str C M) plan.blueprint v).1 in
      let done : w.tasks_completed ≡ n =
        counted plan.blueprint v (sink_one_counts _ u ∙ sink_one_counts _ s ∙ fresh) fits
          looped.returned in
      let (_, e4, _, said4) = (finish-Says plan n).at w in
      let whole : execute debug_str C M plan s ≡ finish plan n w =
        bind-behind _ _ s e1
        ∙ bind-behind _ _ u e2
        ∙ bind-behind _ _ v looped.returned
        ∙ bind-behind (gets (λ t. t.tasks_completed)) _ w refl
        ∙ ap (λ k. finish plan k w) done in
      let given : GivesAll M (M.commands s.world) plan.blueprint looped.reads =
        subst (λ x. GivesAll M (M.commands x) plan.blueprint looped.reads)
          (sink_one_leaves _ u ∙ sink_one_leaves _ s) looped.given in
      (rw whole e4, looped.reads, given, rw whole (joined _ _ _ _ _ said1 said2 looped.said said4))
