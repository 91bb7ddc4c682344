-- ===== src/Executor/Local/Transcript.antt =====
-- What the local executor logs of a task that it applies, and of a plan.
pub mod Whole
use mathlib.Core.List.{append-nil, append_assoc}
use that_goes_there.Prelude.{
  String, ◌<>◌, ◌+◌, ◌%◌, ◌^◌, ◌≡◌, refl, sym, ap, ◌∙◌, subst, Bool, true, Option, none, some, List,
  [], ◌∷◌, ◌++◌, length, All,
}
use that_goes_there.Text.{decimal}
use that_goes_there.Outcome.{ok}
use that_goes_there.Exec.{Exec, pure, lift, attempt, for_each, ◌>>=◌}
use that_goes_there.Exec.Returns.{bind-behind}
use that_goes_there.Exec.Says.{Says, pure-Says, bind-Says, flat}
use that_goes_there.Plan.Task.{PlannedTask, Plan, first}
use that_goes_there.Plan.TaskSet.Runnable.{IsRunnable}
use that_goes_there.Executor.Stream.{PartialLogStream, next, end, ends, Channel}
use that_goes_there.Executor.State.{count_task, on_world}
use that_goes_there.Executor.Failing.{failing}
use that_goes_there.Executor.Local.{
  FileType, Round, Machine, SimpleExecutor, sink, sink_one, follow, start, run_command, ensure_task,
  unless_failed, execute_task, stdout, stderr, stdout_fails, stderr_fails, closed, decode, args_of,
  finished_line,
}
use that_goes_there.Executor.Local.Verdicts.{
  is_met, ensuring, ensure_task-Says, sink-Says, sink_one-Says,
}
use that_goes_there.Executor.Local.Heard.{heard, told, all_told, Gives, GivesAll, child-words}
use that_goes_there.Executor.Local.Quiet.{Same, ensure_task-Same}
use that_goes_there.Executor.Local.Run.{TaskPost, execute_task-TaskPost}

-- A channel with room, and a machine whose files and executables stay as they are, and on which
-- every command can be started.
module _ (kind : String → Option FileType) (has_exe : String → Bool) (debug_str : String → String)
    (C : Channel) (M : Machine) (room : (m : PartialLogStream) (c : C.Chan) → (C.send m c).0 ≡ true)
    (stays : (p : String) (w : M.World) → (M.metadata p w).0 ≡ kind p)
    (has : (e : String) (w : M.World) → (M.which e w).0 ≡ has_exe e)
    (starts : (c : String) (args : List String) (w : M.World)
      → (rounds : List Round) × ((M.spawn c args w).0 ≡ some rounds)) where
  abbrev pub sent : SimpleExecutor debug_str C M → List PartialLogStream
  sent s = C.sent s.chan

  abbrev pub Any : {A : Type 0} → A → Type 0
  Any a = Unit

  abbrev pub IsReady : PlannedTask → Type 0
  IsReady t = IsRunnable t × (failing (is_met kind has_exe) t.ensures ≡ [])

  pub sink-said : (m : PartialLogStream) → Says sent (m ∷ []) Any (sink debug_str C M m)
  sink-said = sink-Says kind has_exe debug_str C M room stays has

  pub sink_one-said : (m : String) → Says sent (next (m ∷ []) ∷ []) Any (sink_one debug_str C M m)
  sink_one-said = sink_one-Says kind has_exe debug_str C M room stays has

  attempt-Says : (m : PartialLogStream) → Says sent (m ∷ []) Any (attempt (sink debug_str C M m))
  unfolding attempt
  attempt-Says m = record {
    at = λ s. let (_, _, _, said) = (sink-said m).at s in (_, refl, tt, said);
  }

  follow-Says : (rounds : List Round) → Says sent (heard rounds) Any (follow debug_str C M rounds)
  unfolding follow
  follow-Says [] = pure-Says sent tt tt
  follow-Says (stdout c ∷ rounds) = bind-Says sent _ _ (attempt-Says _) λ _ _. follow-Says rounds
  follow-Says (stderr c ∷ rounds) = bind-Says sent _ _ (attempt-Says _) λ _ _. follow-Says rounds
  follow-Says (stdout_fails ∷ rounds) = follow-Says rounds
  follow-Says (stderr_fails ∷ rounds) = follow-Says rounds
  follow-Says (closed ∷ rounds) = pure-Says sent tt tt

  count_task-Says : Says sent [] Any (count_task)
  unfolding count_task
  count_task-Says = record { at = λ s. (tt, refl, tt, sym (append-nil (C.sent s.chan))) }

  -- What `run_command` does once its child runs.
  abbrev behind : List Round → Exec (SimpleExecutor debug_str C M) Unit
  behind rounds = do
    followed ← follow debug_str C M rounds
    n ← sink debug_str C M (next ("" ∷ []))
    count_task

  behind-Says :
      (rounds : List Round) → Says sent (heard rounds ++ next ("" ∷ []) ∷ []) Any (behind rounds)
  behind-Says rounds =
      bind-Says sent _ _ (follow-Says rounds)
        λ _ _. bind-Says sent _ _ (sink-said _) λ _ _. count_task-Says

  -- What a task makes of a state: the rounds read, its messages, and its command started.
  pub record Told (t : PlannedTask) (s : SimpleExecutor debug_str C M) : Type 0 where
    pub rounds : List Round
    pub given : Gives M (M.commands s.world) t.command rounds
    pub returned : (execute_task debug_str C M t s).0 ≡ ok tt
    pub said : sent (execute_task debug_str C M t s).1 ≡ sent s ++ told debug_str t rounds
    pub started :
        M.commands (execute_task debug_str C M t s).1.world ≡ M.commands s.world ++ t.command ∷ []

  run_command-behind :
      (t : PlannedTask) (r : IsRunnable t) (u : SimpleExecutor debug_str C M) (rounds : List Round)
      → (M.spawn r.exe (args_of t.command) u.world).0 ≡ some rounds
      → run_command debug_str C M t u
        ≡ behind rounds (start debug_str C M r.exe (args_of t.command) u).1
  unfolding run_command start on_world lift
  run_command-behind t r u rounds e =
      bind-behind (lift (first t.command)) _ u (rw r.words refl)
      ∙ bind-behind (start debug_str C M r.exe (args_of t.command)) _ u (rw e refl)

  execute_task-run_command :
      (t : PlannedTask) (s : SimpleExecutor debug_str C M)
      → (ensure_task debug_str C M t s).0 ≡ ok []
      → execute_task debug_str C M t s
        ≡ run_command debug_str C M t (ensure_task debug_str C M t s).1
  unfolding execute_task unless_failed
  execute_task-run_command t s e = bind-behind (ensure_task debug_str C M t) _ s e

  started_after :
      (t : PlannedTask) (s : SimpleExecutor debug_str C M)
      → (execute_task debug_str C M t s).0 ≡ ok tt
      → M.commands (execute_task debug_str C M t s).1.world ≡ M.commands s.world ++ t.command ∷ []
  started_after t s e =
      let n = ends (C.sent s.chan) in
      let same : Same debug_str C M n ((s.tasks_completed + 1) % 2 ^ 32)
          (M.commands s.world ++ t.command ∷ []) (execute_task debug_str C M t s).1 =
        subst
          (λ r.
            TaskPost debug_str C M t.command n s.tasks_completed (M.commands s.world) r
              (execute_task debug_str C M t s).1)
          e
          (execute_task-TaskPost debug_str C M t n s.tasks_completed (M.commands s.world) s
            (record { ended = refl; completed = refl; started = refl })) in
      same.started

  pub execute_task-Told :
      (t : PlannedTask) → IsReady t → (s : SimpleExecutor debug_str C M) → Told t s
  unfolding start on_world
  execute_task-Told t (r, ready) s =
      let (found, e, which_fail, said1) =
        (ensure_task-Says kind has_exe debug_str C M room stays has t).at s in
      let u = (ensure_task debug_str C M t s).1 in
      let same : Same debug_str C M (ends (C.sent s.chan)) s.tasks_completed (M.commands s.world)
          u =
        (ensure_task-Same debug_str C M t).at s
          (record { ended = refl; completed = refl; started = refl }) in
      let (rounds, spawned) = starts r.exe (args_of t.command) u.world in
      let v = (start debug_str C M r.exe (args_of t.command) u).1 in
      let (_, e2, _, said2) = (behind-Says rounds).at v in
      let whole : execute_task debug_str C M t s ≡ behind rounds v =
        execute_task-run_command t s (e ∙ ap ok (which_fail ∙ ready))
        ∙ run_command-behind t r u rounds spawned in
      let returned : (execute_task debug_str C M t s).0 ≡ ok tt = rw whole e2 in
      record {
        rounds = rounds;
        given = (u.world, same.started, child-words M t.command _ _ u.world r.words ∙ spawned);
        returned = returned;
        said =
            rw whole said2
            ∙ ap (λ l. l ++ (heard rounds ++ next ("" ∷ []) ∷ [])) said1
            ∙ append_assoc (sent s) _ _;
        started = started_after t s returned;
      }

  -- The loop over tasks that are ready.
  pub record AllTold (ts : List PlannedTask) (s : SimpleExecutor debug_str C M) : Type 0 where
    pub reads : List (List Round)
    pub given : GivesAll M (M.commands s.world) ts reads
    pub returned : (for_each (execute_task debug_str C M) ts s).0 ≡ ok tt
    pub said :
        sent (for_each (execute_task debug_str C M) ts s).1 ≡ sent s ++ all_told debug_str ts reads

  pub for_each-AllTold :
      (ts : List PlannedTask) → All IsReady ts → (s : SimpleExecutor debug_str C M) → AllTold ts s
  unfolding for_each pure
  for_each-AllTold [] ready s = record {
    reads = [];
    given = refl;
    returned = refl;
    said = sym (append-nil (sent s));
  }
  for_each-AllTold (t ∷ ts) ready s =
      let now = execute_task-Told t ready.0 s in
      let u = (execute_task debug_str C M t s).1 in
      let later = for_each-AllTold ts ready.1 u in
      let whole =
        bind-behind (execute_task debug_str C M t) (λ _. for_each (execute_task debug_str C M) ts) s
          now.returned in
      record {
        reads = now.rounds ∷ later.reads;
        given = (now.given, subst (λ cs. GivesAll M cs ts later.reads) now.started later.given);
        returned = rw whole later.returned;
        said =
            rw whole later.said
            ∙ ap (λ l. l ++ all_told debug_str ts later.reads) now.said
            ∙ append_assoc (sent s) _ _;
      }
