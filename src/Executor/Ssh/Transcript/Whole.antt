-- ===== src/Executor/Ssh/Transcript/Whole.antt =====
-- What the remote executor logs of a plan that it applies.
use mathlib.Core.List.{append_assoc, append-nil}
use that_goes_there.Prelude.{
  String, ◌<>◌, ℕ, ◌+◌, ◌^◌, ◌<◌, ◌≡◌, refl, ap, ◌∙◌, subst, arith, true, some, List, [], ◌∷◌, ◌++◌,
  All, length,
}
use that_goes_there.Text.{decimal}
use that_goes_there.Outcome.{ok}
use that_goes_there.Exec.{Exec, pure, gets, ◌>>=◌, for_each}
use that_goes_there.Exec.Returns.{bind-behind}
use that_goes_there.Exec.Says.{Says, pure-Says, bind-Says, for_each-Says}
use that_goes_there.Plan.Task.{PlannedTask, Plan}
use that_goes_there.Plan.Host.{Host}
use that_goes_there.Executor.Stream.{PartialLogStream, next, end, ends, Channel}
use that_goes_there.Executor.State.{on_chan, on_world}
use that_goes_there.Executor.Ssh.{
  Frame, Remote, SshExecutor, sink_partial, sink_one, connect_to, log_in, execute_counted,
  apply_or_refuse, execute, finished_line,
}
use that_goes_there.Executor.Ssh.Answers.{IsClean, Any}
use that_goes_there.Executor.Ssh.Quiet.{Same}
use that_goes_there.Executor.Ssh.Tasks.{scripts, LoopPost, for_each-LoopPost}
use that_goes_there.Executor.Ssh.Transcript.{
  told, transcript, transcript_behind, IsReady, sink_partial-Says, sink_one-Says, on_world-Says,
  execute_counted-Says,
}

-- Two additions, one after another.
added :
    (front a b : List PartialLogStream) {u v : List PartialLogStream}
    → u ≡ front ++ a
    → v ≡ u ++ b
    → v ≡ front ++ (a ++ b)
added front a b e1 e2 = rw (e2, e1) (append_assoc front a b)

-- A channel with room, and a remote host that lets the executor in and answers a command always
-- with the same frames, which are text and then the exit status.
module _ (frames : String → List Frame) (status : String → ℕ) (debug_str : String → String)
    (C : Channel) (R : Remote) (room : (m : PartialLogStream) (c : C.Chan) → (C.send m c).0 ≡ true)
    (opens : (w : R.World) → (R.open_session w).0 ≡ true)
    (answers : (c : String) (w : R.World) → (R.exec c w).0 ≡ some (frames c))
    (clean : (c : String) → IsClean (status c) (frames c))
    (connects : (a : String) (w : R.World) → (R.connect a w).0 ≡ true)
    (accepts : (u : String) (w : R.World) → (R.authenticate u w).0 ≡ some true) where
  abbrev logs : SshExecutor debug_str C R → List PartialLogStream
  logs s = C.sent s.chan

  connect_to-Says : (host : Host) → Says logs [] Any (connect_to debug_str C R host)
  unfolding connect_to
  connect_to-Says host =
      on_world-Says frames status debug_str C R room opens answers clean _ _
        (λ w. (tt, rw (connects _ w) refl, tt))

  log_in-Says : (host : Host) → Says logs [] (λ b. b ≡ true) (log_in debug_str C R host)
  unfolding log_in
  log_in-Says host =
      on_world-Says frames status debug_str C R room opens answers clean _ _
        (λ w. (true, rw (accepts _ w) refl, refl))

  said : (m : String) → Says logs (next (m ∷ []) ∷ []) Any (sink_one debug_str C R m)
  said = sink_one-Says frames status debug_str C R room opens answers clean

  -- The end of `execute`, for a number of completed tasks.
  abbrev finish : String → Plan → ℕ → Exec (SshExecutor debug_str C R) Unit
  finish hostname plan done = do
    n ← sink_one debug_str C R (finished_line debug_str C R plan hostname done)
    m ← sink_partial debug_str C R end
    pure tt

  finish-Says :
      (hostname : String) (plan : Plan) (done : ℕ)
      → Says logs
          (next (finished_line debug_str C R plan hostname done ∷ []) ∷ end ∷ [])
          Any
          (finish hostname plan done)
  finish-Says hostname plan done = bind-Says logs _ _ (said _) λ _ _.
      bind-Says logs _ _
        (sink_partial-Says frames status debug_str C R room opens answers clean end)
        λ _ _. pure-Says logs tt tt

  -- The counter behind the loop over the tasks, from a fresh one.
  counted :
      (ts : List PlannedTask) (s : SshExecutor debug_str C R)
      → s.tasks_completed ≡ 0
      → length ts < 2 ^ 32
      → (for_each (execute_counted debug_str C R) ts s).0 ≡ ok tt
      → (for_each (execute_counted debug_str C R) ts s).1.tasks_completed ≡ length ts
  counted ts s fresh fits returned =
      let n = ends (C.sent s.chan) in
      let cs = R.executed s.world in
      let t = (for_each (execute_counted debug_str C R) ts s).1 in
      let same : Same debug_str C R n (0 + length ts) (cs ++ scripts ts) t =
        subst (λ r. LoopPost debug_str C R ts n 0 cs r t) returned
          (for_each-LoopPost debug_str C R ts n 0 cs s (omega (arith, fits))
            (record { ended = refl; completed = fresh; executed = refl })) in
      same.completed ∙ omega arith

  -- What is in front of the loop keeps the counter.
  greeting_counts :
      (m : String) (host : Host) (s : SshExecutor debug_str C R)
      → (log_in debug_str C R host
          (connect_to debug_str C R host (sink_one debug_str C R m s).1).1).1.tasks_completed
        ≡ s.tasks_completed
  unfolding sink_one on_chan connect_to log_in on_world
  greeting_counts m host s = refl

  -- `execute` behind an accepted authentication.
  apply-transcript :
      (hostname : String) (plan : Plan) (s : SshExecutor debug_str C R)
      → s.tasks_completed ≡ 0
      → length plan.blueprint < 2 ^ 32
      → All (IsReady frames status debug_str C R room opens answers clean) plan.blueprint
      → ((apply_or_refuse debug_str C R hostname plan true s).0 ≡ ok tt)
        × (logs (apply_or_refuse debug_str C R hostname plan true s).1
            ≡ logs s ++ transcript_behind frames debug_str C R hostname plan)
  unfolding apply_or_refuse gets
  apply-transcript hostname plan s fresh fits ready =
      let n = length plan.blueprint in
      let (_, e1, _, said1) =
        (for_each-Says logs (told frames debug_str) _ plan.blueprint ready
            (execute_counted-Says frames status debug_str C R room opens answers clean)).at
          s in
      let w = (for_each (execute_counted debug_str C R) plan.blueprint s).1 in
      let (_, e2, _, said2) = (finish-Says hostname plan n).at w in
      let whole : apply_or_refuse debug_str C R hostname plan true s ≡ finish hostname plan n w =
        bind-behind _ _ s e1
        ∙ bind-behind (gets (λ t. t.tasks_completed)) _ w refl
        ∙ ap (λ k. finish hostname plan k w) (counted plan.blueprint s fresh fits e1) in
      (rw whole e2, rw whole (added (logs s) _ _ said1 said2))

  -- With a receiver of the logs that has room, on a remote host that lets the executor in and answers
  -- a command always with the same frames, which are text and then an exit status: `execute`, with a
  -- fresh counter, of a plan of fewer than 2^32 tasks whose prerequisites all pass their tests,
  -- returns, and has sent exactly the line with the number of tasks, and of each task its lines, the
  -- output of the tests of its prerequisites and of its command, and then the line with the number of
  -- completed tasks, and the end, in this order.
  pub ssh_execute-transcript :
      (host : Host) (hostname : String) (plan : Plan) (s : SshExecutor debug_str C R)
      → s.tasks_completed ≡ 0
      → length plan.blueprint < 2 ^ 32
      → All (IsReady frames status debug_str C R room opens answers clean) plan.blueprint
      → ((execute debug_str C R host hostname plan s).0 ≡ ok tt)
        × (C.sent (execute debug_str C R host hostname plan s).1.chan
            ≡ C.sent s.chan ++ transcript frames debug_str C R hostname plan)
  unfolding execute
  ssh_execute-transcript host hostname plan s fresh fits ready =
      let m = "* steps: " <> decimal (length plan.blueprint) in
      let (_, e1, _, said1) = (said m).at s in
      let u = (sink_one debug_str C R m s).1 in
      let (_, e2, _, said2) = (connect_to-Says host).at u in
      let v = (connect_to debug_str C R host u).1 in
      let (b, e3, accepted, said3) = (log_in-Says host).at v in
      let x = (log_in debug_str C R host v).1 in
      let (e4, said4) =
        apply-transcript hostname plan x (greeting_counts m host s ∙ fresh) fits ready in
      let whole : execute debug_str C R host hostname plan s
          ≡ apply_or_refuse debug_str C R hostname plan true x =
        bind-behind _ _ s e1
        ∙ bind-behind _ _ u e2
        ∙ bind-behind _ _ v e3
        ∙ ap (λ c. apply_or_refuse debug_str C R hostname plan c x) accepted in
      (
        rw whole e4,
        rw whole (added (logs s) _ _ (said3 ∙ append-nil _ ∙ said2 ∙ append-nil _ ∙ said1) said4),
      )
