-- ===== src/Executor/Ssh/Blocked.antt =====
-- A task whose prerequisites fail, on a remote host.
use that_goes_there.Prelude.{
  ℕ, String, ◌<>◌, ◌≡◌, refl, subst, ap, ◌∙◌, inl, inr, List, [], ◌∷◌, ◌++◌, map,
}
use that_goes_there.Outcome.{Report, eyre, external, Outcome, ok, err}
use that_goes_there.Exec.{throw, ◌>>=◌}
use that_goes_there.Plan.Task.{Ensure, PlannedTask}
use that_goes_there.Executor.State.{on_chan, debug_ensures}
use that_goes_there.Executor.Stream
use that_goes_there.Executor.Stream.{Channel, next, ends}
use that_goes_there.Executor.Stream.Laws.{sink_cases}
use that_goes_there.Executor.Ssh.{
  Remote, SshExecutor, sink_one, probe, ensure_from, ensure_task, unless_failed, execute_task,
  execute_counted,
}
use that_goes_there.Executor.Ssh.Quiet.{Same, sink_one-Same}
use that_goes_there.Executor.Ssh.Run.{RunPost, ensure_from-RunPost}

module _ (debug_str : String → String) (C : Channel) (R : Remote) where
  -- The outcome is an error, and neither the host nor the counter is touched.
  abbrev IsRefusal :
      SshExecutor debug_str C R → Outcome (Unit {0}) × SshExecutor debug_str C R → Type 0
  IsRefusal u (r, t) =
      ((e : Report) × (r ≡ err e)) × (t.world ≡ u.world) × (t.tasks_completed ≡ u.tasks_completed)

  unless_failed-IsRefusal :
      (task : PlannedTask) (e : Ensure) (es : List Ensure) (u : SshExecutor debug_str C R)
      → IsRefusal u (unless_failed debug_str C R task (e ∷ es) u)
  unfolding unless_failed throw ◌>>=◌ sink_one on_chan Stream.sink_one
  unless_failed-IsRefusal task e es u =
      let line = "ensures failed: " <> debug_ensures debug_str (e ∷ es) in
      elim (sink_cases C (next (line ∷ [])) u.chan) [
        | inl (r, _) ↦ rw r ((eyre line, refl), refl, refl)
        | inr (r, _) ↦ rw r ((external "SendError", refl), refl, refl)
      ]

  abbrev pub announced :
      PlannedTask → SshExecutor debug_str C R → Outcome ℕ × SshExecutor debug_str C R
  announced task s = sink_one debug_str C R ("** executing task: " <> task.name) s

  execute_task-refused :
      (task : PlannedTask) (n : ℕ) (e : Ensure) (es : List Ensure) (s : SshExecutor debug_str C R)
      → (announced task s).0 ≡ ok n
      → (ensure_task debug_str C R task (announced task s).1).0 ≡ ok (e ∷ es)
      → ((r : Report) × ((execute_task debug_str C R task s).0 ≡ err r))
        × (R.executed (execute_task debug_str C R task s).1.world
            ≡ R.executed s.world ++ map probe task.ensures)
        × ((execute_task debug_str C R task s).1.tasks_completed ≡ s.tasks_completed)
  unfolding execute_task ensure_task ◌>>=◌
  execute_task-refused task n e es s a h =
      let t = (announced task s).1 in
      let u = (ensure_from debug_str C R [] task.ensures t).1 in
      let (failed, world, counted) = unless_failed-IsRefusal task e es u in
      let k = ends (C.sent s.chan) in
      let before : Same debug_str C R k s.tasks_completed (R.executed s.world) t =
        (sink_one-Same debug_str C R _).at s
          (record { ended = refl; completed = refl; executed = refl }) in
      let same : Same debug_str C R k s.tasks_completed
          (R.executed s.world ++ map probe task.ensures) u =
        subst
          (λ r.
            RunPost debug_str C R (map probe task.ensures) k s.tasks_completed (R.executed s.world)
              r u)
          h
          (ensure_from-RunPost debug_str C R task.ensures [] k s.tasks_completed
            (R.executed s.world) t before) in
      rw (a, h) (failed, ap R.executed world ∙ same.executed, counted ∙ same.completed)

  -- A task with a prerequisite that fails, behind its first line of log, ends the loop of `execute`
  -- with an error: the tests of its prerequisites have been executed and its command has not, and
  -- the counter is as it was.
  pub execute_counted-refused :
      (task : PlannedTask) (n : ℕ) (e : Ensure) (es : List Ensure) (s : SshExecutor debug_str C R)
      → (announced task s).0 ≡ ok n
      → (ensure_task debug_str C R task (announced task s).1).0 ≡ ok (e ∷ es)
      → ((r : Report) × ((execute_counted debug_str C R task s).0 ≡ err r))
        × (R.executed (execute_counted debug_str C R task s).1.world
            ≡ R.executed s.world ++ map probe task.ensures)
        × ((execute_counted debug_str C R task s).1.tasks_completed ≡ s.tasks_completed)
  unfolding execute_counted ◌>>=◌
  execute_counted-refused task n e es s a h =
      let ((r, failed), executed, counted) = execute_task-refused task n e es s a h in
      rw failed ((r, refl), executed, counted)
