-- ===== src/Executor/Local/Blocked.antt =====
-- A task whose prerequisites fail, on the local host.
use that_goes_there.Prelude.{String, ◌<>◌, ◌≡◌, refl, ap, ◌∙◌, inl, inr, List, [], ◌∷◌}
use that_goes_there.Outcome.{Report, eyre, external, Outcome, ok, err}
use that_goes_there.Exec.{throw, ◌>>=◌}
use that_goes_there.Plan.Task.{Ensure, PlannedTask}
use that_goes_there.Executor.State.{on_chan, debug_ensures}
use that_goes_there.Executor.Stream
use that_goes_there.Executor.Stream.{Channel, next, ends}
use that_goes_there.Executor.Stream.Laws.{sink_cases}
use that_goes_there.Executor.Local.{
  Machine, SimpleExecutor, sink_one, ensure_task, unless_failed, execute_task,
}
use that_goes_there.Executor.Local.Quiet.{Same, ensure_task-Same}

module _ (debug_str : String → String) (C : Channel) (M : Machine) where
  -- The outcome is an error, and neither the host nor the counter is touched.
  abbrev IsRefusal :
      SimpleExecutor debug_str C M → Outcome (Unit {0}) × SimpleExecutor debug_str C M → Type 0
  IsRefusal u (r, t) =
      ((e : Report) × (r ≡ err e)) × (t.world ≡ u.world) × (t.tasks_completed ≡ u.tasks_completed)

  unless_failed-IsRefusal :
      (task : PlannedTask) (e : Ensure) (es : List Ensure) (u : SimpleExecutor debug_str C M)
      → IsRefusal u (unless_failed debug_str C M task (e ∷ es) u)
  unfolding unless_failed throw ◌>>=◌ sink_one on_chan Stream.sink_one
  unless_failed-IsRefusal task e es u =
      let line = "ensures failed: " <> debug_ensures debug_str (e ∷ es) in
      elim (sink_cases C (next (line ∷ [])) u.chan) [
        | inl (r, _) ↦ rw r ((eyre line, refl), refl, refl)
        | inr (r, _) ↦ rw r ((external "SendError", refl), refl, refl)
      ]

  -- A task with a prerequisite that fails is an error, starts no command, and is not counted.
  pub execute_task-blocked :
      (task : PlannedTask) (e : Ensure) (es : List Ensure) (s : SimpleExecutor debug_str C M)
      → (ensure_task debug_str C M task s).0 ≡ ok (e ∷ es)
      → ((r : Report) × ((execute_task debug_str C M task s).0 ≡ err r))
        × (M.commands (execute_task debug_str C M task s).1.world ≡ M.commands s.world)
        × ((execute_task debug_str C M task s).1.tasks_completed ≡ s.tasks_completed)
  unfolding execute_task ◌>>=◌
  execute_task-blocked task e es s h =
      let u = (ensure_task debug_str C M task s).1 in
      let (failed, world, counted) = unless_failed-IsRefusal task e es u in
      let same : Same debug_str C M (ends (C.sent s.chan)) s.tasks_completed (M.commands s.world)
          u =
        (ensure_task-Same debug_str C M task).at s
          (record { ended = refl; completed = refl; started = refl }) in
      rw h (failed, ap M.commands world ∙ same.started, counted ∙ same.completed)
