-- ===== src/Plan/TaskSet/Runnable/Positive.antt =====
-- The prerequisites that the planner gives to tasks.
use that_goes_there.Prelude.{String, ◌≡◌, refl, Option, List, All}
use that_goes_there.Text.FilePath.{parent}
use that_goes_there.Outcome.{ok}
use that_goes_there.Outcome.Traverse.{traverse-All}
use that_goes_there.Plan.Task.{
  Task, command, create_directory, touch_file, Ensure, file_exists, directory_exists,
  file_doesnt_exist, directory_doesnt_exist, exe_exists, PlannedTask, Plan,
}
use that_goes_there.Plan.TaskSet.{TaskSet, plan}
use that_goes_there.Plan.TaskSet.Compile.{compile}
use that_goes_there.Plan.TaskSet.Runnable.{
  compile-command, compile-touch_file, created, blueprint-traverse,
}

-- A prerequisite that something exists.
abbrev pub IsPositive : Ensure → Type 0
IsPositive (file_exists p) = Unit
IsPositive (directory_exists p) = Unit
IsPositive (file_doesnt_exist p) = ⊥
IsPositive (directory_doesnt_exist p) = ⊥
IsPositive (exe_exists e) = Unit

module _ (split : String → Option (List String)) where
  compile-IsPositive :
      (t : Task) (q : PlannedTask) → compile split t ≡ ok q → All IsPositive q.ensures
  compile-IsPositive (command n c hs) q h =
      let (w, ws, e, s) = compile-command split n c hs (split c) q refl h in rw s (tt, tt)
  compile-IsPositive (create_directory n p hs) q h = rw (← created split n p hs q h) (tt, tt)
  compile-IsPositive (touch_file n p hs) q h =
      let (dir, e, s) = compile-touch_file split n p hs (parent p) q refl h in rw s (tt, (tt, tt))

  -- The planner only asks that something exists.
  pub plan-IsPositive :
      (ts : TaskSet) (p : Plan)
      → plan split ts ≡ ok p
      → All (λ (t : PlannedTask). All IsPositive t.ensures) p.blueprint
  plan-IsPositive ts p h =
      traverse-All (compile split) (λ (t : PlannedTask). All IsPositive t.ensures)
        compile-IsPositive _ _ (blueprint-traverse split ts p h).0
