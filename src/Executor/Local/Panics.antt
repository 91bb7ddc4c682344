-- ===== src/Executor/Local/Panics.antt =====
-- The local executor does not panic on what the planner returns.
use that_goes_there.Prelude.{String, ◌≡◌, ◌≢◌, Option, none, some, List, [], ◌∷◌, All}
use that_goes_there.Outcome.{ok, panic, Panic}
use that_goes_there.Exec.{lift, for_each}
use that_goes_there.Exec.Calm.{IsCalm, pure-IsCalm, bind-IsCalm, calm_rules}
use that_goes_there.Plan.Task.{Ensure, PlannedTask, Plan, first}
use that_goes_there.Plan.Host.{HostConfig}
use that_goes_there.Plan.TaskSet
use that_goes_there.Plan.TaskSet.{TaskSet}
use that_goes_there.Plan.TaskSet.Runnable.{IsRunnable, plan-IsRunnable}
use that_goes_there.Plan.ForHost.{plan_for_host}
use that_goes_there.Plan.ForHost.Laws.{plan_for_host-All}
use that_goes_there.Executor.Stream.{Channel}
use that_goes_there.Executor.State.{on_world, count_task}
use that_goes_there.Executor.Local.{
  Machine, or_io_error, start, run_command, unless_failed, execute_task, execute, SimpleExecutor,
}
use that_goes_there.Executor.Local.Quiet.{
  sink-IsCalm, sink_one-IsCalm, ensure_task-IsCalm, follow-IsCalm,
}

or_io_error-ne-panic : {A : Type 0} (o : Option A) (p : Panic) → or_io_error o ≢ panic p
or_io_error-ne-panic none p = λ e. cc
or_io_error-ne-panic (some a) p = λ e. cc

module _ (debug_str : String → String) (C : Channel) (M : Machine) where
  start-IsCalm : (c : String) (args : List String) → IsCalm (start debug_str C M c args)
  unfolding start on_world
  start-IsCalm c args = record { at = λ s p. or_io_error-ne-panic (M.spawn c args s.world).0 p }

  count_task-IsCalm : IsCalm {S = SimpleExecutor debug_str C M} count_task
  unfolding count_task
  count_task-IsCalm = search calm_rules

  first-IsCalm :
      (task : PlannedTask)
      → IsRunnable task
      → IsCalm {S = SimpleExecutor debug_str C M} (lift (first task.command))
  unfolding lift
  first-IsCalm task r = record { at = λ s p. rw r.words (λ e. cc) }

  run_command-IsCalm :
      (task : PlannedTask) → IsRunnable task → IsCalm (run_command debug_str C M task)
  unfolding run_command
  run_command-IsCalm task r = bind-IsCalm _ _ (first-IsCalm task r) λ c.
      bind-IsCalm _ _ (start-IsCalm c _) λ rounds.
        bind-IsCalm _ _ (follow-IsCalm debug_str C M rounds)
          λ _. bind-IsCalm _ _ (sink-IsCalm debug_str C M _) λ _. count_task-IsCalm

  unless_failed-IsCalm :
      (task : PlannedTask) (failures : List Ensure)
      → IsRunnable task
      → IsCalm (unless_failed debug_str C M task failures)
  unfolding unless_failed
  unless_failed-IsCalm task [] r = run_command-IsCalm task r
  unless_failed-IsCalm task (e ∷ es) r = search (calm_rules, sink_one-IsCalm debug_str C M)

  execute_task-IsCalm :
      (task : PlannedTask) → IsRunnable task → IsCalm (execute_task debug_str C M task)
  unfolding execute_task
  execute_task-IsCalm task r =
      bind-IsCalm _ _ (ensure_task-IsCalm debug_str C M task)
        λ failures. unless_failed-IsCalm task failures r

  tasks-IsCalm :
      (ts : List PlannedTask)
      → All IsRunnable ts
      → IsCalm (for_each (execute_task debug_str C M) ts)
  unfolding for_each
  tasks-IsCalm [] r = pure-IsCalm tt
  tasks-IsCalm (t ∷ ts) r = bind-IsCalm _ _ (execute_task-IsCalm t r.0) λ _. tasks-IsCalm ts r.1

  execute-IsCalm :
      (plan : Plan) → All IsRunnable plan.blueprint → IsCalm (execute debug_str C M plan)
  unfolding execute
  execute-IsCalm plan r = bind-IsCalm _ _ (sink_one-IsCalm debug_str C M _) λ _.
      bind-IsCalm _ _ (sink_one-IsCalm debug_str C M _) λ _.
        bind-IsCalm _ _ (tasks-IsCalm plan.blueprint r)
          λ _. search (calm_rules, sink-IsCalm debug_str C M, sink_one-IsCalm debug_str C M)

  -- The local executor never panics on the part for a host of a plan that the planner returned.
  pub execute-planned_never_panics :
      (split : String → Option (List String)) (ts : TaskSet) (plan : Plan) (host : String)
      (hosts : HostConfig) (s : SimpleExecutor debug_str C M) (p : Panic)
      → TaskSet.plan split ts ≡ ok plan
      → (execute debug_str C M (plan_for_host plan host hosts) s).0 ≢ panic p
  execute-planned_never_panics split ts plan host hosts s p h =
      (execute-IsCalm (plan_for_host plan host hosts)
          (plan_for_host-All IsRunnable plan host hosts (plan-IsRunnable split ts plan h))).at
        s p
