-- ===== src/Executor/Ssh/Success.antt =====
-- When the remote executor applies a plan.
use that_goes_there.Prelude.{
  String, ◌≡◌, refl, ap, ◌∙◌, Bool, true, false, Option, some, List, [], ◌∷◌, All, All-weaken,
}
use that_goes_there.Outcome.{ok}
use that_goes_there.Exec.{gets}
use that_goes_there.Exec.Returns.{Returns, pure-Returns, bind-Returns, for_each-Returns}
use that_goes_there.Plan.Task.{
  Ensure, file_exists, directory_exists, file_doesnt_exist, directory_doesnt_exist, exe_exists,
  PlannedTask, Plan,
}
use that_goes_there.Plan.Host.{Host, HostConfig}
use that_goes_there.Plan.TaskSet
use that_goes_there.Plan.TaskSet.{TaskSet}
use that_goes_there.Plan.TaskSet.Runnable.Positive.{IsPositive, plan-IsPositive}
use that_goes_there.Plan.ForHost.{plan_for_host}
use that_goes_there.Plan.ForHost.Laws.{plan_for_host-All}
use that_goes_there.Executor.Stream.{PartialLogStream, end, Channel}
use that_goes_there.Executor.State.{on_world, count_task}
use that_goes_there.Executor.Failing.{failing-none}
use that_goes_there.Executor.Ssh.Answers
use that_goes_there.Executor.Ssh.Answers.{IsClean, Any, execute_command-Returns, ensure_task-found}
use that_goes_there.Executor.Ssh.{
  Frame, Remote, SshExecutor, sink_partial, sink_one, passes, ensure_task, run_command,
  unless_failed, execute_task, execute_counted, connect_to, log_in, apply_or_refuse, execute,
}

passes-IsPositive : (e : Ensure) → IsPositive e → passes e 0 ≡ true
unfolding passes
passes-IsPositive (file_exists p) h = refl
passes-IsPositive (directory_exists p) h = refl
passes-IsPositive (file_doesnt_exist p) h = absurd h
passes-IsPositive (directory_doesnt_exist p) h = absurd h
passes-IsPositive (exe_exists e) h = refl

-- A channel with room, and a remote host that accepts the key and on which every command exits
-- with the status 0.
module _ (debug_str : String → String) (C : Channel) (R : Remote)
    (room : (m : PartialLogStream) (c : C.Chan) → (C.send m c).0 ≡ true)
    (connects : (a : String) (w : R.World) → (R.connect a w).0 ≡ true)
    (accepts : (u : String) (w : R.World) → (R.authenticate u w).0 ≡ some true)
    (opens : (w : R.World) → (R.open_session w).0 ≡ true)
    (succeeds : (c : String) (w : R.World)
      → (fs : List Frame) × ((R.exec c w).0 ≡ some fs) × IsClean 0 fs) where
  -- What is known of a remote host on which every command exits with the status 0.
  sink_partial-Returns : (m : PartialLogStream) → Returns Any (sink_partial debug_str C R m)
  sink_partial-Returns = Answers.sink_partial-Returns debug_str C R (λ _. 0) room opens succeeds

  sink_one-Returns : (m : String) → Returns Any (sink_one debug_str C R m)
  sink_one-Returns = Answers.sink_one-Returns debug_str C R (λ _. 0) room opens succeeds

  ensure_task-clear :
      (task : PlannedTask)
      → All IsPositive task.ensures
      → Returns (λ failures. failures ≡ []) (ensure_task debug_str C R task)
  ensure_task-clear task h = record {
    at = λ s. (
      [],
      ensure_task-found debug_str C R (λ _. 0) room opens succeeds task s
          ∙ ap ok (failing-none _ task.ensures (All-weaken task.ensures passes-IsPositive h)),
      refl,
    );
  }

  unless_failed-Returns :
      (task : PlannedTask) (failures : List Ensure)
      → failures ≡ []
      → Returns Any (unless_failed debug_str C R task failures)
  unfolding unless_failed run_command
  unless_failed-Returns task [] h = bind-Returns _ _ (sink_one-Returns _) λ _ _.
      bind-Returns _ _ (execute_command-Returns debug_str C R (λ _. 0) room opens succeeds _)
        λ _ _. bind-Returns _ _ (sink_one-Returns "") λ _ _. pure-Returns tt tt
  unless_failed-Returns task (e ∷ es) h = absurd (cc)

  execute_counted-Returns :
      (task : PlannedTask)
      → All IsPositive task.ensures
      → Returns Any (execute_counted debug_str C R task)
  unfolding execute_counted execute_task count_task
  execute_counted-Returns task h =
      bind-Returns _ _
        (bind-Returns _ _ (sink_one-Returns _) λ _ _.
          bind-Returns _ _ (ensure_task-clear task h)
            λ failures clear. unless_failed-Returns task failures clear)
        λ _ _. record { at = λ s. (tt, refl, tt) }

  apply-Returns :
      (hostname : String) (plan : Plan) (accepted : Bool)
      → All (λ (t : PlannedTask). All IsPositive t.ensures) plan.blueprint
      → accepted ≡ true
      → Returns Any (apply_or_refuse debug_str C R hostname plan accepted)
  unfolding apply_or_refuse gets
  apply-Returns hostname plan true h a =
      bind-Returns _ _ (for_each-Returns _ plan.blueprint h execute_counted-Returns) λ _ _.
        bind-Returns {P = Any} _ _ (record { at = λ s. (_, refl, tt) })
          λ n _.
            bind-Returns _ _ (sink_one-Returns _)
              λ _ _. bind-Returns _ _ (sink_partial-Returns end) λ _ _. pure-Returns tt tt
  apply-Returns hostname plan false h a = absurd (cc)

  connect_to-Returns : (host : Host) → Returns Any (connect_to debug_str C R host)
  unfolding connect_to on_world
  connect_to-Returns host = record { at = λ s. (tt, rw (connects _ s.world) refl, tt) }

  log_in-Returns : (host : Host) → Returns (λ b. b ≡ true) (log_in debug_str C R host)
  unfolding log_in on_world
  log_in-Returns host = record { at = λ s. (true, rw (accepts _ s.world) refl, refl) }

  ssh_execute_succeeds :
      (host : Host) (hostname : String) (plan : Plan) (s : SshExecutor debug_str C R)
      → All (λ (t : PlannedTask). All IsPositive t.ensures) plan.blueprint
      → (execute debug_str C R host hostname plan s).0 ≡ ok tt
  unfolding execute
  ssh_execute_succeeds host hostname plan s h =
      let whole = bind-Returns {P = Any} (sink_one debug_str C R _) _ (sink_one-Returns _) λ _ _.
        bind-Returns _ _ (connect_to-Returns host) λ _ _.
          bind-Returns _ _ (log_in-Returns host)
            λ accepted a. apply-Returns hostname plan accepted h a in
      (whole.at s).1

  -- With a receiver of the logs that has room, on a remote host that can be reached, accepts the
  -- key, and runs every command to the exit status 0 with no output but text, `execute` returns for
  -- the part for a host of every plan that the planner returned.
  pub planned_execute_succeeds :
      (split : String → Option (List String)) (ts : TaskSet) (plan : Plan) (hosts : HostConfig)
      (host : Host) (hostname : String) (s : SshExecutor debug_str C R)
      → TaskSet.plan split ts ≡ ok plan
      → (execute debug_str C R host hostname (plan_for_host plan hostname hosts) s).0 ≡ ok tt
  planned_execute_succeeds split ts plan hosts host hostname s h =
      ssh_execute_succeeds host hostname (plan_for_host plan hostname hosts) s (
        plan_for_host-All (λ t. All IsPositive t.ensures) plan hostname hosts
          (plan-IsPositive split ts plan h))
