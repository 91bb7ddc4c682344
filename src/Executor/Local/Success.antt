-- ===== src/Executor/Local/Success.antt =====
-- When the local executor applies a plan.
use that_goes_there.Prelude.{
  String, ◌≡◌, ◌↔◌, refl, sym, ◌∙◌, Bool, true, Option, some, List, [], ◌∷◌, All, All-weaken,
  All-zip,
}
use that_goes_there.Outcome.{ok, ok-injective}
use that_goes_there.Exec.{lift, gets, attempt, throw, for_each}
use that_goes_there.Exec.Returns.{
  Returns, pure-Returns, bind-Returns, for_each-Returns, bind-returned, for_each-returned,
}
use that_goes_there.Exec.Says.{Says-Returns}
use that_goes_there.Plan.Task.{Ensure, PlannedTask, Plan, first}
use that_goes_there.Plan.TaskSet.Runnable.{IsRunnable}
use that_goes_there.Executor.Stream.{PartialLogStream, end, Channel}
use that_goes_there.Executor.State.{on_world, count_task}
use that_goes_there.Executor.Failing.{failing}
use that_goes_there.Executor.Local.{
  FileType, Round, Machine, SimpleExecutor, sink, sink_one, ensure_task, follow, start, run_command,
  unless_failed, execute_task, execute, stdout, stderr, stdout_fails, stderr_fails, closed,
}
use that_goes_there.Executor.Local.Verdicts
use that_goes_there.Executor.Local.Verdicts.{is_met, ensure_task-Says}

abbrev Any : {A : Type 0} → A → Type 0
Any a = Unit

-- A channel with room, and a machine whose files and executables stay as they are, and on which
-- every command can be started.
module _ (kind : String → Option FileType) (has_exe : String → Bool) (debug_str : String → String)
    (C : Channel) (M : Machine) (room : (m : PartialLogStream) (c : C.Chan) → (C.send m c).0 ≡ true)
    (stays : (p : String) (w : M.World) → (M.metadata p w).0 ≡ kind p)
    (has : (e : String) (w : M.World) → (M.which e w).0 ≡ has_exe e)
    (starts : (c : String) (args : List String) (w : M.World)
      → (rounds : List Round) × ((M.spawn c args w).0 ≡ some rounds)) where
  -- The machine meets all prerequisites of the task.
  abbrev pub IsReady : PlannedTask → Type 0
  IsReady t = failing (is_met kind has_exe) t.ensures ≡ []

  sink-Returns : (m : PartialLogStream) → Returns Any (sink debug_str C M m)
  sink-Returns m = Says-Returns _ (Verdicts.sink-Says kind has_exe debug_str C M room stays has m)

  sink_one-Returns : (m : String) → Returns Any (sink_one debug_str C M m)
  sink_one-Returns m =
      Says-Returns _ (Verdicts.sink_one-Says kind has_exe debug_str C M room stays has m)

  start-Returns : (c : String) (args : List String) → Returns Any (start debug_str C M c args)
  unfolding start on_world
  start-Returns c args = record {
    at = λ s. let (rounds, e) = starts c args s.world in (rounds, rw e refl, tt);
  }

  sunk-Returns : (m : PartialLogStream) → Returns Any (attempt (sink debug_str C M m))
  unfolding attempt
  sunk-Returns m = record { at = λ s. (_, refl, tt) }

  follow-Returns : (rounds : List Round) → Returns Any (follow debug_str C M rounds)
  unfolding follow
  follow-Returns [] = pure-Returns tt tt
  follow-Returns (stdout c ∷ rounds) =
      bind-Returns _ _ (sunk-Returns _) λ _ _. follow-Returns rounds
  follow-Returns (stderr c ∷ rounds) =
      bind-Returns _ _ (sunk-Returns _) λ _ _. follow-Returns rounds
  follow-Returns (stdout_fails ∷ rounds) = follow-Returns rounds
  follow-Returns (stderr_fails ∷ rounds) = follow-Returns rounds
  follow-Returns (closed ∷ rounds) = pure-Returns tt tt

  first-Returns :
      (task : PlannedTask)
      → IsRunnable task
      → Returns {S = SimpleExecutor debug_str C M} Any (lift (first task.command))
  unfolding lift
  first-Returns task r = record { at = λ s. (r.exe, rw r.words refl, tt) }

  run_command-Returns :
      (task : PlannedTask) → IsRunnable task → Returns Any (run_command debug_str C M task)
  unfolding run_command count_task
  run_command-Returns task r = bind-Returns _ _ (first-Returns task r) λ c _.
      bind-Returns _ _ (start-Returns c _) λ rounds _.
        bind-Returns _ _ (follow-Returns rounds)
          λ _ _. bind-Returns _ _ (sink-Returns _) λ _ _. record { at = λ s. (tt, refl, tt) }

  unless_failed-Returns :
      (task : PlannedTask) (failures : List Ensure)
      → IsRunnable task
      → failures ≡ []
      → Returns Any (unless_failed debug_str C M task failures)
  unfolding unless_failed
  unless_failed-Returns task [] r h = run_command-Returns task r
  unless_failed-Returns task (e ∷ es) r h = absurd (cc)

  ensure_task-Returns :
      (task : PlannedTask)
      → Returns
          (λ fs. fs ≡ failing (is_met kind has_exe) task.ensures)
          (ensure_task debug_str C M task)
  ensure_task-Returns task =
      Says-Returns _ (ensure_task-Says kind has_exe debug_str C M room stays has task)

  execute_task-Returns :
      (task : PlannedTask)
      → IsRunnable task × IsReady task
      → Returns Any (execute_task debug_str C M task)
  unfolding execute_task
  execute_task-Returns task (r, ready) =
      bind-Returns _ _ (ensure_task-Returns task)
        λ fs e. unless_failed-Returns task fs r (e ∙ ready)

  execute-Returns :
      (plan : Plan)
      → All (λ t. IsRunnable t × IsReady t) plan.blueprint
      → Returns Any (execute debug_str C M plan)
  unfolding execute gets
  execute-Returns plan h = bind-Returns _ _ (sink_one-Returns _) λ _ _.
      bind-Returns _ _ (sink_one-Returns _) λ _ _.
        bind-Returns _ _ (for_each-Returns _ plan.blueprint h execute_task-Returns) λ _ _.
          bind-Returns {P = Any} _ _ (record { at = λ s. (_, refl, tt) })
            λ n _.
              bind-Returns _ _ (sink_one-Returns _)
                λ _ _. bind-Returns _ _ (sink-Returns end) λ _ _. pure-Returns tt tt

  no_failures :
      (task : PlannedTask) (failures : List Ensure) (s : SimpleExecutor debug_str C M)
      → (unless_failed debug_str C M task failures s).0 ≡ ok tt
      → failures ≡ []
  unfolding unless_failed throw
  no_failures task [] s h = refl
  no_failures task (e ∷ es) s h =
      let (_, _, k) = bind-returned (sink_one debug_str C M _) _ s h in absurd (cc)

  execute_task-IsReady :
      (task : PlannedTask) (s : SimpleExecutor debug_str C M)
      → (execute_task debug_str C M task s).0 ≡ ok tt
      → IsReady task
  unfolding execute_task
  execute_task-IsReady task s h =
      let (fs, e, k) = bind-returned (ensure_task debug_str C M task) _ s h in
      let (found, r, failures) = (ensure_task-Returns task).at s in
      sym failures ∙ ok-injective (sym r ∙ e) ∙ no_failures task fs _ k

  execute-IsReady :
      (plan : Plan) (s : SimpleExecutor debug_str C M)
      → (execute debug_str C M plan s).0 ≡ ok tt
      → All IsReady plan.blueprint
  unfolding execute
  execute-IsReady plan s h =
      let (_, _, h1) = bind-returned (sink_one debug_str C M _) _ s h in
      let (_, _, h2) = bind-returned (sink_one debug_str C M _) _ _ h1 in
      let (_, k, _) = bind-returned (for_each (execute_task debug_str C M) plan.blueprint) _ _ h2 in
      All-weaken plan.blueprint (λ t (u, x). execute_task-IsReady t u x)
        (for_each-returned _ plan.blueprint _ k)

  -- With a receiver of the logs that has room, on a machine whose files and executables stay as
  -- they are and on which every command can be started: a plan whose tasks are
  -- runnable, as those of the planner are, is applied without an error exactly if the machine meets
  -- every prerequisite of every task.
  pub local_execute_succeeds_iff :
      (plan : Plan) (s : SimpleExecutor debug_str C M)
      → All IsRunnable plan.blueprint
      → ((execute debug_str C M plan s).0 ≡ ok tt) ↔ All IsReady plan.blueprint
  local_execute_succeeds_iff plan s r = (
    execute-IsReady plan s,
    λ h. ((execute-Returns plan (All-zip _ _ plan.blueprint r h)).at s).1,
  )
