-- ===== src/Executor/Local/Run.antt =====
-- What a task and a plan do to the host, the counter and the stream.
use that_goes_there.Prelude.{
  ℕ, ◌+◌, ◌%◌, ◌^◌, String, ◌≡◌, ◌⊎◌, inl, inr, refl, sym, ap, subst, ◌∙◌, Option, none, some, List,
  [], ◌∷◌, ◌++◌,
}
use that_goes_there.Outcome.{Outcome, ok, err, panic}
use that_goes_there.Exec.{Exec, lift, ◌>>=◌, modify, throw}
use that_goes_there.Exec.Post.{Meets, bind-Meets}
use that_goes_there.Plan.Task.{Ensure, PlannedTask, first}
use that_goes_there.Executor.Stream.{next, Channel}
use that_goes_there.Executor.State.{on_world, count_task}
use that_goes_there.Executor.Local.{
  Round, Machine, SimpleExecutor, or_io_error, args_of, start, run_command, unless_failed,
  execute_task, ensure_task, follow, sink, sink_one,
}
use that_goes_there.Executor.Local.Quiet.{
  Same, sink_next-Same, sink_one-Same, ensure_task-Same, follow-Same,
}

module _ (debug_str : String → String) (C : Channel) (M : Machine) where
  -- Behind a failure the command of the task was started, or it was not.
  abbrev Failed : List String → ℕ → ℕ → List (List String) → SimpleExecutor debug_str C M → Type 0
  Failed cmd n k cs t = Same debug_str C M n k cs t ⊎ Same debug_str C M n k (cs ++ cmd ∷ []) t

  -- The state after a task with this command.
  abbrev pub TaskPost :
      {A : Type 0}
      → List String
      → ℕ
      → ℕ
      → List (List String)
      → Outcome A
      → SimpleExecutor debug_str C M
      → Type 0
  TaskPost cmd n k cs (ok _) t = Same debug_str C M n ((k + 1) % 2 ^ 32) (cs ++ cmd ∷ []) t
  TaskPost cmd n k cs (err _) t = Failed cmd n k cs t
  TaskPost cmd n k cs (panic _) t = Failed cmd n k cs t

  -- The state after the start of a command.
  abbrev StartPost :
      List String
      → ℕ
      → ℕ
      → List (List String)
      → Outcome (List Round)
      → SimpleExecutor debug_str C M
      → Type 0
  StartPost cmd n k cs (ok _) t = Same debug_str C M n k (cs ++ cmd ∷ []) t
  StartPost cmd n k cs (err _) t = Same debug_str C M n k cs t
  StartPost cmd n k cs (panic _) t = Same debug_str C M n k cs t

  module _ {n k : ℕ} {cs : List (List String)} (s : SimpleExecutor debug_str C M)
      (h : Same debug_str C M n k cs s) where
    start-StartPost :
        (c : String) (args : List String)
        → Meets (StartPost (c ∷ args) n k cs) (start debug_str C M c args s)
    unfolding start on_world
    start-StartPost c args = by_result (M.spawn c args s.world).0 refl
      where
        by_result :
            (r : Option (List Round))
            → (M.spawn c args s.world).0 ≡ r
            → StartPost
                (c ∷ args)
                n
                k
                cs
                (or_io_error (M.spawn c args s.world).0)
                (record s { world = (M.spawn c args s.world).1 })
        by_result none e = rw e (record {
          ended = h.ended;
          completed = h.completed;
          started = M.commands-spawn_fails c args s.world e ∙ h.started;
        })
        by_result (some rounds) e = rw e (record {
          ended = h.ended;
          completed = h.completed;
          started =
              M.commands-spawn c args s.world rounds e ∙ ap (λ l. l ++ (c ∷ args) ∷ []) h.started;
        })

  count_task-TaskPost :
      (cmd : List String) (n k : ℕ) (cs : List (List String)) (u : SimpleExecutor debug_str C M)
      → Same debug_str C M n k (cs ++ cmd ∷ []) u
      → Meets (TaskPost cmd n k cs) (count_task u)
  unfolding count_task modify
  count_task-TaskPost cmd n k cs u h = record {
    ended = h.ended;
    completed = ap (λ (j : ℕ). (j + 1) % 2 ^ 32) h.completed;
    started = h.started;
  }

  -- `command()[0]` is the head of the command.
  abbrev FirstPost :
      List String
      → ℕ
      → ℕ
      → List (List String)
      → Outcome String
      → SimpleExecutor debug_str C M
      → Type 0
  FirstPost ws n k cs (ok c) t = (ws ≡ c ∷ args_of ws) × Same debug_str C M n k cs t
  FirstPost ws n k cs (err _) t = Same debug_str C M n k cs t
  FirstPost ws n k cs (panic _) t = Same debug_str C M n k cs t

  first-FirstPost :
      (ws : List String) {n k : ℕ} {cs : List (List String)} (s : SimpleExecutor debug_str C M)
      → Same debug_str C M n k cs s
      → Meets (FirstPost ws n k cs) (lift (first ws) s)
  unfolding lift
  first-FirstPost [] s h = h
  first-FirstPost (c ∷ args) s h = (refl, h)

  -- Behind the start of the command.
  finish-TaskPost :
      (cmd : List String) (rounds : List Round) (n k : ℕ) (cs : List (List String))
      (u : SimpleExecutor debug_str C M)
      → Same debug_str C M n k (cs ++ cmd ∷ []) u
      → Meets (TaskPost cmd n k cs) (
          (do
            followed ← follow debug_str C M rounds
            sunk ← sink debug_str C M (next ("" ∷ []))
            count_task)
            u)
  finish-TaskPost cmd rounds n k cs u h =
      bind-Meets (λ _ v. Same debug_str C M n k (cs ++ cmd ∷ []) v) (TaskPost cmd n k cs)
        (follow debug_str C M rounds) _ u ((follow-Same debug_str C M rounds).at u h)
        (λ _ v g.
          bind-Meets (λ _ w. Same debug_str C M n k (cs ++ cmd ∷ []) w) (TaskPost cmd n k cs)
            (sink debug_str C M (next ("" ∷ []))) _ v
            ((sink_next-Same debug_str C M ("" ∷ [])).at v g)
            (λ _ w f. count_task-TaskPost cmd n k cs w f) (λ _ w f. inr f) (λ _ w f. inr f))
        (λ _ v g. inr g) (λ _ v g. inr g)

  run_command-TaskPost :
      (task : PlannedTask) {n k : ℕ} {cs : List (List String)} (s : SimpleExecutor debug_str C M)
      → Same debug_str C M n k cs s
      → Meets (TaskPost task.command n k cs) (run_command debug_str C M task s)
  unfolding run_command
  run_command-TaskPost task {n} {k} {cs} s h =
      bind-Meets (FirstPost task.command n k cs) (TaskPost task.command n k cs) _ _ s
        (first-FirstPost task.command s h)
        (λ c u (e, g).
          subst (λ cmd. Meets (TaskPost cmd n k cs) (rest c u)) (sym e)
            (bind-Meets (StartPost (c ∷ args_of task.command) n k cs)
              (TaskPost (c ∷ args_of task.command) n k cs)
              (start debug_str C M c (args_of task.command)) _ u
              (start-StartPost u g c (args_of task.command))
              (λ rounds v f. finish-TaskPost (c ∷ args_of task.command) rounds n k cs v f)
              (λ _ v f. inl f) (λ _ v f. inl f)))
        (λ _ u g. inl g) (λ _ u g. inl g)
    where
      rest : String → Exec (SimpleExecutor debug_str C M) (Unit {0})
      rest c = do
        rounds ← start debug_str C M c (args_of task.command)
        followed ← follow debug_str C M rounds
        sunk ← sink debug_str C M (next ("" ∷ []))
        count_task

  unless_failed-TaskPost :
      (task : PlannedTask) (failures : List Ensure) (n k : ℕ) (cs : List (List String))
      (s : SimpleExecutor debug_str C M)
      → Same debug_str C M n k cs s
      → Meets (TaskPost task.command n k cs) (unless_failed debug_str C M task failures s)
  unfolding unless_failed throw
  unless_failed-TaskPost task [] n k cs s h = run_command-TaskPost task s h
  unless_failed-TaskPost task (e ∷ es) n k cs s h =
      bind-Meets (λ _ u. Same debug_str C M n k cs u) (TaskPost task.command n k cs)
        (sink_one debug_str C M _) _ s ((sink_one-Same debug_str C M _).at s h) (λ _ u g. inl g)
        (λ _ u g. inl g) (λ _ u g. inl g)

  -- From a state with known ends sent, counter and commands started: a task that returns has started
  -- its command, and nothing else, and is counted in 32 bits; a task that does not has started its
  -- command or nothing, and is not counted. Neither ends the stream.
  pub execute_task-TaskPost :
      (task : PlannedTask) (n k : ℕ) (cs : List (List String)) (s : SimpleExecutor debug_str C M)
      → Same debug_str C M n k cs s
      → Meets (TaskPost task.command n k cs) (execute_task debug_str C M task s)
  unfolding execute_task
  execute_task-TaskPost task n k cs s h =
      bind-Meets (λ _ u. Same debug_str C M n k cs u) (TaskPost task.command n k cs)
        (ensure_task debug_str C M task) _ s ((ensure_task-Same debug_str C M task).at s h)
        (λ failures u g. unless_failed-TaskPost task failures n k cs u g) (λ _ u g. inl g)
        (λ _ u g. inl g)
