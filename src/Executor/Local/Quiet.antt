-- ===== src/Executor/Local/Quiet.antt =====
-- The parts of the local executor that start no command, complete no task and end no stream.
use that_goes_there.Prelude.{ℕ, String, ◌≡◌, inl, inr, Bool, ◌∙◌, Option, none, some, List, [], ◌∷◌}
use that_goes_there.Exec.{lift}
use that_goes_there.Exec.Keeps.{Keeps, Keeps-bind, Keeps-attempt, keeps_rules}
use that_goes_there.Exec.Calm.{IsCalm, attempt-IsCalm, bind-IsCalm, calm_rules}
use that_goes_there.Plan.Task.{
  Ensure, file_exists, directory_exists, file_doesnt_exist, directory_doesnt_exist, exe_exists,
  PlannedTask,
}
use that_goes_there.Executor.Stream
use that_goes_there.Executor.Stream.{PartialLogStream, next, ends, Channel}
use that_goes_there.Executor.Stream.Laws.{sink_cases, ends-sink_next}
use that_goes_there.Executor.State.{on_chan, on_world}
use that_goes_there.Executor.Local.{
  FileType, Round, stdout, stderr, stdout_fails, stderr_fails, closed, Machine, SimpleExecutor,
  or_io_error, decode, sink, sink_one, stat, stat_again, is_missing, check, ensure_from,
  ensure_task, follow,
}

module _ (debug_str : String → String) (C : Channel) (M : Machine) where
  -- The ends sent, the tasks completed and the commands started are these.
  pub record Same (n k : ℕ) (cs : List (List String)) (s : SimpleExecutor debug_str C M)
      : Type 0 where
    pub ended : ends (C.sent s.chan) ≡ n
    pub completed : s.tasks_completed ≡ k
    pub started : M.commands s.world ≡ cs

  module _ {n k : ℕ} {cs : List (List String)} where
    pub sink_next-Same : (l : List String) → Keeps (Same n k cs) (sink debug_str C M (next l))
    unfolding sink on_chan
    sink_next-Same l = record {
      at = λ s h. record {
        ended = ends-sink_next C l s.chan ∙ h.ended;
        completed = h.completed;
        started = h.started;
      };
    }

    pub sink_one-Same : (l : String) → Keeps (Same n k cs) (sink_one debug_str C M l)
    unfolding sink_one on_chan Stream.sink_one
    sink_one-Same l = record {
      at = λ s h. record {
        ended = ends-sink_next C (l ∷ []) s.chan ∙ h.ended;
        completed = h.completed;
        started = h.started;
      };
    }

    stat-Same : (p : String) → Keeps (Same n k cs) (stat debug_str C M p)
    unfolding stat on_world
    stat-Same p = record {
      at = λ s h. record {
        ended = h.ended;
        completed = h.completed;
        started = M.commands-metadata p s.world ∙ h.started;
      };
    }

    stat_again-Same :
        (test : FileType → Bool) (p : String) (found : Option FileType)
        → Keeps (Same n k cs) (stat_again debug_str C M test p found)
    unfolding stat_again
    stat_again-Same test p none = search keeps_rules
    stat_again-Same test p (some t) = search (keeps_rules, stat-Same)

    is_missing-Same : (p : String) → Keeps (Same n k cs) (is_missing debug_str C M p)
    unfolding is_missing
    is_missing-Same p = search (keeps_rules, stat-Same)

    pub check-Same : (e : Ensure) → Keeps (Same n k cs) (check debug_str C M e)
    unfolding check on_world
    check-Same (directory_doesnt_exist p) = is_missing-Same p
    check-Same (directory_exists p) = search (keeps_rules, stat-Same, stat_again-Same)
    check-Same (file_doesnt_exist p) = is_missing-Same p
    check-Same (file_exists p) = search (keeps_rules, stat-Same, stat_again-Same)
    check-Same (exe_exists e) = record {
      at = λ s h. record {
        ended = h.ended;
        completed = h.completed;
        started = M.commands-which e s.world ∙ h.started;
      };
    }

    ensure_from-Same :
        (es failures : List Ensure) → Keeps (Same n k cs) (ensure_from debug_str C M failures es)
    unfolding ensure_from
    ensure_from-Same [] failures = search keeps_rules
    ensure_from-Same (e ∷ es) failures =
        search (keeps_rules, sink_one-Same, check-Same, ensure_from-Same es)

    pub ensure_task-Same : (t : PlannedTask) → Keeps (Same n k cs) (ensure_task debug_str C M t)
    unfolding ensure_task
    ensure_task-Same t = ensure_from-Same t.ensures []

    pub follow-Same : (rounds : List Round) → Keeps (Same n k cs) (follow debug_str C M rounds)
    unfolding follow
    follow-Same [] = search keeps_rules
    follow-Same (stdout c ∷ rs) =
        Keeps-bind _ _ (Keeps-attempt _ (sink_next-Same (decode c ∷ []))) (λ _. follow-Same rs)
    follow-Same (stderr c ∷ rs) =
        Keeps-bind _ _ (Keeps-attempt _ (sink_next-Same (decode c ∷ []))) (λ _. follow-Same rs)
    follow-Same (stdout_fails ∷ rs) = follow-Same rs
    follow-Same (stderr_fails ∷ rs) = follow-Same rs
    follow-Same (closed ∷ rs) = search keeps_rules

  pub sink-IsCalm : (m : PartialLogStream) → IsCalm (sink debug_str C M m)
  unfolding sink on_chan
  sink-IsCalm m = record {
    at = λ s p e. elim (sink_cases C m s.chan) [ inl (r, _) ↦ cc | inr (r, _) ↦ cc ];
  }

  pub sink_one-IsCalm : (l : String) → IsCalm (sink_one debug_str C M l)
  unfolding sink_one on_chan Stream.sink_one
  sink_one-IsCalm l = record {
    at = λ s p e. elim (sink_cases C (next (l ∷ [])) s.chan) [ inl (r, _) ↦ cc | inr (r, _) ↦ cc ];
  }

  stat-IsCalm : (p : String) → IsCalm (stat debug_str C M p)
  unfolding stat on_world
  stat-IsCalm p = record { at = λ s q e. cc }

  or_io_error-IsCalm : {S A : Type 0} (o : Option A) → IsCalm {S = S} (lift (or_io_error o))
  unfolding lift
  or_io_error-IsCalm none = record { at = λ s q e. cc }
  or_io_error-IsCalm (some a) = record { at = λ s q e. cc }

  stat_again-IsCalm :
      (test : FileType → Bool) (p : String) (found : Option FileType)
      → IsCalm (stat_again debug_str C M test p found)
  unfolding stat_again
  stat_again-IsCalm test p none = search calm_rules
  stat_again-IsCalm test p (some t) = search (calm_rules, stat-IsCalm, or_io_error-IsCalm)

  check-IsCalm : (e : Ensure) → IsCalm (check debug_str C M e)
  unfolding check is_missing on_world
  check-IsCalm (directory_doesnt_exist p) = search (calm_rules, stat-IsCalm)
  check-IsCalm (directory_exists p) = search (calm_rules, stat-IsCalm, stat_again-IsCalm)
  check-IsCalm (file_doesnt_exist p) = search (calm_rules, stat-IsCalm)
  check-IsCalm (file_exists p) = search (calm_rules, stat-IsCalm, stat_again-IsCalm)
  check-IsCalm (exe_exists e) = record { at = λ s q x. cc }

  ensure_from-IsCalm : (es failures : List Ensure) → IsCalm (ensure_from debug_str C M failures es)
  unfolding ensure_from
  ensure_from-IsCalm [] failures = search calm_rules
  ensure_from-IsCalm (e ∷ es) failures =
      search (calm_rules, sink_one-IsCalm, check-IsCalm, ensure_from-IsCalm es)

  pub ensure_task-IsCalm : (t : PlannedTask) → IsCalm (ensure_task debug_str C M t)
  unfolding ensure_task
  ensure_task-IsCalm t = ensure_from-IsCalm t.ensures []

  pub follow-IsCalm : (rounds : List Round) → IsCalm (follow debug_str C M rounds)
  unfolding follow
  follow-IsCalm [] = search calm_rules
  follow-IsCalm (stdout c ∷ rs) = bind-IsCalm _ _ (attempt-IsCalm _) (λ _. follow-IsCalm rs)
  follow-IsCalm (stderr c ∷ rs) = bind-IsCalm _ _ (attempt-IsCalm _) (λ _. follow-IsCalm rs)
  follow-IsCalm (stdout_fails ∷ rs) = follow-IsCalm rs
  follow-IsCalm (stderr_fails ∷ rs) = follow-IsCalm rs
  follow-IsCalm (closed ∷ rs) = search calm_rules
