-- ===== src/Executor/Local/Tasks.antt =====
-- What the loop over the tasks of a plan does.
use mathlib.Core.List.{append-nil, append_assoc}
use that_goes_there.Prelude.{
  ℕ, suc, ◌+◌, ◌^◌, ◌<◌, String, ◌≡◌, ◌⊎◌, inl, inr, refl, sym, ◌∙◌, arith, List, [], ◌∷◌, ◌++◌,
  map, length, take,
}
use that_goes_there.Outcome.{Outcome, ok, err, panic}
use that_goes_there.Exec.{pure, for_each}
use that_goes_there.Exec.Post.{Meets, bind-Meets}
use that_goes_there.Plan.Task.{PlannedTask}
use that_goes_there.Executor.Stream.{Channel}
use that_goes_there.Executor.Local.{Machine, SimpleExecutor, execute_task}
use that_goes_there.Executor.Local.Quiet.{Same}
use that_goes_there.Executor.Local.Run.{TaskPost, execute_task-TaskPost}

abbrev pub commands_of : List PlannedTask → List (List String)
commands_of = map (λ (t : PlannedTask). t.command)

module _ (debug_str : String → String) (C : Channel) (M : Machine) where
  -- The loop stopped at a task: those before it are completed and no other, and its own command was
  -- started or not.
  pub record Stopped (ts : List PlannedTask) (n k : ℕ) (cs : List (List String))
      (t : SimpleExecutor debug_str C M) : Type 0 where
    pub at : ℕ
    pub inside : at < length ts
    pub state :
        Same debug_str C M n (k + at) (cs ++ commands_of (take at ts)) t
        ⊎ Same debug_str C M n (k + at) (cs ++ commands_of (take (suc at) ts)) t

  abbrev pub LoopPost :
      List PlannedTask
      → ℕ
      → ℕ
      → List (List String)
      → Outcome (Unit {0})
      → SimpleExecutor debug_str C M
      → Type 0
  LoopPost ts n k cs (ok _) t = Same debug_str C M n (k + length ts) (cs ++ commands_of ts) t
  LoopPost ts n k cs (err _) t = Stopped ts n k cs t
  LoopPost ts n k cs (panic _) t = Stopped ts n k cs t

  pub Same-cast :
      {n k k' : ℕ} {cs cs' : List (List String)} {t : SimpleExecutor debug_str C M}
      → k ≡ k'
      → cs ≡ cs'
      → Same debug_str C M n k cs t
      → Same debug_str C M n k' cs' t
  Same-cast e f h = record { ended = h.ended; completed = h.completed ∙ e; started = h.started ∙ f }

  Stopped-first :
      (task : PlannedTask) (ts : List PlannedTask) {n k : ℕ} {cs : List (List String)}
      {t : SimpleExecutor debug_str C M}
      → Same debug_str C M n k cs t ⊎ Same debug_str C M n k (cs ++ task.command ∷ []) t
      → Stopped (task ∷ ts) n k cs t
  Stopped-first task ts {cs = cs} h = record {
    at = 0;
    inside = omega arith;
    state = elim h [
      | inl g ↦ inl (Same-cast (omega arith) (sym (append-nil cs)) g)
      | inr g ↦ inr (Same-cast (omega arith) refl g)
    ];
  }

  Stopped-later :
      (task : PlannedTask) (ts : List PlannedTask) (n k : ℕ) (cs : List (List String))
      {t : SimpleExecutor debug_str C M}
      → Stopped ts n (k + 1) (cs ++ task.command ∷ []) t
      → Stopped (task ∷ ts) n k cs t
  Stopped-later task ts n k cs s = record {
    at = suc s.at;
    inside = omega (arith, s.inside);
    state = elim s.state [
      | inl g ↦ inl (Same-cast (omega arith) (append_assoc cs _ _) g)
      | inr g ↦ inr (Same-cast (omega arith) (append_assoc cs _ _) g)
    ];
  }

  pub for_each-LoopPost :
      (ts : List PlannedTask) (n k : ℕ) (cs : List (List String)) (s : SimpleExecutor debug_str C M)
      → k + length ts < 2 ^ 32
      → Same debug_str C M n k cs s
      → Meets (LoopPost ts n k cs) (for_each (execute_task debug_str C M) ts s)
  unfolding for_each
  for_each-LoopPost [] n k cs s fits h =
      unfold pure in Same-cast (omega arith) (sym (append-nil cs)) h
  for_each-LoopPost (task ∷ ts) n k cs s fits h =
      bind-Meets (TaskPost debug_str C M task.command n k cs) (LoopPost (task ∷ ts) n k cs)
        (execute_task debug_str C M task) _ s (execute_task-TaskPost debug_str C M task n k cs s h)
        (λ _ u g. later u (
          for_each-LoopPost ts n (k + 1) (cs ++ task.command ∷ []) u (omega arith)
            (Same-cast (omega arith) refl g)))
        (λ _ u g. Stopped-first task ts g) (λ _ u g. Stopped-first task ts g)
    where
      shift :
          (r : Outcome (Unit {0})) (t : SimpleExecutor debug_str C M)
          → LoopPost ts n (k + 1) (cs ++ task.command ∷ []) r t
          → LoopPost (task ∷ ts) n k cs r t
      shift (ok _) t g = Same-cast (omega arith) (append_assoc cs _ _) g
      shift (err _) t g = Stopped-later task ts n k cs g
      shift (panic _) t g = Stopped-later task ts n k cs g

      later :
          (u : SimpleExecutor debug_str C M)
          → Meets
              (LoopPost ts n (k + 1) (cs ++ task.command ∷ []))
              (for_each (execute_task debug_str C M) ts u)
          → Meets (LoopPost (task ∷ ts) n k cs) (for_each (execute_task debug_str C M) ts u)
      later u = shift _ _
