-- ===== src/Plan/ForHost/Laws.antt =====
-- What `plan_for_host` returns, as a part of the plan.
use mathlib.Core.List.{Memᴰ, Sublist, Sublistᴰ}
use that_goes_there.Prelude.{
  ◌≤◌, arith, length, String, ◌≡◌, ◌↔◌, inl, inr, refl, sym, ap, ◌∙◌, Bool, true, List, [], ◌∷◌,
  All, Memᴰ-cons, Bool-cases,
}
use that_goes_there.Plan.Task.{PlannedTask, Plan}
use that_goes_there.Plan.Host.{HostConfig}
use that_goes_there.Plan.ForHost.{applies, select, plan_for_host}
use that_goes_there.Plan.ForHost.Targets.{Targets, applies-iff-Targets}

module _ (p : PlannedTask → Bool) where
  Memᴰ-select :
      (ts : List PlannedTask) {t : PlannedTask} → Memᴰ t (select p ts) → Memᴰ t ts × (p t ≡ true)
  unfolding select
  Memᴰ-select [] m = elim m [ ]
  Memᴰ-select (u ∷ ts) m = elim (Bool-cases (p u)) [
    | inl e ↦ elim (Memᴰ-cons (rw e at m)) [
      | inl k ↦ (Memᴰ.head k, ap p k ∙ e)
      | inr r ↦ let (n, h) = Memᴰ-select ts r in (Memᴰ.tail n, h)
    ]
    | inr e ↦ let (n, h) = Memᴰ-select ts (rw e at m) in (Memᴰ.tail n, h)
  ]

  select-Memᴰ :
      (ts : List PlannedTask) {t : PlannedTask} → Memᴰ t ts → p t ≡ true → Memᴰ t (select p ts)
  unfolding select
  select-Memᴰ [] m h = elim m [ ]
  select-Memᴰ (u ∷ ts) (Memᴰ.head k) h = rw (sym (ap p k) ∙ h) (Memᴰ.head k)
  select-Memᴰ (u ∷ ts) (Memᴰ.tail m) h = elim (Bool-cases (p u)) [
    | inl e ↦ rw e (Memᴰ.tail (select-Memᴰ ts m h))
    | inr e ↦ rw e (select-Memᴰ ts m h)
  ]

  select-length : (ts : List PlannedTask) → length (select p ts) ≤ length ts
  unfolding select
  select-length [] = omega arith
  select-length (u ∷ ts) = elim (Bool-cases (p u)) [
    | inl e ↦ rw e (omega (arith, select-length ts))
    | inr e ↦ rw e (omega (arith, select-length ts))
  ]

  select-All {κ} :
      (P : PlannedTask → Type κ) (ts : List PlannedTask) → All P ts → All P (select p ts)
  unfolding select
  select-All P [] h = tt
  select-All P (u ∷ ts) h = elim (Bool-cases (p u)) [
    | inl e ↦ rw e (h.0, select-All P ts h.1)
    | inr e ↦ rw e (select-All P ts h.1)
  ]

  select_idem : (ts : List PlannedTask) → select p (select p ts) ≡ select p ts
  unfolding select
  select_idem [] = refl
  select_idem (u ∷ ts) = elim (Bool-cases (p u)) [
    | inl e ↦ rw e (rw e (ap (◌∷◌ u) (select_idem ts)))
    | inr e ↦ rw e (select_idem ts)
  ]

  select-Sublistᴰ : (ts : List PlannedTask) → Sublistᴰ (select p ts) ts
  unfolding select
  select-Sublistᴰ [] = Sublistᴰ.slnil
  select-Sublistᴰ (u ∷ ts) = elim (Bool-cases (p u)) [
    | inl e ↦ rw e (Sublistᴰ.cons-cons refl (select-Sublistᴰ ts))
    | inr e ↦ rw e (Sublistᴰ.cons (select-Sublistᴰ ts))
  ]

-- A task is in the plan for a host exactly when it is in the plan and names the host, or a group
-- that holds the host.
pub plan_for_host-mem :
    (plan : Plan) (host : String) (hosts : HostConfig) (t : PlannedTask)
    → Memᴰ t (plan_for_host plan host hosts).blueprint
      ↔ (Memᴰ t plan.blueprint × Targets hosts host t)
unfolding plan_for_host
plan_for_host-mem plan host hosts t = (
  λ m.
      let (n, h) = Memᴰ-select (applies hosts host) plan.blueprint m in
      (n, (applies-iff-Targets hosts host t).0 h),
  λ (n, h).
      select-Memᴰ (applies hosts host) plan.blueprint n ((applies-iff-Targets hosts host t).1 h),
)

-- The plan for a host has the name of the plan, its tasks are a sublist of those of the plan, and a
-- second selection for the same host changes nothing.
pub plan_for_host-sublist :
    (plan : Plan) (host : String) (hosts : HostConfig)
    → ((plan_for_host plan host hosts).name ≡ plan.name)
      × Sublist (plan_for_host plan host hosts).blueprint plan.blueprint
      × (plan_for_host (plan_for_host plan host hosts) host hosts ≡ plan_for_host plan host hosts)
unfolding plan_for_host
plan_for_host-sublist plan host hosts = (
  refl,
  ∣ select-Sublistᴰ (applies hosts host) plan.blueprint ∣₁,
  ap (λ b. record { name = plan.name; blueprint = b })
      (select_idem (applies hosts host) plan.blueprint),
)

-- What holds of all tasks of a plan holds of those for a host.
pub plan_for_host-All {κ} :
    (P : PlannedTask → Type κ) (plan : Plan) (host : String) (hosts : HostConfig)
    → All P plan.blueprint
    → All P (plan_for_host plan host hosts).blueprint
unfolding plan_for_host
plan_for_host-All P plan host hosts = select-All (applies hosts host) P plan.blueprint

pub plan_for_host-length :
    (plan : Plan) (host : String) (hosts : HostConfig)
    → length (plan_for_host plan host hosts).blueprint ≤ length plan.blueprint
unfolding plan_for_host
plan_for_host-length plan host hosts = select-length (applies hosts host) plan.blueprint
