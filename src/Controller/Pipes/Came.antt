-- ===== src/Controller/Pipes/Came.antt =====
-- The logs that came for a host by a run of events, part by part.
use mathlib.Core.List.{append-nil, append_assoc}
use that_goes_there.Prelude.{
  String, ◌≡◌, ◌≢◌, inl, inr, refl, sym, ap, ◌∙◌, false, List, [], ◌∷◌, ◌++◌, str_eq, eq_iff,
  eq_refl, Bool-cases,
}
use that_goes_there.Executor.Stream.{Logs}
use that_goes_there.Controller.Apply.Entries.{logs_for}
use that_goes_there.Controller.Server.History.{Event, start, log, finish, ident}
use that_goes_there.Controller.Server.History.Outcomes.{IsBetween, deliveries}

deliveries-append :
    (job_id : String) (xs ys : List Event)
    → deliveries job_id (xs ++ ys) ≡ deliveries job_id xs ++ deliveries job_id ys
deliveries-append job_id [] ys = refl
deliveries-append job_id (start k body ∷ xs) ys = deliveries-append job_id xs ys
deliveries-append job_id (log k host logs ∷ xs) ys = elim (Bool-cases (str_eq k job_id)) [
  | inl e ↦ rw e (ap (λ l. (host, logs) ∷ l) (deliveries-append job_id xs ys))
  | inr e ↦ rw e (deliveries-append job_id xs ys)
]
deliveries-append job_id (finish k r ∷ xs) ys = deliveries-append job_id xs ys

logs_for-append :
    (host : String) (xs ys : List (String × Logs))
    → logs_for host (xs ++ ys) ≡ logs_for host xs ++ logs_for host ys
logs_for-append host [] ys = refl
logs_for-append host ((h, logs) ∷ xs) ys = elim (Bool-cases (str_eq h host)) [
  | inl e ↦ rw e (
      ap (λ l. logs ++ l) (logs_for-append host xs ys)
      ∙ sym (append_assoc logs (logs_for host xs) (logs_for host ys)))
  | inr e ↦ rw e (logs_for-append host xs ys)
]

module _ (job_id : String) where
  -- The logs that came for a host, by events of the job.
  abbrev pub came : String → List Event → Logs
  came host es = logs_for host (deliveries job_id es)

  pub came-append :
      (host : String) (xs ys : List Event) → came host (xs ++ ys) ≡ came host xs ++ came host ys
  came-append host xs ys =
      ap (logs_for host) (deliveries-append job_id xs ys)
      ∙ logs_for-append host (deliveries job_id xs) (deliveries job_id ys)

  pub came-own : (host : String) (logs : Logs) → came host (log job_id host logs ∷ []) ≡ logs
  came-own host logs = rw (eq_refl job_id) (rw (eq_refl host) (append-nil logs))

  pub came-other :
      (host other : String) (logs : Logs)
      → other ≢ host
      → came host (log job_id other logs ∷ []) ≡ []
  came-other host other logs ne = rw (eq_refl job_id) (elim (Bool-cases (str_eq other host)) [
    | inl e ↦ absurd (ne ((eq_iff other host).0 e))
    | inr e ↦ rw e refl
  ])

  pub came-elsewhere :
      (host : String) (e : Event) → str_eq (ident e) job_id ≡ false → came host (e ∷ []) ≡ []
  came-elsewhere host (start k body) h = refl
  came-elsewhere host (log k h logs) other = rw other refl
  came-elsewhere host (finish k r) h = refl

  pub elsewhere-IsBetween : (e : Event) → str_eq (ident e) job_id ≡ false → IsBetween job_id e
  elsewhere-IsBetween (start k body) h = h
  elsewhere-IsBetween (log k host logs) h = tt
  elsewhere-IsBetween (finish k r) h = h
