-- ===== src/Controller/Server/History/Outcomes.antt =====
-- What is seen of a job after its end.
use mathlib.Core.List.{map-append}
use that_goes_there.Prelude.{
  String, ◌≡◌, refl, sym, ap, ◌∙◌, Option, none, some, List, [], ◌∷◌, ◌++◌, map, All, str_eq,
  eq_refl, false, Bool-cases, inl, inr, if◌then◌else◌,
}
use that_goes_there.Outcome.{Outcome, ok, err, panic}
use that_goes_there.Ipc.{JobStartRequest, JobState, LogEntry, running}
use that_goes_there.Executor.Stream.{Logs}
use that_goes_there.Controller.Cache.{Cache}
use that_goes_there.Controller.Apply.{add_logs}
use that_goes_there.Controller.Apply.Entries.{
  entries, entry, deliver_all, logs_for, deliver_all-entries,
}
use that_goes_there.Controller.Server.{initial_state}
use that_goes_there.Controller.Server.Jobs.{final_status}
use that_goes_there.Controller.Server.History.{
  Event, start, log, finish, ident, on_event, ended_by, run_job, on_store, run_store,
  run_store-refines,
}

pub some-injective : {a b : JobState} → some a ≡ some b → a ≡ b
some-injective h = cc

pub run_store-append :
    (J : Cache) (xs ys : List Event) (jobs : J.Jobs)
    → run_store J (xs ++ ys) jobs ≡ run_store J ys (run_store J xs jobs)
unfolding run_store
run_store-append J [] ys jobs = refl
run_store-append J (x ∷ xs) ys jobs = run_store-append J xs ys (on_store J x jobs)

module _ (job_id : String) where
  -- Neither the start nor the end of the job.
  abbrev pub IsBetween : Event → Type 0
  IsBetween (start k body) = str_eq k job_id ≡ false
  IsBetween (log k host logs) = Unit
  IsBetween (finish k r) = str_eq k job_id ≡ false

  -- The logs that came for the job, with their hosts.
  abbrev pub deliveries : List Event → List (String × Logs)
  deliveries [] = []
  deliveries (start k body ∷ es) = deliveries es
  deliveries (log k host logs ∷ es) =
      if str_eq k job_id then (host, logs) ∷ deliveries es else deliveries es
  deliveries (finish k r ∷ es) = deliveries es

  pub run_job-append :
      (xs ys : List Event) (job : Option JobState)
      → run_job job_id (xs ++ ys) job ≡ run_job job_id ys (run_job job_id xs job)
  unfolding run_job
  run_job-append [] ys job = refl
  run_job-append (x ∷ xs) ys job = run_job-append xs ys _

  pub run_job-deliveries :
      (es : List Event) (job : JobState)
      → All IsBetween es
      → run_job job_id es (some job) ≡ some (deliver_all (deliveries es) job)
  unfolding run_job
  run_job-deliveries [] job h = refl
  run_job-deliveries (start k body ∷ es) job h = rw h.0 (run_job-deliveries es job h.1)
  run_job-deliveries (log k host logs ∷ es) job h = elim (Bool-cases (str_eq k job_id)) [
    | inl e ↦ rw e (run_job-deliveries es (add_logs host logs job) h.1)
    | inr e ↦ rw e (run_job-deliveries es job h.1)
  ]
  run_job-deliveries (finish k r ∷ es) job h = rw h.0 (run_job-deliveries es job h.1)

  pub run_job-none : (es : List Event) → All IsBetween es → run_job job_id es none ≡ none
  unfolding run_job
  run_job-none [] h = refl
  run_job-none (start k body ∷ es) h = rw h.0 (run_job-none es h.1)
  run_job-none (log k host logs ∷ es) h = elim (Bool-cases (str_eq k job_id)) [
    | inl e ↦ rw e (run_job-none es h.1)
    | inr e ↦ rw e (run_job-none es h.1)
  ]
  run_job-none (finish k r ∷ es) h = rw h.0 (run_job-none es h.1)

  -- A job from its start to its end and on, among the events of others.
  abbrev pub life :
      List Event → JobStartRequest → List Event → Outcome (Unit {0}) → List Event → List Event
  life earlier body before r after =
      earlier ++ start job_id body ∷ (before ++ finish job_id r ∷ after)

  abbrev last_state : JobStartRequest → List Event → Outcome (Unit {0}) → List Event → JobState
  last_state body before r after =
      deliver_all (deliveries after)
        (ended_by r (deliver_all (deliveries before) (initial_state body)))

  pub run_job-own :
      (e : Event) (es : List Event) (job : Option JobState)
      → ident e ≡ job_id
      → run_job job_id (e ∷ es) job ≡ run_job job_id es (on_event e job)
  unfolding run_job
  run_job-own e es job same = rw same (rw (eq_refl job_id) refl)

  run_job-life :
      (earlier : List Event) (body : JobStartRequest) (before : List Event) (r : Outcome (Unit {0}))
      (after : List Event)
      → All IsBetween earlier
      → All IsBetween before
      → All IsBetween after
      → run_job job_id (life earlier body before r after) none
        ≡ some (last_state body before r after)
  run_job-life earlier body before r after he hb ha =
      run_job-append earlier _ none
      ∙ ap (run_job job_id (start job_id body ∷ (before ++ finish job_id r ∷ after)))
          (run_job-none earlier he)
      ∙ run_job-own (start job_id body) _ none refl
      ∙ run_job-append before _ (some (initial_state body))
      ∙ ap (run_job job_id (finish job_id r ∷ after))
          (run_job-deliveries before (initial_state body) hb)
      ∙ run_job-own (finish job_id r) after _ refl
      ∙ run_job-deliveries after _ ha

  abbrev all_logs : String → List Event → List Event → List LogEntry
  all_logs host before after =
      map (entry host) (logs_for host (deliveries before) ++ logs_for host (deliveries after))

  pub ended_by-kept :
      (r : Outcome (Unit {0})) (job : JobState)
      → ((ended_by r job).logs ≡ job.logs)
        × ((ended_by r job).plan ≡ job.plan)
        × ((ended_by r job).hosts ≡ job.hosts)
  ended_by-kept (ok a) job = (refl, refl, refl)
  ended_by-kept (err e) job = (refl, refl, refl)
  ended_by-kept (panic p) job = (refl, refl, refl)

  pub ended_by-status :
      (r : Outcome (Unit {0})) (job : JobState)
      → job.status ≡ running
      → (ended_by r job).status ≡ final_status r
  ended_by-status (ok a) job h = refl
  ended_by-status (err e) job h = refl
  ended_by-status (panic p) job h = h

  last_state-entries :
      (host : String) (body : JobStartRequest) (before : List Event) (r : Outcome (Unit {0}))
      (after : List Event)
      → entries host (last_state body before r after).logs ≡ all_logs host before after
  unfolding initial_state
  last_state-entries host body before r after =
      let first = deliver_all (deliveries before) (initial_state body) in
      (deliver_all-entries host (deliveries after) (ended_by r first)).0
      ∙ ap (λ l. entries host l ++ map (entry host) (logs_for host (deliveries after)))
          (ended_by-kept r first).0
      ∙ ap (λ l. l ++ map (entry host) (logs_for host (deliveries after)))
          (deliver_all-entries host (deliveries before) (initial_state body)).0
      ∙ sym (
          map-append (entry host) (logs_for host (deliveries before))
            (logs_for host (deliveries after)))

  last_state-status :
      (body : JobStartRequest) (before : List Event) (r : Outcome (Unit {0})) (after : List Event)
      → (last_state body before r after).status ≡ final_status r
  unfolding initial_state
  last_state-status body before r after =
      let first = deliver_all (deliveries before) (initial_state body) in
      ap (λ (j : JobState). j.status)
        (deliver_all-entries "" (deliveries after) (ended_by r first)).1
      ∙ ended_by-status r first (
          ap (λ (j : JobState). j.status)
            (deliver_all-entries "" (deliveries before) (initial_state body)).1)

  -- After the end of a job that is started once and ended once, in any interleaving with other jobs
  -- and with logs that come late, and from a store without the job: if the job is looked up, its
  -- status is that of its outcome (completed for success, failed for an error, running for a panic),
  -- and its entries for each host are exactly the logs that came for the host since its start, in
  -- order.
  pub ended_job-seen :
      (J : Cache) (earlier : List Event) (body : JobStartRequest) (before : List Event)
      (r : Outcome (Unit {0})) (after : List Event) (jobs : J.Jobs) (job : JobState) (host : String)
      → All IsBetween earlier
      → All IsBetween before
      → All IsBetween after
      → J.get job_id jobs ≡ none
      → J.get job_id (run_store J (life earlier body before r after) jobs) ≡ some job
      → (job.status ≡ final_status r)
        × (entries host job.logs
            ≡ map
                (entry host)
                (logs_for host (deliveries before) ++ logs_for host (deliveries after)))
  ended_job-seen J earlier body before r after jobs job host he hb ha fresh there =
      let same = some-injective (
        sym (run_job-life earlier body before r after he hb ha)
        ∙ run_store-refines J job_id _ jobs job fresh there) in
      (
        ap (λ (j : JobState). j.status) (sym same) ∙ last_state-status body before r after,
        ap (λ (j : JobState). entries host j.logs) (sym same)
            ∙ last_state-entries host body before r after,
      )
