-- ===== src/Controller/Server/History.antt =====
-- The job store against one job on its own: what the handlers and tasks do to a job is what they
-- do to it alone, whatever the other jobs do in between.
pub mod Outcomes
use that_goes_there.Prelude.{
  String, ◌≡◌, ◌≢◌, ◌⊎◌, inl, inr, refl, sym, ap, ◌∙◌, arith, Option, none, some, List, [], ◌∷◌,
  str_eq, eq_iff, Bool-cases, if◌then◌else◌,
}
use that_goes_there.Outcome.{Panic, Outcome, ok, err, panic}
use that_goes_there.Ipc.{JobStartRequest, JobState, JobStatus, completed, failed}
use that_goes_there.Executor.Stream.{Logs}
use that_goes_there.Controller.Cache.{Cache}
use that_goes_there.Controller.Apply.{add_logs, store_logs}
use that_goes_there.Controller.Server.{initial_state, run_plan, finish_job}

-- What takes the lock of the store: `run_plan`, a reading task, and the task of a job at its end.
pub data Event : Type 0 where
  start : (job_id : String) → JobStartRequest → Event
  log : (job_id host : String) → Logs → Event
  finish : (job_id : String) → Outcome (Unit {0}) → Event

abbrev pub ident : Event → String
ident (start k body) = k
ident (log k host logs) = k
ident (finish k r) = k

-- The abstract job: none before it is started.
abbrev pub with_status : JobStatus → JobState → JobState
with_status status job = record job { status = status }

abbrev pub ended_by : Outcome (Unit {0}) → JobState → JobState
ended_by (ok a) job = with_status completed job
ended_by (err e) job = with_status failed job
ended_by (panic p) job = job

abbrev pub map_job : (JobState → JobState) → Option JobState → Option JobState
map_job f none = none
map_job f (some job) = some (f job)

abbrev pub on_event : Event → Option JobState → Option JobState
on_event (start k body) job = some (initial_state body)
on_event (log k host logs) job = map_job (add_logs host logs) job
on_event (finish k r) job = map_job (ended_by r) job

-- The events of one job, one after another; those of other jobs do nothing.
unfoldable pub run_job : String → List Event → Option JobState → Option JobState
run_job job_id [] job = job
run_job job_id (e ∷ es) job =
    run_job job_id es (if str_eq (ident e) job_id then on_event e job else job)

module _ (J : Cache) where
  open J use {Jobs, get, insert}

  abbrev pub on_store : Event → Jobs → Jobs
  on_store (start k body) jobs = (run_plan J k body jobs).1
  on_store (log k host logs) jobs = store_logs J k host logs jobs
  on_store (finish k r) jobs = finish_job J k r jobs

  unfoldable pub run_store : List Event → Jobs → Jobs
  run_store [] jobs = jobs
  run_store (e ∷ es) jobs = run_store es (on_store e jobs)

  module _ (job_id : String) where
    -- The store has the abstract job, or has evicted it.
    abbrev pub Tracks : Jobs → Option JobState → Type 0
    Tracks jobs job = (get job_id jobs ≡ job) ⊎ (get job_id jobs ≡ none)

    insert-Tracks_self :
        (k : String) (v : JobState) (jobs : Jobs) → k ≡ job_id → Tracks (insert k v jobs) (some v)
    insert-Tracks_self k v jobs same = rw (sym same) (J.get-insert_self k v jobs)

    insert-Tracks_other :
        (k : String) (v : JobState) (jobs : Jobs) (job : Option JobState)
        → k ≢ job_id
        → Tracks jobs job
        → Tracks (insert k v jobs) job
    insert-Tracks_other k v jobs job other h = elim (J.get-insert_ne k job_id v jobs other) [
      | inl kept ↦ elim h [ inl e ↦ inl (kept ∙ e) | inr e ↦ inr (kept ∙ e) ]
      | inr gone ↦ inr gone
    ]

    -- A job that is looked up and put back changed, or left alone if it is not there.
    record IsUpdate (f : JobState → JobState) (k : String) (jobs after : Jobs) : Type 0 where
      absent : get k jobs ≡ none → after ≡ jobs
      present : (j : JobState) → get k jobs ≡ some j → after ≡ insert k (f j) jobs

    update-Tracks_self :
        (f : JobState → JobState) (k : String) (jobs after : Jobs) (job : Option JobState)
        → IsUpdate f k jobs after
        → k ≡ job_id
        → Tracks jobs job
        → Tracks after (map_job f job)
    update-Tracks_self f k jobs after job u same h = by_found (get k jobs) refl
      where
        tracked : (o : Option JobState) → get k jobs ≡ o → (o ≡ job) ⊎ (o ≡ none)
        tracked o e = elim h [
          | inl x ↦ inl (sym e ∙ ap (λ i. get i jobs) same ∙ x)
          | inr x ↦ inr (sym e ∙ ap (λ i. get i jobs) same ∙ x)
        ]

        by_found : (o : Option JobState) → get k jobs ≡ o → Tracks after (map_job f job)
        by_found none e = inr (rw (u.absent e) (ap (λ i. get i jobs) (sym same) ∙ e))
        by_found (some j) e = elim (tracked (some j) e) [
          | inl is_job ↦ rw (u.present j e, ← is_job) (insert-Tracks_self k (f j) jobs same)
          | inr gone ↦ absurd (cc)
        ]

    update-Tracks_other :
        (f : JobState → JobState) (k : String) (jobs after : Jobs) (job : Option JobState)
        → IsUpdate f k jobs after
        → k ≢ job_id
        → Tracks jobs job
        → Tracks after job
    update-Tracks_other f k jobs after job u other h = by_found (get k jobs) refl
      where
        by_found : (o : Option JobState) → get k jobs ≡ o → Tracks after job
        by_found none e = rw (u.absent e) h
        by_found (some j) e = rw (u.present j e) (insert-Tracks_other k (f j) jobs job other h)

    store_logs-IsUpdate :
        (k host : String) (logs : Logs) (jobs : Jobs)
        → IsUpdate (add_logs host logs) k jobs (store_logs J k host logs jobs)
    unfolding store_logs
    store_logs-IsUpdate k host logs jobs = record {
      absent = λ e. rw (store_logs, e) refl;
      present = λ j e. rw (store_logs, e) refl;
    }

    unchanged : (p : Panic) (job : Option JobState) → map_job (ended_by (panic p)) job ≡ job
    unchanged p none = refl
    unchanged p (some job) = refl

    finish_job-IsUpdate :
        (k : String) (r : Outcome (Unit {0})) (jobs : Jobs)
        → IsUpdate (ended_by r) k jobs (finish_job J k r jobs)
          ⊎ ((finish_job J k r jobs ≡ jobs)
              × ((job : Option JobState) → map_job (ended_by r) job ≡ job))
    unfolding finish_job
    finish_job-IsUpdate k (ok a) jobs =
        inl (record { absent = λ e. rw e refl; present = λ j e. rw e refl })
    finish_job-IsUpdate k (err a) jobs =
        inl (record { absent = λ e. rw e refl; present = λ j e. rw e refl })
    finish_job-IsUpdate k (panic p) jobs = inr (refl, unchanged p)

    -- What an event does to the abstract job.
    abbrev seen_by : Event → Option JobState → Option JobState
    seen_by e job = if str_eq (ident e) job_id then on_event e job else job

    on_store-Tracks :
        (e : Event) (jobs : Jobs) (job : Option JobState)
        → Tracks jobs job
        → Tracks (on_store e jobs) (seen_by e job)
    unfolding run_plan
    on_store-Tracks e jobs job h = elim (Bool-cases (str_eq (ident e) job_id)) [
      | inl t ↦ rw t (at_job e ((eq_iff (ident e) job_id).0 t))
      | inr f ↦ rw f (elsewhere e (λ same. ground (arith, (eq_iff (ident e) job_id).1 same, f)))
    ]
      where
        at_job : (e : Event) → ident e ≡ job_id → Tracks (on_store e jobs) (on_event e job)
        at_job (start k body) same = insert-Tracks_self k (initial_state body) jobs same
        at_job (log k host logs) same =
            update-Tracks_self (add_logs host logs) k jobs _ job
              (store_logs-IsUpdate k host logs jobs) same h
        at_job (finish k r) same = elim (finish_job-IsUpdate k r jobs) [
          | inl u ↦ update-Tracks_self (ended_by r) k jobs _ job u same h
          | inr (kept, idle) ↦ rw (kept, idle) h
        ]

        elsewhere : (e : Event) → ident e ≢ job_id → Tracks (on_store e jobs) job
        elsewhere (start k body) other = insert-Tracks_other k (initial_state body) jobs job other h
        elsewhere (log k host logs) other =
            update-Tracks_other (add_logs host logs) k jobs _ job
              (store_logs-IsUpdate k host logs jobs) other h
        elsewhere (finish k r) other = elim (finish_job-IsUpdate k r jobs) [
          | inl u ↦ update-Tracks_other (ended_by r) k jobs _ job u other h
          | inr (kept, idle) ↦ rw kept h
        ]

    pub run_store-Tracks :
        (es : List Event) (jobs : Jobs) (job : Option JobState)
        → Tracks jobs job
        → Tracks (run_store es jobs) (run_job job_id es job)
    unfolding run_store run_job
    run_store-Tracks [] jobs job h = h
    run_store-Tracks (e ∷ es) jobs job h =
        run_store-Tracks es (on_store e jobs) (seen_by e job) (on_store-Tracks e jobs job h)

    -- Whatever requests, reading tasks and ends of jobs the store goes through, in any interleaving
    -- and with any evictions, from a store without the job: a job that is looked up is exactly what
    -- the events with its own identifier make of it alone.
    pub run_store-refines :
        (es : List Event) (jobs : Jobs) (job : JobState)
        → get job_id jobs ≡ none
        → get job_id (run_store es jobs) ≡ some job
        → run_job job_id es none ≡ some job
    run_store-refines es jobs job fresh there = elim (run_store-Tracks es jobs none (inl fresh)) [
      | inl e ↦ sym e ∙ there
      | inr gone ↦ absurd (cc)
    ]
