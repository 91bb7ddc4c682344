-- ===== src/Controller/Server/Answers.antt =====
-- What the server answers when it is asked for a job.
use that_goes_there.Prelude.{
  String, ◌≡◌, ◌⊎◌, inl, inr, refl, ap, Option, none, some, List, [], ◌∷◌, ◌++◌, str_eq, eq_iff,
  Bool-cases,
}
use that_goes_there.Outcome.{unwrap_on_none, Outcome, panic}
use that_goes_there.Ipc.{JobStartRequest, JobState}
use that_goes_there.Controller.Cache.{Cache}
use that_goes_there.Controller.Server.{unwrap_result, server_state, get_job_status}
use that_goes_there.Controller.Server.History.{
  Event, start, log, finish, ident, on_event, run_job, run_store, run_store-refines,
}

module _ (job_id : String) where
  -- A request was answered with the identifier.
  abbrev pub IsStarted : List Event → Type 0
  IsStarted es =
      (earlier : List Event) × (body : JobStartRequest) × (later : List Event) × (es
        ≡ earlier ++ start job_id body ∷ later)

  behind : (e : Event) (es : List Event) → IsStarted es → IsStarted (e ∷ es)
  behind e es (earlier, body, later, place) = (e ∷ earlier, body, later, ap (λ l. e ∷ l) place)

  own :
      (e : Event) (es : List Event) (job : JobState)
      → ident e ≡ job_id
      → run_job job_id es (on_event e none) ≡ some job
      → (run_job job_id es none ≡ some job → IsStarted es)
      → IsStarted (e ∷ es)
  own (start k body) es job same h later = ([], body, es, ap (λ j. start j body ∷ es) same)
  own (log k host logs) es job same h later = behind (log k host logs) es (later h)
  own (finish k r) es job same h later = behind (finish k r) es (later h)

  run_job-IsStarted :
      (es : List Event) (job : JobState) → run_job job_id es none ≡ some job → IsStarted es
  unfolding run_job
  run_job-IsStarted [] job h = absurd (cc)
  run_job-IsStarted (e ∷ es) job h = elim (Bool-cases (str_eq (ident e) job_id)) [
    | inl t ↦ own e es job ((eq_iff (ident e) job_id).0 t) (rw t at h) (run_job-IsStarted es job)
    | inr f ↦ behind e es (run_job-IsStarted es job (rw f at h))
  ]

  -- A server that was just started, through any requests, reading tasks and ends of jobs, in any
  -- interleaving and with any evictions, answers the request for a job's status by a panic, or by
  -- the text of exactly the job that the events with its identifier make of it alone, one of which
  -- is a request to run a plan that was answered with the identifier.
  pub get_job_status-answers :
      {Body : Type 0} (J : Cache) (serialize : JobState → Outcome Body) (es : List Event)
      → let answer = get_job_status J serialize job_id (run_store J es (server_state J)) in
        (answer ≡ panic unwrap_on_none)
        ⊎ ((job : JobState) × (answer ≡ unwrap_result (serialize job))
            × (run_job job_id es none ≡ some job)
            × IsStarted es)
  unfolding get_job_status
  get_job_status-answers {Body} J serialize es = by_found (J.get job_id jobs) refl
    where
      jobs : J.Jobs
      jobs = run_store J es (server_state J)

      by_found :
          (o : Option JobState)
          → J.get job_id jobs ≡ o
          → (get_job_status J serialize job_id jobs ≡ panic unwrap_on_none)
            ⊎ ((job : JobState) × (get_job_status J serialize job_id jobs
                  ≡ unwrap_result (serialize job))
                × (run_job job_id es none ≡ some job)
                × IsStarted es)
      by_found none e = inl (rw e refl)
      by_found (some job) e =
          let alone =
            run_store-refines J job_id es (server_state J) job (J.get-new 1000 job_id) e in
          inr (job, rw e refl, alone, run_job-IsStarted es job alone)
