-- ===== src/Controller/Server/Steps.antt =====
-- The job store under the handlers and the tasks that they start, in any interleaving: each of them
-- has the lock for one step.
use that_goes_there.Prelude.{
  String, ◌≡◌, inl, inr, refl, sym, ap, subst, ◌∙◌, arith, Option, none, some, str_eq, eq_iff,
  Bool-cases,
}
use that_goes_there.Outcome.{Outcome, ok, err, panic}
use that_goes_there.Ipc.{JobStartRequest, JobState, JobStatus, completed, failed}
use that_goes_there.Executor.Stream.{Logs}
use that_goes_there.Controller.Cache.{Cache}
use that_goes_there.Controller.Apply.{add_logs, store_logs}
use that_goes_there.Controller.Server.{initial_state, run_plan, set_status, finish_job}

-- `asked` gives the request that was answered with an identifier.
module _ (J : Cache) (asked : String → JobStartRequest) where
  open J use {Jobs, get, insert}

  -- One holder of the lock: `run_plan`, a reading task, or the task of a job at its end.
  pub data Step : Jobs → Jobs → Type 0 where
    started : (job_id : String) (jobs : Jobs) → Step jobs (run_plan J job_id (asked job_id) jobs).1
    logged :
        (job_id host : String) (logs : Logs) (jobs : Jobs)
        → Step jobs (store_logs J job_id host logs jobs)
    finished :
        (job_id : String) (r : Outcome (Unit {0})) (jobs : Jobs)
        → Step jobs (finish_job J job_id r jobs)

  pub data Steps : Jobs → Jobs → Type 0 where
    stop : {jobs : Jobs} → Steps jobs jobs
    step :
        {before middle after : Jobs} → Step before middle → Steps middle after → Steps before after

  -- The job is of the request with its identifier.
  abbrev pub IsAsked : String → JobState → Type 0
  IsAsked job_id job = (job.plan ≡ (asked job_id).plan) × (job.hosts ≡ (asked job_id).hosts)

  abbrev pub AllAsked : Jobs → Type 0
  AllAsked jobs =
      (job_id : String) (job : JobState) → get job_id jobs ≡ some job → IsAsked job_id job

  some-injective : {a b : JobState} → some a ≡ some b → a ≡ b
  some-injective {a = a} {b = b} h = ap (or_else a) h
    where
      or_else : JobState → Option JobState → JobState
      or_else d none = d
      or_else d (some x) = x

  insert-AllAsked :
      (k : String) (v : JobState) (jobs : Jobs)
      → IsAsked k v
      → AllAsked jobs
      → AllAsked (insert k v jobs)
  insert-AllAsked k v jobs hv h j job there = elim (Bool-cases (str_eq k j)) [
    | inl e ↦
        let same = (eq_iff k j).0 e in
        elim (J.get-insert_self k v jobs) [
          | inl found ↦
              subst (λ i. IsAsked i job) same
                (subst (IsAsked k)
                  (some-injective (sym found ∙ ap (λ i. get i (insert k v jobs)) same ∙ there)) hv)
          | inr gone ↦ absurd (cc)
        ]
    | inr e ↦ elim (J.get-insert_ne k j v jobs (λ same. ground (arith, (eq_iff k j).1 same, e))) [
      | inl kept ↦ h j job (sym kept ∙ there)
      | inr gone ↦ absurd (cc)
    ]
  ]

  store_logs-AllAsked :
      (k host : String) (logs : Logs) (jobs : Jobs)
      → AllAsked jobs
      → AllAsked (store_logs J k host logs jobs)
  unfolding store_logs add_logs
  store_logs-AllAsked k host logs jobs h = by_entry (get k jobs) refl
    where
      by_entry :
          (o : Option JobState)
          → get k jobs ≡ o
          → AllAsked (elim o [ none ↦ jobs | some job ↦ insert k (add_logs host logs job) jobs ])
      by_entry none e = h
      by_entry (some job) e = insert-AllAsked k (add_logs host logs job) jobs (h k job e) h

  set_status-AllAsked :
      (status : JobStatus) (k : String) (o : Option JobState) (jobs : Jobs)
      → get k jobs ≡ o
      → AllAsked jobs
      → AllAsked (set_status J status k o jobs)
  set_status-AllAsked status k none jobs e h = h
  set_status-AllAsked status k (some job) jobs e h =
      insert-AllAsked k (record job { status = status }) jobs (h k job e) h

  Step-AllAsked : {jobs after : Jobs} → Step jobs after → AllAsked jobs → AllAsked after
  unfolding run_plan initial_state finish_job
  Step-AllAsked (started k jobs) h = insert-AllAsked k (initial_state (asked k)) jobs (refl, refl) h
  Step-AllAsked (logged k host logs jobs) h = store_logs-AllAsked k host logs jobs h
  Step-AllAsked (finished k (ok a) jobs) h =
      set_status-AllAsked completed k (get k jobs) jobs refl h
  Step-AllAsked (finished k (err e) jobs) h = set_status-AllAsked failed k (get k jobs) jobs refl h
  Step-AllAsked (finished k (panic p) jobs) h = h

  Steps-AllAsked : {jobs after : Jobs} → Steps jobs after → AllAsked jobs → AllAsked after
  Steps-AllAsked stop h = h
  Steps-AllAsked (step s ss) h = Steps-AllAsked ss (Step-AllAsked s h)

  -- However the requests, the reading tasks and the ends of the jobs interleave, from a store with
  -- no job, a job of the store has the plan and the hosts of the request that was answered with its
  -- identifier.
  pub stored_job-IsAsked :
      {jobs after : Jobs} (job_id : String) (job : JobState)
      → Steps jobs after
      → ((k : String) → get k jobs ≡ none)
      → get job_id after ≡ some job
      → IsAsked job_id job
  stored_job-IsAsked job_id job ss none_yet there =
      Steps-AllAsked ss (λ k v h. absurd (cc (none_yet k))) job_id job there
