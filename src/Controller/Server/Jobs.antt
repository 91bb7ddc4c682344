-- ===== src/Controller/Server/Jobs.antt =====
-- What becomes of a job in the store, and who is given the controller's key.
use that_goes_there.Prelude.{
  String, ℕ, List, All, ◌≡◌, ◌⊎◌, ◌↔◌, inl, inr, refl, sym, ap, ◌∙◌, none, some, str_eq, eq_iff,
  Bool-cases,
}
use that_goes_there.Outcome.{Report, ◌>>=◌, Outcome, ok, err, panic}
use that_goes_there.Ipc.{JobState, JobStatus, running, completed, failed}
use that_goes_there.Plan.Task.{Plan}
use that_goes_there.Plan.Host.{HostConfig}
use that_goes_there.Controller.Cache.{Cache}
use that_goes_there.Controller.Prepare.{Assignment, apply_plan}
use that_goes_there.Controller.Prepare.Assignments.{
  IsSettled, IsKnown, group_shares, apply_plan_succeeds_iff,
}
use that_goes_there.Controller.Server.{
  set_status, finish_job, unwrap_result, Answer, accepted, unauthorized, ssh_line, bootstrap,
}

-- The status that the outcome of `apply_plan` gives to a job; a panic leaves it running.
abbrev pub final_status {ℓ} : {A : Type ℓ} → Outcome A → JobStatus
final_status (ok a) = completed
final_status (err e) = failed
final_status (panic p) = running

module _ (J : Cache) (job_id : String) where
  open J use {Jobs, get, insert}

  -- Setting the status of a job that the store has: the job is evicted, or it is the same with the
  -- new status.
  set_status-get :
      (status : JobStatus) (job : JobState) (jobs : Jobs)
      → (get job_id (set_status J status job_id (some job) jobs)
          ≡ some (record job { status = status }))
        ⊎ (get job_id (set_status J status job_id (some job) jobs) ≡ none)
  set_status-get status job jobs = J.get-insert_self job_id (record job { status = status }) jobs

  -- A job that the store still has when its plan is finished is then gone from it, or has the logs,
  -- the plan and the hosts that it had and the status of the outcome: completed for success, failed
  -- for an error, and running for a panic if it was running.
  pub finish_job-status :
      {A : Type 0} (r : Outcome A) (job : JobState) (jobs : Jobs)
      → get job_id jobs ≡ some job
      → job.status ≡ running
      → (get job_id (finish_job J job_id r jobs) ≡ some (record job { status = final_status r }))
        ⊎ (get job_id (finish_job J job_id r jobs) ≡ none)
  unfolding finish_job
  finish_job-status (ok a) job jobs there is_running = rw there (set_status-get completed job jobs)
  finish_job-status (err e) job jobs there is_running = rw there (set_status-get failed job jobs)
  finish_job-status (panic p) job jobs there is_running =
      inl (there ∙ ap (λ s. some (record job { status = s })) is_running)

  -- What `apply_plan` returned is dropped.
  pub finish_job-returned :
      {A : Type 0} (r : Outcome A) (a : A) (jobs : Jobs) {done : Outcome (Unit {0})}
      → r ≡ ok a
      → done ≡ ok tt
      → finish_job J job_id r jobs ≡ finish_job J job_id done jobs
  unfolding finish_job
  finish_job-returned r a jobs h d = rw (h, d) refl

  completed_by :
      (r : Outcome (List String)) (job : JobState) (jobs : Jobs) (lines : List String)
      → r ≡ ok lines
      → get job_id jobs ≡ some job
      → (get job_id (finish_job J job_id r jobs) ≡ some (record job { status = completed }))
        ⊎ (get job_id (finish_job J job_id r jobs) ≡ none)
  unfolding finish_job
  completed_by (ok a) job jobs lines h there = rw there (set_status-get completed job jobs)
  completed_by (err e) job jobs lines h there = absurd (cc)
  completed_by (panic p) job jobs lines h there = absurd (cc)

  -- A job whose shares all name a host of the host map ends as completed, unless it was evicted,
  -- whatever the hosts made of their parts of the plan, as long as no task panicked; so it does
  -- where every host failed.
  pub finish_job-known_hosts :
      (pretty : Report → String) (results : List Assignment → List (Outcome (String × ℕ)))
      (plan : Plan) (hosts : HostConfig) (job : JobState) (jobs : Jobs)
      → ((futures : List Assignment) → All IsSettled (results futures))
      → All (IsKnown plan hosts) (group_shares plan hosts hosts.groups)
      → get job_id jobs ≡ some job
      → (get job_id (finish_job J job_id (apply_plan pretty results plan hosts) jobs)
          ≡ some (record job { status = completed }))
        ⊎ (get job_id (finish_job J job_id (apply_plan pretty results plan hosts) jobs) ≡ none)
  finish_job-known_hosts pretty results plan hosts job jobs settled known there =
      let (lines, h) = (apply_plan_succeeds_iff pretty results plan hosts settled).0 known in
      completed_by (apply_plan pretty results plan hosts) job jobs lines h there

accepted-injective : {a b : String} → ok (accepted a) ≡ ok (accepted b) → a ≡ b
accepted-injective {a = a} {b = b} h = ap (line_of a) h
  where
    line_of : String → Outcome Answer → String
    line_of d (ok (accepted l)) = l
    line_of d (ok (unauthorized text)) = d
    line_of d (err e) = d
    line_of d (panic p) = d

-- What is answered to the right token.
abbrev answer_with : Outcome String → Outcome Answer
answer_with pubkey = do key ← unwrap_result pubkey; ok (accepted (ssh_line key))

answer_with-accepted :
    (pubkey : Outcome String) (line : String)
    → answer_with pubkey ≡ ok (accepted line)
    → (key : String) × (pubkey ≡ ok key) × (line ≡ ssh_line key)
answer_with-accepted (ok key) line h = (key, refl, sym (accepted-injective h))
answer_with-accepted (err e) line h = absurd (cc)
answer_with-accepted (panic p) line h = absurd (cc)

-- With the token file read, the answer is the controller's key exactly if the request has that
-- token and the key file can be read; the answer then is the line with that key.
pub bootstrap_accepts_iff :
    (token : String) (pubkey : Outcome String) (given line : String)
    → (bootstrap (ok token) pubkey given ≡ ok (accepted line))
      ↔ ((token ≡ given) × (key : String) × (pubkey ≡ ok key) × (line ≡ ssh_line key))
unfolding bootstrap
bootstrap_accepts_iff token pubkey given line = (
  λ h. elim (Bool-cases (str_eq token given)) [
    | inl e ↦
        let (key, k, l) = answer_with-accepted pubkey line (rw e at h) in
        ((eq_iff token given).0 e, key, k, l)
    | inr e ↦ absurd (cc (rw e at h))
  ],
  λ (same, key, k, l). rw ((eq_iff token given).1 same) (rw k (rw l refl)),
)
