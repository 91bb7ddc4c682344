-- ===== src/Controller/Server.antt =====
-- The handlers of there-controller/src/http_server.rs, over the job store.
pub mod Jobs
pub mod Steps
pub mod History
pub mod Answers
pub mod Whole
use that_goes_there.Prelude.{String, ◌<>◌, Option, none, some, [], str_eq, if◌then◌else◌}
use that_goes_there.Outcome.{unwrap_on_none, unwrap_on_err, Outcome, ok, err, panic, ◌>>=◌}
use that_goes_there.Ipc.{JobStartRequest, JobState, JobStatus, running, completed, failed}
use that_goes_there.Controller.Cache.{Cache}

-- `unwrap` of an option, and of a result.
abbrev pub unwrap {ℓ} : {A : Type ℓ} → Option A → Outcome A
unwrap none = panic unwrap_on_none
unwrap (some a) = ok a

abbrev pub unwrap_result {ℓ} : {A : Type ℓ} → Outcome A → Outcome A
unwrap_result (ok a) = ok a
unwrap_result (err e) = panic unwrap_on_err
unwrap_result (panic p) = panic p

unfoldable pub initial_state : JobStartRequest → JobState
initial_state body = record { logs = []; plan = body.plan; hosts = body.hosts; status = running }

module _ (J : Cache) where
  open J use {Jobs, get, insert}

  -- `run_server` up to the routes: the state that its handlers share.
  abbrev pub server_state : Jobs
  server_state = J.new 1000

  -- `run_plan` up to its answer; `job_id` is the new identifier.
  unfoldable pub run_plan : String → JobStartRequest → Jobs → String × Jobs
  run_plan job_id body jobs = (job_id, insert job_id (initial_state body) jobs)

  abbrev pub set_status : JobStatus → String → Option JobState → Jobs → Jobs
  set_status status job_id none jobs = jobs
  set_status status job_id (some job) jobs = insert job_id (record job { status = status }) jobs

  -- The task that `run_plan` starts, behind `apply_plan`; a panic ends it.
  unfoldable pub finish_job {ℓ} : {A : Type ℓ} → String → Outcome A → Jobs → Jobs
  finish_job job_id (ok a) jobs = set_status completed job_id (get job_id jobs) jobs
  finish_job job_id (err e) jobs = set_status failed job_id (get job_id jobs) jobs
  finish_job job_id (panic p) jobs = jobs

  -- `serialize` is `serde_json::to_string`, and `Body` the type of its texts.
  unfoldable pub get_job_status :
      {Body : Type 0} → (serialize : JobState → Outcome Body) → String → Jobs → Outcome Body
  get_job_status serialize job_id jobs = do
    job ← unwrap (get job_id jobs)
    unwrap_result (serialize job)

-- The answer of `bootstrap`: a status code and a text.
pub data Answer : Type 0 where
  accepted : String → Answer
  unauthorized : String → Answer

unfoldable pub ssh_line : String → String
ssh_line key = "ssh-ed25519 " <> (key <> " there-controller")

-- `token` and `pubkey` are what the key files gave.
unfoldable pub bootstrap : Outcome String → Outcome String → String → Outcome Answer
bootstrap token pubkey given = do
  expected ← unwrap_result token
  let answer = do key ← unwrap_result pubkey; ok (accepted (ssh_line key))
  if str_eq expected given then answer else ok (unauthorized "invalid token")
