-- ===== src/Controller/Apply.antt =====
-- `do_apply` of there-controller/src/executor.rs: one host's plan, and the task that copies its logs
-- into the job.
pub mod Ending
pub mod Entries
use that_goes_there.Prelude.{
  ℕ, String, ◌<>◌, Option, none, some, List, [], ◌∷◌, ◌++◌, map, length, str_eq, if◌then◌else◌,
}
use that_goes_there.Text.{decimal}
use that_goes_there.Outcome.{Report, eyre, plan_apply_failed, external, Outcome, ok, err, panic}
use that_goes_there.Plan.Task.{Plan}
use that_goes_there.Plan.Host.{Host}
use that_goes_there.Ipc.{JobState, LogEntry}
use that_goes_there.Executor.Stream.{Logs, Channel}
use that_goes_there.Executor.Source.{Receiver}
use that_goes_there.Executor.Source.Join.{join}
use that_goes_there.Executor.Ssh.{
  Remote, SshExecutor, SshExecutionContext, new_with_existing_key, execute,
}
use that_goes_there.Controller.Cache.{Cache}

-- `logs.entry(hostname).or_insert_with(Vec::new)`, then `append`
unfoldable pub append_entries :
    String → List LogEntry → List (String × List LogEntry) → List (String × List LogEntry)
append_entries host es [] = (host, es) ∷ []
append_entries host es ((h, old) ∷ rest) =
    if str_eq h host then (h, old ++ es) ∷ rest else (h, old) ∷ append_entries host es rest

unfoldable pub add_logs : String → Logs → JobState → JobState
add_logs host logs job = record job {
  logs = append_entries host (map (λ log. record { hostname = host; log = log }) logs) job.logs;
}

-- `format!("{}", …)` of a report
unfoldable pub display : Report → String
display (eyre m) = m
display (plan_apply_failed host n e) =
    "failed to apply plan to host: "
    <> (host <> (" (" <> (decimal n <> (" tasks complete): " <> display e))))
display (external m) = m

-- `e.downcast::<PlanApplyErrors>()`
abbrev pub downcast : Report → Option (String × ℕ × Report)
downcast (eyre m) = none
downcast (plan_apply_failed host n e) = some (host, n, e)
downcast (external m) = none

module _ (J : Cache) where
  open J use {Jobs}

  -- What the reading task does with logs.
  unfoldable pub store_logs : String → String → Logs → Jobs → Jobs
  store_logs job_id host logs jobs = elim (J.get job_id jobs) [
    | none ↦ jobs
    | some job ↦ J.insert job_id (add_logs host logs job) jobs
  ]

-- `debug_report` is `format!("{:?}", …)` of a report.
module _ (debug_str : String → String) (debug_report : Report → String) (C : Channel) (R : Remote)
    (V : Receiver C) (J : Cache) where
  -- The error that `do_apply` makes of one of the executor.
  unfoldable pub failure : Plan → String → ℕ → Report → Report
  failure plan hostname n e = plan_apply_failed hostname n (
      eyre (
        "ssh executor failed to apply plan "
        <> (plan.name
            <> (" to host "
                <> (hostname
                    <> (": "
                        <> (decimal n
                            <> ("/"
                                <> (decimal (length plan.blueprint)
                                    <> (" tasks finished:\n\n" <> debug_report e))))))))))

  -- What is returned behind the join, of the executor's outcome and its counter.
  unfoldable pub joined : Plan → String → Outcome (Unit {0}) → ℕ → Outcome (String × ℕ)
  joined plan hostname (ok _) n = ok (hostname, n)
  joined plan hostname (err e) n =
      err (eyre ("failed to apply plan: " <> display (failure plan hostname n e)))
  joined plan hostname (panic p) n = panic p

  -- The join of the reading task; `none` means that it is still awaited.
  unfoldable pub await_join :
      ℕ
      → String
      → String
      → Plan
      → Outcome (Unit {0})
      → SshExecutor debug_str C R
      → J.Jobs
      → Option (Outcome (String × ℕ) × J.Jobs)
  await_join fuel job_id hostname plan (panic p) t jobs = some (panic p, jobs)
  await_join fuel job_id hostname plan r t jobs =
      join V (store_logs J job_id hostname) fuel t.chan (joined plan hostname r t.tasks_completed)
        jobs

  -- The keypair is what `get_or_create_executor_keypair` gave, and the sender lives until `do_apply`
  -- returns. The reading task has `fuel` rounds, all behind the executor: a round that it has earlier
  -- takes the same messages in the same order, or finds none and then adds no log.
  unfoldable pub do_apply :
      ℕ
      → Outcome (Unit {0})
      → String
      → Plan
      → String
      → Host
      → R.World
      → J.Jobs
      → Option (Outcome (String × ℕ) × J.Jobs)
  do_apply fuel (err e) job_id plan hostname host world jobs = some (err e, jobs)
  do_apply fuel (panic p) job_id plan hostname host world jobs = some (panic p, jobs)
  do_apply fuel (ok _) job_id plan hostname host world jobs =
      let s = new_with_existing_key debug_str C R (C.channel 1024) world in
      let context : SshExecutionContext = record { name = "test"; plan = plan } in
      let (r, t) = execute debug_str C R host hostname context.plan s in
      await_join fuel job_id hostname plan r t jobs
