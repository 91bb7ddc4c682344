-- ===== src/Cli/Apply.antt =====
-- `subcommand_apply` of there-cli/src/commands/plan.rs: a dry run, a run by a controller, or one by
-- the executors that the hosts name.
pub mod Agreement
use that_goes_there.Prelude.{
  String, ℕ, ◌<>◌, Bool, true, false, Option, none, some, List, [], ◌∷◌, ◌++◌, map,
}
use that_goes_there.Outcome.{Report, Outcome, ok, err, panic}
use that_goes_there.Exec.{Exec, lift, modify, ◌>>=◌, ◌>>◌, for_each}
use that_goes_there.Ipc.{JobState}
use that_goes_there.Plan.Task.{PlannedTask, Plan}
use that_goes_there.Plan.Host.{Host, HostConfig, get}
use that_goes_there.Plan.ForHost.{plan_for_host}
use that_goes_there.Plan.TaskSet.{TaskSet}
use that_goes_there.Controller.Prepare.{host_or_err, report_results}
use that_goes_there.Cli.Files.{read_plan}
use that_goes_there.Cli.Hosts.{dry_run}
use that_goes_there.Cli.Poll.{Printed, line, poll_loop}
use that_goes_there.Cli.Run.{ExecutorType, executor_type}

-- The arguments of one `do_apply`.
pub record Future : Type 0 where
  pub plan : Plan
  pub hostname : String
  pub host : Host
  pub executor : ExecutorType

-- What the loops that fill `futures` have done.
pub record Prepared : Type 0 where
  pub futures : List Future
  pub printed : List String

unfoldable pub say : String → Exec Prepared Unit
say s = modify (λ p. record p { printed = p.printed ++ s ∷ [] })

unfoldable pub push : Future → Exec Prepared Unit
push f = modify (λ p. record p { futures = p.futures ++ f ∷ [] })

module _ (plan : Plan) (hosts : HostConfig) where
  -- The body of the inner loop, behind the selection of the host's part.
  unfoldable pub prepare_part : String → Plan → List PlannedTask → Exec Prepared Unit
  prepare_part hostname part [] = say ("*** skipping host, no tasks: " <> hostname)
  prepare_part hostname part (t ∷ ts) = do
    host ← lift (host_or_err hostname (get hosts.hosts hostname))
    kind ← lift (executor_type host.executor)
    pushed ← push (record { plan = part; hostname = hostname; host = host; executor = kind })
    say ("*** prepared plan for host: " <> hostname)

  unfoldable pub prepare_host : String → Exec Prepared Unit
  prepare_host hostname =
      let part = plan_for_host plan hostname hosts in prepare_part hostname part part.blueprint

  unfoldable pub prepare_group : String × List String → Exec Prepared Unit
  prepare_group (group_name, group_hosts) = do
    said ← say ("*** applying plan to group: " <> (group_name <> " ***"))
    for_each prepare_host group_hosts

  unfoldable pub prepare : Exec Prepared Unit
  prepare = for_each prepare_group hosts.groups

  -- The lines of the results behind those of the preparation.
  abbrev pub printed_behind : List String → Outcome (List String) → Outcome (Unit {0}) × List String
  printed_behind printed (ok lines) = (ok tt, printed ++ lines)
  printed_behind printed (err e) = (err e, printed)
  printed_behind printed (panic p) = (panic p, printed)

  abbrev pub run_futures :
      (Report → String)
      → (List Future → List (Outcome (String × ℕ)))
      → Outcome (Unit {0}) × Prepared
      → Outcome (Unit {0}) × List String
  run_futures pretty results (ok _, p) =
      printed_behind p.printed (report_results pretty plan (results p.futures))
  run_futures pretty results (err e, p) = (err e, p.printed)
  run_futures pretty results (panic e, p) = (panic e, p.printed)

  -- The run by executors, where the futures give these results, in the order in which they finish.
  unfoldable pub apply_by_executors :
      (Report → String)
      → (List Future → List (Outcome (String × ℕ)))
      → Outcome (Unit {0}) × List String
  apply_by_executors pretty results =
      run_futures pretty results (prepare (record { futures = []; printed = [] }))

-- The lines of the loop that follows a job, behind the one that names it.
abbrev pub with_job :
    String → Option (Outcome (Unit {0}) × List Printed) → Option (Outcome (Unit {0}) × List String)
with_job job_id none = none
with_job job_id (some (r, out)) =
    some (r, ("* plan assigned controller job id: " <> job_id) ∷ map line out)

-- The run by a controller: `answers` are the states that it gives for a job, one after another.
unfoldable pub apply_by_controller :
    (String → List (Outcome JobState)) → Outcome String → Option (Outcome (Unit {0}) × List String)
apply_by_controller answers (ok job_id) = with_job job_id (poll_loop (answers job_id) [])
apply_by_controller answers (err e) = some (err e, [])
apply_by_controller answers (panic p) = some (panic p, [])

module _ (debug_str : String → String) (pretty : Report → String)
    (split : String → Option (List String)) (read : String → Outcome String)
    (parse_hosts : String → Outcome HostConfig) (parse_tasks : String → Outcome TaskSet)
    (start : String → Plan → HostConfig → Outcome String)
    (answers : String → String → List (Outcome JobState))
    (results : List Future → List (Outcome (String × ℕ))) where
  abbrev pub apply_read :
      Bool → Option String → Outcome (Plan × HostConfig) → Option (Outcome (Unit {0}) × List String)
  apply_read dry controller (err e) = some (err e, [])
  apply_read dry controller (panic p) = some (panic p, [])
  apply_read true controller (ok (plan, hosts)) = some (dry_run debug_str plan hosts [])
  apply_read false none (ok (plan, hosts)) = some (apply_by_executors plan hosts pretty results)
  apply_read false (some controller) (ok (plan, hosts)) =
      apply_by_controller (answers controller) (start controller plan hosts)

  -- `start` is the answer of the controller to the plan: the identifier of the job.
  unfoldable pub subcommand_apply :
      Bool
      → Option String
      → Option String
      → Option String
      → Option (Outcome (Unit {0}) × List String)
  subcommand_apply dry controller file_arg hosts_arg =
      apply_read dry controller (read_plan read parse_hosts split parse_tasks file_arg hosts_arg)
