-- ===== src/Cli/Hosts.antt =====
-- there-cli/src/commands/plan.rs: `validate`, and `apply --dry`.
pub mod Validated
use that_goes_there.Prelude.{String, ◌<>◌, Option, none, some, List, [], ◌∷◌, ◌++◌}
use that_goes_there.Text.{decimal, join}
use that_goes_there.Outcome.{eyre, Outcome, ok, err}
use that_goes_there.Exec.{Exec, lift, modify, ◌>>=◌, ◌>>◌, for_each}
use that_goes_there.Plan.Task.{Ensure, PlannedTask, Plan}
use that_goes_there.Plan.Host.{Host, HostConfig, get}
use that_goes_there.Plan.TaskSet
use that_goes_there.Plan.TaskSet.{TaskSet}
use that_goes_there.Executor.State.{debug_ensure}
use that_goes_there.Cli.Files.{read_hosts_config}
use that_goes_there.Cli.Args.{read_argument_with_validator}

-- What was printed.
abbrev pub Console : Type 0
Console = List String

unfoldable pub print : String → Exec Console Unit
print s = modify (λ out. out ++ s ∷ [])

abbrev pub found_or_err : String → Option Host → Outcome Host
found_or_err hostname none = err (eyre ("host not found: " <> hostname))
found_or_err hostname (some host) = ok host

unfoldable pub host_line : String → Host → String
host_line hostname host =
    "**** "
    <> (hostname
        <> (": "
            <> (host.host <> (":" <> (decimal host.port <> (" (" <> (host.executor <> ")")))))))

-- The body of the loop of `inspect_host_group`.
unfoldable pub inspect_host : List (String × Host) → String → Exec Console Unit
inspect_host hosts hostname = do
  host ← lift (found_or_err hostname (get hosts hostname))
  print (host_line hostname host)

unfoldable pub inspect_host_group : List (String × Host) → String × List String → Exec Console Unit
inspect_host_group hosts (group_name, group_hosts) = do
  done ← print ("*** group: " <> group_name)
  for_each (inspect_host hosts) group_hosts

-- `read` is `fs::read_to_string`; the parsers are those of `serde_yaml`.
module _ (split : String → Option (List String)) (read : String → Outcome String)
    (parse_hosts : String → Outcome HostConfig) (parse_tasks : String → Outcome TaskSet) where
  unfoldable pub subcommand_validate : Option String → Option String → Exec Console Unit
  subcommand_validate file_arg hosts_arg = do
    file ← lift (read_argument_with_validator file_arg "file" (λ _. none))
    hosts_file ← lift (read_argument_with_validator hosts_arg "hosts" (λ _. none))
    hosts ← lift (read_hosts_config read parse_hosts hosts_file)
    plan ← lift (read file)
    task_set ← lift (parse_tasks plan)
    planned ← lift (TaskSet.plan split task_set)
    said ← print "* plan is valid."
    headed ← print "** hosts:"
    for_each (inspect_host_group hosts.hosts) hosts.groups

-- The dry run of a plan: `debug_str` is `format!("{:?}", …)` of a string.
module _ (debug_str : String → String) where
  unfoldable pub print_ensure : Ensure → Exec Console Unit
  print_ensure e = print ("*** " <> debug_ensure debug_str e)

  unfoldable pub print_task : PlannedTask → Exec Console Unit
  print_task task = do
    done ← print ("** " <> (task.name <> (": " <> join " " task.command)))
    for_each print_ensure task.ensures

  unfoldable pub dry_run : Plan → HostConfig → Exec Console Unit
  dry_run plan hosts = do
    said ← print ("*** plan: " <> (plan.name <> " ***\n"))
    headed ← print "* metadata"
    listed ← print "** hosts:"
    inspected ← for_each (inspect_host_group hosts.hosts) hosts.groups
    for_each print_task plan.blueprint
