-- ===== src/Cli/Files.antt =====
-- there-cli/src/commands/plan.rs: what is read for a plan. `read` is `fs::read_to_string`, and the
-- parsers are those of `serde_yaml`.
use that_goes_there.Prelude.{String, Option, none, List}
use that_goes_there.Outcome.{Outcome, ok, ◌>>=◌}
use that_goes_there.Plan.Task.{Plan}
use that_goes_there.Plan.Host.{HostConfig}
use that_goes_there.Plan.TaskSet
use that_goes_there.Plan.TaskSet.{TaskSet}
use that_goes_there.Cli.Args.{read_argument_with_validator}

module _ (read : String → Outcome String) (parse_hosts : String → Outcome HostConfig) where
  unfoldable pub read_hosts_config : String → Outcome HostConfig
  read_hosts_config path = do hosts ← read path; parse_hosts hosts

  module _ (split : String → Option (List String)) (parse_tasks : String → Outcome TaskSet) where
    -- `subcommand_apply` up to its plan.
    unfoldable pub read_plan : Option String → Option String → Outcome (Plan × HostConfig)
    read_plan file_arg hosts_arg = do
      file ← read_argument_with_validator file_arg "file" (λ _. none)
      text ← read file
      task_set ← parse_tasks text
      hosts_file ← read_argument_with_validator hosts_arg "hosts" (λ _. none)
      hosts ← read_hosts_config hosts_file
      plan ← TaskSet.plan split task_set
      ok (plan, hosts)
