-- ===== src/Tests/Cli.antt =====
-- The command line's theorems, and those on the start of the controller, at small inputs.
use that_goes_there.Prelude.{
  ℕ, ◌+◌, String, ◌≡◌, ◌↔◌, ◌⊎◌, refl, arith, true, none, some, Option, List, [], ◌∷◌, map, length,
}
use Prim.Native.Nat.{◌/◌, ◌*◌, ◌^◌}
use that_goes_there.Outcome.{Outcome, ok, err, eyre, Report}
use that_goes_there.Exec.{◌>>=◌, lift, modify, for_each}
use that_goes_there.Plan.Task.{Plan}
use that_goes_there.Plan.Host.{HostConfig, get}
use that_goes_there.Plan.ForHost.{plan_for_host}
use that_goes_there.Plan.TaskSet.{TaskSet, plan}
use that_goes_there.Plan.Visitor.{visit_task}
use that_goes_there.Executor.Local
use that_goes_there.Executor.Local.Panics.{execute-planned_never_panics}
use that_goes_there.Executor.Source.Loop.{delivered}
use that_goes_there.Controller.Prepare
use that_goes_there.Controller.Prepare.{Assignment, apply_plan}
use that_goes_there.Controller.Start.{v4, is_skipped}
use that_goes_there.Controller.Start.Prefixes.{bits, is_skipped-ranges}
use that_goes_there.Cli.Args.{read_argument_with_validator}
use that_goes_there.Cli.Files.{read_hosts_config, read_plan}
use that_goes_there.Cli.Hosts.{
  print, inspect_host, inspect_host_group, subcommand_validate, host_line,
}
use that_goes_there.Cli.Hosts.Validated.{
  IsValid, subcommand_validate_succeeds_iff, validated-applies,
}
use that_goes_there.Cli.Run.{local, do_apply, executor_type}
use that_goes_there.Cli.Run.Ending.{local_result, lines_of, do_apply-local_returns}
use that_goes_there.Cli.Apply.{prepare, prepare_group, prepare_host, prepare_part, say, push}
use that_goes_there.Cli.Apply.Agreement.{assignment_of, prepare-agrees}
use that_goes_there.Cli.Main.{ArgMatches, there_cli, main, run}
use that_goes_there.Cli.Main.Dry.{there_cli-validated}
use that_goes_there.Tests.Samples.{
  one_word, quoted, chores, chores_plan, site, server, unbounded, queue, workstation, reachable,
}
use that_goes_there.Tests.Plans.{planned}
use that_goes_there.Tests.Runs.{idle}

-- Files that hold their names, which parse to the samples.
abbrev read : String → Outcome String
read file = ok file

abbrev parse_hosts : String → Outcome HostConfig
parse_hosts text = ok site

abbrev parse_tasks : String → Outcome TaskSet
parse_tasks text = ok chores

subcommand_validate_succeeds_example :
    ((subcommand_validate one_word read parse_hosts parse_tasks (some "plan") (some "hosts") []).0
      ≡ ok tt)
    ↔ IsValid one_word read parse_hosts parse_tasks (some "plan") (some "hosts")
subcommand_validate_succeeds_example =
    subcommand_validate_succeeds_iff one_word read parse_hosts parse_tasks (some "plan")
      (some "hosts") []

accepted :
    (subcommand_validate one_word read parse_hosts parse_tasks (some "plan") (some "hosts") []).0
    ≡ ok tt
unfolding subcommand_validate read_argument_with_validator read_hosts_config plan visit_task
    inspect_host_group inspect_host print get ◌>>=◌ for_each lift modify
accepted = refl

abbrev whole : Report → String
whole e = "report"

abbrev all_fail : List Assignment → List (Outcome (String × ℕ))
all_fail fs = err (eyre "lost") ∷ []

validated-applies_example :
    (p : Plan) × (hosts : HostConfig) × (read_plan read parse_hosts one_word parse_tasks
        (some "plan")
        (some "hosts")
      ≡ ok (p, hosts))
    × (lines : List String) × (apply_plan whole all_fail p hosts ≡ ok lines)
validated-applies_example =
    validated-applies one_word read parse_hosts parse_tasks (some "plan") (some "hosts") [] whole
      all_fail (λ fs. (tt, tt)) accepted

abbrev web1_plan : Plan
web1_plan = plan_for_host chores_plan "web1" site

-- Enough rounds for the reading task.
abbrev rounds : ℕ
rounds = 1 + length (Local.execute quoted unbounded workstation web1_plan idle).1.chan

abbrev key : Outcome String
key = ok "key"

do_apply-local_returns_example :
    do_apply quoted whole unbounded workstation reachable queue rounds local key web1_plan "web1"
      server [] [] []
    ≡ some (
      local_result quoted whole unbounded workstation reachable queue web1_plan "web1"
          (Local.execute quoted unbounded workstation web1_plan idle).0
          (Local.execute quoted unbounded workstation web1_plan idle).1,
      lines_of "web1"
          (delivered (Local.execute quoted unbounded workstation web1_plan idle).1.chan),
    )
unfolding plan_for_host
do_apply-local_returns_example =
    do_apply-local_returns quoted whole unbounded workstation reachable queue rounds key web1_plan
      "web1" server [] [] [] (omega arith)
      (λ p.
        execute-planned_never_panics quoted unbounded workstation one_word chores chores_plan "web1"
          site idle p planned)
      (omega arith)

prepared : (prepare chores_plan site (record { futures = []; printed = [] })).0 ≡ ok tt
unfolding prepare prepare_group prepare_host prepare_part say push plan_for_host executor_type get
    ◌>>=◌ for_each lift modify
prepared = refl

prepare-agrees_example :
    Prepare.prepare chores_plan site
    ≡ ok (
        map assignment_of
          (prepare chores_plan site (record { futures = []; printed = [] })).1.futures)
prepare-agrees_example = prepare-agrees chores_plan site prepared

is_skipped-ranges_example : (is_skipped (v4 172 31 0 1) ≡ true) ↔ (
    (bits 172 31 0 1 / 2 ^ 24 ≡ 127)
    ⊎ ((bits 172 31 0 1 / 2 ^ 16 ≡ 169 * 256 + 254) ⊎ (bits 172 31 0 1 / 2 ^ 20 ≡ 172 * 16 + 1)))
is_skipped-ranges_example =
    is_skipped-ranges 172 31 0 1 (omega arith) (omega arith) (omega arith) (omega arith)

-- Arguments that are the rest of a line of words; each option has its own name.
abbrev first_word : List String → Option (String × List String)
first_word [] = none
first_word (w ∷ ws) = some (w, ws)

abbrev words : ArgMatches
words = record {
  Matches = List String;
  subcommand = first_word;
  get_one = λ ws id. some id;
  get_flag = λ ws id. true;
}

abbrev cli : List String → Option (Outcome (Unit {0}) × List String)
cli =
    there_cli words quoted whole one_word read parse_hosts parse_tasks (λ c p hosts. ok "job")
      (λ c job. []) (λ fs. [])

validated_run : (out : List String) × (cli ("plan" ∷ "validate" ∷ []) ≡ some (ok tt, out))
unfolding there_cli main run subcommand_validate read_argument_with_validator read_hosts_config plan
    visit_task inspect_host_group inspect_host print get ◌>>=◌ for_each lift modify host_line
validated_run = (_, refl)

there_cli-validated_example :
    (lines : List String) × (cli ("plan" ∷ "apply" ∷ []) ≡ some (ok tt, lines))
there_cli-validated_example =
    there_cli-validated words quoted whole one_word read parse_hosts parse_tasks
      (λ c p hosts. ok "job") (λ c job. []) (λ fs. []) ("plan" ∷ "validate" ∷ []) []
      ("plan" ∷ "apply" ∷ []) [] validated_run.0
      (record { plan = "validate" ∷ []; is_plan = refl; is_command = refl })
      (record { plan = "apply" ∷ []; is_plan = refl; is_command = refl }) refl refl refl
      validated_run.1
