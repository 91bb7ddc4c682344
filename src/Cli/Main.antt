-- ===== src/Cli/Main.antt =====
-- there-cli/src/main.rs, and `PlanCommand::run` of there-cli/src/commands/plan.rs: the log level,
-- and the way from the arguments to a command.
pub mod Levels
pub mod Dry
use that_goes_there.Prelude.{
  ℕ, String, ◌<>◌, Bool, ◌&&◌, Option, none, some, List, [], ◌==◌, ltb, str_eq, if◌then◌else◌,
}
use that_goes_there.Outcome.{Report, eyre, Outcome, ok, err}
use that_goes_there.Ipc.{JobState}
use that_goes_there.Plan.Task.{Plan}
use that_goes_there.Plan.Host.{HostConfig}
use that_goes_there.Plan.TaskSet.{TaskSet}
use that_goes_there.Cli.Args.{into, invalid_subcommand, no_subcommand_provided}
use that_goes_there.Cli.Hosts.{subcommand_validate}
use that_goes_there.Cli.Apply.{Future, subcommand_apply}

pub data LevelFilter : Type 0 where
  error warn info debug trace : LevelFilter

-- The level, and the variable RUST_LIB_BACKTRACE.
abbrev pub Logging : Type 0
Logging = LevelFilter × Option String

-- The level for this many `-v`.
abbrev pub by_count : ℕ → Option String → Logging
by_count verbose env =
    if verbose == 1
    then (warn, env)
    else if verbose == 2
    then (info, env)
    else if verbose == 3
    then (debug, some "1")
    else (trace, some "full")

unfoldable pub logging : Bool → ℕ → Option String → Logging
logging quiet verbose env =
    if quiet && (verbose == 0)
    then (error, env)
    else if ltb 0 verbose
    then by_count verbose env
    else (error, env)

abbrev pub by_exe : Option String → Option String → Option String
by_exe none env = env
by_exe (some exe) env = if str_eq exe "target/debug/there-cli" then some "full" else env

-- The logging of a run, by the name under which it was started.
unfoldable pub set_up_logging : Option String → Bool → ℕ → Option String → Logging
set_up_logging exe quiet verbose env =
    let (level, backtrace) = logging quiet verbose env in (level, by_exe exe backtrace)

-- The arguments as `clap` gives them.
pub record ArgMatches : Type 1 where
  pub Matches : Type 0
  pub subcommand : Matches → Option (String × Matches)
  pub get_one : Matches → String → Option String
  pub get_flag : Matches → String → Bool

-- What a command prints and ends with; `none` if it never ends.
abbrev pub Ran : Type 0
Ran = Option (Outcome (Unit {0}) × List String)

module _ (X : ArgMatches) where
  open X use {Matches, subcommand, get_one, get_flag}

  -- `PlanCommand::run`, over its two commands.
  unfoldable pub run : (validate apply : Matches → Ran) → Option (String × Matches) → Ran
  run validate apply none = some (err (into no_subcommand_provided), [])
  run validate apply (some (name, matches)) =
      if str_eq name "validate"
      then validate matches
      else if str_eq name "apply"
      then apply matches
      else some (err (into (invalid_subcommand name)), [])

  -- `main` behind the set-up of the logging, over `PlanCommand::run`.
  unfoldable pub main : (plan : Matches → Ran) → Option (String × Matches) → Ran
  main plan none = some (ok tt, [])
  main plan (some (name, matches)) =
      if str_eq name "plan"
      then plan matches
      else some (err (eyre ("Unrecognized subcommand: " <> name)), [])

  module _ (debug_str : String → String) (pretty : Report → String)
      (split : String → Option (List String)) (read : String → Outcome String)
      (parse_hosts : String → Outcome HostConfig) (parse_tasks : String → Outcome TaskSet)
      (start : String → Plan → HostConfig → Outcome String)
      (answers : String → String → List (Outcome JobState))
      (results : List Future → List (Outcome (String × ℕ))) where
    abbrev pub validate_by : Matches → Ran
    validate_by matches = some (
        subcommand_validate split read parse_hosts parse_tasks (get_one matches "file")
          (get_one matches "hosts") [])

    abbrev pub apply_by : Matches → Ran
    apply_by matches =
        subcommand_apply debug_str pretty split read parse_hosts parse_tasks start answers results
          (get_flag matches "dry") (get_one matches "controller") (get_one matches "file")
          (get_one matches "hosts")

    -- The whole program.
    unfoldable pub there_cli : Matches → Ran
    there_cli matches =
        main (λ plan. run validate_by apply_by (subcommand plan)) (subcommand matches)
