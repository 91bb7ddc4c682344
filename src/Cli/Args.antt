-- ===== src/Cli/Args.antt =====
-- there-cli/src/commands/mod.rs: the arguments of a command, and its errors.
pub mod Laws
use that_goes_there.Prelude.{String, ◌<>◌, Bool, Option, none, some, if◌then◌else◌}
use that_goes_there.Outcome.{Report, external, Outcome, ok, err, ◌>>=◌}

-- The interaction with a terminal has errors of `std::io`, by their messages.
pub data CommandErrors : Type 0 where
  invalid_name_format : String → CommandErrors
  prompt_interaction_failed : String → CommandErrors
  required_user_input_missing : String → CommandErrors
  input_validation_failure : String → String → CommandErrors
  invalid_http_method : String → CommandErrors
  invalid_subcommand : String → CommandErrors
  no_subcommand_provided : CommandErrors

unfoldable pub message : CommandErrors → String
message (invalid_name_format s) =
    "Name must be at least 5 characters and contain only lowercase letters, numbers, and dashes (got: "
    <> (s <> ").")
message (prompt_interaction_failed e) = "Prompt interaction failed."
message (required_user_input_missing s) = "Required user input `" <> (s <> "` is missing.")
message (input_validation_failure s t) =
    "Argument `" <> (s <> ("` failed validation `" <> (t <> "`")))
message (invalid_http_method s) = "Invalid HTTP method `" <> (s <> "`")
message (invalid_subcommand s) = "Invalid subcommand `" <> (s <> "`.")
message no_subcommand_provided = "No subcommand provided."

-- A report of a command's error.
abbrev pub into : CommandErrors → Report
into e = external (message e)

-- The result of a validator: nothing, or its error.
abbrev pub or_fail : Option CommandErrors → Outcome (Unit {0})
or_fail none = ok tt
or_fail (some e) = err (into e)

-- `read_argument_with_validator`; `arg` is what `ArgMatches::get_one` gives for `id`.
unfoldable pub read_argument_with_validator :
    Option String → String → (String → Option CommandErrors) → Outcome String
read_argument_with_validator none id validator = err (into (required_user_input_missing id))
read_argument_with_validator (some arg) id validator = do valid ← or_fail (validator arg); ok arg

-- `is_match` is that of the regex with the text `regex`.
unfoldable pub read_argument_with_regex_validation :
    (is_match : String → Bool) → Option String → String → String → Outcome String
read_argument_with_regex_validation is_match arg id regex =
    read_argument_with_validator arg id
      (λ input. if is_match input then none else some (input_validation_failure id regex))
