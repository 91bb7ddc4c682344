-- ===== src/Cli/Prompt.antt =====
-- there-cli/src/commands/mod.rs: `Interactive`, the questions to the user.
use that_goes_there.Prelude.{
  String, ◌≡◌, Bool, true, Bool-cases, inl, inr, Option, none, some, if◌then◌else◌,
}
use that_goes_there.Outcome.{Outcome, ok, err, ok-injective}
use that_goes_there.Cli.Args.{
  CommandErrors, into, prompt_interaction_failed, input_validation_failure,
}

-- What a prompt ends with: an input, or an error of the terminal by its message.
pub data Answer : Type 0 where
  answered : String → Answer
  broken : String → Answer

-- `dialoguer::Input` with a prompt, a default and a validator. It asks until the validator accepts.
pub record Terminal : Type 0 where
  pub interact : String → Option String → (String → Option CommandErrors) → Answer
  pub interact-valid :
      (prompt : String) (default : Option String) (validator : String → Option CommandErrors)
      (s : String)
      → interact prompt default validator ≡ answered s
      → validator s ≡ none

abbrev pub or_prompt_error : Answer → Outcome String
or_prompt_error (answered s) = ok s
or_prompt_error (broken e) = err (into (prompt_interaction_failed e))

module _ (T : Terminal) where
  open T use {interact}

  unfoldable pub prompt_for_input : String → Outcome String
  prompt_for_input message = or_prompt_error (interact message none (λ _. none))

  unfoldable pub prompt_for_input_with_default : String → String → Outcome String
  prompt_for_input_with_default message default =
      or_prompt_error (interact message (some default) (λ _. none))

  unfoldable pub prompt_for_input_with_validator :
      String → (String → Option CommandErrors) → Outcome String
  prompt_for_input_with_validator message validator =
      or_prompt_error (interact message none validator)

  -- `is_match` is that of the regex with the text `regex`.
  unfoldable pub prompt_for_input_with_regex_validation :
      (String → Bool) → String → String → Outcome String
  prompt_for_input_with_regex_validation is_match regex message =
      prompt_for_input_with_validator message
        (λ input. if is_match input then none else some (input_validation_failure message regex))

  answered-of-ok : (a : Answer) (s : String) → or_prompt_error a ≡ ok s → a ≡ answered s
  answered-of-ok (answered t) s h = cc (ok-injective h)
  answered-of-ok (broken e) s h = absurd (cc)

  -- An input that is asked for with a regex matches it.
  pub prompt_for_input_with_regex_validation-match :
      (is_match : String → Bool) (regex message s : String)
      → prompt_for_input_with_regex_validation is_match regex message ≡ ok s
      → is_match s ≡ true
  unfolding prompt_for_input_with_regex_validation prompt_for_input_with_validator
  prompt_for_input_with_regex_validation-match is_match regex message s h =
      let valid = T.interact-valid message none _ s (answered-of-ok _ s h) in
      elim (Bool-cases (is_match s)) [ inl e ↦ e | inr e ↦ absurd (cc (rw e at valid)) ]
