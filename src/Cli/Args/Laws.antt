-- ===== src/Cli/Args/Laws.antt =====
-- When an argument is read.
use that_goes_there.Prelude.{
  String, ◌≡◌, ◌↔◌, sym, ap, ◌∙◌, arith, Bool, true, Bool-cases, inl, inr, Option, none, some,
}
use that_goes_there.Outcome.{ok, ok-injective}
use that_goes_there.Cli.Args.{read_argument_with_validator, read_argument_with_regex_validation}

-- An argument with a regex is read exactly if it is given and the regex matches it, and it is read
-- as it was given.
pub read_argument_with_regex_validation_iff :
    (is_match : String → Bool) (arg : Option String) (id regex value : String)
    → (read_argument_with_regex_validation is_match arg id regex ≡ ok value)
      ↔ ((arg ≡ some value) × (is_match value ≡ true))
unfolding read_argument_with_regex_validation read_argument_with_validator
read_argument_with_regex_validation_iff is_match none id regex value =
    (λ h. absurd (cc), λ (e, m). absurd (cc))
read_argument_with_regex_validation_iff is_match (some s) id regex value = (
  λ h. elim (Bool-cases (is_match s)) [
    | inl e ↦ let same = ok-injective (rw e at h) in (ap some same, ap is_match (sym same) ∙ e)
    | inr e ↦ absurd (cc (rw e at h))
  ],
  λ (e, m). elim (Bool-cases (is_match s)) [
    | inl t ↦ rw t (ap ok (unwrap_some e))
    | inr t ↦ absurd (ground (arith, ap is_match (unwrap_some e), m, t))
  ],
)
  where
    unwrap_some : {a b : String} → some a ≡ some b → a ≡ b
    unwrap_some h = cc
