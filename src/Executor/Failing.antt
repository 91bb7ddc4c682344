-- ===== src/Executor/Failing.antt =====
-- The prerequisites that a test does not pass: what `ensure_task` of libthere/src/executor/simple.rs
-- and ssh.rs is to return, described on its own.
use mathlib.Core.List.{append_assoc}
use that_goes_there.Prelude.{
  ◌≡◌, refl, ap, ◌∙◌, Bool, true, Bool-cases, inl, inr, List, [], ◌∷◌, ◌++◌, All, if◌then◌else◌,
}
use that_goes_there.Exec.{Exec}
use that_goes_there.Exec.Returns.{Returns}
use that_goes_there.Exec.Says.{Says}
use that_goes_there.Plan.Task.{Ensure}

module _ (passes : Ensure → Bool) where
  -- Those that fail, in their order.
  abbrev pub failing : List Ensure → List Ensure
  failing [] = []
  failing (e ∷ es) = let rest = failing es in if passes e then rest else e ∷ rest

  pub failing-none : (es : List Ensure) → All (λ e. passes e ≡ true) es → failing es ≡ []
  failing-none [] h = refl
  failing-none (e ∷ es) h = rw h.0 (failing-none es h.1)

  -- One round of a loop that collects the failures.
  pub failing-step :
      (before : List Ensure) (e : Ensure) (es : List Ensure)
      → (if passes e then before else before ++ e ∷ []) ++ failing es ≡ before ++ failing (e ∷ es)
  failing-step before e es = elim (Bool-cases (passes e)) [
    | inl t ↦ rw t refl
    | inr f ↦ rw f (append_assoc before (e ∷ []) (failing es))
  ]

  abbrev pub IsFailing : List Ensure → List Ensure → List Ensure → Type 0
  IsFailing before es found = found ≡ before ++ failing es

  round_found :
      (before : List Ensure) (e : Ensure) (es : List Ensure) (b : Bool) (found : List Ensure)
      → b ≡ passes e
      → IsFailing (if b then before else before ++ e ∷ []) es found
      → IsFailing before (e ∷ es) found
  round_found before e es b found h q =
      q
      ∙ ap (λ (c : Bool). (if c then before else before ++ e ∷ []) ++ failing es) h
      ∙ failing-step before e es

  -- The rest of a loop that collects failures, behind a round whose test gave `b`.
  pub round-Returns :
      {S : Type 0} (loop : List Ensure → Exec S (List Ensure)) (before : List Ensure) (e : Ensure)
      (es : List Ensure) (b : Bool)
      → b ≡ passes e
      → ((acc : List Ensure) → Returns (IsFailing acc es) (loop acc))
      → Returns (IsFailing before (e ∷ es)) (loop (if b then before else before ++ e ∷ []))
  round-Returns loop before e es b h rest = record {
    at = λ s.
        let (found, r, q) = (rest (if b then before else before ++ e ∷ [])).at s in
        (found, r, round_found before e es b found h q);
  }

  pub round-Says :
      {S X : Type 0} (sent : S → List X) {xs : List X} (loop : List Ensure → Exec S (List Ensure))
      (before : List Ensure) (e : Ensure) (es : List Ensure) (b : Bool)
      → b ≡ passes e
      → ((acc : List Ensure) → Says sent xs (IsFailing acc es) (loop acc))
      → Says sent xs (IsFailing before (e ∷ es)) (loop (if b then before else before ++ e ∷ []))
  round-Says sent loop before e es b h rest = record {
    at = λ s.
        let (found, r, q, said) = (rest (if b then before else before ++ e ∷ [])).at s in
        (found, r, round_found before e es b found h q, said);
  }
