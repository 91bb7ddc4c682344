-- ===== src/Outcome.antt =====
-- What a fallible call gives: `eyre::Result`, and a panic beside it.
pub mod Traverse
use that_goes_there.Prelude.{ℕ, String, ◌≡◌, refl, List, [], ◌∷◌}

-- The message of `eyre!`, an error value of the program's own that keeps its type in a report, and
-- an error of the standard library, of a package or of a command's arguments, by its message.
pub data Report : Type 0 where
  eyre : String → Report
  plan_apply_failed : String → ℕ → Report → Report
  external : String → Report

pub data Panic : Type 0 where
  index_out_of_bounds unwrap_on_none unwrap_on_err explicit : Panic

pub data Outcome {ℓ} (A : Type ℓ) : Type ℓ where
  ok : A → Outcome A
  err : Report → Outcome A
  panic : Panic → Outcome A

module _ {ℓ κ} {A : Type ℓ} {B : Type κ} where
  infixl 5 ◌>>=◌
  abbrev pub ◌>>=◌ : Outcome A → (A → Outcome B) → Outcome B
  ok a >>= f = f a
  err e >>= f = err e
  panic p >>= f = panic p

  -- A chain that returns has returned from both of its parts.
  pub bind-ok :
      (first : Outcome A) (rest : A → Outcome B) {y : B}
      → (first >>= rest) ≡ ok y
      → (x : A) × (first ≡ ok x) × (rest x ≡ ok y)
  bind-ok (panic p) rest e = cc
  bind-ok (err r) rest e = cc
  bind-ok (ok x) rest e = (x, refl, e)

pub ok-injective {ℓ} : {A : Type ℓ} {a b : A} → ok a ≡ ok b → a ≡ b
ok-injective h = cc

-- The results of `f` on all members, in order, or the first failure.
unfoldable pub traverse {ℓ κ} :
    {A : Type ℓ} {B : Type κ} → (A → Outcome B) → List A → Outcome (List B)
traverse f [] = ok []
traverse f (x ∷ xs) = do y ← f x; ys ← traverse f xs; ok (y ∷ ys)
