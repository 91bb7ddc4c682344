-- ===== src/Exec.antt =====
-- Methods that change state and may fail or panic. What was written before an error stays written,
-- so the state comes back beside every outcome.
pub mod Keeps
pub mod Calm
pub mod Post
pub mod Returns
pub mod Says
use that_goes_there.Prelude.{List, [], ◌∷◌}
use that_goes_there.Outcome.{Outcome, ok, err, panic, Report}

abbrev pub Exec {ℓ} : Type ℓ → Type ℓ → Type ℓ
Exec S A = S → Outcome A × S

module _ {ℓ} {S A : Type ℓ} where
  unfoldable pub pure : A → Exec S A
  pure a s = (ok a, s)

  unfoldable pub throw : Report → Exec S A
  throw e s = (err e, s)

  -- A call that does not touch the state.
  unfoldable pub lift : Outcome A → Exec S A
  lift r s = (r, s)

  unfoldable pub gets : (S → A) → Exec S A
  gets f s = (ok (f s), s)

  -- What the caller of an async block goes on with: its outcome as a value.
  unfoldable pub attempt : Exec S A → Exec S (Outcome A)
  attempt m s = let (r, t) = m s in (ok r, t)

unfoldable pub modify {ℓ} : {S : Type ℓ} → (S → S) → Exec S Unit
modify f s = (ok tt, f s)

module _ {ℓ} {S A B : Type ℓ} where
  abbrev pub resume : (A → Exec S B) → Outcome A → Exec S B
  resume f (ok a) s = f a s
  resume f (err e) s = (err e, s)
  resume f (panic p) s = (panic p, s)

  infixl 10 ◌>>=◌ ◌>>◌
  unfoldable pub ◌>>=◌ : Exec S A → (A → Exec S B) → Exec S B
  unfolding pure throw lift gets attempt modify
  ◌>>=◌ m f s = resume f (m s).0 (m s).1

  abbrev pub ◌>>◌ : Exec S A → Exec S B → Exec S B
  m >> n = m >>= λ _. n

-- `for x in xs { body(x)?; }`
unfoldable pub for_each {ℓ} : {S A : Type ℓ} → (A → Exec S Unit) → List A → Exec S Unit
unfolding ◌>>=◌
for_each body [] = pure tt
for_each body (x ∷ xs) = body x >> for_each body xs
