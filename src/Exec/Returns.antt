-- ===== src/Exec/Returns.antt =====
-- Blocks that return from every state, with a value of which something holds.
use that_goes_there.Prelude.{◌≡◌, refl, List, [], ◌∷◌, All}
use that_goes_there.Outcome.{Outcome, ok, err, panic}
use that_goes_there.Exec.{Exec, pure, resume, ◌>>=◌, for_each}

pub record Returns {ℓ κ} {S A : Type ℓ} (P : A → Type κ) (m : Exec S A) : Type (ℓ ⊔ κ) where
  pub at : (s : S) → (a : A) × ((m s).0 ≡ ok a) × P a

module _ {ℓ κ} {S A : Type ℓ} {P : A → Type κ} where
  pub pure-Returns : (a : A) → P a → Returns {S = S} P (pure a)
  unfolding pure
  pure-Returns a h = record { at = λ s. (a, refl, h) }

  pub bind-Returns {μ} :
      {B : Type ℓ} {Q : B → Type μ} (m : Exec S A) (f : A → Exec S B)
      → Returns P m
      → ((a : A) → P a → Returns Q (f a))
      → Returns Q (m >>= f)
  unfolding ◌>>=◌
  bind-Returns m f h k = record {
    at = λ s. let (a, e, p) = h.at s in let (b, d, q) = (k a p).at (m s).1 in (b, rw e d, q);
  }

pub for_each-Returns {ℓ κ} :
    {S A : Type ℓ} {P : A → Type κ} (body : A → Exec S Unit) (xs : List A)
    → All P xs
    → ((x : A) → P x → Returns (λ _. Unit {0}) (body x))
    → Returns (λ _. Unit {0}) (for_each body xs)
unfolding for_each
for_each-Returns body [] h k = pure-Returns tt tt
for_each-Returns body (x ∷ xs) h k =
    bind-Returns _ _ (k x h.0) λ _ _. for_each-Returns body xs h.1 k

-- A chain that returned has returned from both of its parts.
pub bind-returned {ℓ} :
    {S A B : Type ℓ} (m : Exec S A) (f : A → Exec S B) (s : S) {y : B}
    → ((m >>= f) s).0 ≡ ok y
    → (x : A) × ((m s).0 ≡ ok x) × ((f x (m s).1).0 ≡ ok y)
unfolding ◌>>=◌
bind-returned {S = S} {A = A} {B = B} m f s h = by_outcome (m s).0 refl h
  where
    by_outcome :
        {y : B} (r : Outcome A)
        → (m s).0 ≡ r
        → (resume f r (m s).1).0 ≡ ok y
        → (x : A) × ((m s).0 ≡ ok x) × ((f x (m s).1).0 ≡ ok y)
    by_outcome (ok x) e k = (x, e, k)
    by_outcome (err r) e k = cc
    by_outcome (panic p) e k = cc

-- A loop that returned has returned from its body at every member.
pub for_each-returned {ℓ} :
    {S A : Type ℓ} (body : A → Exec S Unit) (xs : List A) (s : S)
    → (for_each body xs s).0 ≡ ok tt
    → All (λ x. (u : S) × ((body x u).0 ≡ ok tt)) xs
unfolding for_each
for_each-returned body [] s h = tt
for_each-returned body (x ∷ xs) s h =
    let (_, now, later) = bind-returned (body x) _ s h in
    ((s, now), for_each-returned body xs _ later)

-- What a chain goes on with behind a part that returned.
pub bind-behind {ℓ} :
    {S A B : Type ℓ} (m : Exec S A) (f : A → Exec S B) (s : S) {x : A}
    → (m s).0 ≡ ok x
    → (m >>= f) s ≡ f x (m s).1
unfolding ◌>>=◌
bind-behind m f s e = rw e refl
