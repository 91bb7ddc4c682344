-- ===== src/Outcome/Traverse.antt =====
-- The laws of `traverse`.
use that_goes_there.Prelude.{◌≡◌, refl, sym, ap₂, List, [], ◌∷◌, ◌++◌, map, All}
use that_goes_there.Outcome.{Panic, Outcome, ok, panic, ◌>>=◌, bind-ok, ok-injective, traverse}

module _ {ℓ κ} {A : Type ℓ} {B : Type κ} (f : A → Outcome B) where
  -- The two ends of a successful run of a list that is not empty.
  traverse-cons-eq-ok :
      (x : A) (xs : List A) {ys : List B}
      → traverse f (x ∷ xs) ≡ ok ys
      → (z : B) × (zs : List B) × (f x ≡ ok z) × (traverse f xs ≡ ok zs) × (ys ≡ z ∷ zs)
  unfolding traverse
  traverse-cons-eq-ok x xs h =
      let (z, e, k) = bind-ok (f x) (λ y. traverse f xs >>= λ ys. ok (y ∷ ys)) h in
      let (zs, e', k') = bind-ok (traverse f xs) (λ ys. ok (z ∷ ys)) k in (z, zs, e, e', cc)

  pub traverse-All {μ} :
      (P : B → Type μ)
      → ((x : A) (y : B) → f x ≡ ok y → P y)
      → (xs : List A) (ys : List B) → traverse f xs ≡ ok ys
      → All P ys
  unfolding traverse
  traverse-All P step [] ys h = rw (sym (ok-injective h)) tt
  traverse-All P step (x ∷ xs) ys h =
      let (z, zs, e, e', s) = traverse-cons-eq-ok x xs h in
      rw s (step x z e, traverse-All P step xs zs e')

  pub map-traverse {μ} :
      {C : Type μ} (g : B → C) (k : A → C)
      → ((x : A) (y : B) → f x ≡ ok y → g y ≡ k x)
      → (xs : List A) (ys : List B) → traverse f xs ≡ ok ys
      → map g ys ≡ map k xs
  unfolding traverse
  map-traverse g k step [] ys h = rw (sym (ok-injective h))
  map-traverse g k step (x ∷ xs) ys h =
      let (z, zs, e, e', s) = traverse-cons-eq-ok x xs h in
      rw s (ap₂ (◌∷◌) (step x z e) (map-traverse g k step xs zs e'))

  -- A run succeeds exactly when each of its steps does.
  pub traverse_total :
      (xs : List A) → All (λ x. (y : B) × (f x ≡ ok y)) xs → (ys : List B) × (traverse f xs ≡ ok ys)
  unfolding traverse
  traverse_total [] h = ([], refl)
  traverse_total (x ∷ xs) h = let (ys, e) = traverse_total xs h.1 in (h.0.0 ∷ ys, rw (h.0.1, e))

  pub traverse_steps :
      (xs : List A) (ys : List B) → traverse f xs ≡ ok ys → All (λ x. (y : B) × (f x ≡ ok y)) xs
  traverse_steps [] ys h = tt
  traverse_steps (x ∷ xs) ys h =
      let (z, zs, e, e', s) = traverse-cons-eq-ok x xs h in ((z, e), traverse_steps xs zs e')

  -- The first member that panics ends the run.
  pub traverse_panic :
      (xs : List A) (x : A) (rest : List A) (p : Panic)
      → All (λ x. (y : B) × (f x ≡ ok y)) xs
      → f x ≡ panic p
      → traverse f (xs ++ x ∷ rest) ≡ panic p
  unfolding traverse
  traverse_panic [] x rest p h e = rw e
  traverse_panic (w ∷ xs) x rest p h e = rw (h.0.1, traverse_panic xs x rest p h.1 e)
