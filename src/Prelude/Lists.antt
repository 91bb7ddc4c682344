-- ===== src/Prelude/Lists.antt =====
-- Lists measured by native numbers, predicates on all members, and membership tests on texts.
use Prim.Native.Nat.{ℕ, zero, suc, ◌+◌}
use Prim.Native.String.{String}
use mathlib.Core.Path.{◌≡◌, refl, ap, subst}
use mathlib.Core.Logic.{◌⊎◌, inl, inr}
use mathlib.Core.Bool.{Bool, true, false, ◌||◌}
use mathlib.Core.List.{List, [], ◌∷◌, ◌++◌, map, Memᴰ}
use native.Mathlib.Omega.{arith}
use text.Mathlib.Text.{◌==◌}
use text.Mathlib.TextEquality.{eq_iff}
use text.Mathlib.TextPositions.{eq_refl}
use that_goes_there.Prelude.Tests.{Bool-cases}

module _ {ℓ} {A : Type ℓ} where
  abbrev pub length : List A → ℕ
  length [] = 0
  length (x ∷ xs) = suc (length xs)

  abbrev pub All {κ} : (A → Type κ) → List A → Type κ
  All P [] = Unit
  All P (x ∷ xs) = P x × All P xs

  abbrev pub take : ℕ → List A → List A
  take zero xs = []
  take (suc n) [] = []
  take (suc n) (x ∷ xs) = x ∷ take n xs

  abbrev pub any : (A → Bool) → List A → Bool
  any p [] = false
  any p (x ∷ xs) = p x || any p xs

  pub length-append : (xs ys : List A) → length (xs ++ ys) ≡ length xs + length ys
  length-append [] ys = omega arith
  length-append (x ∷ xs) ys = omega (arith, length-append xs ys)

  pub All-append {κ} :
      (Q : A → Type κ) (front back : List A) → All Q front → All Q back → All Q (front ++ back)
  All-append Q [] back _ later = later
  All-append Q (y ∷ front) back now later = (now.0, All-append Q front back now.1 later)

  pub All-split {κ} : (P : A → Type κ) (xs ys : List A) → All P (xs ++ ys) → All P xs × All P ys
  All-split P [] ys h = (tt, h)
  All-split P (x ∷ xs) ys h = let (now, later) = All-split P xs ys h.1 in ((h.0, now), later)

  pub All-weaken {κ μ} :
      {P : A → Type κ} {Q : A → Type μ} (xs : List A) → ((x : A) → P x → Q x) → All P xs → All Q xs
  All-weaken [] step h = tt
  All-weaken (x ∷ xs) step h = (step x h.0, All-weaken xs step h.1)

  pub All-zip {κ μ} :
      (P : A → Type κ) (Q : A → Type μ) (xs : List A)
      → All P xs
      → All Q xs
      → All (λ x. P x × Q x) xs
  All-zip P Q [] p q = tt
  All-zip P Q (x ∷ xs) p q = ((p.0, q.0), All-zip P Q xs p.1 q.1)

  pub Memᴰ-cons : {x y : A} {ys : List A} → Memᴰ x (y ∷ ys) → (x ≡ y) ⊎ Memᴰ x ys
  Memᴰ-cons (Memᴰ.head e) = inl e
  Memᴰ-cons (Memᴰ.tail m) = inr m

  -- A test that some member passes is passed by a member, which it names.
  pub any-Memᴰ : (p : A → Bool) (xs : List A) → any p xs ≡ true → (x : A) × Memᴰ x xs × (p x ≡ true)
  any-Memᴰ p [] h = absurd (cc)
  any-Memᴰ p (x ∷ xs) h = elim (Bool-cases (p x)) [
    | inl e ↦ (x, Memᴰ.head refl, e)
    | inr e ↦ let (y, m, t) = any-Memᴰ p xs (rw e at h) in (y, Memᴰ.tail m, t)
  ]

  pub any-of-Memᴰ : (p : A → Bool) {x : A} (xs : List A) → Memᴰ x xs → p x ≡ true → any p xs ≡ true
  any-of-Memᴰ p [] m h = elim m [ ]
  any-of-Memᴰ p (y ∷ ys) (Memᴰ.head e) h = ground (arith, ap p e)
  any-of-Memᴰ p (y ∷ ys) (Memᴰ.tail m) h = ground (arith, any-of-Memᴰ p ys m h)

pub length-map {ℓ κ} :
    {A : Type ℓ} {B : Type κ} (f : A → B) (xs : List A) → length (map f xs) ≡ length xs
length-map f [] = refl
length-map f (x ∷ xs) = ap suc (length-map f xs)

-- `Vec<String>::contains`
abbrev pub contains : List String → String → Bool
contains xs s = any (λ x. x == s) xs

pub contains-Memᴰ : (xs : List String) (s : String) → contains xs s ≡ true → Memᴰ s xs
contains-Memᴰ xs s h =
    let (x, m, e) = any-Memᴰ (λ x. x == s) xs h in subst (λ y. Memᴰ y xs) ((eq_iff x s).0 e) m

pub contains-of-Memᴰ : (xs : List String) (s : String) → Memᴰ s xs → contains xs s ≡ true
contains-of-Memᴰ xs s m = any-of-Memᴰ (λ x. x == s) xs m (eq_refl s)
