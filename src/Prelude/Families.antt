-- ===== src/Prelude/Families.antt =====
-- Families indexed by the numbers below some `n`: one member changed, and sums over all members.
use Prim.Native.Nat.{ℕ, zero, suc, ◌+◌, ◌<◌, ◌≤◌}
use mathlib.Core.Path.{◌≡◌, refl, ap}
use mathlib.Core.Logic.{◌≢◌, ite}
use native.Mathlib.Decide.{ℕ_discrete}
use native.Mathlib.Omega.{arith}

-- The member `i` is changed.
unfoldable pub set_at {ℓ} : {A : Type ℓ} → ℕ → A → (ℕ → A) → ℕ → A
set_at i a f j = ite (ℕ_discrete i j) a (f j)

module _ {ℓ} {A : Type ℓ} (i : ℕ) (a : A) (f : ℕ → A) where
  pub set_at_self : set_at i a f i ≡ a
  unfolding set_at
  set_at_self = ground arith

  pub set_at_other : (j : ℕ) → i ≢ j → set_at i a f j ≡ f j
  unfolding set_at
  set_at_other j ne = ground arith

module _ {ℓ} {A : Type ℓ} (size : A → ℕ) where
  -- The sum of the sizes of the members below `n`.
  abbrev pub sum : ℕ → (ℕ → A) → ℕ
  sum zero f = 0
  sum (suc n) f = size (f n) + sum n f

  sum-above : (n i : ℕ) (a : A) (f : ℕ → A) → n ≤ i → sum n (set_at i a f) ≡ sum n f
  sum-above zero i a f h = refl
  sum-above (suc n) i a f h = omega (
    arith,
    ap size (set_at_other i a f n (λ same. absurd (omega arith))),
    sum-above n i a f (omega arith),
  )

  pub sum-set_at :
      (n i : ℕ) (a : A) (f : ℕ → A) → i < n → sum n (set_at i a f) + size (f i) ≡ size a + sum n f
  sum-set_at zero i a f h = absurd (omega arith)
  sum-set_at (suc n) i a f h = elim (ℕ_discrete i n) [
    | yes same ↦ omega (
      arith,
      ap size (set_at_self i a f),
      ap (λ k. size (set_at i a f k)) same,
      ap (λ k. size (f k)) same,
      sum-above n i a f (omega arith),
    )
    | no other ↦
        omega
          (arith, ap size (set_at_other i a f n other), sum-set_at n i a f (omega (arith, other)))
  ]
