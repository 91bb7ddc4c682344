-- ===== src/Exec/Keeps.antt =====
-- Invariants of actions, with one rule for each way to build an action.
use that_goes_there.Prelude.{List, [], ◌∷◌}
use that_goes_there.Outcome.{Outcome, ok, err, panic, Report}
use that_goes_there.Exec.{Exec, pure, throw, lift, gets, attempt, resume, ◌>>=◌, for_each}

-- `m` leaves `I` true, whether it returns, fails or panics.
pub record Keeps {ℓ κ} {S A : Type ℓ} (I : S → Type κ) (m : Exec S A) : Type (ℓ ⊔ κ) where
  pub at : (s : S) → I s → I (m s).1

module _ {ℓ κ} {S A : Type ℓ} {I : S → Type κ} where
  pub Keeps-attempt : (m : Exec S A) → Keeps I m → Keeps I (attempt m)
  unfolding attempt
  Keeps-attempt m k = record { at = λ s h. k.at s h }

  pub Keeps-gets : (f : S → A) → Keeps I (gets f)
  unfolding gets
  Keeps-gets f = record { at = λ _ kept. kept }

  pub Keeps-throw : (e : Report) → Keeps I (throw {A = A} e)
  unfolding throw
  Keeps-throw e = record { at = λ _ kept. kept }

  pub Keeps-pure : (x : A) → Keeps I (pure x)
  unfolding pure
  Keeps-pure x = record { at = λ _ kept. kept }

  pub Keeps-lift : (r : Outcome A) → Keeps I (lift r)
  unfolding lift
  Keeps-lift r = record { at = λ _ kept. kept }

module _ {ℓ κ} {S A B : Type ℓ} {I : S → Type κ} where
  Keeps-resume :
      (f : A → Exec S B) (r : Outcome A) (s : S)
      → ((a : A) → Keeps I (f a))
      → I s
      → I (resume f r s).1
  Keeps-resume f (ok a) s kf h = (kf a).at s h
  Keeps-resume f (err e) s kf h = h
  Keeps-resume f (panic p) s kf h = h

  pub Keeps-bind :
      (first : Exec S A) (rest : A → Exec S B)
      → Keeps I first
      → ((x : A) → Keeps I (rest x))
      → Keeps I (first >>= rest)
  unfolding ◌>>=◌
  Keeps-bind first rest now later = record {
    at = λ s h. Keeps-resume rest (first s).0 (first s).1 later (now.at s h);
  }

module _ {ℓ κ} {S A : Type ℓ} {I : S → Type κ} where
  pub Keeps-for_each :
      (body : A → Exec S Unit) (xs : List A)
      → ((a : A) → Keeps I (body a))
      → Keeps I (for_each body xs)
  unfolding for_each
  Keeps-for_each body [] k = Keeps-pure tt
  Keeps-for_each body (x ∷ xs) k =
      Keeps-bind (body x) (λ _. for_each body xs) (k x) (λ _. Keeps-for_each body xs k)

pub ruleset keeps_rules =
    (Keeps-pure, Keeps-throw, Keeps-lift, Keeps-gets, Keeps-attempt, Keeps-bind, Keeps-for_each)
