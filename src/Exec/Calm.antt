-- ===== src/Exec/Calm.antt =====
-- Actions that never panic, with one rule for each way to build an action.
use that_goes_there.Prelude.{◌≢◌, refl}
use that_goes_there.Outcome.{Panic, Outcome, ok, err, panic, Report}
use that_goes_there.Exec.{Exec, pure, throw, gets, attempt, modify, resume, ◌>>=◌}

pub record IsCalm {ℓ} {S A : Type ℓ} (m : Exec S A) : Type ℓ where
  pub at : (s : S) (p : Panic) → (m s).0 ≢ panic p

module _ {ℓ} {S A : Type ℓ} where
  pub pure-IsCalm : (a : A) → IsCalm {S = S} (pure a)
  unfolding pure
  pure-IsCalm a = record { at = λ s p e. cc }

  pub throw-IsCalm : (e : Report) → IsCalm {S = S} (throw {A = A} e)
  unfolding throw
  throw-IsCalm e = record { at = λ s p e. cc }

  pub gets-IsCalm : (f : S → A) → IsCalm (gets f)
  unfolding gets
  gets-IsCalm f = record { at = λ s p e. cc }

  pub attempt-IsCalm : (m : Exec S A) → IsCalm (attempt m)
  unfolding attempt
  attempt-IsCalm m = record { at = λ s p e. cc }

pub modify-IsCalm {ℓ} : {S : Type ℓ} (f : S → S) → IsCalm (modify f)
unfolding modify
modify-IsCalm f = record { at = λ s p e. cc }

module _ {ℓ} {S A B : Type ℓ} where
  resume-IsCalm :
      (f : A → Exec S B) (r : Outcome A) (s : S) (p : Panic)
      → ((q : Panic) → r ≢ panic q)
      → ((a : A) → IsCalm (f a))
      → (resume f r s).0 ≢ panic p
  resume-IsCalm f (ok a) s p h k = (k a).at s p
  resume-IsCalm f (err e) s p h k = λ e. cc
  resume-IsCalm f (panic q) s p h k = λ _. h q refl

  pub bind-IsCalm :
      (m : Exec S A) (f : A → Exec S B) → IsCalm m → ((a : A) → IsCalm (f a)) → IsCalm (m >>= f)
  unfolding ◌>>=◌
  bind-IsCalm m f km kf = record { at = λ s p. resume-IsCalm f (m s).0 (m s).1 p (km.at s) kf }

pub ruleset calm_rules =
    (pure-IsCalm, throw-IsCalm, gets-IsCalm, attempt-IsCalm, modify-IsCalm, bind-IsCalm)
