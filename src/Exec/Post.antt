-- ===== src/Exec/Post.antt =====
-- Postconditions of actions, over the outcome and the state after.
use that_goes_there.Outcome.{Report, Panic, Outcome, ok, err, panic}
use that_goes_there.Exec.{Exec, resume, ◌>>=◌}

abbrev pub Meets {ℓ κ} : {S A : Type ℓ} → (Outcome A → S → Type κ) → Outcome A × S → Type κ
Meets Q (r, s) = Q r s

module _ {ℓ κ μ} {S A B : Type ℓ} (Q : Outcome A → S → Type κ) (R : Outcome B → S → Type μ) where
  resume-Meets :
      (f : A → Exec S B) (r : Outcome A) (s : S)
      → Q r s
      → ((a : A) (u : S) → Q (ok a) u → Meets R (f a u))
      → ((e : Report) (u : S) → Q (err e) u → R (err e) u)
      → ((p : Panic) (u : S) → Q (panic p) u → R (panic p) u)
      → Meets R (resume f r s)
  resume-Meets f (ok a) s h on_ok on_err on_panic = on_ok a s h
  resume-Meets f (err e) s h on_ok on_err on_panic = on_err e s h
  resume-Meets f (panic p) s h on_ok on_err on_panic = on_panic p s h

  -- A block meets what its second part meets behind the first, if a failure of the first does.
  pub bind-Meets :
      (m : Exec S A) (f : A → Exec S B) (s : S)
      → Meets Q (m s)
      → ((a : A) (u : S) → Q (ok a) u → Meets R (f a u))
      → ((e : Report) (u : S) → Q (err e) u → R (err e) u)
      → ((p : Panic) (u : S) → Q (panic p) u → R (panic p) u)
      → Meets R ((m >>= f) s)
  unfolding ◌>>=◌
  bind-Meets m f s h = resume-Meets f (m s).0 (m s).1 h
