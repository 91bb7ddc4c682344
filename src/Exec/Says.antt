-- ===== src/Exec/Says.antt =====
-- Blocks that return from every state, with a value of which something holds, and that add exactly
-- these messages to what the state has sent.
use mathlib.Core.List.{append-nil, append_assoc}
use that_goes_there.Prelude.{◌≡◌, refl, sym, ap, subst, ◌∙◌, List, [], ◌∷◌, ◌++◌, All}
use that_goes_there.Outcome.{ok}
use that_goes_there.Exec.{Exec, pure, ◌>>=◌, for_each}
use that_goes_there.Exec.Returns.{Returns}

-- The messages of all members.
abbrev pub flat : {A X : Type 0} → (A → List X) → List A → List X
flat f [] = []
flat f (a ∷ rest) = f a ++ flat f rest

module _ {S X : Type 0} (sent : S → List X) where
  pub record Says {A : Type 0} (xs : List X) (P : A → Type 0) (m : Exec S A) : Type 0 where
    pub at : (s : S) → (a : A) × ((m s).0 ≡ ok a) × P a × (sent (m s).1 ≡ sent s ++ xs)

  pub Says-Returns :
      {A : Type 0} {xs : List X} {P : A → Type 0} {m : Exec S A} → Says xs P m → Returns P m
  Says-Returns h = record { at = λ s. let (a, e, p, _) = h.at s in (a, e, p) }

  pub pure-Says : {A : Type 0} {P : A → Type 0} (a : A) → P a → Says [] P (pure a)
  unfolding pure
  pure-Says a h = record { at = λ s. (a, refl, h, sym (append-nil (sent s))) }

  pub bind-Says :
      {A B : Type 0} {P : A → Type 0} {Q : B → Type 0} {xs ys : List X} (m : Exec S A)
      (f : A → Exec S B)
      → Says xs P m
      → ((a : A) → P a → Says ys Q (f a))
      → Says (xs ++ ys) Q (m >>= f)
  unfolding ◌>>=◌
  bind-Says {xs = xs} {ys = ys} m f h k = record {
    at = λ s.
        let (a, e, p, now) = h.at s in
        let (b, d, q, later) = (k a p).at (m s).1 in
        (b, rw e d, q, rw e later ∙ ap (λ l. l ++ ys) now ∙ append_assoc (sent s) xs ys);
  }

  -- A last step that says nothing.
  pub bind-Says_last :
      {A B : Type 0} {P : A → Type 0} {Q : B → Type 0} {xs : List X} (m : Exec S A)
      (f : A → Exec S B)
      → Says xs P m
      → ((a : A) → P a → Says [] Q (f a))
      → Says xs Q (m >>= f)
  bind-Says_last {Q = Q} {xs = xs} m f h k =
      subst (λ l. Says l Q (m >>= f)) (append-nil xs) (bind-Says m f h k)

  pub for_each-Says :
      {A : Type 0} {P : A → Type 0} (f : A → List X) (body : A → Exec S Unit) (xs : List A)
      → All P xs
      → ((x : A) → P x → Says (f x) (λ _. Unit {0}) (body x))
      → Says (flat f xs) (λ _. Unit {0}) (for_each body xs)
  unfolding for_each
  for_each-Says f body [] h k = pure-Says tt tt
  for_each-Says f body (x ∷ xs) h k = bind-Says _ _ (k x h.0) λ _ _. for_each-Says f body xs h.1 k
