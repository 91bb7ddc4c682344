-- ===== src/Text/Split.antt =====
-- The laws of `split_on` and `join`.
use Prim.Native.Char.{Char, code}
use text.Mathlib.TextEquality.{Char-path}
use text.Mathlib.TextLemmas.{nil-append, cons-append}
use that_goes_there.Prelude.{
  ℕ, String, ◌<>◌, ◌≡◌, refl, true, arith, inl, inr, List, [], ◌∷◌, ◌++◌, ◌==◌, if◌then◌else◌,
  Bool-cases,
}
use that_goes_there.Text.{cons_head, split_on, join}

pub split_on-cons :
    (n : ℕ) (c : Char) (s : String)
    → split_on n (String.◌∷◌ c s)
      ≡ (if code c == n then String.[] ∷ split_on n s else cons_head c (split_on n s))
unfolding split_on
split_on-cons n c s = refl

-- There is a first piece.
pub split_on_cases :
    (n : ℕ) (s : String) → (p : String) × (ps : List String) × (split_on n s ≡ p ∷ ps)
unfolding split_on
split_on_cases n String.[] = (String.[], [], refl)
split_on_cases n (String.◌∷◌ c s) = elim (Bool-cases (code c == n)) [
  | inl e ↦ (String.[], split_on n s, rw e)
  | inr e ↦ let (p, ps, h) = split_on_cases n s in (String.◌∷◌ c p, ps, rw (e, h))
]

cons_head-append :
    (c : Char) (p : String) (ps qs : List String)
    → cons_head c ((p ∷ ps) ++ qs) ≡ cons_head c (p ∷ ps) ++ qs
cons_head-append c p ps qs = refl

-- A separator splits what stands before it from what stands behind it.
pub split_on-append :
    (n : ℕ) (s : String) (c : Char) (t : String)
    → (code c == n) ≡ true
    → split_on n (s <> String.◌∷◌ c t) ≡ split_on n s ++ split_on n t
split_on-append n String.[] c t h = rw (nil-append, split_on-cons, h) (unfold split_on in refl)
split_on-append n (String.◌∷◌ d s) c t h =
    let (p, ps, e) = split_on_cases n s in
    let ih = split_on-append n s c t h in
    elim (Bool-cases (code d == n)) [
      | inl sep ↦ rw (cons-append, split_on-cons, split_on-cons n d s, sep, ih) refl
      | inr other ↦ rw (cons-append, split_on-cons, split_on-cons n d s, other, ih, e) refl
    ]

abbrev pub one : Char → String
one c = String.◌∷◌ c String.[]

join-cons :
    (sep : String) (c : Char) (p : String) (ps : List String)
    → join sep (String.◌∷◌ c p ∷ ps) ≡ String.◌∷◌ c (join sep (p ∷ ps))
unfolding join
join-cons sep c p [] = refl
join-cons sep c p (q ∷ ps) = cons-append c p (sep <> join sep (q ∷ ps))

join-empty :
    (c : Char) (p : String) (ps : List String)
    → join (one c) (String.[] ∷ p ∷ ps) ≡ String.◌∷◌ c (join (one c) (p ∷ ps))
unfolding join
join-empty c p ps = rw (nil-append, cons-append, nil-append)

-- The pieces, joined by the separator, are the text again.
pub join-split_on :
    (n : ℕ) (c : Char) → (code c == n) ≡ true → (s : String) → join (one c) (split_on n s) ≡ s
join-split_on n c h String.[] = unfold split_on join in refl
join-split_on n c h (String.◌∷◌ d s) =
    let (p, ps, e) = split_on_cases n s in
    let ih = join-split_on n c h s in
    elim (Bool-cases (code d == n)) [
      | inl sep ↦
          let same : d ≡ c = Char-path d c (ground arith) in
          rw (split_on-cons, sep, e, join-empty, ← e, ih, same)
      | inr other ↦ rw (split_on-cons, other, e, join-cons, ← e, ih)
    ]
