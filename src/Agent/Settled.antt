-- ===== src/Agent/Settled.antt =====
-- What the authorized keys hold after a round.
use mathlib.Core.List.{Memᴰ}
use text.Mathlib.TextLemmas.{nil-append, cons-append, append_assoc as text_assoc}
use that_goes_there.Prelude.{
  String, ◌<>◌, ◌≡◌, ◌⊎◌, inl, inr, refl, sym, ◌∙◌, Bool, true, false, Bool-cases, Option, none,
  some, List, [], ◌∷◌, ◌++◌, contains, contains-of-Memᴰ, All,
}
use that_goes_there.Text.{split_on}
use that_goes_there.Text.Split.{split_on-append}
use that_goes_there.Text.Lines.{strip_return, line_ends, lines}
use that_goes_there.Outcome.{Outcome, ok, err, panic}
use that_goes_there.Exec.{Exec, pure, lift, resume, ◌>>=◌, for_each}
use that_goes_there.Agent.{KeyFile, append_key, add_if_missing, poll, run}

-- A text of one line, without the end of the line.
pub record IsLine (key : String) : Type 0 where
  pub whole : split_on b'\n' key ≡ key ∷ []
  pub kept : strip_return key ≡ key

-- An empty text, or one that ends with a newline.
abbrev pub IsClosed : String → Type 0
IsClosed s = (s ≡ "") ⊎ ((body : String) × (s ≡ body <> "\n"))

line_ends-cons :
    (p q : String) (rest : List String)
    → line_ends (p ∷ q ∷ rest) ≡ strip_return p ∷ line_ends (q ∷ rest)
line_ends-cons String.[] q rest = refl
line_ends-cons (String.◌∷◌ c s) q rest = refl

Memᴰ-line_ends :
    (xs : List String) (key : String)
    → strip_return key ≡ key
    → Memᴰ key (line_ends (xs ++ key ∷ "" ∷ []))
Memᴰ-line_ends [] key h = rw line_ends-cons (Memᴰ.head (sym h))
Memᴰ-line_ends (x ∷ []) key h = rw line_ends-cons (Memᴰ.tail (Memᴰ-line_ends [] key h))
Memᴰ-line_ends (x ∷ y ∷ xs) key h = rw line_ends-cons (Memᴰ.tail (Memᴰ-line_ends (y ∷ xs) key h))

split_on-line : (key : String) → IsLine key → split_on b'\n' (key <> "\n") ≡ key ∷ "" ∷ []
split_on-line key h = split_on-append b'\n' key _ "" refl ∙ rw h.whole (unfold split_on in refl)

split_on-closed :
    (body t : String)
    → split_on b'\n' ((body <> "\n") <> t) ≡ split_on b'\n' body ++ split_on b'\n' t
split_on-closed body t =
    rw (text_assoc, cons-append, nil-append) (split_on-append b'\n' body _ t refl)

-- The pieces of a closed text with a line behind it.
pieces :
    (s key : String)
    → IsClosed s
    → IsLine key
    → (xs : List String) × (split_on b'\n' (s <> (key <> "\n")) ≡ xs ++ key ∷ "" ∷ [])
pieces s key (inl e) h = ([], rw e (rw nil-append (split_on-line key h)))
pieces s key (inr (body, e)) h =
    (split_on b'\n' body, rw e (split_on-closed body (key <> "\n") ∙ rw (split_on-line key h) refl))

contains-lines :
    (s key : String) → IsClosed s → IsLine key → contains (lines (s <> (key <> "\n"))) key ≡ true
unfolding lines
contains-lines s key c h =
    let (xs, e) = pieces s key c h in contains-of-Memᴰ _ key (rw e (Memᴰ-line_ends xs key h.kept))

module _ (F : KeyFile) where
  open F use {World, contents}

  append_key-contents :
      (key : String) (w : World)
      → (append_key F key w).0 ≡ ok tt
      → contents (append_key F key w).1 ≡ contents w <> (key <> "\n")
  unfolding append_key
  append_key-contents key w h = elim (Bool-cases (F.write (key <> "\n") w).0) [
    | inl e ↦ F.contents-write w (key <> "\n") e
    | inr e ↦ absurd (cc (rw e at h))
  ]

  added :
      (key s : String) (b : Bool) (w : World)
      → contents w ≡ s
      → IsClosed s
      → IsLine key
      → contains (lines s) key ≡ b
      → (add_if_missing F key b w).0 ≡ ok tt
      → contains (lines (contents (add_if_missing F key b w).1)) key ≡ true
  unfolding add_if_missing pure ◌>>=◌
  added key s true w e c l found h = rw e found
  added key s false w e c l found h = elim (Bool-cases (F.open_append w)) [
    | inl o ↦ rw o (rw (append_key-contents key w (rw o at h), e) (contains-lines s key c l))
    | inr o ↦ absurd (cc (rw o at h))
  ]

  polled :
      (key : String) (w : World)
      → IsClosed (contents w)
      → IsLine key
      → (poll F (some key) w).0 ≡ ok tt
      → contains (lines (contents (poll F (some key) w).1)) key ≡ true
  unfolding poll lift ◌>>=◌
  polled key w c l h = by_result (F.read w) refl
    where
      by_result :
          (o : Option String)
          → F.read w ≡ o
          → contains (lines (contents (poll F (some key) w).1)) key ≡ true
      by_result none e = absurd (cc (rw e at h))
      by_result (some s) e = rw e (
          added key s _ w (F.contents-read w s e) (rw (← F.contents-read w s e) c) l refl
            (rw e at h))

  settled :
      (key : String) (v : World)
      → contains (lines (contents v)) key ≡ true
      → (poll F (some key) v).1 ≡ v
  unfolding poll lift add_if_missing pure ◌>>=◌
  settled key v h = by_result (F.read v) refl
    where
      by_result : (o : Option String) → F.read v ≡ o → (poll F (some key) v).1 ≡ v
      by_result none e = rw e refl
      by_result (some s) e = rw e (rw (← F.contents-read v s e) (rw h refl))

  resumed :
      (o : Outcome (Unit {0})) (rest : Exec World Unit) (v : World)
      → (rest v).1 ≡ v
      → (resume (λ _. rest) o v).1 ≡ v
  resumed (ok x) rest v h = h
  resumed (err e) rest v h = refl
  resumed (panic p) rest v h = refl

  later_rounds_keep :
      (key : String) (answers : List (Option String)) (v : World)
      → contains (lines (contents v)) key ≡ true
      → All (λ a. a ≡ some key) answers
      → (run F answers v).1 ≡ v
  unfolding run for_each ◌>>=◌
  later_rounds_keep key [] v there same = refl
  later_rounds_keep key (a ∷ answers) v there (now, later) =
      let kept : (poll F a v).1 ≡ v = rw now (settled key v there) in
      rw kept (
        resumed (poll F a v).0 (for_each (poll F) answers) v
          (later_rounds_keep key answers v there later))

  -- If the file is empty or ends with a newline, and the answer is a text of one line, a round that
  -- returns leaves that line in the file, and any number of later rounds with the same answer
  -- change nothing, whether or not they fail.
  pub run_settled :
      (key : String) (answers : List (Option String)) (w : World)
      → IsClosed (contents w)
      → IsLine key
      → (poll F (some key) w).0 ≡ ok tt
      → All (λ a. a ≡ some key) answers
      → (contains (lines (contents (poll F (some key) w).1)) key ≡ true)
        × ((run F answers (poll F (some key) w).1).1 ≡ (poll F (some key) w).1)
  run_settled key answers w c l h same =
      let there = polled key w c l h in (there, later_rounds_keep key answers _ there same)
