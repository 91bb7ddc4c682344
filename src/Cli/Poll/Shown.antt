-- ===== src/Cli/Poll/Shown.antt =====
-- What the loop that follows a job has printed of each host's logs.
use mathlib.Core.List.{append-nil}
use that_goes_there.Prelude.{
  ℕ, ◌<◌, String, ◌≡◌, inl, inr, refl, ap, ap₂, subst, ◌∙◌, arith, List, [], ◌∷◌, ◌++◌, map, length,
  length-append, All, ltb, str_eq, eq_iff, eq_refl, true, false, Bool-cases, if◌then◌else◌,
}
use that_goes_there.Ipc.{LogEntry}
use that_goes_there.Plan.Host.{get}
use that_goes_there.Controller.Apply.Entries.{entries}
use that_goes_there.Cli.Poll.{
  Printed, shown, note, put, skip, Offsets, offset, print_host, print_logs,
}

-- The entries of a host among printed lines.
abbrev pub shown_for : String → List Printed → List LogEntry
shown_for host [] = []
shown_for host (shown key e ∷ out) =
    if str_eq key host then e ∷ shown_for host out else shown_for host out
shown_for host (note s ∷ out) = shown_for host out

-- The keys of a map are distinct.
abbrev pub IsMap {ℓ} : {V : Type ℓ} → List (String × V) → Type 0
IsMap [] = Unit
IsMap ((k, v) ∷ m) = All (λ e. str_eq e.0 k ≡ false) m × IsMap m

pub shown_for-append :
    (host : String) (xs ys : List Printed)
    → shown_for host (xs ++ ys) ≡ shown_for host xs ++ shown_for host ys
shown_for-append host [] ys = refl
shown_for-append host (note s ∷ xs) ys = shown_for-append host xs ys
shown_for-append host (shown k e ∷ xs) ys = elim (Bool-cases (str_eq k host)) [
  | inl t ↦ rw t (ap (◌∷◌ e) (shown_for-append host xs ys))
  | inr f ↦ rw f (shown_for-append host xs ys)
]

shown_for_self : (host : String) (es : List LogEntry) → shown_for host (map (shown host) es) ≡ es
shown_for_self host [] = refl
shown_for_self host (e ∷ es) = rw (eq_refl host) (ap (◌∷◌ e) (shown_for_self host es))

shown_for-other :
    (key host : String) (es : List LogEntry)
    → str_eq key host ≡ false
    → shown_for host (map (shown key) es) ≡ []
shown_for-other key host [] ne = refl
shown_for-other key host (e ∷ es) ne = rw ne (shown_for-other key host es ne)

offset-put_self : (host : String) (n : ℕ) (o : Offsets) → offset host (put host n o) ≡ n
unfolding offset get put
offset-put_self host n [] = rw (eq_refl host) refl
offset-put_self host n ((j, u) ∷ o) = elim (Bool-cases (str_eq j host)) [
  | inl t ↦ rw t (rw (eq_refl host) refl)
  | inr f ↦ rw f (rw f (offset-put_self host n o))
]

offset-put_other :
    (key host : String) (n : ℕ) (o : Offsets)
    → str_eq key host ≡ false
    → offset host (put key n o) ≡ offset host o
unfolding offset get put
offset-put_other key host n [] ne = rw ne refl
offset-put_other key host n ((j, u) ∷ o) ne = elim (Bool-cases (str_eq j key)) [
  | inl t ↦ rw t (rw ((eq_iff j key).0 t, ne) refl)
  | inr f ↦ rw f (elim (Bool-cases (str_eq j host)) [
    | inl t ↦ rw t refl
    | inr d ↦ rw d (offset-put_other key host n o ne)
  ])
]

skip-append : {A : Type 0} (xs ys : List A) → skip (length xs) (xs ++ ys) ≡ ys
skip-append [] ys = refl
skip-append (x ∷ xs) ys = skip-append xs ys

ltb-true : (a b : ℕ) → a < b → ltb a b ≡ true
ltb-true a b h = ground arith

ltb_same : (a : ℕ) → ltb a a ≡ false
ltb_same a = ground arith

-- The host's own entries: what is behind the offset is shown, and the offset is then at their end.
print_host_self :
    (host : String) (p q : List LogEntry) (o : Offsets)
    → offset host o ≡ length p
    → (shown_for host (print_host host (p ++ q) o).0 ≡ q)
      × (offset host (print_host host (p ++ q) o).1 ≡ length (p ++ q))
unfolding print_host
print_host_self host p [] o h = rw (append-nil p) (rw h (rw (ltb_same (length p)) (refl, h)))
print_host_self host p (e ∷ q) o h = rw h (
    rw (ltb-true (length p) (length (p ++ e ∷ q)) (omega (arith, length-append p (e ∷ q)))) (
      rw (skip-append p (e ∷ q)) (shown_for_self host (e ∷ q)),
      offset-put_self host (length (p ++ e ∷ q)) o,
    ))

-- The entries of another host show nothing for this one.
print_host-other :
    (key host : String) (es : List LogEntry) (o : Offsets)
    → str_eq key host ≡ false
    → (shown_for host (print_host key es o).0 ≡ [])
      × (offset host (print_host key es o).1 ≡ offset host o)
unfolding print_host
print_host-other key host es o ne = elim (Bool-cases (ltb (offset key o) (length es))) [
  | inl t ↦ rw t (shown_for-other key host _ ne, offset-put_other key host (length es) o ne)
  | inr f ↦ rw f (refl, refl)
]

print_logs-absent :
    (host : String) (ls : List (String × List LogEntry)) (o : Offsets)
    → All (λ e. str_eq e.0 host ≡ false) ls
    → (shown_for host (print_logs ls o).0 ≡ []) × (offset host (print_logs ls o).1 ≡ offset host o)
unfolding print_logs
print_logs-absent host [] o h = (refl, refl)
print_logs-absent host ((k, es) ∷ ls) o h =
    let (none_here, same) = print_host-other k host es o h.0 in
    let (none_later, kept) = print_logs-absent host ls (print_host k es o).1 h.1 in
    (shown_for-append host (print_host k es o).0 _ ∙ ap₂ (◌++◌) none_here none_later, kept ∙ same)

-- One answer: if the entries that were shown are a first part of the host's entries, the rest of
-- them is shown now.
pub print_logs-shown :
    (host : String) (ls : List (String × List LogEntry)) (p q : List LogEntry) (o : Offsets)
    → IsMap ls
    → entries host ls ≡ p ++ q
    → offset host o ≡ length p
    → (shown_for host (print_logs ls o).0 ≡ q) × (offset host (print_logs ls o).1 ≡ length (p ++ q))
unfolding print_logs
print_logs-shown host [] [] [] o m e h = (refl, h)
print_logs-shown host [] [] (x ∷ q) o m e h = absurd (cc)
print_logs-shown host [] (x ∷ p) q o m e h = absurd (cc)
print_logs-shown host ((k, es) ∷ ls) p q o m e h = elim (Bool-cases (str_eq k host)) [
  | inl t ↦ here ((eq_iff k host).0 t) (rw t at e)
  | inr f ↦
      let (none_here, same) = print_host-other k host es o f in
      let (later, end) =
        print_logs-shown host ls p q (print_host k es o).1 m.1 (rw f at e) (same ∙ h) in
      (shown_for-append host (print_host k es o).0 _ ∙ ap₂ (◌++◌) none_here later, end)
]
  where
    here :
        k ≡ host
        → es ≡ p ++ q
        → (shown_for host (print_logs ((k, es) ∷ ls) o).0 ≡ q)
          × (offset host (print_logs ((k, es) ∷ ls) o).1 ≡ length (p ++ q))
    here same whole =
        let (now, end) = print_host_self host p q o h in
        let (none_later, kept) =
          print_logs-absent host ls (print_host host (p ++ q) o).1
            (subst (λ j. All (λ x. str_eq x.0 j ≡ false) ls) same m.0) in
        rw (same, whole)
          (
            shown_for-append host (print_host host (p ++ q) o).0 _
                ∙ ap₂ (◌++◌) now none_later
                ∙ append-nil q,
            kept ∙ end,
          )
