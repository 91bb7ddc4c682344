-- ===== src/Text/FilePath/Parent.antt =====
-- The parent of a path with a name at its end is what stands before the name.
use Prim.Native.Char.{Char}
use text.Mathlib.TextLemmas.{nil-append, cons-append}
use that_goes_there.Prelude.{
  String, ◌<>◌, ◌≡◌, ◌≢◌, refl, ap, Bool, true, false, some, List, [], ◌∷◌, ◌++◌,
}
use that_goes_there.Text.{split_on, join}
use that_goes_there.Text.Split.{split_on-append}
use that_goes_there.Text.FilePath.{
  is_blank, keep, ends_component, front_with, trim_right, drop_last, Front, front, parent_of,
  parent, as_path,
}

keep-snoc :
    (p : String) (ps : List String) (n : String) → keep p (ps ++ n ∷ []) ≡ p ∷ (ps ++ n ∷ [])
keep-snoc p [] n = refl
keep-snoc p (q ∷ ps) n = refl

trim_right-snoc :
    (ps : List String) (n : String) → is_blank n ≡ false → trim_right (ps ++ n ∷ []) ≡ ps ++ n ∷ []
unfolding trim_right
trim_right-snoc [] n h = rw h
trim_right-snoc (p ∷ ps) n h = rw (trim_right-snoc ps n h) (keep-snoc p ps n)

drop_last-snoc : (ps : List String) (n : String) → drop_last (ps ++ n ∷ []) ≡ ps
unfolding drop_last
drop_last-snoc [] n = refl
drop_last-snoc (p ∷ []) n = refl
drop_last-snoc (p ∷ q ∷ ps) n = ap (◌∷◌ p) (drop_last-snoc (q ∷ ps) n)

-- A name with no slash that is neither empty nor a dot.
pub record IsName (n : String) : Type 0 where
  pub whole : split_on b'/' n ≡ n ∷ []
  pub not_blank : is_blank n ≡ false

ends_component-append : (s n : String) → ends_component (s <> ("/" <> n)) ≡ ends_component s
ends_component-append String.[] n = rw (nil-append, cons-append)
ends_component-append (String.◌∷◌ c s) n = rw cons-append

abbrev extend : Front → String → Front
extend f t = record f { body = f.body <> t }

front_with-append :
    (slash dot : Bool) (c : Char) (s t : String)
    → front_with slash dot c (s <> t) ≡ extend (front_with slash dot c s) t
front_with-append true dot c s t = refl
front_with-append false true c s t = refl
front_with-append false false c s t = rw cons-append

-- What is appended behind a slash goes to the body.
front-append : (d n : String) → d ≢ "" → front (d <> ("/" <> n)) ≡ extend (front d) ("/" <> n)
unfolding front
front-append String.[] n h = absurd (h refl)
front-append (String.◌∷◌ c s) n h =
    rw cons-append (rw ends_component-append (front_with-append _ _ c s ("/" <> n)))

components-snoc :
    (b n : String)
    → IsName n
    → trim_right (split_on b'/' (b <> ("/" <> n))) ≡ split_on b'/' b ++ n ∷ []
components-snoc b n h =
    rw (cons-append, nil-append)
      (rw (split_on-append b'/' b _ n refl, h.whole)
        (trim_right-snoc (split_on b'/' b) n h.not_blank))

parent_of-snoc :
    (f : Front) (ps : List String) (n : String)
    → parent_of f (ps ++ n ∷ []) ≡ some (f.start <> join "/" (trim_right ps))
parent_of-snoc f [] n = unfold drop_last in refl
parent_of-snoc f (p ∷ ps) n =
    ap (λ l. some (f.start <> join "/" (trim_right l))) (drop_last-snoc (p ∷ ps) n)

-- The parent of `d/n`, for a path `d` that is not empty and a name `n` with no slash that is neither
-- empty nor a dot, is `d` as the parent function shows it.
pub parent-append : (d n : String) → d ≢ "" → IsName n → parent (d <> ("/" <> n)) ≡ some (as_path d)
unfolding parent as_path
parent-append d n h name =
    rw (front-append d n h, components-snoc (front d).body n name)
      (parent_of-snoc (extend (front d) ("/" <> n)) (split_on b'/' (front d).body) n)
