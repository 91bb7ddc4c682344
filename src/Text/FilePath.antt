-- ===== src/Text/FilePath.antt =====
-- `std::path::Path::parent` on Unix, over the pieces between the slashes.
pub mod Parent
use Prim.Native.Char.{Char, code}
use Prim.Native.String
use that_goes_there.Prelude.{
  String, ◌<>◌, ◌≡◌, refl, Bool, true, false, ◌&&◌, ◌||◌, Option, none, some, List, [], ◌∷◌, ◌==◌,
  str_eq, if◌then◌else◌,
}
use that_goes_there.Text.{split_on, join}

-- A piece that is no component of a path: an empty one, or a dot.
abbrev pub is_blank : String → Bool
is_blank p = str_eq p "" || str_eq p "."

-- `p` in front of trimmed pieces
abbrev pub keep : String → List String → List String
keep p [] = if is_blank p then [] else p ∷ []
keep p (q ∷ qs) = p ∷ q ∷ qs

-- Drops the blank pieces at the end (`Components::trim_right`).
unfoldable pub trim_right : List String → List String
trim_right [] = []
trim_right (p ∷ ps) = keep p (trim_right ps)

-- All pieces but the last.
unfoldable pub drop_last : List String → List String
drop_last [] = []
drop_last (p ∷ []) = []
drop_last (p ∷ q ∷ ps) = p ∷ drop_last (q ∷ ps)

-- What stands before the body of a path: the root, a dot that is a component of its own, or
-- nothing; and the parent of the path if its body has no component.
pub record Front : Type 0 where
  pub start : String
  pub body : String
  pub alone : Option String

abbrev pub ends_component : String → Bool
ends_component String.[] = true
ends_component (String.◌∷◌ c s) = code c == b'/'

-- By whether the path begins with a slash, and whether with a dot that is a component.
abbrev pub front_with : Bool → Bool → Char → String → Front
front_with true dot c s = record { start = "/"; body = s; alone = none }
front_with false true c s = record { start = "."; body = s; alone = some "" }
front_with false false c s = record { start = ""; body = String.◌∷◌ c s; alone = none }

unfoldable pub front : String → Front
front String.[] = record { start = ""; body = ""; alone = none }
front (String.◌∷◌ c s) = front_with (code c == b'/') (code c == b'.' && ends_component s) c s

abbrev pub components : Front → List String
components f = trim_right (split_on b'/' f.body)

-- The parent, of a front and the trimmed pieces of its body.
abbrev pub parent_of : Front → List String → Option String
parent_of f [] = f.alone
parent_of f (p ∷ ps) = some (f.start <> join "/" (trim_right (drop_last (p ∷ ps))))

unfoldable pub parent : String → Option String
unfolding front trim_right drop_last split_on join
parent p = parent_of (front p) (components (front p))

-- The path without the slashes and dots at its end (`Components::as_path`).
unfoldable pub as_path : String → String
unfolding front trim_right split_on join
as_path p = (front p).start <> join "/" (components (front p))

parent_tests :
    (parent "/tmp/some-file" ≡ some "/tmp")
    × (parent "/a" ≡ some "/")
    × (parent "a//b/./" ≡ some "a")
    × (parent "./a/b" ≡ some "./a")
    × (parent "a" ≡ some "")
    × (parent "." ≡ some "")
    × (parent "/" ≡ none)
    × (parent "" ≡ none)
unfolding parent
parent_tests = (refl, refl, refl, refl, refl, refl, refl, refl)
