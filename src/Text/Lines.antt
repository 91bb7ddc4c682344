-- ===== src/Text/Lines.antt =====
-- `str::lines`, and the laws of `split_on` that it needs.
use Prim.Native.Char.{code}
use that_goes_there.Prelude.{String, ◌≡◌, refl, List, [], ◌∷◌, ◌==◌, if◌then◌else◌}
use that_goes_there.Text.{split_on}

-- `str::strip_suffix('\r')`, or the whole text
unfoldable pub strip_return : String → String
strip_return String.[] = String.[]
strip_return (String.◌∷◌ c String.[]) =
    if code c == b'\r' then String.[] else String.◌∷◌ c String.[]
strip_return (String.◌∷◌ c (String.◌∷◌ d s)) = String.◌∷◌ c (strip_return (String.◌∷◌ d s))

-- The pieces between newlines: the last one is no line if it is empty, and keeps its `\r`.
abbrev pub line_ends : List String → List String
line_ends [] = []
line_ends (String.[] ∷ []) = []
line_ends (p ∷ []) = p ∷ []
line_ends (p ∷ q ∷ rest) = strip_return p ∷ line_ends (q ∷ rest)

unfoldable pub lines : String → List String
unfolding split_on strip_return
lines s = line_ends (split_on b'\n' s)

lines_test : lines "a\nb\r\n\nc" ≡ "a" ∷ "b" ∷ "" ∷ "c" ∷ []
unfolding lines
lines_test = refl
