-- ===== src/Log.antt =====
-- libthere/src/log/mod.rs: which frames of a backtrace `install_color_eyre` keeps.
use text.Mathlib.Text.{starts_with}
use text.Mathlib.TextBridge.{IsPrefix}
use that_goes_there.Prelude.{
  String, ◌≡◌, Bool, true, not, Option, none, some, List, [], ◌∷◌, any, All, if◌then◌else◌,
}

abbrev pub filters : List String
filters = "tokio::" ∷ "tracing::" ∷ "color_eyre::" ∷ "<core::" ∷ []

-- Whether a filter is met by a frame, of its name if it has one.
abbrev pub meets : Option String → String → Bool
meets none f = true
meets (some name) f = starts_with name f

unfoldable pub keeps : Option String → Bool
keeps name = not (any (meets name) filters)

-- `frames.retain(…)`, over the names of the frames
unfoldable pub retain : List (Option String) → List (Option String)
retain [] = []
retain (name ∷ frames) = let rest = retain frames in if keeps name then name ∷ rest else rest

-- A frame is kept that has a name which starts with no filter.
abbrev pub IsOwn : Option String → Type 0
IsOwn frame = (name : String) × (frame ≡ some name) × All (λ f. IsPrefix f name → ⊥) filters
