-- ===== src/Tests/Log.antt =====
-- A backtrace of three frames.
use that_goes_there.Prelude.{String, Option, none, some, List, [], ◌∷◌}

abbrev frames : List (Option String)
frames = some "tokio::runtime::park" ∷ none ∷ some "there_cli::main" ∷ []
