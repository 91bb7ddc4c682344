-- ===== src/Controller/Cache.antt =====
-- The job store of there-controller/src/http_server.rs, a `quick_cache::sync::Cache`.
use that_goes_there.Prelude.{ℕ, String, ◌≡◌, ◌≢◌, ◌⊎◌, Option, none, some}
use that_goes_there.Ipc.{JobState}

-- An insertion may evict any entry.
pub record Cache : Type 1 where
  pub Jobs : Type 0
  pub new : (capacity : ℕ) → Jobs
  pub get : String → Jobs → Option JobState
  pub insert : String → JobState → Jobs → Jobs
  pub get-new : (n : ℕ) (k : String) → get k (new n) ≡ none
  pub get-insert_self :
      (k : String) (v : JobState) (c : Jobs)
      → (get k (insert k v c) ≡ some v) ⊎ (get k (insert k v c) ≡ none)
  pub get-insert_ne :
      (k j : String) (v : JobState) (c : Jobs)
      → k ≢ j
      → (get j (insert k v c) ≡ get j c) ⊎ (get j (insert k v c) ≡ none)
