-- ===== src/Cli/Poll/Asked.antt =====
-- What the controller answers to a client that follows a job: its handler over the store, behind
-- the encoding of the answer.
pub mod Printed
pub mod Hosts
use that_goes_there.Prelude.{String, ◌≡◌, ◌≢◌, refl, none, some, List, [], ◌∷◌}
use that_goes_there.Outcome.{external, Outcome, ok, err, panic}
use that_goes_there.Ipc.{JobState}
use that_goes_there.Controller.Cache.{Cache}
use that_goes_there.Controller.Apply.Entries.{entries}
use that_goes_there.Controller.Server.{get_job_status}
use that_goes_there.Controller.Server.History.{Event, run_store}
use that_goes_there.Cli.Poll.Shown.{IsMap}

-- The same job, its map of logs in any order.
pub record IsSame (a b : JobState) : Type 0 where
  pub status : b.status ≡ a.status
  pub logs : (host : String) → entries host b.logs ≡ entries host a.logs
  pub is_map : IsMap a.logs → IsMap b.logs

-- `serde_json` on a `JobState`, which its text gives back up to the order of a map.
pub record JobCodec : Type 1 where
  pub Body : Type 0
  pub to_string : JobState → Outcome Body
  pub from_str : Body → Outcome JobState
  pub from_str-to_string :
      (job : JobState)
      → (s : Body) × (to_string job ≡ ok s)
        × (after : JobState) × (from_str s ≡ ok after)
        × IsSame job after

module _ (K : JobCodec) (J : Cache) (job_id : String) where
  -- `json`, of an answer; the connection of a handler that panics is closed.
  abbrev pub received : Outcome K.Body → Outcome JobState
  received (ok s) = K.from_str s
  received (err e) = err e
  received (panic p) = err (external "reqwest::Error")

  -- A look of the client at the job.
  unfoldable pub ask : J.Jobs → Outcome JobState
  ask jobs = received (get_job_status J K.to_string job_id jobs)

  -- The answers to looks with these events between them.
  unfoldable pub asked : List (List Event) → J.Jobs → List (Outcome JobState)
  asked [] jobs = []
  asked (seg ∷ segs) jobs = ask (run_store J seg jobs) ∷ asked segs (run_store J seg jobs)

  -- The store has the job whenever the client looks.
  abbrev pub IsPresent : List (List Event) → J.Jobs → Type 0
  IsPresent [] jobs = Unit
  IsPresent (seg ∷ segs) jobs =
      (J.get job_id (run_store J seg jobs) ≢ none) × IsPresent segs (run_store J seg jobs)

  pub ask-stored :
      (job : JobState) (jobs : J.Jobs)
      → J.get job_id jobs ≡ some job
      → (after : JobState) × (ask jobs ≡ ok after) × IsSame job after
  unfolding ask get_job_status
  ask-stored job jobs there =
      let (s, written, after, read, same) = K.from_str-to_string job in
      (after, rw there (rw written (rw read refl)), same)
