-- ===== src/Tests/Store.antt =====
-- The theorems on the job store and on the client that follows a job, at two jobs.
use that_goes_there.Prelude.{◌≡◌, ◌⊎◌, refl, none, some, List, [], ◌∷◌}
use that_goes_there.Outcome.{unwrap_on_none, Outcome, ok, err, panic, eyre}
use that_goes_there.Ipc.{JobState, completed}
use that_goes_there.Controller.Apply.{store_logs, add_logs, append_entries}
use that_goes_there.Controller.Apply.Entries.{entries, entry}
use that_goes_there.Controller.Server.{
  initial_state, run_plan, unwrap_result, get_job_status, finish_job,
}
use that_goes_there.Controller.Server.Answers.{IsStarted, get_job_status-answers}
use that_goes_there.Controller.Server.History.{
  Event, start, log, finish, run_job, run_store, run_store-refines,
}
use that_goes_there.Controller.Server.History.Outcomes.{life, ended_job-seen}
use that_goes_there.Tests.Samples.{chores_plan, site, store, request}

abbrev lost : Outcome (Unit {0})
lost = err (eyre "lost")

-- Another job begins and fails while this one runs.
abbrev before : List Event
before =
    start "other" request
    ∷ log "job" "web1" ("up" ∷ [])
    ∷ log "other" "web1" ("elsewhere" ∷ [])
    ∷ finish "other" lost
    ∷ []

-- A log that comes late.
abbrev after : List Event
after = log "job" "web1" ("late" ∷ []) ∷ []

abbrev events : List Event
events = life "job" [] request before (ok tt) after

abbrev done : JobState
done = record {
  logs = ("web1", entry "web1" "up" ∷ entry "web1" "late" ∷ []) ∷ [];
  plan = chores_plan;
  hosts = site;
  status = completed;
}

stored : store.get "job" (run_store store events []) ≡ some done
unfolding run_store run_plan initial_state store_logs add_logs append_entries finish_job
stored = refl

run_store-refines_example : run_job "job" events none ≡ some done
run_store-refines_example = run_store-refines store "job" events [] done refl stored

ended_job-seen_example :
    (done.status ≡ completed)
    × (entries "web1" done.logs ≡ entry "web1" "up" ∷ entry "web1" "late" ∷ [])
ended_job-seen_example =
    ended_job-seen "job" store [] request before (ok tt) after [] done "web1" tt
      (refl, (tt, (tt, (refl, tt)))) (tt, tt) refl stored

-- A job as its own text.
abbrev as_text : JobState → Outcome JobState
as_text job = ok job

get_job_status-answers_example :
    (get_job_status store as_text "job" (run_store store events []) ≡ panic unwrap_on_none)
    ⊎ ((job : JobState) × (get_job_status store as_text "job" (run_store store events [])
          ≡ unwrap_result (as_text job))
        × (run_job "job" events none ≡ some job)
        × IsStarted "job" events)
get_job_status-answers_example = get_job_status-answers "job" store as_text events
