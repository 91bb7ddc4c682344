-- ===== src/Cli/Poll.antt =====
-- `subcommand_apply` of there-cli/src/commands/plan.rs with a controller: the loop that follows a
-- job, printing what is new in its logs.
pub mod Shown
pub mod Job
pub mod Followed
pub mod Asked
use that_goes_there.Prelude.{
  ℕ, zero, suc, String, ◌<>◌, Option, none, some, List, [], ◌∷◌, ◌++◌, map, length, ltb, str_eq,
  if◌then◌else◌,
}
use that_goes_there.Outcome.{Outcome, ok, err, panic}
use that_goes_there.Ipc.{JobState, JobStatus, running, completed, failed, LogEntry}
use that_goes_there.Plan.Host.{get}

-- A printed line: an entry of a job's logs, under its key there, or a text.
pub data Printed : Type 0 where
  shown : String → LogEntry → Printed
  note : String → Printed

unfoldable pub line : Printed → String
line (shown key e) = e.hostname <> (": " <> e.log)
line (note s) = s

-- `HashMap::insert`
unfoldable pub put {ℓ} : {V : Type ℓ} → String → V → List (String × V) → List (String × V)
put k v [] = (k, v) ∷ []
put k v ((j, u) ∷ m) = let rest = put k v m in if str_eq j k then (k, v) ∷ m else (j, u) ∷ rest

-- `Iterator::skip`
abbrev pub skip {ℓ} : {A : Type ℓ} → ℕ → List A → List A
skip zero xs = xs
skip (suc n) [] = []
skip (suc n) (x ∷ xs) = skip n xs

-- `log_offsets`
abbrev pub Offsets : Type 0
Offsets = List (String × ℕ)

abbrev pub or_zero : Option ℕ → ℕ
or_zero none = 0
or_zero (some n) = n

-- `*log_offsets.get(&hostname).unwrap_or(&0usize)`
unfoldable pub offset : String → Offsets → ℕ
offset host o = or_zero (get o host)

-- The body of the loop over a job's logs.
unfoldable pub print_host : String → List LogEntry → Offsets → List Printed × Offsets
print_host host logs o =
    if ltb (offset host o) (length logs)
    then (map (shown host) (skip (offset host o) logs), put host (length logs) o)
    else ([], o)

unfoldable pub print_logs : List (String × List LogEntry) → Offsets → List Printed × Offsets
print_logs [] o = ([], o)
print_logs ((host, logs) ∷ rest) o =
    let (out, o') = print_host host logs o in
    let (more, o'') = print_logs rest o' in (out ++ more, o'')

-- Lines in front of what a loop prints later.
abbrev pub printed_first :
    List Printed
    → Option (Outcome (Unit {0}) × List Printed)
    → Option (Outcome (Unit {0}) × List Printed)
printed_first out none = none
printed_first out (some (r, more)) = some (r, out ++ more)

-- What is done on the status of a job, where `again` is the rest of the loop.
abbrev pub by_status :
    JobStatus
    → Option (Outcome (Unit {0}) × List Printed)
    → Option (Outcome (Unit {0}) × List Printed)
by_status running again = again
by_status completed again = some (ok tt, note "* plan completed!" ∷ [])
by_status failed again = some (ok tt, note "* plan execution failed!" ∷ [])

-- The loop, over the answers that the controller gives, one after another: the outcome and the
-- printed lines, or `none` while there is no further answer.
unfoldable pub poll_loop :
    List (Outcome JobState) → Offsets → Option (Outcome (Unit {0}) × List Printed)
poll_loop [] o = none
poll_loop (err e ∷ rest) o = some (err e, [])
poll_loop (panic p ∷ rest) o = some (panic p, [])
poll_loop (ok job ∷ rest) o =
    let (out, o') = print_logs job.logs o in
    let again = poll_loop rest o' in printed_first out (by_status job.status again)
