-- ===== src/Cli/Poll/Job.antt =====
-- Following a job to its end.
use mathlib.Core.List.{append_assoc}
use that_goes_there.Prelude.{
  String, ◌≡◌, ◌≢◌, refl, sym, ap, ◌∙◌, some, List, [], ◌∷◌, ◌++◌, map, length,
}
use that_goes_there.Outcome.{Outcome, ok}
use that_goes_there.Ipc.{JobState, JobStatus, running, completed, failed, LogEntry}
use that_goes_there.Plan.Host.{get}
use that_goes_there.Controller.Apply.Entries.{entries}
use that_goes_there.Cli.Poll.{
  Printed, note, Offsets, offset, print_logs, printed_first, by_status, poll_loop,
}
use that_goes_there.Cli.Poll.Shown.{shown_for, shown_for-append, IsMap, print_logs-shown}

-- The last line that the loop prints for a final status.
abbrev pub last_line : JobStatus → List Printed
last_line running = []
last_line completed = note "* plan completed!" ∷ []
last_line failed = note "* plan execution failed!" ∷ []

shown_for-last_line : (host : String) (s : JobStatus) → shown_for host (last_line s) ≡ []
shown_for-last_line host running = refl
shown_for-last_line host completed = refl
shown_for-last_line host failed = refl

module _ (host : String) where
  -- The answers while the job runs: each has what the answer before had of the host, and more.
  abbrev pub Grows : List LogEntry → List JobState → Type 0
  Grows p [] = Unit
  Grows p (j ∷ js) =
      (IsMap j.logs × (j.status ≡ running) × ((q : List LogEntry) × (entries host j.logs ≡ p ++ q)))
      × Grows (entries host j.logs) js

  -- What the host has in the last of them.
  abbrev pub reached : List LogEntry → List JobState → List LogEntry
  reached p [] = p
  reached p (j ∷ js) = reached (entries host j.logs) js

  -- The loop ends with these lines, and has then shown the host's entries behind `p`.
  record Ends (p : List LogEntry) (answers : List (Outcome JobState)) (o : Offsets)
      (last : JobState) : Type 0 where
    out : List Printed
    result : poll_loop answers o ≡ some (ok tt, out ++ last_line last.status)
    complete : p ++ shown_for host out ≡ entries host last.logs

  poll_loop-running :
      (j : JobState) (rest : List (Outcome JobState)) (o : Offsets)
      → j.status ≡ running
      → poll_loop (ok j ∷ rest) o
        ≡ printed_first (print_logs j.logs o).0 (poll_loop rest (print_logs j.logs o).1)
  unfolding poll_loop
  poll_loop-running j rest o h = rw h refl

  final-Ends :
      (p q : List LogEntry) (last : JobState) (rest : List (Outcome JobState)) (o : Offsets)
      → last.status ≢ running
      → IsMap last.logs
      → entries host last.logs ≡ p ++ q
      → offset host o ≡ length p
      → Ends p (ok last ∷ rest) o last
  unfolding poll_loop
  final-Ends p q last rest o over m e h = record {
    out = (print_logs last.logs o).0;
    result = by_last last.status refl;
    complete = ap (λ l. p ++ l) (print_logs-shown host last.logs p q o m e h).0 ∙ sym e;
  }
    where
      by_last :
          (s : JobStatus)
          → last.status ≡ s
          → printed_first
              (print_logs last.logs o).0
              (by_status s (poll_loop rest (print_logs last.logs o).1))
            ≡ some (ok tt, (print_logs last.logs o).0 ++ last_line s)
      by_last running r = absurd (over r)
      by_last completed r = refl
      by_last failed r = refl

  poll-Ends :
      (js : List JobState) (p q : List LogEntry) (last : JobState) (rest : List (Outcome JobState))
      (o : Offsets)
      → Grows p js
      → last.status ≢ running
      → IsMap last.logs
      → entries host last.logs ≡ reached p js ++ q
      → offset host o ≡ length p
      → Ends p (map ok js ++ ok last ∷ rest) o last
  poll-Ends [] p q last rest o g over m e h = final-Ends p q last rest o over m e h
  poll-Ends (j ∷ js) p q last rest o ((mj, is_running, (x, grown)), g) over m e h =
      let (now, at) = print_logs-shown host j.logs p x o mj grown h in
      let (out, o') = print_logs j.logs o in
      let later =
        poll-Ends js (entries host j.logs) q last rest o' g over m e (at ∙ ap length (sym grown)) in
      record {
        out = out ++ later.out;
        result =
            poll_loop-running j (map ok js ++ ok last ∷ rest) o is_running
            ∙ ap (printed_first out) later.result
            ∙ ap (λ l. some (ok tt, l)) (sym (append_assoc out later.out (last_line last.status)));
        complete =
            ap (λ l. p ++ l)
              (shown_for-append host out later.out ∙ ap (λ l. l ++ shown_for host later.out) now)
            ∙ sym (append_assoc p x (shown_for host later.out))
            ∙ ap (λ l. l ++ shown_for host later.out) (sym grown)
            ∙ later.complete;
      }

  -- A client that asks again and again, and whose answers have what they had before of a host and
  -- perhaps more, prints every entry of the host once and in order by the time that the job has a
  -- final status; the loop ends then, with the line for that status, and does not fail.
  pub poll_loop-shows :
      (js : List JobState) (q : List LogEntry) (last : JobState) (rest : List (Outcome JobState))
      → Grows [] js
      → last.status ≢ running
      → IsMap last.logs
      → entries host last.logs ≡ reached [] js ++ q
      → (out : List Printed) × (poll_loop (map ok js ++ ok last ∷ rest) []
          ≡ some (ok tt, out ++ last_line last.status))
        × (shown_for host out ≡ entries host last.logs)
  unfolding offset get
  poll_loop-shows js q last rest g over m e =
      let ends = poll-Ends js [] q last rest [] g over m e refl in
      (ends.out, ends.result, ends.complete)
