-- ===== src/Cli/Poll/Followed.antt =====
-- Following a job of the controller's store: what its hosts logged is what the client prints.
use that_goes_there.Prelude.{
  String, ◌≡◌, ◌≢◌, inl, inr, refl, sym, ap, subst, ◌∙◌, arith, some, List, [], ◌∷◌, ◌++◌, map, All,
  str_eq, eq_iff, false, Bool-cases,
}
use that_goes_there.Outcome.{Outcome, ok}
use that_goes_there.Ipc.{JobStartRequest, JobState, running, LogEntry}
use that_goes_there.Executor.Stream.{Logs}
use that_goes_there.Controller.Apply.{add_logs, append_entries}
use that_goes_there.Controller.Apply.Entries.{
  entries, entry, deliver_all, logs_for, deliver_all-entries,
}
use that_goes_there.Controller.Server.{initial_state}
use that_goes_there.Controller.Server.Jobs.{final_status}
use that_goes_there.Controller.Server.History
use that_goes_there.Controller.Server.History.{Event, ended_by}
use that_goes_there.Controller.Server.History.Outcomes.{deliveries, ended_by-kept, ended_by-status}
use that_goes_there.Cli.Poll.{Printed, poll_loop}
use that_goes_there.Cli.Poll.Job.{last_line, Grows, reached, poll_loop-shows}
use that_goes_there.Cli.Poll.Shown.{shown_for, IsMap}

str_eq-false_sym : (a b : String) → str_eq a b ≡ false → str_eq b a ≡ false
str_eq-false_sym a b h = elim (Bool-cases (str_eq b a)) [
  | inl t ↦ absurd (ground (arith, (eq_iff a b).1 (sym ((eq_iff b a).0 t)), h))
  | inr f ↦ f
]

append_entries-All :
    (host key : String) (es : List LogEntry) (ls : List (String × List LogEntry))
    → str_eq host key ≡ false
    → All (λ x. str_eq x.0 key ≡ false) ls
    → All (λ x. str_eq x.0 key ≡ false) (append_entries host es ls)
unfolding append_entries
append_entries-All host key es [] ne h = (ne, tt)
append_entries-All host key es ((k, old) ∷ ls) ne h = elim (Bool-cases (str_eq k host)) [
  | inl t ↦ rw t (h.0, h.1)
  | inr f ↦ rw f (h.0, append_entries-All host key es ls ne h.1)
]

append_entries-IsMap :
    (host : String) (es : List LogEntry) (ls : List (String × List LogEntry))
    → IsMap ls
    → IsMap (append_entries host es ls)
unfolding append_entries
append_entries-IsMap host es [] h = (tt, tt)
append_entries-IsMap host es ((k, old) ∷ ls) h = elim (Bool-cases (str_eq k host)) [
  | inl t ↦ rw t h
  | inr f ↦ rw f (
    append_entries-All host k es ls (str_eq-false_sym k host f) h.0,
    append_entries-IsMap host es ls h.1,
  )
]

pub deliver_all-IsMap :
    (ds : List (String × Logs)) (job : JobState) → IsMap job.logs → IsMap (deliver_all ds job).logs
unfolding add_logs
deliver_all-IsMap [] job h = h
deliver_all-IsMap ((host, logs) ∷ ds) job h =
    deliver_all-IsMap ds (add_logs host logs job)
      (append_entries-IsMap host (map (entry host) logs) job.logs h)

module _ (job_id : String) where
  abbrev pub advance : List Event → JobState → JobState
  advance seg job = deliver_all (deliveries job_id seg) job

  -- The states of a running job that a client sees, with these events between its looks, and the
  -- state behind them.
  abbrev pub looks : List (List Event) → JobState → List JobState
  looks [] job = []
  looks (seg ∷ segs) job = advance seg job ∷ looks segs (advance seg job)

  abbrev pub flatten : List (List Event) → List Event → List Event
  flatten [] final = final
  flatten (seg ∷ segs) final = seg ++ flatten segs final

  advance-append :
      (xs ys : List Event) (job : JobState) → advance (xs ++ ys) job ≡ advance ys (advance xs job)
  advance-append [] ys job = refl
  advance-append (History.start k body ∷ xs) ys job = advance-append xs ys job
  advance-append (History.log k host logs ∷ xs) ys job = elim (Bool-cases (str_eq k job_id)) [
    | inl t ↦ rw t (advance-append xs ys (add_logs host logs job))
    | inr f ↦ rw f (advance-append xs ys job)
  ]
  advance-append (History.finish k r ∷ xs) ys job = advance-append xs ys job

  pub advance-running :
      (seg : List Event) (job : JobState)
      → job.status ≡ running
      → (advance seg job).status ≡ running
  advance-running seg job h =
      ap (λ (j : JobState). j.status) (deliver_all-entries "" (deliveries job_id seg) job).1 ∙ h

  looks-Grows :
      (host : String) (segs : List (List Event)) (job : JobState)
      → IsMap job.logs
      → job.status ≡ running
      → Grows host (entries host job.logs) (looks segs job)
  looks-Grows host [] job m h = tt
  looks-Grows host (seg ∷ segs) job m h =
      let m' = deliver_all-IsMap (deliveries job_id seg) job m in
      let h' = advance-running seg job h in
      (
        (m', h', (_, (deliver_all-entries host (deliveries job_id seg) job).0)),
        looks-Grows host segs (advance seg job) m' h',
      )

  -- The state behind all of the looks, and the final events.
  abbrev pub at_end : List (List Event) → List Event → JobState → JobState
  at_end [] final job = advance final job
  at_end (seg ∷ segs) final job = at_end segs final (advance seg job)

  pub at_end-flatten :
      (segs : List (List Event)) (final : List Event) (job : JobState)
      → at_end segs final job ≡ advance (flatten segs final) job
  at_end-flatten [] final job = refl
  at_end-flatten (seg ∷ segs) final job =
      at_end-flatten segs final (advance seg job)
      ∙ sym (advance-append seg (flatten segs final) job)

  at_end-reached :
      (host : String) (segs : List (List Event)) (final : List Event) (job : JobState)
      → (q : List LogEntry) × (entries host (at_end segs final job).logs
          ≡ reached host (entries host job.logs) (looks segs job) ++ q)
  at_end-reached host [] final job = (_, (deliver_all-entries host (deliveries job_id final) job).0)
  at_end-reached host (seg ∷ segs) final job = at_end-reached host segs final (advance seg job)

  pub at_end-running :
      (segs : List (List Event)) (final : List Event) (job : JobState)
      → job.status ≡ running
      → (at_end segs final job).status ≡ running
  at_end-running [] final job h = advance-running final job h
  at_end-running (seg ∷ segs) final job h =
      at_end-running segs final (advance seg job) (advance-running seg job h)

  pub at_end-IsMap :
      (segs : List (List Event)) (final : List Event) (job : JobState)
      → IsMap job.logs
      → IsMap (at_end segs final job).logs
  at_end-IsMap [] final job m = deliver_all-IsMap (deliveries job_id final) job m
  at_end-IsMap (seg ∷ segs) final job m =
      at_end-IsMap segs final (advance seg job) (deliver_all-IsMap (deliveries job_id seg) job m)

  -- A client follows a job of the controller from its start, looking at it between any of its
  -- events, until it is completed or failed. It has then printed, of each host, exactly the logs
  -- that came for the host until the end of the job, once each and in order, and the line for the
  -- job's status last.
  pub poll_loop-follows :
      (body : JobStartRequest) (segs : List (List Event)) (final : List Event)
      (r : Outcome (Unit {0})) (rest : List (Outcome JobState)) (host : String)
      → final_status r ≢ running
      → (out : List Printed) × (poll_loop
            (map ok (looks segs (initial_state body))
              ++ ok (ended_by r (at_end segs final (initial_state body))) ∷ rest)
            []
          ≡ some (ok tt, out ++ last_line (final_status r)))
        × (shown_for host out
            ≡ map (entry host) (logs_for host (deliveries job_id (flatten segs final))))
  unfolding initial_state
  poll_loop-follows body segs final r rest host over =
      let begin = initial_state body in
      let last = at_end segs final begin in
      let status = ended_by-status job_id r last (at_end-running segs final begin refl) in
      let kept = (ended_by-kept job_id r last).0 in
      let (q, grown) = at_end-reached host segs final begin in
      let (out, result, complete) =
        poll_loop-shows host (looks segs begin) q (ended_by r last) rest
          (looks-Grows host segs begin tt refl) (λ e. over (sym status ∙ e))
          (subst IsMap (sym kept) (at_end-IsMap segs final begin tt))
          (ap (entries host) kept ∙ grown) in
      (
        out,
        result ∙ ap (λ s. some (ok tt, out ++ last_line s)) status,
        complete
            ∙ ap (entries host) kept
            ∙ ap (λ (j : JobState). entries host j.logs) (at_end-flatten segs final begin)
            ∙ (deliver_all-entries host (deliveries job_id (flatten segs final)) begin).0,
      )
