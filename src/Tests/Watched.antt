-- ===== src/Tests/Watched.antt =====
-- A client that follows a job of two hosts.
use that_goes_there.Prelude.{
  String, ◌≡◌, ◌≢◌, inl, inr, refl, sym, subst, arith, Option, none, some, List, [], ◌∷◌, ◌++◌, map,
  str_eq, Bool-cases,
}
use that_goes_there.Outcome.{Outcome, ok, err, panic}
use that_goes_there.Ipc.{JobState, JobStatus, completed, failed}
use that_goes_there.Executor.Source.Loop.{delivered}
use that_goes_there.Controller.Apply.{store_logs, add_logs}
use that_goes_there.Controller.Apply.Entries.{entry}
use that_goes_there.Controller.Server.{run_plan, set_status, finish_job}
use that_goes_there.Controller.Server.History.{Event, start, log, finish, on_store, run_store}
use that_goes_there.Controller.Server.Whole.{all_of}
use that_goes_there.Controller.Pipes.Kept.{Reach-Kept}
use that_goes_there.Controller.Pipes.Hosts.{all-closed}
use that_goes_there.Cli.Poll.{Printed, poll_loop}
use that_goes_there.Cli.Poll.Job.{last_line}
use that_goes_there.Cli.Poll.Shown.{shown_for}
use that_goes_there.Cli.Poll.Asked.{JobCodec, ask, asked}
use that_goes_there.Cli.Poll.Asked.Hosts.{hosts_followed}
use that_goes_there.Tests.Samples.{quoted, unbounded, bounded, reachable, store, request, look_up}
use that_goes_there.Tests.Hosts.{
  name, server_of, part, untouched, few, one_end, web1-IsAlone, sends, begun, settled, applied,
}

-- A job as its own text.
abbrev as_is : JobCodec
as_is = record {
  Body = JobState;
  to_string = λ job. ok job;
  from_str = λ job. ok job;
  from_str-to_string =
      λ job. (job, refl, job, refl, record { status = refl; logs = λ host. refl; is_map = λ m. m });
}

-- The store keeps a job that it has.
cons-kept :
    (k : String) (v : JobState) (jobs : List (String × JobState))
    → look_up "job" jobs ≢ none
    → look_up "job" ((k, v) ∷ jobs) ≢ none
cons-kept k v jobs h = elim (Bool-cases (str_eq k "job")) [
  | inl e ↦ rw e (λ z. absurd (cc))
  | inr e ↦ rw e h
]

set_status-kept :
    (status : JobStatus) (k : String) (o : Option JobState) (jobs : List (String × JobState))
    → look_up "job" jobs ≢ none
    → look_up "job" (set_status store status k o jobs) ≢ none
set_status-kept status k none jobs h = h
set_status-kept status k (some job) jobs h = cons-kept k (record job { status = status }) jobs h

finish_job-kept :
    (k : String) (r : Outcome (Unit {0})) (jobs : List (String × JobState))
    → look_up "job" jobs ≢ none
    → look_up "job" (finish_job store k r jobs) ≢ none
unfolding finish_job
finish_job-kept k (ok a) jobs h = set_status-kept completed k (look_up k jobs) jobs h
finish_job-kept k (err e) jobs h = set_status-kept failed k (look_up k jobs) jobs h
finish_job-kept k (panic p) jobs h = h

on_store-kept :
    (e : Event) (jobs : List (String × JobState))
    → look_up "job" jobs ≢ none
    → look_up "job" (on_store store e jobs) ≢ none
unfolding run_plan store_logs
on_store-kept (start k body) jobs h = cons-kept k _ jobs h
on_store-kept (log k host logs) jobs h = by_found (look_up k jobs)
  where
    by_found :
        (o : Option JobState)
        → look_up "job"
            (elim o [ none ↦ jobs | some job ↦ store.insert k (add_logs host logs job) jobs ])
          ≢ none
    by_found none = h
    by_found (some job) = cons-kept k (add_logs host logs job) jobs h
on_store-kept (finish k r) jobs h = finish_job-kept k r jobs h

run_store-kept :
    (es : List Event) (jobs : List (String × JobState))
    → look_up "job" jobs ≢ none
    → look_up "job" (run_store store es jobs) ≢ none
unfolding run_store
run_store-kept [] jobs h = h
run_store-kept (e ∷ es) jobs h = run_store-kept es (on_store store e jobs) (on_store-kept e jobs h)

begun-kept : look_up "job" (run_store store [] begun) ≢ none
unfolding run_plan run_store
begun-kept h = absurd (cc)

settled-kept : look_up "job" settled.1.jobs ≢ none
unfolding run_store
settled-kept =
    let closes =
      all-closed quoted unbounded (λ i. reachable) name server_of part untouched bounded store "job"
        2 few one_end in
    let h =
      Reach-Kept bounded store "job" name 2 (λ k. delivered (sends k)) begun sends closes
        settled.2 in
    subst (λ js. look_up "job" js ≢ none) (sym h.store) (run_store-kept settled.0 begun begun-kept)

-- A look at the start, and one behind the end.
hosts_followed_example :
    (out : List Printed) × (poll_loop
        (asked as_is store "job" ([] ∷ []) begun
          ++ ask as_is store "job" (finish_job store "job" applied settled.1.jobs) ∷ [])
        []
      ≡ some (ok tt, out ++ last_line completed))
    × (shown_for "web1" out ≡ map (entry "web1") (all_of (delivered (sends 0))))
hosts_followed_example =
    hosts_followed quoted unbounded (λ i. reachable) name server_of part untouched bounded store
      as_is "job" 2 few one_end request [] ([] ∷ []) settled.0 settled.1 applied [] 0 settled.2
      (omega arith) web1-IsAlone (settled.3 0 (omega arith)) (begun-kept, tt)
      (finish_job-kept "job" applied settled.1.jobs settled-kept) (λ h. absurd (cc))
