-- ===== src/Tests/Hosts.antt =====
-- A job of two hosts, side by side.
use that_goes_there.Prelude.{
  true, ℕ, zero, suc, ◌*◌, ◌≤◌, ◌<◌, ◌^◌, sum, String, ◌≡◌, ◌≢◌, refl, arith, false, List, [], ◌∷◌,
  ◌++◌, map, length,
}
use that_goes_there.Outcome.{Outcome, ok, err, external}
use that_goes_there.Controller.Pipes.Stuck.{failed_run-reading}
use that_goes_there.Plan.Task.{Plan}
use that_goes_there.Plan.Host.{Host}
use that_goes_there.Plan.ForHost.{plan_for_host}
use that_goes_there.Ipc.{JobState, running, completed}
use that_goes_there.Executor.Stream.{Logs, PartialLogStream, ends}
use that_goes_there.Executor.Source.{source}
use that_goes_there.Exec.{◌>>=◌}
use that_goes_there.Executor.State.{on_chan, on_world}
use that_goes_there.Executor.Stream
use that_goes_there.Executor.Ssh
use that_goes_there.Executor.Source.Loop.{delivered}
use that_goes_there.Executor.Ssh.Ends.{execute-end}
use that_goes_there.Controller.Apply.Entries.{entries, entry}
use that_goes_there.Controller.Server.{run_plan, finish_job}
use that_goes_there.Controller.Server.History.{Event}
use that_goes_there.Controller.Server.Whole.{all_of}
use that_goes_there.Controller.Pipes.{
  System, stored, started, read_round, read_step, Reach, initially, next_step,
}
use that_goes_there.Controller.Pipes.Kept.{IsAlone}
use that_goes_there.Controller.Pipes.Work.{all_moves}
use that_goes_there.Controller.Pipes.Hosts.{
  messages, hosts_settle, IsGoneOr, hosts_running-prefix, hosts_logged,
}
use that_goes_there.Tests.Samples.{
  one_word, chores, chores_plan, site, quoted, server, unbounded, bounded, reachable, unreachable,
  store, request,
}
use that_goes_there.Tests.Plans.{planned}
use that_goes_there.Executor.Ssh.{execute, exit_status, connect_to}
use that_goes_there.Executor.Ssh.Success.{planned_execute_succeeds}
use that_goes_there.Tests.Runs.{idle}

abbrev pub name : ℕ → String
name zero = "web1"
name (suc i) = "db1"

abbrev pub server_of : ℕ → Host
server_of i = server

abbrev pub part : ℕ → Plan
part i = plan_for_host chores_plan (name i) site

abbrev pub untouched : ℕ → List String
untouched i = []

abbrev pub sends : ℕ → List PartialLogStream
sends = messages quoted unbounded (λ i. reachable) name server_of part untouched

pub few : (i : ℕ) → i < 2 → length (part i).blueprint < 2 ^ 32
unfolding plan_for_host
few zero h = omega arith
few (suc i) h = omega arith

returned : (i : ℕ) → (execute quoted unbounded reachable server (name i) (part i) idle).0 ≡ ok tt
returned i =
    planned_execute_succeeds quoted unbounded reachable (λ m c. refl) (λ a w. refl) (λ u w. refl)
      (λ w. refl) (λ c w. (exit_status 0 ∷ [], refl, refl)) one_word chores chores_plan site server
      (name i) idle planned

pub one_end : (i : ℕ) → i < 2 → ends (sends i) ≢ 0
one_end i h =
    (execute-end quoted unbounded reachable server (name i) (part i) idle refl (few i h)
      (returned i)).0

pub web1-IsAlone : IsAlone name 2 0
web1-IsAlone zero h same = refl
web1-IsAlone (suc j) h same = absurd (cc)

abbrev pub applied : Outcome (Unit {0})
applied = ok tt

abbrev pub begun : List (String × JobState)
begun = (run_plan store "job" request []).1

abbrev pub first : System bounded store
first = started bounded store "job" name sends begun

-- The reading task of `web1` has found nothing yet.
abbrev second : System bounded store
second = read_round bounded store "job" name 0 first

abbrev polls : List Event
polls = stored "job" "web1" (source bounded.try_recv (first.pipe 0).reader).0

polled : Reach bounded store "job" name 2 first polls second
polled = next_step initially (read_step 0 (omega arith) refl)

hosts_settle_example :
    (all_moves bounded store "job" name 2 polled ≤ sum (λ ms. 2 * length ms) 2 sends)
    × ((fs : List Event) × (t : System bounded store) × Reach bounded store "job" name 2 second fs t
        × ((i : ℕ) → i < 2 → (t.pipe i).reading ≡ false))
hosts_settle_example =
    hosts_settle quoted unbounded (λ i. reachable) name server_of part untouched bounded store "job"
      2 few one_end begun polls second polled

hosts_running-prefix_example :
    IsGoneOr store "job"
      (λ job.
        (job.status ≡ running)
        × (seen : Logs) × (unseen : Logs) × (all_of (delivered (sends 0)) ≡ seen ++ unseen)
        × (entries "web1" job.logs ≡ map (entry "web1") seen))
      second.jobs
hosts_running-prefix_example =
    hosts_running-prefix quoted unbounded (λ i. reachable) name server_of part untouched bounded
      store "job" 2 few one_end request [] refl polls second polled 0 (omega arith) web1-IsAlone

-- The runs when all have ended.
pub settled :
    (fs : List Event) × (t : System bounded store) × Reach bounded store "job" name 2 first fs t
    × ((i : ℕ) → i < 2 → (t.pipe i).reading ≡ false)
settled =
    (hosts_settle quoted unbounded (λ i. reachable) name server_of part untouched bounded store
      "job" 2 few one_end begun [] first initially).1

hosts_logged_example :
    IsGoneOr store "job"
      (λ job.
        (job.status ≡ completed)
        × (entries "web1" job.logs ≡ map (entry "web1") (all_of (delivered (sends 0)))))
      (finish_job store "job" applied settled.1.jobs)
hosts_logged_example =
    hosts_logged quoted unbounded (λ i. reachable) name server_of part untouched bounded store "job"
      2 few one_end request [] refl settled.0 settled.1 settled.2 0 (omega arith) web1-IsAlone
      applied (settled.3 0 (omega arith))

-- No connection reaches the second host, and both have been looked at once.
abbrev lost_sends : ℕ → List PartialLogStream
lost_sends = messages quoted unbounded (λ i. unreachable) name server_of part untouched

abbrev lost : System bounded store
lost = started bounded store "job" name lost_sends begun

lost_polls :
    Reach bounded store "job" name 2 lost
      (stored "job" "db1" (source bounded.try_recv (lost.pipe 1).reader).0)
      (read_round bounded store "job" name 1 lost)
lost_polls = next_step initially (read_step 1 (omega arith) refl)

not_reached :
    (execute quoted unbounded unreachable server "db1" (part 1) idle).0
    ≡ err (external "thrussh::Error")
unfolding execute ◌>>=◌ Ssh.sink_one on_chan Stream.sink_one Stream.sink connect_to on_world
not_reached = refl

failed_run-reading_example : ((read_round bounded store "job" name 1 lost).pipe 1).reading ≡ true
failed_run-reading_example =
    failed_run-reading quoted unbounded (λ i. unreachable) name server_of part untouched bounded
      store "job" 2 1 (external "thrussh::Error") begun _ _ (few 1 (omega arith)) not_reached
      (λ h. absurd (cc)) lost_polls
