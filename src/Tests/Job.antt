-- ===== src/Tests/Job.antt =====
-- A whole job of the sample hosts, of which one stands in two groups.
use that_goes_there.Prelude.{
  ℕ, zero, suc, ◌<◌, ◌^◌, String, ◌≡◌, refl, arith, false, List, [], ◌∷◌, length,
}
use that_goes_there.Outcome.{Outcome, ok, err, eyre}
use that_goes_there.Plan.ForHost.{plan_for_host}
use that_goes_there.Plan.Task.{Plan}
use that_goes_there.Plan.Host.{Host, get}
use that_goes_there.Ipc.{JobState}
use that_goes_there.Executor.Stream.{PartialLogStream}
use that_goes_there.Executor.Ssh
use that_goes_there.Executor.Ssh.{exit_status}
use that_goes_there.Executor.Ssh.Transcript.{transcript}
use that_goes_there.Controller.Prepare.{
  Assignment, prepare, apply_plan, assign_groups, assign_members, assign,
}
use that_goes_there.Controller.Server.{run_plan, finish_job}
use that_goes_there.Controller.Server.History.{Event}
use that_goes_there.Controller.Pipes.{System, started, Reach, initially}
use that_goes_there.Controller.Pipes.Kept.{IsAlone}
use that_goes_there.Controller.Pipes.Hosts.{messages, IsGoneOr, hosts_settle}
use that_goes_there.Controller.Pipes.Assigned.{pick}
use that_goes_there.Controller.Pipes.Job.{HasLogs, part-fits, end_sent, IsReadyOn, job_logged}
use that_goes_there.Tests.Samples.{
  quoted, chores_plan, site, server, unbounded, bounded, reachable, store, request,
}
use that_goes_there.Tests.Jobs.{whole}

abbrev given : String → Assignment
given h = record { plan = plan_for_host chores_plan h site; hostname = h; host = server }

abbrev assigned : List Assignment
assigned = given "web1" ∷ given "web1" ∷ given "db1" ∷ []

prepared : prepare chores_plan site ≡ ok assigned
unfolding prepare assign_groups assign_members assign plan_for_host get
prepared = refl

-- All hosts fail in the end.
abbrev lost : List Assignment → List (Outcome (String × ℕ))
lost fs = err (eyre "lost") ∷ []

abbrev untouched : ℕ → List String
untouched i = []

abbrev name : ℕ → String
name i = (pick assigned i).hostname

abbrev host_of : ℕ → Host
host_of i = (pick assigned i).host

abbrev part_of : ℕ → Plan
part_of i = (pick assigned i).plan

db1-IsAlone : IsAlone name 3 2
db1-IsAlone zero h same = absurd (cc)
db1-IsAlone (suc zero) h same = absurd (cc)
db1-IsAlone (suc (suc zero)) h same = refl
db1-IsAlone (suc (suc (suc j))) h same = absurd (omega arith)

ready :
    (i : ℕ)
    → i < 3
    → IsReadyOn quoted unbounded
        (λ m c. refl)
        (λ i. reachable)
        (λ i c. exit_status 0 ∷ [])
        (λ i c. 0)
        (λ i w. refl)
        (λ i c w. refl)
        (λ i c. refl)
        (λ i a w. refl)
        (λ i u w. refl)
        untouched
        request
        assigned
        i
unfolding Ssh.passes
ready i h = (refl, (refl, tt))

few : length chores_plan.blueprint < 2 ^ 32
few = omega arith

abbrev begun : List (String × JobState)
begun = (run_plan store "job" request []).1

abbrev messages_sent : ℕ → List PartialLogStream
messages_sent = messages quoted unbounded (λ i. reachable) name host_of part_of untouched

-- The runs when all have ended.
settled :
    (es : List Event) × (s : System bounded store) × Reach bounded store "job" name 3
      (started bounded store "job" name messages_sent begun)
      es
      s
    × ((i : ℕ) → i < 3 → (s.pipe i).reading ≡ false)
settled =
    (hosts_settle quoted unbounded (λ i. reachable) name host_of part_of untouched bounded store
      "job" 3
      (part-fits quoted unbounded (λ m c. refl) (λ i. reachable) (λ i c. exit_status 0 ∷ [])
        (λ i c. 0) (λ i w. refl) (λ i c w. refl) (λ i c. refl) (λ i a w. refl) (λ i u w. refl)
        untouched request assigned few prepared ready)
      (end_sent quoted unbounded (λ m c. refl) (λ i. reachable) (λ i c. exit_status 0 ∷ [])
        (λ i c. 0) (λ i w. refl) (λ i c w. refl) (λ i c. refl) (λ i a w. refl) (λ i u w. refl)
        untouched request assigned few prepared ready)
      begun [] (started bounded store "job" name messages_sent begun) initially).1

job_logged_example :
    IsGoneOr store "job"
      (HasLogs "db1" (
        transcript
          (λ c. exit_status 0 ∷ [])
          quoted
          unbounded
          reachable
          "db1"
          (plan_for_host chores_plan "db1" site)))
      (finish_job store "job" (apply_plan whole lost chores_plan site) settled.1.jobs)
job_logged_example =
    job_logged quoted unbounded (λ m c. refl) (λ i. reachable) (λ i c. exit_status 0 ∷ [])
      (λ i c. 0) (λ i w. refl) (λ i c w. refl) (λ i c. refl) (λ i a w. refl) (λ i u w. refl)
      untouched request assigned few prepared ready bounded store "job" [] settled.0 settled.1 whole
      lost 2 refl settled.2 settled.3 (tt, tt) (omega arith) db1-IsAlone
