-- ===== src/Tests/Jobs.antt =====
-- The controller's theorems at small jobs.
use that_goes_there.Prelude.{
  String, ℕ, ◌+◌, ◌≡◌, ◌⊎◌, ◌↔◌, refl, arith, none, some, List, [], ◌∷◌, map, length, All,
}
use that_goes_there.Outcome.{Outcome, Report, eyre, ok, err}
use that_goes_there.Plan.Task.{Plan}
use that_goes_there.Plan.Host.{get}
use that_goes_there.Plan.ForHost.{plan_for_host}
use that_goes_there.Executor.Ssh.{exit_status, execute}
use that_goes_there.Executor.Ssh.Success.{planned_execute_succeeds}
use that_goes_there.Ipc.{completed}
use that_goes_there.Controller.Apply.{do_apply}
use that_goes_there.Controller.Apply.Ending.{copied, do_apply_returns}
use that_goes_there.Controller.Prepare.{
  Assignment, prepare, apply_plan, assign_groups, assign_members, assign,
}
use that_goes_there.Controller.Prepare.Assignments.{
  share_of, group_shares, IsKnown, prepare-shares, apply_plan_succeeds_iff,
}
use that_goes_there.Controller.Server.{finish_job, accepted, ssh_line, bootstrap}
use that_goes_there.Controller.Server.Jobs.{finish_job-known_hosts, bootstrap_accepts_iff}
use that_goes_there.Tests.Samples.{
  one_word, chores, quoted, chores_plan, site, server, unbounded, queue, reachable, store, job,
}
use that_goes_there.Tests.Plans.{planned}
use that_goes_there.Tests.Runs.{idle}

abbrev pub web1_plan : Plan
web1_plan = plan_for_host chores_plan "web1" site

abbrev pub whole : Report → String
whole e = "report"

pub ran : (execute quoted unbounded reachable server "web1" web1_plan idle).0 ≡ ok tt
ran =
    planned_execute_succeeds quoted unbounded reachable (λ m c. refl) (λ a w. refl) (λ u w. refl)
      (λ w. refl) (λ c w. (exit_status 0 ∷ [], refl, refl)) one_word chores chores_plan site server
      "web1" idle planned

-- Enough rounds for the reading task.
abbrev pub rounds : ℕ
rounds = 1 + length (execute quoted unbounded reachable server "web1" web1_plan idle).1.chan

do_apply_returns_example :
    do_apply quoted whole unbounded reachable queue store rounds
      (ok tt)
      "job"
      web1_plan
      "web1"
      server
      []
      []
    ≡ some (
      ok ("web1", 1),
      copied quoted whole unbounded reachable queue store rounds "job" "web1" web1_plan
          (execute quoted unbounded reachable server "web1" web1_plan idle).1
          [],
    )
unfolding plan_for_host
do_apply_returns_example =
    do_apply_returns quoted whole unbounded reachable queue store "job" "web1" web1_plan server []
      [] rounds (omega arith) ran (omega arith)

ssh_succeeds_example : (execute quoted unbounded reachable server "web1" web1_plan idle).0 ≡ ok tt
ssh_succeeds_example =
    planned_execute_succeeds quoted unbounded reachable (λ m c. refl) (λ a w. refl) (λ u w. refl)
      (λ w. refl) (λ c w. (exit_status 0 ∷ [], refl, refl)) one_word chores chores_plan site server
      "web1" idle planned

prepared : (futures : List Assignment) × (prepare chores_plan site ≡ ok futures)
unfolding prepare assign_groups assign_members assign plan_for_host get
prepared = (_, refl)

prepare-shares_example :
    (map share_of prepared.0 ≡ group_shares chores_plan site site.groups)
    × All (λ (a : Assignment). get site.hosts a.hostname ≡ some a.host) prepared.0
prepare-shares_example = prepare-shares chores_plan site prepared.0 prepared.1

-- Every host fails.
abbrev all_fail : List Assignment → List (Outcome (String × ℕ))
all_fail fs = err (eyre "lost") ∷ []

apply_plan_succeeds_example :
    All (IsKnown chores_plan site) (group_shares chores_plan site site.groups)
    ↔ ((lines : List String) × (apply_plan whole all_fail chores_plan site ≡ ok lines))
apply_plan_succeeds_example =
    apply_plan_succeeds_iff whole all_fail chores_plan site (λ fs. (tt, tt))

abbrev no_answer : Outcome ℕ
no_answer = err (eyre "lost")

pub shares-IsKnown : All (IsKnown chores_plan site) (group_shares chores_plan site site.groups)
unfolding plan_for_host get
shares-IsKnown = ((server, refl), ((server, refl), ((server, refl), tt)))

finish_job-known_hosts_example :
    (store.get "job"
        (finish_job store "job" (apply_plan whole all_fail chores_plan site) (("job", job) ∷ []))
      ≡ some (record job { status = completed }))
    ⊎ (store.get "job"
          (finish_job store "job" (apply_plan whole all_fail chores_plan site) (("job", job) ∷ []))
        ≡ none)
finish_job-known_hosts_example =
    finish_job-known_hosts store "job" whole all_fail chores_plan site job (("job", job) ∷ [])
      (λ fs. (tt, tt)) shares-IsKnown refl

abbrev token : String
token = "secret"

bootstrap_accepts_example :
    (bootstrap (ok token) (ok "AAAA") token ≡ ok (accepted (ssh_line "AAAA")))
    ↔ ((token ≡ token) × (key : String) × (ok "AAAA" ≡ ok key) × (ssh_line "AAAA" ≡ ssh_line key))
bootstrap_accepts_example = bootstrap_accepts_iff token (ok "AAAA") token (ssh_line "AAAA")
