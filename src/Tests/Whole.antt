-- ===== src/Tests/Whole.antt =====
-- A whole job of the controller, at a small plan.
use that_goes_there.Prelude.{String, ◌≡◌, refl, arith, some, List, [], ◌∷◌}
use that_goes_there.Outcome.{ok}
use that_goes_there.Text.{decimal}
use that_goes_there.Plan.ForHost.{plan_for_host}
use that_goes_there.Executor.State.{debug_ensure}
use that_goes_there.Executor.Ssh
use that_goes_there.Executor.Ssh.{exit_status, passes, finished_line}
use that_goes_there.Ipc.{JobState}
use that_goes_there.Controller.Apply.{do_apply}
use that_goes_there.Controller.Prepare.{apply_plan}
use that_goes_there.Controller.Server.{run_plan, finish_job}
use that_goes_there.Controller.Server.Whole.{IsShown}
use that_goes_there.Controller.Server.Whole.Logged.{whole_job_logged}
use that_goes_there.Tests.Samples.{
  quoted, chores_plan, site, server, unbounded, queue, reachable, store, request,
}
use that_goes_there.Tests.Jobs.{web1_plan, whole, shares-IsKnown}

-- The same, with the lines that the job has at its end.
whole_job_logged_example :
    (after : List (String × JobState)) × (do_apply quoted whole unbounded reachable queue store 20
        (ok tt)
        "job"
        web1_plan
        "web1"
        server
        []
        (run_plan store "job" request []).1
      ≡ some (ok ("web1", 1), after))
    × IsShown "job" "web1" store
        (finish_job store "job"
          (apply_plan whole (λ futures. ok ("web1", 1) ∷ []) chores_plan site)
          after)
        ("* steps: 1" ∷ "** executing task: uptime" ∷ "* ensuring ExeExists { exe: uptime }"
          ∷ "* executing task: uptime" ∷ "" ∷ "*** finished applying plan: chores -> web1 (1/1)"
          ∷ [])
unfolding plan_for_host decimal debug_ensure Ssh.finished_line Ssh.passes
whole_job_logged_example =
    whole_job_logged (λ c. exit_status 0 ∷ []) (λ c. 0) quoted unbounded reachable (λ m c. refl)
      (λ w. refl) (λ c w. refl) (λ c. refl) (λ a w. refl) (λ u w. refl) whole queue store "job"
      "web1" server request [] [] 20 whole (omega arith) refl shares-IsKnown (refl, tt)
      (omega arith)
