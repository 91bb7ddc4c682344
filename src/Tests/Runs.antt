-- ===== src/Tests/Runs.antt =====
-- The executors' theorems at runs of a small plan.
use that_goes_there.Prelude.{
  All, ◌↔◌, String, ◌<>◌, ℕ, ◌==◌, str_eq, if◌then◌else◌, ◌≡◌, ◌≢◌, refl, true, false, arith, some,
  List, [], ◌∷◌, ◌++◌, map,
}
use that_goes_there.Outcome.{Report, index_out_of_bounds, ok, err, panic}
use that_goes_there.Exec.{◌>>=◌}
use that_goes_there.Exec.Post.{Meets}
use that_goes_there.Plan.Task.{exe_exists, directory_exists, directory_doesnt_exist, PlannedTask}
use that_goes_there.Plan.ForHost.{plan_for_host}
use that_goes_there.Executor.State.{State, on_chan, on_world}
use that_goes_there.Executor.Stream
use that_goes_there.Executor.Stream.{PartialLogStream, next, end, sink}
use that_goes_there.Executor.Local
use that_goes_there.Executor.Local.Execute.{local_execute_outcomes}
use that_goes_there.Executor.Local.Blocked.{execute_task-blocked}
use that_goes_there.Executor.Local.Panics.{execute-planned_never_panics}
use that_goes_there.Executor.Ssh
use that_goes_there.Executor.Ssh.{exit_status}
use that_goes_there.Executor.Ssh.Verdicts.{ensure_task-failing}
use that_goes_there.Executor.Local.{directory}
use that_goes_there.Executor.Local.Success.{IsReady, local_execute_succeeds_iff}
use that_goes_there.Plan.TaskSet.Runnable.{plan-IsRunnable}
use that_goes_there.Executor.Ssh.Execute.{ssh_execute_outcomes}
use that_goes_there.Executor.Ssh.Blocked.{announced, execute_counted-refused}
use that_goes_there.Tests.Samples.{
  one_word, quoted, uptime, chores, chores_plan, site, server, unbounded, workstation, reachable,
  bare, failing, some_ne_none,
}
use that_goes_there.Tests.Plans.{planned}

-- An executor at its start.
abbrev pub idle : {A : Type 0} → State (List PartialLogStream) (List A)
idle = record { chan = []; tasks_completed = 0; world = [] }

ssh_execute_outcomes_example :
    Meets
      (Ssh.Outcomes.ExecutePost quoted unbounded reachable chores_plan false 0 [])
      (Ssh.execute quoted unbounded reachable server "web1" chores_plan idle)
ssh_execute_outcomes_example =
    ssh_execute_outcomes quoted unbounded reachable server "web1" chores_plan idle refl
      (omega arith)

local_execute_outcomes_example :
    Meets
      (Local.Execute.ExecutePost quoted unbounded workstation chores_plan 0 [])
      (Local.execute quoted unbounded workstation chores_plan idle)
local_execute_outcomes_example =
    local_execute_outcomes quoted unbounded workstation chores_plan idle refl (omega arith)

execute-planned_never_panics_example :
    (Local.execute quoted unbounded workstation (plan_for_host chores_plan "web1" site) idle).0
    ≢ panic index_out_of_bounds
execute-planned_never_panics_example =
    execute-planned_never_panics quoted unbounded workstation one_word chores chores_plan "web1"
      site idle index_out_of_bounds planned

no_uptime : (Local.ensure_task quoted unbounded bare uptime idle).0 ≡ ok (exe_exists "uptime" ∷ [])
unfolding Local.ensure_task Local.ensure_from ◌>>=◌ Local.sink_one on_chan Stream.sink_one
    Stream.sink Local.check on_world
no_uptime = refl

local_blocked_example :
    ((r : Report) × ((Local.execute_task quoted unbounded bare uptime idle).0 ≡ err r))
    × ((Local.execute_task quoted unbounded bare uptime idle).1.world ≡ [])
    × ((Local.execute_task quoted unbounded bare uptime idle).1.tasks_completed ≡ 0)
local_blocked_example =
    execute_task-blocked quoted unbounded bare uptime (exe_exists "uptime") [] idle no_uptime

-- The first line of log, and what is left behind it.
first_line : (announced quoted unbounded failing uptime idle).0 ≡ ok 1
unfolding Ssh.sink_one on_chan Stream.sink_one Stream.sink
first_line = refl

no_remote_uptime :
    (Ssh.ensure_task quoted unbounded failing uptime
      (announced quoted unbounded failing uptime idle).1).0
    ≡ ok (exe_exists "uptime" ∷ [])
unfolding Ssh.ensure_task Ssh.ensure_from ◌>>=◌ Ssh.sink_one on_chan Stream.sink_one Stream.sink
    Ssh.check Ssh.execute_command Ssh.open_channel Ssh.send_command Ssh.wait_frames on_world
    Ssh.passes
no_remote_uptime = refl

ssh_refused_example :
    ((r : Report) × ((Ssh.execute_counted quoted unbounded failing uptime idle).0 ≡ err r))
    × ((Ssh.execute_counted quoted unbounded failing uptime idle).1.world
        ≡ map Ssh.probe uptime.ensures)
    × ((Ssh.execute_counted quoted unbounded failing uptime idle).1.tasks_completed ≡ 0)
ssh_refused_example =
    execute_counted-refused quoted unbounded failing uptime 1 (exe_exists "uptime") [] idle
      first_line no_remote_uptime

-- What a reading task may do with logs: keep them.
abbrev keep : List String → List String → List String
keep logs seen = seen ++ logs

abbrev messages : List PartialLogStream
messages = next ("a" ∷ []) ∷ next ("b" ∷ "c" ∷ []) ∷ end ∷ []

-- A host with one directory, no file and no executable.
abbrev one_dir : String → ℕ
one_dir c = if str_eq c "test -d \"/srv\"" then 0 else 1

abbrev bare_host : Ssh.Remote
bare_host = record reachable {
  exec = λ c w. (some (exit_status (one_dir c) ∷ []), w ++ c ∷ []);
  executed-exec = λ c w fs h. refl;
  executed-exec_fails = λ c w h. some_ne_none h;
}

abbrev deploy : PlannedTask
deploy = record uptime {
  ensures = directory_exists "/srv" ∷ exe_exists "uptime" ∷ directory_doesnt_exist "/srv" ∷ [];
}

ensure_task-failing_example :
    (Ssh.ensure_task quoted unbounded bare_host deploy idle).0
    ≡ ok (exe_exists "uptime" ∷ directory_doesnt_exist "/srv" ∷ [])
ensure_task-failing_example =
    ensure_task-failing (λ p. one_dir ("test -d \"" <> (p <> "\"")) == 0)
      (λ p. one_dir ("test -f \"" <> (p <> "\"")) == 0)
      (λ e. one_dir ("which \"" <> (e <> "\"")) == 0) quoted unbounded bare_host one_dir
      (λ m c. refl) (λ w. refl) (λ c w. (exit_status (one_dir c) ∷ [], refl, refl)) (λ p h. refl)
      (λ p h. refl) (λ e h. refl) deploy (refl, (refl, (refl, tt))) idle

local_execute_succeeds_example :
    ((Local.execute quoted unbounded workstation chores_plan idle).0 ≡ ok tt)
    ↔ All
        (IsReady
          (λ p. some directory)
          (λ e. true)
          quoted
          unbounded
          workstation
          (λ m c. refl)
          (λ p w. refl)
          (λ e w. refl)
          (λ c args w. (_, refl)))
        chores_plan.blueprint
local_execute_succeeds_example =
    local_execute_succeeds_iff (λ p. some directory) (λ e. true) quoted unbounded workstation
      (λ m c. refl) (λ p w. refl) (λ e w. refl) (λ c args w. (_, refl)) chores_plan idle
      (plan-IsRunnable one_word chores chores_plan planned)
