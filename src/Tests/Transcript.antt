-- ===== src/Tests/Transcript.antt =====
-- The messages of a local run, those of the test of libthere/src/executor/simple.rs, and of a
-- remote one.
use that_goes_there.Prelude.{
  String, ◌<>◌, List, ◌≡◌, refl, arith, true, some, none, [], ◌∷◌, ◌++◌, str_eq, if◌then◌else◌,
  Option,
}
use that_goes_there.Text.{decimal}
use that_goes_there.Outcome.{ok}
use that_goes_there.Plan.Task.{Plan, command}
use that_goes_there.Plan.TaskSet.{TaskSet, plan}
use that_goes_there.Plan.TaskSet.Runnable.{plan-IsRunnable}
use that_goes_there.Plan.Visitor.{visit_task}
use that_goes_there.Executor.Stream.{next, end}
use that_goes_there.Executor.State.{debug_ensure}
use that_goes_there.Executor.Local.{Machine, Round, directory, stdout, text, closed, execute}
use that_goes_there.Executor.Local.Heard.{GivesAll, transcript}
use that_goes_there.Executor.Local.Transcript.Whole.{execute-transcript}
use that_goes_there.Text.{split_on}
use that_goes_there.Executor.Ssh
use that_goes_there.Executor.Ssh.{Frame, payload, exit_status, Remote}
use that_goes_there.Executor.Ssh.Transcript.Whole.{ssh_execute-transcript}
use that_goes_there.Tests.Samples.{uptime, server, reachable, unbounded, workstation, some_ne_none}
use that_goes_there.Tests.Runs.{idle}

-- The part of the chores for one host.
abbrev web1_plan : Plan
web1_plan = record { name = "chores"; blueprint = uptime ∷ [] }

abbrev debug_str : String → String
debug_str s = "\"" <> (s <> "\"")

abbrev words : String → Option (List String)
words s = if str_eq s "echo 'hello'" then some ("echo" ∷ "hello" ∷ []) else none

abbrev greeting : TaskSet
greeting = record { name = "test"; tasks = command "test" "echo 'hello'" [] ∷ [] }

-- What a child gives the loop to read depends on what was started before: the first is heard, a later
-- one is gone before it is.
abbrev hello : List (List String) → List Round
hello [] = stdout (text "hello\n") ∷ closed ∷ []
hello (w ∷ ws) = []

abbrev greeter : Machine
greeter = record workstation {
  spawn = λ c args w. (some (hello w), w ++ (c ∷ args) ∷ []);
  commands-spawn = λ c args w rounds h. refl;
  commands-spawn_fails = λ c args w h. some_ne_none h;
}

greeting_plan : (p : Plan) × (plan words greeting ≡ ok p)
unfolding plan visit_task
greeting_plan = (_, refl)

execute-transcript_example :
    ((execute debug_str unbounded greeter greeting_plan.0 idle).0 ≡ ok tt)
    × (reads : List (List Round)) × GivesAll greeter [] greeting_plan.0.blueprint reads
    × ((execute debug_str unbounded greeter greeting_plan.0 idle).1.chan
        ≡ transcript debug_str unbounded greeter greeting_plan.0 reads)
unfolding greeting_plan
execute-transcript_example =
    execute-transcript (λ p. some directory) (λ e. true) debug_str unbounded greeter (λ m c. refl)
      (λ p w. refl) (λ e w. refl) (λ c args w. (hello w, refl)) greeting_plan.0 idle refl
      (omega arith) (((plan-IsRunnable words greeting greeting_plan.0 greeting_plan.1).0, refl), tt)

-- A remote host on which every command says two lines and exits with the status 0.
abbrev answer : String → List Frame
answer c = payload (Ssh.text "up\nrunning") ∷ exit_status 0 ∷ []

abbrev talkative : Remote
talkative = record reachable {
  exec = λ c w. (some (answer c), w ++ c ∷ []);
  executed-exec = λ c w fs h. refl;
  executed-exec_fails = λ c w h. some_ne_none h;
}

ssh_execute-transcript_example :
    ((Ssh.execute debug_str unbounded talkative server "web1" web1_plan idle).0 ≡ ok tt)
    × ((Ssh.execute debug_str unbounded talkative server "web1" web1_plan idle).1.chan
        ≡ next ("* steps: 1" ∷ [])
          ∷ next ("** executing task: uptime" ∷ [])
          ∷ next ("* ensuring ExeExists { exe: \"uptime\" }" ∷ [])
          ∷ next ("up" ∷ "running" ∷ [])
          ∷ next ("* executing task: uptime" ∷ [])
          ∷ next ("up" ∷ "running" ∷ [])
          ∷ next ("" ∷ [])
          ∷ next ("*** finished applying plan: chores -> web1 (1/1)" ∷ [])
          ∷ end
          ∷ [])
unfolding decimal debug_ensure split_on Ssh.finished_line Ssh.passes
ssh_execute-transcript_example =
    ssh_execute-transcript answer (λ c. 0) debug_str unbounded talkative (λ m c. refl) (λ w. refl)
      (λ c w. refl) (λ c. refl) (λ a w. refl) (λ u w. refl) server "web1" web1_plan idle refl
      (omega arith) (refl, tt)
