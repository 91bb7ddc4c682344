-- ===== src/Plan/Visitor.antt =====
-- libthere/src/plan/visitor.rs: the visitor that compiles tasks into planned tasks.
use that_goes_there.Prelude.{String, Option, none, some, List, [], ◌∷◌, ◌++◌}
use that_goes_there.Text.FilePath.{parent}
use that_goes_there.Outcome.{Outcome, ok, panic, unwrap_on_none}
use that_goes_there.Exec.{Exec, lift, modify, ◌>>=◌}
use that_goes_there.Plan.Task.{
  Task, command, create_directory, touch_file, hosts, directory_exists, exe_exists, PlannedTask,
  words_or_err, from_shell_command,
}

pub record PlanningTaskVisitor : Type 0 where
  pub name : String
  pub plan : List PlannedTask

unfoldable pub new : String → PlanningTaskVisitor
new n = record { name = n; plan = [] }

-- `self.plan.push(…)`
unfoldable pub push : PlannedTask → Exec PlanningTaskVisitor Unit
push t = modify (λ v. record v { plan = v.plan ++ t ∷ [] })

abbrev pub unwrap : Option String → Outcome String
unwrap none = panic unwrap_on_none
unwrap (some s) = ok s

module _ (split : String → Option (List String)) where
  unfoldable pub visit_task : Task → Exec PlanningTaskVisitor Unit
  unfolding push ◌>>=◌ from_shell_command hosts
  visit_task (command n c hs) = do
    final_command ← lift (words_or_err (split c))
    planned ← lift (from_shell_command split n c (hosts (command n c hs)))
    push planned
  visit_task (create_directory n p hs) = push (record {
    name = n;
    command = "mkdir" ∷ p ∷ [];
    ensures = directory_exists p ∷ [];
    hosts = hosts (create_directory n p hs);
  })
  visit_task (touch_file n p hs) = do
    dir ← lift (unwrap (parent p))
    push (record {
      name = n;
      command = "touch" ∷ p ∷ [];
      ensures = exe_exists "touch" ∷ directory_exists dir ∷ [];
      hosts = hosts (touch_file n p hs);
    })
