-- ===== src/Plan/TaskSet.antt =====
-- `TaskSet` of libthere/src/plan/mod.rs, and its planning.
pub mod Compile
pub mod Runnable
use that_goes_there.Prelude.{String, Option, List, [], ◌∷◌, ◌++◌}
use that_goes_there.Outcome.{Outcome, ok, ◌>>=◌}
use that_goes_there.Exec.{Exec, for_each}
use that_goes_there.Plan.Task
use that_goes_there.Plan.Task.{Task, Plan}
use that_goes_there.Plan.Visitor
use that_goes_there.Plan.Visitor.{PlanningTaskVisitor, visit_task}

pub record TaskSet : Type 0 where
  pub name : String
  pub tasks : List Task

unfoldable pub new : String → TaskSet
new n = record { name = n; tasks = [] }

unfoldable pub add_task : TaskSet → Task → TaskSet
add_task ts t = record ts { tasks = ts.tasks ++ t ∷ [] }

module _ (split : String → Option (List String)) where
  -- `Task::accept`
  unfoldable pub accept : Task → Exec PlanningTaskVisitor Unit
  accept t = visit_task split t

  unfoldable pub plan : TaskSet → Outcome Plan
  unfolding for_each accept Visitor.new Task.new
  plan ts =
      let visited = for_each accept ts.tasks (Visitor.new ts.name) in
      do done ← visited.0; ok (Task.new ts.name visited.1.plan)
