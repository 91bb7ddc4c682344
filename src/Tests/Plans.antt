-- ===== src/Tests/Plans.antt =====
-- The planner's theorems at small plans.
use mathlib.Core.List.{Memᴰ}
use that_goes_there.Prelude.{String, List, ◌≡◌, ◌↔◌, refl, some, [], ◌∷◌, ◌<>◌, All}
use that_goes_there.Text.{split_on}
use that_goes_there.Text.FilePath.{parent, as_path}
use that_goes_there.Text.FilePath.Parent.{IsName, parent-append}
use that_goes_there.Outcome.{ok, traverse, ◌>>=◌}
use that_goes_there.Plan.Task
use that_goes_there.Plan.Task.{Task, Plan}
use that_goes_there.Plan.Visitor.{visit_task}
use that_goes_there.Plan.TaskSet.{plan}
use that_goes_there.Plan.TaskSet.Compile.{compile, plan-traverse}
use that_goes_there.Plan.TaskSet.Runnable.{
  IsRunnable, IsPlannable, plan-IsRunnable, plan_succeeds_iff,
}
use that_goes_there.Plan.ForHost.{plan_for_host}
use that_goes_there.Plan.ForHost.Targets.{Targets, Holds}
use that_goes_there.Plan.ForHost.Unordered.{plan_for_host-unordered}
use that_goes_there.Plan.ForHost.Laws.{plan_for_host-mem}
use that_goes_there.Tests.Samples.{one_word, uptime, chores, chores_plan, site}

-- The planner's answer for the chores.
pub planned : plan one_word chores ≡ ok chores_plan
unfolding plan visit_task
planned = refl

-- A host of a group gets the tasks of the group.
selected :
    plan_for_host chores_plan "web1" site ≡ record { name = "chores"; blueprint = uptime ∷ [] }
unfolding plan_for_host
selected = refl

plan-traverse_example :
    plan one_word chores
    ≡ (do blueprint ← traverse (compile one_word) chores.tasks; ok (Task.new chores.name blueprint))
plan-traverse_example = plan-traverse one_word chores

plan_succeeds_example :
    All (IsPlannable one_word) chores.tasks ↔ ((p : Plan) × (plan one_word chores ≡ ok p))
plan_succeeds_example = plan_succeeds_iff one_word chores

plan-IsRunnable_example : All IsRunnable chores_plan.blueprint
plan-IsRunnable_example = plan-IsRunnable one_word chores chores_plan planned

plan_for_host-mem_example :
    Memᴰ uptime (plan_for_host chores_plan "web1" site).blueprint
    ↔ (Memᴰ uptime chores_plan.blueprint × Targets site "web1" uptime)
plan_for_host-mem_example = plan_for_host-mem chores_plan "web1" site uptime

log-IsName : IsName "log"
unfolding split_on
log-IsName = record { whole = refl; not_blank = refl }

parent_example : parent ("/var//" <> ("/" <> "log")) ≡ some (as_path "/var//")
parent_example = parent-append "/var//" "log" (λ h. absurd (cc)) log-IsName

-- Two groups in either order.
swapped :
    (x y : String × List String) (host name : String)
    → Holds (x ∷ y ∷ []) host name
    → Holds (y ∷ x ∷ []) host name
swapped x y host name (members, Memᴰ.head e, h) = (members, Memᴰ.tail (Memᴰ.head e), h)
swapped x y host name (members, Memᴰ.tail (Memᴰ.head e), h) = (members, Memᴰ.head e, h)
swapped x y host name (members, Memᴰ.tail (Memᴰ.tail m), h) = elim m [ ]

plan_for_host-unordered_example :
    plan_for_host chores_plan "web1" site
    ≡ plan_for_host chores_plan "web1"
        (record site { groups = ("all", "web1" ∷ "db1" ∷ []) ∷ ("web", "web1" ∷ []) ∷ [] })
plan_for_host-unordered_example =
    plan_for_host-unordered chores_plan "web1" site
      (record site { groups = ("all", "web1" ∷ "db1" ∷ []) ∷ ("web", "web1" ∷ []) ∷ [] })
      (λ host name. (swapped _ _ host name, swapped _ _ host name))
