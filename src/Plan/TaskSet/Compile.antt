-- ===== src/Plan/TaskSet/Compile.antt =====
-- The planner meets a specification with no state: each task is compiled on its own, in order.
use mathlib.Core.List.{append-nil, append_assoc}
use that_goes_there.Prelude.{String, arith, ◌≡◌, refl, sym, ap, ◌∙◌, Option, List, [], ◌∷◌, ◌++◌}
use that_goes_there.Text.FilePath.{parent}
use that_goes_there.Outcome.{Outcome, ok, err, panic, ◌>>=◌, traverse}
use that_goes_there.Exec.{resume, for_each}
use that_goes_there.Plan.Task
use that_goes_there.Plan.Task.{
  Task, command, create_directory, touch_file, directory_exists, exe_exists, PlannedTask,
  from_shell_command,
}
use that_goes_there.Plan.Visitor
use that_goes_there.Plan.Visitor.{PlanningTaskVisitor, unwrap, visit_task}
use that_goes_there.Plan.TaskSet.{TaskSet, accept, plan}

module _ (split : String → Option (List String)) where
  -- What a task is compiled to.
  unfoldable pub compile : Task → Outcome PlannedTask
  compile (command n c hs) = from_shell_command split n c hs
  compile (create_directory n p hs) = ok (record {
    name = n;
    command = "mkdir" ∷ p ∷ [];
    ensures = directory_exists p ∷ [];
    hosts = hs;
  })
  compile (touch_file n p hs) = do
    dir ← unwrap (parent p)
    ok (record {
      name = n;
      command = "touch" ∷ p ∷ [];
      ensures = exe_exists "touch" ∷ directory_exists dir ∷ [];
      hosts = hs;
    })

  -- The visitor after a compilation.
  abbrev collected :
      PlanningTaskVisitor → Outcome PlannedTask → Outcome (Unit {0}) × PlanningTaskVisitor
  collected v (ok t) = (ok tt, record v { plan = v.plan ++ t ∷ [] })
  collected v (err e) = (err e, v)
  collected v (panic p) = (panic p, v)

  accept-compile : (t : Task) (v : PlanningTaskVisitor) → accept split t v ≡ collected v (compile t)
  unfolding accept visit_task compile
  accept-compile (command n c hs) v = ground arith
  accept-compile (create_directory n p hs) v = refl
  accept-compile (touch_file n p hs) v = ground arith

  -- What `plan` takes from the visitor.
  abbrev planned : Outcome (Unit {0}) × PlanningTaskVisitor → Outcome (List PlannedTask)
  planned visited = do done ← visited.0; ok visited.1.plan

  abbrev gathered : PlanningTaskVisitor → Outcome (List PlannedTask) → Outcome (List PlannedTask)
  gathered v r = do ts ← r; ok (v.plan ++ ts)

  regroup :
      (v : PlanningTaskVisitor) (t : PlannedTask) (rest : Outcome (List PlannedTask))
      → gathered (record v { plan = v.plan ++ t ∷ [] }) rest
        ≡ gathered v (do ts ← rest; ok (t ∷ ts))
  regroup v t (ok ts) = ap ok (append_assoc v.plan (t ∷ []) ts)
  regroup v t (err e) = refl
  regroup v t (panic p) = refl

  -- One task, compiled to `r`, in front of tasks for which the claim holds.
  planned-collected :
      (r : Outcome PlannedTask) (ts : List Task) (v : PlanningTaskVisitor)
      → ((w : PlanningTaskVisitor)
          → planned (for_each (accept split) ts w) ≡ gathered w (traverse compile ts))
      → planned (resume (λ _. for_each (accept split) ts) (collected v r).0 (collected v r).1)
        ≡ gathered v (do t ← r; rest ← traverse compile ts; ok (t ∷ rest))
  planned-collected (ok t) ts v ih =
      ih (record v { plan = v.plan ++ t ∷ [] }) ∙ regroup v t (traverse compile ts)
  planned-collected (err e) ts v ih = refl
  planned-collected (panic p) ts v ih = refl

  for_each-gathered :
      (ts : List Task) (v : PlanningTaskVisitor)
      → planned (for_each (accept split) ts v) ≡ gathered v (traverse compile ts)
  unfolding for_each traverse
  for_each-gathered [] v = ap ok (sym (append-nil v.plan))
  for_each-gathered (t ∷ ts) v =
      rw accept-compile (planned-collected (compile t) ts v (for_each-gathered ts))

  as_plan-planned :
      (n : String) (visited : Outcome (Unit {0}) × PlanningTaskVisitor)
      → (do done ← visited.0; ok (Task.new n visited.1.plan))
        ≡ (do ts ← planned visited; ok (Task.new n ts))
  as_plan-planned n (ok done, v) = refl
  as_plan-planned n (err e, v) = refl
  as_plan-planned n (panic p, v) = refl

  gathered-new : (n : String) (r : Outcome (List PlannedTask)) → gathered (Visitor.new n) r ≡ r
  unfolding Visitor.new
  gathered-new n (ok ts) = refl
  gathered-new n (err e) = refl
  gathered-new n (panic p) = refl

  -- Planning a task set compiles each of its tasks, in order, with the first failure or panic for
  -- the whole, and gives the plan the name of the set.
  pub plan-traverse :
      (ts : TaskSet)
      → plan split ts ≡ (do blueprint ← traverse compile ts.tasks; ok (Task.new ts.name blueprint))
  unfolding plan
  plan-traverse ts =
      as_plan-planned ts.name (for_each (accept split) ts.tasks (Visitor.new ts.name))
      ∙ rw (for_each-gathered ts.tasks (Visitor.new ts.name), gathered-new)
