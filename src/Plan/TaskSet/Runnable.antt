-- ===== src/Plan/TaskSet/Runnable.antt =====
-- What holds of every plan that the planner returns.
pub mod Positive
use mathlib.Core.List.{Memᴰ}
use that_goes_there.Prelude.{
  String, arith, ◌≡◌, ◌↔◌, ◌⊎◌, inl, inr, refl, sym, ap, ◌∙◌, Option, none, some, List, [], ◌∷◌,
  ◌++◌, map, All, All-weaken,
}
use that_goes_there.Text.FilePath.{parent}
use that_goes_there.Outcome.{ok, panic, index_out_of_bounds, bind-ok, ok-injective, traverse}
use that_goes_there.Outcome.Traverse.{
  traverse-All, map-traverse, traverse_total, traverse_steps, traverse_panic,
}
use that_goes_there.Plan.Task
use that_goes_there.Plan.Task.{
  Task, command, create_directory, touch_file, directory_exists, exe_exists, PlannedTask, Plan,
  from_shell_command,
}
use that_goes_there.Plan.TaskSet.{TaskSet, plan}
use that_goes_there.Plan.TaskSet.Compile.{compile, plan-traverse}

-- A command of at least one word, whose first word is an executable that is checked for before,
-- unless it is `mkdir`.
pub record IsRunnable (t : PlannedTask) : Type 0 where
  pub exe : String
  pub args : List String
  pub words : t.command ≡ exe ∷ args
  pub checked : (exe ≡ "mkdir") ⊎ Memᴰ (exe_exists exe) t.ensures

module _ (split : String → Option (List String)) where
  -- A task that the planner can compile.
  abbrev pub IsPlannable : Task → Type 0
  IsPlannable (command n c hs) = (w : String) × (ws : List String) × (split c ≡ some (w ∷ ws))
  IsPlannable (create_directory n p hs) = Unit
  IsPlannable (touch_file n p hs) = (dir : String) × (parent p ≡ some dir)

  blueprint-traverse :
      (ts : TaskSet) (p : Plan)
      → plan split ts ≡ ok p
      → (traverse (compile split) ts.tasks ≡ ok p.blueprint) × (p.name ≡ ts.name)
  unfolding Task.new
  blueprint-traverse ts p h =
      let (blueprint, e, k) =
        bind-ok (traverse (compile split) ts.tasks) _ (sym (plan-traverse split ts) ∙ h) in
      let same = ok-injective k in (e ∙ ap (λ q. ok q.blueprint) same, ap (λ q. q.name) (sym same))

  compile-same :
      (t : Task) (q : PlannedTask)
      → compile split t ≡ ok q
      → (q.name ≡ Task.name t) × (q.hosts ≡ Task.hosts t)
  unfolding compile from_shell_command Task.name Task.hosts
  compile-same (command n c hs) q h = ground arith
  compile-same (create_directory n c hs) q h = ground arith
  compile-same (touch_file n c hs) q h = ground arith

  compile-command :
      (n c : String) (hs : List String) (o : Option (List String)) (q : PlannedTask)
      → split c ≡ o
      → compile split (command n c hs) ≡ ok q
      → (w : String) × (ws : List String) × (o ≡ some (w ∷ ws))
        × (q ≡ record { name = n; command = w ∷ ws; ensures = exe_exists w ∷ []; hosts = hs })
  unfolding compile from_shell_command
  compile-command n c hs none q e h = absurd (ground arith)
  compile-command n c hs (some []) q e h = absurd (ground arith)
  compile-command n c hs (some (w ∷ ws)) q e h = (w, ws, refl, ground arith)

  compile-touch_file :
      (n p : String) (hs : List String) (o : Option String) (q : PlannedTask)
      → parent p ≡ o
      → compile split (touch_file n p hs) ≡ ok q
      → (dir : String) × (o ≡ some dir)
        × (q ≡ record {
          name = n;
          command = "touch" ∷ p ∷ [];
          ensures = exe_exists "touch" ∷ directory_exists dir ∷ [];
          hosts = hs;
        })
  unfolding compile
  compile-touch_file n p hs none q e h = absurd (ground arith)
  compile-touch_file n p hs (some dir) q e h = (dir, refl, ground arith)

  created :
      (n p : String) (hs : List String) (q : PlannedTask)
      → compile split (create_directory n p hs) ≡ ok q
      → record {
        name = n;
        command = "mkdir" ∷ p ∷ [];
        ensures = directory_exists p ∷ [];
        hosts = hs;
      }
        ≡ q
  unfolding compile
  created n p hs q h = ok-injective h

  compile-IsRunnable : (t : Task) (q : PlannedTask) → compile split t ≡ ok q → IsRunnable q
  compile-IsRunnable (command n c hs) q h =
      let (w, ws, e, s) = compile-command n c hs (split c) q refl h in
      rw s (record { exe = w; args = ws; words = refl; checked = inr (Memᴰ.head refl) })
  compile-IsRunnable (create_directory n p hs) q h =
      rw (← created n p hs q h)
        (record { exe = "mkdir"; args = p ∷ []; words = refl; checked = inl refl })
  compile-IsRunnable (touch_file n p hs) q h =
      let (dir, e, s) = compile-touch_file n p hs (parent p) q refl h in
      rw s (record { exe = "touch"; args = p ∷ []; words = refl; checked = inr (Memᴰ.head refl) })

  compile-of-IsPlannable : (t : Task) → IsPlannable t → (q : PlannedTask) × (compile split t ≡ ok q)
  unfolding compile from_shell_command
  compile-of-IsPlannable (command n c hs) (w, ws, e) =
      (record { name = n; command = w ∷ ws; ensures = exe_exists w ∷ []; hosts = hs }, rw e)
  compile-of-IsPlannable (create_directory n p hs) h = (_, refl)
  compile-of-IsPlannable (touch_file n p hs) (dir, e) = (
    record {
      name = n;
      command = "touch" ∷ p ∷ [];
      ensures = exe_exists "touch" ∷ directory_exists dir ∷ [];
      hosts = hs;
    },
    rw e,
  )

  IsPlannable-of-compile : (t : Task) → (q : PlannedTask) × (compile split t ≡ ok q) → IsPlannable t
  IsPlannable-of-compile (command n c hs) (q, h) =
      let (w, ws, e, s) = compile-command n c hs (split c) q refl h in (w, ws, e)
  IsPlannable-of-compile (create_directory n p hs) h = tt
  IsPlannable-of-compile (touch_file n p hs) (q, h) =
      let (dir, e, s) = compile-touch_file n p hs (parent p) q refl h in (dir, e)

  -- A plan has one planned task for each task, in order, with the name and the hosts of the task,
  -- and the name of the task set.
  pub plan_faithful :
      (ts : TaskSet) (p : Plan)
      → plan split ts ≡ ok p
      → (p.name ≡ ts.name)
        × (map (λ (t : PlannedTask). t.name) p.blueprint ≡ map Task.name ts.tasks)
        × (map (λ (t : PlannedTask). t.hosts) p.blueprint ≡ map Task.hosts ts.tasks)
  plan_faithful ts p h =
      let (e, n) = blueprint-traverse ts p h in
      (
        n,
        map-traverse (compile split) _ Task.name (λ t q k. (compile-same t q k).0) _ _ e,
        map-traverse (compile split) _ Task.hosts (λ t q k. (compile-same t q k).1) _ _ e,
      )

  -- Every task of a plan has a command of at least one word, and its prerequisites name the
  -- executable that it runs, unless that is `mkdir`.
  pub plan-IsRunnable :
      (ts : TaskSet) (p : Plan) → plan split ts ≡ ok p → All IsRunnable p.blueprint
  plan-IsRunnable ts p h =
      traverse-All (compile split) IsRunnable compile-IsRunnable _ _ (blueprint-traverse ts p h).0

  -- Planning succeeds exactly when each command splits into at least one word and each file to
  -- touch has a parent directory.
  pub plan_succeeds_iff :
      (ts : TaskSet) → All IsPlannable ts.tasks ↔ ((p : Plan) × (plan split ts ≡ ok p))
  plan_succeeds_iff ts = (
    λ h.
        let (qs, e) =
          traverse_total (compile split) ts.tasks (All-weaken ts.tasks compile-of-IsPlannable h) in
        (Task.new ts.name qs, plan-traverse split ts ∙ rw e),
    λ (p, h).
        All-weaken ts.tasks IsPlannable-of-compile
          (traverse_steps (compile split) ts.tasks p.blueprint (blueprint-traverse ts p h).0),
  )

  compile-no_words :
      (n c : String) (hs : List String)
      → split c ≡ some []
      → compile split (command n c hs) ≡ panic index_out_of_bounds
  unfolding compile from_shell_command
  compile-no_words n c hs e = rw e

  -- A command that splits into no word, behind tasks that can be planned, makes the planner panic.
  pub plan-no_words :
      (n : String) (ts : List Task) (name c : String) (hs : List String) (rest : List Task)
      → All IsPlannable ts
      → split c ≡ some []
      → plan split (record { name = n; tasks = ts ++ command name c hs ∷ rest })
        ≡ panic index_out_of_bounds
  plan-no_words n ts name c hs rest h e =
      plan-traverse split _
      ∙ rw (
          traverse_panic (compile split) ts (command name c hs) rest index_out_of_bounds
            (All-weaken ts compile-of-IsPlannable h) (compile-no_words name c hs e))
