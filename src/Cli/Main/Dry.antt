-- ===== src/Cli/Main/Dry.antt =====
-- A dry run behind a validation.
use that_goes_there.Prelude.{
  String, ◌≡◌, refl, sym, ap, ◌∙◌, true, Option, some, List, [], ◌∷◌, All, ℕ,
}
use that_goes_there.Outcome.{Report, Outcome, ok}
use that_goes_there.Ipc.{JobState}
use that_goes_there.Exec.Returns.{Returns, bind-Returns, for_each-Returns}
use that_goes_there.Plan.Task.{PlannedTask, Plan}
use that_goes_there.Plan.Host.{HostConfig}
use that_goes_there.Plan.TaskSet.{TaskSet}
use that_goes_there.Cli.Hosts.{print_ensure, print_task, dry_run}
use that_goes_there.Cli.Hosts.Validated.{
  Any, IsComplete, IsValid, valid-read, print-Returns, inspect_host_group-Returns, returned-IsValid,
}
use that_goes_there.Cli.Apply.{Future, subcommand_apply}
use that_goes_there.Cli.Main.{ArgMatches, Ran, validate_by, apply_by, main, run, there_cli}

every : {A : Type 0} (xs : List A) → All Any xs
every [] = tt
every (x ∷ xs) = (tt, every xs)

module _ (debug_str : String → String) where
  print_task-Returns : (t : PlannedTask) → Returns Any (print_task debug_str t)
  unfolding print_task print_ensure
  print_task-Returns t =
      bind-Returns _ _ (print-Returns _)
        λ _ _. for_each-Returns {P = Any} _ t.ensures (every t.ensures) λ e _. print-Returns _

  dry_run-Returns :
      (plan : Plan) (hosts : HostConfig)
      → IsComplete hosts
      → Returns Any (dry_run debug_str plan hosts)
  unfolding dry_run
  dry_run-Returns plan hosts complete = bind-Returns _ _ (print-Returns _) λ _ _.
      bind-Returns _ _ (print-Returns _) λ _ _. bind-Returns _ _ (print-Returns _) λ _ _.
        bind-Returns _ _
          (for_each-Returns _ hosts.groups complete (inspect_host_group-Returns hosts.hosts))
          λ _ _.
            for_each-Returns {P = Any} _ plan.blueprint (every plan.blueprint)
              λ t _. print_task-Returns t

returned_pair : {A : Type 0} (r : Outcome (Unit {0}) × A) → r.0 ≡ ok tt → some r ≡ some (ok tt, r.1)
returned_pair (r, a) h = rw h refl

succeeded :
    {out : List String} (r : Outcome (Unit {0}) × List String)
    → some r ≡ some (ok tt, out)
    → r.0 ≡ ok tt
succeeded r h = ap (λ (q : Outcome (Unit {0}) × List String). q.0) (unwrap h)
  where
    unwrap : {A : Type 0} {a b : A} → some a ≡ some b → a ≡ b
    unwrap k = cc

module _ (X : ArgMatches) (debug_str : String → String) (pretty : Report → String)
    (split : String → Option (List String)) (read : String → Outcome String)
    (parse_hosts : String → Outcome HostConfig) (parse_tasks : String → Outcome TaskSet)
    (start : String → Plan → HostConfig → Outcome String)
    (answers : String → String → List (Outcome JobState))
    (results : List Future → List (Outcome (String × ℕ))) where
  open X use {Matches, subcommand, get_one, get_flag}

  -- `there-cli plan …` with the subcommand `name` and its arguments.
  pub record IsPlanCommand (m : Matches) (name : String) (args : Matches) : Type 0 where
    pub plan : Matches
    pub is_plan : subcommand m ≡ some ("plan", plan)
    pub is_command : subcommand plan ≡ some (name, args)

  abbrev pub cli : Matches → Ran
  cli = there_cli X debug_str pretty split read parse_hosts parse_tasks start answers results

  cli-command :
      (m : Matches) (name : String) (args : Matches)
      → IsPlanCommand m name args
      → cli m
        ≡ run X
            (validate_by X debug_str pretty split read parse_hosts parse_tasks start answers
              results)
            (apply_by X debug_str pretty split read parse_hosts parse_tasks start answers results)
            (some (name, args))
  unfolding there_cli main
  cli-command m name args h = rw (h.is_plan, h.is_command) refl

  -- A valid pair of files gives a dry run.
  dry-Returns :
      (controller : Option String) (file_arg hosts_arg : Option String)
      → IsValid split read parse_hosts parse_tasks file_arg hosts_arg
      → (lines : List String) × (subcommand_apply debug_str pretty split read parse_hosts
            parse_tasks start answers results true controller file_arg hosts_arg
          ≡ some (ok tt, lines))
  unfolding subcommand_apply
  dry-Returns controller file_arg hosts_arg v =
      let (_, e, _) = (dry_run-Returns debug_str v.plan v.hosts v.complete).at [] in
      (
        (dry_run debug_str v.plan v.hosts []).1,
        rw (valid-read split read parse_hosts parse_tasks v) (returned_pair _ e),
      )

  -- If `there-cli plan validate` ends without an error, then `there-cli plan apply --dry` with the
  -- same two files, whatever its other arguments are, does so too, while the files stay as they are.
  pub there_cli-validated :
      (m v n a : Matches) (out : List String)
      → IsPlanCommand m "validate" v
      → IsPlanCommand n "apply" a
      → get_flag a "dry" ≡ true
      → get_one v "file" ≡ get_one a "file"
      → get_one v "hosts" ≡ get_one a "hosts"
      → cli m ≡ some (ok tt, out)
      → (lines : List String) × (cli n ≡ some (ok tt, lines))
  unfolding run
  there_cli-validated m v n a out is_validate is_apply dry file hosts h =
      let accepted = succeeded _ (sym (cli-command m "validate" v is_validate) ∙ h) in
      let valid = returned-IsValid split read parse_hosts parse_tasks _ _ [] accepted in
      let (lines, e) =
        dry-Returns (get_one a "controller") (get_one v "file") (get_one v "hosts") valid in
      (lines, cli-command n "apply" a is_apply ∙ rw (dry, ← file, ← hosts) e)
