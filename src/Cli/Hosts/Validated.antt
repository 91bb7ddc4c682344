-- ===== src/Cli/Hosts/Validated.antt =====
-- When `validate` accepts, and what that promises of `apply`.
use that_goes_there.Prelude.{
  String, ℕ, ◌≡◌, ◌↔◌, refl, ap, Option, none, some, List, [], ◌∷◌, All, All-weaken, All-append,
}
use that_goes_there.Outcome.{Report, Outcome, ok, ok-injective}
use that_goes_there.Exec.{lift, modify}
use that_goes_there.Exec.Returns.{
  Returns, bind-Returns, for_each-Returns, bind-returned, for_each-returned,
}
use that_goes_there.Plan.Task.{PlannedTask, Plan}
use that_goes_there.Plan.Host.{Host, HostConfig, get}
use that_goes_there.Plan.TaskSet
use that_goes_there.Plan.TaskSet.{TaskSet}
use that_goes_there.Controller.Prepare.{Assignment, apply_plan}
use that_goes_there.Controller.Prepare.Assignments.{
  share, member_shares, group_shares, IsKnown, IsSettled, apply_plan_succeeds_iff,
}
use that_goes_there.Cli.Args.{read_argument_with_validator}
use that_goes_there.Cli.Files.{read_hosts_config, read_plan}
use that_goes_there.Cli.Hosts.{
  Console, print, found_or_err, inspect_host, inspect_host_group, subcommand_validate,
}

abbrev pub Any : {A : Type 0} → A → Type 0
Any a = Unit

-- The host map has the host.
abbrev pub IsFound : List (String × Host) → String → Type 0
IsFound hosts hostname = (host : Host) × (get hosts hostname ≡ some host)

-- The host map has every member of every group.
abbrev pub IsComplete : HostConfig → Type 0
IsComplete hosts = All (λ g. All (IsFound hosts.hosts) g.1) hosts.groups

pub print-Returns : (s : String) → Returns Any (print s)
unfolding print modify
print-Returns s = record { at = λ out. (tt, refl, tt) }

lift-Returns :
    {A : Type 0} (r : Outcome A) (a : A) → r ≡ ok a → Returns {S = Console} (λ b. b ≡ a) (lift r)
unfolding lift
lift-Returns r a h = record { at = λ out. (a, h, refl) }

module _ (hosts : List (String × Host)) where
  inspect_host-Returns : (h : String) → IsFound hosts h → Returns Any (inspect_host hosts h)
  unfolding inspect_host
  inspect_host-Returns h (host, e) =
      bind-Returns _ _ (lift-Returns _ host (rw e refl)) λ _ _. print-Returns _

  inspect_host-IsFound :
      (h : String) (out : Console) → (inspect_host hosts h out).0 ≡ ok tt → IsFound hosts h
  unfolding inspect_host lift
  inspect_host-IsFound h out e =
      let (host, found, _) = bind-returned (lift (found_or_err h (get hosts h))) _ out e in
      (host, by_option (get hosts h) found)
    where
      by_option : {host : Host} (o : Option Host) → found_or_err h o ≡ ok host → o ≡ some host
      by_option none k = absurd (cc)
      by_option (some x) k = ap some (ok-injective k)

  pub inspect_host_group-Returns :
      (g : String × List String)
      → All (IsFound hosts) g.1
      → Returns Any (inspect_host_group hosts g)
  unfolding inspect_host_group
  inspect_host_group-Returns g h =
      bind-Returns _ _ (print-Returns _) λ _ _. for_each-Returns _ g.1 h inspect_host-Returns

  inspect_host_group-IsFound :
      (g : String × List String) (out : Console)
      → (inspect_host_group hosts g out).0 ≡ ok tt
      → All (IsFound hosts) g.1
  unfolding inspect_host_group
  inspect_host_group-IsFound g out e =
      let (_, _, k) = bind-returned (print _) _ out e in
      All-weaken g.1 (λ h (u, x). inspect_host-IsFound h u x) (for_each-returned _ g.1 _ k)

module _ (split : String → Option (List String)) (read : String → Outcome String)
    (parse_hosts : String → Outcome HostConfig) (parse_tasks : String → Outcome TaskSet) where
  -- What a valid pair of files is: a hosts file whose groups have only hosts of the host map, and a
  -- plan file that can be planned.
  pub record IsValid (file_arg hosts_arg : Option String) : Type 0 where
    pub file : String
    pub hosts_file : String
    pub hosts : HostConfig
    pub text : String
    pub task_set : TaskSet
    pub plan : Plan
    pub file_given : read_argument_with_validator file_arg "file" (λ _. none) ≡ ok file
    pub hosts_given : read_argument_with_validator hosts_arg "hosts" (λ _. none) ≡ ok hosts_file
    pub hosts_read : read_hosts_config read parse_hosts hosts_file ≡ ok hosts
    pub file_read : read file ≡ ok text
    pub parsed : parse_tasks text ≡ ok task_set
    pub planned : TaskSet.plan split task_set ≡ ok plan
    pub complete : IsComplete hosts

  module _ (file_arg hosts_arg : Option String) (out : Console) where
    valid-Returns :
        IsValid file_arg hosts_arg
        → Returns Any (subcommand_validate split read parse_hosts parse_tasks file_arg hosts_arg)
    unfolding subcommand_validate
    valid-Returns v = bind-Returns _ _ (lift-Returns _ v.file v.file_given) λ a ea.
        bind-Returns _ _ (lift-Returns _ v.hosts_file v.hosts_given) λ b eb.
          bind-Returns _ _ (lift-Returns _ v.hosts (rw eb v.hosts_read)) λ c ec.
            bind-Returns _ _ (lift-Returns _ v.text (rw ea v.file_read)) λ d ed.
              bind-Returns _ _ (lift-Returns _ v.task_set (rw ed v.parsed)) λ e ee.
                bind-Returns _ _ (lift-Returns _ v.plan (rw ee v.planned)) λ f _.
                  bind-Returns _ _ (print-Returns _) λ _ _.
                    bind-Returns _ _ (print-Returns _) λ _ _.
                      for_each-Returns _ c.groups (rw ec v.complete)
                        (inspect_host_group-Returns c.hosts)

    pub returned-IsValid :
        (subcommand_validate split read parse_hosts parse_tasks file_arg hosts_arg out).0 ≡ ok tt
        → IsValid file_arg hosts_arg
    unfolding subcommand_validate lift
    returned-IsValid h =
        let (file, e1, h1) = bind-returned (lift _) _ out h in
        let (hosts_file, e2, h2) = bind-returned (lift _) _ _ h1 in
        let (hosts, e3, h3) = bind-returned (lift _) _ _ h2 in
        let (text, e4, h4) = bind-returned (lift _) _ _ h3 in
        let (task_set, e5, h5) = bind-returned (lift _) _ _ h4 in
        let (plan, e6, h6) = bind-returned (lift _) _ _ h5 in
        let (_, _, h7) = bind-returned (print _) _ _ h6 in
        let (_, _, h8) = bind-returned (print _) _ _ h7 in
        record {
          file = file;
          hosts_file = hosts_file;
          hosts = hosts;
          text = text;
          task_set = task_set;
          plan = plan;
          file_given = e1;
          hosts_given = e2;
          hosts_read = e3;
          file_read = e4;
          parsed = e5;
          planned = e6;
          complete =
              All-weaken hosts.groups (λ g (u, x). inspect_host_group-IsFound hosts.hosts g u x)
                (for_each-returned _ hosts.groups _ h8);
        }

    -- `validate` accepts exactly a plan file that is read, parses and can be planned, with a hosts
    -- file that is read and parses, whose groups name only hosts of its host map.
    pub subcommand_validate_succeeds_iff :
        ((subcommand_validate split read parse_hosts parse_tasks file_arg hosts_arg out).0 ≡ ok tt)
        ↔ IsValid file_arg hosts_arg
    subcommand_validate_succeeds_iff = (returned-IsValid, λ v. ((valid-Returns v).at out).1)

  -- A valid pair of files is read into its plan and hosts.
  pub valid-read :
      {file_arg hosts_arg : Option String} (v : IsValid file_arg hosts_arg)
      → read_plan read parse_hosts split parse_tasks file_arg hosts_arg ≡ ok (v.plan, v.hosts)
  unfolding read_plan
  valid-read v =
      rw (v.file_given)
        (rw v.file_read (rw v.parsed (rw v.hosts_given (rw v.hosts_read (rw v.planned refl)))))

  share-IsKnown :
      (plan : Plan) (hosts : HostConfig) (h : String) (ts : List PlannedTask)
      → IsFound hosts.hosts h
      → All (IsKnown plan hosts) (share plan hosts h ts)
  share-IsKnown plan hosts h [] found = tt
  share-IsKnown plan hosts h (t ∷ ts) found = (found, tt)

  members-IsKnown :
      (plan : Plan) (hosts : HostConfig) (ms : List String)
      → All (IsFound hosts.hosts) ms
      → All (IsKnown plan hosts) (member_shares plan hosts ms)
  members-IsKnown plan hosts [] h = tt
  members-IsKnown plan hosts (m ∷ ms) h =
      All-append _ (share plan hosts m _) (member_shares plan hosts ms)
        (share-IsKnown plan hosts m _ h.0) (members-IsKnown plan hosts ms h.1)

  groups-IsKnown :
      (plan : Plan) (hosts : HostConfig) (gs : List (String × List String))
      → All (λ g. All (IsFound hosts.hosts) g.1) gs
      → All (IsKnown plan hosts) (group_shares plan hosts gs)
  groups-IsKnown plan hosts [] h = tt
  groups-IsKnown plan hosts ((n, ms) ∷ gs) h =
      All-append _ (member_shares plan hosts ms) (group_shares plan hosts gs)
        (members-IsKnown plan hosts ms h.0) (groups-IsKnown plan hosts gs h.1)

  -- Files that `validate` accepts are read by `apply`, while they stay as they are, into a plan and a host configuration, and the
  -- controller's `apply_plan` of these succeeds, as long as no task panics.
  pub validated-applies :
      (file_arg hosts_arg : Option String) (out : Console) (pretty : Report → String)
      (results : List Assignment → List (Outcome (String × ℕ)))
      → ((futures : List Assignment) → All IsSettled (results futures))
      → (subcommand_validate split read parse_hosts parse_tasks file_arg hosts_arg out).0 ≡ ok tt
      → (plan : Plan) × (hosts : HostConfig) × (read_plan read parse_hosts split parse_tasks
            file_arg hosts_arg
          ≡ ok (plan, hosts))
        × (lines : List String) × (apply_plan pretty results plan hosts ≡ ok lines)
  validated-applies file_arg hosts_arg out pretty results settled h =
      let v = returned-IsValid file_arg hosts_arg out h in
      let (lines, e) =
        (apply_plan_succeeds_iff pretty results v.plan v.hosts settled).0
          (groups-IsKnown v.plan v.hosts v.hosts.groups v.complete) in
      (v.plan, v.hosts, valid-read v, lines, e)
