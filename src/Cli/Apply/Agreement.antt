-- ===== src/Cli/Apply/Agreement.antt =====
-- The command line's own run of a plan against the controller's.
use that_goes_there.Prelude.{String, ◌≡◌, refl, sym, ap, ◌∙◌, List, [], ◌∷◌, map}
use mathlib.Core.List.{map-append}
use that_goes_there.Outcome.{ok}
use that_goes_there.Exec.{lift, modify, ◌>>=◌, for_each}
use that_goes_there.Exec.Returns.{bind-returned, bind-behind}
use that_goes_there.Plan.Task.{PlannedTask, Plan}
use that_goes_there.Plan.Host.{HostConfig, get}
use that_goes_there.Plan.ForHost.{plan_for_host}
use that_goes_there.Controller.Prepare
use that_goes_there.Controller.Prepare.{
  Assignment, host_or_err, assign, assign_members, assign_groups,
}
use that_goes_there.Cli.Run.{executor_type}
use that_goes_there.Cli.Apply.{
  Future, Prepared, say, push, prepare_part, prepare_host, prepare_group, prepare,
}

-- A future without its executor.
abbrev pub assignment_of : Future → Assignment
assignment_of f = record { plan = f.plan; hostname = f.hostname; host = f.host }

module _ (plan : Plan) (hosts : HostConfig) where
  abbrev assigned : Prepared → List Assignment
  assigned p = map assignment_of p.futures

  part-agrees :
      (hostname : String) (part : Plan) (ts : List PlannedTask) (p : Prepared)
      → (prepare_part plan hosts hostname part ts p).0 ≡ ok tt
      → assign hosts hostname part ts (assigned p)
        ≡ ok (assigned (prepare_part plan hosts hostname part ts p).1)
  unfolding prepare_part assign say push lift modify ◌>>=◌
  part-agrees hostname part [] p h = refl
  part-agrees hostname part (t ∷ ts) p h =
      let (host, e, h1) =
        bind-returned (lift (host_or_err hostname (get hosts.hosts hostname))) _ p h in
      let (kind, d, h2) = bind-returned (lift (executor_type host.executor)) _ p h1 in
      rw e (rw d (ap ok (sym (map-append assignment_of p.futures _))))

  members-agree :
      (ms : List String) (p : Prepared)
      → (for_each (prepare_host plan hosts) ms p).0 ≡ ok tt
      → assign_members plan hosts ms (assigned p)
        ≡ ok (assigned (for_each (prepare_host plan hosts) ms p).1)
  unfolding for_each assign_members prepare_host
  members-agree [] p h = refl
  members-agree (m ∷ ms) p h =
      let (x, now, later) = bind-returned (prepare_host plan hosts m) _ p h in
      rw (part-agrees m (plan_for_host plan m hosts) (plan_for_host plan m hosts).blueprint p now) (
        members-agree ms (prepare_host plan hosts m p).1 later
        ∙ ap (λ q. ok (assigned q.1)) (sym (bind-behind (prepare_host plan hosts m) _ p now)))

  group-agrees :
      (g : String) (ms : List String) (p : Prepared)
      → (prepare_group plan hosts (g, ms) p).0 ≡ ok tt
      → assign_members plan hosts ms (assigned p)
        ≡ ok (assigned (prepare_group plan hosts (g, ms) p).1)
  unfolding prepare_group say modify ◌>>=◌
  group-agrees g ms p h = members-agree ms _ h

  groups-agree :
      (gs : List (String × List String)) (p : Prepared)
      → (for_each (prepare_group plan hosts) gs p).0 ≡ ok tt
      → assign_groups plan hosts gs (assigned p)
        ≡ ok (assigned (for_each (prepare_group plan hosts) gs p).1)
  unfolding for_each assign_groups
  groups-agree [] p h = refl
  groups-agree ((g, ms) ∷ gs) p h =
      let (x, now, later) = bind-returned (prepare_group plan hosts (g, ms)) _ p h in
      rw (group-agrees g ms p now) (
        groups-agree gs (prepare_group plan hosts (g, ms) p).1 later
        ∙ ap (λ q. ok (assigned q.1))
            (sym (bind-behind (prepare_group plan hosts (g, ms)) _ p now)))

  -- If the command line can prepare a plan for the executors that the hosts name, the controller
  -- can prepare it too, with the same parts for the same hosts, in the same order.
  pub prepare-agrees :
      (prepare plan hosts (record { futures = []; printed = [] })).0 ≡ ok tt
      → Prepare.prepare plan hosts
        ≡ ok (
            map assignment_of
              (prepare plan hosts (record { futures = []; printed = [] })).1.futures)
  unfolding prepare Prepare.prepare
  prepare-agrees h = groups-agree hosts.groups _ h
