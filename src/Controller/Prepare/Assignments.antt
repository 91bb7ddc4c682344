-- ===== src/Controller/Prepare/Assignments.antt =====
-- Which assignments `apply_plan` makes, and when it fails.
use mathlib.Core.List.{append-nil, append_assoc, map-append}
use that_goes_there.Prelude.{
  String, ℕ, ◌≡◌, ◌↔◌, refl, sym, ap, ap₂, ◌∙◌, Option, none, some, List, [], ◌∷◌, ◌++◌, map, All,
  All-append, All-split, subst,
}
use that_goes_there.Outcome.{Report, Outcome, ok, err, panic, ok-injective, bind-ok}
use that_goes_there.Plan.Task.{PlannedTask, Plan}
use that_goes_there.Plan.Host.{Host, HostConfig, get}
use that_goes_there.Plan.ForHost.{plan_for_host}
use that_goes_there.Controller.Prepare.{
  Assignment, host_or_err, assign, assign_members, assign_groups, prepare, report_result,
  report_results, apply_plan,
}

-- A member of a group gets its part of the plan if that has a task.
abbrev pub share : Plan → HostConfig → String → List PlannedTask → List (String × Plan)
share plan hosts hostname [] = []
share plan hosts hostname (t ∷ ts) = (hostname, plan_for_host plan hostname hosts) ∷ []

abbrev pub member_shares : Plan → HostConfig → List String → List (String × Plan)
member_shares plan hosts [] = []
member_shares plan hosts (h ∷ hs) =
    share plan hosts h (plan_for_host plan h hosts).blueprint ++ member_shares plan hosts hs

-- One share for each member of each group, in order: a host that stands in two groups, or twice in
-- one, has as many.
abbrev pub group_shares : Plan → HostConfig → List (String × List String) → List (String × Plan)
group_shares plan hosts [] = []
group_shares plan hosts ((group, members) ∷ rest) =
    member_shares plan hosts members ++ group_shares plan hosts rest

abbrev pub share_of : Assignment → String × Plan
share_of a = (a.hostname, a.plan)

-- The assignments so far are kept, and the new ones are these shares, each with the host that the
-- host map has under its name.
record Extends (hosts : HostConfig) (futures : List Assignment) (shares : List (String × Plan))
    (longer : List Assignment) : Type 0 where
  new : List Assignment
  appended : longer ≡ futures ++ new
  shares_of : map share_of new ≡ shares
  found : All (λ (a : Assignment). get hosts.hosts a.hostname ≡ some a.host) new

Extends-trans :
    {hosts : HostConfig} {a b c : List Assignment} {xs ys : List (String × Plan)}
    → Extends hosts a xs b
    → Extends hosts b ys c
    → Extends hosts a (xs ++ ys) c
Extends-trans {a = a} x y = record {
  new = x.new ++ y.new;
  appended = y.appended ∙ ap (λ l. l ++ y.new) x.appended ∙ append_assoc a x.new y.new;
  shares_of = map-append share_of x.new y.new ∙ ap₂ (◌++◌) x.shares_of y.shares_of;
  found = All-append _ x.new y.new x.found y.found;
}

Extends-refl : (hosts : HostConfig) (a : List Assignment) → Extends hosts a [] a
Extends-refl hosts a = record {
  new = [];
  appended = sym (append-nil a);
  shares_of = refl;
  found = tt;
}

module _ (plan : Plan) (hosts : HostConfig) where
  host_found :
      (hostname : String) (o : Option Host) {host : Host}
      → host_or_err hostname o ≡ ok host
      → o ≡ some host
  host_found hostname none h = absurd (cc)
  host_found hostname (some host) h = ap some (ok-injective h)

  assign-Extends :
      (hostname : String) (ts : List PlannedTask) (futures longer : List Assignment)
      → assign hosts hostname (plan_for_host plan hostname hosts) ts futures ≡ ok longer
      → Extends hosts futures (share plan hosts hostname ts) longer
  unfolding assign
  assign-Extends hostname [] futures longer h =
      subst (Extends hosts futures []) (ok-injective h) (Extends-refl hosts futures)
  assign-Extends hostname (t ∷ ts) futures longer h =
      let (host, e, k) = bind-ok (host_or_err hostname (get hosts.hosts hostname)) _ h in
      record {
        new =
            record { plan = plan_for_host plan hostname hosts; hostname = hostname; host = host }
            ∷ [];
        appended = sym (ok-injective k);
        shares_of = refl;
        found = (host_found hostname (get hosts.hosts hostname) e, tt);
      }

  members-Extends :
      (members : List String) (futures longer : List Assignment)
      → assign_members plan hosts members futures ≡ ok longer
      → Extends hosts futures (member_shares plan hosts members) longer
  unfolding assign_members
  members-Extends [] futures longer h =
      subst (Extends hosts futures []) (ok-injective h) (Extends-refl hosts futures)
  members-Extends (m ∷ ms) futures longer h =
      let (middle, e, k) = bind-ok (assign hosts m (plan_for_host plan m hosts) _ futures) _ h in
      Extends-trans (assign-Extends m _ futures middle e) (members-Extends ms middle longer k)

  groups-Extends :
      (groups : List (String × List String)) (futures longer : List Assignment)
      → assign_groups plan hosts groups futures ≡ ok longer
      → Extends hosts futures (group_shares plan hosts groups) longer
  unfolding assign_groups
  groups-Extends [] futures longer h =
      subst (Extends hosts futures []) (ok-injective h) (Extends-refl hosts futures)
  groups-Extends ((g, ms) ∷ gs) futures longer h =
      let (middle, e, k) = bind-ok (assign_members plan hosts ms futures) _ h in
      Extends-trans (members-Extends ms futures middle e) (groups-Extends gs middle longer k)

  -- The assignments of a plan are one for each member of each group whose part of the plan has a
  -- task, in order and with that part, so a host of two groups has two; each goes to the host that
  -- the host map has under the name.
  pub prepare-shares :
      (futures : List Assignment)
      → prepare plan hosts ≡ ok futures
      → (map share_of futures ≡ group_shares plan hosts hosts.groups)
        × All (λ (a : Assignment). get hosts.hosts a.hostname ≡ some a.host) futures
  unfolding prepare
  prepare-shares futures h =
      let x = groups-Extends hosts.groups [] futures h in rw x.appended (x.shares_of, x.found)

  abbrev pub IsKnown : String × Plan → Type 0
  IsKnown s = (host : Host) × (get hosts.hosts s.0 ≡ some host)

  assign_total :
      (hostname : String) (ts : List PlannedTask) (futures : List Assignment)
      → All IsKnown (share plan hosts hostname ts)
      → (longer : List Assignment) × (assign hosts hostname
            (plan_for_host plan hostname hosts)
            ts
            futures
          ≡ ok longer)
  unfolding assign
  assign_total hostname [] futures h = (futures, refl)
  assign_total hostname (t ∷ ts) futures h =
      let part = plan_for_host plan hostname hosts in
      (futures ++ record { plan = part; hostname = hostname; host = h.0.0 } ∷ [], rw h.0.1)

  members_total :
      (members : List String) (futures : List Assignment)
      → All IsKnown (member_shares plan hosts members)
      → (longer : List Assignment) × (assign_members plan hosts members futures ≡ ok longer)
  unfolding assign_members
  members_total [] futures h = (futures, refl)
  members_total (m ∷ ms) futures h =
      let (now, later) =
        All-split _ (share plan hosts m (plan_for_host plan m hosts).blueprint)
          (member_shares plan hosts ms) h in
      let (middle, e) = assign_total m (plan_for_host plan m hosts).blueprint futures now in
      let (longer, k) = members_total ms middle later in (longer, rw e k)

  groups_total :
      (groups : List (String × List String)) (futures : List Assignment)
      → All IsKnown (group_shares plan hosts groups)
      → (longer : List Assignment) × (assign_groups plan hosts groups futures ≡ ok longer)
  unfolding assign_groups
  groups_total [] futures h = (futures, refl)
  groups_total ((g, ms) ∷ gs) futures h =
      let (now, later) = All-split _ (member_shares plan hosts ms) (group_shares plan hosts gs) h in
      let (middle, e) = members_total ms futures now in
      let (longer, k) = groups_total gs middle later in (longer, rw e k)

  -- A plan whose shares all name a host of the host map is prepared.
  prepare_total :
      All IsKnown (group_shares plan hosts hosts.groups)
      → (futures : List Assignment) × (prepare plan hosts ≡ ok futures)
  unfolding prepare
  prepare_total h = groups_total hosts.groups [] h

  IsKnown-shares :
      (futures : List Assignment)
      → All (λ (a : Assignment). get hosts.hosts a.hostname ≡ some a.host) futures
      → All IsKnown (map share_of futures)
  IsKnown-shares [] h = tt
  IsKnown-shares (a ∷ rest) h = ((a.host, h.0), IsKnown-shares rest h.1)

-- No panic.
abbrev pub IsSettled : Outcome (String × ℕ) → Type 0
IsSettled (ok _) = Unit
IsSettled (err _) = Unit
IsSettled (panic _) = ⊥

report_one :
    (pretty : Report → String) (plan : Plan) (r : Outcome (String × ℕ))
    → IsSettled r
    → (lines : List String) × (report_result pretty plan r ≡ ok lines)
unfolding report_result
report_one pretty plan (ok (host, n)) h = (_, refl)
report_one pretty plan (err e) h = (_, refl)
report_one pretty plan (panic p) h = absurd h

pub report_total :
    (pretty : Report → String) (plan : Plan) (rs : List (Outcome (String × ℕ)))
    → All IsSettled rs
    → (lines : List String) × (report_results pretty plan rs ≡ ok lines)
unfolding report_results
report_total pretty plan [] h = ([], refl)
report_total pretty plan (r ∷ rs) h =
    let (first, e) = report_one pretty plan r h.0 in
    let (lines, k) = report_total pretty plan rs h.1 in (first ++ lines, rw e (rw k refl))

-- Whatever the hosts made of their parts of the plan, `apply_plan` succeeds exactly when the host
-- map has every member of a group whose part has a task; that all of them failed does not make it
-- fail.
pub apply_plan_succeeds_iff :
    (pretty : Report → String) (results : List Assignment → List (Outcome (String × ℕ)))
    (plan : Plan) (hosts : HostConfig)
    → ((futures : List Assignment) → All IsSettled (results futures))
    → All (IsKnown plan hosts) (group_shares plan hosts hosts.groups)
      ↔ ((lines : List String) × (apply_plan pretty results plan hosts ≡ ok lines))
unfolding apply_plan
apply_plan_succeeds_iff pretty results plan hosts settled = (
  λ known.
      let (futures, e) = prepare_total plan hosts known in
      let (lines, k) = report_total pretty plan (results futures) (settled futures) in
      (lines, rw e k),
  λ (lines, h).
      let (futures, e, k) = bind-ok (prepare plan hosts) _ h in
      let (shares, found) = prepare-shares plan hosts futures e in
      subst (All (IsKnown plan hosts)) shares (IsKnown-shares plan hosts futures found),
)
