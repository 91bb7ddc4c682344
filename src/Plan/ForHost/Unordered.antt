-- ===== src/Plan/ForHost/Unordered.antt =====
-- `Plan::plan_for_host` on groups without an order: those of a host configuration are a `HashMap`,
-- whose iteration has any order, and the members of a group are asked only for a host.
use mathlib.Core.Quot
use mathlib.Core.Quot.{Quot}
use that_goes_there.Prelude.{String, ◌≡◌, ◌↔◌, refl, ap, arith, Bool, true, List, []}
use that_goes_there.Plan.Task.{PlannedTask, Plan}
use that_goes_there.Plan.Host.{HostConfig}
use that_goes_there.Plan.ForHost.{applies, select, plan_for_host}
use that_goes_there.Plan.ForHost.Targets.{Targets, by_name, by_group, Holds, applies-iff-Targets}

abbrev pub Groups : Type 0
Groups = List (String × List String)

-- The same hosts are in groups of the same names.
abbrev pub SameGroups : Groups → Groups → Type 0
SameGroups gs gs' = (host name : String) → Holds gs host name ↔ Holds gs' host name

abbrev pub UnorderedGroups : Type 0
UnorderedGroups = Quot SameGroups

abbrev pub grouped : Groups → HostConfig
grouped gs = record { hosts = []; groups = gs }

Targets-SameGroups :
    (a b : HostConfig) (host : String) (t : PlannedTask)
    → ((name : String) → Holds a.groups host name → Holds b.groups host name)
    → Targets a host t
    → Targets b host t
Targets-SameGroups a b host t same (by_name m) = by_name m
Targets-SameGroups a b host t same (by_group name members g h m) =
    let (members', g', h') = same name (members, g, h) in by_group name members' g' h' m

bool_ext : (a b : Bool) → (a ≡ true → b ≡ true) → (b ≡ true → a ≡ true) → a ≡ b
bool_ext a b f g = ground (arith, f, g)

pub applies-SameGroups :
    (host : String) (t : PlannedTask) (gs gs' : Groups)
    → SameGroups gs gs'
    → applies (grouped gs) host t ≡ applies (grouped gs') host t
applies-SameGroups host t gs gs' same =
    let here = applies-iff-Targets (grouped gs) host t in
    let there = applies-iff-Targets (grouped gs') host t in
    bool_ext _ _ (λ h. there.1 (Targets-SameGroups _ _ host t (λ n. (same host n).0) (here.0 h)))
      (λ h. here.1 (Targets-SameGroups _ _ host t (λ n. (same host n).1) (there.0 h)))

-- Whether a task is for a host, by groups without an order.
unfoldable applies_to : String → UnorderedGroups → PlannedTask → Bool
applies_to host gs t =
    Quot.lift (hlevel) (λ l. applies (grouped l) host t) (applies-SameGroups host t) gs

-- The part of a plan for a host, by groups without an order.
unfoldable part_of : Plan → String → UnorderedGroups → Plan
part_of plan host gs = record {
  name = plan.name;
  blueprint = select (applies_to host gs) plan.blueprint;
}

plan_for_host-part_of :
    (plan : Plan) (host : String) (hosts : HostConfig)
    → plan_for_host plan host hosts ≡ part_of plan host (Quot.mk hosts.groups)
unfolding plan_for_host part_of applies_to applies
plan_for_host-part_of plan host hosts = refl

-- The part of a plan for a host depends only on the names of the groups that hold hosts: with two
-- host configurations whose groups hold the same hosts under the same names, in whatever order
-- groups and members are iterated and however often they occur, it is the same, with its tasks in
-- the same order.
pub plan_for_host-unordered :
    (plan : Plan) (host : String) (a b : HostConfig)
    → SameGroups a.groups b.groups
    → plan_for_host plan host a ≡ plan_for_host plan host b
plan_for_host-unordered plan host a b same =
    rw (plan_for_host-part_of plan host a, plan_for_host-part_of plan host b)
      (ap (part_of plan host) (Quot.sound same))
