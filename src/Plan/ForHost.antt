-- ===== src/Plan/ForHost.antt =====
-- `Plan::plan_for_host` of libthere/src/plan/mod.rs.
pub mod Targets
pub mod Laws
pub mod Unordered
use that_goes_there.Prelude.{String, Bool, ◌||◌, List, [], ◌∷◌, any, contains, if◌then◌else◌}
use that_goes_there.Plan.Task.{PlannedTask, Plan}
use that_goes_there.Plan.Host.{HostConfig}

-- The names of the groups that hold the host.
unfoldable pub group_names : List (String × List String) → String → List String
group_names [] host = []
group_names ((name, hosts) ∷ gs) host =
    let rest = group_names gs host in if contains hosts host then name ∷ rest else rest

unfoldable pub applies : HostConfig → String → PlannedTask → Bool
unfolding group_names
applies hosts host task =
    let names = group_names hosts.groups host in
    contains task.hosts host || any (λ h. contains names h) task.hosts

unfoldable pub select : (PlannedTask → Bool) → List PlannedTask → List PlannedTask
select p [] = []
select p (t ∷ ts) = let rest = select p ts in if p t then t ∷ rest else rest

unfoldable pub plan_for_host : Plan → String → HostConfig → Plan
unfolding applies select
plan_for_host plan host hosts = record {
  name = plan.name;
  blueprint = select (applies hosts host) plan.blueprint;
}
