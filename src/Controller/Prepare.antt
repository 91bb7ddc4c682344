-- ===== src/Controller/Prepare.antt =====
-- `apply_plan` of there-controller/src/executor.rs: which hosts get which part of a plan, and what is
-- made of their results.
pub mod Assignments
use that_goes_there.Prelude.{String, ◌<>◌, ℕ, Option, none, some, List, [], ◌∷◌, ◌++◌, length}
use that_goes_there.Text.{decimal}
use that_goes_there.Outcome.{
  Report, eyre, plan_apply_failed, external, Outcome, ok, err, panic, ◌>>=◌,
}
use that_goes_there.Plan.Task.{PlannedTask, Plan}
use that_goes_there.Plan.Host.{Host, HostConfig, get}
use that_goes_there.Plan.ForHost.{plan_for_host}

-- The arguments of one `do_apply`.
pub record Assignment : Type 0 where
  pub plan : Plan
  pub hostname : String
  pub host : Host

abbrev pub host_or_err : String → Option Host → Outcome Host
host_or_err hostname none = err (eyre ("hostname not in host map: " <> hostname))
host_or_err hostname (some host) = ok host

-- The body of the inner loop, behind the selection: a host with no task is skipped.
unfoldable pub assign :
    HostConfig → String → Plan → List PlannedTask → List Assignment → Outcome (List Assignment)
assign hosts hostname part [] futures = ok futures
assign hosts hostname part (t ∷ ts) futures = do
  host ← host_or_err hostname (get hosts.hosts hostname)
  ok (futures ++ record { plan = part; hostname = hostname; host = host } ∷ [])

unfoldable pub assign_members :
    Plan → HostConfig → List String → List Assignment → Outcome (List Assignment)
assign_members plan hosts [] futures = ok futures
assign_members plan hosts (hostname ∷ rest) futures = do
  let part = plan_for_host plan hostname hosts
  longer ← assign hosts hostname part part.blueprint futures
  assign_members plan hosts rest longer

unfoldable pub assign_groups :
    Plan → HostConfig → List (String × List String) → List Assignment → Outcome (List Assignment)
assign_groups plan hosts [] futures = ok futures
assign_groups plan hosts ((group, members) ∷ rest) futures = do
  longer ← assign_members plan hosts members futures
  assign_groups plan hosts rest longer

-- The two loops that fill `futures`.
unfoldable pub prepare : Plan → HostConfig → Outcome (List Assignment)
prepare plan hosts = assign_groups plan hosts hosts.groups []

-- What is printed for the result of one `do_apply`; `pretty` is `format!("{:#?}", …)` of a report.
unfoldable pub report_failure : (pretty : Report → String) → Plan → Report → List String
report_failure pretty plan (plan_apply_failed host n e) =
    ("*** failed plan: "
      <> (plan.name
          <> (" for host: "
              <> (host
                  <> (": "
                      <> (decimal n <> ("/" <> (decimal (length plan.blueprint) <> " ***"))))))))
    ∷ ("*** error: " <> pretty e)
    ∷ []
report_failure pretty plan (eyre m) = m ∷ []
report_failure pretty plan (external m) = m ∷ []

unfoldable pub report_result :
    (Report → String) → Plan → Outcome (String × ℕ) → Outcome (List String)
report_result pretty plan (ok (host, n)) = ok (
    ("*** completed plan: "
      <> (plan.name
          <> (" for host: "
              <> (host
                  <> (": "
                      <> (decimal n <> ("/" <> (decimal (length plan.blueprint) <> " ***"))))))))
    ∷ [])
report_result pretty plan (err e) = ok (report_failure pretty plan e)
report_result pretty plan (panic p) = panic p

-- The loop over the results, in the order in which they come.
unfoldable pub report_results :
    (Report → String) → Plan → List (Outcome (String × ℕ)) → Outcome (List String)
report_results pretty plan [] = ok []
report_results pretty plan (r ∷ rs) = do
  lines ← report_result pretty plan r
  rest ← report_results pretty plan rs
  ok (lines ++ rest)

-- `apply_plan`, where the futures that it made give the results `results assignments`, in the order
-- in which they finish; it returns the lines that it printed.
unfoldable pub apply_plan :
    (Report → String)
    → (List Assignment → List (Outcome (String × ℕ)))
    → Plan
    → HostConfig
    → Outcome (List String)
apply_plan pretty results plan hosts = do
  futures ← prepare plan hosts
  report_results pretty plan (results futures)
