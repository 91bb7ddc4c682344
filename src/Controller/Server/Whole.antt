-- ===== src/Controller/Server/Whole.antt =====
-- A whole job of one host: `run_plan`, `do_apply` with its reading task, `apply_plan`, and the end of
-- the job.
pub mod Logged
use mathlib.Core.List.{append-nil}
use that_goes_there.Prelude.{
  String, ℕ, ◌^◌, ◌<◌, ◌≡◌, ◌⊎◌, inl, inr, refl, ap, ◌∙◌, Option, none, some, List, [], ◌∷◌, ◌++◌,
  map, length, All, eq_refl,
}
use that_goes_there.Outcome.{Report, Outcome, ok}
use that_goes_there.Ipc.{JobStartRequest, JobState, completed}
use that_goes_there.Plan.Host.{Host}
use that_goes_there.Plan.ForHost.{plan_for_host}
use that_goes_there.Executor.Stream.{Logs, Channel}
use that_goes_there.Executor.Source.{Receiver}
use that_goes_there.Executor.Source.Loop.{delivered, handle_all}
use that_goes_there.Executor.Ssh.{Remote, execute}
use that_goes_there.Controller.Cache.{Cache}
use that_goes_there.Controller.Apply.{store_logs, do_apply}
use that_goes_there.Controller.Apply.Entries.{entries, entry, logs_for}
use that_goes_there.Controller.Apply.Ending.{executor_on, do_apply_returns}
use that_goes_there.Controller.Prepare.{apply_plan}
use that_goes_there.Controller.Prepare.Assignments.{group_shares, IsKnown, apply_plan_succeeds_iff}
use that_goes_there.Controller.Server.{run_plan, finish_job}
use that_goes_there.Controller.Server.Jobs.{finish_job-returned}
use that_goes_there.Controller.Server.History.{Event, log, finish, run_store}
use that_goes_there.Controller.Server.History.Outcomes.{IsBetween, deliveries, ended_job-seen}

-- All logs, one message after another.
abbrev pub all_of : List Logs → Logs
all_of [] = []
all_of (logs ∷ ls) = logs ++ all_of ls

abbrev applied : Outcome (Unit {0})
applied = ok tt

module _ (job_id host : String) where
  -- What the reading task of the host does to the store.
  abbrev logged : List Logs → List Event
  logged ls = map (log job_id host) ls

  logged-IsBetween : (ls : List Logs) → All (IsBetween job_id) (logged ls)
  logged-IsBetween [] = tt
  logged-IsBetween (logs ∷ ls) = (tt, logged-IsBetween ls)

  logs_for-logged : (ls : List Logs) → logs_for host (deliveries job_id (logged ls)) ≡ all_of ls
  logs_for-logged [] = refl
  logs_for-logged (logs ∷ ls) =
      rw (eq_refl job_id) (rw (eq_refl host) (ap (λ l. logs ++ l) (logs_for-logged ls)))

  module _ (J : Cache) where
    -- The store when the reading task has copied these logs, at the end of the job.
    run_store-logged :
        {C : Channel} (V : Receiver C) (r : Outcome (Unit {0})) (ls : List Logs) (jobs : J.Jobs)
        → run_store J (logged ls ++ finish job_id r ∷ []) jobs
          ≡ finish_job J job_id r (handle_all V (store_logs J job_id host) jobs ls)
    unfolding run_store
    run_store-logged V r [] jobs = refl
    run_store-logged V r (logs ∷ ls) jobs =
        run_store-logged V r ls (store_logs J job_id host logs jobs)

    -- The job was evicted, or it is completed and has exactly these logs of the host.
    abbrev pub IsShown : J.Jobs → Logs → Type 0
    IsShown jobs logs =
        (J.get job_id jobs ≡ none)
        ⊎ ((job : JobState) × (J.get job_id jobs ≡ some job)
            × (job.status ≡ completed)
            × (entries host job.logs ≡ map (entry host) logs))

    copied-IsShown :
        {C : Channel} (V : Receiver C) (body : JobStartRequest) (ls : List Logs) (jobs : J.Jobs)
        → J.get job_id jobs ≡ none
        → IsShown
            (finish_job J job_id applied
              (handle_all V (store_logs J job_id host) (run_plan J job_id body jobs).1 ls))
            (all_of ls)
    unfolding run_store
    copied-IsShown V body ls jobs fresh = by_found (J.get job_id last) refl
      where
        last : J.Jobs
        last =
            finish_job J job_id applied
              (handle_all V (store_logs J job_id host) (run_plan J job_id body jobs).1 ls)

        by_found : (o : Option JobState) → J.get job_id last ≡ o → IsShown last (all_of ls)
        by_found none e = inl e
        by_found (some job) e =
            let (status, logs) =
              ended_job-seen job_id J [] body (logged ls) applied [] jobs job host tt
                (logged-IsBetween ls) tt fresh
                (ap (J.get job_id) (run_store-logged V applied ls (run_plan J job_id body jobs).1)
                  ∙ e) in
            inr (
              job,
              e,
              status,
              logs
                  ∙ ap (map (entry host)) (
                      append-nil (logs_for host (deliveries job_id (logged ls)))
                      ∙ logs_for-logged ls),
            )

module _ (debug_str : String → String) (debug_report : Report → String) (C : Channel) (R : Remote)
    (V : Receiver C) (J : Cache) where
  -- A job that the controller starts, from a store without it, runs on one host by a remote
  -- executor whose `execute` of fewer than 2^32 tasks returns: then `do_apply` returns, with the
  -- number of tasks of the host's part, once the reading task had one round more than there are
  -- messages; and behind the end of the job, with this run as the only result of `apply_plan` and
  -- where the host map has every member of a group whose part has a task, the job was evicted, or it
  -- is completed and its entries for the host are exactly the logs that the executor sent in front
  -- of the end of its stream, once each and in order.
  pub whole_job-IsShown :
      (job_id hostname : String) (host : Host) (body : JobStartRequest) (world : R.World)
      (jobs : J.Jobs) (fuel : ℕ) (pretty : Report → String)
      → length (plan_for_host body.plan hostname body.hosts).blueprint < 2 ^ 32
      → J.get job_id jobs ≡ none
      → All (IsKnown body.plan body.hosts) (group_shares body.plan body.hosts body.hosts.groups)
      → let part = plan_for_host body.plan hostname body.hosts in
        let (r, t) = execute debug_str C R host hostname part (executor_on debug_str C R world) in
        r ≡ ok tt
        → length (C.sent t.chan) < fuel
        → (after : J.Jobs) × (do_apply debug_str debug_report C R V J fuel
              (ok tt)
              job_id
              part
              hostname
              host
              world
              (run_plan J job_id body jobs).1
            ≡ some (ok (hostname, length part.blueprint), after))
          × IsShown job_id hostname J
              (finish_job J job_id
                (apply_plan pretty
                  (λ futures. ok (hostname, length part.blueprint) ∷ [])
                  body.plan
                  body.hosts)
                after)
              (all_of (delivered (C.sent t.chan)))
  whole_job-IsShown job_id hostname host body world jobs fuel pretty fits absent known done enough =
      let part = plan_for_host body.plan hostname body.hosts in
      let t = (execute debug_str C R host hostname part (executor_on debug_str C R world)).1 in
      let (lines, e) =
        (apply_plan_succeeds_iff pretty (λ futures. ok (hostname, length part.blueprint) ∷ [])
            body.plan body.hosts (λ futures. (tt, tt))).0
          known in
      (
        _,
        do_apply_returns debug_str debug_report C R V J job_id hostname part host world _ fuel fits
            done enough,
        rw (finish_job-returned J job_id _ lines _ e refl)
            (copied-IsShown job_id hostname J V body (delivered (C.sent t.chan)) jobs absent),
      )
