-- ===== src/Controller/Apply/Ending.antt =====
-- When `do_apply` of the controller returns, and what it returns then.
use that_goes_there.Prelude.{
  ℕ, refl, ◌^◌, ◌<◌, String, ◌≡◌, ◌≢◌, ap, ◌∙◌, arith, none, some, length,
}
use that_goes_there.Outcome.{Report, Outcome, ok, err, panic}
use that_goes_there.Plan.Task.{Plan}
use that_goes_there.Plan.Host.{Host}
use that_goes_there.Executor.Stream.{Channel, ends}
use that_goes_there.Executor.Source.{Receiver}
use that_goes_there.Executor.Source.Join.{join-hangs, join-ends, join-world}
use that_goes_there.Executor.Source.Loop.{delivered, handle_all}
use that_goes_there.Executor.Ssh.{Remote, SshExecutor, new_with_existing_key, execute}
use that_goes_there.Executor.Ssh.Ends.{execute-no_end, execute-end}
use that_goes_there.Executor.Ssh.Outcomes.{refused}
use that_goes_there.Controller.Cache.{Cache}
use that_goes_there.Controller.Apply.{store_logs, joined, await_join, do_apply, downcast}

module _ (debug_str : String → String) (C : Channel) (R : Remote) where
  -- The executor of `do_apply`.
  abbrev pub executor_on : R.World → SshExecutor debug_str C R
  executor_on world = new_with_existing_key debug_str C R (C.channel 1024) world

module _ (debug_str : String → String) (debug_report : Report → String) (C : Channel) (R : Remote)
    (V : Receiver C) (J : Cache) where
  module _ (fuel : ℕ) (job_id hostname : String) (plan : Plan) (t : SshExecutor debug_str C R)
      (jobs : J.Jobs) where
    hangs :
        (e : Report)
        → ends (C.sent t.chan) ≡ 0
        → await_join debug_str debug_report C R V J fuel job_id hostname plan (err e) t jobs ≡ none
    unfolding await_join
    hangs e no_end = join-hangs V (store_logs J job_id hostname) fuel t.chan _ jobs no_end

    -- The jobs after all logs in front of the end were copied, in order.
    abbrev pub copied : J.Jobs
    copied = handle_all V (store_logs J job_id hostname) jobs (delivered (C.sent t.chan))

    returns :
        (x : Unit {0}) (n : ℕ)
        → ends (C.sent t.chan) ≢ 0
        → length (C.sent t.chan) < fuel
        → t.tasks_completed ≡ n
        → await_join debug_str debug_report C R V J fuel job_id hostname plan (ok x) t jobs
          ≡ some (ok (hostname, n), copied)
    unfolding await_join joined
    returns x n some_end enough counted =
        join-ends V (store_logs J job_id hostname) fuel t.chan _ jobs some_end enough
        ∙ ap (λ k. some (ok (hostname, k), copied)) counted

  -- With a loaded keypair, and a plan of fewer than 2^32 tasks: if `execute` fails with an error other than the refused authentication, `do_apply` never
  -- returns, whatever the number of rounds of the reading task.
  pub do_apply_hangs :
      (job_id hostname : String) (plan : Plan) (host : Host) (world : R.World) (jobs : J.Jobs)
      (e : Report) (fuel : ℕ)
      → length plan.blueprint < 2 ^ 32
      → (execute debug_str C R host hostname plan (executor_on debug_str C R world)).0 ≡ err e
      → err e ≢ refused
      → do_apply debug_str debug_report C R V J fuel (ok tt) job_id plan hostname host world jobs
        ≡ none
  unfolding do_apply
  do_apply_hangs job_id hostname plan host world jobs e fuel fits failed other =
      let t = (execute debug_str C R host hostname plan (executor_on debug_str C R world)).1 in
      rw failed (
        hangs fuel job_id hostname plan t jobs e (
          execute-no_end debug_str C R host hostname plan (executor_on debug_str C R world) e refl
            fits (ap ends (C.sent-channel 1024)) failed other))

  -- With a loaded keypair, and a plan of fewer than 2^32 tasks: if `execute`
  -- returns, `do_apply` returns the host and the number of tasks of the plan once the reading task
  -- had one round more than there are messages, and that task has copied into the job all logs in
  -- front of the end, in order.
  pub do_apply_returns :
      (job_id hostname : String) (plan : Plan) (host : Host) (world : R.World) (jobs : J.Jobs)
      (fuel : ℕ)
      → length plan.blueprint < 2 ^ 32
      → (execute debug_str C R host hostname plan (executor_on debug_str C R world)).0 ≡ ok tt
      → length (
          C.sent
            (execute debug_str C R host hostname plan (executor_on debug_str C R world)).1.chan)
        < fuel
      → do_apply debug_str debug_report C R V J fuel (ok tt) job_id plan hostname host world jobs
        ≡ some (
          ok (hostname, length plan.blueprint),
          copied fuel job_id hostname plan
              (execute debug_str C R host hostname plan (executor_on debug_str C R world)).1
              jobs,
        )
  unfolding do_apply
  do_apply_returns job_id hostname plan host world jobs fuel fits done enough =
      let t = (execute debug_str C R host hostname plan (executor_on debug_str C R world)).1 in
      let (some_end, counted) =
        execute-end debug_str C R host hostname plan (executor_on debug_str C R world) refl fits
          done in
      rw done (returns fuel job_id hostname plan t jobs tt _ some_end enough counted)

  -- No error that `do_apply` returns behind a loaded keypair is a `PlanApplyFailed` to the caller's
  -- downcast.
  pub do_apply_never_downcasts :
      (job_id hostname : String) (plan : Plan) (host : Host) (world : R.World) (jobs after : J.Jobs)
      (e : Report) (fuel : ℕ)
      → do_apply debug_str debug_report C R V J fuel (ok tt) job_id plan hostname host world jobs
        ≡ some (err e, after)
      → downcast e ≡ none
  unfolding do_apply await_join joined
  do_apply_never_downcasts job_id hostname plan host world jobs after e fuel h = by_outcome _ _ h
    where
      by_outcome :
          (r : Outcome (Unit {0})) (t : SshExecutor debug_str C R)
          → await_join debug_str debug_report C R V J fuel job_id hostname plan r t jobs
            ≡ some (err e, after)
          → downcast e ≡ none
      by_outcome (ok _) t k =
          absurd (cc (join-world V (store_logs J job_id hostname) fuel t.chan _ _ jobs _ k))
      by_outcome (err _) t k =
          ground (arith, join-world V (store_logs J job_id hostname) fuel t.chan _ _ jobs _ k)
      by_outcome (panic _) t k = absurd (cc)
