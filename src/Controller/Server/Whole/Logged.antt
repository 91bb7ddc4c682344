-- ===== src/Controller/Server/Whole/Logged.antt =====
-- A whole job of one host, on a remote host that lets the controller in and meets the prerequisites.
use that_goes_there.Prelude.{
  String, ℕ, ◌^◌, ◌<◌, ◌≡◌, sym, refl, ap, subst, ◌∙◌, true, none, some, List, [], ◌∷◌, ◌++◌,
  length, All,
}
use that_goes_there.Outcome.{Report, ok}
use that_goes_there.Ipc.{JobStartRequest}
use that_goes_there.Plan.Host.{Host}
use that_goes_there.Plan.ForHost.{plan_for_host}
use that_goes_there.Executor.Stream.{PartialLogStream, Channel}
use that_goes_there.Executor.Source.{Receiver}
use that_goes_there.Executor.Source.Loop.{delivered}
use that_goes_there.Executor.Ssh.{Frame, Remote}
use that_goes_there.Executor.Ssh.Answers.{IsClean}
use that_goes_there.Executor.Ssh.Transcript.{transcript, IsReady}
use that_goes_there.Executor.Ssh.Transcript.Whole.{ssh_execute-transcript}
use that_goes_there.Controller.Cache.{Cache}
use that_goes_there.Controller.Apply.{do_apply}
use that_goes_there.Controller.Apply.Ending.{executor_on}
use that_goes_there.Controller.Prepare.{apply_plan}
use that_goes_there.Controller.Prepare.Assignments.{group_shares, IsKnown}
use that_goes_there.Controller.Server.{run_plan, finish_job}
use that_goes_there.Controller.Server.Whole.{all_of, IsShown, whole_job-IsShown}

module _ (frames : String → List Frame) (status : String → ℕ) (debug_str : String → String)
    (C : Channel) (R : Remote) (room : (m : PartialLogStream) (c : C.Chan) → (C.send m c).0 ≡ true)
    (opens : (w : R.World) → (R.open_session w).0 ≡ true)
    (answers : (c : String) (w : R.World) → (R.exec c w).0 ≡ some (frames c))
    (clean : (c : String) → IsClean (status c) (frames c))
    (connects : (a : String) (w : R.World) → (R.connect a w).0 ≡ true)
    (accepts : (u : String) (w : R.World) → (R.authenticate u w).0 ≡ some true)
    (debug_report : Report → String) (V : Receiver C) (J : Cache) where
  -- A job that the controller starts, from a store without it, for a host that lets the executor in,
  -- answers a command always with the same frames (text and then an exit status), and passes the
  -- tests of all prerequisites of its part of fewer than 2^32 tasks, over a channel with room: `do_apply` returns with the number of the tasks once the reading task had
  -- one round more than there are messages; and behind the end of the job, with this run as the only
  -- result of `apply_plan` and where the host map has every member of a group whose part has a task,
  -- the job was evicted, or it is completed and its entries for the host are exactly the lines of
  -- the transcript of the part, in order.
  pub whole_job_logged :
      (job_id hostname : String) (host : Host) (body : JobStartRequest) (world : R.World)
      (jobs : J.Jobs) (fuel : ℕ) (pretty : Report → String)
      → length (plan_for_host body.plan hostname body.hosts).blueprint < 2 ^ 32
      → J.get job_id jobs ≡ none
      → All (IsKnown body.plan body.hosts) (group_shares body.plan body.hosts body.hosts.groups)
      → let part = plan_for_host body.plan hostname body.hosts in
        All (IsReady frames status debug_str C R room opens answers clean) part.blueprint
        → length (transcript frames debug_str C R hostname part) < fuel
        → (after : J.Jobs) × (do_apply debug_str debug_report C R V J fuel
              (ok tt)
              job_id
              part
              hostname
              host
              world
              (run_plan J job_id body jobs).1
            ≡ some (ok (hostname, length part.blueprint), after))
          × IsShown job_id hostname J
              (finish_job J job_id
                (apply_plan pretty
                  (λ futures. ok (hostname, length part.blueprint) ∷ [])
                  body.plan
                  body.hosts)
                after)
              (all_of (delivered (transcript frames debug_str C R hostname part)))
  whole_job_logged job_id hostname host body world jobs fuel pretty fits absent known ready enough =
      let part = plan_for_host body.plan hostname body.hosts in
      let (done, sent) =
        ssh_execute-transcript frames status debug_str C R room opens answers clean connects accepts
          host hostname part (executor_on debug_str C R world) refl fits ready in
      let same =
        sent ∙ ap (λ l. l ++ transcript frames debug_str C R hostname part) (C.sent-channel 1024) in
      let (after, applied, shown) =
        whole_job-IsShown debug_str debug_report C R V J job_id hostname host body world jobs fuel
          pretty fits absent known done (subst (λ l. length l < fuel) (sym same) enough) in
      (
        after,
        applied,
        subst
            (λ l.
              IsShown job_id hostname J
                (finish_job J job_id
                  (apply_plan pretty (λ futures. ok (hostname, length part.blueprint) ∷ [])
                    body.plan body.hosts)
                  after)
                (all_of (delivered l)))
            same shown,
      )
