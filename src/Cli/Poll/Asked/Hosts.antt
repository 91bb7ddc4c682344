-- ===== src/Cli/Poll/Asked/Hosts.antt =====
-- The whole way of a job: the executors of its hosts, their channels and reading tasks, the store,
-- the controller's answers, and the client that prints them.
use that_goes_there.Prelude.{
  ℕ, ◌^◌, ◌<◌, String, ◌≡◌, ◌≢◌, ap, ◌∙◌, false, some, none, List, [], ◌∷◌, ◌++◌, map, length,
}
use that_goes_there.Outcome.{Outcome, ok}
use that_goes_there.Plan.Task.{Plan}
use that_goes_there.Plan.Host.{Host}
use that_goes_there.Ipc.{JobStartRequest, JobState, running}
use that_goes_there.Executor.Stream.{Channel, ends}
use that_goes_there.Executor.Source.Loop.{delivered}
use that_goes_there.Executor.Mpsc.{Mpsc}
use that_goes_there.Executor.Ssh.{Remote}
use that_goes_there.Controller.Cache.{Cache}
use that_goes_there.Controller.Apply.Entries.{entry}
use that_goes_there.Controller.Server.{run_plan, finish_job}
use that_goes_there.Controller.Server.Jobs.{final_status}
use that_goes_there.Controller.Server.History.{Event}
use that_goes_there.Controller.Server.Whole.{all_of}
use that_goes_there.Controller.Pipes.{System, started, Reach}
use that_goes_there.Controller.Pipes.Kept.{IsAlone, Reach-Kept}
use that_goes_there.Controller.Pipes.Seen.{done-came}
use that_goes_there.Controller.Pipes.Hosts.{messages, all-closed}
use that_goes_there.Cli.Poll.{Printed, poll_loop}
use that_goes_there.Cli.Poll.Job.{last_line}
use that_goes_there.Cli.Poll.Shown.{shown_for}
use that_goes_there.Cli.Poll.Followed.{flatten}
use that_goes_there.Cli.Poll.Asked.{JobCodec, ask, asked, IsPresent}
use that_goes_there.Cli.Poll.Asked.Printed.{asked_job-printed}

module _ (debug_str : String → String) (C : Channel) (R : ℕ → Remote) (hostname : ℕ → String)
    (host : ℕ → Host) (part : ℕ → Plan) (world : (j : ℕ) → (R j).World) where
  module _ (Q : Mpsc) (J : Cache) (K : JobCodec) (job_id : String) (n : ℕ)
      (fits : (i : ℕ) → i < n → length (part i).blueprint < 2 ^ 32)
      (end_sent : (i : ℕ)
        → i < n
        → ends (messages debug_str C R hostname host part world i) ≢ 0) where
    -- The parts of a job on `n` hosts by remote executors that have each ended their stream, and
    -- have fewer than 2^32 tasks, in any interleaving of executors, channels of 1024 messages,
    -- reading tasks and other jobs: a client that looks at the job between any of the store's events,
    -- always finds it in the store, and looks once more behind its end, which gives it a final
    -- status, prints, of a host that is the host of one run whose reading task has ended, exactly the
    -- logs that the host's executor has sent in front of the end of its stream, once each and in
    -- order, and then the line for the job's status.
    pub hosts_followed :
        (body : JobStartRequest) (jobs : J.Jobs) (segs : List (List Event)) (final : List Event)
        (s : System Q J) (r : Outcome (Unit {0})) (rest : List (Outcome JobState)) (i : ℕ)
        → let begun = (run_plan J job_id body jobs).1 in
          let sends = messages debug_str C R hostname host part world in
          Reach Q J job_id hostname n
            (started Q J job_id hostname sends begun)
            (flatten job_id segs final)
            s
          → i < n
          → IsAlone hostname n i
          → (s.pipe i).reading ≡ false
          → IsPresent K J job_id segs begun
          → J.get job_id (finish_job J job_id r s.jobs) ≢ none
          → final_status r ≢ running
          → (out : List Printed) × (poll_loop
                (asked K J job_id segs begun
                  ++ ask K J job_id (finish_job J job_id r s.jobs) ∷ rest)
                []
              ≡ some (ok tt, out ++ last_line (final_status r)))
            × (shown_for (hostname i) out ≡ map (entry (hostname i)) (all_of (delivered (sends i))))
    hosts_followed body jobs segs final s r rest i reached below alone quiet present kept over =
        let begun = (run_plan J job_id body jobs).1 in
        let sends = messages debug_str C R hostname host part world in
        let closes = all-closed debug_str C R hostname host part world Q J job_id n fits end_sent in
        let h =
          Reach-Kept Q J job_id hostname n (λ k. delivered (sends k)) begun sends closes reached in
        let store = ap (finish_job J job_id r) h.store in
        let (out, result, shown) =
          asked_job-printed K J job_id (hostname i) body segs final r rest jobs h.between present
            (λ e. kept (ap (J.get job_id) store ∙ e)) over in
        (
          out,
          ap (λ js. poll_loop (asked K J job_id segs begun ++ ask K J job_id js ∷ rest) []) store
              ∙ result,
          shown
              ∙ ap (map (entry (hostname i)))
                  (done-came Q J job_id hostname n sends closes begun _ s i h below alone quiet),
        )
