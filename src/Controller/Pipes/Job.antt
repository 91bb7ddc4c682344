-- ===== src/Controller/Pipes/Job.antt =====
-- A whole job of several hosts that let the controller in and meet the prerequisites: `run_plan`, the
-- assignments, the runs side by side, and the end of the job.
use that_goes_there.Prelude.{
  ℕ, ◌^◌, ◌<◌, String, ◌≡◌, ◌≢◌, refl, sym, ap, subst, ◌∙◌, arith, true, false, none, some, List,
  ◌++◌, map, length, All,
}
use that_goes_there.Outcome.{Report, Outcome, ok}
use that_goes_there.Ipc.{JobStartRequest, JobState, completed}
use that_goes_there.Plan.Task.{Plan}
use that_goes_there.Plan.Host.{Host}
use that_goes_there.Plan.ForHost.{plan_for_host}
use that_goes_there.Plan.ForHost.Laws.{plan_for_host-length, plan_for_host-All}
use that_goes_there.Executor.Stream.{PartialLogStream, Channel, ends}
use that_goes_there.Executor.Source.Loop.{delivered}
use that_goes_there.Executor.Mpsc.{Mpsc}
use that_goes_there.Executor.Ssh.{Frame, Remote, execute}
use that_goes_there.Executor.Ssh.Answers.{IsClean}
use that_goes_there.Executor.Ssh.Ends.{execute-end}
use that_goes_there.Executor.Ssh.Transcript.{transcript, IsReady}
use that_goes_there.Executor.Ssh.Transcript.Whole.{ssh_execute-transcript}
use that_goes_there.Controller.Cache.{Cache}
use that_goes_there.Controller.Apply.Entries.{entries, entry}
use that_goes_there.Controller.Apply.Ending.{executor_on}
use that_goes_there.Controller.Prepare.{Assignment, prepare, apply_plan}
use that_goes_there.Controller.Prepare.Assignments.{IsSettled, report_total}
use that_goes_there.Controller.Server.{run_plan, finish_job}
use that_goes_there.Controller.Server.Jobs.{finish_job-returned}
use that_goes_there.Controller.Server.History.{Event}
use that_goes_there.Controller.Server.Whole.{all_of}
use that_goes_there.Controller.Pipes.{System, started, Reach}
use that_goes_there.Controller.Pipes.Kept.{IsAlone}
use that_goes_there.Controller.Pipes.Hosts.{messages, IsGoneOr, hosts_logged}
use that_goes_there.Controller.Pipes.Assigned.{pick, assigned-part}

-- Completed, with the logs of these messages for a host.
abbrev pub HasLogs : String → List PartialLogStream → JobState → Type 0
HasLogs host ms job =
    (job.status ≡ completed) × (entries host job.logs ≡ map (entry host) (all_of (delivered ms)))

abbrev applied : Outcome (Unit {0})
applied = ok tt

module _ (debug_str : String → String) (C : Channel)
    (room : (m : PartialLogStream) (c : C.Chan) → (C.send m c).0 ≡ true) (R : ℕ → Remote)
    (frames : ℕ → String → List Frame) (status : ℕ → String → ℕ)
    (opens : (i : ℕ) (w : (R i).World) → ((R i).open_session w).0 ≡ true)
    (answers : (i : ℕ) (c : String) (w : (R i).World) → ((R i).exec c w).0 ≡ some (frames i c))
    (clean : (i : ℕ) (c : String) → IsClean (status i c) (frames i c))
    (connects : (i : ℕ) (a : String) (w : (R i).World) → ((R i).connect a w).0 ≡ true)
    (accepts : (i : ℕ) (u : String) (w : (R i).World) → ((R i).authenticate u w).0 ≡ some true)
    (world : (i : ℕ) → (R i).World) (body : JobStartRequest) (fs : List Assignment) where
  abbrev pub hostname : ℕ → String
  hostname i = (pick fs i).hostname

  abbrev pub host : ℕ → Host
  host i = (pick fs i).host

  abbrev pub part : ℕ → Plan
  part i = (pick fs i).plan

  abbrev pub sends : ℕ → List PartialLogStream
  sends = messages debug_str C R hostname host part world

  -- The prerequisites of all tasks of the plan pass on the host of a run.
  abbrev pub IsReadyOn : ℕ → Type 0
  IsReadyOn i =
      All (IsReady (frames i) (status i) debug_str C (R i) room (opens i) (answers i) (clean i))
        body.plan.blueprint

  module _ (few : length body.plan.blueprint < 2 ^ 32)
      (prepared : prepare body.plan body.hosts ≡ ok fs)
      (ready : (i : ℕ) → i < length fs → IsReadyOn i) where
    pub part-fits : (i : ℕ) → i < length fs → length (part i).blueprint < 2 ^ 32
    part-fits i below =
        let (same, _) = assigned-part body.plan body.hosts fs i prepared below in
        omega (
          arith,
          ap (λ (p : Plan). length p.blueprint) same,
          plan_for_host-length body.plan (hostname i) body.hosts,
          few,
        )

    told :
        (i : ℕ)
        → i < length fs
        → ((execute debug_str C
              (R i)
              (host i)
              (hostname i)
              (part i)
              (executor_on debug_str C (R i) (world i))).0
            ≡ ok tt)
          × (sends i ≡ transcript (frames i) debug_str C (R i) (hostname i) (part i))
    told i below =
        let (same, _) = assigned-part body.plan body.hosts fs i prepared below in
        let (done, sent) =
          ssh_execute-transcript (frames i) (status i) debug_str C (R i) room (opens i) (answers i)
            (clean i) (connects i) (accepts i) (host i) (hostname i) (part i)
            (executor_on debug_str C (R i) (world i)) refl (part-fits i below)
            (subst
              (λ (p : Plan).
                All
                  (IsReady (frames i) (status i) debug_str C (R i) room (opens i) (answers i)
                    (clean i))
                  p.blueprint)
              (sym same) (plan_for_host-All _ body.plan (hostname i) body.hosts (ready i below))) in
        (
          done,
          sent
              ∙ ap (λ l. l ++ transcript (frames i) debug_str C (R i) (hostname i) (part i))
                  (C.sent-channel 1024),
        )

    pub end_sent : (i : ℕ) → i < length fs → ends (sends i) ≢ 0
    end_sent i below =
        (execute-end debug_str C (R i) (host i) (hostname i) (part i)
          (executor_on debug_str C (R i) (world i)) refl (part-fits i below) (told i below).0).0

    plan_returns :
        (pretty : Report → String) (results : List Assignment → List (Outcome (String × ℕ)))
        → All IsSettled (results fs)
        → (lines : List String) × (apply_plan pretty results body.plan body.hosts ≡ ok lines)
    unfolding apply_plan
    plan_returns pretty results settled =
        let (lines, e) = report_total pretty body.plan (results fs) settled in
        (lines, rw prepared e)

    -- A job of a plan of fewer than 2^32 tasks, for which all assignments are made, where each run's
    -- remote host lets the executor in, answers a command always with the same frames (text and then
    -- an exit status), and passes the tests of all prerequisites of the plan, and which is started on
    -- a store without it: however executors, channels of 1024 messages, reading tasks and other jobs
    -- have been interleaved, if the job ends once all reading tasks have ended and no run has
    -- panicked, then the job was evicted, or it is completed and its entries for a host that only one
    -- assignment has are exactly the lines of the transcript of the part of the plan for that host,
    -- in order.
    pub job_logged :
        (Q : Mpsc) (J : Cache) (job_id : String) (jobs : J.Jobs) (es : List Event) (s : System Q J)
        (pretty : Report → String) (results : List Assignment → List (Outcome (String × ℕ))) (i : ℕ)
        → J.get job_id jobs ≡ none
        → Reach Q J job_id hostname
            (length fs)
            (started Q J job_id hostname sends (run_plan J job_id body jobs).1)
            es
            s
        → ((j : ℕ) → j < length fs → (s.pipe j).reading ≡ false)
        → All IsSettled (results fs)
        → i < length fs
        → IsAlone hostname (length fs) i
        → let part_of = plan_for_host body.plan (hostname i) body.hosts in
          IsGoneOr J job_id
            (HasLogs (hostname i) (transcript (frames i) debug_str C (R i) (hostname i) part_of))
            (finish_job J job_id (apply_plan pretty results body.plan body.hosts) s.jobs)
    job_logged Q J job_id jobs es s pretty results i absent reached quiet settled below alone =
        let (same, _) = assigned-part body.plan body.hosts fs i prepared below in
        let (lines, returned) = plan_returns pretty results settled in
        let tell = transcript (frames i) debug_str C (R i) (hostname i) in
        subst
          (IsGoneOr J job_id
            (HasLogs (hostname i) (tell (plan_for_host body.plan (hostname i) body.hosts))))
          (sym (finish_job-returned J job_id _ lines s.jobs returned refl))
          (subst
            (λ ms. IsGoneOr J job_id (HasLogs (hostname i) ms) (finish_job J job_id applied s.jobs))
            ((told i below).1 ∙ ap tell same)
            (hosts_logged debug_str C R hostname host part world Q J job_id (length fs) part-fits
              end_sent body jobs absent es s reached i below alone applied (quiet i below)))
