-- ===== src/Controller/Pipes/Hosts.antt =====
-- A job of several hosts: each host's executor, with the runs side by side.
use that_goes_there.Prelude.{
  sum, ◌*◌, ◌≤◌, ℕ, ◌+◌, ◌^◌, ◌<◌, String, ◌≡◌, ◌⊎◌, Option, ◌≢◌, inl, inr, refl, sym, ap, subst,
  ◌∙◌, arith, false, none, some, List, [], ◌∷◌, ◌++◌, map, length,
}
use that_goes_there.Outcome.{Outcome, ok, err, panic}
use that_goes_there.Plan.Task.{Plan}
use that_goes_there.Plan.Host.{Host}
use that_goes_there.Ipc.{JobStartRequest, JobState, running}
use that_goes_there.Executor.Stream.{Logs, PartialLogStream, next, end, ends, Channel}
use that_goes_there.Executor.Stream.Laws.{ends-append}
use that_goes_there.Executor.Source.Loop.{delivered}
use that_goes_there.Executor.Mpsc.{Mpsc}
use that_goes_there.Executor.Ssh.{Remote, SshExecutor, execute}
use that_goes_there.Executor.Ssh.Opening.{refuses}
use that_goes_there.Executor.Ssh.Outcomes.{Interrupted, ExecutePost}
use that_goes_there.Executor.Ssh.Execute.{ssh_execute_outcomes}
use that_goes_there.Controller.Cache.{Cache}
use that_goes_there.Controller.Apply.Entries.{entries, entry}
use that_goes_there.Controller.Apply.Ending.{executor_on}
use that_goes_there.Controller.Server.{run_plan, finish_job}
use that_goes_there.Controller.Server.Jobs.{final_status}
use that_goes_there.Controller.Server.History.{Event}
use that_goes_there.Controller.Server.Whole.{all_of}
use that_goes_there.Controller.Pipes.{System, started, Reach}
use that_goes_there.Controller.Pipes.Rest.{closed}
use that_goes_there.Controller.Pipes.Kept.{IsAlone}
use that_goes_there.Controller.Pipes.Work.{all_moves}
use that_goes_there.Controller.Pipes.Settle.{pipes_settle}
use that_goes_there.Controller.Pipes.Seen.{ended_run-seen, running_run-seen}

-- One end, at the last place.
closed-delivered :
    (front : List PartialLogStream)
    → ends front ≡ 0
    → front ++ end ∷ [] ≡ closed (delivered (front ++ end ∷ []))
closed-delivered [] h = refl
closed-delivered (next logs ∷ front) h = ap (λ l. next logs ∷ l) (closed-delivered front h)
closed-delivered (end ∷ front) h = absurd (omega arith)

module _ (debug_str : String → String) (C : Channel) (R : Remote) where
  -- What the executor of `do_apply` sends.
  abbrev pub messages_of : Host → String → Plan → R.World → List PartialLogStream
  messages_of host hostname plan world =
      C.sent (execute debug_str C R host hostname plan (executor_on debug_str C R world)).1.chan

  -- An executor that has ended its stream, by its result or by a refused authentication, has ended
  -- it once, by its last message.
  pub messages-closed :
      (host : Host) (hostname : String) (plan : Plan) (world : R.World)
      → length plan.blueprint < 2 ^ 32
      → ends (messages_of host hostname plan world) ≢ 0
      → let ms = messages_of host hostname plan world in ms ≡ closed (delivered ms)
  messages-closed host hostname plan world fits some_end =
      by_outcome _ _
        (ssh_execute_outcomes debug_str C R host hostname plan (executor_on debug_str C R world)
          refl fits)
        some_end
    where
      none_sent : ends (C.sent (C.channel 1024)) ≡ 0
      none_sent = ap ends (C.sent-channel 1024)

      at_last :
          (t : SshExecutor debug_str C R)
          → ends (C.sent t.chan) ≡ ends (C.sent (C.channel 1024)) + 1
          → (before : List PartialLogStream) × (C.sent t.chan ≡ before ++ end ∷ [])
          → C.sent t.chan ≡ closed (delivered (C.sent t.chan))
      at_last t one (before, last) =
          subst (λ ms. ms ≡ closed (delivered ms)) (sym last)
            (closed-delivered before
              (omega (arith, one, none_sent, ap ends last, ends-append before (end ∷ []))))

      interrupted :
          (r : Outcome (Unit {0})) (t : SshExecutor debug_str C R)
          → Interrupted debug_str C R plan
              (refuses debug_str C R host world)
              (ends (C.sent (C.channel 1024)))
              (R.executed world)
              r
              t
          → ends (C.sent t.chan) ≢ 0
          → C.sent t.chan ≡ closed (delivered (C.sent t.chan))
      interrupted r t post h = elim post.ended [
        | inl (same, _) ↦ absurd (h (same ∙ none_sent))
        | inr (_, _, one, last, _) ↦ at_last t one last
      ]

      by_outcome :
          (r : Outcome (Unit {0})) (t : SshExecutor debug_str C R)
          → ExecutePost debug_str C R plan
              (refuses debug_str C R host world)
              (ends (C.sent (C.channel 1024)))
              (R.executed world)
              r
              t
          → ends (C.sent t.chan) ≢ 0
          → C.sent t.chan ≡ closed (delivered (C.sent t.chan))
      by_outcome (ok _) t post h = at_last t post.ended post.last
      by_outcome (err e) t post h = interrupted (err e) t post h
      by_outcome (panic p) t post h = interrupted (panic p) t post h

module _ (J : Cache) (job_id : String) where
  -- The store has no such job, or has one of which `P` holds.
  abbrev pub IsGoneOr : (JobState → Type 0) → J.Jobs → Type 0
  IsGoneOr P jobs =
      (J.get job_id jobs ≡ none) ⊎ ((job : JobState) × (J.get job_id jobs ≡ some job) × P job)

  if_stored :
      (P : JobState → Type 0) (jobs : J.Jobs)
      → ((job : JobState) → J.get job_id jobs ≡ some job → P job)
      → IsGoneOr P jobs
  if_stored P jobs h = by_found (J.get job_id jobs) refl
    where
      by_found : (o : Option JobState) → J.get job_id jobs ≡ o → IsGoneOr P jobs
      by_found none e = inl e
      by_found (some job) e = inr (job, e, h job e)

module _ (debug_str : String → String) (C : Channel) (R : ℕ → Remote) (hostname : ℕ → String)
    (host : ℕ → Host) (part : ℕ → Plan) (world : (j : ℕ) → (R j).World) where
  -- What the executors send, each with a remote host of its own.
  abbrev pub messages : ℕ → List PartialLogStream
  messages i = messages_of debug_str C (R i) (host i) (hostname i) (part i) (world i)

  module _ (Q : Mpsc) (J : Cache) (job_id : String) (n : ℕ)
      (fits : (i : ℕ) → i < n → length (part i).blueprint < 2 ^ 32)
      (end_sent : (i : ℕ) → i < n → ends (messages i) ≢ 0) where
    pub all-closed : (i : ℕ) → i < n → messages i ≡ closed (delivered (messages i))
    all-closed i below =
        messages-closed debug_str C (R i) (host i) (hostname i) (part i) (world i) (fits i below)
          (end_sent i below)

    -- The parts of a job on `n` hosts by remote executors that have each ended their stream, and have
    -- fewer than 2^32 tasks: however executors, channels of 1024 messages, reading tasks and other
    -- jobs have been interleaved from any store, the hosts' runs have sent and received at most twice
    -- as many messages as there are in all, and from there all reading tasks can end.
    pub hosts_settle :
        (jobs : J.Jobs) (es : List Event) (s : System Q J)
        (r : Reach Q J job_id hostname n (started Q J job_id hostname messages jobs) es s)
        → (all_moves Q J job_id hostname n r ≤ sum (λ ms. 2 * length ms) n messages)
          × ((fs : List Event) × (t : System Q J) × Reach Q J job_id hostname n s fs t
              × ((i : ℕ) → i < n → (t.pipe i).reading ≡ false))
    hosts_settle jobs es s r = pipes_settle Q J job_id hostname n messages all-closed jobs r

    module _ (body : JobStartRequest) (jobs : J.Jobs) (absent : J.get job_id jobs ≡ none)
        (es : List Event) (s : System Q J)
        (reached : Reach Q J job_id hostname n
          (started Q J job_id hostname messages (run_plan J job_id body jobs).1)
          es
          s)
        (i : ℕ) (below : i < n) (alone : IsAlone hostname n i) where
      -- The parts of a job on `n` hosts by remote executors that have each ended their stream, and
      -- have fewer than 2^32 tasks, where the job is started on a store without it: however
      -- executors, channels of 1024 messages, reading tasks and other jobs have been interleaved, the
      -- job was evicted, or it is running and its entries for a host that is the host of one run are
      -- a first part of the logs that the host's executor sends, in order.
      pub hosts_running-prefix :
          IsGoneOr J job_id
            (λ job.
              (job.status ≡ running)
              × (seen : Logs) × (unseen : Logs) × (all_of (delivered (messages i)) ≡ seen ++ unseen)
              × (entries (hostname i) job.logs ≡ map (entry (hostname i)) seen))
            s.jobs
      hosts_running-prefix = if_stored J job_id _ s.jobs (λ job there.
          running_run-seen Q J job_id hostname n messages all-closed body jobs es s job i absent
            reached below alone there)

      -- The parts of a job on `n` hosts by remote executors that have each ended their stream, and
      -- have fewer than 2^32 tasks, where the job is started on a store without it: however
      -- executors, channels of 1024 messages, reading tasks and other jobs have been interleaved, if
      -- the job ends once the reading task of a host has ended that is the host of one run, then the
      -- job was evicted, or its status is that of its outcome and its entries for the host are
      -- exactly the logs that the host's executor has sent in front of the end of its stream, in
      -- order.
      pub hosts_logged :
          (r : Outcome (Unit {0}))
          → (s.pipe i).reading ≡ false
          → IsGoneOr J job_id
              (λ job.
                (job.status ≡ final_status r)
                × (entries (hostname i) job.logs
                    ≡ map (entry (hostname i)) (all_of (delivered (messages i)))))
              (finish_job J job_id r s.jobs)
      hosts_logged r quiet = if_stored J job_id _ (finish_job J job_id r s.jobs) (λ job there.
          ended_run-seen Q J job_id hostname n messages all-closed body jobs es s r job i absent
            reached below alone quiet there)
