-- ===== src/Controller/Pipes/Stuck.antt =====
-- A run whose executor fails before it has ended its stream, beside other runs.
use native.Mathlib.Decide.{ℕ_discrete}
use that_goes_there.Prelude.{
  ℕ, ◌^◌, ◌<◌, String, ◌≡◌, ◌≢◌, refl, sym, ap, subst, ◌∙◌, arith, true, false, some, List, [], ◌∷◌,
  ◌++◌, length, set_at, set_at_self, set_at_other,
}
use that_goes_there.Outcome.{Report, ok, err}
use that_goes_there.Plan.Task.{Plan}
use that_goes_there.Plan.Host.{Host}
use that_goes_there.Executor.Stream.{Logs, PartialLogStream, next, end, ends, Channel}
use that_goes_there.Executor.Stream.Laws.{ends-append}
use that_goes_there.Executor.Source
use that_goes_there.Executor.Source.{SimpleLogSource, source, round}
use that_goes_there.Executor.Mpsc.{Mpsc, send-some, source-idle, source-took}
use that_goes_there.Executor.Ssh.{Remote, execute}
use that_goes_there.Executor.Ssh.Outcomes.{refused}
use that_goes_there.Executor.Ssh.Ends.{execute-no_end}
use that_goes_there.Controller.Cache.{Cache}
use that_goes_there.Controller.Apply.{store_logs}
use that_goes_there.Controller.Apply.Ending.{executor_on}
use that_goes_there.Controller.Server.History.{Event}
use that_goes_there.Controller.Pipes.{
  Pipe, opened, System, sent, read_on, started, Step, send_step, read_step, elsewhere, Reach,
  initially, next_step,
}
use that_goes_there.Controller.Pipes.Hosts.{messages}

module _ (Q : Mpsc) where
  open Q use {Chan, held, try_recv}

  -- The reading task is in its loop, and no end is still to come.
  record IsEndless (p : Pipe Q) : Type 0 where
    reads : p.reading ≡ true
    not_ended : p.reader.ended ≡ false
    no_end : ends (held p.reader.rx ++ p.pending) ≡ 0

  opened-IsEndless : (ms : List PartialLogStream) → ends ms ≡ 0 → IsEndless (opened Q ms)
  unfolding Source.new
  opened-IsEndless ms none_sent = record {
    reads = refl;
    not_ended = refl;
    no_end = ap (λ l. ends (l ++ ms)) (Q.held-channel 1024) ∙ none_sent;
  }

  module _ (p : Pipe Q) (h : IsEndless p) where
    sent-IsEndless :
        (m : PartialLogStream) (rest : List PartialLogStream) (c : Chan)
        → p.pending ≡ m ∷ rest
        → Q.send m p.reader.rx ≡ some c
        → IsEndless (sent Q rest c p)
    sent-IsEndless m rest c first taken = record {
      reads = h.reads;
      not_ended = h.not_ended;
      no_end = omega (
        arith,
        ap ends (send-some Q m p.reader.rx c taken).1,
        ap ends first,
        ends-append (held c) rest,
        ends-append (held p.reader.rx) (m ∷ []),
        ends-append (m ∷ []) rest,
        ends-append (held p.reader.rx) p.pending,
        h.no_end,
      );
    }

    -- A round gives logs, and nothing else changes.
    record Goes : Type 0 where
      logs : Logs
      gives : (source try_recv p.reader).0 ≡ ok (next logs)
      after : IsEndless (read_on Q true (source try_recv p.reader).1 p)

    goes : Goes
    goes = by_held (held p.reader.rx) refl
      where
        by_held : (ms : List PartialLogStream) → held p.reader.rx ≡ ms → Goes
        by_held [] e =
            let (r, reader) = source-idle Q p.reader h.not_ended e in
            let (_, left, _) = Q.recv_empty p.reader.rx e in
            record {
              logs = [];
              gives = r;
              after = record {
                reads = refl;
                not_ended = ap (λ (s : SimpleLogSource Chan). s.ended) reader;
                no_end =
                    ap (λ l. ends (l ++ p.pending))
                      (ap (λ (s : SimpleLogSource Chan). held s.rx) reader ∙ left ∙ sym e)
                    ∙ h.no_end;
              };
            }
        by_held (next logs ∷ ms) e =
            let (r, reader) = source-took Q p.reader h.not_ended logs ms e in
            let (_, left, _) = Q.recv_message p.reader.rx (next logs) ms e in
            record {
              logs = logs;
              gives = r;
              after = record {
                reads = refl;
                not_ended = ap (λ (s : SimpleLogSource Chan). s.ended) reader;
                no_end =
                    ap (λ l. ends (l ++ p.pending))
                      (ap (λ (s : SimpleLogSource Chan). held s.rx) reader ∙ left)
                    ∙ sym (ap (λ l. ends (l ++ p.pending)) e)
                    ∙ h.no_end;
              };
            }
        by_held (end ∷ ms) e =
            absurd (omega (arith, ap ends e, ends-append (held p.reader.rx) p.pending, h.no_end))

module _ (Q : Mpsc) (J : Cache) (job_id : String) (hostname : ℕ → String) (n i : ℕ) where
  -- A run that is changed is this one or another.
  changed :
      (j : ℕ) (p : Pipe Q) (s : System Q J)
      → IsEndless Q (s.pipe i)
      → (j ≡ i → IsEndless Q p)
      → IsEndless Q (set_at j p s.pipe i)
  changed j p s h now = elim (ℕ_discrete j i) [
    | yes same ↦
        subst (λ k. IsEndless Q (set_at j p s.pipe k)) same
          (subst (IsEndless Q) (sym (set_at_self j p s.pipe)) (now same))
    | no other ↦ subst (IsEndless Q) (sym (set_at_other j p s.pipe i other)) h
  ]

  Step-IsEndless :
      (s : System Q J) (fs : List Event) (t : System Q J)
      → Step Q J job_id hostname n s fs t
      → IsEndless Q (s.pipe i)
      → IsEndless Q (t.pipe i)
  Step-IsEndless s _ _ (send_step j m rest c below reads first taken) h = changed j _ s h (λ same.
      sent-IsEndless Q (s.pipe j) (subst (λ k. IsEndless Q (s.pipe k)) (sym same) h) m rest c first
        taken)
  Step-IsEndless s _ _ (read_step j below reads) h = changed j _ s h (λ same.
      let g = goes Q (s.pipe j) (subst (λ k. IsEndless Q (s.pipe k)) (sym same) h) in
      subst
        (λ r. IsEndless Q (
          read_on Q (round (store_logs J job_id (hostname j)) r s.jobs).0
            (source Q.try_recv (s.pipe j).reader).1 (s.pipe j)))
        (sym g.gives) g.after)
  Step-IsEndless s _ _ (elsewhere e other) h = h

  pub Reach-reading :
      {es : List Event} {s : System Q J} (messages : ℕ → List PartialLogStream) (jobs : J.Jobs)
      → ends (messages i) ≡ 0
      → Reach Q J job_id hostname n (started Q J job_id hostname messages jobs) es s
      → (s.pipe i).reading ≡ true
  Reach-reading messages jobs none_sent r = (endless r).reads
    where
      endless :
          {es : List Event} {s : System Q J}
          → Reach Q J job_id hostname n (started Q J job_id hostname messages jobs) es s
          → IsEndless Q (s.pipe i)
      endless initially = opened-IsEndless Q (messages i) none_sent
      endless (next_step r step) = Step-IsEndless _ _ _ step (endless r)

module _ (debug_str : String → String) (C : Channel) (R : ℕ → Remote) (hostname : ℕ → String)
    (host : ℕ → Host) (part : ℕ → Plan) (world : (j : ℕ) → (R j).World) where
  -- Runs of remote executors side by side, one of which, with fewer than 2^32 tasks, fails by an
  -- error other than the refused authentication: its reading task never ends, in any interleaving
  -- of executors, channels of 1024 messages, reading tasks and other jobs.
  pub failed_run-reading :
      (Q : Mpsc) (J : Cache) (job_id : String) (n i : ℕ) (e : Report) (jobs : J.Jobs)
      (es : List Event) (s : System Q J)
      → length (part i).blueprint < 2 ^ 32
      → (execute debug_str C
          (R i)
          (host i)
          (hostname i)
          (part i)
          (executor_on debug_str C (R i) (world i))).0
        ≡ err e
      → err e ≢ refused
      → Reach Q J job_id hostname n
          (started Q J job_id hostname (messages debug_str C R hostname host part world) jobs)
          es
          s
      → (s.pipe i).reading ≡ true
  failed_run-reading Q J job_id n i e jobs es s fits failed other r =
      Reach-reading Q J job_id hostname n i (messages debug_str C R hostname host part world) jobs
        (execute-no_end debug_str C (R i) (host i) (hostname i) (part i) _ e refl fits
          (ap ends (C.sent-channel 1024)) failed other)
        r
