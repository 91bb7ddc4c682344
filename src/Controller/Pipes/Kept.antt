-- ===== src/Controller/Pipes/Kept.antt =====
-- What holds in every state that the runs side by side reach.
use mathlib.Core.List.{append-nil, append_assoc}
use native.Mathlib.Decide.{ℕ_discrete}
use that_goes_there.Prelude.{
  ℕ, ◌<◌, String, ◌≡◌, ◌≢◌, inl, inr, refl, sym, ap, subst, ◌∙◌, true, false, some, List, [], ◌∷◌,
  ◌++◌, All, All-append, str_eq, set_at, set_at_self, set_at_other,
}
use that_goes_there.Outcome.{Outcome}
use that_goes_there.Executor.Stream.{Logs, PartialLogStream}
use that_goes_there.Executor.Source.{source, round}
use that_goes_there.Executor.Mpsc.{Mpsc}
use that_goes_there.Controller.Cache.{Cache}
use that_goes_there.Controller.Apply.{store_logs}
use that_goes_there.Controller.Server.History.{Event, log, ident, on_store, run_store}
use that_goes_there.Controller.Server.History.Outcomes.{IsBetween, run_store-append}
use that_goes_there.Controller.Server.Whole.{all_of}
use that_goes_there.Controller.Pipes.{
  Pipe, opened, System, stored, sent, read_on, started, Step, send_step, read_step, elsewhere,
  Reach, initially, next_step,
}
use that_goes_there.Controller.Pipes.Rest.{
  Rest, IsOpen, closed, read_by, idle, took, last, opened-IsOpen, sent-IsOpen, round-cases,
}
use that_goes_there.Controller.Pipes.Came.{
  came, came-append, came-own, came-other, came-elsewhere, elsewhere-IsBetween,
}

module _ (hostname : ℕ → String) (n : ℕ) where
  -- No other run has the hostname of the run `i`.
  abbrev pub IsAlone : ℕ → Type 0
  IsAlone i = (j : ℕ) → j < n → hostname j ≡ hostname i → j ≡ i

module _ (Q : Mpsc) (J : Cache) (job_id : String) (hostname : ℕ → String) (n : ℕ)
    (ls : ℕ → List Logs) (jobs : J.Jobs) where
  -- What is still to come in the run `i` follows what came for its host.
  abbrev pub Coming : List Event → ℕ → Pipe Q → Type 0
  Coming es i p =
      (later : List Logs) × Rest Q p later
      × (IsAlone hostname n i → came job_id (hostname i) es ++ all_of later ≡ all_of (ls i))

  pub record Kept (es : List Event) (s : System Q J) : Type 0 where
    pub store : s.jobs ≡ run_store J es jobs
    pub between : All (IsBetween job_id) es
    pub coming : (i : ℕ) → i < n → Coming es i (s.pipe i)

  -- Events that bring nothing for the host of a run.
  same-Coming :
      (es fs : List Event) (i : ℕ) (p : Pipe Q)
      → (IsAlone hostname n i → came job_id (hostname i) fs ≡ [])
      → Coming es i p
      → Coming (es ++ fs) i p
  same-Coming es fs i p nothing (later, rest, all) = (
    later,
    rest,
    λ alone.
        ap (λ l. l ++ all_of later)
          (came-append job_id (hostname i) es fs
            ∙ ap (λ l. came job_id (hostname i) es ++ l) (nothing alone)
            ∙ append-nil (came job_id (hostname i) es))
        ∙ all alone,
  )

  module _ (es : List Event) (s : System Q J) (h : Kept es s) where
    -- One run changes, and brings these logs.
    changed :
        (i : ℕ) (p : Pipe Q) (fs : List Event) (after : J.Jobs)
        → Coming (es ++ fs) i p
        → ((j : ℕ) → i ≢ j → j < n → IsAlone hostname n j → came job_id (hostname j) fs ≡ [])
        → All (IsBetween job_id) fs
        → after ≡ run_store J fs s.jobs
        → Kept (es ++ fs) (record { pipe = set_at i p s.pipe; jobs = after })
    changed i p fs after now others between stored_now = record {
      store = stored_now ∙ ap (run_store J fs) h.store ∙ sym (run_store-append J es fs jobs);
      between = All-append (IsBetween job_id) es fs h.between between;
      coming = at_run;
    }
      where
        at_run : (j : ℕ) → j < n → Coming (es ++ fs) j (set_at i p s.pipe j)
        at_run j lt = elim (ℕ_discrete i j) [
          | yes same ↦
              subst (λ k. Coming (es ++ fs) k (set_at i p s.pipe k)) same
                (subst (Coming (es ++ fs) i) (sym (set_at_self i p s.pipe)) now)
          | no other ↦
              subst (Coming (es ++ fs) j) (sym (set_at_other i p s.pipe j other))
                (same-Coming es fs j (s.pipe j) (λ alone. others j other lt alone) (h.coming j lt))
        ]

    quiet :
        (i : ℕ) (p : Pipe Q) (later : List Logs)
        → Rest Q p later
        → (IsAlone hostname n i → came job_id (hostname i) es ++ all_of later ≡ all_of (ls i))
        → Kept (es ++ []) (record { pipe = set_at i p s.pipe; jobs = s.jobs })
    unfolding run_store
    quiet i p later rest all =
        changed i p [] s.jobs (same-Coming es [] i p (λ alone. refl) (later, rest, all))
          (λ j other lt alone. refl) tt refl

    -- The reading task of the run has stored logs.
    stored_logs :
        (i : ℕ) (p : Pipe Q) (logs : Logs) (before later : List Logs)
        → i < n
        → Rest Q p later
        → all_of before ≡ logs ++ all_of later
        → (IsAlone hostname n i → came job_id (hostname i) es ++ all_of before ≡ all_of (ls i))
        → Kept (es ++ log job_id (hostname i) logs ∷ []) (record {
          pipe = set_at i p s.pipe;
          jobs = store_logs J job_id (hostname i) logs s.jobs;
        })
    unfolding run_store
    stored_logs i p logs before later below rest parts all =
        changed i p (log job_id (hostname i) logs ∷ []) _
          (
            later,
            rest,
            λ alone.
                ap (λ l. l ++ all_of later)
                  (came-append job_id (hostname i) es (log job_id (hostname i) logs ∷ [])
                    ∙ ap (λ l. came job_id (hostname i) es ++ l)
                        (came-own job_id (hostname i) logs))
                ∙ append_assoc (came job_id (hostname i) es) logs (all_of later)
                ∙ ap (λ l. came job_id (hostname i) es ++ l) (sym parts)
                ∙ all alone,
          )
          (λ j other lt alone.
            came-other job_id (hostname j) (hostname i) logs (λ same. other (alone i below same)))
          (tt, tt) refl

    -- The state behind a round in which `source` gives `r`.
    abbrev behind : ℕ → Outcome PartialLogStream → System Q J
    behind i r =
        let p = s.pipe i in
        let (more, after) = round (store_logs J job_id (hostname i)) r s.jobs in
        record {
          pipe = set_at i (read_on Q more (source Q.try_recv p.reader).1 p) s.pipe;
          jobs = after;
        }

    abbrev KeptBy : ℕ → Outcome PartialLogStream → Type 0
    KeptBy i r = Kept (es ++ stored job_id (hostname i) r) (behind i r)

    module _ (i : ℕ) (below : i < n) (p_reads : (s.pipe i).reading ≡ true) where
      round-Kept :
          (later : List Logs)
          → IsOpen Q (s.pipe i) later
          → (IsAlone hostname n i → came job_id (hostname i) es ++ all_of later ≡ all_of (ls i))
          → KeptBy i (source Q.try_recv (s.pipe i).reader).0
      round-Kept later opened all = elim (round-cases Q (s.pipe i) later opened) [
        | idle none_held r p' left ↦
            subst (KeptBy i) (sym r)
              (stored_logs i (read_by Q (s.pipe i) true) [] later later below (inl p') refl all)
        | took logs rest these r p' left ↦ subst (KeptBy i) (sym r) (
            stored_logs i (read_by Q (s.pipe i) true) logs later rest below (inl p')
              (ap all_of these) all)
        | last these r p' left ↦
            subst (KeptBy i) (sym r) (quiet i (read_by Q (s.pipe i) false) later (inr p') all)
      ]

      read-Kept : KeptBy i (source Q.try_recv (s.pipe i).reader).0
      read-Kept =
          let (later, rest, all) = h.coming i below in
          elim rest [
            | inl opened ↦ round-Kept later opened all
            | inr shut ↦ absurd (cc (shut.done))
          ]

      sent-Kept :
          (m : PartialLogStream) (rest : List PartialLogStream) (c : Q.Chan)
          → (s.pipe i).pending ≡ m ∷ rest
          → Q.send m (s.pipe i).reader.rx ≡ some c
          → Kept
              (es ++ [])
              (record { pipe = set_at i (sent Q rest c (s.pipe i)) s.pipe; jobs = s.jobs })
      sent-Kept m rest c first taken =
          let (later, left, all) = h.coming i below in
          elim left [
            | inl opened ↦
                quiet i _ later (inl (sent-IsOpen Q (s.pipe i) later opened m rest c first taken))
                  all
            | inr shut ↦ absurd (cc (shut.done))
          ]

    elsewhere-Kept :
        (e : Event)
        → str_eq (ident e) job_id ≡ false
        → Kept (es ++ e ∷ []) (record { pipe = s.pipe; jobs = on_store J e s.jobs })
    unfolding run_store
    elsewhere-Kept e other = record {
      store = ap (on_store J e) h.store ∙ sym (run_store-append J es (e ∷ []) jobs);
      between =
          All-append (IsBetween job_id) es (e ∷ []) h.between
            (elsewhere-IsBetween job_id e other, tt);
      coming = λ j lt.
          same-Coming es (e ∷ []) j (s.pipe j) (λ alone. came-elsewhere job_id (hostname j) e other)
            (h.coming j lt);
    }

    Step-Kept :
        {fs : List Event} {t : System Q J} → Step Q J job_id hostname n s fs t → Kept (es ++ fs) t
    Step-Kept (send_step i m rest c below reads first taken) =
        sent-Kept i below reads m rest c first taken
    Step-Kept (read_step i below reads) = read-Kept i below reads
    Step-Kept (elsewhere e other) = elsewhere-Kept e other

  -- The executors send what is still to come at the start.
  module _ (messages : ℕ → List PartialLogStream)
      (ended : (i : ℕ) → i < n → messages i ≡ closed (ls i)) where
    started-Kept : Kept [] (started Q J job_id hostname messages jobs)
    unfolding run_store
    started-Kept = record {
      store = refl;
      between = tt;
      coming = λ i lt. (
        ls i,
        subst (λ ms. Rest Q (opened Q ms) (ls i)) (sym (ended i lt)) (inl (opened-IsOpen Q (ls i))),
        λ alone. refl,
      );
    }

    pub Reach-Kept :
        {es : List Event} {s : System Q J}
        → Reach Q J job_id hostname n (started Q J job_id hostname messages jobs) es s
        → Kept es s
    Reach-Kept initially = started-Kept
    Reach-Kept (next_step r step) = Step-Kept _ _ (Reach-Kept r) step
