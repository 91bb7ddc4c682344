-- ===== src/Controller/Pipes/Settle.antt =====
-- No run blocks the others for good: where a reading task is left there is a step that lessens the
-- work, and from every state that is reached all reading tasks can end.
use native.Mathlib.Decide.{dec_lt}
use that_goes_there.Prelude.{
  ℕ, zero, suc, ◌+◌, ◌*◌, ◌≤◌, ◌<◌, String, ◌≡◌, ◌⊎◌, inl, inr, refl, ap, subst, sym, ◌∙◌, arith,
  true, false, List, [], ◌∷◌, ◌++◌, length, length-append, Bool-cases, sum,
}
use that_goes_there.Executor.Stream.{Logs, PartialLogStream}
use that_goes_there.Executor.Source
use that_goes_there.Executor.Source.Loop.{delivered}
use that_goes_there.Executor.Mpsc.{Mpsc, send-some}
use that_goes_there.Controller.Cache.{Cache}
use that_goes_there.Controller.Server.History.{Event}
use that_goes_there.Controller.Pipes.{
  System, started, Step, send_step, read_step, elsewhere, Reach, initially, next_step,
}
use that_goes_there.Controller.Pipes.Rest.{IsOpen, closed, closed-not_nil}
use that_goes_there.Controller.Pipes.Work.{work, received, moves, all_moves, sent-work, read-work}
use that_goes_there.Controller.Pipes.Kept.{Kept, Reach-Kept}

module _ (Q : Mpsc) (J : Cache) (job_id : String) (hostname : ℕ → String) (n : ℕ)
    (messages : ℕ → List PartialLogStream)
    (ended : (i : ℕ) → i < n → messages i ≡ closed (delivered (messages i))) (jobs : J.Jobs) where
  open Q use {held}

  abbrev Kept' : List Event → System Q J → Type 0
  Kept' = Kept Q J job_id hostname n (λ i. delivered (messages i)) jobs

  -- A run whose reading task is in its loop.
  reading-IsOpen :
      (es : List Event) (s : System Q J) (i : ℕ)
      → Kept' es s
      → i < n
      → (s.pipe i).reading ≡ true
      → (later : List Logs) × IsOpen Q (s.pipe i) later
  reading-IsOpen es s i h below reads =
      let (later, rest, _) = h.coming i below in
      elim rest [ inl opened ↦ (later, opened) | inr shut ↦ absurd (cc (shut.done)) ]

  Step-work :
      (es : List Event) (s : System Q J) (fs : List Event) (t : System Q J)
      → Kept' es s
      → (step : Step Q J job_id hostname n s fs t)
      → moves Q J job_id hostname n step + work Q J n t ≤ work Q J n s
  Step-work es s _ _ h (send_step i m rest c below reads first taken) =
      let (later, opened) = reading-IsOpen es s i h below reads in
      sent-work Q J job_id hostname n s i below later opened m rest c first (
        ap length (send-some Q m (s.pipe i).reader.rx c taken).1
        ∙ length-append (held (s.pipe i).reader.rx) (m ∷ []))
  Step-work es s _ _ h (read_step i below reads) =
      let (later, opened) = reading-IsOpen es s i h below reads in
      read-work Q J job_id hostname n s i below later opened
  Step-work es s _ _ h (elsewhere e other) = omega arith

  abbrev pub beginning : System Q J
  beginning = started Q J job_id hostname messages jobs

  reached-Kept :
      {es : List Event} {s : System Q J} → Reach Q J job_id hostname n beginning es s → Kept' es s
  reached-Kept r =
      Reach-Kept Q J job_id hostname n (λ i. delivered (messages i)) jobs messages ended r

  pub Reach-work :
      {es : List Event} {s : System Q J} (r : Reach Q J job_id hostname n beginning es s)
      → all_moves Q J job_id hostname n r + work Q J n s ≤ work Q J n beginning
  Reach-work initially = omega arith
  Reach-work (next_step {es} {fs} {t} {u} r step) =
      omega (arith, Reach-work r, Step-work es t fs u (reached-Kept r) step)

  -- A step that sends or receives a message.
  abbrev pub SomeMove : System Q J → Type 0
  SomeMove s =
      (fs : List Event) × (t : System Q J) × (step : Step Q J job_id hostname n s fs t) × (moves Q J
          job_id hostname n step
        ≡ 1)

  -- While a reading task is in its loop, its executor can send or the task can receive.
  pub some_move :
      (es : List Event) (s : System Q J) (i : ℕ)
      → Kept' es s
      → i < n
      → (s.pipe i).reading ≡ true
      → SomeMove s
  some_move es s i h below reads = by_held (held (s.pipe i).reader.rx) refl
    where
      pending_or :
          (later : List Logs) (ms : List PartialLogStream)
          → IsOpen Q (s.pipe i) later
          → held (s.pipe i).reader.rx ≡ []
          → (s.pipe i).pending ≡ ms
          → SomeMove s
      pending_or later [] opened none_held e =
          absurd (
            closed-not_nil later
              (sym opened.rest ∙ ap (λ l. l ++ (s.pipe i).pending) none_held ∙ e))
      pending_or later (m ∷ rest) opened none_held e =
          let (c, taken, _, _) =
            Q.send_room m (s.pipe i).reader.rx (omega (arith, ap length none_held, opened.room)) in
          (_, _, send_step i m rest c below reads e taken, refl)

      by_held : (ms : List PartialLogStream) → held (s.pipe i).reader.rx ≡ ms → SomeMove s
      by_held [] none_held =
          let (later, opened) = reading-IsOpen es s i h below reads in
          pending_or later (s.pipe i).pending opened none_held refl
      by_held (m ∷ ms) first = (_, _, read_step i below reads, ap (received Q J) first)

  -- Whether all of the first runs have ended.
  reading-or :
      (s : System Q J) (k : ℕ)
      → k ≤ n
      → ((i : ℕ) → i < k → (s.pipe i).reading ≡ false)
        ⊎ ((i : ℕ) × (i < n) × ((s.pipe i).reading ≡ true))
  reading-or s zero h = inl (λ i lt. absurd (omega arith))
  reading-or s (suc k) h = elim (reading-or s k (omega arith)) [
    | inr found ↦ inr found
    | inl quiet ↦ elim (Bool-cases (s.pipe k).reading) [
      | inl reads ↦ inr (k, omega arith, reads)
      | inr ended ↦ inl (λ i lt. elim (dec_lt i k) [
        | yes less ↦ quiet i less
        | no other ↦ subst (λ j. (s.pipe j).reading ≡ false) (omega arith) ended
      ])
    ]
  ]

  abbrev pub AllEnded : System Q J → Type 0
  AllEnded s = (i : ℕ) → i < n → (s.pipe i).reading ≡ false

  -- All reading tasks have ended, in a state that is reached from here.
  abbrev pub Settles : System Q J → Type 0
  Settles s = (fs : List Event) × (t : System Q J) × Reach Q J job_id hostname n s fs t × AllEnded t

  settle-from :
      (fuel : ℕ) (s0 : System Q J) (es fs : List Event) (s : System Q J)
      → Reach Q J job_id hostname n beginning es s
      → Reach Q J job_id hostname n s0 fs s
      → work Q J n s < fuel
      → Settles s0
  settle-from zero s0 es fs s r c h = absurd (omega arith)
  settle-from (suc fuel) s0 es fs s r c h = elim (reading-or s n (omega arith)) [
    | inl ended ↦ (fs, s, c, ended)
    | inr (i, below, reads) ↦
        let kept = reached-Kept r in
        let (gs, t, step, one) = some_move es s i kept below reads in
        settle-from fuel s0 (es ++ gs) (fs ++ gs) t (next_step r step) (next_step c step)
          (omega (arith, one, Step-work es s gs t kept step))
  ]

  beginning-work : (k : ℕ) → work Q J k beginning ≡ sum (λ ms. 2 * length ms) k messages
  unfolding Source.new
  beginning-work zero = refl
  beginning-work (suc k) = omega (arith, beginning-work k, ap length (Q.held-channel 1024))

  -- Runs side by side over channels of 1024 messages, each of whose executors sends logs and then an
  -- end: however they have been interleaved, with one another and with other jobs, they have sent
  -- and received at most twice as many messages as they have in all, and from there all reading
  -- tasks can end.
  pub pipes_settle :
      {es : List Event} {s : System Q J} (r : Reach Q J job_id hostname n beginning es s)
      → (all_moves Q J job_id hostname n r ≤ sum (λ ms. 2 * length ms) n messages) × Settles s
  pipes_settle {es} {s} r = (
    omega (arith, Reach-work r, beginning-work n),
    settle-from (1 + work Q J n s) s es [] s r initially (omega arith),
  )
