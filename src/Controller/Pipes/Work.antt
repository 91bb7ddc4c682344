-- ===== src/Controller/Pipes/Work.antt =====
-- The work that is left in the runs side by side, which sending and receiving lessen.
use that_goes_there.Prelude.{
  ℕ, ◌+◌, ◌*◌, ◌≤◌, ◌<◌, String, ◌≡◌, ap, arith, List, [], ◌∷◌, length, set_at, sum, sum-set_at,
}
use that_goes_there.Executor.Stream.{Logs, PartialLogStream}
use that_goes_there.Executor.Mpsc.{Mpsc}
use that_goes_there.Controller.Cache.{Cache}
use that_goes_there.Controller.Server.History.{Event}
use that_goes_there.Controller.Pipes.{
  Pipe, System, sent, read_round, Step, send_step, read_step, elsewhere, Reach, initially,
  next_step,
}
use that_goes_there.Controller.Pipes.Rest.{IsOpen, idle, took, last, round-cases}

module _ (Q : Mpsc) (J : Cache) where
  open Q use {held, try_recv}

  -- A message that is still to send is to be sent and to be received.
  abbrev pub size : Pipe Q → ℕ
  size p = length (held p.reader.rx) + 2 * length p.pending

  abbrev pub work : ℕ → System Q J → ℕ
  work n s = sum size n s.pipe

  abbrev pub received : List PartialLogStream → ℕ
  received [] = 0
  received (m ∷ ms) = 1

  received-le : (ms : List PartialLogStream) → received ms ≤ 1
  received-le [] = omega arith
  received-le (m ∷ ms) = omega arith

  module _ (job_id : String) (hostname : ℕ → String) (n : ℕ) where
    -- A step that sends or receives a message counts.
    abbrev pub moves : {s t : System Q J} {fs : List Event} → Step Q J job_id hostname n s fs t → ℕ
    moves (send_step i m rest c below reads first taken) = 1
    moves {s} (read_step i below reads) = received (held (s.pipe i).reader.rx)
    moves (elsewhere e other) = 0

    abbrev pub all_moves :
        {s t : System Q J} {es : List Event} → Reach Q J job_id hostname n s es t → ℕ
    all_moves initially = 0
    all_moves (next_step r step) = all_moves r + moves step

    module _ (s : System Q J) (i : ℕ) (below : i < n) (later : List Logs)
        (h : IsOpen Q (s.pipe i) later) where
      pub sent-work :
          (m : PartialLogStream) (rest : List PartialLogStream) (c : Q.Chan)
          → (s.pipe i).pending ≡ m ∷ rest
          → length (held c) ≡ length (held (s.pipe i).reader.rx) + 1
          → 1 + sum size n (set_at i (sent Q rest c (s.pipe i)) s.pipe) ≤ work n s
      sent-work m rest c first one_more = omega (
        arith,
        sum-set_at size n i (sent Q rest c (s.pipe i)) s.pipe below,
        ap length first,
        one_more,
      )

      pub read-work :
          received (held (s.pipe i).reader.rx) + work n (read_round Q J job_id hostname i s)
          ≤ work n s
      read-work = elim (round-cases Q (s.pipe i) later h) [
        | idle none_held r p' left ↦ omega (
          arith,
          sum-set_at size n i _ s.pipe below,
          ap length none_held,
          ap length left,
          ap received none_held,
        )
        | took logs rest these r p' fewer ↦ omega (
          arith,
          sum-set_at size n i _ s.pipe below,
          fewer,
          received-le (held (s.pipe i).reader.rx),
        )
        | last these r p' fewer ↦ omega (
          arith,
          sum-set_at size n i _ s.pipe below,
          fewer,
          received-le (held (s.pipe i).reader.rx),
        )
      ]
