-- ===== src/Executor/Stream/Laws.antt =====
-- What a sink does to the messages sent.
use that_goes_there.Prelude.{◌+◌, ◌≡◌, ◌⊎◌, inl, inr, arith, List, [], ◌∷◌, ◌++◌, Bool-cases}
use that_goes_there.Outcome.{ok, err, external}
use that_goes_there.Executor.Stream.{Logs, PartialLogStream, next, end, ends, size, Channel, sink}

pub ends-append : (xs ys : List PartialLogStream) → ends (xs ++ ys) ≡ ends xs + ends ys
ends-append [] ys = omega arith
ends-append (next l ∷ xs) ys = ends-append xs ys
ends-append (end ∷ xs) ys = omega (arith, ends-append xs ys)

module _ (C : Channel) where
  open C use {Chan, sent}

  -- A sink returns the size of the message, which is then the last one sent, or it fails and sends
  -- nothing.
  pub sink_cases :
      (m : PartialLogStream) (c : Chan)
      → ((sink C m c).0 ≡ ok (size m)) × (sent (sink C m c).1 ≡ sent c ++ m ∷ [])
        ⊎ ((sink C m c).0 ≡ err (external "SendError")) × (sent (sink C m c).1 ≡ sent c)
  unfolding sink
  sink_cases m c = elim (Bool-cases (C.send m c).0) [
    | inl e ↦ inl (rw e, C.sent-send m c e)
    | inr e ↦ inr (rw e, C.sent-send_fails m c e)
  ]

  pub ends-sink_next : (l : Logs) (c : Chan) → ends (sent (sink C (next l) c).1) ≡ ends (sent c)
  ends-sink_next l c = elim (sink_cases (next l) c) [
    | inl (r, e) ↦ rw (e, ends-append) (omega arith)
    | inr (r, e) ↦ rw e
  ]
