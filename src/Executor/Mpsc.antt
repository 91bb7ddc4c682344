-- ===== src/Executor/Mpsc.antt =====
-- A `tokio::sync::mpsc` channel as both its ends see it while both are there, for runs in which the
-- executor and the reading task take turns.
use native.Mathlib.Decide.{dec_lt}
use that_goes_there.Prelude.{
  ℕ, ◌≤◌, ◌<◌, ◌≡◌, refl, sym, ap, ◌∙◌, subst, arith, Option, none, some, false, List, [], ◌∷◌,
  ◌++◌, length,
}
use that_goes_there.Executor.Stream.{Logs, PartialLogStream, next, end}
use that_goes_there.Outcome.{ok}
use that_goes_there.Executor.Source.{Received, message, empty, SimpleLogSource, source, on_received}

-- `send` is `none` while it waits for room; `held` is what was sent and not yet received.
pub record Mpsc : Type 1 where
  pub Chan : Type 0
  pub channel : (capacity : ℕ) → Chan
  pub send : PartialLogStream → Chan → Option Chan
  pub try_recv : Chan → Received × Chan
  pub held : Chan → List PartialLogStream
  pub capacity : Chan → ℕ
  pub held-channel : (n : ℕ) → held (channel n) ≡ []
  pub capacity-channel : (n : ℕ) → capacity (channel n) ≡ n
  pub send_room :
      (m : PartialLogStream) (c : Chan)
      → length (held c) < capacity c
      → (after : Chan) × (send m c ≡ some after)
        × (held after ≡ held c ++ m ∷ [])
        × (capacity after ≡ capacity c)
  pub send_full : (m : PartialLogStream) (c : Chan) → capacity c ≤ length (held c) → send m c ≡ none
  pub recv_message :
      (c : Chan) (m : PartialLogStream) (ms : List PartialLogStream)
      → held c ≡ m ∷ ms
      → ((try_recv c).0 ≡ message m)
        × (held (try_recv c).1 ≡ ms)
        × (capacity (try_recv c).1 ≡ capacity c)
  pub recv_empty :
      (c : Chan)
      → held c ≡ []
      → ((try_recv c).0 ≡ empty)
        × (held (try_recv c).1 ≡ [])
        × (capacity (try_recv c).1 ≡ capacity c)

module _ (Q : Mpsc) where
  open Q use {Chan, held, capacity, try_recv}

  some-injective : {a b : Chan} → some a ≡ some b → a ≡ b
  some-injective {a = a} h = ap (or_else a) h
    where
      or_else : Chan → Option Chan → Chan
      or_else d none = d
      or_else d (some x) = x

  -- A message that was taken had room, and is the last one now.
  pub send-some :
      (m : PartialLogStream) (c d : Chan)
      → Q.send m c ≡ some d
      → (length (held c) < capacity c) × (held d ≡ held c ++ m ∷ []) × (capacity d ≡ capacity c)
  send-some m c d taken = elim (dec_lt (length (held c)) (capacity c)) [
    | yes space ↦
        let (after, e, has, size) = Q.send_room m c space in
        let same = some-injective (sym e ∙ taken) in
        (space, subst (λ x. held x ≡ held c ++ m ∷ []) same has, ap capacity (sym same) ∙ size)
    | no full ↦ absurd (cc (Q.send_full m c (omega arith)))
  ]

  -- What `source` gives, and what is left.
  module _ (s : SimpleLogSource Chan) (fresh : s.ended ≡ false) where
    pub source-idle :
        held s.rx ≡ []
        → ((source try_recv s).0 ≡ ok (next []))
          × ((source try_recv s).1 ≡ record { rx = (try_recv s.rx).1; ended = false })
    unfolding source on_received
    source-idle none_held = rw (fresh, (Q.recv_empty s.rx none_held).0) (refl, refl)

    pub source-took :
        (logs : Logs) (ms : List PartialLogStream)
        → held s.rx ≡ next logs ∷ ms
        → ((source try_recv s).0 ≡ ok (next logs))
          × ((source try_recv s).1 ≡ record { rx = (try_recv s.rx).1; ended = false })
    unfolding source on_received
    source-took logs ms first =
        rw (fresh, (Q.recv_message s.rx (next logs) ms first).0) (refl, refl)

    pub source-last :
        (ms : List PartialLogStream)
        → held s.rx ≡ end ∷ ms
        → ((source try_recv s).0 ≡ ok end) × ((source try_recv s).1.rx ≡ (try_recv s.rx).1)
    unfolding source on_received
    source-last ms first = rw (fresh, (Q.recv_message s.rx end ms first).0) (refl, refl)
