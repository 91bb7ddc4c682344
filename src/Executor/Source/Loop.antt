-- ===== src/Executor/Source/Loop.antt =====
-- When the reading task ends, and what it has handled then.
use mathlib.Core.List.{foldl}
use that_goes_there.Prelude.{
  ℕ, zero, suc, ◌<◌, ◌≡◌, ◌≢◌, ◌⊎◌, inl, inr, refl, ◌∙◌, true, false, arith, none, some, List, [],
  ◌∷◌, length, if◌then◌else◌,
}
use that_goes_there.Executor.Stream.{Logs, PartialLogStream, next, end, ends, Channel}
use that_goes_there.Executor.Source.{
  message, Receiver, SimpleLogSource, on_received, source, round, read_loop,
}

-- The logs in front of the first end.
abbrev pub delivered : List PartialLogStream → List Logs
delivered [] = []
delivered (next logs ∷ ms) = logs ∷ delivered ms
delivered (end ∷ ms) = []

module _ {ℓ} {C : Channel} (V : Receiver C) {W : Type ℓ} (handle : Logs → W → W) where
  open V use {Rx, try_recv, queued, is_open}

  abbrev pub handle_all : W → List Logs → W
  handle_all = foldl (λ w logs. handle logs w)

  abbrev Fresh : SimpleLogSource Rx → List PartialLogStream → Type 0
  Fresh s ms = (s.ended ≡ false) × (queued s.rx ≡ ms)

  read_loop-message :
      (fuel : ℕ) (s : SimpleLogSource Rx) (w : W) (m : PartialLogStream)
      (ms : List PartialLogStream)
      → Fresh s (m ∷ ms)
      → read_loop V handle (suc fuel) s w ≡ (
          let (r, s') = on_received (message m) (try_recv s.rx).1 in
          let (more, w') = round handle r w in
          if more then read_loop V handle fuel s' w' else some w')
  unfolding read_loop source
  read_loop-message fuel s w m ms (fresh, q) = rw (fresh, (V.recv_message s.rx m ms q).0)

  read_loop-empty :
      (fuel : ℕ) (s : SimpleLogSource Rx) (w : W)
      → s.ended ≡ false
      → queued s.rx ≡ []
      → is_open s.rx ≡ true
      → read_loop V handle (suc fuel) s w
        ≡ read_loop V handle fuel (record { rx = (try_recv s.rx).1; ended = false }) (handle [] w)
  unfolding read_loop source on_received
  read_loop-empty fuel s w fresh q opened = rw (fresh, (V.recv_empty s.rx q opened).0)

  -- A reader that has not ended yet, with an end in its queue or no sender left, ends within one
  -- round more than it has messages; it has then handled the logs in front of the first end, in
  -- order, each once.
  pub read_loop-ends :
      (ms : List PartialLogStream) (fuel : ℕ) (s : SimpleLogSource Rx) (w : W)
      → s.ended ≡ false
      → queued s.rx ≡ ms
      → (ends ms ≢ 0) ⊎ (is_open s.rx ≡ false)
      → length ms < fuel
      → read_loop V handle fuel s w ≡ some (handle_all w (delivered ms))
  unfolding on_received
  read_loop-ends ms zero s w fresh q stops h = elim h [ ]
  read_loop-ends [] (suc fuel) s w fresh q (inl some_end) h = absurd (some_end refl)
  read_loop-ends [] (suc fuel) s w fresh q (inr closed) h =
      unfold read_loop source in rw (fresh, V.recv_closed s.rx q closed)
  read_loop-ends (end ∷ ms) (suc fuel) s w fresh q stops h =
      read_loop-message fuel s w end ms (fresh, q)
  read_loop-ends (next logs ∷ ms) (suc fuel) s w fresh q stops h =
      let (_, q', open') = V.recv_message s.rx (next logs) ms q in
      read_loop-message fuel s w (next logs) ms (fresh, q)
      ∙ read_loop-ends ms fuel _ (handle logs w) refl q'
          (elim stops [ inl e ↦ inl e | inr c ↦ inr (open' ∙ c) ]) (omega arith)

  -- A reader that has not ended yet, whose queue holds no end while a sender is left, is still
  -- running after any number of rounds.
  pub read_loop_hangs :
      (ms : List PartialLogStream) (fuel : ℕ) (s : SimpleLogSource Rx) (w : W)
      → s.ended ≡ false
      → queued s.rx ≡ ms
      → ends ms ≡ 0
      → is_open s.rx ≡ true
      → read_loop V handle fuel s w ≡ none
  unfolding on_received
  read_loop_hangs ms zero s w fresh q no_end opened = unfold read_loop in refl
  read_loop_hangs [] (suc fuel) s w fresh q no_end opened =
      let (_, q', open') = V.recv_empty s.rx q opened in
      read_loop-empty fuel s w fresh q opened
      ∙ read_loop_hangs [] fuel _ (handle [] w) refl q' refl open'
  read_loop_hangs (end ∷ ms) (suc fuel) s w fresh q no_end opened = absurd (omega arith)
  read_loop_hangs (next logs ∷ ms) (suc fuel) s w fresh q no_end opened =
      let (_, q', open') = V.recv_message s.rx (next logs) ms q in
      read_loop-message fuel s w (next logs) ms (fresh, q)
      ∙ read_loop_hangs ms fuel _ (handle logs w) refl q' no_end (open' ∙ opened)
