-- ===== src/Executor/Source/Join.antt =====
-- A result that is returned behind the join of a reading task.
use that_goes_there.Prelude.{
  ℕ, ◌<◌, ◌≡◌, ◌≢◌, inl, inr, refl, ap, ◌∙◌, arith, Option, none, some, length,
}
use that_goes_there.Executor.Stream.{Logs, Channel, ends}
use that_goes_there.Executor.Source
use that_goes_there.Executor.Source.{Receiver, read_loop}
use that_goes_there.Executor.Source.Loop.{delivered, handle_all, read_loop-ends, read_loop_hangs}

-- A result beside the world that the reading task left, if it has ended.
abbrev pub with_world : {A W : Type 0} → A → Option W → Option (A × W)
with_world a none = none
with_world a (some w) = some (a, w)

module _ {C : Channel} (V : Receiver C) {A W : Type 0} (handle : Logs → W → W) where
  -- The reading task has `fuel` rounds on the channel, while a sender is left.
  unfoldable pub join : ℕ → C.Chan → A → W → Option (A × W)
  join fuel c a w = with_world a (read_loop V handle fuel (Source.new (V.attach c)) w)

  -- The same once the sender is gone.
  unfoldable pub join_closed : ℕ → C.Chan → A → W → Option (A × W)
  join_closed fuel c a w =
      with_world a (read_loop V handle fuel (Source.new (V.hang_up (V.attach c))) w)

  pub join-hangs :
      (fuel : ℕ) (c : C.Chan) (a : A) (w : W) → ends (C.sent c) ≡ 0 → join fuel c a w ≡ none
  unfolding join Source.new
  join-hangs fuel c a w no_end = ap (with_world a) (
      read_loop_hangs V handle (C.sent c) fuel (Source.new (V.attach c)) w refl (V.queued-attach c)
        no_end (V.is_open-attach c))

  pub join-ends :
      (fuel : ℕ) (c : C.Chan) (a : A) (w : W)
      → ends (C.sent c) ≢ 0
      → length (C.sent c) < fuel
      → join fuel c a w ≡ some (a, handle_all V handle w (delivered (C.sent c)))
  unfolding join Source.new
  join-ends fuel c a w some_end enough =
      ap (with_world a)
        (read_loop-ends V handle (C.sent c) fuel _ w refl (V.queued-attach c) (inl some_end) enough)

  pub join_closed-ends :
      (fuel : ℕ) (c : C.Chan) (a : A) (w : W)
      → length (C.sent c) < fuel
      → join_closed fuel c a w ≡ some (a, handle_all V handle w (delivered (C.sent c)))
  unfolding join_closed Source.new
  join_closed-ends fuel c a w enough = ap (with_world a) (
      read_loop-ends V handle (C.sent c) fuel _ w refl
        (V.queued-hang_up (V.attach c) ∙ V.queued-attach c) (inr (V.is_open-hang_up (V.attach c)))
        enough)

  pub join-world :
      (fuel : ℕ) (c : C.Chan) (a b : A) (w v : W) → join fuel c a w ≡ some (b, v) → a ≡ b
  unfolding join
  join-world fuel c a b w v h = by_read (read_loop V handle fuel (Source.new (V.attach c)) w) h
    where
      by_read : (o : Option W) → with_world a o ≡ some (b, v) → a ≡ b
      by_read none k = absurd (cc)
      by_read (some u) k = ground arith
