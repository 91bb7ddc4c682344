-- ===== src/Executor/Ssh/Answers.antt =====
-- What the remote executor does where every command is answered with its exit status.
use mathlib.Core.List.{append-nil}
use that_goes_there.Prelude.{
  String, ℕ, ◌≡◌, refl, arith, sym, ap, ◌∙◌, Bool, true, some, List, [], ◌∷◌, ◌==◌, if◌then◌else◌,
}
use that_goes_there.Outcome.{ok}
use that_goes_there.Exec.{lift}
use that_goes_there.Exec.Returns.{Returns, pure-Returns, bind-Returns}
use that_goes_there.Plan.Task.{Ensure, PlannedTask}
use that_goes_there.Executor.Stream
use that_goes_there.Executor.Stream.{PartialLogStream, next, size, Channel}
use that_goes_there.Executor.State.{on_chan, on_world}
use that_goes_there.Executor.Failing.{failing, IsFailing, round-Returns}
use that_goes_there.Executor.Ssh.{
  text, garbled, Frame, payload, extended_payload, eof, close, xon_xoff, exit_signal,
  window_adjusted, success, exit_status, Remote, SshExecutor, sink_partial, sink_one, open_channel,
  send_command, wait_frames, execute_command, passes, probe, check, ensure_from, ensure_task,
}

-- Frames of text, and then the exit status `n`.
abbrev pub IsClean : ℕ → List Frame → Type 0
IsClean n [] = ⊥
IsClean n (payload (text s) ∷ fs) = IsClean n fs
IsClean n (payload garbled ∷ fs) = ⊥
IsClean n (extended_payload (text s) ∷ fs) = IsClean n fs
IsClean n (extended_payload garbled ∷ fs) = ⊥
IsClean n (eof ∷ fs) = IsClean n fs
IsClean n (close ∷ fs) = ⊥
IsClean n (xon_xoff ∷ fs) = IsClean n fs
IsClean n (exit_signal ∷ fs) = IsClean n fs
IsClean n (window_adjusted ∷ fs) = IsClean n fs
IsClean n (success ∷ fs) = IsClean n fs
IsClean n (exit_status k ∷ fs) = k ≡ n

abbrev pub Any : {A : Type 0} → A → Type 0
Any a = Unit

pub status_kept : (n : ℕ) → (if n == 0 then 0 else n) ≡ n
status_kept n = ground arith

-- A channel with room, and a remote host on which every command writes text and exits with a
-- status that it alone determines.
module _ (debug_str : String → String) (C : Channel) (R : Remote) (status : String → ℕ)
    (room : (m : PartialLogStream) (c : C.Chan) → (C.send m c).0 ≡ true)
    (opens : (w : R.World) → (R.open_session w).0 ≡ true)
    (answers : (c : String) (w : R.World)
      → (fs : List Frame) × ((R.exec c w).0 ≡ some fs) × IsClean (status c) fs) where
  pub sink_partial-Returns : (m : PartialLogStream) → Returns Any (sink_partial debug_str C R m)
  unfolding sink_partial on_chan Stream.sink
  sink_partial-Returns m = record { at = λ s. (size m, rw (room m s.chan) refl, tt) }

  pub sink_one-Returns : (m : String) → Returns Any (sink_one debug_str C R m)
  unfolding sink_one Stream.sink_one sink_partial
  sink_one-Returns m = sink_partial-Returns (next (m ∷ []))

  open_channel-Returns : Returns Any (open_channel debug_str C R)
  unfolding open_channel on_world
  open_channel-Returns = record { at = λ s. (tt, rw (opens s.world) refl, tt) }

  send_command-Returns : (c : String) → Returns (IsClean (status c)) (send_command debug_str C R c)
  unfolding send_command on_world
  send_command-Returns c = record {
    at = λ s. let (fs, e, clean) = answers c s.world in (fs, rw e refl, clean);
  }

  wait_frames-Returns :
      (n : ℕ) (fs : List Frame) → IsClean n fs → Returns (λ k. k ≡ n) (wait_frames debug_str C R fs)
  unfolding wait_frames lift
  wait_frames-Returns n [] h = absurd h
  wait_frames-Returns n (payload (text s) ∷ fs) h =
      bind-Returns {P = Any} _ _ (record { at = λ _. (s, refl, tt) })
        λ s' _. bind-Returns _ _ (sink_partial-Returns _) λ _ _. wait_frames-Returns n fs h
  wait_frames-Returns n (payload garbled ∷ fs) h = absurd h
  wait_frames-Returns n (extended_payload (text s) ∷ fs) h =
      bind-Returns {P = Any} _ _ (record { at = λ _. (s, refl, tt) })
        λ s' _. bind-Returns _ _ (sink_partial-Returns _) λ _ _. wait_frames-Returns n fs h
  wait_frames-Returns n (extended_payload garbled ∷ fs) h = absurd h
  wait_frames-Returns n (eof ∷ fs) h = wait_frames-Returns n fs h
  wait_frames-Returns n (close ∷ fs) h = absurd h
  wait_frames-Returns n (xon_xoff ∷ fs) h = wait_frames-Returns n fs h
  wait_frames-Returns n (exit_signal ∷ fs) h = wait_frames-Returns n fs h
  wait_frames-Returns n (window_adjusted ∷ fs) h = wait_frames-Returns n fs h
  wait_frames-Returns n (success ∷ fs) h = wait_frames-Returns n fs h
  wait_frames-Returns n (exit_status k ∷ fs) h = pure-Returns _ (status_kept k ∙ h)

  pub execute_command-Returns :
      (c : String) → Returns (λ k. k ≡ status c) (execute_command debug_str C R c)
  unfolding execute_command
  execute_command-Returns c = bind-Returns _ _ open_channel-Returns λ _ _.
      bind-Returns _ _ (send_command-Returns c) λ fs clean. wait_frames-Returns (status c) fs clean

  -- Whether the test of a prerequisite exits with a status that passes it.
  abbrev pub is_met : Ensure → Bool
  is_met e = passes e (status (probe e))

  check-Returns : (e : Ensure) → Returns (λ b. b ≡ is_met e) (check debug_str C R e)
  unfolding check
  check-Returns e =
      bind-Returns _ _ (execute_command-Returns (probe e)) λ n z. pure-Returns _ (ap (passes e) z)

  pub ensure_from-Returns :
      (before es : List Ensure)
      → Returns (IsFailing is_met before es) (ensure_from debug_str C R before es)
  unfolding ensure_from
  ensure_from-Returns before [] = pure-Returns before (sym (append-nil before))
  ensure_from-Returns before (e ∷ es) = bind-Returns _ _ (sink_one-Returns _) λ _ _.
      bind-Returns _ _ (check-Returns e) λ b h.
        round-Returns is_met (λ acc. ensure_from debug_str C R acc es) before e es b h
          (λ acc. ensure_from-Returns acc es)

  -- The prerequisites whose test exits with a status that does not pass them.
  pub ensure_task-found :
      (task : PlannedTask) (s : SshExecutor debug_str C R)
      → (ensure_task debug_str C R task s).0 ≡ ok (failing is_met task.ensures)
  unfolding ensure_task
  ensure_task-found task s =
      let (found, r, same) = (ensure_from-Returns [] task.ensures).at s in r ∙ ap ok same
