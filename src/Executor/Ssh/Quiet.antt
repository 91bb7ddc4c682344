-- ===== src/Executor/Ssh/Quiet.antt =====
-- The parts of the remote executor that execute no command, complete no task and end no stream.
use that_goes_there.Prelude.{ℕ, String, ◌≡◌, ◌∙◌, List, [], ◌∷◌}
use that_goes_there.Exec.Keeps.{Keeps, Keeps-bind, Keeps-lift, keeps_rules}
use that_goes_there.Plan.Host.{Host, real_remote_user}
use that_goes_there.Executor.Stream
use that_goes_there.Executor.Stream.{next, ends, Channel}
use that_goes_there.Executor.Stream.Laws.{ends-sink_next}
use that_goes_there.Executor.State.{on_chan, on_world}
use that_goes_there.Executor.Ssh.{
  Frame, payload, extended_payload, eof, close, xon_xoff, exit_signal, window_adjusted, success,
  exit_status, Remote, SshExecutor, sink_partial, sink_one, open_channel, wait_frames, address,
  connect_to, log_in, from_utf8,
}

module _ (debug_str : String → String) (C : Channel) (R : Remote) where
  -- The ends sent, the tasks completed and the commands executed are these.
  pub record Same (n k : ℕ) (cs : List String) (s : SshExecutor debug_str C R) : Type 0 where
    pub ended : ends (C.sent s.chan) ≡ n
    pub completed : s.tasks_completed ≡ k
    pub executed : R.executed s.world ≡ cs

  module _ {n k : ℕ} {cs : List String} where
    pub sink_partial-Same :
        (l : List String) → Keeps (Same n k cs) (sink_partial debug_str C R (next l))
    unfolding sink_partial on_chan
    sink_partial-Same l = record {
      at = λ s h. record {
        ended = ends-sink_next C l s.chan ∙ h.ended;
        completed = h.completed;
        executed = h.executed;
      };
    }

    pub sink_one-Same : (l : String) → Keeps (Same n k cs) (sink_one debug_str C R l)
    unfolding sink_one on_chan Stream.sink_one
    sink_one-Same l = record {
      at = λ s h. record {
        ended = ends-sink_next C (l ∷ []) s.chan ∙ h.ended;
        completed = h.completed;
        executed = h.executed;
      };
    }

    pub open_channel-Same : Keeps (Same n k cs) (open_channel debug_str C R)
    unfolding open_channel on_world
    open_channel-Same = record {
      at = λ s h. record {
        ended = h.ended;
        completed = h.completed;
        executed = R.executed-open_session s.world ∙ h.executed;
      };
    }

    pub connect_to-Same : (host : Host) → Keeps (Same n k cs) (connect_to debug_str C R host)
    unfolding connect_to on_world
    connect_to-Same host = record {
      at = λ s h. record {
        ended = h.ended;
        completed = h.completed;
        executed = R.executed-connect (address debug_str C R host) s.world ∙ h.executed;
      };
    }

    pub log_in-Same : (host : Host) → Keeps (Same n k cs) (log_in debug_str C R host)
    unfolding log_in on_world
    log_in-Same host = record {
      at = λ s h. record {
        ended = h.ended;
        completed = h.completed;
        executed = R.executed-authenticate (real_remote_user host) s.world ∙ h.executed;
      };
    }

    pub wait_frames-Same : (fs : List Frame) → Keeps (Same n k cs) (wait_frames debug_str C R fs)
    unfolding wait_frames
    wait_frames-Same [] = search keeps_rules
    wait_frames-Same (payload d ∷ fs) =
        Keeps-bind _ _ (Keeps-lift (from_utf8 d))
          λ s. Keeps-bind _ _ (sink_partial-Same _) λ _. wait_frames-Same fs
    wait_frames-Same (extended_payload d ∷ fs) =
        Keeps-bind _ _ (Keeps-lift (from_utf8 d))
          λ s. Keeps-bind _ _ (sink_partial-Same _) λ _. wait_frames-Same fs
    wait_frames-Same (eof ∷ fs) = wait_frames-Same fs
    wait_frames-Same (close ∷ fs) = search keeps_rules
    wait_frames-Same (xon_xoff ∷ fs) = wait_frames-Same fs
    wait_frames-Same (exit_signal ∷ fs) = wait_frames-Same fs
    wait_frames-Same (window_adjusted ∷ fs) = wait_frames-Same fs
    wait_frames-Same (success ∷ fs) = wait_frames-Same fs
    wait_frames-Same (exit_status x ∷ fs) = search keeps_rules
