-- ===== src/Executor/Ssh/Transcript.antt =====
-- What the remote executor logs of a task that it applies, and of a plan.
pub mod Whole
use mathlib.Core.List.{append-nil}
use that_goes_there.Prelude.{
  String, ◌<>◌, ℕ, ◌≡◌, refl, sym, ap, ◌∙◌, subst, Bool, true, some, List, [], ◌∷◌, ◌++◌, length,
}
use that_goes_there.Text.{decimal, split_on, join}
use that_goes_there.Outcome.{ok}
use that_goes_there.Exec.{Exec, lift}
use that_goes_there.Exec.Says.{Says, pure-Says, bind-Says, bind-Says_last, flat}
use that_goes_there.Plan.Task.{Ensure, PlannedTask, Plan}
use that_goes_there.Executor.Stream
use that_goes_there.Executor.Stream.{PartialLogStream, next, end, size, Channel}
use that_goes_there.Executor.State.{on_chan, on_world, count_task, debug_ensure}
use that_goes_there.Executor.Failing.{failing, IsFailing, round-Says}
use that_goes_there.Executor.Ssh.{
  text, garbled, Frame, payload, extended_payload, eof, close, xon_xoff, exit_signal,
  window_adjusted, success, exit_status, Remote, SshExecutor, sink_partial, sink_one, open_channel,
  send_command, wait_frames, execute_command, passes, probe, check, ensure_from, ensure_task,
  run_command, unless_failed, execute_task, execute_counted, finished_line,
}
use that_goes_there.Executor.Ssh.Answers.{IsClean, Any, status_kept}

-- What is heard of a command: the lines of each piece of its output, up to the exit status.
abbrev pub heard : List Frame → List PartialLogStream
heard [] = []
heard (payload (text s) ∷ fs) = next (split_on b'\n' s) ∷ heard fs
heard (payload garbled ∷ fs) = []
heard (extended_payload (text s) ∷ fs) = next (split_on b'\n' s) ∷ heard fs
heard (extended_payload garbled ∷ fs) = []
heard (eof ∷ fs) = heard fs
heard (close ∷ fs) = []
heard (xon_xoff ∷ fs) = heard fs
heard (exit_signal ∷ fs) = heard fs
heard (window_adjusted ∷ fs) = heard fs
heard (success ∷ fs) = heard fs
heard (exit_status n ∷ fs) = []

-- A remote host by the frames that it answers to a command.
module _ (frames : String → List Frame) (debug_str : String → String) where
  abbrev pub line : String → List PartialLogStream
  line s = next (s ∷ []) ∷ []

  abbrev pub ensuring : Ensure → List PartialLogStream
  ensuring e = line ("* ensuring " <> debug_ensure debug_str e) ++ heard (frames (probe e))

  -- The messages of the command of a task.
  abbrev pub ran : PlannedTask → List PartialLogStream
  ran t = line ("* executing task: " <> t.name) ++ (heard (frames (join " " t.command)) ++ line "")

  abbrev pub told : PlannedTask → List PartialLogStream
  told t = line ("** executing task: " <> t.name) ++ (flat ensuring t.ensures ++ ran t)

  -- The messages of a plan that is applied, behind the authentication, and all of them.
  abbrev pub transcript_behind : (C : Channel) (R : Remote) → String → Plan → List PartialLogStream
  transcript_behind C R hostname plan =
      flat told plan.blueprint
      ++ (next (finished_line debug_str C R plan hostname (length plan.blueprint) ∷ []) ∷ end ∷ [])

  abbrev pub transcript : (C : Channel) (R : Remote) → String → Plan → List PartialLogStream
  transcript C R hostname plan =
      line ("* steps: " <> decimal (length plan.blueprint)) ++ transcript_behind C R hostname plan

-- A channel with room, and a remote host that answers a command always with the same frames, which
-- are text and then the exit status.
module _ (frames : String → List Frame) (status : String → ℕ) (debug_str : String → String)
    (C : Channel) (R : Remote) (room : (m : PartialLogStream) (c : C.Chan) → (C.send m c).0 ≡ true)
    (opens : (w : R.World) → (R.open_session w).0 ≡ true)
    (answers : (c : String) (w : R.World) → (R.exec c w).0 ≡ some (frames c))
    (clean : (c : String) → IsClean (status c) (frames c)) where
  abbrev pub sent : SshExecutor debug_str C R → List PartialLogStream
  sent s = C.sent s.chan

  abbrev is_met : Ensure → Bool
  is_met e = passes e (status (probe e))

  abbrev pub IsReady : PlannedTask → Type 0
  IsReady t = failing is_met t.ensures ≡ []

  pub sink_partial-Says :
      (m : PartialLogStream) → Says sent (m ∷ []) Any (sink_partial debug_str C R m)
  unfolding sink_partial on_chan Stream.sink
  sink_partial-Says m = record {
    at = λ s. (size m, rw (room m s.chan) refl, tt, C.sent-send m s.chan (room m s.chan));
  }

  pub sink_one-Says : (m : String) → Says sent (next (m ∷ []) ∷ []) Any (sink_one debug_str C R m)
  unfolding sink_one Stream.sink_one sink_partial
  sink_one-Says m = sink_partial-Says (next (m ∷ []))

  -- An action on the host sends nothing.
  pub on_world-Says :
      {A : Type 0} (P : A → Type 0) (m : Exec R.World A)
      → ((w : R.World) → (a : A) × ((m w).0 ≡ ok a) × P a)
      → Says sent [] P (on_world m)
  unfolding on_world
  on_world-Says P m h = record {
    at = λ s. let (a, e, p) = h s.world in (a, e, p, sym (append-nil (C.sent s.chan)));
  }

  open_channel-Says : Says sent [] Any (open_channel debug_str C R)
  unfolding open_channel
  open_channel-Says = on_world-Says _ _ (λ w. (tt, rw (opens w) refl, tt))

  send_command-Says :
      (c : String) → Says sent [] (λ fs. fs ≡ frames c) (send_command debug_str C R c)
  unfolding send_command
  send_command-Says c = on_world-Says _ _ (λ w. (frames c, rw (answers c w) refl, refl))

  utf8-Says : (s : String) → Says sent [] (λ t. t ≡ s) (lift (ok s))
  unfolding lift
  utf8-Says s = record { at = λ u. (s, refl, refl, sym (append-nil (C.sent u.chan))) }

  -- A piece of text, by its lines.
  piece-Says :
      (s t : String)
      → t ≡ s
      → Says sent
          (next (split_on b'\n' s) ∷ [])
          Any
          (sink_partial debug_str C R (next (split_on b'\n' t)))
  piece-Says s t e = rw e (sink_partial-Says _)

  wait_frames-Says :
      (n : ℕ) (fs : List Frame)
      → IsClean n fs
      → Says sent (heard fs) (λ k. k ≡ n) (wait_frames debug_str C R fs)
  unfolding wait_frames
  wait_frames-Says n [] h = absurd h
  wait_frames-Says n (payload (text s) ∷ fs) h =
      bind-Says sent _ _ (utf8-Says s)
        λ t e. bind-Says sent _ _ (piece-Says s t e) λ _ _. wait_frames-Says n fs h
  wait_frames-Says n (payload garbled ∷ fs) h = absurd h
  wait_frames-Says n (extended_payload (text s) ∷ fs) h =
      bind-Says sent _ _ (utf8-Says s)
        λ t e. bind-Says sent _ _ (piece-Says s t e) λ _ _. wait_frames-Says n fs h
  wait_frames-Says n (extended_payload garbled ∷ fs) h = absurd h
  wait_frames-Says n (eof ∷ fs) h = wait_frames-Says n fs h
  wait_frames-Says n (close ∷ fs) h = absurd h
  wait_frames-Says n (xon_xoff ∷ fs) h = wait_frames-Says n fs h
  wait_frames-Says n (exit_signal ∷ fs) h = wait_frames-Says n fs h
  wait_frames-Says n (window_adjusted ∷ fs) h = wait_frames-Says n fs h
  wait_frames-Says n (success ∷ fs) h = wait_frames-Says n fs h
  wait_frames-Says n (exit_status k ∷ fs) h = pure-Says sent _ (status_kept k ∙ h)

  execute_command-Says :
      (c : String)
      → Says sent (heard (frames c)) (λ k. k ≡ status c) (execute_command debug_str C R c)
  unfolding execute_command
  execute_command-Says c = bind-Says sent _ _ open_channel-Says λ _ _.
      bind-Says sent _ _ (send_command-Says c) λ fs e.
        subst (λ f. Says sent (heard (frames c)) (λ k. k ≡ status c) (wait_frames debug_str C R f))
          (sym e) (wait_frames-Says (status c) (frames c) (clean c))

  check-Says :
      (e : Ensure)
      → Says sent (heard (frames (probe e))) (λ b. b ≡ is_met e) (check debug_str C R e)
  unfolding check
  check-Says e =
      bind-Says_last sent _ _ (execute_command-Says (probe e))
        λ n z. pure-Says sent _ (ap (passes e) z)

  ensure_from-Says :
      (before es : List Ensure)
      → Says sent
          (flat (ensuring frames debug_str) es)
          (IsFailing is_met before es)
          (ensure_from debug_str C R before es)
  unfolding ensure_from
  ensure_from-Says before [] = pure-Says sent before (sym (append-nil before))
  ensure_from-Says before (e ∷ es) = bind-Says sent _ _ (sink_one-Says _) λ _ _.
      bind-Says sent _ _ (check-Says e) λ b h.
        round-Says is_met sent (λ acc. ensure_from debug_str C R acc es) before e es b h
          (λ acc. ensure_from-Says acc es)

  run_command-Says :
      (task : PlannedTask)
      → Says sent (ran frames debug_str task) Any (run_command debug_str C R task)
  unfolding run_command
  run_command-Says task = bind-Says sent _ _ (sink_one-Says _) λ _ _.
      bind-Says sent _ _ (execute_command-Says _)
        λ _ _. bind-Says sent _ _ (sink_one-Says "") λ _ _. pure-Says sent tt tt

  unless_failed-Says :
      (task : PlannedTask) (failures : List Ensure)
      → failures ≡ []
      → Says sent (ran frames debug_str task) Any (unless_failed debug_str C R task failures)
  unfolding unless_failed
  unless_failed-Says task [] h = run_command-Says task
  unless_failed-Says task (e ∷ es) h = absurd (cc)

  execute_task-Says :
      (task : PlannedTask)
      → IsReady task
      → Says sent (told frames debug_str task) Any (execute_task debug_str C R task)
  unfolding execute_task ensure_task
  execute_task-Says task ready = bind-Says sent _ _ (sink_one-Says _) λ _ _.
      bind-Says sent _ _ (ensure_from-Says [] task.ensures)
        λ fs e. unless_failed-Says task fs (e ∙ ready)

  count_task-Says : Says sent [] Any count_task
  unfolding count_task
  count_task-Says = record { at = λ s. (tt, refl, tt, sym (append-nil (C.sent s.chan))) }

  pub execute_counted-Says :
      (task : PlannedTask)
      → IsReady task
      → Says sent (told frames debug_str task) Any (execute_counted debug_str C R task)
  unfolding execute_counted
  execute_counted-Says task ready =
      bind-Says_last sent _ _ (execute_task-Says task ready) λ _ _. count_task-Says
