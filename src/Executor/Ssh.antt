-- ===== src/Executor/Ssh.antt =====
-- libthere/src/executor/ssh.rs: the executor for a remote host.
pub mod Quiet
pub mod Run
pub mod Tasks
pub mod Opening
pub mod Outcomes
pub mod Execute
pub mod Answers
pub mod Verdicts
pub mod Success
pub mod Blocked
pub mod Ends
pub mod Transcript
use that_goes_there.Prelude.{
  ℕ, String, ◌<>◌, ◌≡◌, Bool, true, false, not, Option, none, some, List, [], ◌∷◌, ◌++◌, length,
  ◌==◌, if◌then◌else◌,
}
use that_goes_there.Text.{decimal, split_on, join}
use that_goes_there.Outcome.{Outcome, ok, err, eyre, external}
use that_goes_there.Exec.{Exec, pure, throw, lift, gets, ◌>>=◌, ◌>>◌, for_each}
use that_goes_there.Plan.Task.{
  Ensure, file_exists, directory_exists, file_doesnt_exist, directory_doesnt_exist, exe_exists,
  PlannedTask, Plan,
}
use that_goes_there.Plan.Host.{Host, real_remote_user}
use that_goes_there.Executor.Stream
use that_goes_there.Executor.Stream.{PartialLogStream, next, end, Channel}
use that_goes_there.Executor.State.{
  State, on_chan, on_world, count_task, debug_ensure, debug_ensures,
}

-- The bytes of a frame: text, or no UTF-8.
pub data Bytes : Type 0 where
  text : String → Bytes
  garbled : Bytes

-- `thrussh::ChannelMsg`
pub data Frame : Type 0 where
  payload extended_payload : Bytes → Frame
  eof close xon_xoff exit_signal window_adjusted success : Frame
  exit_status : ℕ → Frame

-- A remote host behind `thrussh::client`. `exec` opens a channel, sends the command, and gives the
-- frames that the channel delivers until it closes; `executed` is all that was executed there.
pub record Remote : Type 1 where
  pub World : Type 0
  pub connect : String → World → Bool × World
  pub authenticate : String → World → Option Bool × World
  pub open_session : World → Bool × World
  pub exec : String → World → Option (List Frame) × World
  pub executed : World → List String
  pub executed-connect : (a : String) (w : World) → executed (connect a w).1 ≡ executed w
  pub executed-authenticate : (u : String) (w : World) → executed (authenticate u w).1 ≡ executed w
  pub executed-open_session : (w : World) → executed (open_session w).1 ≡ executed w
  pub executed-exec :
      (c : String) (w : World) (fs : List Frame)
      → (exec c w).0 ≡ some fs
      → executed (exec c w).1 ≡ executed w ++ c ∷ []
  pub executed-exec_fails :
      (c : String) (w : World) → (exec c w).0 ≡ none → executed (exec c w).1 ≡ executed w

abbrev pub or_ssh_error {ℓ} : {A : Type ℓ} → Option A → Outcome A
or_ssh_error none = err (external "thrussh::Error")
or_ssh_error (some a) = ok a

abbrev pub done_or_err : Bool → Outcome (Unit {0})
done_or_err true = ok tt
done_or_err false = err (external "thrussh::Error")

-- `String::from_utf8(…)?`
abbrev pub from_utf8 : Bytes → Outcome String
from_utf8 (text s) = ok s
from_utf8 garbled = err (external "FromUtf8Error")

-- The command that tests a prerequisite, and the exit statuses that pass it.
unfoldable pub probe : Ensure → String
probe (directory_doesnt_exist p) = "test -d \"" <> (p <> "\"")
probe (directory_exists p) = "test -d \"" <> (p <> "\"")
probe (file_doesnt_exist p) = "test -f \"" <> (p <> "\"")
probe (file_exists p) = "test -f \"" <> (p <> "\"")
probe (exe_exists e) = "which \"" <> (e <> "\"")

unfoldable pub passes : Ensure → ℕ → Bool
passes (directory_doesnt_exist p) status = not (status == 0)
passes (directory_exists p) status = status == 0
passes (file_doesnt_exist p) status = not (status == 0)
passes (file_exists p) status = status == 0
passes (exe_exists e) status = status == 0

pub record SshExecutionContext : Type 0 where
  pub name : String
  pub plan : Plan

module _ (debug_str : String → String) (C : Channel) (R : Remote) where
  open C use {Chan}
  open R use {World, connect, authenticate, open_session, exec}

  abbrev pub SshExecutor : Type 0
  SshExecutor = State Chan World

  -- The executor that `new_with_existing_key`, and `new` behind the decoding of its key, make; it
  -- acts on `world`.
  abbrev pub new_with_existing_key : Chan → World → SshExecutor
  new_with_existing_key tx world = record { chan = tx; tasks_completed = 0; world = world }

  unfoldable pub sink_partial : PartialLogStream → Exec SshExecutor ℕ
  sink_partial logs = on_chan (Stream.sink C logs)

  unfoldable pub sink_one : String → Exec SshExecutor ℕ
  sink_one msg = on_chan (Stream.sink_one C msg)

  unfoldable pub open_channel : Exec SshExecutor Unit
  open_channel = on_world (λ w. let (r, w') = open_session w in (done_or_err r, w'))

  unfoldable pub send_command : String → Exec SshExecutor (List Frame)
  send_command c = on_world (λ w. let (r, w') = exec c w in (or_ssh_error r, w'))

  -- The loop over the frames of a channel: the exit status, or 511 where none came.
  unfoldable pub wait_frames : List Frame → Exec SshExecutor ℕ
  wait_frames [] = pure 511
  wait_frames (payload d ∷ fs) = do
    s ← lift (from_utf8 d)
    n ← sink_partial (next (split_on b'\n' s))
    wait_frames fs
  wait_frames (extended_payload d ∷ fs) = do
    s ← lift (from_utf8 d)
    n ← sink_partial (next (split_on b'\n' s))
    wait_frames fs
  wait_frames (eof ∷ fs) = wait_frames fs
  wait_frames (close ∷ fs) = pure 511
  wait_frames (xon_xoff ∷ fs) = wait_frames fs
  wait_frames (exit_signal ∷ fs) = wait_frames fs
  wait_frames (window_adjusted ∷ fs) = wait_frames fs
  wait_frames (success ∷ fs) = wait_frames fs
  wait_frames (exit_status n ∷ fs) = pure (if n == 0 then 0 else n)

  unfoldable pub execute_command : String → Exec SshExecutor ℕ
  execute_command c = do opened ← open_channel; frames ← send_command c; wait_frames frames

  unfoldable pub check : Ensure → Exec SshExecutor Bool
  check e = do status ← execute_command (probe e); pure (passes e status)

  -- The loop of `ensure_task`, with the failures so far.
  unfoldable pub ensure_from : List Ensure → List Ensure → Exec SshExecutor (List Ensure)
  ensure_from failures [] = pure failures
  ensure_from failures (e ∷ es) = do
    n ← sink_one ("* ensuring " <> debug_ensure debug_str e)
    pass ← check e
    ensure_from (if pass then failures else failures ++ e ∷ []) es

  unfoldable pub ensure_task : PlannedTask → Exec SshExecutor (List Ensure)
  ensure_task task = ensure_from [] task.ensures

  -- `execute_task` behind its prerequisites. The exit status of the command is dropped.
  unfoldable pub run_command : PlannedTask → Exec SshExecutor Unit
  run_command task = do
    n ← sink_one ("* executing task: " <> task.name)
    status ← execute_command (join " " task.command)
    m ← sink_one ""
    pure tt

  unfoldable pub unless_failed : PlannedTask → List Ensure → Exec SshExecutor Unit
  unless_failed task [] = run_command task
  unless_failed task (e ∷ es) = do
    n ← sink_one ("ensures failed: " <> debug_ensures debug_str (e ∷ es))
    throw (eyre ("ensures failed: " <> debug_ensures debug_str (e ∷ es)))

  unfoldable pub execute_task : PlannedTask → Exec SshExecutor Unit
  execute_task task = do
    n ← sink_one ("** executing task: " <> task.name)
    failed_ensures ← ensure_task task
    unless_failed task failed_ensures

  -- The body of the loop of `execute`.
  unfoldable pub execute_counted : PlannedTask → Exec SshExecutor Unit
  execute_counted task = do done ← execute_task task; count_task

  unfoldable pub finished_line : Plan → String → ℕ → String
  finished_line plan hostname n =
      "*** finished applying plan: "
      <> (plan.name
          <> (" -> "
              <> (hostname
                  <> (" (" <> (decimal n <> ("/" <> (decimal (length plan.blueprint) <> ")")))))))

  unfoldable pub address : Host → String
  address host = host.host <> (":" <> decimal host.port)

  unfoldable pub connect_to : Host → Exec SshExecutor Unit
  connect_to host = on_world (λ w. let (r, w') = connect (address host) w in (done_or_err r, w'))

  unfoldable pub log_in : Host → Exec SshExecutor Bool
  log_in host =
      on_world (λ w. let (r, w') = authenticate (real_remote_user host) w in (or_ssh_error r, w'))

  -- `execute` behind the authentication.
  unfoldable pub apply_or_refuse : String → Plan → Bool → Exec SshExecutor Unit
  apply_or_refuse hostname plan true = do
    looped ← for_each execute_counted plan.blueprint
    done ← gets (λ s. s.tasks_completed)
    n ← sink_one (finished_line plan hostname done)
    m ← sink_partial end
    pure tt
  apply_or_refuse hostname plan false = do
    n ← sink_one "ssh authentication failed!"
    m ← sink_partial end
    throw (eyre "ssh authentication failed!")

  unfoldable pub execute : Host → String → Plan → Exec SshExecutor Unit
  execute host hostname plan = do
    n ← sink_one ("* steps: " <> decimal (length plan.blueprint))
    session ← connect_to host
    accepted ← log_in host
    apply_or_refuse hostname plan accepted
