-- ===== src/Executor/Local.antt =====
-- libthere/src/executor/simple.rs: the executor for the local host.
pub mod Quiet
pub mod Run
pub mod Tasks
pub mod Execute
pub mod Panics
pub mod Blocked
pub mod Verdicts
pub mod Success
pub mod Heard
pub mod Transcript
use that_goes_there.Prelude.{
  ℕ, String, ◌<>◌, ◌≡◌, Bool, true, false, Option, none, some, List, [], ◌∷◌, ◌++◌, length,
  if◌then◌else◌,
}
use that_goes_there.Text.{decimal}
use that_goes_there.Outcome.{Outcome, ok, err, eyre, external}
use that_goes_there.Exec.{Exec, pure, throw, lift, gets, attempt, ◌>>=◌, ◌>>◌, for_each}
use that_goes_there.Plan.Task.{
  Ensure, file_exists, directory_exists, file_doesnt_exist, directory_doesnt_exist, exe_exists,
  PlannedTask, Plan, first,
}
use that_goes_there.Executor.Stream
use that_goes_there.Executor.Stream.{PartialLogStream, next, end, Channel}
use that_goes_there.Executor.State.{
  State, on_chan, on_world, count_task, debug_ensure, debug_ensures,
}

-- `Metadata::is_dir` and `is_file` of what a path names.
pub data FileType : Type 0 where
  directory file other : FileType

abbrev pub is_dir : FileType → Bool
is_dir directory = true
is_dir _ = false

abbrev pub is_file : FileType → Bool
is_file file = true
is_file _ = false

-- What a child wrote: text, or bytes that are no UTF-8, by the text of the error.
pub data Chunk : Type 0 where
  text : String → Chunk
  garbled : String → Chunk

-- What one round of the loop over a running child meets: a piece of one of its two streams, a
-- failed read, or the end of both streams.
pub data Round : Type 0 where
  stdout stderr : Chunk → Round
  stdout_fails stderr_fails : Round
  closed : Round

-- The local host. A query and a start may change the host (others act on it too), and `commands`
-- is all that was started on it. `spawn` gives the rounds in which `try_wait` finds the child running,
-- with what each reads. How many there are is a matter of timing: output that is unread when the
-- exit is seen is in no round, as the code never reads it.
pub record Machine : Type 1 where
  pub World : Type 0
  pub metadata : String → World → Option FileType × World
  pub which : String → World → Bool × World
  pub spawn : String → List String → World → Option (List Round) × World
  pub commands : World → List (List String)
  pub commands-metadata : (p : String) (w : World) → commands (metadata p w).1 ≡ commands w
  pub commands-which : (e : String) (w : World) → commands (which e w).1 ≡ commands w
  pub commands-spawn :
      (c : String) (args : List String) (w : World) (rounds : List Round)
      → (spawn c args w).0 ≡ some rounds
      → commands (spawn c args w).1 ≡ commands w ++ (c ∷ args) ∷ []
  pub commands-spawn_fails :
      (c : String) (args : List String) (w : World)
      → (spawn c args w).0 ≡ none
      → commands (spawn c args w).1 ≡ commands w

abbrev pub or_io_error {ℓ} : {A : Type ℓ} → Option A → Outcome A
or_io_error none = err (external "std::io::Error")
or_io_error (some a) = ok a

-- `String::from_utf8(…).unwrap_or_else(…)`
unfoldable pub decode : Chunk → String
decode (text s) = s
decode (garbled e) = "got: " <> e

abbrev pub args_of : List String → List String
args_of [] = []
args_of (c ∷ args) = args

pub record SimpleExecutionContext : Type 0 where
  pub name : String
  pub plan : Plan

module _ (debug_str : String → String) (C : Channel) (M : Machine) where
  open C use {Chan}
  open M use {World, metadata, which, spawn}

  abbrev pub SimpleExecutor : Type 0
  SimpleExecutor = State Chan World

  -- An executor that acts on `world`.
  abbrev pub new : Chan → World → SimpleExecutor
  new tx world = record { chan = tx; tasks_completed = 0; world = world }

  unfoldable pub sink : PartialLogStream → Exec SimpleExecutor ℕ
  sink logs = on_chan (Stream.sink C logs)

  unfoldable pub sink_one : String → Exec SimpleExecutor ℕ
  sink_one msg = on_chan (Stream.sink_one C msg)

  -- `fs::metadata(path).await`, its error as a value
  unfoldable pub stat : String → Exec SimpleExecutor (Option FileType)
  stat p = on_world (λ w. let (r, w') = metadata p w in (ok r, w'))

  -- `fs::metadata(path).await.is_ok() && test(fs::metadata(path).await?)`
  unfoldable pub stat_again :
      (FileType → Bool) → String → Option FileType → Exec SimpleExecutor Bool
  stat_again test p none = pure false
  stat_again test p (some _) = do again ← stat p; kind ← lift (or_io_error again); pure (test kind)

  unfoldable pub is_missing : String → Exec SimpleExecutor Bool
  is_missing p = do found ← stat p; pure (elim found [ none ↦ true | some _ ↦ false ])

  unfoldable pub check : Ensure → Exec SimpleExecutor Bool
  check (directory_doesnt_exist p) = is_missing p
  check (directory_exists p) = do found ← stat p; stat_again is_dir p found
  check (file_doesnt_exist p) = is_missing p
  check (file_exists p) = do found ← stat p; stat_again is_file p found
  check (exe_exists e) = on_world (λ w. let (r, w') = which e w in (ok r, w'))

  -- The loop of `ensure_task`, with the failures so far.
  unfoldable pub ensure_from : List Ensure → List Ensure → Exec SimpleExecutor (List Ensure)
  ensure_from failures [] = pure failures
  ensure_from failures (e ∷ es) = do
    n ← sink_one ("ensuring " <> debug_ensure debug_str e)
    pass ← check e
    ensure_from (if pass then failures else failures ++ e ∷ []) es

  unfoldable pub ensure_task : PlannedTask → Exec SimpleExecutor (List Ensure)
  ensure_task task = ensure_from [] task.ensures

  -- The loop over a running child; a sink that fails is passed over.
  unfoldable pub follow : List Round → Exec SimpleExecutor Unit
  follow [] = pure tt
  follow (stdout c ∷ rounds) = do r ← attempt (sink (next (decode c ∷ []))); follow rounds
  follow (stderr c ∷ rounds) = do r ← attempt (sink (next (decode c ∷ []))); follow rounds
  follow (stdout_fails ∷ rounds) = follow rounds
  follow (stderr_fails ∷ rounds) = follow rounds
  follow (closed ∷ rounds) = pure tt

  unfoldable pub start : String → List String → Exec SimpleExecutor (List Round)
  start c args = on_world (λ w. let (r, w') = spawn c args w in (or_io_error r, w'))

  -- `execute_task` behind its prerequisites.
  unfoldable pub run_command : PlannedTask → Exec SimpleExecutor Unit
  run_command task = do
    cmd ← lift (first task.command)
    rounds ← start cmd (args_of task.command)
    followed ← follow rounds
    n ← sink (next ("" ∷ []))
    count_task

  unfoldable pub unless_failed : PlannedTask → List Ensure → Exec SimpleExecutor Unit
  unless_failed task [] = run_command task
  unless_failed task (e ∷ es) = do
    n ← sink_one ("ensures failed: " <> debug_ensures debug_str (e ∷ es))
    throw (eyre ("ensures failed: " <> debug_ensures debug_str (e ∷ es)))

  -- The line "** executing task" is made and not sent: its future is never awaited.
  unfoldable pub execute_task : PlannedTask → Exec SimpleExecutor Unit
  execute_task task = do failed_ensures ← ensure_task task; unless_failed task failed_ensures

  unfoldable pub finished_line : Plan → ℕ → String
  finished_line plan n =
      "*** finished applying plan: "
      <> (plan.name <> (" (" <> (decimal n <> ("/" <> (decimal (length plan.blueprint) <> ")")))))

  unfoldable pub execute : Plan → Exec SimpleExecutor Unit
  execute plan = do
    n ← sink_one ("* applying plan: " <> plan.name)
    n ← sink_one ("* steps: " <> decimal (length plan.blueprint))
    for_each execute_task plan.blueprint
    done ← gets (λ s. s.tasks_completed)
    n ← sink_one (finished_line plan done)
    n ← sink end
    pure tt
