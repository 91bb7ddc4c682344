-- ===== src/Executor/Ssh/Verdicts.antt =====
-- The prerequisites that the remote executor finds to fail, told by what is on the host.
use Prim.Native.Char.{code}
use that_goes_there.Prelude.{
  ℕ, String, ◌<>◌, ◌≡◌, refl, ap, ◌∙◌, Bool, true, not, ◌&&◌, List, [], ◌∷◌, All, ◌==◌, some,
}
use that_goes_there.Outcome.{ok}
use that_goes_there.Plan.Task.{
  Ensure, file_exists, directory_exists, file_doesnt_exist, directory_doesnt_exist, exe_exists,
  PlannedTask,
}
use that_goes_there.Executor.Stream.{PartialLogStream, Channel}
use that_goes_there.Executor.Failing.{failing}
use that_goes_there.Executor.Ssh.{Frame, Remote, SshExecutor, probe, passes, ensure_task}
use that_goes_there.Executor.Ssh.Answers.{IsClean, ensure_task-found}

-- A character that a shell leaves as it is between double quotes: no `"`, `$`, `\` or backquote.
abbrev is_plain_code : ℕ → Bool
is_plain_code c = not (c == 34) && (not (c == 36) && (not (c == 92) && not (c == 96)))

abbrev pub is_plain : String → Bool
is_plain String.[] = true
is_plain (String.◌∷◌ c s) = is_plain_code (code c) && is_plain s

-- The path or the name that a prerequisite is about.
abbrev pub subject : Ensure → String
subject (file_exists p) = p
subject (directory_exists p) = p
subject (file_doesnt_exist p) = p
subject (directory_doesnt_exist p) = p
subject (exe_exists e) = e

-- What a host that has these directories, files and executables makes of a prerequisite.
module _ (is_dir is_file has_exe : String → Bool) where
  abbrev pub holds : Ensure → Bool
  holds (directory_exists p) = is_dir p
  holds (directory_doesnt_exist p) = not (is_dir p)
  holds (file_exists p) = is_file p
  holds (file_doesnt_exist p) = not (is_file p)
  holds (exe_exists e) = has_exe e

-- A channel with room, and a host on which every command writes text and exits with a status that
-- it alone determines: `test -d`, `test -f` and `which`, of a plain text in quotes, exit with 0
-- where there is such a directory, such a file or such an executable, and with another status
-- where there is none.
module _ (is_dir is_file has_exe : String → Bool) (debug_str : String → String) (C : Channel)
    (R : Remote) (status : String → ℕ)
    (room : (m : PartialLogStream) (c : C.Chan) → (C.send m c).0 ≡ true)
    (opens : (w : R.World) → (R.open_session w).0 ≡ true)
    (answers : (c : String) (w : R.World)
      → (fs : List Frame) × ((R.exec c w).0 ≡ some fs) × IsClean (status c) fs)
    (tests_dir : (p : String)
      → is_plain p ≡ true
      → (status ("test -d \"" <> (p <> "\"")) == 0) ≡ is_dir p)
    (tests_file : (p : String)
      → is_plain p ≡ true
      → (status ("test -f \"" <> (p <> "\"")) == 0) ≡ is_file p)
    (finds_exe : (e : String)
      → is_plain e ≡ true
      → (status ("which \"" <> (e <> "\"")) == 0) ≡ has_exe e) where
  met-holds :
      (e : Ensure)
      → is_plain (subject e) ≡ true
      → passes e (status (probe e)) ≡ holds is_dir is_file has_exe e
  unfolding passes probe
  met-holds (directory_exists p) h = tests_dir p h
  met-holds (directory_doesnt_exist p) h = ap not (tests_dir p h)
  met-holds (file_exists p) h = tests_file p h
  met-holds (file_doesnt_exist p) h = ap not (tests_file p h)
  met-holds (exe_exists e) h = finds_exe e h

  failing-holds :
      (es : List Ensure)
      → All (λ e. is_plain (subject e) ≡ true) es
      → failing (λ e. passes e (status (probe e))) es ≡ failing (holds is_dir is_file has_exe) es
  failing-holds [] h = refl
  failing-holds (e ∷ es) h = rw (met-holds e h.0, failing-holds es h.1) refl

  -- With a receiver of the logs that has room, on a remote host on which every command writes text
  -- and exits with a status that depends on the command alone, and on which `test -d`, `test -f`
  -- and `which` of a text in double quotes, without `"`, `$`, `\` and backquote in it, exit with 0
  -- exactly for a directory, a file and an executable of the host: for a task whose prerequisites
  -- name only such texts, `ensure_task` returns exactly those that do not hold on the host, in
  -- their order. A file or a directory is taken not to exist where the path is not one of that kind.
  pub ensure_task-failing :
      (task : PlannedTask)
      → All (λ e. is_plain (subject e) ≡ true) task.ensures
      → (s : SshExecutor debug_str C R)
      → (ensure_task debug_str C R task s).0
        ≡ ok (failing (holds is_dir is_file has_exe) task.ensures)
  ensure_task-failing task plain s =
      ensure_task-found debug_str C R status room opens answers task s
      ∙ ap ok (failing-holds task.ensures plain)
