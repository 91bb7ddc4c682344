-- ===== src/Cli/Run.antt =====
-- `do_apply` of there-cli/src/commands/plan.rs: one host's plan, through the executor that the host
-- names, and the task that prints its logs.
pub mod Ending
use that_goes_there.Prelude.{
  ℕ, String, ◌<>◌, Option, none, some, List, [], ◌++◌, map, length, str_eq, ◌||◌, if◌then◌else◌,
}
use that_goes_there.Text.{decimal}
use that_goes_there.Outcome.{
  Report, eyre, plan_apply_failed, external, Outcome, ok, err, panic, ◌>>=◌,
}
use that_goes_there.Plan.Task.{Plan}
use that_goes_there.Plan.Host.{Host}
use that_goes_there.Executor.Stream.{Logs, Channel}
use that_goes_there.Executor.Source.{Receiver}
use that_goes_there.Executor.Source.Join.{join, join_closed}
use that_goes_there.Executor.Local
use that_goes_there.Executor.Local.{Machine, SimpleExecutor, SimpleExecutionContext}
use that_goes_there.Executor.Ssh
use that_goes_there.Executor.Ssh.{Remote, SshExecutor, SshExecutionContext}
use that_goes_there.Controller.Apply.{display}

pub data ExecutorType : Type 0 where
  local ssh : ExecutorType

-- The match on the name of an executor.
unfoldable pub executor_type : String → Outcome ExecutorType
executor_type executor =
    if str_eq executor "simple" || str_eq executor "local"
    then ok local
    else if str_eq executor "ssh"
    then ok ssh
    else err (eyre ("unknown executor type: " <> executor))

-- What the reading task does with logs: it prints them.
unfoldable pub print_logs : String → Logs → List String → List String
print_logs hostname logs printed = printed ++ map (λ log. hostname <> (": " <> log)) logs

-- The arguments `--ssh-key` and `--ssh-key-passphrase`.
pub record KeyArgs : Type 0 where
  pub ssh_key : Option String
  pub ssh_key_passphrase : Option String

module _ {KeyPair : Type 0} (read : String → Outcome String)
    (decode : String → Option String → Option KeyPair) where
  abbrev given_or_err : Option String → Outcome String
  given_or_err none = err (eyre "--ssh-key not passed!")
  given_or_err (some file) = ok file

  abbrev passphrase_or_err : Outcome String → Outcome (Option String)
  passphrase_or_err (ok passphrase) = ok (some passphrase)
  passphrase_or_err (err e) = err (eyre ("failed to read ssh-key-passphrase file: " <> display e))
  passphrase_or_err (panic p) = panic p

  abbrev read_passphrase : Option String → Outcome (Option String)
  read_passphrase none = ok none
  read_passphrase (some file) = passphrase_or_err (read file)

  -- `SshExecutor::new` as far as it can fail: `decode` is `thrussh_keys::decode_secret_key`.
  unfoldable pub new_executor_key : String → Option String → Outcome KeyPair
  new_executor_key ssh_key passphrase = elim (decode ssh_key passphrase) [
    | none ↦ err (external "thrussh_keys::Error")
    | some key ↦ ok key
  ]

  unfoldable pub load_key : KeyArgs → Outcome KeyPair
  load_key args = do
    ssh_key_file ← given_or_err args.ssh_key
    ssh_key ← read ssh_key_file
    passphrase ← read_passphrase args.ssh_key_passphrase
    new_executor_key ssh_key passphrase

-- `debug_report` is `format!("{:?}", …)` of a report.
module _ (debug_str : String → String) (debug_report : Report → String) (C : Channel) (M : Machine)
    (R : Remote) (V : Receiver C) where
  -- The report that `do_apply` makes of an error of the executor `kind`.
  unfoldable pub failed : String → Plan → String → ℕ → Report → Report
  failed kind plan hostname n e = eyre (
      kind
      <> (" executor failed to apply plan "
          <> (plan.name
              <> (" to host "
                  <> (hostname
                      <> (": "
                          <> (decimal n
                              <> ("/"
                                  <> (decimal (length plan.blueprint)
                                      <> (" tasks finished:\n\n" <> debug_report e))))))))))

  -- Behind the local executor. An error is returned at once, which drops the sender; the reading
  -- task goes on beside.
  unfoldable pub after_local :
      ℕ
      → Plan
      → String
      → Outcome (Unit {0})
      → SimpleExecutor debug_str C M
      → List String
      → Option (Outcome (String × ℕ) × List String)
  after_local fuel plan hostname (ok _) t printed =
      join V (print_logs hostname) fuel t.chan (ok (hostname, t.tasks_completed)) printed
  after_local fuel plan hostname (err e) t printed =
      join_closed V (print_logs hostname) fuel t.chan
        (err (failed "local" plan hostname t.tasks_completed e)) printed
  after_local fuel plan hostname (panic p) t printed = some (panic p, printed)

  -- Behind the remote executor. An error is kept until the reading task has ended.
  unfoldable pub after_ssh :
      ℕ
      → Plan
      → String
      → Outcome (Unit {0})
      → SshExecutor debug_str C R
      → List String
      → Option (Outcome (String × ℕ) × List String)
  after_ssh fuel plan hostname (ok _) t printed =
      join V (print_logs hostname) fuel t.chan (ok (hostname, t.tasks_completed)) printed
  after_ssh fuel plan hostname (err e) t printed =
      join V (print_logs hostname) fuel t.chan
        (err (
          eyre (
            "failed to apply plan: "
            <> display (
                plan_apply_failed hostname t.tasks_completed
                  (failed "ssh" plan hostname t.tasks_completed e)))))
        printed
  after_ssh fuel plan hostname (panic p) t printed = some (panic p, printed)

  -- `key` is what `load_key` gave; `w` and `v` are the local and the remote host.
  unfoldable pub do_apply :
      {KeyPair : Type 0}
      → ℕ
      → ExecutorType
      → Outcome KeyPair
      → Plan
      → String
      → Host
      → M.World
      → R.World
      → List String
      → Option (Outcome (String × ℕ) × List String)
  do_apply fuel local key plan hostname host w v printed =
      let s = Local.new debug_str C M (C.channel 1024) w in
      let context : SimpleExecutionContext = record { name = "test"; plan = plan } in
      let (r, s') = Local.execute debug_str C M context.plan s in
      after_local fuel plan hostname r s' printed
  do_apply fuel ssh (err e) plan hostname host w v printed = some (err e, printed)
  do_apply fuel ssh (panic p) plan hostname host w v printed = some (panic p, printed)
  do_apply fuel ssh (ok key) plan hostname host w v printed =
      let t = Ssh.new_with_existing_key debug_str C R (C.channel 1024) v in
      let context : SshExecutionContext = record { name = "test"; plan = plan } in
      let (r, t') = Ssh.execute debug_str C R host hostname context.plan t in
      after_ssh fuel plan hostname r t' printed
