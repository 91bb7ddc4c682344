-- ===== src/Cli/Run/Ending.antt =====
-- When `do_apply` of the command line returns, and what it has printed then.
use mathlib.Core.List.{append-nil, append_assoc}
use that_goes_there.Prelude.{
  ℕ, ◌^◌, ◌<◌, String, ◌<>◌, ◌≡◌, ◌≢◌, refl, sym, ap, ◌∙◌, arith, none, some, List, [], ◌∷◌, ◌++◌,
  map, length,
}
use that_goes_there.Outcome.{Report, Panic, Outcome, ok, err, panic}
use that_goes_there.Plan.Task.{Plan}
use that_goes_there.Plan.Host.{Host}
use that_goes_there.Executor.Stream.{Logs, Channel, ends}
use that_goes_there.Executor.Source.{Receiver}
use that_goes_there.Executor.Source.Join.{join-hangs, join-ends, join_closed-ends}
use that_goes_there.Executor.Source.Loop.{delivered, handle_all}
use that_goes_there.Executor.Local
use that_goes_there.Executor.Local.{Machine, SimpleExecutor}
use that_goes_there.Executor.Local.Execute
use that_goes_there.Executor.Local.Execute.{local_execute_outcomes}
use that_goes_there.Executor.Ssh
use that_goes_there.Executor.Ssh.{Remote}
use that_goes_there.Executor.Ssh.Outcomes.{refused}
use that_goes_there.Executor.Ssh.Ends.{execute-no_end}
use that_goes_there.Cli.Run.{local, ssh, print_logs, failed, after_local, after_ssh, do_apply}

-- The lines of a host in messages in front of the end.
abbrev pub lines_of : String → List Logs → List String
lines_of hostname [] = []
lines_of hostname (logs ∷ rest) =
    map (λ log. hostname <> (": " <> log)) logs ++ lines_of hostname rest

module _ {C : Channel} (V : Receiver C) where
  handle_all-print :
      (hostname : String) (ls : List Logs) (printed : List String)
      → handle_all V (print_logs hostname) printed ls ≡ printed ++ lines_of hostname ls
  unfolding print_logs
  handle_all-print hostname [] printed = sym (append-nil printed)
  handle_all-print hostname (logs ∷ ls) printed =
      handle_all-print hostname ls (print_logs hostname logs printed)
      ∙ append_assoc printed (map (λ log. hostname <> (": " <> log)) logs) (lines_of hostname ls)

module _ (debug_str : String → String) (debug_report : Report → String) (C : Channel) (M : Machine)
    (R : Remote) (V : Receiver C) where
  -- The result of a local run.
  abbrev pub local_result :
      Plan → String → Outcome (Unit {0}) → SimpleExecutor debug_str C M → Outcome (String × ℕ)
  local_result plan hostname (ok _) t = ok (hostname, length plan.blueprint)
  local_result plan hostname (err e) t =
      err (failed debug_str debug_report C M R V "local" plan hostname t.tasks_completed e)
  local_result plan hostname (panic p) t = panic p

  after_local-ends :
      (plan : Plan) (hostname : String) (n : ℕ) (cs : List (List String)) (fuel : ℕ)
      (printed : List String) (r : Outcome (Unit {0})) (t : SimpleExecutor debug_str C M)
      → Local.Execute.ExecutePost debug_str C M plan n cs r t
      → ((p : Panic) → r ≢ panic p)
      → length (C.sent t.chan) < fuel
      → after_local debug_str debug_report C M R V fuel plan hostname r t printed
        ≡ some (
          local_result plan hostname r t,
          printed ++ lines_of hostname (delivered (C.sent t.chan)),
        )
  unfolding after_local
  after_local-ends plan hostname n cs fuel printed (ok x) t post calm enough =
      join-ends V (print_logs hostname) fuel t.chan _ printed
        (λ z. absurd (omega (arith, post.ended))) enough
      ∙ rw post.completed (rw handle_all-print refl)
  after_local-ends plan hostname n cs fuel printed (err e) t post calm enough =
      join_closed-ends V (print_logs hostname) fuel t.chan _ printed enough
      ∙ rw handle_all-print refl
  after_local-ends plan hostname n cs fuel printed (panic p) t post calm enough =
      absurd (calm p refl)

  -- With the local executor, and a plan of fewer than 2^32 tasks, `do_apply` returns
  -- whenever the executor does not panic, once the reading task had one round more than there are
  -- messages: with the number of tasks if the executor returns, and with its error at once if it
  -- fails. The logs in front of the end of the stream are printed, each once and in order.
  pub do_apply-local_returns :
      {KeyPair : Type 0} (fuel : ℕ) (key : Outcome KeyPair) (plan : Plan) (hostname : String)
      (host : Host) (w : M.World) (v : R.World) (printed : List String)
      → length plan.blueprint < 2 ^ 32
      → ((p : Panic)
          → (Local.execute debug_str C M plan (Local.new debug_str C M (C.channel 1024) w)).0
            ≢ panic p)
      → length (
          C.sent
            (Local.execute debug_str C M plan (Local.new debug_str C M (C.channel 1024) w)).1.chan)
        < fuel
      → let (r, u) =
          Local.execute debug_str C M plan (Local.new debug_str C M (C.channel 1024) w) in
        do_apply debug_str debug_report C M R V fuel local key plan hostname host w v printed
        ≡ some (
          local_result plan hostname r u,
          printed ++ lines_of hostname (delivered (C.sent u.chan)),
        )
  unfolding do_apply
  do_apply-local_returns fuel key plan hostname host w v printed fits calm enough =
      after_local-ends plan hostname _ _ fuel printed _ _
        (local_execute_outcomes debug_str C M plan _ refl fits) calm enough

  -- With the remote executor, a loaded key, and a plan of
  -- fewer than 2^32 tasks: if `execute` fails with an error other than the refused authentication,
  -- `do_apply` never returns, whatever the number of rounds of the reading task.
  pub do_apply-ssh_hangs :
      {KeyPair : Type 0} (fuel : ℕ) (key : KeyPair) (plan : Plan) (hostname : String) (host : Host)
      (w : M.World) (v : R.World) (printed : List String) (e : Report)
      → length plan.blueprint < 2 ^ 32
      → (Ssh.execute debug_str C R host hostname plan
          (Ssh.new_with_existing_key debug_str C R (C.channel 1024) v)).0
        ≡ err e
      → err e ≢ refused
      → do_apply debug_str debug_report C M R V fuel ssh (ok key) plan hostname host w v printed
        ≡ none
  unfolding do_apply after_ssh
  do_apply-ssh_hangs fuel key plan hostname host w v printed e fits bad other = rw bad (
      join-hangs V (print_logs hostname) fuel
        (Ssh.execute debug_str C R host hostname plan
          (Ssh.new_with_existing_key debug_str C R (C.channel 1024) v)).1.chan
        _ printed
        (execute-no_end debug_str C R host hostname plan _ e refl fits
          (ap ends (C.sent-channel 1024)) bad other))
