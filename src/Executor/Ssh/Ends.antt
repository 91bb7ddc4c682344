-- ===== src/Executor/Ssh/Ends.antt =====
-- Whether a run of the remote executor has ended its stream.
use that_goes_there.Prelude.{◌^◌, ◌<◌, String, ◌≡◌, ◌≢◌, inl, inr, sym, ◌∙◌, arith, length}
use that_goes_there.Outcome.{Report, Outcome, ok, err, panic}
use that_goes_there.Plan.Task.{Plan}
use that_goes_there.Plan.Host.{Host}
use that_goes_there.Executor.Stream.{Channel, ends}
use that_goes_there.Executor.Ssh.{Remote, SshExecutor, execute}
use that_goes_there.Executor.Ssh.Opening.{refuses}
use that_goes_there.Executor.Ssh.Outcomes.{refused, ExecutePost}
use that_goes_there.Executor.Ssh.Execute.{ssh_execute_outcomes}

module _ (debug_str : String → String) (C : Channel) (R : Remote) (host : Host) (hostname : String)
    (plan : Plan) (s : SshExecutor debug_str C R) where
  -- A failure other than the refused authentication has sent no end.
  pub execute-no_end :
      (e : Report)
      → s.tasks_completed ≡ 0
      → length plan.blueprint < 2 ^ 32
      → ends (C.sent s.chan) ≡ 0
      → (execute debug_str C R host hostname plan s).0 ≡ err e
      → err e ≢ refused
      → ends (C.sent (execute debug_str C R host hostname plan s).1.chan) ≡ 0
  execute-no_end e fresh fits none_yet failed other =
      by_outcome _ _ (ssh_execute_outcomes debug_str C R host hostname plan s fresh fits) failed
    where
      by_outcome :
          (r : Outcome (Unit {0})) (t : SshExecutor debug_str C R)
          → ExecutePost debug_str C R plan
              (refuses debug_str C R host s.world)
              (ends (C.sent s.chan))
              (R.executed s.world)
              r
              t
          → r ≡ err e
          → ends (C.sent t.chan) ≡ 0
      by_outcome (ok _) t post h = absurd (cc)
      by_outcome (panic _) t post h = absurd (cc)
      by_outcome (err e') t post h = elim post.ended [
        | inl (same, _) ↦ same ∙ none_yet
        | inr (_, is_refused, _, _, _) ↦ absurd (other (sym h ∙ is_refused))
      ]

  -- A run that returns has sent an end, and has counted every task.
  pub execute-end :
      s.tasks_completed ≡ 0
      → length plan.blueprint < 2 ^ 32
      → (execute debug_str C R host hostname plan s).0 ≡ ok tt
      → (ends (C.sent (execute debug_str C R host hostname plan s).1.chan) ≢ 0)
        × ((execute debug_str C R host hostname plan s).1.tasks_completed ≡ length plan.blueprint)
  execute-end fresh fits done =
      by_outcome _ _ (ssh_execute_outcomes debug_str C R host hostname plan s fresh fits) done
    where
      by_outcome :
          (r : Outcome (Unit {0})) (t : SshExecutor debug_str C R)
          → ExecutePost debug_str C R plan
              (refuses debug_str C R host s.world)
              (ends (C.sent s.chan))
              (R.executed s.world)
              r
              t
          → r ≡ ok tt
          → (ends (C.sent t.chan) ≢ 0) × (t.tasks_completed ≡ length plan.blueprint)
      by_outcome (err _) t post h = absurd (cc)
      by_outcome (panic _) t post h = absurd (cc)
      by_outcome (ok x) t post h = (λ z. absurd (omega (arith, post.ended)), post.completed)
