-- ===== src/Executor/Ssh/Execute.antt =====
-- What `execute` of the remote executor does, on every outcome.
use mathlib.Core.List.{append-nil}
use that_goes_there.Prelude.{
  ℕ, ◌^◌, ◌<◌, String, ◌≡◌, inl, inr, Bool, true, false, not, refl, sym, ap, ◌∙◌, arith, List, [],
  length,
}
use that_goes_there.Outcome.{Outcome, ok, err, panic}
use that_goes_there.Exec.{pure, gets, throw, for_each, ◌>>=◌}
use that_goes_there.Exec.Post.{Meets, bind-Meets}
use that_goes_there.Plan.Task.{Plan}
use that_goes_there.Plan.Host.{Host}
use that_goes_there.Executor.Stream.{end, ends, Channel}
use that_goes_there.Executor.Stream.Laws.{sink_cases, ends-append}
use that_goes_there.Executor.State.{on_chan}
use that_goes_there.Executor.Ssh.{
  Remote, SshExecutor, sink_partial, sink_one, finished_line, execute_counted, connect_to, log_in,
  apply_or_refuse, execute,
}
use that_goes_there.Executor.Ssh.Quiet.{Same, sink_one-Same}
use that_goes_there.Executor.Ssh.Opening.{
  refuses, Sunk, sink_one-Sunk, Connected, connect_to-Connected, Answered, log_in-Answered,
}
use that_goes_there.Executor.Ssh.Run.{Same-cast}
use that_goes_there.Executor.Ssh.Tasks.{scripts, head_script, LoopPost, for_each-LoopPost}
use that_goes_there.Executor.Ssh.Outcomes.{
  refused, Finished, Interrupted, ExecutePost, of_Stopped, at_start, at_end, AllDone,
}

module _ (debug_str : String → String) (C : Channel) (R : Remote) where
  module _ (plan : Plan) (b : Bool) (n : ℕ) (cs : List String) where
    -- The outcomes of the last message.
    EndPost : Outcome ℕ → SshExecutor debug_str C R → Type 0
    EndPost (ok _) t = Finished debug_str C R plan b n cs t
    EndPost (err e) t = Interrupted debug_str C R plan b n cs (err e) t
    EndPost (panic p) t = Interrupted debug_str C R plan b n cs (panic p) t

    sink_end-EndPost :
        (u : SshExecutor debug_str C R)
        → b ≡ false
        → AllDone debug_str C R plan b n cs u
        → Meets EndPost (sink_partial debug_str C R end u)
    unfolding sink_partial on_chan EndPost
    sink_end-EndPost u free h = elim (sink_cases C end u.chan) [
      | inl (r, e) ↦ rw r (record {
        let_in = free;
        completed = h.completed;
        executed = h.executed;
        ended = rw (e, ends-append) (omega (arith, h.ended));
        last = (C.sent u.chan, e);
      })
      | inr (r, e) ↦ rw r (
          at_end debug_str C R plan b n cs _ free
            (record { ended = rw e h.ended; completed = h.completed; executed = h.executed }))
    ]

    -- The message that ends a refused run.
    RefusedPost : Outcome ℕ → SshExecutor debug_str C R → Type 0
    RefusedPost (ok _) t = Interrupted debug_str C R plan b n cs refused t
    RefusedPost (err e) t = Interrupted debug_str C R plan b n cs (err e) t
    RefusedPost (panic p) t = Interrupted debug_str C R plan b n cs (panic p) t

    sink_end-RefusedPost :
        (u : SshExecutor debug_str C R)
        → b ≡ true
        → Same debug_str C R n 0 cs u
        → Meets RefusedPost (sink_partial debug_str C R end u)
    unfolding sink_partial on_chan RefusedPost scripts
    sink_end-RefusedPost u turned_away h = elim (sink_cases C end u.chan) [
      | inl (r, e) ↦ rw r (record {
        before = [];
        after = plan.blueprint;
        place = refl;
        completed = h.completed;
        done = [];
        rest = head_script plan.blueprint;
        parts = refl;
        executed = h.executed ∙ rw (append-nil, append-nil);
        ended = inr (
          turned_away,
          refl,
          rw (e, ends-append) (omega (arith, h.ended)),
          (C.sent u.chan, e),
          h.executed,
        );
      })
      | inr (r, e) ↦ rw r (
          at_start debug_str C R plan b n cs _ (inr refl)
            (record { ended = rw e h.ended; completed = h.completed; executed = h.executed }))
    ]

    finish :
        (hostname : String) (u : SshExecutor debug_str C R)
        → b ≡ false
        → AllDone debug_str C R plan b n cs u
        → Meets (ExecutePost debug_str C R plan b n cs) (
            (do
              done ← gets (λ s. s.tasks_completed)
              i ← sink_one debug_str C R (finished_line debug_str C R plan hostname done)
              j ← sink_partial debug_str C R end
              pure tt)
              u)
    unfolding gets EndPost pure
    finish hostname u free h =
        bind-Meets (λ _ v. AllDone debug_str C R plan b n cs v)
          (ExecutePost debug_str C R plan b n cs) (gets (λ s. s.tasks_completed)) _ u h
          (λ k v g.
            bind-Meets (λ _ w. AllDone debug_str C R plan b n cs w)
              (ExecutePost debug_str C R plan b n cs) (sink_one debug_str C R _) _ v
              ((sink_one-Same debug_str C R _).at v g)
              (λ _ w f.
                bind-Meets EndPost (ExecutePost debug_str C R plan b n cs)
                  (sink_partial debug_str C R end) _ w (sink_end-EndPost w free f) (λ _ x d. d)
                  (λ _ x d. d) (λ _ x d. d))
              (λ _ w f. at_end debug_str C R plan b n cs _ free f)
              (λ _ w f. at_end debug_str C R plan b n cs _ free f))
          (λ _ v g. at_end debug_str C R plan b n cs _ free g)
          (λ _ v g. at_end debug_str C R plan b n cs _ free g)

    apply_or_refuse-ExecutePost :
        (hostname : String) (accepted : Bool) (u : SshExecutor debug_str C R)
        → length plan.blueprint < 2 ^ 32
        → b ≡ not accepted
        → Same debug_str C R n 0 cs u
        → Meets
            (ExecutePost debug_str C R plan b n cs)
            (apply_or_refuse debug_str C R hostname plan accepted u)
    unfolding apply_or_refuse throw RefusedPost
    apply_or_refuse-ExecutePost hostname true u fits free h =
        bind-Meets (LoopPost debug_str C R plan.blueprint n 0 cs)
          (ExecutePost debug_str C R plan b n cs)
          (for_each (execute_counted debug_str C R) plan.blueprint) _ u
          (for_each-LoopPost debug_str C R plan.blueprint n 0 cs u (omega arith) h)
          (λ _ v g. finish hostname v free (Same-cast debug_str C R (omega arith) refl g))
          (λ _ v g. of_Stopped debug_str C R plan b n cs _ (inl free) g)
          (λ _ v g. of_Stopped debug_str C R plan b n cs _ (inl free) g)
    apply_or_refuse-ExecutePost hostname false u fits turned_away h =
        bind-Meets (Sunk debug_str C R n 0 cs u) (ExecutePost debug_str C R plan b n cs)
          (sink_one debug_str C R _) _ u (sink_one-Sunk debug_str C R n 0 cs _ u h)
          (λ _ v g.
            bind-Meets RefusedPost (ExecutePost debug_str C R plan b n cs)
              (sink_partial debug_str C R end) _ v (sink_end-RefusedPost v turned_away g.0)
              (λ _ w d. d) (λ _ w d. d) (λ _ w d. d))
          (λ _ v g. at_start debug_str C R plan b n cs _ (inr (ap err g.1)) g.0) (λ _ v g. absurd g)

  -- Whatever the remote host and the receiver of the logs do, `execute` with a fresh counter and a
  -- plan of fewer than 2^32 tasks either returns, and then the host did not refuse the authentication, and
  -- the run has executed the script of every task of the plan in order, counted each, and ended
  -- the stream once by its last message; or it does not return normally, and has then completed
  -- exactly the tasks before some place of the plan and executed a first part of the script of the
  -- task there. In the second case, if the host was reached and refused the authentication and the
  -- receiver was not lost, the run has failed with that refusal, executed nothing, and sent one
  -- end, as its last message; else it has sent no end.
  pub ssh_execute_outcomes :
      (host : Host) (hostname : String) (plan : Plan) (s : SshExecutor debug_str C R)
      → s.tasks_completed ≡ 0
      → length plan.blueprint < 2 ^ 32
      → Meets
          (ExecutePost debug_str C R plan
            (refuses debug_str C R host s.world)
            (ends (C.sent s.chan))
            (R.executed s.world))
          (execute debug_str C R host hostname plan s)
  unfolding execute
  ssh_execute_outcomes host hostname plan s fresh fits =
      let n = ends (C.sent s.chan) in
      let cs = R.executed s.world in
      let b = refuses debug_str C R host s.world in
      bind-Meets (Sunk debug_str C R n 0 cs s) (ExecutePost debug_str C R plan b n cs)
        (sink_one debug_str C R _) _ s
        (sink_one-Sunk debug_str C R n 0 cs _ s
          (record { ended = refl; completed = fresh; executed = refl }))
        (λ _ u (g, there).
          let now : b ≡ refuses debug_str C R host u.world =
            ap (refuses debug_str C R host) (sym there) in
          bind-Meets (Connected debug_str C R n 0 cs host u) (ExecutePost debug_str C R plan b n cs)
            (connect_to debug_str C R host) _ u (connect_to-Connected debug_str C R n 0 cs host u g)
            (λ _ v (f, asked).
              bind-Meets (Answered debug_str C R n 0 cs host v)
                (ExecutePost debug_str C R plan b n cs) (log_in debug_str C R host) _ v
                (log_in-Answered debug_str C R n 0 cs host v f)
                (λ accepted w (d, answer).
                  apply_or_refuse-ExecutePost plan b n cs hostname accepted w fits
                    (now ∙ asked ∙ answer) d)
                (λ _ w (d, answer).
                  at_start debug_str C R plan b n cs _ (inl (now ∙ asked ∙ answer)) d)
                (λ _ w d. absurd d))
            (λ _ v (f, free). at_start debug_str C R plan b n cs _ (inl (now ∙ free)) f)
            (λ _ v f. absurd f))
        (λ _ u g. at_start debug_str C R plan b n cs _ (inr (ap err g.1)) g.0) (λ _ u g. absurd g)
