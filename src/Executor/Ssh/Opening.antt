-- ===== src/Executor/Ssh/Opening.antt =====
-- The opening of `execute` of the remote executor: a line of log, the connection and the
-- authentication, each with its failures.
use that_goes_there.Prelude.{
  ℕ, String, ◌≡◌, refl, ap, sym, ◌∙◌, inl, inr, Bool, true, false, not, Option, none, some, List,
  [], ◌∷◌, if◌then◌else◌,
}
use that_goes_there.Outcome.{Report, Outcome, ok, err, panic, external}
use that_goes_there.Exec.Post.{Meets}
use that_goes_there.Plan.Host.{Host, real_remote_user}
use that_goes_there.Executor.Stream
use that_goes_there.Executor.Stream.{next, Channel}
use that_goes_there.Executor.Stream.Laws.{sink_cases}
use that_goes_there.Executor.State.{on_chan, on_world}
use that_goes_there.Executor.Ssh.{
  Remote, SshExecutor, sink_one, address, connect_to, log_in, done_or_err, or_ssh_error,
}
use that_goes_there.Executor.Ssh.Quiet.{Same, sink_one-Same, connect_to-Same, log_in-Same}

-- What a sink without a receiver makes of a run.
abbrev pub lost : Report
lost = external "SendError"

abbrev is_refusal : Option Bool → Bool
is_refusal none = false
is_refusal (some accepted) = not accepted

module _ (debug_str : String → String) (C : Channel) (R : Remote) where
  -- Whether the host can be reached and refuses the authentication.
  abbrev pub refuses : Host → R.World → Bool
  refuses host w =
      let (connected, v) = R.connect (address debug_str C R host) w in
      if connected then is_refusal (R.authenticate (real_remote_user host) v).0 else false

  unreached :
      (host : Host) (w : R.World)
      → (R.connect (address debug_str C R host) w).0 ≡ false
      → refuses host w ≡ false
  unreached host w e = rw e refl

  reached :
      (host : Host) (w : R.World)
      → (R.connect (address debug_str C R host) w).0 ≡ true
      → refuses host w
        ≡ is_refusal
            (R.authenticate (real_remote_user host) (R.connect (address debug_str C R host) w).1).0
  reached host w e = rw e refl

  module _ (n k : ℕ) (cs : List String) where
    -- A line is sent, or the receiver is lost.
    abbrev pub Sunk :
        {A : Type 0} → SshExecutor debug_str C R → Outcome A → SshExecutor debug_str C R → Type 0
    Sunk u (ok _) v = Same debug_str C R n k cs v × (v.world ≡ u.world)
    Sunk u (err e) v = Same debug_str C R n k cs v × (e ≡ lost)
    Sunk u (panic p) v = ⊥

    pub sink_one-Sunk :
        (l : String) (u : SshExecutor debug_str C R)
        → Same debug_str C R n k cs u
        → Meets (Sunk u) (sink_one debug_str C R l u)
    unfolding sink_one on_chan Stream.sink_one
    sink_one-Sunk l u h =
        let same = (sink_one-Same debug_str C R l).at u h in
        elim (sink_cases C (next (l ∷ [])) u.chan) [
          | inl (r, _) ↦ rw r (same, refl)
          | inr (r, _) ↦ rw r (same, refl)
        ]

    -- The host is reached, or it refuses nothing.
    abbrev pub Connected :
        Host → SshExecutor debug_str C R → Outcome (Unit {0}) → SshExecutor debug_str C R → Type 0
    Connected host u (ok _) v =
        Same debug_str C R n k cs v
        × (refuses host u.world ≡ is_refusal (R.authenticate (real_remote_user host) v.world).0)
    Connected host u (err e) v = Same debug_str C R n k cs v × (refuses host u.world ≡ false)
    Connected host u (panic p) v = ⊥

    connection_cases :
        (host : Host) (u v : SshExecutor debug_str C R) (b : Bool)
        → (R.connect (address debug_str C R host) u.world).0 ≡ b
        → v.world ≡ (R.connect (address debug_str C R host) u.world).1
        → Same debug_str C R n k cs v
        → Connected host u (done_or_err b) v
    connection_cases host u v true e there same = (
      same,
      reached host u.world e
          ∙ ap (λ w. is_refusal (R.authenticate (real_remote_user host) w).0) (sym there),
    )
    connection_cases host u v false e there same = (same, unreached host u.world e)

    pub connect_to-Connected :
        (host : Host) (u : SshExecutor debug_str C R)
        → Same debug_str C R n k cs u
        → Meets (Connected host u) (connect_to debug_str C R host u)
    unfolding connect_to on_world
    connect_to-Connected host u h =
        connection_cases host u (connect_to debug_str C R host u).1 _ refl refl
          ((connect_to-Same debug_str C R host).at u h)

    -- The host accepts or refuses, or there is no answer.
    abbrev pub Answered :
        Host → SshExecutor debug_str C R → Outcome Bool → SshExecutor debug_str C R → Type 0
    Answered host u (ok accepted) v =
        Same debug_str C R n k cs v
        × (is_refusal (R.authenticate (real_remote_user host) u.world).0 ≡ not accepted)
    Answered host u (err e) v =
        Same debug_str C R n k cs v
        × (is_refusal (R.authenticate (real_remote_user host) u.world).0 ≡ false)
    Answered host u (panic p) v = ⊥

    answer_cases :
        (host : Host) (u v : SshExecutor debug_str C R) (o : Option Bool)
        → (R.authenticate (real_remote_user host) u.world).0 ≡ o
        → Same debug_str C R n k cs v
        → Answered host u (or_ssh_error o) v
    answer_cases host u v none e same = (same, ap is_refusal e)
    answer_cases host u v (some accepted) e same = (same, ap is_refusal e)

    pub log_in-Answered :
        (host : Host) (u : SshExecutor debug_str C R)
        → Same debug_str C R n k cs u
        → Meets (Answered host u) (log_in debug_str C R host u)
    unfolding log_in on_world
    log_in-Answered host u h =
        answer_cases host u (log_in debug_str C R host u).1 _ refl
          ((log_in-Same debug_str C R host).at u h)
