-- ===== src/Executor/Ssh/Outcomes.antt =====
-- The outcomes of a run of the remote executor.
use mathlib.Core.List.{append-nil}
use that_goes_there.Prelude.{
  ℕ, ◌+◌, String, ◌≡◌, ◌⊎◌, inl, Bool, true, false, refl, sym, ◌∙◌, arith, List, [], ◌∷◌, ◌++◌,
  length,
}
use that_goes_there.Outcome.{Outcome, ok, err, panic, eyre}
use that_goes_there.Plan.Task.{PlannedTask, Plan}
use that_goes_there.Executor.Stream.{PartialLogStream, end, ends, Channel}
use that_goes_there.Executor.Ssh.{Remote, SshExecutor}
use that_goes_there.Executor.Ssh.Quiet.{Same}
use that_goes_there.Executor.Ssh.Opening.{lost}
use that_goes_there.Executor.Ssh.Run.{Partly-none, Same-cast}
use that_goes_there.Executor.Ssh.Tasks.{scripts, head_script, Stopped}

abbrev pub refused : Outcome (Unit {0})
refused = err (eyre "ssh authentication failed!")

module _ (debug_str : String → String) (C : Channel) (R : Remote) where
  abbrev pub LastIsEnd : SshExecutor debug_str C R → Type 0
  LastIsEnd t = (before : List PartialLogStream) × (C.sent t.chan ≡ before ++ end ∷ [])

  -- `b` is whether the host refuses the authentication. A run that returns was not refused; it has
  -- executed the script of every task, in order, has counted every task, and has ended the stream
  -- once, with its last message.
  pub record Finished (plan : Plan) (b : Bool) (n : ℕ) (cs : List String)
      (t : SshExecutor debug_str C R) : Type 0 where
    pub let_in : b ≡ false
    pub completed : t.tasks_completed ≡ length plan.blueprint
    pub executed : R.executed t.world ≡ cs ++ scripts plan.blueprint
    pub ended : ends (C.sent t.chan) ≡ n + 1
    pub last : LastIsEnd t

  -- A run that fails has completed the tasks before some place of the plan, and has executed a first
  -- part of the script of the task there. It has sent no end only if the host refused nothing or the
  -- receiver was lost; otherwise the end is its last message, and it has executed nothing.
  pub record Interrupted (plan : Plan) (b : Bool) (n : ℕ) (cs : List String)
      (r : Outcome (Unit {0})) (t : SshExecutor debug_str C R) : Type 0 where
    pub before : List PlannedTask
    pub after : List PlannedTask
    pub place : plan.blueprint ≡ before ++ after
    pub completed : t.tasks_completed ≡ length before
    pub done : List String
    pub rest : List String
    pub parts : done ++ rest ≡ head_script after
    pub executed : R.executed t.world ≡ (cs ++ scripts before) ++ done
    pub ended :
        ((ends (C.sent t.chan) ≡ n) × ((b ≡ false) ⊎ (r ≡ err lost)))
        ⊎ ((b ≡ true)
            × (r ≡ refused)
            × (ends (C.sent t.chan) ≡ n + 1)
            × LastIsEnd t
            × (R.executed t.world ≡ cs))

  abbrev pub ExecutePost :
      Plan → Bool → ℕ → List String → Outcome (Unit {0}) → SshExecutor debug_str C R → Type 0
  ExecutePost plan b n cs (ok _) t = Finished plan b n cs t
  ExecutePost plan b n cs (err e) t = Interrupted plan b n cs (err e) t
  ExecutePost plan b n cs (panic p) t = Interrupted plan b n cs (panic p) t

  module _ (plan : Plan) (b : Bool) (n : ℕ) (cs : List String) where
    pub of_Stopped :
        (r : Outcome (Unit {0})) {t : SshExecutor debug_str C R}
        → (b ≡ false) ⊎ (r ≡ err lost)
        → Stopped debug_str C R plan.blueprint n 0 cs t
        → Interrupted plan b n cs r t
    of_Stopped r why s = record {
      before = s.before;
      after = s.after;
      place = s.place;
      completed = s.within.state.completed ∙ omega arith;
      done = s.within.done;
      rest = s.within.rest;
      parts = s.within.parts;
      executed = s.within.state.executed;
      ended = inl (s.within.state.ended, why);
    }

    pub at_start :
        (r : Outcome (Unit {0})) {t : SshExecutor debug_str C R}
        → (b ≡ false) ⊎ (r ≡ err lost)
        → Same debug_str C R n 0 cs t
        → Interrupted plan b n cs r t
    unfolding scripts
    at_start r why h = of_Stopped r why (record {
      before = [];
      after = plan.blueprint;
      place = refl;
      within =
          Partly-none debug_str C R _
            (Same-cast debug_str C R (omega arith) (sym (append-nil cs)) h);
    })

    abbrev pub AllDone : SshExecutor debug_str C R → Type 0
    AllDone = Same debug_str C R n (length plan.blueprint) (cs ++ scripts plan.blueprint)

    pub at_end :
        (r : Outcome (Unit {0})) {t : SshExecutor debug_str C R}
        → b ≡ false
        → AllDone t
        → Interrupted plan b n cs r t
    at_end r free h = of_Stopped r (inl free) (record {
      before = plan.blueprint;
      after = [];
      place = sym (append-nil plan.blueprint);
      within = Partly-none debug_str C R _ (Same-cast debug_str C R (omega arith) refl h);
    })
