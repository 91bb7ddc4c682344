-- ===== src/Executor/Ssh/Tasks.antt =====
-- What the loop over the tasks of a plan does on the remote host.
use mathlib.Core.List.{append-nil, append_assoc}
use that_goes_there.Prelude.{
  ℕ, ◌+◌, ◌%◌, ◌^◌, ◌<◌, String, ◌≡◌, refl, sym, ap, arith, List, [], ◌∷◌, ◌++◌, length,
}
use that_goes_there.Outcome.{Outcome, ok, err, panic}
use that_goes_there.Exec.{modify, pure, for_each}
use that_goes_there.Exec.Post.{Meets, bind-Meets}
use that_goes_there.Plan.Task.{PlannedTask}
use that_goes_there.Executor.Stream.{Channel}
use that_goes_there.Executor.State.{count_task}
use that_goes_there.Executor.Ssh.{Remote, SshExecutor, execute_task, execute_counted}
use that_goes_there.Executor.Ssh.Quiet.{Same}
use that_goes_there.Executor.Ssh.Run.{script, Partly, Same-cast, RunPost, execute_task-RunPost}

-- The commands that tasks are compiled to.
unfoldable pub scripts : List PlannedTask → List String
scripts [] = []
scripts (t ∷ ts) = script t ++ scripts ts

-- Those of the first of some tasks, if there is one.
abbrev pub head_script : List PlannedTask → List String
head_script [] = []
head_script (t ∷ ts) = script t

module _ (debug_str : String → String) (C : Channel) (R : Remote) where
  -- The loop stopped between two tasks of the list or within one: those before are completed, and
  -- of the next a first part was executed.
  pub record Stopped (ts : List PlannedTask) (n k : ℕ) (cs : List String)
      (t : SshExecutor debug_str C R) : Type 0 where
    pub before : List PlannedTask
    pub after : List PlannedTask
    pub place : ts ≡ before ++ after
    pub within :
        Partly debug_str C R (head_script after) n (k + length before) (cs ++ scripts before) t

  abbrev pub CountedPost :
      PlannedTask → ℕ → ℕ → List String → Outcome (Unit {0}) → SshExecutor debug_str C R → Type 0
  CountedPost task n k cs (ok _) t = Same debug_str C R n ((k + 1) % 2 ^ 32) (cs ++ script task) t
  CountedPost task n k cs (err _) t = Partly debug_str C R (script task) n k cs t
  CountedPost task n k cs (panic _) t = Partly debug_str C R (script task) n k cs t

  execute_counted-CountedPost :
      (task : PlannedTask) (n k : ℕ) (cs : List String) (s : SshExecutor debug_str C R)
      → Same debug_str C R n k cs s
      → Meets (CountedPost task n k cs) (execute_counted debug_str C R task s)
  unfolding execute_counted count_task modify
  execute_counted-CountedPost task n k cs s h =
      bind-Meets (RunPost debug_str C R (script task) n k cs) (CountedPost task n k cs)
        (execute_task debug_str C R task) _ s (execute_task-RunPost debug_str C R task n k cs s h)
        (λ _ u g. record {
          ended = g.ended;
          completed = ap (λ (j : ℕ). (j + 1) % 2 ^ 32) g.completed;
          executed = g.executed;
        })
        (λ _ u g. g) (λ _ u g. g)

  abbrev pub LoopPost :
      List PlannedTask
      → ℕ
      → ℕ
      → List String
      → Outcome (Unit {0})
      → SshExecutor debug_str C R
      → Type 0
  LoopPost ts n k cs (ok _) t = Same debug_str C R n (k + length ts) (cs ++ scripts ts) t
  LoopPost ts n k cs (err _) t = Stopped ts n k cs t
  LoopPost ts n k cs (panic _) t = Stopped ts n k cs t

  Partly-cast :
      {cmds : List String} {n k k' : ℕ} {cs cs' : List String} {t : SshExecutor debug_str C R}
      → k ≡ k'
      → cs ≡ cs'
      → Partly debug_str C R cmds n k cs t
      → Partly debug_str C R cmds n k' cs' t
  Partly-cast e f p = record {
    done = p.done;
    rest = p.rest;
    parts = p.parts;
    state = Same-cast debug_str C R e (ap (λ l. l ++ p.done) f) p.state;
  }

  Stopped-first :
      (task : PlannedTask) (ts : List PlannedTask) {n k : ℕ} {cs : List String}
      {t : SshExecutor debug_str C R}
      → Partly debug_str C R (script task) n k cs t
      → Stopped (task ∷ ts) n k cs t
  unfolding scripts
  Stopped-first task ts {cs = cs} p = record {
    before = [];
    after = task ∷ ts;
    place = refl;
    within = Partly-cast (omega arith) (sym (append-nil cs)) p;
  }

  Stopped-later :
      (task : PlannedTask) (ts : List PlannedTask) (n k : ℕ) (cs : List String)
      {t : SshExecutor debug_str C R}
      → Stopped ts n (k + 1) (cs ++ script task) t
      → Stopped (task ∷ ts) n k cs t
  unfolding scripts
  Stopped-later task ts n k cs s = record {
    before = task ∷ s.before;
    after = s.after;
    place = ap (◌∷◌ task) s.place;
    within = Partly-cast (omega arith) (append_assoc cs (script task) (scripts s.before)) s.within;
  }

  pub for_each-LoopPost :
      (ts : List PlannedTask) (n k : ℕ) (cs : List String) (s : SshExecutor debug_str C R)
      → k + length ts < 2 ^ 32
      → Same debug_str C R n k cs s
      → Meets (LoopPost ts n k cs) (for_each (execute_counted debug_str C R) ts s)
  unfolding for_each scripts
  for_each-LoopPost [] n k cs s fits h =
      unfold pure in Same-cast debug_str C R (omega arith) (sym (append-nil cs)) h
  for_each-LoopPost (task ∷ ts) n k cs s fits h =
      bind-Meets (CountedPost task n k cs) (LoopPost (task ∷ ts) n k cs)
        (execute_counted debug_str C R task) _ s (execute_counted-CountedPost task n k cs s h)
        (λ _ u g. shift _ _ (
          for_each-LoopPost ts n (k + 1) (cs ++ script task) u (omega arith)
            (Same-cast debug_str C R (omega arith) refl g)))
        (λ _ u g. Stopped-first task ts g) (λ _ u g. Stopped-first task ts g)
    where
      shift :
          (r : Outcome (Unit {0})) (t : SshExecutor debug_str C R)
          → LoopPost ts n (k + 1) (cs ++ script task) r t
          → LoopPost (task ∷ ts) n k cs r t
      shift (ok _) t g = Same-cast debug_str C R (omega arith) (append_assoc cs _ _) g
      shift (err _) t g = Stopped-later task ts n k cs g
      shift (panic _) t g = Stopped-later task ts n k cs g
