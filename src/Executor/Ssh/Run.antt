-- ===== src/Executor/Ssh/Run.antt =====
-- What a task executes on the remote host.
use mathlib.Core.List.{append-nil, append_assoc}
use that_goes_there.Prelude.{
  ℕ, String, ◌≡◌, refl, sym, ap, ◌∙◌, Option, none, some, List, [], ◌∷◌, ◌++◌, map,
}
use that_goes_there.Text.{join}
use that_goes_there.Outcome.{Outcome, ok, err, panic}
use that_goes_there.Exec.{Exec, throw, ◌>>=◌}
use that_goes_there.Exec.Keeps.{Keeps, Keeps-pure}
use that_goes_there.Exec.Post.{Meets, bind-Meets}
use that_goes_there.Plan.Task.{Ensure, PlannedTask}
use that_goes_there.Executor.Stream.{Channel}
use that_goes_there.Executor.State.{on_world}
use that_goes_there.Executor.Ssh.{
  Frame, Remote, SshExecutor, or_ssh_error, probe, sink_one, open_channel, send_command,
  execute_command, check, ensure_from, ensure_task, run_command, unless_failed, execute_task,
}
use that_goes_there.Executor.Ssh.Quiet.{Same, sink_one-Same, open_channel-Same, wait_frames-Same}

-- The commands that a task is compiled to: one for each prerequisite, and its own.
abbrev pub script : PlannedTask → List String
script t = map probe t.ensures ++ join " " t.command ∷ []

module _ (debug_str : String → String) (C : Channel) (R : Remote) where
  -- A first part of the commands was executed.
  pub record Partly (cmds : List String) (n k : ℕ) (cs : List String)
      (t : SshExecutor debug_str C R) : Type 0 where
    pub done : List String
    pub rest : List String
    pub parts : done ++ rest ≡ cmds
    pub state : Same debug_str C R n k (cs ++ done) t

  -- A block that returns has executed all of the commands; one that does not, a first part of them.
  abbrev pub RunPost :
      {A : Type 0}
      → List String
      → ℕ
      → ℕ
      → List String
      → Outcome A
      → SshExecutor debug_str C R
      → Type 0
  RunPost cmds n k cs (ok _) t = Same debug_str C R n k (cs ++ cmds) t
  RunPost cmds n k cs (err _) t = Partly cmds n k cs t
  RunPost cmds n k cs (panic _) t = Partly cmds n k cs t

  pub Same-cast :
      {n k k' : ℕ} {cs cs' : List String} {t : SshExecutor debug_str C R}
      → k ≡ k'
      → cs ≡ cs'
      → Same debug_str C R n k cs t
      → Same debug_str C R n k' cs' t
  Same-cast e f h = record {
    ended = h.ended;
    completed = h.completed ∙ e;
    executed = h.executed ∙ f;
  }

  pub Partly-none :
      (cmds : List String) {n k : ℕ} {cs : List String} {t : SshExecutor debug_str C R}
      → Same debug_str C R n k cs t
      → Partly cmds n k cs t
  Partly-none cmds {cs = cs} h = record {
    done = [];
    rest = cmds;
    parts = refl;
    state = Same-cast refl (sym (append-nil cs)) h;
  }

  Partly-left :
      {xs : List String} (ys : List String) {n k : ℕ} {cs : List String}
      {t : SshExecutor debug_str C R}
      → Partly xs n k cs t
      → Partly (xs ++ ys) n k cs t
  Partly-left ys p = record {
    done = p.done;
    rest = p.rest ++ ys;
    parts = sym (append_assoc p.done p.rest ys) ∙ ap (λ l. l ++ ys) p.parts;
    state = p.state;
  }

  Partly-right :
      (xs ys : List String) {n k : ℕ} (cs : List String) {t : SshExecutor debug_str C R}
      → Partly ys n k (cs ++ xs) t
      → Partly (xs ++ ys) n k cs t
  Partly-right xs ys cs p = record {
    done = xs ++ p.done;
    rest = p.rest;
    parts = append_assoc xs p.done p.rest ∙ ap (λ l. xs ++ l) p.parts;
    state = Same-cast refl (append_assoc cs xs p.done) p.state;
  }

  quiet-RunPost :
      {A : Type 0} (m : Exec (SshExecutor debug_str C R) A) (n k : ℕ) (cs : List String)
      (s : SshExecutor debug_str C R)
      → Keeps (Same debug_str C R n k cs) m
      → Same debug_str C R n k cs s
      → Meets (RunPost [] n k cs) (m s)
  quiet-RunPost {A} m n k cs s keeps h = by_outcome (m s).0 (keeps.at s h)
    where
      by_outcome : (r : Outcome A) → Same debug_str C R n k cs (m s).1 → RunPost [] n k cs r (m s).1
      by_outcome (ok _) g = Same-cast refl (sym (append-nil cs)) g
      by_outcome (err _) g = Partly-none [] g
      by_outcome (panic _) g = Partly-none [] g

  pub bind-RunPost :
      {A B : Type 0} (xs ys : List String) (m : Exec (SshExecutor debug_str C R) A)
      (f : A → Exec (SshExecutor debug_str C R) B) (n k : ℕ) (cs : List String)
      (s : SshExecutor debug_str C R)
      → Meets (RunPost xs n k cs) (m s)
      → ((a : A) (u : SshExecutor debug_str C R)
          → Same debug_str C R n k (cs ++ xs) u
          → Meets (RunPost ys n k (cs ++ xs)) (f a u))
      → Meets (RunPost (xs ++ ys) n k cs) ((m >>= f) s)
  bind-RunPost {B} xs ys m f n k cs s h rest =
      bind-Meets (RunPost xs n k cs) (RunPost (xs ++ ys) n k cs) m f s h
        (λ a u g. shift (f a u).0 (f a u).1 (rest a u g)) (λ _ u g. Partly-left ys g)
        (λ _ u g. Partly-left ys g)
    where
      shift :
          (r : Outcome B) (t : SshExecutor debug_str C R)
          → RunPost ys n k (cs ++ xs) r t
          → RunPost (xs ++ ys) n k cs r t
      shift (ok _) t g = Same-cast refl (append_assoc cs xs ys) g
      shift (err _) t g = Partly-right xs ys cs g
      shift (panic _) t g = Partly-right xs ys cs g

  module _ {n k : ℕ} (cs : List String) (s : SshExecutor debug_str C R)
      (h : Same debug_str C R n k cs s) where
    send_command-RunPost :
        (c : String) → Meets (RunPost (c ∷ []) n k cs) (send_command debug_str C R c s)
    unfolding send_command on_world
    send_command-RunPost c = by_result (R.exec c s.world).0 refl
      where
        by_result :
            (r : Option (List Frame))
            → (R.exec c s.world).0 ≡ r
            → RunPost
                (c ∷ [])
                n
                k
                cs
                (or_ssh_error (R.exec c s.world).0)
                (record s { world = (R.exec c s.world).1 })
        by_result none e = rw e (
            Partly-none (c ∷ []) (record {
              ended = h.ended;
              completed = h.completed;
              executed = R.executed-exec_fails c s.world e ∙ h.executed;
            }))
        by_result (some fs) e = rw e (record {
          ended = h.ended;
          completed = h.completed;
          executed = R.executed-exec c s.world fs e ∙ ap (λ l. l ++ c ∷ []) h.executed;
        })

  execute_command-RunPost :
      (c : String) (n k : ℕ) (cs : List String) (s : SshExecutor debug_str C R)
      → Same debug_str C R n k cs s
      → Meets (RunPost (c ∷ []) n k cs) (execute_command debug_str C R c s)
  unfolding execute_command
  execute_command-RunPost c n k cs s h =
      bind-RunPost [] (c ∷ []) (open_channel debug_str C R) _ n k cs s
        (quiet-RunPost _ n k cs s (open_channel-Same debug_str C R) h)
        λ _ u g.
          bind-RunPost (c ∷ []) [] (send_command debug_str C R c) _ n k (cs ++ []) u
            (send_command-RunPost (cs ++ []) u g c)
            λ fs v f. quiet-RunPost _ n k _ v (wait_frames-Same debug_str C R fs) f

  check-RunPost :
      (e : Ensure) (n k : ℕ) (cs : List String) (s : SshExecutor debug_str C R)
      → Same debug_str C R n k cs s
      → Meets (RunPost (probe e ∷ []) n k cs) (check debug_str C R e s)
  unfolding check
  check-RunPost e n k cs s h =
      bind-RunPost (probe e ∷ []) [] (execute_command debug_str C R (probe e)) _ n k cs s
        (execute_command-RunPost (probe e) n k cs s h)
        λ status u g. quiet-RunPost _ n k _ u (Keeps-pure _) g

  pub ensure_from-RunPost :
      (es failures : List Ensure) (n k : ℕ) (cs : List String) (s : SshExecutor debug_str C R)
      → Same debug_str C R n k cs s
      → Meets (RunPost (map probe es) n k cs) (ensure_from debug_str C R failures es s)
  unfolding ensure_from
  ensure_from-RunPost [] failures n k cs s h = quiet-RunPost _ n k cs s (Keeps-pure failures) h
  ensure_from-RunPost (e ∷ es) failures n k cs s h =
      bind-RunPost [] (map probe (e ∷ es)) (sink_one debug_str C R _) _ n k cs s
        (quiet-RunPost _ n k cs s (sink_one-Same debug_str C R _) h)
        λ _ u g.
          bind-RunPost (probe e ∷ []) (map probe es) (check debug_str C R e) _ n k (cs ++ []) u
            (check-RunPost e n k (cs ++ []) u g) λ pass v f. ensure_from-RunPost es _ n k _ v f

  unless_failed-RunPost :
      (task : PlannedTask) (failures : List Ensure) (n k : ℕ) (cs : List String)
      (s : SshExecutor debug_str C R)
      → Same debug_str C R n k cs s
      → Meets
          (RunPost (join " " task.command ∷ []) n k cs)
          (unless_failed debug_str C R task failures s)
  unfolding unless_failed run_command throw
  unless_failed-RunPost task [] n k cs s h =
      bind-RunPost [] (join " " task.command ∷ []) (sink_one debug_str C R _) _ n k cs s
        (quiet-RunPost _ n k cs s (sink_one-Same debug_str C R _) h)
        λ _ u g.
          bind-RunPost (join " " task.command ∷ []) [] (execute_command debug_str C R _) _ n k
            (cs ++ []) u (execute_command-RunPost (join " " task.command) n k (cs ++ []) u g)
            λ status v f.
              bind-RunPost [] [] (sink_one debug_str C R "") _ n k _ v
                (quiet-RunPost _ n k _ v (sink_one-Same debug_str C R "") f)
                λ _ w d. quiet-RunPost _ n k _ w (Keeps-pure tt) d
  unless_failed-RunPost task (e ∷ es) n k cs s h =
      bind-Meets (λ _ u. Same debug_str C R n k cs u) (RunPost (join " " task.command ∷ []) n k cs)
        (sink_one debug_str C R _) _ s ((sink_one-Same debug_str C R _).at s h)
        (λ _ u g. Partly-none _ g) (λ _ u g. Partly-none _ g) (λ _ u g. Partly-none _ g)

  -- From a state with known ends sent, counter and commands executed: a task that returns has
  -- executed its script, the tests of its prerequisites and then its command; one that does not, a
  -- first part of it. Neither ends the stream nor changes the counter.
  pub execute_task-RunPost :
      (task : PlannedTask) (n k : ℕ) (cs : List String) (s : SshExecutor debug_str C R)
      → Same debug_str C R n k cs s
      → Meets (RunPost (script task) n k cs) (execute_task debug_str C R task s)
  unfolding execute_task ensure_task
  execute_task-RunPost task n k cs s h =
      bind-RunPost [] (script task) (sink_one debug_str C R _) _ n k cs s
        (quiet-RunPost _ n k cs s (sink_one-Same debug_str C R _) h)
        λ _ u g.
          bind-RunPost (map probe task.ensures) (join " " task.command ∷ [])
            (ensure_from debug_str C R [] task.ensures) _ n k (cs ++ []) u
            (ensure_from-RunPost task.ensures [] n k (cs ++ []) u g)
            λ failures v f. unless_failed-RunPost task failures n k _ v f
