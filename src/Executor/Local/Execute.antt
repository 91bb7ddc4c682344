-- ===== src/Executor/Local/Execute.antt =====
-- What `execute` of the local executor does, on every outcome.
use mathlib.Core.List.{append-nil}
use that_goes_there.Prelude.{
  ℕ, ◌+◌, ◌^◌, ◌≤◌, ◌<◌, String, ◌≡◌, ◌⊎◌, inl, inr, refl, sym, ap, ◌∙◌, arith, List, [], ◌∷◌, ◌++◌,
  length, suc, take,
}
use that_goes_there.Outcome.{Outcome, ok, err, panic}
use that_goes_there.Exec.{pure, gets, for_each, ◌>>=◌}
use that_goes_there.Exec.Post.{Meets, bind-Meets}
use that_goes_there.Plan.Task.{Plan}
use that_goes_there.Executor.Stream.{PartialLogStream, end, ends, Channel}
use that_goes_there.Executor.Stream.Laws.{sink_cases, ends-append}
use that_goes_there.Executor.State.{on_chan}
use that_goes_there.Executor.Local.{
  Machine, SimpleExecutor, sink, sink_one, finished_line, execute_task, execute,
}
use that_goes_there.Executor.Local.Quiet.{Same, sink_one-Same}
use that_goes_there.Executor.Local.Tasks.{
  commands_of, Stopped, Same-cast, LoopPost, for_each-LoopPost,
}

module _ (debug_str : String → String) (C : Channel) (M : Machine) where
  -- A run that returns has started the command of every task, in order, has counted every task, and
  -- has ended the stream once, with its last message.
  pub record Finished (plan : Plan) (n : ℕ) (cs : List (List String))
      (t : SimpleExecutor debug_str C M) : Type 0 where
    pub completed : t.tasks_completed ≡ length plan.blueprint
    pub started : M.commands t.world ≡ cs ++ commands_of plan.blueprint
    pub ended : ends (C.sent t.chan) ≡ n + 1
    pub before : List PartialLogStream
    pub last : C.sent t.chan ≡ before ++ end ∷ []

  -- A run that fails has not ended the stream, and has completed the tasks before some place of the
  -- plan; the command at that place was started or not, and none behind it.
  pub record Interrupted (plan : Plan) (n : ℕ) (cs : List (List String))
      (t : SimpleExecutor debug_str C M) : Type 0 where
    pub at : ℕ
    pub inside : at ≤ length plan.blueprint
    pub ended : ends (C.sent t.chan) ≡ n
    pub completed : t.tasks_completed ≡ at
    pub started :
        (M.commands t.world ≡ cs ++ commands_of (take at plan.blueprint))
        ⊎ (M.commands t.world ≡ cs ++ commands_of (take (suc at) plan.blueprint))

  abbrev pub ExecutePost :
      Plan → ℕ → List (List String) → Outcome (Unit {0}) → SimpleExecutor debug_str C M → Type 0
  ExecutePost plan n cs (ok _) t = Finished plan n cs t
  ExecutePost plan n cs (err _) t = Interrupted plan n cs t
  ExecutePost plan n cs (panic _) t = Interrupted plan n cs t

  module _ (plan : Plan) (n : ℕ) (cs : List (List String)) where
    take_all {ℓ} : {A : Type ℓ} (xs : List A) → take (length xs) xs ≡ xs
    take_all [] = refl
    take_all (x ∷ xs) = ap (◌∷◌ x) (take_all xs)

    at_start :
        {t : SimpleExecutor debug_str C M} → Same debug_str C M n 0 cs t → Interrupted plan n cs t
    at_start h = record {
      at = 0;
      inside = omega arith;
      ended = h.ended;
      completed = h.completed;
      started = inl (h.started ∙ sym (append-nil cs));
    }

    at_end :
        {t : SimpleExecutor debug_str C M}
        → Same debug_str C M n (length plan.blueprint) (cs ++ commands_of plan.blueprint) t
        → Interrupted plan n cs t
    at_end h = record {
      at = length plan.blueprint;
      inside = omega arith;
      ended = h.ended;
      completed = h.completed;
      started = inl (h.started ∙ ap (λ ts. cs ++ commands_of ts) (sym (take_all plan.blueprint)));
    }

    inside_loop :
        {t : SimpleExecutor debug_str C M}
        → Stopped debug_str C M plan.blueprint n 0 cs t
        → Interrupted plan n cs t
    inside_loop s = record {
      at = s.at;
      inside = omega (arith, s.inside);
      ended = elim s.state [ inl g ↦ g.ended | inr g ↦ g.ended ];
      completed = elim s.state [
        | inl g ↦ omega (arith, g.completed)
        | inr g ↦ omega (arith, g.completed)
      ];
      started = elim s.state [ inl g ↦ inl g.started | inr g ↦ inr g.started ];
    }

    -- The last message is sent, or nothing is.
    EndPost : Outcome ℕ → SimpleExecutor debug_str C M → Type 0
    EndPost (ok _) t = Finished plan n cs t
    EndPost (err _) t = Interrupted plan n cs t
    EndPost (panic _) t = Interrupted plan n cs t

    sink_end-EndPost :
        (u : SimpleExecutor debug_str C M)
        → Same debug_str C M n (length plan.blueprint) (cs ++ commands_of plan.blueprint) u
        → Meets EndPost (sink debug_str C M end u)
    unfolding sink on_chan EndPost
    sink_end-EndPost u h = elim (sink_cases C end u.chan) [
      | inl (r, e) ↦ rw r (record {
        completed = h.completed;
        started = h.started;
        ended = rw (e, ends-append) (omega (arith, h.ended));
        before = C.sent u.chan;
        last = e;
      })
      | inr (r, e) ↦
          rw r
            (at_end (record { ended = rw e h.ended; completed = h.completed; started = h.started }))
    ]

    -- Behind the loop.
    finish :
        (u : SimpleExecutor debug_str C M)
        → Same debug_str C M n (length plan.blueprint) (cs ++ commands_of plan.blueprint) u
        → Meets (ExecutePost plan n cs) (
            (do
              done ← gets (λ s. s.tasks_completed)
              i ← sink_one debug_str C M (finished_line debug_str C M plan done)
              j ← sink debug_str C M end
              pure tt)
              u)
    unfolding gets EndPost pure
    finish u h =
        bind-Meets
          (λ _ v. Same debug_str C M n (length plan.blueprint) (cs ++ commands_of plan.blueprint) v)
          (ExecutePost plan n cs) (gets (λ s. s.tasks_completed)) _ u h
          (λ k v g.
            bind-Meets
              (λ _ w.
                Same debug_str C M n (length plan.blueprint) (cs ++ commands_of plan.blueprint) w)
              (ExecutePost plan n cs) (sink_one debug_str C M (finished_line debug_str C M plan k))
              _ v ((sink_one-Same debug_str C M _).at v g)
              (λ _ w f.
                bind-Meets EndPost (ExecutePost plan n cs) (sink debug_str C M end) _ w
                  (sink_end-EndPost w f) (λ _ x d. d) (λ _ x d. d) (λ _ x d. d))
              (λ _ w f. at_end f) (λ _ w f. at_end f))
          (λ _ v g. at_end g) (λ _ v g. at_end g)

  -- Whatever the host and the receiver of the logs do, `execute` with a fresh counter and a plan of
  -- fewer than 2^32 tasks either returns, and has then started the command of every task of the plan in order, counted each, and
  -- ended the stream once by its last message; or it does not return normally, and has then sent no
  -- end, and has completed exactly the tasks before some place of the plan, with no command started
  -- behind that place.
  pub local_execute_outcomes :
      (plan : Plan) (s : SimpleExecutor debug_str C M)
      → s.tasks_completed ≡ 0
      → length plan.blueprint < 2 ^ 32
      → Meets
          (ExecutePost plan (ends (C.sent s.chan)) (M.commands s.world))
          (execute debug_str C M plan s)
  unfolding execute
  local_execute_outcomes plan s fresh fits =
      let n = ends (C.sent s.chan) in
      let cs = M.commands s.world in
      bind-Meets (λ _ u. Same debug_str C M n 0 cs u) (ExecutePost plan n cs)
        (sink_one debug_str C M _) _ s
        ((sink_one-Same debug_str C M _).at s
          (record { ended = refl; completed = fresh; started = refl }))
        (λ _ u g.
          bind-Meets (λ _ v. Same debug_str C M n 0 cs v) (ExecutePost plan n cs)
            (sink_one debug_str C M _) _ u ((sink_one-Same debug_str C M _).at u g)
            (λ _ v f.
              bind-Meets (LoopPost debug_str C M plan.blueprint n 0 cs) (ExecutePost plan n cs)
                (for_each (execute_task debug_str C M) plan.blueprint) _ v
                (for_each-LoopPost debug_str C M plan.blueprint n 0 cs v (omega arith) f)
                (λ _ w d. finish plan n cs w (Same-cast debug_str C M (omega arith) refl d))
                (λ _ w d. inside_loop plan n cs d) (λ _ w d. inside_loop plan n cs d))
            (λ _ v f. at_start plan n cs f) (λ _ v f. at_start plan n cs f))
        (λ _ u g. at_start plan n cs g) (λ _ u g. at_start plan n cs g)
