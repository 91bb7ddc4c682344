-- ===== src/Executor/Local/Verdicts.antt =====
-- Which prerequisites the local executor finds to fail, and what it logs of them.
use mathlib.Core.List.{append-nil}
use that_goes_there.Prelude.{
  String, ◌<>◌, ◌≡◌, refl, sym, ◌∙◌, Bool, true, false, Option, none, some, List, [], ◌∷◌,
}
use that_goes_there.Outcome.{ok}
use that_goes_there.Exec.{Exec, lift}
use that_goes_there.Exec.Says.{Says, pure-Says, bind-Says, flat}
use that_goes_there.Plan.Task.{
  Ensure, file_exists, directory_exists, file_doesnt_exist, directory_doesnt_exist, exe_exists,
  PlannedTask,
}
use that_goes_there.Executor.Stream
use that_goes_there.Executor.Stream.{PartialLogStream, next, size, Channel}
use that_goes_there.Executor.State.{on_chan, on_world, debug_ensure}
use that_goes_there.Executor.Failing.{failing, IsFailing, round-Says}
use that_goes_there.Executor.Local.{
  FileType, is_dir, is_file, Machine, SimpleExecutor, or_io_error, sink, sink_one, stat, stat_again,
  is_missing, check, ensure_from, ensure_task,
}

-- The line for a prerequisite that is looked at.
abbrev pub ensuring : (debug_str : String → String) → Ensure → List PartialLogStream
ensuring debug_str e = next (("ensuring " <> debug_ensure debug_str e) ∷ []) ∷ []

-- A host by what its paths name and which executables it has.
module _ (kind : String → Option FileType) (has_exe : String → Bool) where
  abbrev pub is_there : Option FileType → (FileType → Bool) → Bool
  is_there none test = false
  is_there (some t) test = test t

  -- What a prerequisite says of the host.
  abbrev pub is_met : Ensure → Bool
  is_met (file_exists p) = is_there (kind p) is_file
  is_met (directory_exists p) = is_there (kind p) is_dir
  is_met (file_doesnt_exist p) = elim (kind p) [ none ↦ true | some _ ↦ false ]
  is_met (directory_doesnt_exist p) = elim (kind p) [ none ↦ true | some _ ↦ false ]
  is_met (exe_exists e) = has_exe e

  -- A channel with room, and a machine whose files and executables stay as they are.
  module _ (debug_str : String → String) (C : Channel) (M : Machine)
      (room : (m : PartialLogStream) (c : C.Chan) → (C.send m c).0 ≡ true)
      (stays : (p : String) (w : M.World) → (M.metadata p w).0 ≡ kind p)
      (has : (e : String) (w : M.World) → (M.which e w).0 ≡ has_exe e) where
    abbrev pub sent : SimpleExecutor debug_str C M → List PartialLogStream
    sent s = C.sent s.chan

    pub sink-Says :
        (m : PartialLogStream) → Says sent (m ∷ []) (λ _. Unit {0}) (sink debug_str C M m)
    unfolding sink on_chan Stream.sink
    sink-Says m = record {
      at = λ s. (size m, rw (room m s.chan) refl, tt, C.sent-send m s.chan (room m s.chan));
    }

    pub sink_one-Says :
        (m : String) → Says sent (next (m ∷ []) ∷ []) (λ _. Unit {0}) (sink_one debug_str C M m)
    unfolding sink_one Stream.sink_one sink
    sink_one-Says m = sink-Says (next (m ∷ []))

    -- An action on the host sends nothing.
    pub on_world-Says :
        {A : Type 0} (P : A → Type 0) (m : Exec M.World A)
        → ((w : M.World) → (a : A) × ((m w).0 ≡ ok a) × P a)
        → Says sent [] P (on_world m)
    unfolding on_world
    on_world-Says P m h = record {
      at = λ s. let (a, e, p) = h s.world in (a, e, p, sym (append-nil (C.sent s.chan)));
    }

    stat-Says : (p : String) → Says sent [] (λ r. r ≡ kind p) (stat debug_str C M p)
    unfolding stat
    stat-Says p = on_world-Says _ _ (λ w. (_, refl, stays p w))

    is_missing-Says :
        (p : String)
        → Says sent []
            (λ b. b ≡ elim (kind p) [ none ↦ true | some _ ↦ false ])
            (is_missing debug_str C M p)
    unfolding is_missing
    is_missing-Says p = bind-Says sent _ _ (stat-Says p) λ r e. pure-Says sent _ (rw e refl)

    same_kind-Says :
        (again : Option FileType) (t : FileType)
        → again ≡ some t
        → Says sent [] (λ u. u ≡ t) (lift (or_io_error again))
    unfolding lift
    same_kind-Says again t e = record {
      at = λ s. (t, rw e refl, refl, sym (append-nil (C.sent s.chan)));
    }

    stat_again-Says :
        (test : FileType → Bool) (p : String) (found : Option FileType)
        → found ≡ kind p
        → Says sent [] (λ b. b ≡ is_there (kind p) test) (stat_again debug_str C M test p found)
    unfolding stat_again
    stat_again-Says test p none e = pure-Says sent false (rw (sym e) refl)
    stat_again-Says test p (some t) e = bind-Says sent _ _ (stat-Says p) λ again e'.
        bind-Says sent _ _ (same_kind-Says again t (e' ∙ sym e))
          λ u e''. pure-Says sent _ (rw (sym e, e'') refl)

    check-Says : (e : Ensure) → Says sent [] (λ b. b ≡ is_met e) (check debug_str C M e)
    unfolding check
    check-Says (directory_doesnt_exist p) = is_missing-Says p
    check-Says (directory_exists p) =
        bind-Says sent _ _ (stat-Says p) λ r e. stat_again-Says is_dir p r e
    check-Says (file_doesnt_exist p) = is_missing-Says p
    check-Says (file_exists p) =
        bind-Says sent _ _ (stat-Says p) λ r e. stat_again-Says is_file p r e
    check-Says (exe_exists e) = on_world-Says _ _ (λ w. (_, refl, has e w))

    ensure_from-Says :
        (before es : List Ensure)
        → Says sent
            (flat (ensuring debug_str) es)
            (IsFailing is_met before es)
            (ensure_from debug_str C M before es)
    unfolding ensure_from
    ensure_from-Says before [] = pure-Says sent before (sym (append-nil before))
    ensure_from-Says before (e ∷ es) = bind-Says sent _ _ (sink_one-Says _) λ _ _.
        bind-Says sent _ _ (check-Says e) λ b h.
          round-Says is_met sent (λ acc. ensure_from debug_str C M acc es) before e es b h
            (λ acc. ensure_from-Says acc es)

    pub ensure_task-Says :
        (task : PlannedTask)
        → Says sent
            (flat (ensuring debug_str) task.ensures)
            (λ found. found ≡ failing is_met task.ensures)
            (ensure_task debug_str C M task)
    unfolding ensure_task
    ensure_task-Says task = ensure_from-Says [] task.ensures
