-- ===== src/Executor/Local/Heard.antt =====
-- What is heard of the children of a plan, and the messages that the local executor makes of it.
use that_goes_there.Prelude.{
  String, ◌<>◌, ◌≡◌, refl, Option, none, some, List, [], ◌∷◌, ◌++◌, length,
}
use that_goes_there.Text.{decimal}
use that_goes_there.Exec.Says.{flat}
use that_goes_there.Plan.Task.{PlannedTask, Plan}
use that_goes_there.Executor.Stream.{PartialLogStream, next, end, Channel}
use that_goes_there.Executor.Local.{
  Round, Machine, stdout, stderr, stdout_fails, stderr_fails, closed, decode, args_of,
  finished_line,
}
use that_goes_there.Executor.Local.Verdicts.{ensuring}

-- What is heard of a child: each piece of its output that the loop reads while it
-- finds the child running, until both streams are closed. What is left unread at the exit is lost.
abbrev pub heard : List Round → List PartialLogStream
heard [] = []
heard (stdout c ∷ rounds) = next (decode c ∷ []) ∷ heard rounds
heard (stderr c ∷ rounds) = next (decode c ∷ []) ∷ heard rounds
heard (stdout_fails ∷ rounds) = heard rounds
heard (stderr_fails ∷ rounds) = heard rounds
heard (closed ∷ rounds) = []

-- What the loops over the children of the tasks read, one list for each child.
module _ (debug_str : String → String) where
  -- The messages of a task: its prerequisites, what was read of its command, and an empty line.
  abbrev pub told : PlannedTask → List Round → List PartialLogStream
  told t rounds = flat (ensuring debug_str) t.ensures ++ (heard rounds ++ (next ("" ∷ []) ∷ []))

  abbrev pub all_told : List PlannedTask → List (List Round) → List PartialLogStream
  all_told [] reads = []
  all_told (t ∷ ts) [] = []
  all_told (t ∷ ts) (rounds ∷ reads) = told t rounds ++ all_told ts reads

  -- All messages of a plan that is applied.
  abbrev pub transcript :
      (C : Channel) (M : Machine) → Plan → List (List Round) → List PartialLogStream
  transcript C M plan reads =
      next (("* applying plan: " <> plan.name) ∷ [])
      ∷ next (("* steps: " <> decimal (length plan.blueprint)) ∷ [])
      ∷ (all_told plan.blueprint reads
          ++ (next (finished_line debug_str C M plan (length plan.blueprint) ∷ []) ∷ end ∷ []))

module _ (M : Machine) where
  -- The rounds for which a child of these words runs, from a state of the machine.
  abbrev pub child : List String → M.World → Option (List Round)
  child [] w = none
  child (c ∷ args) w = (M.spawn c args w).0

  -- The machine gave these rounds to the command, at a state in which `cs` had been started.
  abbrev pub Gives : List (List String) → List String → List Round → Type 0
  Gives cs ws rounds = (w : M.World) × (M.commands w ≡ cs) × (child ws w ≡ some rounds)

  -- It gave these to the commands of the tasks, each behind those of the tasks before it.
  abbrev pub GivesAll : List (List String) → List PlannedTask → List (List Round) → Type 0
  GivesAll cs [] reads = reads ≡ []
  GivesAll cs (t ∷ ts) [] = ⊥
  GivesAll cs (t ∷ ts) (rounds ∷ reads) =
      Gives cs t.command rounds × GivesAll (cs ++ t.command ∷ []) ts reads

  pub child-words :
      (ws : List String) (c : String) (args : List String) (w : M.World)
      → ws ≡ c ∷ args
      → child ws w ≡ (M.spawn c (args_of ws) w).0
  child-words ws c args w h = rw h refl
