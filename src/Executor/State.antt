-- ===== src/Executor/State.antt =====
-- What both executors keep: the sink's channel and the number of completed tasks, beside the state
-- of the host that they act on.
use that_goes_there.Prelude.{ℕ, ◌+◌, ◌%◌, ◌^◌, String, ◌<>◌, List, [], ◌∷◌}
use that_goes_there.Exec.{Exec, modify}
use that_goes_there.Plan.Task.{
  Ensure, file_exists, directory_exists, file_doesnt_exist, directory_doesnt_exist, exe_exists,
}

pub record State (Chan World : Type 0) : Type 0 where
  pub chan : Chan
  pub tasks_completed : ℕ
  pub world : World

module _ {Chan World : Type 0} where
  -- An action on the channel alone, and one on the host alone.
  unfoldable pub on_chan : {A : Type 0} → Exec Chan A → Exec (State Chan World) A
  on_chan m s = let (r, c) = m s.chan in (r, record s { chan = c })

  unfoldable pub on_world : {A : Type 0} → Exec World A → Exec (State Chan World) A
  on_world m s = let (r, w) = m s.world in (r, record s { world = w })

  -- `self.tasks_completed += 1` on a u32
  unfoldable pub count_task : Exec (State Chan World) Unit
  unfolding modify
  count_task = modify (λ s. record s { tasks_completed = (s.tasks_completed + 1) % 2 ^ 32 })

-- `format!("{:?}", …)` of prerequisites; `debug_str` is that of a string.
module _ (debug_str : String → String) where
  unfoldable pub debug_ensure : Ensure → String
  debug_ensure (file_exists p) = "FileExists { path: " <> (debug_str p <> " }")
  debug_ensure (directory_exists p) = "DirectoryExists { path: " <> (debug_str p <> " }")
  debug_ensure (file_doesnt_exist p) = "FileDoesntExist { path: " <> (debug_str p <> " }")
  debug_ensure (directory_doesnt_exist p) = "DirectoryDoesntExist { path: " <> (debug_str p <> " }")
  debug_ensure (exe_exists e) = "ExeExists { exe: " <> (debug_str e <> " }")

  debug_rest : List Ensure → String
  debug_rest [] = "]"
  debug_rest (e ∷ es) = ", " <> (debug_ensure e <> debug_rest es)

  unfoldable pub debug_ensures : List Ensure → String
  unfolding debug_rest debug_ensure
  debug_ensures [] = "[]"
  debug_ensures (e ∷ es) = "[" <> (debug_ensure e <> debug_rest es)
