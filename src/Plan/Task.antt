-- ===== src/Plan/Task.antt =====
-- The data of libthere/src/plan/mod.rs: tasks, their prerequisites, planned tasks and plans.
use that_goes_there.Prelude.{String, Option, none, some, List, [], ◌∷◌}
use that_goes_there.Outcome.{external, index_out_of_bounds, Outcome, ok, err, panic, ◌>>=◌}

pub data Task : Type 0 where
  command : (name command : String) (hosts : List String) → Task
  create_directory : (name path : String) (hosts : List String) → Task
  touch_file : (name path : String) (hosts : List String) → Task

unfoldable pub name : Task → String
name (command n c hs) = n
name (create_directory n p hs) = n
name (touch_file n p hs) = n

unfoldable pub hosts : Task → List String
hosts (command n c hs) = hs
hosts (create_directory n p hs) = hs
hosts (touch_file n p hs) = hs

pub data Ensure : Type 0 where
  file_exists : (path : String) → Ensure
  directory_exists : (path : String) → Ensure
  file_doesnt_exist : (path : String) → Ensure
  directory_doesnt_exist : (path : String) → Ensure
  exe_exists : (exe : String) → Ensure

pub record PlannedTask : Type 0 where
  pub name : String
  pub command : List String
  pub ensures : List Ensure
  pub hosts : List String

pub record Plan : Type 0 where
  pub name : String
  pub blueprint : List PlannedTask

unfoldable pub new : String → List PlannedTask → Plan
new n blueprint = record { name = n; blueprint = blueprint }

-- `v[0]`
abbrev pub first : List String → Outcome String
first [] = panic index_out_of_bounds
first (w ∷ ws) = ok w

-- The result of `shell_words::split(…)?`, whose only error is an unclosed quote.
abbrev pub words_or_err : Option (List String) → Outcome (List String)
words_or_err none = err (external "shell_words::ParseError")
words_or_err (some ws) = ok ws

-- `split` is `shell_words::split`.
unfoldable pub from_shell_command :
    (split : String → Option (List String)) → String → String → List String → Outcome PlannedTask
from_shell_command split n c hs = do
  words ← words_or_err (split c)
  head ← first words
  ok (record { name = n; ensures = exe_exists head ∷ []; command = words; hosts = hs })
