-- ===== src/Cli/Main/Levels.antt =====
-- The log level as a function of the number of `-v`.
use that_goes_there.Prelude.{ℕ, ◌≡◌, arith, String, Bool, Option, leb, if◌then◌else◌}
use that_goes_there.Cli.Main.{LevelFilter, error, warn, info, debug, trace, logging, set_up_logging}

-- How much a level lets through.
abbrev pub rank : LevelFilter → ℕ
rank error = 0
rank warn = 1
rank info = 2
rank debug = 3
rank trace = 4

-- The level of a run is the number of its `-v`, up to four of them: whether it was asked to be
-- quiet does not change it, nor the variable, nor the name under which the program was started.
pub set_up_logging-rank :
    (exe : Option String) (quiet : Bool) (verbose : ℕ) (env : Option String)
    → rank (set_up_logging exe quiet verbose env).0 ≡ (if leb verbose 4 then verbose else 4)
unfolding set_up_logging logging
set_up_logging-rank exe quiet verbose env = ground arith
