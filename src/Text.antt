-- ===== src/Text.antt =====
-- Text as the program uses it: `str::split` on a character, `slice::join`, `format!` of a number.
pub mod Split
pub mod Lines
pub mod FilePath
use Prim.Native.Nat.{◌/◌}
use Prim.Native.Char.{Char, code}
use Prim.Native.String
use that_goes_there.Prelude.{
  ℕ, zero, suc, ◌%◌, String, ◌<>◌, List, [], ◌∷◌, ltb, ◌==◌, if◌then◌else◌,
}

-- Puts a character in front of the first piece.
abbrev pub cons_head : Char → List String → List String
cons_head c [] = (String.◌∷◌ c String.[]) ∷ []
cons_head c (p ∷ ps) = String.◌∷◌ c p ∷ ps

-- `str::split` on the character with the code `n`: one piece more than there are separators.
unfoldable pub split_on : ℕ → String → List String
split_on n String.[] = String.[] ∷ []
split_on n (String.◌∷◌ c s) =
    let rest = split_on n s in if code c == n then String.[] ∷ rest else cons_head c rest

-- `[String]::join`
unfoldable pub join : String → List String → String
join sep [] = ""
join sep (x ∷ []) = x
join sep (x ∷ y ∷ rest) = x <> (sep <> join sep (y ∷ rest))

digit : ℕ → String
digit n =
    if n == 0
    then "0"
    else if n == 1
    then "1"
    else if n == 2
    then "2"
    else if n == 3
    then "3"
    else if n == 4
    then "4"
    else if n == 5
    then "5"
    else if n == 6
    then "6"
    else if n == 7
    then "7"
    else if n == 8
    then "8"
    else "9"

-- On fuel above the number.
decimal_from : ℕ → ℕ → String
decimal_from zero n = ""
decimal_from (suc fuel) n =
    let rest = decimal_from fuel (n / 10) in if ltb n 10 then digit n else rest <> digit (n % 10)

-- `format!("{}", n)`
unfoldable pub decimal : ℕ → String
unfolding decimal_from digit
decimal n = decimal_from (suc n) n
