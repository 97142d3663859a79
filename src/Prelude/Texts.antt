-- ===== src/Prelude/Texts.antt =====
-- Joining texts and printing numbers, as `+` on strings and `strconv.Itoa` do.
use Prim.Native.Nat.{ℕ, zero, suc, ◌/◌, ◌%◌}
use Prim.Native.String
use Prim.Native.String.{String}
use tf2_archipelago.Prelude.Tests.{◌==◌, nat_eq, ltb, if◌then◌else◌}

infixl 65 ◌<>◌
abbrev pub ◌<>◌ : String → String → String
s <> t = String.◌++◌ s t

-- The digit `d`, for `d < 10`.
digit : ℕ → String
digit d =
    if ltb d 5
    then (if d == 0
        then "0"
        else if d == 1
        then "1"
        else if d == 2
        then "2"
        else if d == 3
        then "3"
        else "4")
    else if d == 5
    then "5"
    else if d == 6
    then "6"
    else if d == 7
    then "7"
    else if d == 8
    then "8"
    else "9"

-- The fuel is one more than the number, and each round divides the number by ten.
itoa_fuel : ℕ → ℕ → String
itoa_fuel zero n = ""
itoa_fuel (suc f) n =
    let rest = itoa_fuel f (n / 10) in if ltb n 10 then digit n else rest <> digit (n % 10)

unfoldable pub itoa : ℕ → String
unfolding itoa_fuel digit
itoa n = itoa_fuel (suc n) n
