-- ===== src/Base/Text.antt =====
-- Python's order on strings, by code points, and sorting by it.
use Prim.Native.Char.{code}
use Prim.Native.String.{String}
use Prim.Native.String
use Prim.Native.Nat.{ℕ, zero, suc, ◌/◌, ◌%◌}
use mathlib.Core.Path.{◌≡◌, refl}
use mathlib.Core.Bool.{Bool, true, false}
use mathlib.Core.List.{List, [], ◌∷◌}
use dbirth.Base.Tests.{ltb, ◌==◌, if◌then◌else◌}

unfoldable pub str_leb : String → String → Bool
str_leb String.[] t = true
str_leb (String.◌∷◌ c s) String.[] = false
str_leb (String.◌∷◌ c s) (String.◌∷◌ d t) =
    let rest = str_leb s t in
    if ltb (code c) (code d) then true else if code c == code d then rest else false

unfoldable pub insert_sorted : String → List String → List String
unfolding str_leb
insert_sorted s [] = s ∷ []
insert_sorted s (t ∷ ts) = if str_leb s t then s ∷ t ∷ ts else t ∷ insert_sorted s ts

-- `sorted(strings)`
unfoldable pub sorted : List String → List String
unfolding insert_sorted
sorted [] = []
sorted (s ∷ ss) = insert_sorted s (sorted ss)

abbrev pub digit : ℕ → String
digit d =
    if d == 0
    then "0"
    else if d == 1
    then "1"
    else if d == 2
    then "2"
    else if d == 3
    then "3"
    else if d == 4
    then "4"
    else if d == 5
    then "5"
    else if d == 6
    then "6"
    else if d == 7
    then "7"
    else if d == 8
    then "8"
    else "9"

-- the decimal digits of a number, with the number of divisions that are left
unfoldable pub decimal_from : ℕ → ℕ → String
decimal_from zero n = digit n
decimal_from (suc fuel) n =
    let rest = decimal_from fuel (n / 10) in
    if ltb n 10 then digit n else String.◌++◌ rest (digit (n % 10))

-- `str(n)`
unfoldable pub decimal : ℕ → String
unfolding decimal_from
decimal n = decimal_from n n

decimal_305 : decimal 305 ≡ "305"
unfolding decimal decimal_from
decimal_305 = refl
