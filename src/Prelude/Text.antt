-- ===== src/Prelude/Text.antt =====
-- Text as the source reads it: by code points, by bytes of UTF-8, and whole.
use Prim.Native.Nat.{ℕ, zero, suc, ◌/◌, ◌%◌}
use Prim.Native.Char.{Char, code}
use Prim.Native.String.{String}
use mathlib.Core.Bool.{Bool, true, false, ◌&&◌, ◌||◌}
use mathlib.Core.List.{List, [], ◌∷◌, reverse}
use sim_platform.Prelude.Tests.{ltb, leb, eqb, if◌then◌else◌}

-- The code points of a text, in order (`str::chars`).
abbrev pub codes : String → List ℕ
codes String.[] = []
codes (String.◌∷◌ c s) = code c ∷ codes s

-- `char::is_whitespace`: the code points with the Unicode property White_Space.
unfoldable pub is_whitespace : ℕ → Bool
is_whitespace c =
    (leb 9 c && leb c 13)
    || eqb c 32
    || eqb c 0x85
    || eqb c 0xa0
    || eqb c 0x1680
    || (leb 0x2000 c && leb c 0x200a)
    || eqb c 0x2028
    || eqb c 0x2029
    || eqb c 0x202f
    || eqb c 0x205f
    || eqb c 0x3000

-- `char::is_control`: the Unicode category Cc.
unfoldable pub is_control : ℕ → Bool
is_control c = leb c 31 || (leb 127 c && leb c 159)

unfoldable pub trim_start : List ℕ → List ℕ
unfolding is_whitespace
trim_start [] = []
trim_start (c ∷ s) = if is_whitespace c then trim_start s else c ∷ s

-- `str::trim`, on the code points.
unfoldable pub trim : List ℕ → List ℕ
unfolding trim_start
trim s = reverse (trim_start (reverse (trim_start s)))

abbrev pub is_empty : List ℕ → Bool
is_empty [] = true
is_empty (c ∷ s) = false

-- `value.trim().is_empty()`
unfoldable pub is_blank : String → Bool
unfolding trim
is_blank s = is_empty (trim (codes s))

-- The order of `str`: by bytes, which for UTF-8 is the order by code points.
unfoldable pub codes_before : List ℕ → List ℕ → Bool
codes_before [] [] = false
codes_before [] (d ∷ t) = true
codes_before (c ∷ s) [] = false
codes_before (c ∷ s) (d ∷ t) = if eqb c d then codes_before s t else ltb c d

unfoldable pub text_before : String → String → Bool
unfolding codes_before
text_before s t = codes_before (codes s) (codes t)

-- `value.trim().to_owned()`
unfoldable pub trim_front : String → String
trim_front String.[] = String.[]
trim_front (String.◌∷◌ c s) = if is_whitespace (code c) then trim_front s else String.◌∷◌ c s

abbrev pub put_unless_end : Bool → Char → String → String
put_unless_end true c String.[] = String.[]
put_unless_end blank c s = String.◌∷◌ c s

unfoldable pub trim_back : String → String
trim_back String.[] = String.[]
trim_back (String.◌∷◌ c s) = put_unless_end (is_whitespace (code c)) c (trim_back s)

unfoldable pub trimmed : String → String
unfolding is_whitespace trim_front trim_back
trimmed s = trim_back (trim_front s)

-- A decimal digit.
unfoldable pub decimal_digit : ℕ → Char
decimal_digit d =
    if eqb d 0
    then "0"
    else if eqb d 1
    then "1"
    else if eqb d 2
    then "2"
    else if eqb d 3
    then "3"
    else if eqb d 4
    then "4"
    else if eqb d 5
    then "5"
    else if eqb d 6
    then "6"
    else if eqb d 7
    then "7"
    else if eqb d 8
    then "8"
    else "9"

-- `{}` of an unsigned number below ten to the power `fuel`.
unfoldable pub decimal_digits : ℕ → ℕ → String → String
decimal_digits zero n printed = printed
decimal_digits (suc fuel) n printed =
    let more = decimal_digits fuel (n / 10) (String.◌∷◌ (decimal_digit (n % 10)) printed) in
    if ltb n 10 then String.◌∷◌ (decimal_digit n) printed else more

unfoldable pub decimal : ℕ → String
unfolding decimal_digits decimal_digit
decimal n = decimal_digits 20 n ""
