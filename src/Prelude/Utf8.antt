-- ===== src/Prelude/Utf8.antt =====
-- `str::from_utf8`: a text from its bytes, as code points, or nothing where the bytes are not
-- well-formed UTF-8 (overlong forms, surrogates and values above 0x10FFFF are refused).
use Prim.Native.Nat.{ℕ, zero, suc, ◌+◌, ◌-◌, ◌*◌}
use mathlib.Core.Bool.{◌&&◌}
use mathlib.Core.Option
use mathlib.Core.Option.{Option, none, some}
use mathlib.Core.List.{List, [], ◌∷◌}
use sim_platform.Prelude.Tests.{ltb, leb, eqb, if◌then◌else◌}

-- What one byte does: it completes a code point, opens or continues one, or is refused.
pub data Utf8Step : Type 0 where
  emit : ℕ → Utf8Step
  expect : (more low high code : ℕ) → Utf8Step
  bad : Utf8Step

lead : ℕ → Utf8Step
lead b =
    if ltb b 0x80
    then emit b
    else if leb 0xc2 b && leb b 0xdf
    then expect 1 0x80 0xbf (b - 0xc0)
    else if eqb b 0xe0
    then expect 2 0xa0 0xbf 0
    else if eqb b 0xed
    then expect 2 0x80 0x9f 13
    else if leb 0xe1 b && leb b 0xef
    then expect 2 0x80 0xbf (b - 0xe0)
    else if eqb b 0xf0
    then expect 3 0x90 0xbf 0
    else if leb 0xf1 b && leb b 0xf3
    then expect 3 0x80 0xbf (b - 0xf0)
    else if eqb b 0xf4
    then expect 3 0x80 0x8f 4
    else bad

continue : (more low high code byte : ℕ) → Utf8Step
continue zero low high code b = lead b
continue (suc zero) low high code b =
    if leb low b && leb b high then emit (code * 64 + (b - 0x80)) else bad
continue (suc (suc more)) low high code b =
    if leb low b && leb b high then expect (suc more) 0x80 0xbf (code * 64 + (b - 0x80)) else bad

decode_from : (more low high code : ℕ) → List ℕ → Option (List ℕ)
unfolding continue lead
decode_from zero low high code [] = some []
decode_from (suc more) low high code [] = none
decode_from more low high code (b ∷ bytes) = elim (continue more low high code b) [
  | emit c ↦ Option.map (λ s. c ∷ s) (decode_from 0 0x80 0xbf 0 bytes)
  | expect more' low' high' code' ↦ decode_from more' low' high' code' bytes
  | bad ↦ none
]

unfoldable pub from_utf8 : List ℕ → Option (List ℕ)
unfolding decode_from
from_utf8 bytes = decode_from 0 0x80 0xbf 0 bytes
