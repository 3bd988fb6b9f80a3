-- ===== src/Core/Digest.antt =====
-- `stable_digest` of crates/sim-platform-core/src/records.rs: FNV-1a over 64-bit words, printed in
-- sixteen lower-case hexadecimal digits.
pub mod Laws
use Prim.Native.Nat.{bit_xor}
use Prim.Native.Char.{Char}
use Prim.Native.String
use sim_platform.Prelude.{
  ℕ, zero, suc, ◌*◌, ◌/◌, ◌%◌, ◌^◌, String, List, [], ◌∷◌, eqb, if◌then◌else◌, ◌≡◌, refl,
}

abbrev pub offset_basis : ℕ
offset_basis = 0xcbf29ce484222325

abbrev pub prime : ℕ
prime = 0x00000100000001b3

-- One round: exclusive or with the byte, then `wrapping_mul` of `u64`.
unfoldable pub mix : ℕ → ℕ → ℕ
mix hash byte = bit_xor hash byte * prime % 2 ^ 64

unfoldable pub hash_from : ℕ → List ℕ → ℕ
unfolding mix
hash_from hash [] = hash
hash_from hash (byte ∷ bytes) = hash_from (mix hash byte) bytes

abbrev pub hash_bytes : List ℕ → ℕ
hash_bytes bytes = hash_from offset_basis bytes

-- A hexadecimal digit, in lower case.
unfoldable pub hex_digit : ℕ → Char
hex_digit d =
    if eqb d 0
    then "0"
    else if eqb d 1
    then "1"
    else if eqb d 2
    then "2"
    else if eqb d 3
    then "3"
    else if eqb d 4
    then "4"
    else if eqb d 5
    then "5"
    else if eqb d 6
    then "6"
    else if eqb d 7
    then "7"
    else if eqb d 8
    then "8"
    else if eqb d 9
    then "9"
    else if eqb d 10
    then "a"
    else if eqb d 11
    then "b"
    else if eqb d 12
    then "c"
    else if eqb d 13
    then "d"
    else if eqb d 14
    then "e"
    else "f"

-- The `width` lowest hexadecimal digits of a number, in front of a text.
unfoldable pub hex_before : ℕ → ℕ → String → String
unfolding hex_digit
hex_before zero n rest = rest
hex_before (suc width) n rest = hex_before width (n / 16) (String.◌∷◌ (hex_digit (n % 16)) rest)

-- `{:016x}` of a `u64`
unfoldable pub hex16 : ℕ → String
unfolding hex_before
hex16 n = hex_before 16 n ""

unfoldable pub stable_digest : List ℕ → String
unfolding hash_from hex16
stable_digest bytes = String.◌++◌ "fnv1a64:" (hex16 (hash_bytes bytes))

empty_digest : stable_digest [] ≡ "fnv1a64:cbf29ce484222325"
unfolding stable_digest
empty_digest = refl

digest_a : stable_digest (b'a' ∷ []) ≡ "fnv1a64:af63dc4c8601ec8c"
unfolding stable_digest
digest_a = refl
