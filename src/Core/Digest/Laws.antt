-- ===== src/Core/Digest/Laws.antt =====
-- What `stable_digest` keeps of its input: the printed form loses nothing of the 64-bit word, and
-- each round can be undone.
use Prim.Native.Nat.{bit_xor}
use Prim.Native.Char.{code}
use Prim.Native.String
use native.Mathlib.Nat.{pow-suc}
use text.Mathlib.TextLemmas.{append_cancel_left}
use sim_platform.Prelude.{
  ℕ, zero, suc, ◌+◌, ◌-◌, ◌*◌, ◌/◌, ◌%◌, ◌^◌, ◌<◌, String, true, List, [], ◌∷◌, ◌++◌, ◌≡◌, ◌≢◌, ◌↔◌,
  refl, sym, ap, ap₂, eqb, eqb_iff, all_below, all_below_sound, ◌∙◌, arith, ltb, if◌then◌else◌, All,
}
use sim_platform.Prelude.Bits.{xor-lt, xor_cancel, xor_comm}
use sim_platform.Core.Digest.{
  offset_basis, prime, mix, hash_from, hash_bytes, hex_digit, hex_before, hex16, stable_digest,
}

-- The inverse of the FNV prime modulo 2 ^ 64.
abbrev prime_inverse : ℕ
prime_inverse = 14886173955864302971

abbrev IsWord : ℕ → Type 0
IsWord n = n < 2 ^ 64

abbrev pub IsByte : ℕ → Type 0
IsByte n = n < 256

IsWord-of_byte : (b : ℕ) → IsByte b → IsWord b
IsWord-of_byte b h = omega arith

-- Multiplication by the prime can be undone.
mul_undo : (x : ℕ) → IsWord x → x * prime % 2 ^ 64 * prime_inverse % 2 ^ 64 ≡ x
mul_undo x h = omega arith

mul_injective : (x y : ℕ) → IsWord x → IsWord y → x * prime % 2 ^ 64 ≡ y * prime % 2 ^ 64 → x ≡ y
mul_injective x y hx hy e =
    sym (mul_undo x hx) ∙ ap (λ (t : ℕ). t * prime_inverse % 2 ^ 64) e ∙ mul_undo y hy

mix-IsWord : (h b : ℕ) → IsWord (mix h b)
unfolding mix
mix-IsWord h b = omega arith

mix_injective_hash : (h k b : ℕ) → IsWord h → IsWord k → IsByte b → mix h b ≡ mix k b → h ≡ k
unfolding mix
mix_injective_hash h k b wh wk wb e =
    let wide = IsWord-of_byte b wb in
    let same =
      mul_injective (bit_xor h b) (bit_xor k b) (xor-lt 64 h b wh wide) (xor-lt 64 k b wk wide) e in
    sym (xor_cancel 64 h b wh wide) ∙ ap (λ (t : ℕ). bit_xor t b) same ∙ xor_cancel 64 k b wk wide

mix_injective_byte : (h a b : ℕ) → IsWord h → IsByte a → IsByte b → mix h a ≡ mix h b → a ≡ b
unfolding mix
mix_injective_byte h a b wh wa wb e =
    let wide_a = IsWord-of_byte a wa in
    let wide_b = IsWord-of_byte b wb in
    let same =
      mul_injective (bit_xor h a) (bit_xor h b) (xor-lt 64 h a wh wide_a) (xor-lt 64 h b wh wide_b)
        e in
    let flipped : bit_xor a h ≡ bit_xor b h =
      xor_comm 64 a h wide_a wh ∙ same ∙ xor_comm 64 h b wh wide_b in
    sym (xor_cancel 64 a h wide_a wh)
    ∙ ap (λ (t : ℕ). bit_xor t h) flipped
    ∙ xor_cancel 64 b h wide_b wh

hash_from-IsWord : (h : ℕ) (bytes : List ℕ) → IsWord h → IsWord (hash_from h bytes)
unfolding hash_from
hash_from-IsWord h [] w = w
hash_from-IsWord h (b ∷ bytes) w = hash_from-IsWord (mix h b) bytes (mix-IsWord h b)

hash_from-append : (h : ℕ) (xs ys : List ℕ) → hash_from h (xs ++ ys) ≡ hash_from (hash_from h xs) ys
unfolding hash_from
hash_from-append h [] ys = refl
hash_from-append h (x ∷ xs) ys = hash_from-append (mix h x) xs ys

-- Hashing the same bytes from different words gives different words.
hash_from_injective :
    (h k : ℕ) (bytes : List ℕ)
    → IsWord h
    → IsWord k
    → All IsByte bytes
    → hash_from h bytes ≡ hash_from k bytes
    → h ≡ k
unfolding hash_from
hash_from_injective h k [] wh wk all_bytes e = e
hash_from_injective h k (b ∷ bytes) wh wk (wb, rest) e =
    mix_injective_hash h k b wh wk wb
      (hash_from_injective (mix h b) (mix k b) bytes (mix-IsWord h b) (mix-IsWord k b) rest e)

hex_value : ℕ → ℕ
hex_value c = if ltb c 58 then c - 48 else c - 87

hex_digit_table : all_below 16 (λ d. eqb (hex_value (code (hex_digit d))) d) ≡ true
unfolding all_below hex_value hex_digit
hex_digit_table = refl

hex_value-hex_digit : (d : ℕ) → d < 16 → hex_value (code (hex_digit d)) ≡ d
hex_value-hex_digit d h = (eqb_iff _ d).0 (all_below_sound 16 _ d hex_digit_table h)

-- Reads `n` hexadecimal digits from the front.
read_hex : ℕ → ℕ → String → ℕ
read_hex zero acc s = acc
read_hex (suc n) acc String.[] = acc
read_hex (suc n) acc (String.◌∷◌ c s) = read_hex n (acc * 16 + hex_value (code c)) s

read_hex-hex_before :
    (width more acc n : ℕ) (rest : String)
    → n < 16 ^ width
    → read_hex (width + more) acc (hex_before width n rest)
      ≡ read_hex more (acc * 16 ^ width + n) rest
unfolding read_hex hex_before
read_hex-hex_before zero more acc n rest h =
    let no_more : 0 + more ≡ more = omega arith in
    let same : acc ≡ acc * 16 ^ 0 + n = omega arith in
    ap₂ (λ (w a : ℕ). read_hex w a rest) no_more same
read_hex-hex_before (suc width) more acc n rest h =
    let wider = pow-suc 16 width in
    let front : String = String.◌∷◌ (hex_digit (n % 16)) rest in
    let shift : suc width + more ≡ width + suc more = omega arith in
    let step = read_hex-hex_before width (suc more) acc (n / 16) front (omega arith) in
    let digit = hex_value-hex_digit (n % 16) (omega arith) in
    let value : (acc * 16 ^ width + n / 16) * 16 + hex_value (code (hex_digit (n % 16)))
        ≡ acc * 16 ^ suc width + n =
      omega (arith, ap (λ (t : ℕ). acc * t) wider) in
    ap (λ (w : ℕ). read_hex w acc (hex_before width (n / 16) front)) shift
    ∙ step
    ∙ ap (λ (a : ℕ). read_hex more a rest) value

read_back : (width n : ℕ) → n < 16 ^ width → read_hex width 0 (hex_before width n "") ≡ n
unfolding read_hex
read_back width n h =
    let all_digits : width ≡ width + 0 = omega arith in
    let value : 0 * 16 ^ width + n ≡ n = omega arith in
    ap (λ (w : ℕ). read_hex w 0 (hex_before width n "")) all_digits
    ∙ read_hex-hex_before width 0 0 n "" h
    ∙ value

-- The printed form determines the word.
hex16_injective : (m n : ℕ) → IsWord m → IsWord n → hex_before 16 m "" ≡ hex_before 16 n "" → m ≡ n
hex16_injective m n hm hn e =
    sym (read_back 16 m (omega arith))
    ∙ ap (λ (s : String). read_hex 16 0 s) e
    ∙ read_back 16 n (omega arith)

-- Two byte strings have one digest exactly when their 64-bit hashes are the same: the printed form
-- neither loses nor adds anything.
stable_digest_iff :
    (xs ys : List ℕ) → (stable_digest xs ≡ stable_digest ys) ↔ (hash_bytes xs ≡ hash_bytes ys)
unfolding stable_digest
stable_digest_iff xs ys = (
  λ e.
      hex16_injective (hash_bytes xs) (hash_bytes ys)
        (hash_from-IsWord offset_basis xs (omega arith))
        (hash_from-IsWord offset_basis ys (omega arith)) (append_cancel_left "fnv1a64:" _ _ e),
  λ e. ap (λ (h : ℕ). String.◌++◌ "fnv1a64:" (hex16 h)) e,
)

-- Changing exactly one byte of an input changes its digest.
pub stable_digest_one_byte :
    (before after : List ℕ) (a b : ℕ)
    → IsByte a
    → IsByte b
    → All IsByte after
    → a ≢ b
    → stable_digest (before ++ a ∷ after) ≢ stable_digest (before ++ b ∷ after)
stable_digest_one_byte before after a b wa wb rest differs e =
    let h = hash_from offset_basis before in
    let wh = hash_from-IsWord offset_basis before (omega arith) in
    let hashes = (stable_digest_iff (before ++ a ∷ after) (before ++ b ∷ after)).0 e in
    let split =
      sym (hash_from-append offset_basis before (a ∷ after))
      ∙ hashes
      ∙ hash_from-append offset_basis before (b ∷ after) in
    let mixed =
      hash_from_injective (mix h a) (mix h b) after (mix-IsWord h a) (mix-IsWord h b) rest
        (unfold hash_from in split) in
    differs (mix_injective_byte h a b wh wa wb mixed)
