-- ===== src/Prelude/Bits.antt =====
-- Exclusive or on machine words: one equation for the lowest digit, then the laws at every width.
use Prim.Native.Nat.{
  ℕ, zero, suc, ◌+◌, ◌*◌, ◌/◌, ◌%◌, ◌^◌, ◌≤◌, ◌<◌, digits, bitwise, bit_xor, bit_xor-bitwise,
  differ,
}
use mathlib.Core.Path.{◌≡◌, refl, ap, ◌∙◌}
use native.Mathlib.Decide.{dec_le}
use native.Mathlib.Nat.{pow-suc}
use native.Mathlib.Omega.{arith}

-- `digits` counts down from its first number; a larger count changes nothing.
module _ (z : ℕ → ℕ) (f : ℕ → ℕ → ℕ) where
  one_more_digit : (n a b : ℕ) → a ≤ n → digits z f (suc n) a b ≡ digits z f n a b
  one_more_digit zero zero b fits = refl
  one_more_digit zero (suc a) b fits = absurd (omega arith)
  one_more_digit (suc n) zero b fits = refl
  one_more_digit (suc n) (suc a) b fits =
      ap (λ (q : ℕ). q * 2 + f (suc a % 2) (b % 2))
        (one_more_digit n (suc a / 2) (b / 2) (omega arith))

  digits-bitwise : (n a b : ℕ) → a ≤ n → digits z f n a b ≡ bitwise z f a b
  digits-bitwise zero zero b fits = refl
  digits-bitwise zero (suc a) b fits = absurd (omega arith)
  digits-bitwise (suc n) a b fits = elim (dec_le a n) [
    | yes smaller ↦ one_more_digit n a b smaller ∙ digits-bitwise n a b smaller
    | no larger ↦ let last : suc n ≡ a = omega arith in ap (λ (k : ℕ). digits z f k a b) last
  ]

  bitwise_lowest :
      (a b : ℕ)
      → bitwise z f (suc a) b ≡ bitwise z f (suc a / 2) (b / 2) * 2 + f (suc a % 2) (b % 2)
  bitwise_lowest a b =
      ap (λ (q : ℕ). q * 2 + f (suc a % 2) (b % 2))
        (digits-bitwise a (suc a / 2) (b / 2) (omega arith))

differ_digits : (a b : ℕ) → a < 2 → b < 2 → differ a b ≡ (a + b) % 2
differ_digits zero zero p q = refl
differ_digits zero (suc b) p q = omega arith
differ_digits (suc a) zero p q = omega arith
differ_digits (suc zero) (suc zero) p q = refl
differ_digits (suc (suc a)) (suc b) p q = absurd (omega arith)
differ_digits (suc zero) (suc (suc b)) p q = absurd (omega arith)

pub xor_step : (a b : ℕ) → bit_xor a b ≡ bit_xor (a / 2) (b / 2) * 2 + (a % 2 + b % 2) % 2
xor_step zero b = simp bit_xor-bitwise (omega arith)
xor_step (suc a) b =
    simp bit_xor-bitwise
      (omega (arith, bitwise_lowest (λ y. y) differ a b, differ_digits (suc a % 2) (b % 2)))

xor-halves :
    (a b : ℕ)
    → (bit_xor a b / 2 ≡ bit_xor (a / 2) (b / 2)) × (bit_xor a b % 2 ≡ (a % 2 + b % 2) % 2)
xor-halves a b = omega (arith, xor_step a b)

xor_at_zero : (a b : ℕ) → a < 1 → b < 1 → bit_xor a b ≡ 0
xor_at_zero zero zero p q = refl
xor_at_zero (suc a) b p q = absurd (omega arith)
xor_at_zero zero (suc b) p q = absurd (omega arith)

half-lt : (k a : ℕ) → a < 2 ^ suc k → a / 2 < 2 ^ k
half-lt k a p = omega (arith, pow-suc 2 k)

pub xor-lt : (k a b : ℕ) → a < 2 ^ k → b < 2 ^ k → bit_xor a b < 2 ^ k
xor-lt zero a b p q = omega (arith, xor_at_zero a b p q)
xor-lt (suc k) a b p q =
    omega
      (arith, xor_step a b, pow-suc 2 k, xor-lt k (a / 2) (b / 2) (half-lt k a p) (half-lt k b q))

-- A second exclusive or with the same word undoes the first.
pub xor_cancel : (k a b : ℕ) → a < 2 ^ k → b < 2 ^ k → bit_xor (bit_xor a b) b ≡ a
xor_cancel zero a b p q = rw (xor_at_zero a b p q) (omega (arith, xor_at_zero 0 b (omega arith) q))
xor_cancel (suc k) a b p q =
    let (half, low) = xor-halves a b in
    let (half', low') = xor-halves (bit_xor a b) b in
    let ih : bit_xor (bit_xor a b / 2) (b / 2) ≡ a / 2 =
      rw half (xor_cancel k (a / 2) (b / 2) (half-lt k a p) (half-lt k b q)) in
    omega (arith, ih, half', low', low)

pub xor_comm : (k a b : ℕ) → a < 2 ^ k → b < 2 ^ k → bit_xor a b ≡ bit_xor b a
xor_comm zero a b p q = rw (xor_at_zero a b p q, xor_at_zero b a q p)
xor_comm (suc k) a b p q =
    omega (
      arith,
      xor_step a b,
      xor_step b a,
      xor_comm k (a / 2) (b / 2) (half-lt k a p) (half-lt k b q),
    )
