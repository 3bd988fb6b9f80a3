-- ===== src/Prelude/Tests.antt =====
-- Boolean tests, the conditional, and splits that keep the equation.
use Prim.Native.Nat.{ℕ, ◌≤◌, ◌<◌, compare, Ordering}
use Prim.Native.String.{String}
use mathlib.Core.Path.{◌≡◌, refl}
use mathlib.Core.Logic.{◌↔◌, ◌⊎◌, inl, inr}
use mathlib.Core.Bool.{Bool, true, false}
use mathlib.Core.Option.{Option, none, some}
use native.Mathlib.Omega.{arith}
use text.Mathlib.Text.{◌==◌ as text_beq}
use text.Mathlib.TextEquality.{eq_iff}

abbrev pub ltb : ℕ → ℕ → Bool
ltb a b = elim (compare a b) [ Ordering.lt ↦ true | _ ↦ false ]

abbrev pub leb : ℕ → ℕ → Bool
leb a b = elim (compare a b) [ Ordering.gt ↦ false | _ ↦ true ]

abbrev pub eqb : ℕ → ℕ → Bool
eqb a b = elim (compare a b) [ Ordering.eq ↦ true | _ ↦ false ]

infix 1 if◌then◌else◌
abbrev pub if◌then◌else◌ {ℓ} : {A : Type ℓ} → Bool → A → A → A
if true then x else y = x
if false then x else y = y

pub ltb→lt : (a b : ℕ) → ltb a b ≡ true → a < b
ltb→lt a b h = ground arith

pub lt→ltb : (a b : ℕ) → a < b → ltb a b ≡ true
lt→ltb a b h = ground arith

pub leb→le : (a b : ℕ) → leb a b ≡ true → a ≤ b
leb→le a b h = ground arith

pub Bool-cases : (b : Bool) → (b ≡ true) ⊎ (b ≡ false)
Bool-cases true = inl refl
Bool-cases false = inr refl

pub Option-cases {ℓ} : {A : Type ℓ} (o : Option A) → (o ≡ none) ⊎ ((a : A) × (o ≡ some a))
Option-cases none = inl refl
Option-cases (some a) = inr (a, refl)

-- What the source asks of a key: `PartialEq`, with the law that it decides equality.
pub record Eq {ℓ} (K : Type ℓ) : Type ℓ where
  pub eq : K → K → Bool
  pub eq_decides : (j k : K) → (eq j k ≡ true) ↔ (j ≡ k)

-- Texts are compared whole.
instance abbrev pub text_key : Eq String
text_key = record { eq = text_beq; eq_decides = eq_iff }

pub eqb_iff : (m n : ℕ) → (eqb m n ≡ true) ↔ (m ≡ n)
eqb_iff m n = ground arith

instance abbrev pub number_key : Eq ℕ
number_key = record { eq = eqb; eq_decides = eqb_iff }

module _ {ℓ} {K : Type ℓ} ⦃key : Eq K⦄ where
  infix 50 ◌==◌
  abbrev pub ◌==◌ : K → K → Bool
  j == k = key.eq j k

  pub ==-refl : (k : K) → (k == k) ≡ true
  ==-refl k = (key.eq_decides k k).1 refl

-- What holds on both branches holds of the conditional.
pub if_rule {ℓ κ} :
    {A : Type ℓ} (P : A → Type κ) (b : Bool) (x y : A)
    → (b ≡ true → P x)
    → (b ≡ false → P y)
    → P (if b then x else y)
if_rule P true x y on_true on_false = on_true refl
if_rule P false x y on_true on_false = on_false refl
