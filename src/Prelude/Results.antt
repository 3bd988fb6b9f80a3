-- ===== src/Prelude/Results.antt =====
-- `Result`, the `?` operator as `>>=`, and its inversion.
use mathlib.Core.Path.{◌≡◌, refl, subst}
use mathlib.Core.Logic.{◌⊎◌, inl, inr}
use mathlib.Core.Bool.{Bool, true, false}
use mathlib.Core.Option.{Option, none, some}

pub data Result {ℓ} (E A : Type ℓ) : Type ℓ where
  ok : A → Result E A
  err : E → Result E A

infixl 5 ◌>>=◌ ◌>>◌
abbrev pub ◌>>=◌ : {E A B : Type 0} → Result E A → (A → Result E B) → Result E B
ok a >>= f = f a
err e >>= f = err e

abbrev pub ◌>>◌ : {E B : Type 0} → Result E (Unit {0}) → Result E B → Result E B
m >> k = m >>= λ _. k

-- `if test { return Err(e) }`
abbrev pub refuse_if : {E : Type 0} → Bool → E → Result E (Unit {0})
refuse_if true e = err e
refuse_if false e = ok tt

-- `.ok_or(e)`
abbrev pub ok_or : {E A : Type 0} → Option A → E → Result E A
ok_or none e = err e
ok_or (some a) e = ok a

-- `.map_err(f)`
abbrev pub map_err : {E F A : Type 0} → (E → F) → Result E A → Result F A
map_err f (ok a) = ok a
map_err f (err e) = err (f e)

abbrev pub is_ok : {E A : Type 0} → Result E A → Bool
is_ok (ok a) = true
is_ok (err e) = false

module _ {E A : Type 0} where
  pub Result-cases : (r : Result E A) → ((a : A) × (r ≡ ok a)) ⊎ ((e : E) × (r ≡ err e))
  Result-cases (ok a) = inl (a, refl)
  Result-cases (err e) = inr (e, refl)

pub refuse_if-eq-ok : {E : Type 0} (b : Bool) (e : E) → refuse_if b e ≡ ok tt → b ≡ false
refuse_if-eq-ok true e h = cc
refuse_if-eq-ok false e h = refl

-- What holds of a chain holds after its first step, whether that step returns or refuses.
pub bind_rule :
    {E A B : Type 0} (P : Result E B → Type 0) (r : Result E A) (f : A → Result E B)
    → ((a : A) → r ≡ ok a → P (f a))
    → ((e : E) → r ≡ err e → P (err e))
    → P (r >>= f)
bind_rule P (ok a) f returns refuses = returns a refl
bind_rule P (err e) f returns refuses = refuses e refl

pub refuse_if_rule :
    {E B : Type 0} (P : Result E B → Type 0) (b : Bool) (e : E) (k : Result E B)
    → (b ≡ true → P (err e))
    → (b ≡ false → P k)
    → P (refuse_if b e >> k)
refuse_if_rule P true e k refuses goes_on = refuses refl
refuse_if_rule P false e k refuses goes_on = goes_on refl

pub ok_or_rule :
    {E A B : Type 0} (P : Result E B → Type 0) (o : Option A) (e : E) (f : A → Result E B)
    → ((a : A) → o ≡ some a → P (f a))
    → (o ≡ none → P (err e))
    → P (ok_or o e >>= f)
ok_or_rule P (some a) e f returns refuses = returns a refl
ok_or_rule P none e f returns refuses = refuses refl

-- A test that fails lets the chain go on.
pub refuse_if-false :
    {E B : Type 0} (b : Bool) (e : E) (k : Result E B) → b ≡ false → (refuse_if b e >> k) ≡ k
refuse_if-false true e k h = cc
refuse_if-false false e k h = refl

-- A property of the value, where there is one.
abbrev pub OnOk : {E A : Type 0} → (A → Type 0) → Result E A → Type 0
OnOk P (ok a) = P a
OnOk P (err e) = Unit

pub OnOk-ok : {E A : Type 0} (P : A → Type 0) (r : Result E A) {a : A} → OnOk P r → r ≡ ok a → P a
OnOk-ok P r h e = subst (OnOk P) e h
