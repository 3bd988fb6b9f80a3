-- ===== src/Prelude/Lists.antt =====
-- Lists over the native numbers, with the library's names, and the predicates on lists.
use Prim.Native.Nat.{ℕ, zero, suc, ◌≤◌, ◌+◌, ◌-◌, ◌<◌, min}
use mathlib.Core.Path.{◌≡◌, refl, ap}
use mathlib.Core.Logic.{◌⊎◌, inl, inr}
use mathlib.Core.Bool.{Bool, true, false, ◌&&◌, ◌||◌}
use mathlib.Core.Option.{Option, none, some}
use mathlib.Core.List.{List, [], ◌∷◌, ◌++◌}
use native.Mathlib.Omega.{arith}
use sim_platform.Prelude.Tests.{Eq, ◌==◌, if◌then◌else◌, Bool-cases}

module _ {ℓ} {A : Type ℓ} where
  abbrev pub length : List A → ℕ
  length [] = 0
  length (x ∷ xs) = suc (length xs)

  abbrev pub get_elem? : List A → ℕ → Option A
  get_elem? [] i = none
  get_elem? (x ∷ xs) zero = some x
  get_elem? (x ∷ xs) (suc i) = get_elem? xs i

  abbrev pub take : ℕ → List A → List A
  take zero xs = []
  take (suc n) [] = []
  take (suc n) (x ∷ xs) = x ∷ take n xs

  abbrev pub drop : ℕ → List A → List A
  drop zero xs = xs
  drop (suc n) [] = []
  drop (suc n) (x ∷ xs) = drop n xs

  abbrev pub keep_if : (A → Bool) → List A → List A
  keep_if p [] = []
  keep_if p (x ∷ xs) = if p x then x ∷ keep_if p xs else keep_if p xs

  abbrev pub find : (A → Bool) → List A → Option A
  find p [] = none
  find p (x ∷ xs) = if p x then some x else find p xs

  abbrev pub any : (A → Bool) → List A → Bool
  any p [] = false
  any p (x ∷ xs) = p x || any p xs

  abbrev pub all : (A → Bool) → List A → Bool
  all p [] = true
  all p (x ∷ xs) = p x && all p xs

  pub length-append : (xs ys : List A) → length (xs ++ ys) ≡ length xs + length ys
  length-append [] ys = omega arith
  length-append (x ∷ xs) ys = omega (arith, length-append xs ys)

  pub take-append-drop : (n : ℕ) (xs : List A) → take n xs ++ drop n xs ≡ xs
  take-append-drop zero xs = refl
  take-append-drop (suc n) [] = refl
  take-append-drop (suc n) (x ∷ xs) = ap (λ t. x ∷ t) (take-append-drop n xs)

  pub length-take : (n : ℕ) (xs : List A) → length (take n xs) ≡ min n (length xs)
  length-take zero xs = omega arith
  length-take (suc n) [] = omega arith
  length-take (suc n) (x ∷ xs) = omega (arith, length-take n xs)

  pub length-drop : (n : ℕ) (xs : List A) → length (drop n xs) ≡ length xs - n
  length-drop zero xs = omega arith
  length-drop (suc n) [] = omega arith
  length-drop (suc n) (x ∷ xs) = omega (arith, length-drop n xs)

module _ {ℓ κ} {A : Type ℓ} (P : A → Type κ) where
  -- Every member satisfies `P`.
  abbrev pub All : List A → Type κ
  All [] = Unit
  All (x ∷ xs) = P x × All xs

-- Some member satisfies `P`.
abbrev pub Any {ℓ} : {A : Type ℓ} → (A → Type 0) → List A → Type 0
Any P [] = ⊥
Any P (x ∷ xs) = P x ⊎ Any P xs

abbrev pub In : {A : Type 0} → A → List A → Type 0
In a = Any (λ x. x ≡ a)

module _ {ℓ κ} {A : Type ℓ} (P : A → Type κ) where
  pub All-append : (xs ys : List A) → All P xs → All P ys → All P (xs ++ ys)
  All-append [] ys h k = k
  All-append (x ∷ xs) ys h k = (h.0, All-append xs ys h.1 k)

  pub All-map : (Q : A → Type κ) → ((x : A) → P x → Q x) → (xs : List A) → All P xs → All Q xs
  All-map Q f [] h = tt
  All-map Q f (x ∷ xs) h = (f x h.0, All-map Q f xs h.1)

module _ {A : Type 0} ⦃e : Eq A⦄ where
  abbrev pub contains : List A → A → Bool
  contains [] a = false
  contains (x ∷ xs) a = x == a || contains xs a

  pub contains_sound : (xs : List A) (a : A) → contains xs a ≡ true → In a xs
  contains_sound [] a h = cc
  contains_sound (x ∷ xs) a h = elim (Bool-cases (x == a)) [
    | inl same ↦ inl ((e.eq_decides x a).0 same)
    | inr other ↦ inr (contains_sound xs a (ground arith))
  ]

  pub contains_complete : (xs : List A) (a : A) → In a xs → contains xs a ≡ true
  contains_complete (x ∷ xs) a (inl same) = ground (arith, (e.eq_decides x a).1 same)
  contains_complete (x ∷ xs) a (inr later) = ground (arith, contains_complete xs a later)
  contains_complete [] a h = absurd h

  -- The members are pairwise different.
  abbrev pub IsNodup : List A → Type 0
  IsNodup [] = Unit
  IsNodup (x ∷ xs) = (contains xs x ≡ false) × IsNodup xs

  -- Set insertion, on a list without order.
  abbrev pub add : A → List A → List A
  add a xs = if contains xs a then xs else a ∷ xs

-- A check of every number below a bound, by evaluation.
unfoldable pub all_below : ℕ → (ℕ → Bool) → Bool
all_below zero p = true
all_below (suc n) p = p n && all_below n p

pub all_below_sound : (n : ℕ) (p : ℕ → Bool) (x : ℕ) → all_below n p ≡ true → x < n → p x ≡ true
unfolding all_below
all_below_sound zero p x h below = absurd (omega arith)
all_below_sound (suc n) p x h below = ground (arith, all_below_sound n p x)

module _ {ℓ} {A : Type ℓ} where
  pub take-add : (m n : ℕ) (xs : List A) → take m xs ++ take n (drop m xs) ≡ take (m + n) xs
  take-add zero n xs = let same : n ≡ 0 + n = omega arith in ap (λ (k : ℕ). take k xs) same
  take-add (suc m) zero [] = let more : suc m + 0 ≡ suc m = omega arith in rw more
  take-add (suc m) (suc n) [] = let more : suc m + suc n ≡ suc (m + suc n) = omega arith in rw more
  take-add (suc m) n (x ∷ xs) =
      let more : suc m + n ≡ suc (m + n) = omega arith in
      rw more (ap (λ t. x ∷ t) (take-add m n xs))

  pub take_all : (n : ℕ) (xs : List A) → length xs ≤ n → take n xs ≡ xs
  take_all zero [] h = refl
  take_all zero (x ∷ xs) h = absurd (omega arith)
  take_all (suc n) [] h = refl
  take_all (suc n) (x ∷ xs) h = ap (λ t. x ∷ t) (take_all n xs (omega arith))

  -- Past the end of the list the count does not matter.
  pub take_past_end :
      (m n : ℕ) (xs : List A) → min m (length xs) ≡ min n (length xs) → take m xs ≡ take n xs
  take_past_end zero zero xs h = refl
  take_past_end zero (suc n) [] h = refl
  take_past_end zero (suc n) (x ∷ xs) h = absurd (omega arith)
  take_past_end (suc m) zero [] h = refl
  take_past_end (suc m) zero (x ∷ xs) h = absurd (omega arith)
  take_past_end (suc m) (suc n) [] h = refl
  take_past_end (suc m) (suc n) (x ∷ xs) h = ap (λ t. x ∷ t) (take_past_end m n xs (omega arith))
