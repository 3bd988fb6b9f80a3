-- ===== src/Core/Bundle/Checks.antt =====
-- Each check of `compose_bundle` decides its condition.
use sim_platform.Prelude.{
  Bool, true, false, List, [], ◌∷◌, ◌≡◌, ◌⊎◌, inl, inr, refl, Result, ok, err, text_key, keep_if,
  All, Any, Bool-cases,
}
use sim_platform.Core.Bundle.{BundleRefusal, the_only}

module _ {A : Type 0} (p : A → Bool) where
  abbrev pub NoneOf : List A → Type 0
  NoneOf = All (λ x. p x ≡ false)

  -- `a` is the one member that passes the test.
  abbrev pub Sole : List A → A → Type 0
  Sole [] a = ⊥
  Sole (x ∷ xs) a = ((p x ≡ true) × (x ≡ a) × NoneOf xs) ⊎ ((p x ≡ false) × Sole xs a)

  -- At least two members pass the test.
  abbrev pub Several : List A → Type 0
  Several [] = ⊥
  Several (x ∷ xs) = ((p x ≡ true) × Any (λ y. p y ≡ true) xs) ⊎ ((p x ≡ false) × Several xs)

  abbrev Counted : List A → List A → Type 0
  Counted xs [] = NoneOf xs
  Counted xs (a ∷ []) = Sole xs a
  Counted xs (a ∷ b ∷ rest) = Several xs

  Any-of_keep_if :
      (xs : List A) (a : A) (rest : List A) → keep_if p xs ≡ a ∷ rest → Any (λ y. p y ≡ true) xs
  Any-of_keep_if [] a rest e = cc
  Any-of_keep_if (x ∷ xs) a rest e = elim (Bool-cases (p x)) [
    | inl hit ↦ inl hit
    | inr miss ↦ inr (Any-of_keep_if xs a rest (rw miss at e))
  ]

  NoneOf-keep_if : (xs : List A) → keep_if p xs ≡ [] → NoneOf xs
  NoneOf-keep_if [] e = tt
  NoneOf-keep_if (x ∷ xs) e = elim (Bool-cases (p x)) [
    | inl hit ↦ absurd (cc (rw hit at e))
    | inr miss ↦ (miss, NoneOf-keep_if xs (rw miss at e))
  ]

  hit-Counted :
      (x : A) (xs kept : List A) → p x ≡ true → keep_if p xs ≡ kept → Counted (x ∷ xs) (x ∷ kept)
  hit-Counted x xs [] hit e = inl (hit, refl, NoneOf-keep_if xs e)
  hit-Counted x xs (a ∷ rest) hit e = inl (hit, Any-of_keep_if xs a rest e)

  miss-Counted : (x : A) (xs kept : List A) → p x ≡ false → Counted xs kept → Counted (x ∷ xs) kept
  miss-Counted x xs [] miss h = (miss, h)
  miss-Counted x xs (a ∷ []) miss h = inr (miss, h)
  miss-Counted x xs (a ∷ b ∷ rest) miss h = inr (miss, h)

  pub keep_if-Counted : (xs : List A) → Counted xs (keep_if p xs)
  keep_if-Counted [] = tt
  keep_if-Counted (x ∷ xs) = elim (Bool-cases (p x)) [
    | inl hit ↦ rw hit (hit-Counted x xs (keep_if p xs) hit refl)
    | inr miss ↦ rw miss (miss-Counted x xs (keep_if p xs) miss (keep_if-Counted xs))
  ]

  keep_if_none : (xs : List A) → NoneOf xs → keep_if p xs ≡ []
  keep_if_none [] h = refl
  keep_if_none (x ∷ xs) (miss, h) = rw miss (keep_if_none xs h)

  pub keep_if-Sole : (xs : List A) (a : A) → Sole xs a → keep_if p xs ≡ a ∷ []
  keep_if-Sole (x ∷ xs) a (inl (hit, same, others)) = rw hit (cc (keep_if_none xs others))
  keep_if-Sole (x ∷ xs) a (inr (miss, h)) = rw miss (keep_if-Sole xs a h)
  keep_if-Sole [] a h = absurd h

  -- What each result of the selection tells.
  abbrev pub Selected :
      (missing duplicate : BundleRefusal) → List A → Result BundleRefusal A → Type 0
  Selected missing duplicate xs (ok a) = Sole xs a
  Selected missing duplicate xs (err e) =
      ((e ≡ missing) × NoneOf xs) ⊎ ((e ≡ duplicate) × Several xs)

  Counted-Selected :
      (missing duplicate : BundleRefusal) (xs kept : List A)
      → Counted xs kept
      → Selected missing duplicate xs (the_only missing duplicate kept)
  unfolding the_only
  Counted-Selected missing duplicate xs [] h = inl (refl, h)
  Counted-Selected missing duplicate xs (a ∷ []) h = h
  Counted-Selected missing duplicate xs (a ∷ b ∷ rest) h = inr (refl, h)

  pub the_only-Selected :
      (missing duplicate : BundleRefusal) (xs : List A)
      → Selected missing duplicate xs (the_only missing duplicate (keep_if p xs))
  the_only-Selected missing duplicate xs =
      Counted-Selected missing duplicate xs (keep_if p xs) (keep_if-Counted xs)
