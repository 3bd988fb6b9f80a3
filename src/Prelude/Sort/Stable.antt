-- ===== src/Prelude/Sort/Stable.antt =====
-- A stable sort keeps the members, their number, and the order of those that are not told apart.
use mathlib.Core.List.{Memᴰ}
use mathlib.Core.List.Memᴰ.{head, tail}
use sim_platform.Prelude.{
  suc, Bool, true, false, List, [], ◌∷◌, ◌++◌, ◌≡◌, ◌↔◌, refl, ap, ◌∙◌, Bool-cases, inl, inr,
  length, keep_if,
}
use sim_platform.Prelude.Sort.{insert_sorted, sort_by}

pub keep_if-append :
    {A : Type 0} (p : A → Bool) (xs ys : List A)
    → keep_if p (xs ++ ys) ≡ keep_if p xs ++ keep_if p ys
keep_if-append p [] ys = refl
keep_if-append p (x ∷ xs) ys = elim (Bool-cases (p x)) [
  | inl kept ↦ rw kept (ap (λ zs. x ∷ zs) (keep_if-append p xs ys))
  | inr gone ↦ rw gone (keep_if-append p xs ys)
]

module _ {A : Type 0} (before : A → A → Bool) where
  length-insert_sorted :
      (x : A) (ys : List A) → length (insert_sorted before x ys) ≡ suc (length ys)
  length-insert_sorted x [] = refl
  length-insert_sorted x (y ∷ ys) = elim (Bool-cases (before y x)) [
    | inl later ↦ rw later (ap suc (length-insert_sorted x ys))
    | inr here ↦ rw here
  ]

  pub length-sort_by : (xs : List A) → length (sort_by before xs) ≡ length xs
  unfolding sort_by
  length-sort_by [] = refl
  length-sort_by (x ∷ xs) = length-insert_sorted x (sort_by before xs) ∙ ap suc (length-sort_by xs)

  insert_sorted-Mem : (a x : A) (ys : List A) → Memᴰ a (insert_sorted before x ys) ↔ Memᴰ a (x ∷ ys)
  insert_sorted-Mem a x [] = (λ m. m, λ m. m)
  insert_sorted-Mem a x (y ∷ ys) = elim (Bool-cases (before y x)) [
    | inl later ↦ rw later (swapped (insert_sorted-Mem a x ys))
    | inr here ↦ rw here (λ m. m, λ m. m)
  ]
    where
      swapped :
          Memᴰ a (insert_sorted before x ys) ↔ Memᴰ a (x ∷ ys)
          → Memᴰ a (y ∷ insert_sorted before x ys) ↔ Memᴰ a (x ∷ y ∷ ys)
      swapped ih = (out, into)
        where
          past : Memᴰ a (x ∷ ys) → Memᴰ a (x ∷ y ∷ ys)
          past (head e) = head e
          past (tail m) = tail (tail m)

          out : Memᴰ a (y ∷ insert_sorted before x ys) → Memᴰ a (x ∷ y ∷ ys)
          out (head e) = tail (head e)
          out (tail m) = past (ih.0 m)

          into : Memᴰ a (x ∷ y ∷ ys) → Memᴰ a (y ∷ insert_sorted before x ys)
          into (head e) = tail (ih.1 (head e))
          into (tail (head e)) = head e
          into (tail (tail m)) = tail (ih.1 (tail m))

  pub sort_by-Mem : (a : A) (xs : List A) → Memᴰ a (sort_by before xs) ↔ Memᴰ a xs
  unfolding sort_by
  sort_by-Mem a [] = (λ m. m, λ m. m)
  sort_by-Mem a (x ∷ xs) = added (insert_sorted-Mem a x (sort_by before xs)) (sort_by-Mem a xs)
    where
      kept : {ys zs : List A} → (Memᴰ a ys → Memᴰ a zs) → Memᴰ a (x ∷ ys) → Memᴰ a (x ∷ zs)
      kept f (head e) = head e
      kept f (tail m) = tail (f m)

      added :
          Memᴰ a (insert_sorted before x (sort_by before xs)) ↔ Memᴰ a (x ∷ sort_by before xs)
          → Memᴰ a (sort_by before xs) ↔ Memᴰ a xs
          → Memᴰ a (insert_sorted before x (sort_by before xs)) ↔ Memᴰ a (x ∷ xs)
      added i s = (λ m. kept s.0 (i.0 m), λ m. i.1 (kept s.1 m))

  module _ (p : A → Bool) (alike : (x y : A) → p x ≡ true → p y ≡ true → before y x ≡ false) where
    keep_if-insert_sorted :
        (x : A) (ys : List A) → keep_if p (insert_sorted before x ys) ≡ keep_if p (x ∷ ys)
    keep_if-insert_sorted x [] = refl
    keep_if-insert_sorted x (y ∷ ys) = elim (Bool-cases (before y x)) [
      | inl later ↦ rw later (passed later (keep_if-insert_sorted x ys))
      | inr here ↦ rw here
    ]
      where
        passed :
            before y x ≡ true
            → keep_if p (insert_sorted before x ys) ≡ keep_if p (x ∷ ys)
            → keep_if p (y ∷ insert_sorted before x ys) ≡ keep_if p (x ∷ y ∷ ys)
        passed later ih = elim (Bool-cases (p x)) [
          | inl first ↦ elim (Bool-cases (p y)) [
            | inl both ↦ absurd (cc (alike x y first both, later))
            | inr other ↦ rw other (ih ∙ rw first)
          ]
          | inr none ↦ elim (Bool-cases (p y)) [
            | inl second ↦ rw (second, none) (ap (λ zs. y ∷ zs) (ih ∙ rw none))
            | inr neither ↦ rw (neither, none) (ih ∙ rw none)
          ]
        ]

    pub keep_if-sort_by : (xs : List A) → keep_if p (sort_by before xs) ≡ keep_if p xs
    unfolding sort_by
    keep_if-sort_by [] = refl
    keep_if-sort_by (x ∷ xs) =
        keep_if-insert_sorted x (sort_by before xs) ∙ again (keep_if-sort_by xs)
      where
        again :
            keep_if p (sort_by before xs) ≡ keep_if p xs
            → keep_if p (x ∷ sort_by before xs) ≡ keep_if p (x ∷ xs)
        again ih = rw ih
