-- ===== src/Prelude/Sort/Laws.antt =====
-- What a stable sort by insertion returns: the same elements, none before the one that precedes it.
use mathlib.Core.List.{Perm}
use mathlib.Core.List.Perm
use sim_platform.Prelude.{Bool, true, false, List, [], ◌∷◌, ◌≡◌, refl, if◌then◌else◌}
use sim_platform.Prelude.Sort.{insert_sorted, sort_by}

module _ {A : Type 0} (before : A → A → Bool) where
  insert_sorted-Perm : (x : A) (ys : List A) → Perm (insert_sorted before x ys) (x ∷ ys)
  insert_sorted-Perm x [] = Perm.refl (x ∷ [])
  insert_sorted-Perm x (y ∷ ys) = placed (before y x) (insert_sorted-Perm x ys)
    where
      placed :
          (b : Bool)
          → Perm (insert_sorted before x ys) (x ∷ ys)
          → Perm (if b then y ∷ insert_sorted before x ys else x ∷ y ∷ ys) (x ∷ y ∷ ys)
      placed true p = Perm.trans (Perm.cons y p) (Perm.swap x y ys)
      placed false p = Perm.refl (x ∷ y ∷ ys)

  pub sort_by-Perm : (xs : List A) → Perm (sort_by before xs) xs
  unfolding sort_by
  sort_by-Perm [] = Perm.refl []
  sort_by-Perm (x ∷ xs) =
      Perm.trans (insert_sorted-Perm x (sort_by before xs)) (Perm.cons x (sort_by-Perm xs))

  -- No element is before the one that precedes it.
  abbrev pub IsAfter : A → List A → Type 0
  IsAfter x [] = Unit
  IsAfter x (y ∷ ys) = (before y x ≡ false) × IsAfter y ys

  abbrev pub IsSorted : List A → Type 0
  IsSorted [] = Unit
  IsSorted (x ∷ xs) = IsAfter x xs

  module _ (asym : (x y : A) → before x y ≡ true → before y x ≡ false) where
    insert_sorted-IsAfter :
        (p x : A) (ys : List A)
        → before x p ≡ false
        → IsAfter p ys
        → IsAfter p (insert_sorted before x ys)
    insert_sorted-IsAfter p x [] h s = (h, tt)
    insert_sorted-IsAfter p x (y ∷ ys) h (hy, s) =
        placed (before y x) refl (λ later. insert_sorted-IsAfter y x ys later s)
      where
        placed :
            (b : Bool)
            → before y x ≡ b
            → (before x y ≡ false → IsAfter y (insert_sorted before x ys))
            → IsAfter p (if b then y ∷ insert_sorted before x ys else x ∷ y ∷ ys)
        placed true e more = (hy, more (asym y x e))
        placed false e more = (h, (e, s))

    insert_sorted-IsSorted :
        (x : A) (ys : List A) → IsSorted ys → IsSorted (insert_sorted before x ys)
    insert_sorted-IsSorted x [] s = tt
    insert_sorted-IsSorted x (y ∷ ys) s = placed (before y x) refl
      where
        placed :
            (b : Bool)
            → before y x ≡ b
            → IsSorted (if b then y ∷ insert_sorted before x ys else x ∷ y ∷ ys)
        placed true e = insert_sorted-IsAfter y x ys (asym y x e) s
        placed false e = (e, s)

    pub sort_by-IsSorted : (xs : List A) → IsSorted (sort_by before xs)
    unfolding sort_by
    sort_by-IsSorted [] = tt
    sort_by-IsSorted (x ∷ xs) = insert_sorted-IsSorted x (sort_by before xs) (sort_by-IsSorted xs)
