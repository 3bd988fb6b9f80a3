-- ===== src/Prelude/Sort.antt =====
-- `sort_by` and `dedup_by` of slices: a stable sort, and the removal of an element that is as the one
-- that was kept before it.
pub mod Laws
pub mod Stable
use mathlib.Core.Bool.{Bool}
use mathlib.Core.List.{List, [], ◌∷◌}
use sim_platform.Prelude.Tests.{if◌then◌else◌}

module _ {A : Type 0} (before : A → A → Bool) where
  abbrev pub insert_sorted : A → List A → List A
  insert_sorted x [] = x ∷ []
  insert_sorted x (y ∷ ys) = if before y x then y ∷ insert_sorted x ys else x ∷ y ∷ ys

  unfoldable pub sort_by : List A → List A
  sort_by [] = []
  sort_by (x ∷ xs) = insert_sorted x (sort_by xs)

module _ {A : Type 0} (same : A → A → Bool) where
  abbrev pub dedup_after : A → List A → List A
  dedup_after kept [] = []
  dedup_after kept (y ∷ ys) =
      let skipped = dedup_after kept ys in
      let more = y ∷ dedup_after y ys in if same y kept then skipped else more

  unfoldable pub dedup_by : List A → List A
  dedup_by [] = []
  dedup_by (x ∷ xs) = x ∷ dedup_after x xs
