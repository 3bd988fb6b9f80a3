-- ===== src/Core/Matrix/Laws.antt =====
-- The support matrix: its rows are those of the bundles, in order.
use mathlib.Core.List.{Memᴰ}
use sim_platform.Prelude.{
  ℕ, String, Bool, true, false, ◌&&◌, List, [], ◌∷◌, ◌++◌, length, keep_if, ◌≡◌, ◌≢◌, ◌↔◌, ◌⊎◌, inl,
  inr, refl, sym, ap, ◌∙◌, arith, text_key, ◌==◌, eq_iff, Bool-cases,
}
use sim_platform.Prelude.Sort.{sort_by}
use sim_platform.Prelude.Sort.Stable.{sort_by-Mem, length-sort_by, keep_if-append, keep_if-sort_by}
use sim_platform.Prelude.Sort.Laws.{IsSorted, sort_by-IsSorted}
use sim_platform.Prelude.Text.{codes, codes_before, text_before}
use sim_platform.Core.Bundle.{ComposedBundle}
use sim_platform.Core.Matrix.Rows.{
  IsOffered, count_offers, rows_of-Mem, Mem-rows_of, length-rows_of, rows_of-append,
}
use sim_platform.Core.Matrix.{PlatformSupportRow, rows_of, row_before, platform_support_matrix}

codes_before_asym : (s t : List ℕ) → codes_before s t ≡ true → codes_before t s ≡ false
unfolding codes_before
codes_before_asym [] [] h = refl
codes_before_asym [] (d ∷ t) h = refl
codes_before_asym (c ∷ s) [] h = cc
codes_before_asym (c ∷ s) (d ∷ t) h = ground (arith, codes_before_asym s t)

text_before_asym : (s t : String) → text_before s t ≡ true → text_before t s ≡ false
unfolding text_before
text_before_asym s t h = codes_before_asym (codes s) (codes t) h

text_before_irrefl : (s : String) → text_before s s ≡ false
text_before_irrefl s = elim (Bool-cases (text_before s s)) [
  | inl before ↦ text_before_asym s s before
  | inr same ↦ same
]

row_before_asym : (a b : PlatformSupportRow) → row_before a b ≡ true → row_before b a ≡ false
unfolding row_before
row_before_asym a b h = ground (
  arith,
  eq_iff a.capsule b.capsule,
  eq_iff b.capsule a.capsule,
  text_before_asym a.service b.service,
  text_before_asym a.capsule b.capsule,
)

-- A row may stand in front of another one: its capsule is the same and its service not the later one, or
-- its capsule is another one and not the later one.
abbrev pub MayPrecede : PlatformSupportRow → PlatformSupportRow → Type 0
MayPrecede a b =
    ((a.capsule ≡ b.capsule) × (text_before b.service a.service ≡ false))
    ⊎ ((a.capsule ≢ b.capsule) × (text_before b.capsule a.capsule ≡ false))

abbrev pub IsOrdered : List PlatformSupportRow → Type 0
IsOrdered [] = Unit
IsOrdered (a ∷ []) = Unit
IsOrdered (a ∷ b ∷ rows) = MayPrecede a b × IsOrdered (b ∷ rows)

abbrev pub is_about : String → String → PlatformSupportRow → Bool
is_about capsule service row = row.capsule == capsule && row.service == service

row_before-MayPrecede : (a b : PlatformSupportRow) → row_before b a ≡ false → MayPrecede a b
unfolding row_before
row_before-MayPrecede a b h = elim (Bool-cases (b.capsule == a.capsule)) [
  | inl same ↦ inl (sym ((eq_iff b.capsule a.capsule).0 same), rw same at h)
  | inr other ↦ inr (λ e. cc (other, (eq_iff b.capsule a.capsule).1 (sym e)), rw other at h)
]

IsSorted-IsOrdered : (rows : List PlatformSupportRow) → IsSorted row_before rows → IsOrdered rows
IsSorted-IsOrdered [] s = tt
IsSorted-IsOrdered (a ∷ []) s = tt
IsSorted-IsOrdered (a ∷ b ∷ rows) (h, s) =
    (row_before-MayPrecede a b h, IsSorted-IsOrdered (b ∷ rows) s)

-- Rows about one service of one capsule are not told apart.
alike :
    (capsule service : String) (x y : PlatformSupportRow)
    → is_about capsule service x ≡ true
    → is_about capsule service y ≡ true
    → row_before y x ≡ false
unfolding row_before
alike capsule service x y h k =
    let x_capsule = (eq_iff x.capsule capsule).0 (ground (arith, h)) in
    let y_capsule = (eq_iff y.capsule capsule).0 (ground (arith, k)) in
    let x_service = (eq_iff x.service service).0 (ground (arith, h)) in
    let y_service = (eq_iff y.service service).0 (ground (arith, k)) in
    rw (x_capsule, y_capsule, x_service, y_service, (eq_iff capsule capsule).1 refl)
      (text_before_irrefl service)

-- The support matrix has a row for every offer of every bundle and no other, as many as there are offers.
-- It is in the order of capsule and service, and rows about the same service of the same capsule are in
-- the order of the bundles: those of the bundles in front stand in front of those of the bundles behind.
pub platform_support_matrix-Lists :
    (bundles : List ComposedBundle)
    → ((row : PlatformSupportRow)
        → Memᴰ row (platform_support_matrix bundles) ↔ IsOffered bundles row)
      × (length (platform_support_matrix bundles) ≡ count_offers bundles)
      × IsOrdered (platform_support_matrix bundles)
      × ((more : List ComposedBundle) (capsule service : String)
          → keep_if (is_about capsule service) (platform_support_matrix (bundles ++ more))
            ≡ keep_if (is_about capsule service) (platform_support_matrix bundles)
              ++ keep_if (is_about capsule service) (platform_support_matrix more))
unfolding platform_support_matrix
platform_support_matrix-Lists bundles = (
  λ row.
      let sorted = sort_by-Mem row_before row (rows_of bundles) in
      (
        λ m. rows_of-Mem row bundles (sorted.0 m),
        λ (bundle, offer, among, there, fits).
            sorted.1 (Mem-rows_of row bundles bundle offer among there fits),
      ),
  length-sort_by row_before (rows_of bundles) ∙ length-rows_of bundles,
  IsSorted-IsOrdered (platform_support_matrix bundles)
      (sort_by-IsSorted row_before row_before_asym (rows_of bundles)),
  λ more capsule service. stable more (is_about capsule service) (alike capsule service),
)
  where
    stable :
        (more : List ComposedBundle) (p : PlatformSupportRow → Bool)
        → ((x y : PlatformSupportRow) → p x ≡ true → p y ≡ true → row_before y x ≡ false)
        → keep_if p (sort_by row_before (rows_of (bundles ++ more)))
          ≡ keep_if p (sort_by row_before (rows_of bundles))
            ++ keep_if p (sort_by row_before (rows_of more))
    stable more p h =
        keep_if-sort_by row_before p h (rows_of (bundles ++ more))
        ∙ ap (keep_if p) (rows_of-append bundles more)
        ∙ keep_if-append p (rows_of bundles) (rows_of more)
        ∙ sym (
            ap2 (keep_if-sort_by row_before p h (rows_of bundles))
              (keep_if-sort_by row_before p h (rows_of more)))
      where
        ap2 : {a b c d : List PlatformSupportRow} → a ≡ b → c ≡ d → a ++ c ≡ b ++ d
        ap2 e f = cc
