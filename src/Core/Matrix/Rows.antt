-- ===== src/Core/Matrix/Rows.antt =====
-- The rows of the support matrix before they are sorted.
use mathlib.Core.List as L
use mathlib.Core.List.{Memᴰ}
use mathlib.Core.List.Memᴰ
use mathlib.Core.List.Memᴰ.{head, tail}
use sim_platform.Prelude.{
  ℕ, suc, ◌+◌, List, [], ◌∷◌, ◌++◌, map, length, length-append, ◌≡◌, ◌⊎◌, inl, inr, refl, sym, ap,
  ◌∙◌, subst, arith, text_key,
}
use sim_platform.Core.Bundle.{ComposedBundle}
use sim_platform.Core.Records.{ServiceOffer}
use sim_platform.Core.Matrix.{PlatformSupportRow, row_of, rows_of}

-- The row that an offer of a bundle has: the site and the service, with the digest of the provenance of
-- the bundle's card and that of the evidence of its attestation.
abbrev pub IsRowOf : ComposedBundle → ServiceOffer → PlatformSupportRow → Type 0
IsRowOf bundle offer row =
    (row.capsule ≡ bundle.card.site)
    × (row.service ≡ offer.service)
    × (row.contract_provenance ≡ bundle.card.provenance.content_digest)
    × (row.execution_evidence ≡ bundle.attestation.evidence.result_digest)

abbrev pub IsOffered : List ComposedBundle → PlatformSupportRow → Type 0
IsOffered bundles row =
    (bundle : ComposedBundle) × (offer : ServiceOffer) × Memᴰ bundle bundles
    × Memᴰ offer bundle.card.services
    × IsRowOf bundle offer row

abbrev pub count_offers : List ComposedBundle → ℕ
count_offers [] = 0
count_offers (bundle ∷ bundles) = length bundle.card.services + count_offers bundles

row_ext :
    (a b : PlatformSupportRow)
    → a.capsule ≡ b.capsule
    → a.service ≡ b.service
    → a.contract_provenance ≡ b.contract_provenance
    → a.execution_evidence ≡ b.execution_evidence
    → a ≡ b
row_ext a b c s p x = cc (c, s, p, x)

map-Mem :
    (bundle : ComposedBundle) (row : PlatformSupportRow) (offers : List ServiceOffer)
    → Memᴰ row (map (row_of bundle) offers)
    → (offer : ServiceOffer) × Memᴰ offer offers × IsRowOf bundle offer row
map-Mem bundle row [] m = elim m [ ]
map-Mem bundle row (offer ∷ offers) (head e) = (
  offer,
  head refl,
  (
    ap (λ (r : PlatformSupportRow). r.capsule) e,
    ap (λ (r : PlatformSupportRow). r.service) e,
    ap (λ (r : PlatformSupportRow). r.contract_provenance) e,
    ap (λ (r : PlatformSupportRow). r.execution_evidence) e,
  ),
)
map-Mem bundle row (offer ∷ offers) (tail m) =
    let (found, there, fits) = map-Mem bundle row offers m in (found, tail there, fits)

Mem-map :
    (bundle : ComposedBundle) (row : PlatformSupportRow) (offer : ServiceOffer)
    (offers : List ServiceOffer)
    → Memᴰ offer offers
    → IsRowOf bundle offer row
    → Memᴰ row (map (row_of bundle) offers)
Mem-map bundle row offer [] m fits = elim m [ ]
Mem-map bundle row offer (first ∷ offers) (head e) (c, s, p, x) =
    let same = ap (λ (o : ServiceOffer). o.service) e in
    head (row_ext row (row_of bundle first) c (s ∙ same) p x)
Mem-map bundle row offer (first ∷ offers) (tail m) fits =
    tail (Mem-map bundle row offer offers m fits)

pub rows_of-Mem :
    (row : PlatformSupportRow) (bundles : List ComposedBundle)
    → Memᴰ row (rows_of bundles)
    → IsOffered bundles row
rows_of-Mem row [] m = elim m [ ]
rows_of-Mem row (bundle ∷ bundles) m =
    either (Memᴰ.append_cases (map (row_of bundle) bundle.card.services) m)
      (rows_of-Mem row bundles)
  where
    either :
        Memᴰ row (map (row_of bundle) bundle.card.services) ⊎ Memᴰ row (rows_of bundles)
        → (Memᴰ row (rows_of bundles) → IsOffered bundles row)
        → IsOffered (bundle ∷ bundles) row
    either (inl m) rest =
        let (offer, there, fits) = map-Mem bundle row bundle.card.services m in
        (bundle, offer, head refl, there, fits)
    either (inr m) rest =
        let (other, offer, among, there, fits) = rest m in (other, offer, tail among, there, fits)

pub Mem-rows_of :
    (row : PlatformSupportRow) (bundles : List ComposedBundle) (bundle : ComposedBundle)
    (offer : ServiceOffer)
    → Memᴰ bundle bundles
    → Memᴰ offer bundle.card.services
    → IsRowOf bundle offer row
    → Memᴰ row (rows_of bundles)
Mem-rows_of row [] bundle offer among there fits = elim among [ ]
Mem-rows_of row (first ∷ bundles) bundle offer (head e) there fits =
    let mine = Mem-map bundle row offer bundle.card.services there fits in
    Memᴰ.append_left (rows_of bundles)
      (subst (λ b. Memᴰ row (map (row_of b) b.card.services)) e mine)
Mem-rows_of row (first ∷ bundles) bundle offer (tail among) there fits =
    Memᴰ.append_right (map (row_of first) first.card.services)
      (Mem-rows_of row bundles bundle offer among there fits)

length-map :
    (bundle : ComposedBundle) (offers : List ServiceOffer)
    → length (map (row_of bundle) offers) ≡ length offers
length-map bundle [] = refl
length-map bundle (offer ∷ offers) = ap suc (length-map bundle offers)

pub length-rows_of :
    (bundles : List ComposedBundle) → length (rows_of bundles) ≡ count_offers bundles
length-rows_of [] = refl
length-rows_of (bundle ∷ bundles) = omega (
  arith,
  length-append (map (row_of bundle) bundle.card.services) (rows_of bundles),
  length-map bundle bundle.card.services,
  length-rows_of bundles,
)

pub rows_of-append : (xs ys : List ComposedBundle) → rows_of (xs ++ ys) ≡ rows_of xs ++ rows_of ys
rows_of-append [] ys = refl
rows_of-append (x ∷ xs) ys =
    ap (λ rows. map (row_of x) x.card.services ++ rows) (rows_of-append xs ys)
    ∙ sym (L.append_assoc (map (row_of x) x.card.services) (rows_of xs) (rows_of ys))
