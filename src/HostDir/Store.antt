-- ===== src/HostDir/Store.antt =====
-- Paths as lists of segments, and a map with such keys whose order is not observed.
use sim_platform.Prelude.{
  String, Bool, true, false, ◌&&◌, none, some, List, [], ◌∷◌, ◌≡◌, ◌↔◌, refl, ◌∙◌, subst, arith,
  if◌then◌else◌, ◌==◌, ==-refl, Eq, text_key, Bool-cases, inl, inr,
}
use sim_platform.Prelude.Maps.{get}

abbrev pub Segments : Type 0
Segments = List String

abbrev pub same_segments : Segments → Segments → Bool
same_segments [] [] = true
same_segments [] (q ∷ qs) = false
same_segments (p ∷ ps) [] = false
same_segments (p ∷ ps) (q ∷ qs) = p == q && same_segments ps qs

same_segments_sound : (p q : Segments) → same_segments p q ≡ true → p ≡ q
same_segments_sound [] [] h = refl
same_segments_sound [] (q ∷ qs) h = cc
same_segments_sound (p ∷ ps) [] h = cc
same_segments_sound (p ∷ ps) (q ∷ qs) h =
    let first = (text_key.eq_decides p q).0 (ground arith) in
    let rest = same_segments_sound ps qs (ground arith) in cc (first, rest)

same_segments_refl : (p : Segments) → same_segments p p ≡ true
same_segments_refl [] = refl
same_segments_refl (p ∷ ps) = ground (arith, ==-refl p, same_segments_refl ps)

pub same_segments_iff : (p q : Segments) → (same_segments p q ≡ true) ↔ (p ≡ q)
same_segments_iff p q =
    (same_segments_sound p q, λ e. subst (λ r. same_segments p r ≡ true) e (same_segments_refl p))

abbrev pub segments_key : Eq Segments
segments_key = record { eq = same_segments; eq_decides = same_segments_iff }

-- `path.starts_with(base)`
abbrev pub starts_with : Segments → Segments → Bool
starts_with path [] = true
starts_with [] (b ∷ base) = false
starts_with (p ∷ path) (b ∷ base) = p == b && starts_with path base

-- `path.last().cloned().unwrap_or_default()`
abbrev pub last_segment : Segments → String
last_segment [] = ""
last_segment (p ∷ []) = p
last_segment (p ∷ q ∷ path) = last_segment (q ∷ path)

module _ {V : Type 0} where
  unfoldable pub put : Segments → V → List (Segments × V) → List (Segments × V)
  put k v [] = (k, v) ∷ []
  put k v ((j, w) ∷ m) =
      let rest = put k v m in if same_segments j k then (j, v) ∷ m else (j, w) ∷ rest

  unfoldable pub retain : (Segments → Bool) → List (Segments × V) → List (Segments × V)
  retain keep [] = []
  retain keep ((j, w) ∷ m) = let rest = retain keep m in if keep j then (j, w) ∷ rest else rest

  pub get-put :
      (k j : Segments) (v : V) (m : List (Segments × V))
      → get ⦃e = segments_key⦄ j (put k v m)
        ≡ (if same_segments k j then some v else get ⦃e = segments_key⦄ j m)
  unfolding get put
  get-put k j v [] = refl
  get-put k j v ((i, w) ∷ m) =
      ground (
        arith,
        same_segments_iff k j,
        same_segments_iff i k,
        same_segments_iff i j,
        get-put k j v m,
      )

  pub get-retain :
      (keep : Segments → Bool) (j : Segments) (m : List (Segments × V))
      → get ⦃e = segments_key⦄ j (retain keep m)
        ≡ (if keep j then get ⦃e = segments_key⦄ j m else none)
  unfolding get retain
  get-retain keep j [] = ground arith
  get-retain keep j ((i, w) ∷ m) =
      let later = get-retain keep j m in
      elim (Bool-cases (same_segments i j)) [
        | inl same ↦ elim (Bool-cases (keep i)) [
          | inl kept ↦
              let kept_j : keep j ≡ true = kept_as i j true same kept in rw (kept, same, kept_j)
          | inr gone ↦
              let gone_j : keep j ≡ false = kept_as i j false same gone in
              rw (gone, gone_j) (later ∙ rw gone_j)
        ]
        | inr other ↦ elim (Bool-cases (keep i)) [
          | inl kept ↦ rw (kept, other) later
          | inr gone ↦ rw (gone, other) later
        ]
      ]
    where
      kept_as : (i j : Segments) (b : Bool) → same_segments i j ≡ true → keep i ≡ b → keep j ≡ b
      kept_as i j b same h = subst (λ k. keep k ≡ b) (same_segments_sound i j same) h
