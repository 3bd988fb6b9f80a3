-- ===== src/Core/Bundle/Contents.antt =====
-- The loops of `compose_bundle` over the required services and over the contents.
use sim_platform.Prelude.{
  true, false, not, none, some, List, [], ◌∷◌, ◌≡◌, ◌≢◌, ◌⊎◌, inl, inr, refl, arith, Result, ok,
  err, ◌==◌, text_key, eq_iff, find, any, contains, contains_sound, contains_complete, All, Any, In,
  Bool-cases, Option-cases,
}
use sim_platform.Core.Records.{OpenSymbol, PlatformCard, ServiceOffer}
use sim_platform.Core.Bundle.{
  BundleContent, BundleRefusal, missing_required_service, duplicate_content, capability_escalation,
  check_services, check_contents,
}

not-In : (a : OpenSymbol) (xs : List OpenSymbol) → contains xs a ≡ false → ¬ In a xs
not-In a xs e h = cc (contains_complete xs a h)

not_contains : (a : OpenSymbol) (xs : List OpenSymbol) → (¬ In a xs) → contains xs a ≡ false
not_contains a xs h = elim (Bool-cases (contains xs a)) [
  | inl there ↦ absurd (h (contains_sound xs a there))
  | inr gone ↦ gone
]

module _ (card : PlatformCard) where
  -- The card lists an offer of the service.
  abbrev pub Offers : OpenSymbol → Type 0
  Offers service = Any (λ offer. offer.service ≡ service) card.services

  any_offer_sound :
      (service : OpenSymbol) (offers : List ServiceOffer)
      → any (λ offer. offer.service == service) offers ≡ true
      → Any (λ offer. offer.service ≡ service) offers
  any_offer_sound service [] h = cc
  any_offer_sound service (o ∷ os) h = elim (Bool-cases (o.service == service)) [
    | inl same ↦ inl ((eq_iff o.service service).0 same)
    | inr other ↦ inr (any_offer_sound service os (ground arith))
  ]

  any_offer_complete :
      (service : OpenSymbol) (offers : List ServiceOffer)
      → Any (λ offer. offer.service ≡ service) offers
      → any (λ offer. offer.service == service) offers ≡ true
  any_offer_complete service (o ∷ os) (inl same) = ground (arith, (eq_iff o.service service).1 same)
  any_offer_complete service (o ∷ os) (inr later) =
      ground (arith, any_offer_complete service os later)
  any_offer_complete service [] h = absurd h

  -- The refusal names the first service that the card does not offer.
  abbrev pub FirstMissing : List OpenSymbol → BundleRefusal → Type 0
  FirstMissing [] e = ⊥
  FirstMissing (s ∷ ss) e =
      ((¬ Offers s) × (e ≡ missing_required_service s)) ⊎ (Offers s × FirstMissing ss e)

  abbrev pub ServicesChecked : List OpenSymbol → Result BundleRefusal (Unit {0}) → Type 0
  ServicesChecked ss (ok done) = All Offers ss
  ServicesChecked ss (err e) = FirstMissing ss e

  offered-ServicesChecked :
      (s : OpenSymbol) (ss : List OpenSymbol) (r : Result BundleRefusal (Unit {0}))
      → Offers s
      → ServicesChecked ss r
      → ServicesChecked (s ∷ ss) r
  offered-ServicesChecked s ss (ok done) here h = (here, h)
  offered-ServicesChecked s ss (err e) here h = inr (here, h)

  pub check_services-ServicesChecked :
      (ss : List OpenSymbol) → ServicesChecked ss (check_services card ss)
  unfolding check_services
  check_services-ServicesChecked [] = tt
  check_services-ServicesChecked (s ∷ ss) =
      elim (Bool-cases (any (λ offer. offer.service == s) card.services)) [
        | inl there ↦ rw there (
            offered-ServicesChecked s ss _ (any_offer_sound s card.services there)
              (check_services-ServicesChecked ss))
        | inr gone ↦ rw gone (inl ((λ h. cc (any_offer_complete s card.services h)), refl))
      ]

  pub check_services_ok : (ss : List OpenSymbol) → All Offers ss → check_services card ss ≡ ok tt
  unfolding check_services
  check_services_ok [] h = refl
  check_services_ok (s ∷ ss) (here, h) =
      rw (any_offer_complete s card.services here) (check_services_ok ss h)

-- No two contents share an identity.
abbrev pub Distinct : List BundleContent → Type 0
Distinct [] = Unit
Distinct (c ∷ cs) = All (λ d. c.id ≢ d.id) cs × Distinct cs

module _ (allowed : List OpenSymbol) where
  -- Every capability of the content is allowed.
  abbrev pub IsConfined : BundleContent → Type 0
  IsConfined content = All (λ capability. In capability allowed) content.capabilities

  abbrev pub IsFresh : List OpenSymbol → BundleContent → Type 0
  IsFresh seen content = ¬ In content.id seen

  find-none_sound :
      (caps : List OpenSymbol)
      → find (λ capability. not (contains allowed capability)) caps ≡ none
      → All (λ capability. In capability allowed) caps
  find-none_sound [] h = tt
  find-none_sound (c ∷ cs) h = elim (Bool-cases (contains allowed c)) [
    | inl there ↦ (contains_sound allowed c there, find-none_sound cs (rw there at h))
    | inr gone ↦ absurd (cc (rw gone at h))
  ]

  find-none_complete :
      (caps : List OpenSymbol)
      → All (λ capability. In capability allowed) caps
      → find (λ capability. not (contains allowed capability)) caps ≡ none
  find-none_complete [] h = refl
  find-none_complete (c ∷ cs) (here, h) =
      rw (contains_complete allowed c here) (find-none_complete cs h)

  find-some_sound :
      (caps : List OpenSymbol) (x : OpenSymbol)
      → find (λ capability. not (contains allowed capability)) caps ≡ some x
      → In x caps × (¬ In x allowed)
  find-some_sound [] x h = cc
  find-some_sound (c ∷ cs) x h = elim (Bool-cases (contains allowed c)) [
    | inl there ↦
        let (later, escalates) = find-some_sound cs x (rw there at h) in (inr later, escalates)
    | inr gone ↦
        let same : c ≡ x = cc (rw gone at h) in (inl same, rw (← same) (not-In c allowed gone))
  ]

  -- The refusal is about the first content that repeats an identity or escalates a capability.
  abbrev pub FirstBad : List OpenSymbol → List BundleContent → BundleRefusal → Type 0
  FirstBad seen [] e = ⊥
  FirstBad seen (c ∷ cs) e =
      (In c.id seen × (e ≡ duplicate_content c.id))
      ⊎ (IsFresh seen c
          × ((cap : OpenSymbol) × (In cap c.capabilities)
              × (¬ In cap allowed)
              × (e ≡ capability_escalation c.id cap)))
      ⊎ (IsFresh seen c × IsConfined c × FirstBad (c.id ∷ seen) cs e)

  -- Every content is fresh when it is reached, and confined.
  abbrev pub AllFresh : List OpenSymbol → List BundleContent → Type 0
  AllFresh seen [] = Unit
  AllFresh seen (c ∷ cs) = IsFresh seen c × IsConfined c × AllFresh (c.id ∷ seen) cs

  abbrev pub ContentsChecked :
      List OpenSymbol → List BundleContent → Result BundleRefusal (Unit {0}) → Type 0
  ContentsChecked seen cs (ok done) = AllFresh seen cs
  ContentsChecked seen cs (err e) = FirstBad seen cs e

  fresh-ContentsChecked :
      (seen : List OpenSymbol) (c : BundleContent) (cs : List BundleContent)
      (r : Result BundleRefusal (Unit {0}))
      → IsFresh seen c
      → IsConfined c
      → ContentsChecked (c.id ∷ seen) cs r
      → ContentsChecked seen (c ∷ cs) r
  fresh-ContentsChecked seen c cs (ok done) fresh confined h = (fresh, confined, h)
  fresh-ContentsChecked seen c cs (err e) fresh confined h = inr (inr (fresh, confined, h))

  pub check_contents-ContentsChecked :
      (seen : List OpenSymbol) (cs : List BundleContent)
      → ContentsChecked seen cs (check_contents allowed seen cs)
  unfolding check_contents
  check_contents-ContentsChecked seen [] = tt
  check_contents-ContentsChecked seen (c ∷ cs) = elim (Bool-cases (contains seen c.id)) [
    | inl there ↦ rw there (inl (contains_sound seen c.id there, refl))
    | inr gone ↦ elim (Option-cases (find (λ x. not (contains allowed x)) c.capabilities)) [
      | inl confined ↦
          rw (gone, confined)
            (fresh-ContentsChecked seen c cs _ (not-In c.id seen gone)
              (find-none_sound c.capabilities confined)
              (check_contents-ContentsChecked (c.id ∷ seen) cs))
      | inr (x, found) ↦
          let (listed, escalates) = find-some_sound c.capabilities x found in
          rw (gone, found) (inr (inl (not-In c.id seen gone, (x, listed, escalates, refl))))
    ]
  ]

  check_contents_fresh :
      (seen : List OpenSymbol) (cs : List BundleContent)
      → AllFresh seen cs
      → check_contents allowed seen cs ≡ ok tt
  unfolding check_contents
  check_contents_fresh seen [] h = refl
  check_contents_fresh seen (c ∷ cs) (fresh, confined, h) =
      rw (not_contains c.id seen fresh, find-none_complete c.capabilities confined)
        (check_contents_fresh (c.id ∷ seen) cs h)

  IsFresh-split :
      (id : OpenSymbol) (seen : List OpenSymbol) (cs : List BundleContent)
      → All (IsFresh (id ∷ seen)) cs
      → All (λ d. id ≢ d.id) cs × All (IsFresh seen) cs
  IsFresh-split id seen [] h = (tt, tt)
  IsFresh-split id seen (c ∷ cs) (here, h) =
      let (apart, fresh) = IsFresh-split id seen cs h in
      ((λ e. here (inl e), apart), (λ m. here (inr m), fresh))

  IsFresh-join :
      (id : OpenSymbol) (seen : List OpenSymbol) (cs : List BundleContent)
      → All (λ d. id ≢ d.id) cs
      → All (IsFresh seen) cs
      → All (IsFresh (id ∷ seen)) cs
  IsFresh-join id seen [] h k = tt
  IsFresh-join id seen (c ∷ cs) (apart, h) (fresh, k) =
      (λ m. elim m [ inl e ↦ apart e | inr later ↦ fresh later ], IsFresh-join id seen cs h k)

  pub AllFresh-split :
      (seen : List OpenSymbol) (cs : List BundleContent)
      → AllFresh seen cs
      → All (IsFresh seen) cs × Distinct cs × All IsConfined cs
  AllFresh-split seen [] h = (tt, tt, tt)
  AllFresh-split seen (c ∷ cs) (fresh, confined, h) =
      let (later, distinct, all_confined) = AllFresh-split (c.id ∷ seen) cs h in
      let (apart, all_fresh) = IsFresh-split c.id seen cs later in
      ((fresh, all_fresh), (apart, distinct), (confined, all_confined))

  AllFresh-join :
      (seen : List OpenSymbol) (cs : List BundleContent)
      → All (IsFresh seen) cs
      → Distinct cs
      → All IsConfined cs
      → AllFresh seen cs
  AllFresh-join seen [] fresh distinct confined = tt
  AllFresh-join seen (c ∷ cs) (fresh, all_fresh) (apart, distinct) (confined, all_confined) = (
    fresh,
    confined,
    AllFresh-join (c.id ∷ seen) cs (IsFresh-join c.id seen cs apart all_fresh) distinct
        all_confined,
  )

  All-IsFresh_at_start : (cs : List BundleContent) → All (IsFresh []) cs
  All-IsFresh_at_start [] = tt
  All-IsFresh_at_start (c ∷ cs) = (λ h. h, All-IsFresh_at_start cs)

  pub check_contents_ok :
      (cs : List BundleContent)
      → Distinct cs
      → All IsConfined cs
      → check_contents allowed [] cs ≡ ok tt
  check_contents_ok cs distinct confined =
      check_contents_fresh [] cs (AllFresh-join [] cs (All-IsFresh_at_start cs) distinct confined)
