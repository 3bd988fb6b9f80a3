-- ===== src/Core/Require/Candidates.antt =====
-- What the offers of a card say about one requirement, and that `find_offer` finds it.
use sim_platform.Prelude.{
  ◌<◌, ◌≤◌, Bool, true, false, Option, none, some, List, [], ◌∷◌, ◌≡◌, ◌⊎◌, ◌↔◌, inl, inr, refl,
  ◌∙◌, arith, if◌then◌else◌, ◌==◌, text_key, All, Any, Bool-cases, Option-cases,
}
use sim_platform.Prelude.Text.{text_before}
use sim_platform.Prelude.Maps.{get, insert, get-insert}
use sim_platform.Core.Records.{OpenSymbol, EvidenceLevel, rank, at_least, ServiceOffer}
use sim_platform.Core.Require.{OfferIndex, index_offers, find_offer}

abbrev or_else : Option ServiceOffer → Option ServiceOffer → Option ServiceOffer
or_else none b = b
or_else (some a) b = some a

-- The last offer of a service that the card lists: a later offer replaces an earlier one.
abbrev pub latest : OpenSymbol → List ServiceOffer → Option ServiceOffer
latest id [] = none
latest id (offer ∷ rest) =
    or_else (latest id rest) (if offer.service == id then some offer else none)

or_else_assoc : (a b c : Option ServiceOffer) → or_else a (or_else b c) ≡ or_else (or_else a b) c
or_else_assoc none b c = refl
or_else_assoc (some a) b c = refl

or_else_if :
    (t : Bool) (o : ServiceOffer) (m : Option ServiceOffer)
    → (if t then some o else m) ≡ or_else (if t then some o else none) m
or_else_if true o m = refl
or_else_if false o m = refl

get-index_offers :
    (id : OpenSymbol) (offers : OfferIndex) (services : List ServiceOffer)
    → get id (index_offers offers services) ≡ or_else (latest id services) (get id offers)
unfolding index_offers
get-index_offers id offers [] = refl
get-index_offers id offers (o ∷ rest) =
    rw (get-index_offers id (insert text_before o.service o offers) rest, get-insert, or_else_if)
      (or_else_assoc (latest id rest) (if o.service == id then some o else none) (get id offers))

or_else-none : (a : Option ServiceOffer) → or_else a none ≡ a
or_else-none none = refl
or_else-none (some a) = refl

-- The index that the resolver builds holds, for each identity, the latest offer.
pub get-index_offers_empty :
    (id : OpenSymbol) (services : List ServiceOffer)
    → get id (index_offers [] services) ≡ latest id services
unfolding get
get-index_offers_empty id services =
    get-index_offers id [] services ∙ or_else-none (latest id services)

module _ (services : List ServiceOffer) (minimum : EvidenceLevel) where
  -- No offer of this identity is strong enough.
  abbrev pub Unfit : OpenSymbol → Type 0
  Unfit id =
      (offer : ServiceOffer) → latest id services ≡ some offer → rank offer.evidence < rank minimum

  -- Some offer of this identity is strong enough.
  abbrev pub Fits : OpenSymbol → ServiceOffer → Type 0
  Fits id offer = (latest id services ≡ some offer) × (rank minimum ≤ rank offer.evidence)

  -- The first identity, in order, that has a strong enough offer.
  abbrev pub FirstFit : List OpenSymbol → ServiceOffer → Type 0
  FirstFit [] offer = ⊥
  FirstFit (id ∷ ids) offer = Fits id offer ⊎ (Unfit id × FirstFit ids offer)

  -- What the search returns: the first fit, or no fit and whether some candidate was offered.
  abbrev pub Searched : List OpenSymbol → Bool → Option ServiceOffer × Bool → Type 0
  Searched ids weak (some offer, w) = FirstFit ids offer
  Searched ids weak (none, w) =
      All Unfit ids
      × ((w ≡ true)
          ↔ ((weak ≡ true) ⊎ Any (λ id. (o : ServiceOffer) × (latest id services ≡ some o)) ids))

  Unfit-absent : (id : OpenSymbol) → latest id services ≡ none → Unfit id
  Unfit-absent id absent offer found = cc

  Unfit-weak :
      (id : OpenSymbol) (o : ServiceOffer)
      → latest id services ≡ some o
      → at_least o.evidence minimum ≡ false
      → Unfit id
  Unfit-weak id o found low offer found' = let same : o ≡ offer = cc in rw (← same) (ground arith)

  Searched-absent :
      (id : OpenSymbol) (ids : List OpenSymbol) (weak : Bool) (r : Option ServiceOffer × Bool)
      → latest id services ≡ none
      → Searched ids weak r
      → Searched (id ∷ ids) weak r
  Searched-absent id ids weak (some offer, w) absent h = inr (Unfit-absent id absent, h)
  Searched-absent id ids weak (none, w) absent (unfit, flag) = (
    (Unfit-absent id absent, unfit),
    (
      λ e. elim (flag.0 e) [ inl before ↦ inl before | inr later ↦ inr (inr later) ],
      λ d. flag.1 (elim d [
        | inl before ↦ inl before
        | inr (inl (o, found)) ↦ absurd (cc)
        | inr (inr later) ↦ inr later
      ]),
    ),
  )

  Searched-weak :
      (id : OpenSymbol) (ids : List OpenSymbol) (weak : Bool) (o : ServiceOffer)
      (r : Option ServiceOffer × Bool)
      → latest id services ≡ some o
      → at_least o.evidence minimum ≡ false
      → Searched ids true r
      → Searched (id ∷ ids) weak r
  Searched-weak id ids weak o (some offer, w) found low h = inr (Unfit-weak id o found low, h)
  Searched-weak id ids weak o (none, w) found low (unfit, flag) =
      ((Unfit-weak id o found low, unfit), (λ e. inr (inl (o, found)), λ d. flag.1 (inl refl)))

  module _ (offers : OfferIndex)
      (indexed : (id : OpenSymbol) → get id offers ≡ latest id services) where
    pub find_offer-Searched :
        (weak : Bool) (ids : List OpenSymbol)
        → Searched ids weak (find_offer offers minimum weak ids)
    unfolding find_offer
    find_offer-Searched weak [] =
        (tt, (λ e. inl e, λ d. elim d [ inl e ↦ e | inr no_more ↦ absurd no_more ]))
    find_offer-Searched weak (id ∷ ids) = elim (Option-cases (latest id services)) [
      | inl absent ↦
          rw (indexed id, absent, find_offer)
            (Searched-absent id ids weak _ absent (find_offer-Searched weak ids))
      | inr (o, found) ↦ elim (Bool-cases (at_least o.evidence minimum)) [
        | inl fits ↦ rw (indexed id, found, fits, find_offer) (inl (found, ground arith))
        | inr low ↦
            rw (indexed id, found, low, find_offer)
              (Searched-weak id ids weak o _ found low (find_offer-Searched true ids))
      ]
    ]
