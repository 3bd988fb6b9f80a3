-- ===== src/Core/Require.antt =====
-- `platform_require` of crates/sim-platform-core/src/records.rs: the pure, atomic resolver.
pub mod Candidates
pub mod Laws
use Prim.Native.String
use sim_platform.Prelude.{
  ℕ, String, Bool, true, false, Option, none, some, List, [], ◌∷◌, ◌++◌, if◌then◌else◌, Result, ok,
  err, ◌>>=◌, text_key,
}
use sim_platform.Prelude.Text.{text_before}
use sim_platform.Prelude.Maps.{get, insert}
use sim_platform.Core.Records.{
  OpenSymbol, EvidenceLevel, at_least, ServiceOffer, PlatformCard, Requirement, PlatformRequest,
  ServiceBinding, BoundServices, unsupported, ResolutionRefusal, ResolutionReceipt,
}
use sim_platform.Core.Digest.{stable_digest}

abbrev pub OfferIndex : Type 0
OfferIndex = List (OpenSymbol × ServiceOffer)

-- The loop that fills `offers`.
unfoldable pub index_offers : OfferIndex → List ServiceOffer → OfferIndex
index_offers offers [] = offers
index_offers offers (offer ∷ rest) =
    index_offers (insert text_before offer.service offer offers) rest

-- `filter_map(..).find(..)` over the candidates, with the captured flag `weak`.
unfoldable pub find_offer :
    OfferIndex → EvidenceLevel → Bool → List OpenSymbol → Option ServiceOffer × Bool
find_offer offers minimum weak [] = (none, weak)
find_offer offers minimum weak (id ∷ ids) = elim (get id offers) [
  | none ↦ find_offer offers minimum weak ids
  | some offer ↦
      let later = find_offer offers minimum true ids in
      if at_least offer.evidence minimum then (some offer, weak) else later
]

abbrev pub candidates : Requirement → List OpenSymbol
candidates r = r.service ∷ r.substitutes

abbrev pub binding_of : Requirement → ServiceOffer → ServiceBinding
binding_of r offer = record {
  requested = r.service;
  bound = offer.service;
  port = offer.port;
  evidence = offer.evidence;
}

abbrev pub refusal_of : PlatformRequest → Requirement → Bool → ResolutionRefusal
refusal_of request r weak = record {
  request = request.request;
  service = r.service;
  kind = unsupported;
  detail = if weak then "offers do not meet minimum evidence" else "service is unbound";
}

-- One round of the loop over the requirements: the bindings after it, or the refusal.
unfoldable pub bind_one :
    PlatformRequest
    → List ServiceBinding
    → Requirement
    → Option ServiceOffer × Bool
    → Result ResolutionRefusal (List ServiceBinding)
bind_one request bindings r (some offer, weak) = ok (bindings ++ binding_of r offer ∷ [])
bind_one request bindings r (none, weak) =
    if r.optional then ok bindings else err (refusal_of request r weak)

-- The loop over the requirements.
unfoldable pub bind_all :
    OfferIndex
    → PlatformRequest
    → List ServiceBinding
    → List Requirement
    → Result ResolutionRefusal (List ServiceBinding)
unfolding find_offer bind_one
bind_all offers request bindings [] = ok bindings
bind_all offers request bindings (r ∷ rs) = do
  bound ← bind_one request bindings r (find_offer offers r.minimum_evidence false (candidates r))
  bind_all offers request bound rs

-- A panic is an outcome of its own: `expect` on a card that does not serialize.
pub data RequireOutcome : Type 0 where
  resolved : BoundServices → ResolutionReceipt → RequireOutcome
  refused : ResolutionRefusal → RequireOutcome
  panicked : RequireOutcome

abbrev pub bound_of : PlatformCard → PlatformRequest → List ServiceBinding → BoundServices
bound_of card request bindings = record {
  request = request.request;
  site = card.site;
  bindings = bindings;
}

abbrev pub receipt_of :
    PlatformCard → PlatformRequest → List ServiceBinding → String → ResolutionReceipt
receipt_of card request bindings digest = record {
  id = String.◌++◌ "receipt/" digest;
  request = request.request;
  site = card.site;
  bindings = bindings;
  card_digest = digest;
}

-- What is returned for the bindings, by the bytes of the card.
abbrev pub finish :
    PlatformCard → PlatformRequest → List ServiceBinding → Option (List ℕ) → RequireOutcome
finish card request bindings none = panicked
finish card request bindings (some card_bytes) =
    resolved (bound_of card request bindings)
      (receipt_of card request bindings (stable_digest card_bytes))

-- `serde_json::to_vec` of a card is a parameter: `none` is its error.
module _ (to_vec : PlatformCard → Option (List ℕ)) where
  abbrev pub conclude :
      PlatformCard
      → PlatformRequest
      → Result ResolutionRefusal (List ServiceBinding)
      → RequireOutcome
  conclude card request (err refusal) = refused refusal
  conclude card request (ok bindings) = finish card request bindings (to_vec card)

  unfoldable pub platform_require : PlatformCard → PlatformRequest → RequireOutcome
  unfolding index_offers bind_all
  platform_require card request =
      conclude card request
        (bind_all (index_offers [] card.services) request [] request.requirements)
