-- ===== src/Core/Require/Laws.antt =====
-- `platform_require` against an independent description: which bindings it returns, and when and
-- how it refuses.
use sim_platform.Prelude.{
  ℕ, Bool, true, false, Option, none, some, List, [], ◌∷◌, ◌++◌, ◌≡◌, ◌⊎◌, ◌↔◌, inl, inr, refl, sym,
  ◌∙◌, arith, if◌then◌else◌, All, Any, Result, ok, err, ◌>>=◌, text_key,
}
use mathlib.Core.List.{append-nil, append_assoc}
use sim_platform.Core.Records.{
  OpenSymbol, ServiceOffer, PlatformCard, Requirement, PlatformRequest, ServiceBinding,
  ResolutionRefusal,
}
use sim_platform.Prelude.Maps.{get}
use sim_platform.Core.Digest.{stable_digest}
use sim_platform.Core.Require.{
  OfferIndex, index_offers, candidates, binding_of, refusal_of, bind_one, bind_all, RequireOutcome,
  resolved, refused, panicked, bound_of, receipt_of, finish, conclude, platform_require,
}
use sim_platform.Core.Require.Candidates.{
  latest, Unfit, FirstFit, Searched, get-index_offers_empty, find_offer-Searched,
}

module _ (services : List ServiceOffer) where
  -- The candidates of a requirement, in order, have a first strong enough offer.
  abbrev pub Serves : Requirement → ServiceOffer → Type 0
  Serves r offer = FirstFit services r.minimum_evidence (candidates r) offer

  -- No candidate of the requirement has a strong enough offer.
  abbrev pub IsUnserved : Requirement → Type 0
  IsUnserved r = All (Unfit services r.minimum_evidence) (candidates r)

  -- Some candidate is offered, however weakly.
  abbrev pub IsOffered : Requirement → Type 0
  IsOffered r = Any (λ id. (o : ServiceOffer) × (latest id services ≡ some o)) (candidates r)

  -- The bindings are those of the served requirements in order, and only optional ones are missing.
  abbrev pub Resolves : List Requirement → List ServiceBinding → Type 0
  Resolves [] bs = bs ≡ []
  Resolves (r ∷ rs) bs =
      ((offer : ServiceOffer) × (rest : List ServiceBinding) × Serves r offer
        × (bs ≡ binding_of r offer ∷ rest)
        × Resolves rs rest)
      ⊎ ((r.optional ≡ true) × IsUnserved r × Resolves rs bs)

  -- The refusal is about the first requirement that is neither served nor optional, and its detail
  -- says whether some candidate was offered at all.
  abbrev pub Refuses : PlatformRequest → List Requirement → ResolutionRefusal → Type 0
  Refuses request [] x = ⊥
  Refuses request (r ∷ rs) x =
      ((weak : Bool) × (r.optional ≡ false)
        × IsUnserved r
        × ((weak ≡ true) ↔ IsOffered r)
        × (x ≡ refusal_of request r weak))
      ⊎ ((((offer : ServiceOffer) × Serves r offer) ⊎ ((r.optional ≡ true) × IsUnserved r))
          × Refuses request rs x)

  abbrev AllBound :
      PlatformRequest
      → List ServiceBinding
      → List Requirement
      → Result ResolutionRefusal (List ServiceBinding)
      → Type 0
  AllBound request before rs (ok out) =
      (bs : List ServiceBinding) × (out ≡ before ++ bs) × Resolves rs bs
  AllBound request before rs (err x) = Refuses request rs x

  flag_only : {w : Bool} {P : Type 0} → ((w ≡ true) ↔ ((false ≡ true) ⊎ P)) → (w ≡ true) ↔ P
  flag_only (to, from) = (λ e. elim (to e) [ inl bad ↦ absurd (cc) | inr p ↦ p ], λ p. from (inr p))

  served-AllBound :
      (request : PlatformRequest) (before : List ServiceBinding) (r : Requirement)
      (rs : List Requirement) (offer : ServiceOffer)
      (out : Result ResolutionRefusal (List ServiceBinding))
      → Serves r offer
      → AllBound request (before ++ binding_of r offer ∷ []) rs out
      → AllBound request before (r ∷ rs) out
  served-AllBound request before r rs offer (ok out) fits (bs, e, rest) = (
    binding_of r offer ∷ bs,
    e ∙ append_assoc before (binding_of r offer ∷ []) bs,
    inl (offer, bs, fits, refl, rest),
  )
  served-AllBound request before r rs offer (err x) fits h = inr (inl (offer, fits), h)

  skipped-AllBound :
      (request : PlatformRequest) (before : List ServiceBinding) (r : Requirement)
      (rs : List Requirement) (out : Result ResolutionRefusal (List ServiceBinding))
      → r.optional ≡ true
      → IsUnserved r
      → AllBound request before rs out
      → AllBound request before (r ∷ rs) out
  skipped-AllBound request before r rs (ok out) opt unfit (bs, e, rest) =
      (bs, e, inr (opt, unfit, rest))
  skipped-AllBound request before r rs (err x) opt unfit h = inr (inr (opt, unfit), h)

  unserved-AllBound :
      (offers : OfferIndex) (request : PlatformRequest) (before : List ServiceBinding)
      (r : Requirement) (rs : List Requirement) (w opt : Bool)
      → r.optional ≡ opt
      → IsUnserved r
      → (w ≡ true) ↔ IsOffered r
      → AllBound request before rs (bind_all offers request before rs)
      → AllBound request before (r ∷ rs) (
          (if opt then ok before else err (refusal_of request r w)) >>= λ bound.
          bind_all offers request bound rs)
  unserved-AllBound offers request before r rs w true opt unfit flag later =
      skipped-AllBound request before r rs _ opt unfit later
  unserved-AllBound offers request before r rs w false must unfit flag later =
      inl (w, must, unfit, flag, refl)

  module _ (offers : OfferIndex) (indexed : (id : OpenSymbol) → get id offers ≡ latest id services)
      (request : PlatformRequest) where
    bind_one-AllBound :
        (before : List ServiceBinding) (r : Requirement) (rs : List Requirement)
        (found : Option ServiceOffer × Bool)
        → Searched services r.minimum_evidence (candidates r) false found
        → ((bs : List ServiceBinding) → AllBound request bs rs (bind_all offers request bs rs))
        → AllBound request before
            (r ∷ rs)
            (bind_one request before r found >>= λ bound. bind_all offers request bound rs)
    unfolding bind_one
    bind_one-AllBound before r rs (some offer, w) fits later =
        served-AllBound request before r rs offer _ fits (later (before ++ binding_of r offer ∷ []))
    bind_one-AllBound before r rs (none, w) (unfit, flag) later =
        unserved-AllBound offers request before r rs w r.optional refl unfit (flag_only flag)
          (later before)

    bind_all-AllBound :
        (before : List ServiceBinding) (rs : List Requirement)
        → AllBound request before rs (bind_all offers request before rs)
    unfolding bind_all
    bind_all-AllBound before [] = ([], sym (append-nil before), refl)
    bind_all-AllBound before (r ∷ rs) =
        bind_one-AllBound before r rs _
          (find_offer-Searched services r.minimum_evidence offers indexed false (candidates r))
          (λ bs. bind_all-AllBound bs rs)

  firstfit_unique :
      (r : Requirement) (ids : List OpenSymbol) (o o' : ServiceOffer)
      → FirstFit services r.minimum_evidence ids o
      → FirstFit services r.minimum_evidence ids o'
      → o ≡ o'
  firstfit_unique r (id ∷ ids) o o' (inl (found, _)) (inl (found', _)) = cc
  firstfit_unique r (id ∷ ids) o o' (inl (found, strong)) (inr (unfit, _)) =
      absurd (omega (arith, unfit o found))
  firstfit_unique r (id ∷ ids) o o' (inr (unfit, _)) (inl (found, strong)) =
      absurd (omega (arith, unfit o' found))
  firstfit_unique r (id ∷ ids) o o' (inr (_, h)) (inr (_, h')) = firstfit_unique r ids o o' h h'
  firstfit_unique r [] o o' h h' = absurd h

  not-unserved_of_firstfit :
      (r : Requirement) (ids : List OpenSymbol) (o : ServiceOffer)
      → FirstFit services r.minimum_evidence ids o
      → ¬ All (Unfit services r.minimum_evidence) ids
  not-unserved_of_firstfit r (id ∷ ids) o (inl (found, strong)) (unfit, _) =
      omega (arith, unfit o found)
  not-unserved_of_firstfit r (id ∷ ids) o (inr (_, h)) (_, rest) =
      not-unserved_of_firstfit r ids o h rest
  not-unserved_of_firstfit r [] o h _ = absurd h

  -- A request has at most one list of bindings.
  Resolves-unique :
      (rs : List Requirement) (bs bs' : List ServiceBinding)
      → Resolves rs bs
      → Resolves rs bs'
      → bs ≡ bs'
  Resolves-unique [] bs bs' h h' = cc
  Resolves-unique (r ∷ rs) bs bs' (inl (o, rest, fits, e, h)) (inl (o', rest', fits', e', h')) =
      cc (firstfit_unique r (candidates r) o o' fits fits', Resolves-unique rs rest rest' h h')
  Resolves-unique (r ∷ rs) bs bs' (inl (o, rest, fits, e, h)) (inr (opt, unfit, h')) =
      absurd (not-unserved_of_firstfit r (candidates r) o fits unfit)
  Resolves-unique (r ∷ rs) bs bs' (inr (opt, unfit, h')) (inl (o, rest, fits, e, h)) =
      absurd (not-unserved_of_firstfit r (candidates r) o fits unfit)
  Resolves-unique (r ∷ rs) bs bs' (inr (_, _, h)) (inr (_, _, h')) = Resolves-unique rs bs bs' h h'

  not-Refuses_of_Resolves :
      (request : PlatformRequest) (rs : List Requirement) (bs : List ServiceBinding)
      (x : ResolutionRefusal)
      → Resolves rs bs
      → ¬ Refuses request rs x
  not-Refuses_of_Resolves request [] bs x h no_refusal = no_refusal
  not-Refuses_of_Resolves request (r ∷ rs) bs x (inl (o, rest, fits, e, h))
        (inl (w, must, unfit, _, _)) =
      not-unserved_of_firstfit r (candidates r) o fits unfit
  not-Refuses_of_Resolves request (r ∷ rs) bs x (inr (opt, _, _)) (inl (w, must, _, _, _)) = cc
  not-Refuses_of_Resolves request (r ∷ rs) bs x (inl (o, rest, fits, e, h)) (inr (_, later)) =
      not-Refuses_of_Resolves request rs rest x h later
  not-Refuses_of_Resolves request (r ∷ rs) bs x (inr (opt, unfit, h)) (inr (_, later)) =
      not-Refuses_of_Resolves request rs bs x h later

module _ (to_vec : PlatformCard → Option (List ℕ)) (card : PlatformCard)
    (request : PlatformRequest) where
  bound_all :
      AllBound card.services request [] request.requirements
        (bind_all (index_offers [] card.services) request [] request.requirements)
  bound_all =
      bind_all-AllBound card.services (index_offers [] card.services)
        (λ id. get-index_offers_empty id card.services) request [] request.requirements

  -- What each outcome of the resolver tells.
  abbrev pub Explains : RequireOutcome → Type 0
  Explains (resolved bound receipt) =
      (card_bytes : List ℕ) × (to_vec card ≡ some card_bytes)
      × Resolves card.services request.requirements bound.bindings
      × (bound ≡ bound_of card request bound.bindings)
      × (receipt ≡ receipt_of card request bound.bindings (stable_digest card_bytes))
  Explains (refused refusal) = Refuses card.services request request.requirements refusal
  Explains panicked =
      (to_vec card ≡ none)
      × ((bs : List ServiceBinding) × Resolves card.services request.requirements bs)

  finish-Explains :
      (bs : List ServiceBinding) (card_bytes : Option (List ℕ))
      → to_vec card ≡ card_bytes
      → Resolves card.services request.requirements bs
      → Explains (finish card request bs card_bytes)
  finish-Explains bs none failed h = (failed, (bs, h))
  finish-Explains bs (some card_bytes) written h = (card_bytes, written, h, refl, refl)

  conclude-Explains :
      (out : Result ResolutionRefusal (List ServiceBinding))
      → AllBound card.services request [] request.requirements out
      → Explains (conclude to_vec card request out)
  conclude-Explains (ok out) (bs, e, h) = rw e (finish-Explains bs (to_vec card) refl h)
  conclude-Explains (err x) h = h

-- The outcome is explained on every branch. Bindings are returned only when each requirement, in
-- order, is bound to the first of its candidates whose latest offer is strong enough, or is optional
-- and has none; the receipt repeats them and carries the digest of the card. A refusal is about the
-- first requirement that is required and has no such candidate, and its detail tells whether any
-- candidate was offered. A panic happens only where the card does not serialize.
pub platform_require-Explains :
    (to_vec : PlatformCard → Option (List ℕ)) (card : PlatformCard) (request : PlatformRequest)
    → Explains to_vec card request (platform_require to_vec card request)
unfolding platform_require
platform_require-Explains to_vec card request =
    conclude-Explains to_vec card request _ (bound_all to_vec card request)

unique_outcome :
    (to_vec : PlatformCard → Option (List ℕ)) (card : PlatformCard) (request : PlatformRequest)
    (bs : List ServiceBinding) (card_bytes : List ℕ) (out : RequireOutcome)
    → to_vec card ≡ some card_bytes
    → Resolves card.services request.requirements bs
    → Explains to_vec card request out
    → out ≡ finish card request bs (some card_bytes)
unique_outcome to_vec card request bs card_bytes (resolved bound receipt) e h
      (bytes', e', h', eb, er) =
    cc (Resolves-unique card.services request.requirements bs bound.bindings h h')
unique_outcome to_vec card request bs card_bytes (refused x) e h h' =
    absurd (not-Refuses_of_Resolves card.services request request.requirements bs x h h')
unique_outcome to_vec card request bs card_bytes panicked e h (failed, _) = cc

-- A request that can be resolved is resolved: wherever bindings of that kind exist and the card
-- serializes, exactly those are returned, with the receipt for them.
pub platform_require_complete :
    (to_vec : PlatformCard → Option (List ℕ)) (card : PlatformCard) (request : PlatformRequest)
    (bs : List ServiceBinding) (card_bytes : List ℕ)
    → to_vec card ≡ some card_bytes
    → Resolves card.services request.requirements bs
    → platform_require to_vec card request
      ≡ resolved (bound_of card request bs) (receipt_of card request bs (stable_digest card_bytes))
platform_require_complete to_vec card request bs card_bytes e h =
    unique_outcome to_vec card request bs card_bytes _ e h
      (platform_require-Explains to_vec card request)
