-- ===== src/Core/Bundle/Laws.antt =====
-- `compose_bundle` against an independent description: which compositions it admits, what it makes of
-- them, and what each refusal says.
use sim_platform.Prelude.{
  ℕ, String, Bool, true, false, not, ◌||◌, Option, none, some, List, [], ◌≡◌, inl, inr, refl, subst,
  arith, Result, ok, err, refuse_if, ◌>>◌, ◌==◌, text_key, eq_iff, All, bind_rule, refuse_if_rule,
  ok_or_rule, keep_if,
}
use sim_platform.Prelude.Maps.{get}
use sim_platform.Core.Records.{PlatformCard}
use sim_platform.Core.Digest.{stable_digest}
use sim_platform.Core.Bundle.{
  CapsuleAttestation, ComposedBundle, BundleComposition, BundleRefusal, missing_capsule,
  duplicate_provider, missing_attestation, duplicate_attestation, undeclared_artifact,
  invalid_card_encoding, evidence_content_mismatch, the_only, check_services, check_contents,
  contents, bundle_of, compose_bundle,
}
use sim_platform.Core.Bundle.Checks.{
  NoneOf, Sole, Several, Selected, keep_if-Sole, the_only-Selected,
}
use sim_platform.Core.Bundle.Contents.{
  Offers, FirstMissing, ServicesChecked, check_services-ServicesChecked, check_services_ok,
  IsConfined, Distinct, FirstBad, ContentsChecked, check_contents-ContentsChecked, AllFresh-split,
  check_contents_ok,
}

module _ (to_vec : PlatformCard → Option (List ℕ)) (input : BundleComposition) where
  abbrev of_capsule : PlatformCard → Bool
  of_capsule card = card.site == input.capsule

  abbrev about_capsule : CapsuleAttestation → Bool
  about_capsule item = item.capsule == input.capsule

  abbrev SoleCard : PlatformCard → Type 0
  SoleCard card = Sole of_capsule input.cards card

  abbrev SoleAttestation : CapsuleAttestation → Type 0
  SoleAttestation a = Sole about_capsule input.attestations a

  -- The evidence is about this card and about the declared artifact.
  abbrev IsEvidence : CapsuleAttestation → String → List ℕ → Type 0
  IsEvidence a artifact_digest card_bytes =
      (a.artifact_digest ≡ artifact_digest) × (a.card_digest ≡ stable_digest card_bytes)

  -- The conditions under which a composition is admitted.
  pub record Admits (card : PlatformCard) (a : CapsuleAttestation) (artifact_digest : String)
      : Type 0 where
    pub sole_card : SoleCard card
    pub sole_attestation : SoleAttestation a
    pub declared : get input.capsule input.declared_artifacts ≡ some artifact_digest
    pub card_bytes : List ℕ
    pub encoded : to_vec card ≡ some card_bytes
    pub evidence : IsEvidence a artifact_digest card_bytes
    pub services : All (Offers card) input.required_services
    pub distinct : Distinct (contents input)
    pub confined : All (IsConfined input.allowed_capabilities) (contents input)

  -- Why a composition is refused, for each refusal.
  pub data Reason (e : BundleRefusal) : Type 0 where
    no_card : e ≡ missing_capsule input.capsule → NoneOf of_capsule input.cards → Reason e
    many_cards : e ≡ duplicate_provider input.capsule → Several of_capsule input.cards → Reason e
    no_attestation :
        e ≡ missing_attestation input.capsule → NoneOf about_capsule input.attestations → Reason e
    many_attestations :
        e ≡ duplicate_attestation input.capsule
        → Several about_capsule input.attestations
        → Reason e
    undeclared :
        e ≡ undeclared_artifact input.capsule
        → get input.capsule input.declared_artifacts ≡ none
        → Reason e
    not_encoded :
        (card : PlatformCard)
        → SoleCard card
        → e ≡ invalid_card_encoding input.capsule
        → to_vec card ≡ none
        → Reason e
    mismatched :
        (card : PlatformCard) (a : CapsuleAttestation) (artifact_digest : String)
        (card_bytes : List ℕ)
        → SoleCard card
        → SoleAttestation a
        → get input.capsule input.declared_artifacts ≡ some artifact_digest
        → to_vec card ≡ some card_bytes
        → e ≡ evidence_content_mismatch input.capsule
        → (¬ IsEvidence a artifact_digest card_bytes)
        → Reason e
    missing_service :
        (card : PlatformCard)
        → SoleCard card
        → FirstMissing card input.required_services e
        → Reason e
    bad_content : FirstBad input.allowed_capabilities [] (contents input) e → Reason e

  -- What each outcome tells.
  abbrev pub Justifies : Result BundleRefusal ComposedBundle → Type 0
  Justifies (ok bundle) =
      (card : PlatformCard) × (a : CapsuleAttestation) × (artifact_digest : String) × Admits card a
        artifact_digest
      × (bundle ≡ bundle_of input card a artifact_digest)
  Justifies (err e) = Reason e

  mismatch_sound :
      (a : CapsuleAttestation) (artifact_digest : String) (card_bytes : List ℕ)
      → (not (a.artifact_digest == artifact_digest)
          || not (a.card_digest == stable_digest card_bytes))
        ≡ false
      → IsEvidence a artifact_digest card_bytes
  mismatch_sound a artifact_digest card_bytes h = (
    ground (arith, eq_iff a.artifact_digest artifact_digest),
    ground (arith, eq_iff a.card_digest (stable_digest card_bytes)),
  )

  mismatch_complete :
      (a : CapsuleAttestation) (artifact_digest : String) (card_bytes : List ℕ)
      → IsEvidence a artifact_digest card_bytes
      → (not (a.artifact_digest == artifact_digest)
          || not (a.card_digest == stable_digest card_bytes))
        ≡ false
  mismatch_complete a artifact_digest card_bytes (same_artifact, same_card) = ground (
    arith,
    (eq_iff a.artifact_digest artifact_digest).1 same_artifact,
    (eq_iff a.card_digest (stable_digest card_bytes)).1 same_card,
  )

  -- The part of `compose_bundle` after the evidence has been compared.
  check_contents-Justifies :
      (card : PlatformCard) (a : CapsuleAttestation) (artifact_digest : String)
      (card_bytes : List ℕ)
      → SoleCard card
      → SoleAttestation a
      → get input.capsule input.declared_artifacts ≡ some artifact_digest
      → to_vec card ≡ some card_bytes
      → IsEvidence a artifact_digest card_bytes
      → Justifies (do
        check_services card input.required_services
        check_contents input.allowed_capabilities [] (contents input)
        ok (bundle_of input card a artifact_digest))
  check_contents-Justifies card a artifact_digest card_bytes sole_card sole_attestation declared
        encoded evidence =
      bind_rule Justifies _ _
        (λ done served.
          bind_rule Justifies _ _
            (λ done' closed.
              let services =
                subst (ServicesChecked card input.required_services) served
                  (check_services-ServicesChecked card input.required_services) in
              let (fresh, distinct, confined) =
                AllFresh-split input.allowed_capabilities [] (contents input) (
                  subst (ContentsChecked input.allowed_capabilities [] (contents input)) closed (
                    check_contents-ContentsChecked input.allowed_capabilities []
                      (contents input))) in
              (
                card,
                a,
                artifact_digest,
                record {
                  sole_card = sole_card;
                  sole_attestation = sole_attestation;
                  declared = declared;
                  card_bytes = card_bytes;
                  encoded = encoded;
                  evidence = evidence;
                  services = services;
                  distinct = distinct;
                  confined = confined;
                },
                refl,
              ))
            (λ e bad. bad_content (
              subst (ContentsChecked input.allowed_capabilities [] (contents input)) bad
                (check_contents-ContentsChecked input.allowed_capabilities [] (contents input)))))
        (λ e missing. missing_service card sole_card (
          subst (ServicesChecked card input.required_services) missing
            (check_services-ServicesChecked card input.required_services)))

  not_evidence :
      (a : CapsuleAttestation) (artifact_digest : String) (card_bytes : List ℕ)
      → (not (a.artifact_digest == artifact_digest)
          || not (a.card_digest == stable_digest card_bytes))
        ≡ true
      → ¬ IsEvidence a artifact_digest card_bytes
  not_evidence a artifact_digest card_bytes differs same =
      cc (mismatch_complete a artifact_digest card_bytes same)

  -- From the digest of the artifact on.
  evidence-Justifies :
      (card : PlatformCard) (a : CapsuleAttestation) (artifact_digest : String)
      (card_bytes : List ℕ)
      → SoleCard card
      → SoleAttestation a
      → get input.capsule input.declared_artifacts ≡ some artifact_digest
      → to_vec card ≡ some card_bytes
      → Justifies (do
        refuse_if
            (not (a.artifact_digest == artifact_digest)
              || not (a.card_digest == stable_digest card_bytes))
            (evidence_content_mismatch input.capsule)
        check_services card input.required_services
        check_contents input.allowed_capabilities [] (contents input)
        ok (bundle_of input card a artifact_digest))
  evidence-Justifies card a artifact_digest card_bytes sole_card sole_attestation declared encoded =
      refuse_if_rule Justifies _ _ _
        (λ differs.
          mismatched card a artifact_digest card_bytes sole_card sole_attestation declared encoded
            refl (not_evidence a artifact_digest card_bytes differs))
        (λ same.
          check_contents-Justifies card a artifact_digest card_bytes sole_card sole_attestation
            declared encoded (mismatch_sound a artifact_digest card_bytes same))

  select_card :
      (card : PlatformCard)
      → the_only
          (missing_capsule input.capsule)
          (duplicate_provider input.capsule)
          (keep_if of_capsule input.cards)
        ≡ ok card
      → SoleCard card
  select_card card e =
      subst
        (Selected of_capsule (missing_capsule input.capsule) (duplicate_provider input.capsule)
          input.cards)
        e (the_only-Selected of_capsule _ _ input.cards)

  no_select_card :
      (e : BundleRefusal)
      → the_only
          (missing_capsule input.capsule)
          (duplicate_provider input.capsule)
          (keep_if of_capsule input.cards)
        ≡ err e
      → Reason e
  no_select_card e h =
      elim (subst
        (Selected of_capsule (missing_capsule input.capsule) (duplicate_provider input.capsule)
          input.cards)
        h (the_only-Selected of_capsule _ _ input.cards)) [
          | inl (is_missing, absent) ↦ no_card is_missing absent
          | inr (is_duplicate, several) ↦ many_cards is_duplicate several
        ]

  select_attestation :
      (a : CapsuleAttestation)
      → the_only
          (missing_attestation input.capsule)
          (duplicate_attestation input.capsule)
          (keep_if about_capsule input.attestations)
        ≡ ok a
      → SoleAttestation a
  select_attestation a e =
      subst
        (Selected about_capsule (missing_attestation input.capsule)
          (duplicate_attestation input.capsule) input.attestations)
        e (the_only-Selected about_capsule _ _ input.attestations)

  no_select_attestation :
      (e : BundleRefusal)
      → the_only
          (missing_attestation input.capsule)
          (duplicate_attestation input.capsule)
          (keep_if about_capsule input.attestations)
        ≡ err e
      → Reason e
  no_select_attestation e h =
      elim (subst
        (Selected about_capsule (missing_attestation input.capsule)
          (duplicate_attestation input.capsule) input.attestations)
        h (the_only-Selected about_capsule _ _ input.attestations)) [
          | inl (is_missing, absent) ↦ no_attestation is_missing absent
          | inr (is_duplicate, several) ↦ many_attestations is_duplicate several
        ]

-- Whatever is composed, the outcome is justified: a bundle comes only from the one card and the one
-- attestation of the capsule, whose digests are those of the declared artifact and of the card, with
-- every required service offered, no identity of a content repeated and no capability outside the
-- allowed set; it holds exactly that card, that attestation and the given contents. Each refusal comes
-- with its reason.
pub compose_bundle-Justifies :
    (to_vec : PlatformCard → Option (List ℕ)) (input : BundleComposition)
    → Justifies to_vec input (compose_bundle to_vec input)
unfolding compose_bundle
compose_bundle-Justifies to_vec input =
    let P = Justifies to_vec input in
    bind_rule P _ _
      (λ card selected.
        bind_rule P _ _
          (λ a attested.
            ok_or_rule P _ _ _
              (λ artifact_digest declared.
                ok_or_rule P _ _ _
                  (λ card_bytes encoded.
                    evidence-Justifies to_vec input card a artifact_digest card_bytes
                      (select_card to_vec input card selected)
                      (select_attestation to_vec input a attested) declared encoded)
                  (λ failed. not_encoded card (select_card to_vec input card selected) refl failed))
              (λ absent. undeclared refl absent))
          (λ e refused. no_select_attestation to_vec input e refused))
      (λ e refused. no_select_card to_vec input e refused)

-- Every composition that meets the conditions is composed, into the bundle that the conditions name.
pub compose_bundle_complete :
    (to_vec : PlatformCard → Option (List ℕ)) (input : BundleComposition) (card : PlatformCard)
    (a : CapsuleAttestation) (artifact_digest : String)
    → Admits to_vec input card a artifact_digest
    → compose_bundle to_vec input ≡ ok (bundle_of input card a artifact_digest)
unfolding compose_bundle
compose_bundle_complete to_vec input card a artifact_digest h = rw (
  keep_if-Sole _ input.cards card h.sole_card,
  keep_if-Sole _ input.attestations a h.sole_attestation,
  h.declared,
  h.encoded,
  mismatch_complete to_vec input a artifact_digest h.card_bytes h.evidence,
  check_services_ok card input.required_services h.services,
  check_contents_ok input.allowed_capabilities (contents input) h.distinct h.confined,
)
