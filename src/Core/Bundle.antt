-- ===== src/Core/Bundle.antt =====
-- `compose_bundle` of crates/sim-platform-core/src/records.rs: one capsule, one card, one attestation
-- and a closed set of contents, or a typed refusal.
pub mod Checks
pub mod Contents
pub mod Laws
use sim_platform.Prelude.{
  ℕ, String, Bool, true, false, not, ◌||◌, Option, none, some, List, [], ◌∷◌, if◌then◌else◌, Result,
  ok, err, refuse_if, ok_or, ◌>>=◌, ◌>>◌, ◌==◌, text_key, keep_if, find, any, contains,
}
use sim_platform.Prelude.Maps.{get}
use sim_platform.Core.Records.{OpenSymbol, PlatformCard, ExecutionEvidence}
use sim_platform.Core.Digest.{stable_digest}

pub record BundleContent : Type 0 where
  pub id : OpenSymbol
  pub content_digest : String
  pub capabilities : List OpenSymbol

pub record CapsuleAttestation : Type 0 where
  pub capsule : OpenSymbol
  pub artifact_digest : String
  pub card_digest : String
  pub evidence : ExecutionEvidence

pub record CapsuleArtifact : Type 0 where
  pub capsule : OpenSymbol
  pub content_digest : String

pub record LibraryLoadPlan : Type 0 where
  pub application : BundleContent
  pub libraries : List BundleContent

pub record PureBootEnvelope : Type 0 where
  pub schema : OpenSymbol
  pub capsule : OpenSymbol
  pub bootstrap : OpenSymbol
  pub load_plan : LibraryLoadPlan

pub record ComposedBundle : Type 0 where
  pub bootstrap : PureBootEnvelope
  pub capsule_artifact : CapsuleArtifact
  pub card : PlatformCard
  pub attestation : CapsuleAttestation

-- `declared_artifacts` is a map from its pairs, `allowed_capabilities` a set from its members.
pub record BundleComposition : Type 0 where
  pub capsule : OpenSymbol
  pub application : BundleContent
  pub libraries : List BundleContent
  pub cards : List PlatformCard
  pub attestations : List CapsuleAttestation
  pub declared_artifacts : List (OpenSymbol × String)
  pub allowed_capabilities : List OpenSymbol
  pub required_services : List OpenSymbol

pub data BundleRefusal : Type 0 where
  missing_capsule duplicate_provider missing_attestation duplicate_attestation :
      OpenSymbol → BundleRefusal
  undeclared_artifact invalid_card_encoding evidence_content_mismatch : OpenSymbol → BundleRefusal
  capability_escalation : (content capability : OpenSymbol) → BundleRefusal
  missing_required_service duplicate_content : OpenSymbol → BundleRefusal

-- `match matching.as_slice()`: no match, one, or several.
unfoldable pub the_only :
    {A : Type 0} → BundleRefusal → BundleRefusal → List A → Result BundleRefusal A
the_only missing duplicate [] = err missing
the_only missing duplicate (a ∷ []) = ok a
the_only missing duplicate (a ∷ b ∷ rest) = err duplicate

-- The loop over `required_services`.
unfoldable pub check_services : PlatformCard → List OpenSymbol → Result BundleRefusal (Unit {0})
check_services card [] = ok tt
check_services card (service ∷ rest) =
    if any (λ offer. offer.service == service) card.services
    then check_services card rest
    else err (missing_required_service service)

-- The loop over the application and the libraries, with the identities seen so far.
unfoldable pub check_contents :
    List OpenSymbol → List OpenSymbol → List BundleContent → Result BundleRefusal (Unit {0})
check_contents allowed seen [] = ok tt
check_contents allowed seen (content ∷ rest) =
    let later = check_contents allowed (content.id ∷ seen) rest in
    if contains seen content.id
    then err (duplicate_content content.id)
    else elim (find (λ capability. not (contains allowed capability)) content.capabilities) [
      | some capability ↦ err (capability_escalation content.id capability)
      | none ↦ later
    ]

abbrev pub contents : BundleComposition → List BundleContent
contents input = input.application ∷ input.libraries

abbrev pub bundle_of :
    BundleComposition → PlatformCard → CapsuleAttestation → String → ComposedBundle
bundle_of input card attestation artifact_digest = record {
  bootstrap = record {
    schema = "boot/envelope/v1";
    capsule = input.capsule;
    bootstrap = "bootstrap/sim-native-abi-v1";
    load_plan = record { application = input.application; libraries = input.libraries };
  };
  capsule_artifact = record { capsule = input.capsule; content_digest = artifact_digest };
  card = card;
  attestation = attestation;
}

-- `serde_json::to_vec` of a card is a parameter: `none` is its error.
module _ (to_vec : PlatformCard → Option (List ℕ)) where
  unfoldable pub compose_bundle : BundleComposition → Result BundleRefusal ComposedBundle
  unfolding the_only check_services check_contents
  compose_bundle input = do
    card ←
        the_only (missing_capsule input.capsule) (duplicate_provider input.capsule)
          (keep_if (λ card. card.site == input.capsule) input.cards)
    attestation ←
        the_only (missing_attestation input.capsule) (duplicate_attestation input.capsule)
          (keep_if (λ item. item.capsule == input.capsule) input.attestations)
    artifact_digest ←
        ok_or (get input.capsule input.declared_artifacts) (undeclared_artifact input.capsule)
    card_bytes ← ok_or (to_vec card) (invalid_card_encoding input.capsule)
    refuse_if
        (not (attestation.artifact_digest == artifact_digest)
          || not (attestation.card_digest == stable_digest card_bytes))
        (evidence_content_mismatch input.capsule)
    check_services card input.required_services
    check_contents input.allowed_capabilities [] (contents input)
    ok (bundle_of input card attestation artifact_digest)
