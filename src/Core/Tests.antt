-- ===== src/Core/Tests.antt =====
-- Runs of crates/sim-platform-core on concrete inputs, and the theorems at them.
use sim_platform.Prelude.{
  ℕ, String, true, false, Option, some, List, [], ◌∷◌, ◌++◌, length, keep_if, ◌↔◌, ◌≡◌, inl, inr,
  refl, arith, ok, err, text_key,
}
use sim_platform.Prelude.Text.{text_before}
use sim_platform.Prelude.Maps.{get, insert}
use sim_platform.Core.Records.{
  FactPort, EvidenceLevel, ServiceOffer, PlatformCard, Requirement, PlatformRequest, ServiceBinding,
  ExecutionEvidence, invalid_symbol,
}
use sim_platform.Core.Symbol
use mathlib.Core.List.{Memᴰ}
use sim_platform.Core.Matrix.Rows.{IsOffered}
use sim_platform.Core.Matrix.{PlatformSupportRow, row_of, platform_support_matrix}
use sim_platform.Core.Matrix.Laws.{IsOrdered, is_about, platform_support_matrix-Lists}
use sim_platform.Core.Digest.{stable_digest}
use sim_platform.Core.Require.{
  resolved, refused, bound_of, receipt_of, refusal_of, platform_require,
}
use sim_platform.Core.Require.Laws.{Explains, platform_require-Explains, platform_require_complete}
use sim_platform.Core.Bundle.{
  BundleContent, CapsuleAttestation, BundleComposition, ComposedBundle, duplicate_content,
  capability_escalation, bundle_of, compose_bundle,
}
use sim_platform.Core.Bundle.Laws.{Justifies, compose_bundle-Justifies, compose_bundle_complete}

symbols :
    (Symbol.new "platform/site" ≡ ok "platform/site")
    × (Symbol.new "/site" ≡ err (invalid_symbol "/site"))
    × (Symbol.new "a b/c" ≡ err (invalid_symbol "a b/c"))
    × (Symbol.new " " ≡ err (invalid_symbol " "))
unfolding Symbol.new
symbols = (refl, refl, refl, refl)

abbrev clock_offer : EvidenceLevel → ServiceOffer
clock_offer level = record {
  service = "service/clock";
  port = FactPort.wall_clock;
  evidence = level;
}

-- The second offer of the clock replaces the first.
abbrev card : PlatformCard
card = record {
  schema = "platform/card";
  site = "platform/site/model";
  services = clock_offer EvidenceLevel.attested ∷ clock_offer EvidenceLevel.modeled ∷ [];
  provenance = record {
    contract = "contract/model";
    content_digest = "d";
    issuer = "issuer/model";
  };
}

abbrev to_vec : PlatformCard → Option (List ℕ)
to_vec c = some (1 ∷ 2 ∷ [])

abbrev wants : String → List String → EvidenceLevel → Requirement
wants service substitutes level = record {
  service = service;
  substitutes = substitutes;
  optional = false;
  minimum_evidence = level;
}

abbrev asks : EvidenceLevel → PlatformRequest
asks level = record {
  request = "request/one";
  requirements = wants "service/time" ("service/clock" ∷ []) level ∷ [];
}

abbrev clock_binding : ServiceBinding
clock_binding = record {
  requested = "service/time";
  bound = "service/clock";
  port = FactPort.wall_clock;
  evidence = EvidenceLevel.modeled;
}

require_tests :
    (platform_require to_vec card (asks EvidenceLevel.modeled)
      ≡ resolved (bound_of card (asks EvidenceLevel.modeled) (clock_binding ∷ [])) (
          receipt_of card
            (asks EvidenceLevel.modeled)
            (clock_binding ∷ [])
            (stable_digest (1 ∷ 2 ∷ []))))
    × (platform_require to_vec card (asks EvidenceLevel.attested)
        ≡ refused (
            refusal_of
              (asks EvidenceLevel.attested)
              (wants "service/time" ("service/clock" ∷ []) EvidenceLevel.attested)
              true))
unfolding platform_require get insert text_before
require_tests = (refl, refl)

platform_require-Explains_example :
    Explains to_vec card
      (asks EvidenceLevel.attested)
      (platform_require to_vec card (asks EvidenceLevel.attested))
platform_require-Explains_example =
    platform_require-Explains to_vec card (asks EvidenceLevel.attested)

platform_require_complete_example :
    platform_require to_vec card (asks EvidenceLevel.modeled)
    ≡ resolved (bound_of card (asks EvidenceLevel.modeled) (clock_binding ∷ [])) (
        receipt_of card
          (asks EvidenceLevel.modeled)
          (clock_binding ∷ [])
          (stable_digest (1 ∷ 2 ∷ [])))
platform_require_complete_example =
    platform_require_complete to_vec card (asks EvidenceLevel.modeled) (clock_binding ∷ [])
      (1 ∷ 2 ∷ []) refl
      (inl (
        clock_offer EvidenceLevel.modeled,
        [],
        inr (λ offer found. cc, inl (refl, omega arith)),
        refl,
        refl,
      ))

abbrev evidence : ExecutionEvidence
evidence = record {
  execution = "execution/one";
  activation = "activation/one";
  request_digest = "r";
  result_digest = "s";
  ledger_ref = "ledger/one";
}

abbrev attestation : CapsuleAttestation
attestation = record {
  capsule = "platform/site/model";
  artifact_digest = "sha256:1";
  card_digest = stable_digest (1 ∷ 2 ∷ []);
  evidence = evidence;
}

abbrev content : String → List String → BundleContent
content id capabilities = record {
  id = id;
  content_digest = "sha256:2";
  capabilities = capabilities;
}

abbrev composition : List BundleContent → BundleComposition
composition libraries = record {
  capsule = "platform/site/model";
  application = content "app/one" ("cap/read" ∷ []);
  libraries = libraries;
  cards = card ∷ [];
  attestations = attestation ∷ [];
  declared_artifacts = ("platform/site/model", "sha256:1") ∷ [];
  allowed_capabilities = "cap/read" ∷ [];
  required_services = "service/clock" ∷ [];
}

bundle_tests :
    (compose_bundle to_vec (composition (content "lib/one" [] ∷ []))
      ≡ ok (bundle_of (composition (content "lib/one" [] ∷ [])) card attestation "sha256:1"))
    × (compose_bundle to_vec (composition (content "app/one" [] ∷ []))
        ≡ err (duplicate_content "app/one"))
    × (compose_bundle to_vec (composition (content "lib/one" ("cap/write" ∷ []) ∷ []))
        ≡ err (capability_escalation "lib/one" "cap/write"))
unfolding compose_bundle get stable_digest
bundle_tests = (refl, refl, refl)

compose_bundle-Justifies_example :
    Justifies to_vec (composition []) (compose_bundle to_vec (composition []))
compose_bundle-Justifies_example = compose_bundle-Justifies to_vec (composition [])

compose_bundle_complete_example :
    compose_bundle to_vec (composition [])
    ≡ ok (bundle_of (composition []) card attestation "sha256:1")
unfolding get
compose_bundle_complete_example =
    compose_bundle_complete to_vec (composition []) card attestation "sha256:1" (record {
      sole_card = inl (refl, refl, tt);
      sole_attestation = inl (refl, refl, tt);
      declared = refl;
      card_bytes = 1 ∷ 2 ∷ [];
      encoded = refl;
      evidence = (refl, refl);
      services = (inl refl, tt);
      distinct = (tt, tt);
      confined = ((inl refl, tt), tt);
    })

-- A bundle whose card lists two services, out of order.
abbrev two_services : PlatformCard
two_services = record card {
  services =
      record (clock_offer EvidenceLevel.modeled) { service = "service/timer" }
      ∷ clock_offer EvidenceLevel.attested
      ∷ [];
}

abbrev shipped : ComposedBundle
shipped = bundle_of (composition []) two_services attestation "sha256:1"

support_rows :
    platform_support_matrix (shipped ∷ [])
    ≡ row_of shipped (clock_offer EvidenceLevel.attested)
      ∷ row_of shipped (record (clock_offer EvidenceLevel.modeled) { service = "service/timer" })
      ∷ []
unfolding platform_support_matrix text_before
support_rows = refl

platform_support_matrix-Lists_example :
    ((row : PlatformSupportRow)
      → Memᴰ row (platform_support_matrix (shipped ∷ [])) ↔ IsOffered (shipped ∷ []) row)
    × (length (platform_support_matrix (shipped ∷ [])) ≡ 2)
    × IsOrdered (platform_support_matrix (shipped ∷ []))
    × ((more : List ComposedBundle) (capsule service : String)
        → keep_if (is_about capsule service) (platform_support_matrix (shipped ∷ [] ++ more))
          ≡ keep_if (is_about capsule service) (platform_support_matrix (shipped ∷ []))
            ++ keep_if (is_about capsule service) (platform_support_matrix more))
platform_support_matrix-Lists_example = platform_support_matrix-Lists (shipped ∷ [])
