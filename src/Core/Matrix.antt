-- ===== src/Core/Matrix.antt =====
-- `platform_support_matrix` of crates/sim-platform-core/src/records.rs: the generated support rows.
pub mod Rows
pub mod Laws
use sim_platform.Prelude.{String, Bool, List, [], ◌∷◌, ◌++◌, map, if◌then◌else◌, ◌==◌, text_key}
use sim_platform.Prelude.Sort.{sort_by}
use sim_platform.Prelude.Text.{text_before}
use sim_platform.Core.Records.{OpenSymbol, ServiceOffer}
use sim_platform.Core.Bundle.{ComposedBundle}

pub record PlatformSupportRow : Type 0 where
  pub capsule : OpenSymbol
  pub service : OpenSymbol
  pub contract_provenance : String
  pub execution_evidence : String

abbrev pub row_of : ComposedBundle → ServiceOffer → PlatformSupportRow
row_of bundle offer = record {
  capsule = bundle.card.site;
  service = offer.service;
  contract_provenance = bundle.card.provenance.content_digest;
  execution_evidence = bundle.attestation.evidence.result_digest;
}

abbrev pub rows_of : List ComposedBundle → List PlatformSupportRow
rows_of [] = []
rows_of (bundle ∷ rest) = map (row_of bundle) bundle.card.services ++ rows_of rest

-- The order of the pairs (capsule, service).
unfoldable pub row_before : PlatformSupportRow → PlatformSupportRow → Bool
row_before left right =
    if left.capsule == right.capsule
    then text_before left.service right.service
    else text_before left.capsule right.capsule

unfoldable pub platform_support_matrix : List ComposedBundle → List PlatformSupportRow
unfolding sort_by row_before
platform_support_matrix bundles = sort_by row_before (rows_of bundles)
