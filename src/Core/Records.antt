-- ===== src/Core/Records.antt =====
-- The shared record shapes of crates/sim-platform-core/src/records.rs.
use sim_platform.Prelude.{ℕ, Bool, String, List, leb}

-- `OpenSymbol` is a transparent newtype of `String`: it is modelled by the text that it holds.
abbrev pub OpenSymbol : Type 0
OpenSymbol = String

pub data FactPort : Type 0 where
  wall_clock monotonic_clock timer entropy locale timezone lifecycle_pressure machine_limits :
      FactPort

pub data EvidenceLevel : Type 0 where
  declared modeled measured attested : EvidenceLevel

-- The derived order: the declaration order of the variants.
abbrev pub rank : EvidenceLevel → ℕ
rank declared = 0
rank modeled = 1
rank measured = 2
rank attested = 3

abbrev pub at_least : EvidenceLevel → EvidenceLevel → Bool
at_least offered minimum = leb (rank minimum) (rank offered)

pub record ServiceOffer : Type 0 where
  pub service : OpenSymbol
  pub port : FactPort
  pub evidence : EvidenceLevel

pub record ContractProvenance : Type 0 where
  pub contract : OpenSymbol
  pub content_digest : String
  pub issuer : OpenSymbol

pub record PlatformCard : Type 0 where
  pub schema : OpenSymbol
  pub site : OpenSymbol
  pub services : List ServiceOffer
  pub provenance : ContractProvenance

pub record Requirement : Type 0 where
  pub service : OpenSymbol
  pub substitutes : List OpenSymbol
  pub optional : Bool
  pub minimum_evidence : EvidenceLevel

pub record PlatformRequest : Type 0 where
  pub request : OpenSymbol
  pub requirements : List Requirement

pub record ServiceBinding : Type 0 where
  pub requested : OpenSymbol
  pub bound : OpenSymbol
  pub port : FactPort
  pub evidence : EvidenceLevel

pub record BoundServices : Type 0 where
  pub request : OpenSymbol
  pub site : OpenSymbol
  pub bindings : List ServiceBinding

pub data RefusalKind : Type 0 where
  unsupported denied unavailable suspended invalid budget_exhausted cancelled provider_fault :
      RefusalKind

pub record ResolutionRefusal : Type 0 where
  pub request : OpenSymbol
  pub service : OpenSymbol
  pub kind : RefusalKind
  pub detail : String

pub record ResolutionReceipt : Type 0 where
  pub id : OpenSymbol
  pub request : OpenSymbol
  pub site : OpenSymbol
  pub bindings : List ServiceBinding
  pub card_digest : String

pub data Lifecycle : Type 0 where
  created ready pressured suspended stopped : Lifecycle

pub record ExecutionEvidence : Type 0 where
  pub execution : OpenSymbol
  pub activation : OpenSymbol
  pub request_digest : String
  pub result_digest : String
  pub ledger_ref : OpenSymbol

pub data PlatformRecordError : Type 0 where
  invalid_symbol : String → PlatformRecordError
  duplicate_offer : OpenSymbol → PlatformRecordError
