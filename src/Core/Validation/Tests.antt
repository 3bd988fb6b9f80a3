-- ===== src/Core/Validation/Tests.antt =====
-- Runs of crates/sim-platform-core/src/validation.rs on concrete manifests, and the theorems at them.
use sim_platform.Prelude.{none, some, [], ◌∷◌, ◌≡◌, ◌↔◌, refl, ok, err}
use sim_platform.Core.Validation.{
  sim_pure, platform_bootstrap, ValidationContext, CapsuleManifest, BundleManifest,
  duplicate_provider, undeclared_shell, parse, require_schema, require_nonempty,
  require_all_nonempty, check_capsules, validate_capsules, validate_bundle,
}
use sim_platform.Core.Validation.Capsules.{IsCapsuleSet}
use sim_platform.Core.Validation.Ownership.{IsOwned, validate_capsules_iff}

abbrev linux : CapsuleManifest
linux = record {
  schema = "sim.platform-capsule/v1";
  provider = "platform/linux";
  services = [];
  shells = "web" ∷ [];
  loader_kinds = "native" ∷ [];
}

abbrev desktop : BundleManifest
desktop = record {
  schema = "sim.platform-bundle/v1";
  capsule = "linux";
  artifact = "desktop";
  loader = "native";
  artifact_content = "fnv1a64:0";
  entry = "sim_native_abi_v1";
  shell = some "web";
}

abbrev context : ValidationContext
context = record {
  owner_repository = "sim-platform";
  declaring_repository = "sim-platform";
  bootstrap_packages = "sim-platform-bootstrap" ∷ [];
  product_closure_roles = sim_pure ∷ platform_bootstrap ∷ [];
}

parse_missing : parse none ≡ ok sim_pure
unfolding parse
parse_missing = refl

validate_desktop : validate_bundle desktop linux ≡ ok tt
unfolding validate_bundle require_schema require_nonempty require_all_nonempty
validate_desktop = refl

validate_foreign_shell :
    validate_bundle (record desktop { shell = some "tui" }) linux ≡ err (undeclared_shell "tui")
unfolding validate_bundle require_schema require_nonempty require_all_nonempty
validate_foreign_shell = refl

validate_twice :
    validate_capsules context (linux ∷ linux ∷ []) ≡ err (duplicate_provider "platform/linux")
unfolding validate_capsules check_capsules require_schema require_nonempty
validate_twice = refl

validate_capsules_iff_example :
    (validate_capsules context (linux ∷ []) ≡ ok tt) ↔ (IsOwned context × IsCapsuleSet (linux ∷ []))
validate_capsules_iff_example = validate_capsules_iff context (linux ∷ [])
