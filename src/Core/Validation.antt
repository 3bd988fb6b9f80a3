-- ===== src/Core/Validation.antt =====
-- crates/sim-platform-core/src/validation.rs: package roles, and the checks of capsule and bundle
-- manifests.
pub mod Laws
pub mod Capsules
pub mod Ownership
mod Tests
use sim_platform.Prelude.{
  String, Bool, true, false, not, Option, none, some, List, [], ◌∷◌, if◌then◌else◌, ◌==◌, text_key,
  contains, find, Eq, ◌≡◌, refl, ◌↔◌, Result, ok, err, refuse_if, map_err, ◌>>=◌, ◌>>◌, arith, any,
}
use sim_platform.Prelude.Text.{is_blank}

pub data PackageRole : Type 0 where
  sim_pure platform_bootstrap platform_capsule host_tool : PackageRole

pub record ValidationContext : Type 0 where
  pub owner_repository : String
  pub declaring_repository : String
  pub bootstrap_packages : List String
  pub product_closure_roles : List PackageRole

pub record CapsuleManifest : Type 0 where
  pub schema : String
  pub provider : String
  pub services : List String
  pub shells : List String
  pub loader_kinds : List String

pub record BundleManifest : Type 0 where
  pub schema : String
  pub capsule : String
  pub artifact : String
  pub loader : String
  pub artifact_content : String
  pub entry : String
  pub shell : Option String

pub data ValidationError : Type 0 where
  parse_error : String → ValidationError
  wrong_schema : (expected found : String) → ValidationError
  capsule_outside_owner : ValidationError
  duplicate_provider : String → ValidationError
  undeclared_shell : String → ValidationError
  non_canonical_bootstrap : String → ValidationError
  host_tool_in_product_closure : ValidationError
  unknown_role : String → ValidationError
  empty_field : String → ValidationError
  wrong_entry : String → ValidationError
  unsupported_loader : String → ValidationError

abbrev pub unwrap_or : Option String → String → String
unwrap_or none d = d
unwrap_or (some s) d = s

-- `PackageRole::parse`
unfoldable pub parse : Option String → Result ValidationError PackageRole
parse value =
    let name = unwrap_or value "sim-pure" in
    if name == "sim-pure"
    then ok sim_pure
    else if name == "platform-bootstrap"
    then ok platform_bootstrap
    else if name == "platform-capsule"
    then ok platform_capsule
    else if name == "host-tool"
    then ok host_tool
    else err (unknown_role name)

-- `toml::from_str` reads a manifest, or returns the text of its error.
module _ {M : Type 0} (from_str : String → Result String M) where
  -- `parse_capsule` and `parse_bundle`
  abbrev pub parse_manifest : String → Result ValidationError M
  parse_manifest source = map_err parse_error (from_str source)

unfoldable pub require_schema : String → String → Result ValidationError (Unit {0})
require_schema value expected =
    if value == expected then ok tt else err (wrong_schema expected value)

unfoldable pub require_nonempty : String → String → Result ValidationError (Unit {0})
unfolding is_blank
require_nonempty value field = if is_blank value then err (empty_field field) else ok tt

-- The first bootstrap package of another name.
abbrev pub first_foreign : List String → Option String
first_foreign names = find (λ name. not (name == "sim-platform-bootstrap")) names

abbrev pub refuse_bootstrap : Option String → Result ValidationError (Unit {0})
refuse_bootstrap none = ok tt
refuse_bootstrap (some name) = err (non_canonical_bootstrap name)

abbrev pub is_host_tool : PackageRole → Bool
is_host_tool host_tool = true
is_host_tool _ = false

-- The loop over the capsules; `providers` are the identities met so far.
unfoldable pub check_capsules :
    List String → List CapsuleManifest → Result ValidationError (Unit {0})
check_capsules providers [] = ok tt
check_capsules providers (capsule ∷ capsules) =
    let rest = check_capsules (capsule.provider ∷ providers) capsules in
    require_schema capsule.schema "sim.platform-capsule/v1"
    >> (require_nonempty capsule.provider "provider"
        >> (refuse_if (contains providers capsule.provider) (duplicate_provider capsule.provider)
            >> rest))

unfoldable pub validate_capsules :
    ValidationContext → List CapsuleManifest → Result ValidationError (Unit {0})
validate_capsules context capsules = do
  refuse_if (not (context.declaring_repository == context.owner_repository)) capsule_outside_owner
  refuse_bootstrap (first_foreign context.bootstrap_packages)
  refuse_if (any is_host_tool context.product_closure_roles) host_tool_in_product_closure
  check_capsules [] capsules

-- The loop over the fields that a bundle must fill.
unfoldable pub require_all_nonempty : List (String × String) → Result ValidationError (Unit {0})
require_all_nonempty [] = ok tt
require_all_nonempty ((value, field) ∷ fields) =
    let rest = require_all_nonempty fields in require_nonempty value field >> rest

abbrev pub required_fields : BundleManifest → List (String × String)
required_fields bundle =
    (bundle.capsule, "capsule")
    ∷ (bundle.artifact, "artifact")
    ∷ (bundle.artifact_content, "artifact_content")
    ∷ (bundle.loader, "loader")
    ∷ []

abbrev pub check_shell : Option String → List String → Result ValidationError (Unit {0})
check_shell none shells = ok tt
check_shell (some shell) shells = refuse_if (not (contains shells shell)) (undeclared_shell shell)

unfoldable pub validate_bundle :
    BundleManifest → CapsuleManifest → Result ValidationError (Unit {0})
validate_bundle bundle capsule = do
  require_schema bundle.schema "sim.platform-bundle/v1"
  require_all_nonempty (required_fields bundle)
  refuse_if (not (bundle.entry == "sim_native_abi_v1")) (wrong_entry bundle.entry)
  refuse_if (not (contains capsule.loader_kinds bundle.loader)) (unsupported_loader bundle.loader)
  check_shell bundle.shell capsule.shells
