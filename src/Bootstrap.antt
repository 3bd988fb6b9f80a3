-- ===== src/Bootstrap.antt =====
-- crates/sim-platform-bootstrap/src/bootstrap.rs: the admission of one adjacent capsule.
pub mod Laws
pub mod Admission
pub mod Bounds
mod Tests
use Prim.Native.String
use sim_platform.Prelude.{
  ℕ, ◌*◌, ◌^◌, String, Bool, true, false, not, ◌||◌, Option, none, some, List, [], ◌∷◌, ◌++◌, ltb,
  eqb, if◌then◌else◌, ◌==◌, text_key, length, find, any, add, contains, Result, ok, err, map_err,
  ok_or, refuse_if, ◌>>=◌, ◌>>◌,
}
use sim_platform.Core.Validation.{
  CapsuleManifest, BundleManifest, ValidationError, parse_manifest, validate_bundle,
}

abbrev pub max_descriptor_bytes : ℕ
max_descriptor_bytes = 16 * 1024

abbrev pub max_capsule_card_bytes : ℕ
max_capsule_card_bytes = 16 * 1024

abbrev pub max_artifact_bytes : ℕ
max_artifact_bytes = 512 * 1024 * 1024

abbrev pub max_envelope_items : ℕ
max_envelope_items = 256

abbrev pub max_envelope_item_bytes : ℕ
max_envelope_item_bytes = 16 * 1024

-- The data of a file, where the path names one: whether it is a regular file, and its length.
pub record Metadata : Type 0 where
  pub is_file : Bool
  pub len : ℕ

-- What the bootstrap uses of the standard library, of the hash crate, of the TOML reader and of the
-- loaders of `sim_kernel`. A `Cx` is the kernel's context, which loading changes.
pub record World : Type 1 where
  pub FilePath : Type 0
  pub OsString : Type 0
  pub Source : Type 0
  pub Loader : Type 0
  pub Cx : Type 0
  pub Library : Type 0
  pub parent : FilePath → Option FilePath
  pub join : FilePath → String → FilePath
  pub display : FilePath → String
  pub path_bytes : FilePath → ℕ
  pub os_bytes : OsString → ℕ
  pub text_bytes : String → ℕ
  pub is_absolute : String → Bool
  pub component_count : String → ℕ
  pub metadata : FilePath → Result String Metadata
  pub read : FilePath → Result String (List ℕ)
  pub from_utf8 : List ℕ → Result String String
  pub capsule_from_str : String → Result String CapsuleManifest
  pub bundle_from_str : String → Result String BundleManifest
  pub show_error : ValidationError → String
  pub sha256_hex : List ℕ → String
  pub path_source : FilePath → Source
  pub can_load : Loader → Source → Bool
  pub load_library : Loader → Cx → Source → Result String Library × Cx

module _ (world : World) where
  pub record BootstrapStdio : Type 0 where
    pub stdin : List ℕ
    pub stdout : List ℕ
    pub stderr : List ℕ

  pub record BootstrapConfigRoots : Type 0 where
    pub home : Option world.FilePath
    pub work : world.FilePath

  pub record BootstrapEnvelope : Type 0 where
    pub argv : List world.OsString
    pub stdio : BootstrapStdio
    pub bundle_identity : String
    pub capsule_card : CapsuleManifest
    pub preopened_roots : List world.FilePath
    pub config_roots : BootstrapConfigRoots
    pub kernel_seed : ℕ

  pub record BootstrappedCapsule : Type 0 where
    pub envelope : BootstrapEnvelope
    pub capsule : world.Library

  -- The allowed services are a set: only membership is read.
  pub record BootstrapPolicy : Type 0 where
    pub allowed_services : List String

  pub data BootstrapError : Type 0 where
    read_error : (path : world.FilePath) (detail : String) → BootstrapError
    envelope_bound : String → BootstrapError
    invalid_adjacent_name : String → BootstrapError
    invalid_manifest : String → BootstrapError
    content_mismatch : (expected actual : String) → BootstrapError
    over_capable : String → BootstrapError
    native : String → BootstrapError

  abbrev pub home_roots : Option world.FilePath → List world.FilePath
  home_roots none = []
  home_roots (some home) = home ∷ []

  -- The roots that `validate` goes through, in order.
  abbrev pub all_roots : BootstrapEnvelope → List world.FilePath
  all_roots self =
      self.preopened_roots ++ home_roots self.config_roots.home ++ self.config_roots.work ∷ []

  -- A slice is shorter than 2^64, so its length as a `u64` is its length.
  abbrev pub is_long_frame : List ℕ → Bool
  is_long_frame frame = ltb max_artifact_bytes (length frame)

  -- `BootstrapEnvelope::validate`
  unfoldable pub validate : BootstrapEnvelope → Result BootstrapError (Unit {0})
  validate self = do
    refuse_if
        (ltb max_envelope_items (length self.argv)
          || ltb max_envelope_items (length self.preopened_roots))
        (envelope_bound "too many argv or preopened-root items")
    refuse_if
        (eqb (world.text_bytes self.bundle_identity) 0
          || ltb max_envelope_item_bytes (world.text_bytes self.bundle_identity))
        (envelope_bound "invalid bundle identity")
    refuse_if (any (λ arg. ltb max_envelope_item_bytes (world.os_bytes arg)) self.argv)
        (envelope_bound "argument is too large")
    refuse_if (any (λ root. ltb max_envelope_item_bytes (world.path_bytes root)) (all_roots self))
        (envelope_bound "preopened root is too large")
    refuse_if (any is_long_frame (self.stdio.stdin ∷ self.stdio.stdout ∷ self.stdio.stderr ∷ []))
        (envelope_bound "stdio frame is too large")
    ok tt

  unfoldable pub require_plain_name : String → Result BootstrapError (Unit {0})
  require_plain_name name =
      if eqb (world.text_bytes name) 0
        || world.is_absolute name
        || not (eqb (world.component_count name) 1)
      then err (invalid_adjacent_name name)
      else ok tt

  unfoldable pub read_bounded : world.FilePath → ℕ → Result BootstrapError (List ℕ)
  read_bounded path limit = do
    data_of ← map_err (read_error path) (world.metadata path)
    refuse_if (not data_of.is_file || ltb limit data_of.len)
        (envelope_bound "adjacent input is not a bounded regular file")
    map_err (read_error path) (world.read path)

  unfoldable pub read_bundle : world.FilePath → Result BootstrapError BundleManifest
  read_bundle adjacent = do
    bytes ← read_bounded (world.join adjacent "sim.platform-bundle.toml") max_descriptor_bytes
    text ← map_err invalid_manifest (world.from_utf8 bytes)
    map_err (λ e. invalid_manifest (world.show_error e)) (parse_manifest world.bundle_from_str text)

  unfoldable pub read_capsule : world.FilePath → String → Result BootstrapError CapsuleManifest
  read_capsule adjacent name = do
    bytes ← read_bounded (world.join adjacent name) max_capsule_card_bytes
    text ← map_err invalid_manifest (world.from_utf8 bytes)
    map_err (λ e. invalid_manifest (world.show_error e))
        (parse_manifest world.capsule_from_str text)

  -- The first service that the policy does not allow.
  abbrev pub refuse_service : Option String → Result BootstrapError (Unit {0})
  refuse_service none = ok tt
  refuse_service (some service) = err (over_capable service)

  abbrev pub first_foreign_service : BootstrapPolicy → CapsuleManifest → Option String
  first_foreign_service policy capsule =
      find (λ service. not (contains policy.allowed_services service)) capsule.services

  abbrev pub content_name : List ℕ → String
  content_name artifact = String.◌++◌ "sha256:" (world.sha256_hex artifact)

  -- The checks in front of the artifact: the manifests that were admitted.
  unfoldable pub admit_manifests :
      world.FilePath → BootstrapPolicy → Result BootstrapError (BundleManifest × CapsuleManifest)
  admit_manifests adjacent policy = do
    bundle ← read_bundle adjacent
    require_plain_name bundle.capsule
    require_plain_name bundle.artifact
    capsule ← read_capsule adjacent bundle.capsule
    map_err (λ e. invalid_manifest (world.show_error e)) (validate_bundle bundle capsule)
    refuse_if (not (eqb (length (add capsule.provider [])) 1))
        (invalid_manifest "duplicate capsule provider")
    refuse_service (first_foreign_service policy capsule)
    ok (bundle, capsule)

  -- The artifact, by the name and the content that the bundle gives it.
  unfoldable pub admit_artifact : world.FilePath → BundleManifest → Result BootstrapError (List ℕ)
  admit_artifact adjacent bundle = do
    artifact ← read_bounded (world.join adjacent bundle.artifact) max_artifact_bytes
    refuse_if (not (content_name artifact == bundle.artifact_content))
        (content_mismatch bundle.artifact_content (content_name artifact))
    ok artifact

  abbrev pub admitted : BootstrapEnvelope → List ℕ → CapsuleManifest → BootstrapEnvelope
  admitted envelope artifact capsule = record envelope {
    bundle_identity = content_name artifact;
    capsule_card = capsule;
  }

  -- What `bootstrap` has admitted when it turns to the loader: the envelope and the artifact's path.
  unfoldable pub admit :
      world.FilePath
      → BootstrapEnvelope
      → BootstrapPolicy
      → Result BootstrapError (BootstrapEnvelope × world.FilePath)
  admit executable envelope policy = do
    validate envelope
    adjacent ← ok_or (world.parent executable) (invalid_adjacent_name (world.display executable))
    manifests ← admit_manifests adjacent policy
    artifact ← admit_artifact adjacent manifests.0
    ok (admitted envelope artifact manifests.1, world.join adjacent manifests.0.artifact)

  abbrev pub loaded :
      BootstrapEnvelope
      → Result String world.Library × world.Cx
      → Result BootstrapError BootstrappedCapsule × world.Cx
  loaded envelope (ok library, cx) = (ok (record { envelope = envelope; capsule = library }), cx)
  loaded envelope (err e, cx) = (err (native e), cx)

  -- The exact artifact, through the supplied loader.
  abbrev pub load_admitted :
      world.Loader
      → Result BootstrapError (BootstrapEnvelope × world.FilePath)
      → world.Cx
      → Result BootstrapError BootstrappedCapsule × world.Cx
  load_admitted loader (err e) cx = (err e, cx)
  load_admitted loader (ok (envelope, path)) cx =
      let source = world.path_source path in
      if not (world.can_load loader source)
      then (err (native "exact artifact is not accepted by the native loader"), cx)
      else loaded envelope (world.load_library loader cx source)

  unfoldable pub bootstrap :
      world.FilePath
      → BootstrapEnvelope
      → BootstrapPolicy
      → world.Cx
      → world.Loader
      → Result BootstrapError BootstrappedCapsule × world.Cx
  bootstrap executable envelope policy cx loader =
      load_admitted loader (admit executable envelope policy) cx
