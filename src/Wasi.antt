-- ===== src/Wasi.antt =====
-- crates/sim-platform-wasi/src/wasi.rs: the imports that a component may have, and the WASI capsule.
mod Imports
mod Tests
use Prim.Native.String
use sim_platform.Prelude.{
  ℕ, String, Bool, true, false, ◌&&◌, Option, none, some, List, [], ◌∷◌, ◌++◌, map, find, contains,
  text_key, ◌==◌, if◌then◌else◌, Result, ok, err, ok_or, map_err, ◌>>=◌, ◌>>◌,
}
use sim_platform.Prelude.Maps.{get}
use sim_platform.Core.Digest.{stable_digest}
use sim_platform.Core.Records.{
  FactPort, wall_clock, monotonic_clock, entropy, lifecycle_pressure, machine_limits, modeled,
  ServiceOffer, PlatformCard,
}

pub data PreopenRef : Type 0 where
  table_ref dir_ref : (table key : String) → PreopenRef

pub data CanonicalService : Type 0 where
  preopened_directories wall_clock_service monotonic_service entropy_service sockets
        lifecycle_service :
      CanonicalService

unfoldable pub identity : CanonicalService → String
identity preopened_directories = "storage/table-dir"
identity wall_clock_service = "platform/wall-clock"
identity monotonic_service = "platform/monotonic"
identity entropy_service = "platform/entropy"
identity sockets = "transport/socket"
identity lifecycle_service = "platform/lifecycle"

unfoldable pub capability : CanonicalService → String
capability preopened_directories = "storage/preopen"
capability wall_clock_service = "platform/wall-clock"
capability monotonic_service = "platform/monotonic"
capability entropy_service = "platform/entropy"
capability sockets = "transport/socket"
capability lifecycle_service = "platform/lifecycle"

pub record ImportDeclaration : Type 0 where
  pub module_name : String
  pub name : String
  pub service : CanonicalService

abbrev pub declaring : String → String → CanonicalService → ImportDeclaration
declaring module_name name service = record {
  module_name = module_name;
  name = name;
  service = service;
}

unfoldable pub allowed_imports : List ImportDeclaration
allowed_imports =
    declaring "wasi:filesystem/preopens@0.2.0" "get-directories" preopened_directories
    ∷ declaring "wasi:clocks/wall-clock@0.2.0" "now" wall_clock_service
    ∷ declaring "wasi:clocks/monotonic-clock@0.2.0" "now" monotonic_service
    ∷ declaring "wasi:random/random@0.2.0" "get-random-bytes" entropy_service
    ∷ declaring "wasi:sockets/tcp@0.2.0" "start-connect" sockets
    ∷ declaring "wasi:cli/exit@0.2.0" "exit" lifecycle_service
    ∷ []

pub record WasiProfile : Type 0 where
  pub preopens : List (String × PreopenRef)
  pub capabilities : List String
  pub wall_clock_ticks : ℕ
  pub monotonic_ticks : ℕ
  pub entropy_seed : List ℕ
  pub socket_endpoints : List String

pub data WasiRefusal : Type 0 where
  malformed_artifact : String → WasiRefusal
  undeclared_import : (module_name name : String) → WasiRefusal
  capability_denied unsupported_service unknown_preopen unknown_socket : String → WasiRefusal

-- What `wasmparser` finds in an artifact: payloads or errors, in order, and in an import section imports
-- or errors.
pub data Payload : Type 0 where
  import_section : List (Result String (String × String)) → Payload
  other_payload : Payload

unfoldable pub declaration_of : String × String → Result WasiRefusal ImportDeclaration
declaration_of (module_name, name) =
    ok_or (find (λ item. item.module_name == module_name && item.name == name) allowed_imports)
      (undeclared_import module_name name)

-- The loop over the imports of a section, with the declarations that are admitted so far.
unfoldable pub admit_section :
    List (Result String (String × String))
    → List ImportDeclaration
    → Result WasiRefusal (List ImportDeclaration)
admit_section [] admitted = ok admitted
admit_section (item ∷ section) admitted = do
  i ← map_err malformed_artifact item
  declaration ← declaration_of i
  admit_section section (admitted ++ declaration ∷ [])

unfoldable pub admit_payloads :
    List (Result String Payload)
    → List ImportDeclaration
    → Result WasiRefusal (List ImportDeclaration)
admit_payloads [] admitted = ok admitted
admit_payloads (err e ∷ payloads) admitted = err (malformed_artifact e)
admit_payloads (ok other_payload ∷ payloads) admitted = admit_payloads payloads admitted
admit_payloads (ok (import_section section) ∷ payloads) admitted = do
  more ← admit_section section admitted
  admit_payloads payloads more

module _ (parse_all : List ℕ → List (Result String Payload)) where
  unfoldable pub inspect_artifact : List ℕ → Result WasiRefusal (List ImportDeclaration)
  inspect_artifact bytes = admit_payloads (parse_all bytes) []

-- `WasiCapsule`, which is its profile.
unfoldable pub require : CanonicalService → WasiProfile → Result WasiRefusal (Unit {0})
require service profile =
    if contains profile.capabilities (capability service)
    then ok tt
    else err (capability_denied (capability service))

unfoldable pub preopen : String → WasiProfile → Result WasiRefusal PreopenRef
preopen name profile = do
  require preopened_directories profile
  ok_or (get name profile.preopens) (unknown_preopen name)

unfoldable pub connect : String → WasiProfile → Result WasiRefusal (Unit {0})
connect endpoint profile = do
  require sockets profile
  if contains profile.socket_endpoints endpoint then ok tt else err (unknown_socket endpoint)

abbrev pub port_of : CanonicalService → FactPort
port_of wall_clock_service = wall_clock
port_of monotonic_service = monotonic_clock
port_of entropy_service = entropy
port_of lifecycle_service = lifecycle_pressure
port_of preopened_directories = machine_limits
port_of sockets = machine_limits

module _ (to_vec : WasiProfile → List ℕ) where
  unfoldable pub model_digest : List ℕ → WasiProfile → String
  model_digest request profile = stable_digest (to_vec profile ++ request)

  unfoldable pub platform_card : WasiProfile → PlatformCard
  platform_card profile = record {
    schema = "platform/card-v1";
    site = "platform/site/wasi";
    services =
        map
          (λ d. record {
            service = identity d.service;
            port = port_of d.service;
            evidence = modeled;
          })
          allowed_imports;
    provenance = record {
      contract = "contract/wasi-component-v1";
      content_digest = stable_digest (to_vec profile);
      issuer = "issuer/sim-platform";
    };
  }
