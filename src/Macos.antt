-- ===== src/Macos.antt =====
-- crates/sim-platform-macos/src/macos.rs: the macOS capsule over its native services. A call returns its
-- result and the capsule after it.
mod Prompts
mod Tests
use Prim.Native.String
use sim_platform.Prelude.{
  String, List, [], ◌∷◌, if◌then◌else◌, contains, text_key, Result, ok, err, map_err,
}

pub data Permission : Type 0 where
  camera microphone screen_recording accessibility : Permission

unfoldable pub capability : Permission → String
capability camera = "camera"
capability microphone = "microphone"
capability screen_recording = "screen-recording"
capability accessibility = "accessibility"

pub data PermissionStatus : Type 0 where
  granted denied undetermined restricted : PermissionStatus

pub data Lifecycle : Type 0 where
  ready active suspended stopped : Lifecycle

pub data CapsuleError : Type 0 where
  missing_capability : String → CapsuleError
  is_suspended is_stopped : CapsuleError
  native_error : String → CapsuleError

-- The trait `NativeServices`, whose implementations stand outside: each call moves their state.
pub record NativeServices : Type 1 where
  pub State : Type 0
  pub permission_status : Permission → State → PermissionStatus × State
  pub request_permission : Permission → State → PermissionStatus × State
  pub activate : State → Result String (Unit {0}) × State
  pub cleanup : State → State

-- The grant that a prompt requires.
abbrev pub required_for : Permission → String
required_for permission = String.◌++◌ "platform/permission-request/" (capability permission)

module _ (services : NativeServices) where
  pub record MacosCapsule : Type 0 where
    pub native : services.State
    pub grants : List String
    pub lifecycle : Lifecycle

  unfoldable pub new : services.State → List String → MacosCapsule
  new native grants = record { native = native; grants = grants; lifecycle = ready }

  abbrev pub Outcome : Type 0 → Type 0
  Outcome A = Result CapsuleError A × MacosCapsule

  abbrev pub running : Lifecycle → Result CapsuleError (Unit {0})
  running suspended = err is_suspended
  running stopped = err is_stopped
  running _ = ok tt

  abbrev pub ensure_running : MacosCapsule → Result CapsuleError (Unit {0})
  ensure_running self = running self.lifecycle

  -- A call that goes on only in a running capsule.
  abbrev pub when_running :
      {A : Type 0} → Result CapsuleError (Unit {0}) → MacosCapsule → Outcome A → Outcome A
  when_running (err e) self next = (err e, self)
  when_running (ok u) self next = next

  abbrev pub with_status :
      PermissionStatus × services.State → MacosCapsule → Outcome PermissionStatus
  with_status (status, native) self = (ok status, record self { native = native })

  unfoldable pub permission_status : Permission → MacosCapsule → Outcome PermissionStatus
  permission_status permission self =
      when_running (ensure_running self) self
        (with_status (services.permission_status permission self.native) self)

  unfoldable pub request_permission : Permission → MacosCapsule → Outcome PermissionStatus
  request_permission permission self = when_running (ensure_running self) self (
      if contains self.grants (required_for permission)
      then with_status (services.request_permission permission self.native) self
      else (err (missing_capability (required_for permission)), self))

  abbrev pub activated :
      Result String (Unit {0}) × services.State → MacosCapsule → Outcome (Unit {0})
  activated (ok u, native) self = (ok tt, record self { native = native; lifecycle = active })
  activated (err e, native) self = (err (native_error e), record self { native = native })

  unfoldable pub activate : MacosCapsule → Outcome (Unit {0})
  activate self =
      when_running (ensure_running self) self (activated (services.activate self.native) self)

  unfoldable pub suspend : MacosCapsule → Outcome (Unit {0})
  suspend self =
      when_running (ensure_running self) self (ok tt, record self { lifecycle = suspended })

  abbrev pub resumed : Lifecycle → MacosCapsule → Outcome (Unit {0})
  resumed suspended self = (ok tt, record self { lifecycle = ready })
  resumed _ self = (ensure_running self, self)

  unfoldable pub resume : MacosCapsule → Outcome (Unit {0})
  resume self = resumed self.lifecycle self

  abbrev pub stopped_from : Lifecycle → MacosCapsule → MacosCapsule
  stopped_from stopped self = self
  stopped_from _ self = record self { native = services.cleanup self.native; lifecycle = stopped }

  -- `stop`, which is also what dropping the capsule does.
  unfoldable pub stop : MacosCapsule → MacosCapsule
  stop self = stopped_from self.lifecycle self
