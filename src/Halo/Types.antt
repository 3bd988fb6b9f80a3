-- ===== src/Halo/Types.antt =====
-- The data of crates/sim-platform-halo/src/halo.rs.
use sim_platform.Prelude.{ℕ, Bool, Option, List, Result, ok, err, eqb, if◌then◌else◌}
use sim_platform.Prelude.Words.{ℤ}

abbrev pub protocol_version : ℕ
protocol_version = 1

abbrev pub header_bytes : ℕ
header_bytes = 18

abbrev pub max_message_bytes : ℕ
max_message_bytes = 2048

abbrev pub max_fragment_bytes : ℕ
max_fragment_bytes = 180

abbrev pub max_fragments : ℕ
max_fragments = 16

abbrev pub max_pending_events : ℕ
max_pending_events = 32

pub data HostTransport : Type 0 where
  android ios web_bluetooth : HostTransport

pub data Lifecycle : Type 0 where
  created active suspended destroyed : Lifecycle

pub data MessageKind : Type 0 where
  button sensor link_state display clear : MessageKind

pub data ProxyError : Type 0 where
  malformed oversized wrong_version stale_session replay inactive consent_required queue_full :
      ProxyError
  fragment_order : ProxyError

-- `kind as u8`
abbrev pub kind_code : MessageKind → ℕ
kind_code button = 1
kind_code sensor = 2
kind_code link_state = 3
kind_code display = 16
kind_code clear = 17

-- `MessageKind::try_from`
unfoldable pub kind_of : ℕ → Result ProxyError MessageKind
kind_of value =
    if eqb value 1
    then ok button
    else if eqb value 2
    then ok sensor
    else if eqb value 3
    then ok link_state
    else if eqb value 16
    then ok display
    else if eqb value 17
    then ok clear
    else err malformed

-- The derived equality of kinds.
abbrev pub same_kind : MessageKind → MessageKind → Bool
same_kind a b = eqb (kind_code a) (kind_code b)

-- A name is the text that `short` accepted, by code points.
pub data GlassesInput : Type 0 where
  button_input : (name : List ℕ) (pressed : Bool) → GlassesInput
  sensor_input : (name : List ℕ) (value_milli : ℤ) → GlassesInput
  link_input : (connected : Bool) → GlassesInput

pub data SurfaceCommand : Type 0 where
  show : (cells : List ℕ) → SurfaceCommand
  wipe : SurfaceCommand

pub record Message : Type 0 where
  pub kind : MessageKind
  pub session : ℕ
  pub sequence : ℕ
  pub payload : List ℕ

pub record Assembly : Type 0 where
  pub kind : MessageKind
  pub session : ℕ
  pub sequence : ℕ
  pub count : ℕ
  pub next : ℕ
  pub total : ℕ
  pub payload : List ℕ

pub record Fragment : Type 0 where
  pub kind : MessageKind
  pub session : ℕ
  pub sequence : ℕ
  pub index : ℕ
  pub count : ℕ
  pub total : ℕ
  pub payload : List ℕ

-- `seen` is a set: a list without repetition whose order is not observed.
pub record HaloCapsule : Type 0 where
  pub transport : HostTransport
  pub lifecycle : Lifecycle
  pub consent : Bool
  pub connected : Bool
  pub session : ℕ
  pub seen : List ℕ
  pub assembly : Option Assembly
  pub pending : List GlassesInput
