-- ===== src/Amazfit.antt =====
-- crates/sim-platform-amazfit: the bounded watch proxy. A method returns its result and the capsule
-- after it.
pub mod Invariant
pub mod History
pub mod Effects
mod Tests
use Prim.Native.String.{len}
use sim_platform.Prelude.{
  ℕ, Bool, true, false, not, ◌&&◌, ◌||◌, Option, none, some, String, List, [], ◌∷◌, ◌++◌, ltb, leb,
  eqb, if◌then◌else◌, ◌==◌, number_key, length, any, contains, add, Result, ok, err, ok_or,
  refuse_if, ◌>>=◌, ◌>>◌,
}
use sim_platform.Prelude.Text.{codes, is_control, is_blank}
use sim_platform.Prelude.Words.{ℤ}

abbrev pub max_frame_bytes : ℕ
max_frame_bytes = 4096

abbrev pub max_pending_events : ℕ
max_pending_events = 32

abbrev pub protocol_version : ℕ
protocol_version = 1

pub data Lifecycle : Type 0 where
  created active suspended destroyed : Lifecycle

pub data WatchEvent : Type 0 where
  button : (key : String) → WatchEvent
  touch : (action : String) (x y : ℤ) → WatchEvent
  sensor : (sensor : String) (value_milli : ℤ) (monotonic_ms : ℕ) → WatchEvent
  acknowledgement : (action : String) → WatchEvent

pub data HostCommand : Type 0 where
  glance : (title body : String) → HostCommand
  haptic : (pattern : String) → HostCommand
  clear : HostCommand

pub record Envelope (T : Type 0) : Type 0 where
  pub version : ℕ
  pub session : ℕ
  pub sequence : ℕ
  pub payload : T

pub data ProxyError : Type 0 where
  malformed oversized wrong_version stale_session inactive consent_required queue_full : ProxyError

-- `seen` is a set: a list without repetition whose order is not observed.
pub record AmazfitCapsule : Type 0 where
  pub lifecycle : Lifecycle
  pub consent : Bool
  pub connected : Bool
  pub session : ℕ
  pub seen : List ℕ
  pub pending : List (Envelope WatchEvent)

-- `AmazfitCapsule::default`
abbrev pub default : AmazfitCapsule
default = record {
  lifecycle = created;
  consent = false;
  connected = false;
  session = 0;
  seen = [];
  pending = [];
}

abbrev pub is_active : Lifecycle → Bool
is_active active = true
is_active _ = false

-- `matches!(state, Suspended | Destroyed)`
abbrev pub ends_link : Lifecycle → Bool
ends_link suspended = true
ends_link destroyed = true
ends_link _ = false

unfoldable pub disconnect : AmazfitCapsule → AmazfitCapsule
disconnect self = record self { connected = false; seen = []; pending = [] }

-- `AmazfitCapsule::lifecycle`
unfoldable pub set_lifecycle : Lifecycle → AmazfitCapsule → AmazfitCapsule
set_lifecycle state self =
    let self' = record self { lifecycle = state } in
    if ends_link state then disconnect self' else self'

unfoldable pub set_consent : Bool → AmazfitCapsule → AmazfitCapsule
set_consent granted self =
    let self' = record self { consent = granted } in if granted then self' else disconnect self'

unfoldable pub connect : ℕ → AmazfitCapsule → Result ProxyError (Unit {0}) × AmazfitCapsule
connect session self =
    if not self.consent
    then (err consent_required, self)
    else if not (is_active self.lifecycle)
    then (err inactive, self)
    else (ok tt, record self { connected = true; session = session; seen = []; pending = [] })

unfoldable pub short : String → ℕ → Bool
unfolding is_blank is_control
short value max = not (is_blank value) && leb (len value) max && not (any is_control (codes value))

abbrev pub is_valid_event : WatchEvent → Bool
is_valid_event (button key) = short key 32
is_valid_event (touch action x y) = short action 32
is_valid_event (sensor name value_milli monotonic_ms) = short name 48
is_valid_event (acknowledgement action) = short action 64

unfoldable pub validate_event : WatchEvent → Result ProxyError (Unit {0})
validate_event event = if is_valid_event event then ok tt else err malformed

abbrev pub is_valid_command : HostCommand → Bool
is_valid_command (glance title body) = short title 80 && short body 512
is_valid_command (haptic pattern) = short pattern 32
is_valid_command clear = true

unfoldable pub validate_command : HostCommand → Result ProxyError (Unit {0})
validate_command command = if is_valid_command command then ok tt else err malformed

-- The gates in front of the payload, shared by `receive` and `encode_command`.
unfoldable pub require_link : AmazfitCapsule → Result ProxyError (Unit {0})
require_link self = do
  refuse_if (not self.consent) consent_required
  refuse_if (not self.connected || not (is_active self.lifecycle)) inactive
  ok tt

-- The envelope after the gates of `receive`: its version, its session and its event are checked.
unfoldable pub admit :
    AmazfitCapsule → Envelope WatchEvent → Result ProxyError (Envelope WatchEvent)
admit self event = do
  refuse_if (not (eqb event.version protocol_version)) wrong_version
  refuse_if (not (eqb event.session self.session)) stale_session
  validate_event event.payload
  ok event

abbrev pub Outcome : Type 0
Outcome = Result ProxyError Bool × AmazfitCapsule

-- The end of `receive`: repetitions are dropped, and accepted events queued.
unfoldable pub enqueue : AmazfitCapsule → Result ProxyError (Envelope WatchEvent) → Outcome
enqueue self (err e) = (err e, self)
enqueue self (ok event) =
    if contains self.seen event.sequence
    then (ok false, self)
    else if eqb (length self.pending) max_pending_events
    then (err queue_full, self)
    else (
      ok true,
      record self { seen = add event.sequence self.seen; pending = self.pending ++ event ∷ [] },
    )

-- `pending.pop_front()`, on the queue as it is.
abbrev pub pop_front :
    List (Envelope WatchEvent) → AmazfitCapsule → Option (Envelope WatchEvent) × AmazfitCapsule
pop_front [] self = (none, self)
pop_front (event ∷ rest) self = (some event, record self { pending = rest })

unfoldable pub next_event : AmazfitCapsule → Option (Envelope WatchEvent) × AmazfitCapsule
next_event self = pop_front self.pending self

-- `serde_json` reads an event from a frame, and writes a command, or fails.
module _ (from_slice : List ℕ → Option (Envelope WatchEvent)) where
  -- The checks of `receive` that read the capsule and change nothing.
  unfoldable pub read_frame : List ℕ → AmazfitCapsule → Result ProxyError (Envelope WatchEvent)
  read_frame frame self = do
    refuse_if (ltb max_frame_bytes (length frame)) oversized
    require_link self
    event ← ok_or (from_slice frame) malformed
    admit self event

  unfoldable pub receive : List ℕ → AmazfitCapsule → Outcome
  receive frame self = enqueue self (read_frame frame self)

abbrev pub envelope_of : AmazfitCapsule → ℕ → HostCommand → Envelope HostCommand
envelope_of self sequence command = record {
  version = protocol_version;
  session = self.session;
  sequence = sequence;
  payload = command;
}

module _ (to_vec : Envelope HostCommand → Option (List ℕ)) where
  unfoldable pub encode_command : ℕ → HostCommand → AmazfitCapsule → Result ProxyError (List ℕ)
  encode_command sequence command self = do
    require_link self
    validate_command command
    bytes ← ok_or (to_vec (envelope_of self sequence command)) malformed
    refuse_if (ltb max_frame_bytes (length bytes)) oversized
    ok bytes
