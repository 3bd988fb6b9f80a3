-- ===== src/Android/Audio.antt =====
-- crates/sim-platform-android/src/audio.rs: the audio session of the Android capsule.
pub mod Laws
use Prim.Native.String
use Prim.Native.String.{len}
use sim_platform.Prelude.{
  ℕ, ◌-◌, ◌≤◌, String, Bool, true, false, not, ◌&&◌, ◌||◌, Option, none, some, List, [], ◌∷◌, ltb,
  leb, eqb, if◌then◌else◌, all, any, Result, ok, err, refuse_if, ◌>>=◌, ◌>>◌,
}
use sim_platform.Prelude.Text.{codes, decimal}
use sim_platform.Prelude.Sort.{sort_by, dedup_by}

pub data AudioRouteClass : Type 0 where
  handset wired classic_bluetooth le_audio usb other : AudioRouteClass

-- The order that is derived for the classes.
abbrev pub class_code : AudioRouteClass → ℕ
class_code handset = 0
class_code wired = 1
class_code classic_bluetooth = 2
class_code le_audio = 3
class_code usb = 4
class_code other = 5

abbrev pub same_class : AudioRouteClass → AudioRouteClass → Bool
same_class a b = eqb (class_code a) (class_code b)

pub data RouteEvidence : Type 0 where
  initial_query device_callback communication_callback : RouteEvidence

pub data RoutingContract : Type 0 where
  api_28_to_30_communication_mode api_31_to_35_communication_device : RoutingContract

unfoldable pub for_api : ℕ → Result String RoutingContract
for_api api_level =
    if leb 28 api_level && leb api_level 30
    then ok api_28_to_30_communication_mode
    else if leb 31 api_level && leb api_level 35
    then ok api_31_to_35_communication_device
    else err (String.◌++◌ "unsupported Android audio API level " (decimal api_level))

pub record PcmContract : Type 0 where
  pub sample_rate_hz : ℕ
  pub channels : ℕ
  pub frames_per_chunk : ℕ
  pub queue_capacity_chunks : ℕ

abbrev pub is_between : (low high value : ℕ) → Bool
is_between low high value = leb low value && leb value high

unfoldable pub validate_pcm : PcmContract → Result String (Unit {0})
validate_pcm self =
    refuse_if
      (not (is_between 8000 192000 self.sample_rate_hz)
        || not (is_between 1 8 self.channels)
        || not (is_between 1 4096 self.frames_per_chunk)
        || not (is_between 1 256 self.queue_capacity_chunks))
      "Android audio PCM contract exceeds canonical bounded limits"

pub record AudioSessionSpec : Type 0 where
  pub turn_content_id : String
  pub api_level : ℕ
  pub admitted : Bool
  pub private_output : Bool
  pub pcm : PcmContract
  pub armed_at_ms : ℕ
  pub expires_at_ms : ℕ

pub record RouteObservation : Type 0 where
  pub capture : List AudioRouteClass
  pub render : List AudioRouteClass
  pub generation : ℕ
  pub observed_at_ms : ℕ
  pub evidence : RouteEvidence

pub record AudioRouteReceipt : Type 0 where
  pub turn_content_id : String
  pub capture : List AudioRouteClass
  pub render : List AudioRouteClass
  pub duplex : Bool
  pub generation : ℕ
  pub observed_at_ms : ℕ
  pub fresh : Bool
  pub evidence : RouteEvidence
  pub routing_contract : RoutingContract
  pub focus_held : Bool
  pub communication_route_held : Bool
  pub private_output_paused : Bool
  pub pcm : PcmContract

pub data AudioStopReason : Type 0 where
  stop_asked cancellation background_expiry permission_loss route_loss focus_conflict
        process_ended :
      AudioStopReason

pub data AudioInput : Type 0 where
  arm : AudioSessionSpec → AudioInput
  route_seen : RouteObservation → AudioInput
  stop : AudioStopReason → AudioInput
  tick : (now_ms : ℕ) → AudioInput

pub record AndroidAudioState : Type 0 where
  pub session : Option AudioSessionSpec
  pub route : Option RouteObservation
  pub focus_held : Bool
  pub communication_route_held : Bool

abbrev pub default : AndroidAudioState
default = record {
  session = none;
  route = none;
  focus_held = false;
  communication_route_held = false;
}

abbrev pub release : AndroidAudioState → AndroidAudioState
release self = record self { session = none; focus_held = false; communication_route_held = false }

abbrev pub is_armed : Option AudioSessionSpec → Bool
is_armed none = false
is_armed (some spec) = true

abbrev pub armed : AndroidAudioState → Bool
armed self = is_armed self.session

unfoldable pub normalize_classes : List AudioRouteClass → List AudioRouteClass
normalize_classes classes =
    dedup_by same_class (sort_by (λ a b. ltb (class_code a) (class_code b)) classes)

-- `self.route.clone().unwrap_or(..)`
abbrev pub route_or_default : Option RouteObservation → RouteObservation
route_or_default (some route) = route
route_or_default none = record {
  capture = [];
  render = [];
  generation = 0;
  observed_at_ms = 0;
  evidence = initial_query;
}

abbrev pub observed_at : Option RouteObservation → ℕ
observed_at none = 0
observed_at (some route) = route.observed_at_ms

abbrev pub is_none_of : List AudioRouteClass → Bool
is_none_of [] = true
is_none_of (class ∷ classes) = false

abbrev pub is_fresh : RouteObservation → ℕ → Bool
is_fresh route now_ms = ltb 0 route.generation && leb (now_ms - route.observed_at_ms) 2000

abbrev pub is_duplex : RouteObservation → Bool
is_duplex route = any (λ class. any (λ c. same_class c class) route.render) route.capture

abbrev pub receipt_of :
    AndroidAudioState
    → AudioSessionSpec
    → RoutingContract
    → RouteObservation
    → ℕ
    → AudioRouteReceipt
receipt_of self session contract route now_ms = record {
  turn_content_id = session.turn_content_id;
  capture = route.capture;
  render = route.render;
  duplex = is_duplex route;
  generation = route.generation;
  observed_at_ms = route.observed_at_ms;
  fresh = is_fresh route now_ms;
  evidence = route.evidence;
  routing_contract = contract;
  focus_held = self.focus_held;
  communication_route_held = self.communication_route_held;
  private_output_paused =
      session.private_output
      && (not (is_fresh route now_ms)
          || is_none_of route.render
          || (session.private_output && not (is_duplex route)));
  pcm = session.pcm;
}

abbrev pub receipt_for :
    AndroidAudioState → Option AudioSessionSpec → ℕ → Result String (Option AudioRouteReceipt)
receipt_for self none now_ms = ok none
receipt_for self (some session) now_ms = do
  contract ← for_api session.api_level
  ok (some (receipt_of self session contract (route_or_default self.route) now_ms))

unfoldable pub receipt_at : AndroidAudioState → ℕ → Result String (Option AudioRouteReceipt)
receipt_at self now_ms = receipt_for self self.session now_ms

unfoldable pub receipt : AndroidAudioState → Result String (Option AudioRouteReceipt)
receipt self = receipt_at self (observed_at self.route)

abbrev pub is_hexdigit : ℕ → Bool
is_hexdigit c = is_between 48 57 c || is_between 65 70 c || is_between 97 102 c

-- A text of 64 bytes, each a hexadecimal digit: its bytes are then its code points.
unfoldable pub is_content_id : String → Bool
is_content_id id = eqb (len id) 64 && all is_hexdigit (codes id)

abbrev pub AudioResult : Type 0
AudioResult = Result String (Option AudioRouteReceipt) × AndroidAudioState

-- The test of a session that asks to be armed.
unfoldable pub check_session : AudioSessionSpec → Result String (Unit {0})
check_session spec = do
  contract ← for_api spec.api_level
  validate_pcm spec.pcm
  refuse_if (not spec.admitted) "Android audio session must be admitted before it is armed"
  refuse_if (not (is_content_id spec.turn_content_id) || leb spec.expires_at_ms spec.armed_at_ms)
      "Android audio session identity or expiry is invalid"

abbrev pub arm_checked :
    Result String (Unit {0}) → AudioSessionSpec → AndroidAudioState → AudioResult
arm_checked (err e) spec self = (err e, self)
arm_checked (ok checked) spec self =
    let self' = record (release self) {
      session = some spec;
      focus_held = true;
      communication_route_held = true;
    } in
    (receipt self', self')

-- The observation with its classes in order and once each.
abbrev pub normalized : RouteObservation → RouteObservation
normalized observation = record observation {
  capture = normalize_classes observation.capture;
  render = normalize_classes observation.render;
}

abbrev pub is_stale : RouteObservation → Option RouteObservation → Bool
is_stale observation none = false
is_stale observation (some current) = leb observation.generation current.generation

abbrev pub lost_receipt : AudioRouteReceipt → AudioRouteReceipt
lost_receipt receipt = record receipt {
  focus_held = false;
  communication_route_held = false;
  private_output_paused = receipt.private_output_paused || is_none_of receipt.render;
}

abbrev pub lost : Option AudioRouteReceipt → Option AudioRouteReceipt
lost none = none
lost (some receipt) = some (lost_receipt receipt)

abbrev pub follow_route :
    Bool → Result String (Option AudioRouteReceipt) → AndroidAudioState → AudioResult
follow_route is_lost (err e) self = (err e, self)
follow_route true (ok receipt) self = (ok (lost receipt), release self)
follow_route false (ok receipt) self = (ok receipt, self)

unfoldable pub take_route : RouteObservation → AndroidAudioState → AudioResult
take_route observation self =
    if is_stale observation self.route
    then (err "Android audio route generation must increase", self)
    else let self' = record self { route = some observation } in
      follow_route (is_none_of observation.capture && is_none_of observation.render) (receipt self')
        self'

abbrev pub has_expired : ℕ → Option AudioSessionSpec → Bool
has_expired now_ms none = false
has_expired now_ms (some session) = leb session.expires_at_ms now_ms

unfoldable pub dispatch : AudioInput → AndroidAudioState → AudioResult
dispatch (arm spec) self = arm_checked (check_session spec) spec self
dispatch (route_seen observation) self = take_route (normalized observation) self
dispatch (stop reason) self = (ok none, release self)
dispatch (tick now_ms) self =
    if has_expired now_ms self.session
    then (ok none, release self)
    else (receipt_at self now_ms, self)
