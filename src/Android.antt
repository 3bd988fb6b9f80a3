-- ===== src/Android.antt =====
-- crates/sim-platform-android/src/android.rs: the Android capsule. A call returns its result and the
-- capsule after it.
pub mod Audio
pub mod Speech
pub mod Records
mod History
mod Invariant
mod Turns
mod Tests
use Prim.Native.String
use sim_platform.Prelude.{
  ℕ, String, Bool, true, false, not, ◌&&◌, ◌||◌, Option, none, some, List, [], ◌∷◌, ltb, eqb,
  if◌then◌else◌, contains, length, add, Eq, text_key, ◌==◌, Result, ok, err, ok_or, map_err,
  refuse_if, ◌>>=◌, ◌>>◌,
}
use sim_platform.Prelude.Maps.{insert}
use sim_platform.Prelude.Text.{is_blank}
use sim_platform.Android.Audio
use sim_platform.Android.Audio.{AndroidAudioState, AudioInput, AudioRouteReceipt}
use sim_platform.Android.Speech
use sim_platform.Android.Speech.{AndroidSpeechState, SpeechInput, SpeechOutput}
use sim_platform.Android.Records.{
  Lifecycle, created, active, suspended, stopped, AndroidEvent, rotation, activity_recreation,
  background_restriction, suspend, process_death, restart, memory_pressure, BindPlan, Permission,
  microphone, permission_code, same_permission, permission_key, RestorePlan, ContentRef,
  valid_content_ref, Input, bind, event, restore, submit_turn, set_lifecycle, activation,
  permission, notification, audio_input, speech_input, background_execution, Output,
  validate_content_id, validate_restore_plan, validate_bind_plan,
}

-- The resources and the resumed turns are only asked for membership and size: lists without repetition.
pub record Capsule : Type 0 where
  pub lifecycle : Option Lifecycle
  pub permissions : List (Permission × Bool)
  pub resources : List String
  pub background_allowed : Bool
  pub binding : Option BindPlan
  pub pending_turn_content_id : Option String
  pub resumed_turns : List String
  pub audio : AndroidAudioState
  pub speech : AndroidSpeechState

abbrev pub default : Capsule
default = record {
  lifecycle = none;
  permissions = [];
  resources = [];
  background_allowed = false;
  binding = none;
  pending_turn_content_id = none;
  resumed_turns = [];
  audio = Audio.default;
  speech = Speech.default;
}

abbrev pub release_io : Capsule → Capsule
release_io self = record self {
  resources = [];
  audio = Audio.release self.audio;
  speech = Speech.release self.speech;
}

unfoldable pub apply_android_event : AndroidEvent → Capsule → Capsule
apply_android_event rotation self = self
apply_android_event activity_recreation self = self
apply_android_event background_restriction self = record (release_io self) {
  background_allowed = false;
  lifecycle = some suspended;
}
apply_android_event suspend self = record (release_io self) {
  background_allowed = false;
  lifecycle = some suspended;
}
apply_android_event process_death self = record (release_io self) {
  binding = none;
  lifecycle = some stopped;
}
apply_android_event restart self = record self { lifecycle = some created }
apply_android_event memory_pressure self = release_io self

-- What an input gives: whether it was accepted, the turn that it resumes, the route and the speech.
pub record Gain : Type 0 where
  pub accepted : Bool
  pub resumed : Option String
  pub audio_route : Option AudioRouteReceipt
  pub speech : Option SpeechOutput

abbrev pub gain : Bool → Gain
gain accepted = record { accepted = accepted; resumed = none; audio_route = none; speech = none }

abbrev pub Step : Type 0
Step = Result String (Gain × Capsule)

-- `pending.take().filter(|id| self.resumed_turns.insert(id.clone()))`
abbrev pub resume : Option String → Capsule → Option String × Capsule
resume none self = (none, record self { pending_turn_content_id = none })
resume (some id) self = (
  if contains self.resumed_turns id then none else some id,
  record self { pending_turn_content_id = none; resumed_turns = add id self.resumed_turns },
)

abbrev pub resume_under : Option String × Capsule → Gain × Capsule
resume_under (resumed, self) = (record (gain true) { resumed = resumed }, self)

unfoldable pub restore_plan : RestorePlan → Capsule → Step
restore_plan plan self = do
  validate_restore_plan plan
  binding ← ok_or self.binding "Android restore requires an atomically bound provider snapshot"
  refuse_if (not (binding.snapshot.content_id == plan.snapshot_content_id))
      "Android restore snapshot does not match bound providers"
  ok (
      resume_under (
        resume plan.pending_turn_content_id (record self {
          permissions = plan.permission_observations;
          pending_turn_content_id = plan.pending_turn_content_id;
        })))

unfoldable pub dispatch_continuity : Input → Capsule → Step
dispatch_continuity (bind plan) self = do
  validate_bind_plan plan
  ok (gain true, record self { binding = some plan })
dispatch_continuity (event e) self = ok (gain true, apply_android_event e self)
dispatch_continuity (restore plan) self = restore_plan plan self
dispatch_continuity (submit_turn content_id) self = do
  validate_content_id "turn" content_id
  ok (gain true, record self { pending_turn_content_id = some content_id })
dispatch_continuity input self = err "typed input does not match Android continuity function"

abbrev pub is_asleep : Option Lifecycle → Bool
is_asleep (some suspended) = true
is_asleep (some stopped) = true
is_asleep _ = false

unfoldable pub set_state : Lifecycle → Capsule → Capsule
set_state state self =
    let self' = record self { lifecycle = some state } in
    if is_asleep (some state)
    then record (release_io self') { background_allowed = false }
    else self'

abbrev pub has_bad_ref : Option ContentRef → Bool
has_bad_ref none = false
has_bad_ref (some item) = not (valid_content_ref item)

unfoldable pub activate : String → Option ContentRef → Capsule → Step
activate action content self = do
  refuse_if (is_blank action) "Android activation action must not be empty"
  refuse_if (has_bad_ref content) "Android activation contained an invalid bounded content ref"
  ok (
      if is_asleep self.lifecycle then (gain false, self) else (
        gain true,
        record self { resources = add (String.◌++◌ "activation:" action) self.resources },
      ))

unfoldable pub set_permission : Permission → Bool → Capsule → Capsule
set_permission p granted self =
    let self' = record self {
      permissions =
          insert (λ a b. ltb (permission_code a) (permission_code b)) p granted self.permissions;
    } in
    if same_permission p microphone && not granted
    then record self' { speech = Speech.release self'.speech }
    else self'

unfoldable pub notify : String → Capsule → Step
notify channel self = do
  refuse_if (is_blank channel) "Android notification channel must not be empty"
  let resource = String.◌++◌ "notification:" channel
  ok (
    gain (not (contains self.resources resource)),
    record self { resources = add resource self.resources },
  )

abbrev pub mismatch : String → Step
mismatch function = err (String.◌++◌ "typed input does not match Android function " function)

-- The inputs that cannot fail halfway.
unfoldable pub dispatch_activation : Input → Capsule → Step
dispatch_activation (activation action content) self = activate action content self
dispatch_activation (permission p granted) self = ok (gain granted, set_permission p granted self)
dispatch_activation (notification channel payload) self = notify channel self
dispatch_activation (background_execution allowed) self =
    ok (gain allowed, record self { background_allowed = allowed })
dispatch_activation input self = mismatch "platform/activation"

unfoldable pub dispatch_lifecycle : Input → Capsule → Step
dispatch_lifecycle (set_lifecycle state) self = ok (gain true, set_state state self)
dispatch_lifecycle input self = mismatch "platform/lifecycle"

abbrev pub output_of : Gain → Capsule → Output
output_of gained self = record {
  lifecycle = elim self.lifecycle [ none ↦ created | some state ↦ state ];
  accepted = gained.accepted;
  resources = length self.resources;
  snapshot_content_id = elim self.binding [
    | none ↦ none
    | some plan ↦ some plan.snapshot.content_id
  ];
  resumed_turn_content_id = gained.resumed;
  audio_route = gained.audio_route;
  speech = gained.speech;
}

abbrev pub Outcome : Type 0
Outcome = Result String Output × Capsule

abbrev pub commit : Capsule → Step → Outcome
commit self (ok (gained, self')) = (ok (output_of gained self'), self')
commit self (err e) = (err e, self)

-- The audio and the speech state are kept as they are left, also by a refusal.
abbrev pub with_audio :
    Capsule → Result String (Option AudioRouteReceipt) × AndroidAudioState → Outcome
with_audio self (ok route, audio) =
    let self' = record self { audio = audio } in
    (ok (output_of (record (gain (Audio.armed audio)) { audio_route = route }) self'), self')
with_audio self (err e, audio) = (err e, record self { audio = audio })

abbrev pub with_speech : Capsule → Result String SpeechOutput × AndroidSpeechState → Outcome
with_speech self (ok output, speech) =
    let self' = record self { speech = speech } in
    (
      ok (output_of (record (gain (Speech.is_available output)) { speech = some output }) self'),
      self',
    )
with_speech self (err e, speech) = (err e, record self { speech = speech })

unfoldable pub dispatch_audio : Input → Capsule → Outcome
dispatch_audio (audio_input input) self = with_audio self (Audio.dispatch input self.audio)
dispatch_audio input self = commit self (mismatch "platform/android-audio")

unfoldable pub dispatch_speech : Input → Capsule → Outcome
dispatch_speech (speech_input input) self = with_speech self (Speech.dispatch input self.speech)
dispatch_speech input self = commit self (mismatch "platform/android-speech")

unfoldable pub dispatch : String → Input → Capsule → Outcome
dispatch function input self =
    if function == "platform/continuity"
    then commit self (dispatch_continuity input self)
    else if function == "platform/lifecycle"
    then commit self (dispatch_lifecycle input self)
    else if function == "platform/activation"
    then commit self (dispatch_activation input self)
    else if function == "platform/android-audio"
    then dispatch_audio input self
    else if function == "platform/android-speech"
    then dispatch_speech input self
    else (err (String.◌++◌ "unknown Android platform function: " function), self)

-- The codec of frames, `serde_json` on inputs and outputs, and the text in an expression.
pub record FrameCodec : Type 1 where
  pub Expr : Type 0
  pub decode_expr : List ℕ → Result String Expr
  pub encode_text : String → Result String (List ℕ)
  pub as_text : Expr → Option String
  pub read_input : String → Result String Input
  pub write_output : Output → Result String String

module _ (codec : FrameCodec) where
  unfoldable pub decode_input_frame : List ℕ → Result String Input
  decode_input_frame bytes = do
    expr ← map_err (String.◌++◌ "invalid SIM binary frame: ") (codec.decode_expr bytes)
    json ← ok_or (codec.as_text expr) "Android ABI frame payload must be one typed JSON string"
    map_err (String.◌++◌ "invalid typed Android input: ") (codec.read_input json)

  unfoldable pub encode_output_frame : Output → Result String (List ℕ)
  encode_output_frame output = do json ← codec.write_output output; codec.encode_text json

  abbrev pub encode_outcome : Outcome → Result String (List ℕ) × Capsule
  encode_outcome (result, self) = (result >>= encode_output_frame, self)

  abbrev pub dispatch_decoded :
      String → Result String Input → Capsule → Result String (List ℕ) × Capsule
  dispatch_decoded function (err e) self = (err e, self)
  dispatch_decoded function (ok input) self = encode_outcome (dispatch function input self)

  -- The output is encoded after the capsule has changed.
  unfoldable pub call_frame : String → List ℕ → Capsule → Result String (List ℕ) × Capsule
  call_frame function bytes self = dispatch_decoded function (decode_input_frame bytes) self
