-- ===== src/Ios.antt =====
-- crates/sim-platform-ios/src/ios.rs: the iOS capsule. A call returns its result and the capsule after it.
mod Records
mod Invariant
mod History
mod Tests
use Prim.Native.String
use sim_platform.Prelude.{
  ℕ, String, Bool, true, false, not, ◌&&◌, ◌||◌, Option, none, some, List, [], ◌∷◌, ltb,
  if◌then◌else◌, contains, length, add, text_key, ◌==◌, Result, ok, err, ok_or, map_err, refuse_if,
  ◌>>=◌, ◌>>◌,
}
use sim_platform.Prelude.Maps.{get, insert}
use sim_platform.Prelude.Text.{is_blank}
use sim_platform.Ios.Records.{
  Lifecycle, connected, active, suspended, disconnected, Permission, microphone, notifications,
  permission_code, permission_key, Service, audio_service, notification_service, document_service,
  ContentRef, valid_content_ref, Input, set_lifecycle, activation, permission, notification,
  audio_device, background_execution, document_grant, use_service, memory_pressure, Output,
}

-- The sets of resources and grants are asked for membership and size: lists without repetition.
pub record Capsule : Type 0 where
  pub lifecycle : Option Lifecycle
  pub permissions : List (Permission × Bool)
  pub resources : List String
  pub background_allowed : Bool
  pub document_grants : List String

abbrev pub default : Capsule
default = record {
  lifecycle = none;
  permissions = [];
  resources = [];
  background_allowed = false;
  document_grants = [];
}

-- `BTreeSet::remove`
unfoldable pub remove : String → List String → List String
remove a [] = []
remove a (x ∷ xs) = if x == a then xs else x ∷ remove a xs

abbrev pub is_awake : Option Lifecycle → Bool
is_awake (some active) = true
is_awake (some connected) = true
is_awake _ = false

abbrev pub is_asleep : Option Lifecycle → Bool
is_asleep (some suspended) = true
is_asleep (some disconnected) = true
is_asleep _ = false

abbrev pub is_active : Capsule → Bool
is_active self = is_awake self.lifecycle

abbrev pub is_granted : Option Bool → Bool
is_granted (some granted) = granted
is_granted none = false

abbrev pub has_some : List String → Bool
has_some [] = false
has_some (x ∷ xs) = true

abbrev pub serves : Service → Capsule → Bool
serves audio_service self = is_granted (get microphone self.permissions)
serves notification_service self = is_granted (get notifications self.permissions)
serves document_service self = has_some self.document_grants

unfoldable pub available : Service → Capsule → Bool
available service self = is_active self && serves service self

-- An accepted input, with the capsule after it.
abbrev pub Step : Type 0
Step = Result String (Bool × Capsule)

unfoldable pub set_state : Lifecycle → Capsule → Capsule
set_state state self =
    let self' = record self { lifecycle = some state } in
    if is_asleep (some state)
    then record self' { resources = []; background_allowed = false; document_grants = [] }
    else self'

abbrev pub has_bad_ref : Option ContentRef → Bool
has_bad_ref none = false
has_bad_ref (some item) = not (valid_content_ref item)

-- A resource that is put in, and whether it was new.
abbrev pub with_resource : String → Capsule → Bool × Capsule
with_resource resource self = (
  not (contains self.resources resource),
  record self { resources = add resource self.resources },
)

unfoldable pub activate : String → Option ContentRef → Capsule → Step
activate action content self = do
  refuse_if (is_blank action) "iOS activation action must not be empty"
  refuse_if (has_bad_ref content) "iOS activation contained an invalid bounded content ref"
  ok (
      if is_asleep self.lifecycle
      then (false, self)
      else (true, (with_resource (String.◌++◌ "activation:" action) self).1))

unfoldable pub notify : String → Capsule → Step
notify channel self = do
  refuse_if (is_blank channel) "iOS notification channel must not be empty"
  ok (
      if available notification_service self
      then with_resource (String.◌++◌ "notification:" channel) self
      else (false, self))

unfoldable pub connect_audio : String → Bool → Capsule → Step
connect_audio id is_connected self = do
  refuse_if (is_blank id) "iOS audio device id must not be empty"
  let resource = String.◌++◌ "audio:" id
  ok (
      if is_connected && available audio_service self then with_resource resource self else (
        contains self.resources resource,
        record self { resources = remove resource self.resources },
      ))

unfoldable pub grant_document : String → Bool → Capsule → Step
grant_document id is_granted self = do
  refuse_if (is_blank id) "iOS document grant id must not be empty"
  ok (
      if is_granted && is_active self
      then (
        not (contains self.document_grants id),
        record self { document_grants = add id self.document_grants },
      )
      else (false, record self { document_grants = remove id self.document_grants }))

abbrev pub mismatch : String → Step
mismatch function = err (String.◌++◌ "typed input does not match iOS function " function)

unfoldable pub dispatch_activation : Input → Capsule → Step
dispatch_activation (activation action content) self = activate action content self
dispatch_activation (permission p granted) self = ok (
  granted,
  record self {
    permissions =
        insert (λ a b. ltb (permission_code a) (permission_code b)) p granted self.permissions;
  },
)
dispatch_activation (notification channel payload) self = notify channel self
dispatch_activation (audio_device id is_connected) self = connect_audio id is_connected self
dispatch_activation (background_execution allowed) self =
    let goes_on = allowed && is_active self in
    ok (goes_on, record self { background_allowed = goes_on })
dispatch_activation (document_grant id is_granted) self = grant_document id is_granted self
dispatch_activation (use_service service) self = ok (available service self, self)
dispatch_activation memory_pressure self = ok (true, record self { resources = [] })
dispatch_activation (set_lifecycle state) self = mismatch "platform/activation"

unfoldable pub dispatch_lifecycle : Input → Capsule → Step
dispatch_lifecycle (set_lifecycle state) self = ok (true, set_state state self)
dispatch_lifecycle input self = mismatch "platform/lifecycle"

abbrev pub output_of : Bool → Capsule → Output
output_of accepted self = record {
  lifecycle = elim self.lifecycle [ none ↦ connected | some state ↦ state ];
  accepted = accepted;
  resources = length self.resources;
}

abbrev pub Outcome : Type 0
Outcome = Result String Output × Capsule

abbrev pub commit : Capsule → Step → Outcome
commit self (ok (accepted, self')) = (ok (output_of accepted self'), self')
commit self (err e) = (err e, self)

unfoldable pub dispatch : String → Input → Capsule → Outcome
dispatch function input self =
    if function == "platform/lifecycle"
    then commit self (dispatch_lifecycle input self)
    else if function == "platform/activation"
    then commit self (dispatch_activation input self)
    else (err (String.◌++◌ "unknown iOS platform function: " function), self)

-- The codec of frames, `serde_json` on inputs and outputs, and the text in an expression.
pub record FrameCodec : Type 1 where
  pub Expr : Type 0
  pub decode_expr : List ℕ → Result String Expr
  pub encode_text : String → Result String (List ℕ)
  pub as_text : Expr → Option String
  pub read_input : String → Result String Input
  pub write_output : Output → Result String String

module _ (codec : FrameCodec) where
  unfoldable pub decode_input_frame : List ℕ → Result String Input
  decode_input_frame bytes = do
    expr ← map_err (String.◌++◌ "invalid SIM binary frame: ") (codec.decode_expr bytes)
    json ← ok_or (codec.as_text expr) "iOS ABI frame payload must be one typed JSON string"
    map_err (String.◌++◌ "invalid typed iOS input: ") (codec.read_input json)

  unfoldable pub encode_output_frame : Output → Result String (List ℕ)
  encode_output_frame output = do json ← codec.write_output output; codec.encode_text json

  abbrev pub encode_outcome : Outcome → Result String (List ℕ) × Capsule
  encode_outcome (result, self) = (result >>= encode_output_frame, self)

  abbrev pub dispatch_decoded :
      String → Result String Input → Capsule → Result String (List ℕ) × Capsule
  dispatch_decoded function (err e) self = (err e, self)
  dispatch_decoded function (ok input) self = encode_outcome (dispatch function input self)

  -- The output is encoded after the capsule has changed.
  unfoldable pub call_frame : String → List ℕ → Capsule → Result String (List ℕ) × Capsule
  call_frame function bytes self = dispatch_decoded function (decode_input_frame bytes) self
