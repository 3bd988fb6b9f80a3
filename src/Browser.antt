-- ===== src/Browser.antt =====
-- crates/sim-platform-browser/src/browser.rs: `Capsule::dispatch`. The capsule is passed on: a call
-- returns its result, and the capsule after it.
mod Types
mod Invariant
mod Effects
mod History
mod Completion
mod Waiting
mod Services
mod Tests
use Prim.Native.String
use sim_platform.Prelude.{
  ℕ, ◌+◌, ◌-◌, ◌^◌, String, Bool, true, false, not, ◌&&◌, ◌||◌, Option, none, some, List, [], ◌∷◌,
  ◌++◌, ltb, leb, eqb, if◌then◌else◌, length, contains, any, keep_if, add, text_key, number_key,
  ◌==◌, Result, ok, err, ok_or, map_err, refuse_if, ◌>>=◌, ◌>>◌,
}
use sim_platform.Prelude.Maps.{get, insert}
use sim_platform.Browser.Types.{
  max_frame_bytes, max_host_payload_bytes, max_handles, BrowserApis, BrowserCard, from_apis,
  Lifecycle, created, active, hidden, suspended, stopped, HostOperation, service_of, validate,
  operation_handles, closed_by, Input, card_request, set_lifecycle, host_call, host_complete,
  Output, card, lifecycle, called, completed,
}

pub record PendingCall : Type 0 where
  pub service : String
  pub close_handle : Option ℕ

-- The `BTreeSet` of handles is only asked for membership and for its size: a list without repetition.
pub record Capsule : Type 0 where
  pub card : BrowserCard
  pub lifecycle : Lifecycle
  pub next_call : ℕ
  pub pending : List (ℕ × PendingCall)
  pub handles : List ℕ

unfoldable pub new : BrowserApis → Capsule
new apis = record {
  card = from_apis apis;
  lifecycle = created;
  next_call = 1;
  pending = [];
  handles = [];
}

abbrev pub ends_calls : Lifecycle → Bool
ends_calls suspended = true
ends_calls stopped = true
ends_calls _ = false

abbrev pub Outcome : Type 0
Outcome = Result String Output × Capsule

unfoldable pub set_state : Lifecycle → Capsule → Capsule
set_state state self =
    if ends_calls state
    then record self { lifecycle = state; pending = []; handles = [] }
    else record self { lifecycle = state }

-- The number that the next call gets, after `checked_add`.
abbrev pub call_numbers : ℕ → Result String ℕ
call_numbers next = if ltb next (2 ^ 64 - 1) then ok (next + 1) else err "browser call id exhausted"

-- A host call, as what it puts out and the capsule after it; a refusal leaves the capsule as it was.
unfoldable pub start_call : HostOperation → Capsule → Result String (Output × Capsule)
start_call operation self = do
  refuse_if (ends_calls self.lifecycle) "browser capsule is not active"
  validate operation
  let service = service_of operation
  refuse_if (not (any (λ item. item == service) self.card.services))
      (String.◌++◌ "unsupported browser service: " service)
  refuse_if (leb max_handles (length self.pending)) "browser pending-call limit reached"
  refuse_if (any (λ handle. not (contains self.handles handle)) (operation_handles operation))
      "unknown or closed browser handle"
  next ← call_numbers self.next_call
  ok (
    called self.next_call service operation,
    record self {
      next_call = next;
      pending =
          insert ltb self.next_call
            (record { service = service; close_handle = closed_by operation }) self.pending;
    },
  )

abbrev pub commit : Capsule → Result String (Output × Capsule) → Outcome
commit self (ok (output, self')) = (ok output, self')
commit self (err e) = (err e, self)

-- `BTreeMap::remove` and `BTreeSet::remove`
unfoldable pub remove_call : ℕ → List (ℕ × PendingCall) → List (ℕ × PendingCall)
remove_call id [] = []
remove_call id ((j, call) ∷ calls) = if j == id then calls else (j, call) ∷ remove_call id calls

unfoldable pub remove_handle : ℕ → List ℕ → List ℕ
remove_handle handle [] = []
remove_handle handle (h ∷ handles) =
    if h == handle then handles else h ∷ remove_handle handle handles

abbrev pub after_close : Bool → Option ℕ → List ℕ → List ℕ
after_close true (some closed) handles = remove_handle closed handles
after_close succeeded closed handles = handles

abbrev pub gives_handle : String → Bool
gives_handle service = service == "storage/handle" || service == "transport/websocket"

-- The handle of a completion, once the call is no longer pending.
unfoldable pub take_handle : Bool → String → Option ℕ → Output → Capsule → Outcome
take_handle succeeded service none output self = (ok output, self)
take_handle succeeded service (some value) output self =
    if leb max_handles (length self.handles)
    then (err "browser handle limit reached", self)
    else if succeeded && gives_handle service
    then (ok output, record self { handles = add value self.handles })
    else (ok output, self)

unfoldable pub finish_call : ℕ → Bool → List ℕ → Option ℕ → Option PendingCall → Capsule → Outcome
finish_call id succeeded payload handle none self =
    (err "unknown or already-completed browser call", self)
finish_call id succeeded payload handle (some call) self =
    take_handle succeeded call.service handle (completed id succeeded payload handle) (record self {
      pending = remove_call id self.pending;
      handles = after_close succeeded call.close_handle self.handles;
    })

unfoldable pub complete : ℕ → Bool → List ℕ → Option ℕ → Capsule → Outcome
complete id succeeded payload handle self =
    if ltb max_host_payload_bytes (length payload)
    then (err "browser completion payload exceeds the capsule limit", self)
    else finish_call id succeeded payload handle (get id self.pending) self

-- The input, where the function that was named takes its kind.
abbrev pub handle_input : Input → Capsule → Outcome
handle_input (card_request apis) self =
    (ok (card (from_apis apis)), record self { card = from_apis apis })
handle_input (set_lifecycle state) self = (ok (lifecycle state), set_state state self)
handle_input (host_call operation) self = commit self (start_call operation self)
handle_input (host_complete id succeeded payload handle) self =
    complete id succeeded payload handle self

abbrev pub function_of : Input → String
function_of (card_request apis) = "platform/card"
function_of (set_lifecycle state) = "platform/lifecycle"
function_of (host_call operation) = "platform/host-call"
function_of (host_complete id succeeded payload handle) = "platform/host-complete"

abbrev pub functions : List String
functions =
    "platform/card" ∷ "platform/lifecycle" ∷ "platform/host-call" ∷ "platform/host-complete" ∷ []

unfoldable pub dispatch : String → Input → Capsule → Outcome
dispatch function input self =
    if function == function_of input
    then handle_input input self
    else if contains functions function
    then (err (String.◌++◌ "typed input does not match browser function " function), self)
    else (err (String.◌++◌ "unknown browser platform function: " function), self)

-- The codec of frames, `serde_json` on inputs and outputs, and the text in an expression.
pub record FrameCodec : Type 1 where
  pub Expr : Type 0
  pub decode_expr : List ℕ → Result String Expr
  pub encode_text : String → Result String (List ℕ)
  pub as_text : Expr → Option String
  pub read_input : String → Result String Input
  pub write_output : Output → Result String String

module _ (codec : FrameCodec) where
  unfoldable pub decode_frame : List ℕ → Result String Input
  decode_frame bytes = do
    expr ← map_err (String.◌++◌ "invalid SIM binary frame: ") (codec.decode_expr bytes)
    json ← ok_or (codec.as_text expr) "browser ABI frame payload must be one typed JSON string"
    map_err (String.◌++◌ "invalid typed browser frame: ") (codec.read_input json)

  unfoldable pub encode_frame : Output → Result String (List ℕ)
  encode_frame output = do json ← codec.write_output output; codec.encode_text json

  abbrev pub encode_outcome : Outcome → Result String (List ℕ) × Capsule
  encode_outcome (result, self) = (result >>= encode_frame, self)

  abbrev pub dispatch_decoded :
      String → Result String Input → Capsule → Result String (List ℕ) × Capsule
  dispatch_decoded function (err e) self = (err e, self)
  dispatch_decoded function (ok input) self = encode_outcome (dispatch function input self)

  -- The output is encoded after the capsule has changed.
  unfoldable pub call_frame : String → List ℕ → Capsule → Result String (List ℕ) × Capsule
  call_frame function bytes self =
      if ltb max_frame_bytes (length bytes)
      then (err "browser input frame exceeds the capsule limit", self)
      else dispatch_decoded function (decode_frame bytes) self
