-- ===== src/Browser/Types.antt =====
-- crates/sim-platform-browser/src/browser.rs: the data that crosses the browser membrane, and what is
-- asked of one operation.
use Prim.Native.String.{len}
use Prim.Native.String
use sim_platform.Prelude.{
  ℕ, ◌+◌, ◌*◌, ◌-◌, ◌^◌, min, String, Bool, true, false, not, ◌&&◌, ◌||◌, Option, none, some, List,
  [], ◌∷◌, ◌++◌, leb, eqb, if◌then◌else◌, length, text_key, Result, ok, err, ◌>>=◌, ◌>>◌,
}
use sim_platform.Prelude.Text.{codes, is_blank}

abbrev pub max_frame_bytes : ℕ
max_frame_bytes = 1024 * 1024

abbrev pub max_host_payload_bytes : ℕ
max_host_payload_bytes = 512 * 1024

abbrev pub max_handles : ℕ
max_handles = 256

pub record BrowserApis : Type 0 where
  pub storage : Bool
  pub fetch : Bool
  pub websocket : Bool
  pub clipboard : Bool
  pub notification : Bool
  pub permissions : Bool
  pub wake_lock : Bool

pub record BrowserCard : Type 0 where
  pub schema : String
  pub site : String
  pub services : List String
  pub omitted_services : List String
  pub presentation_owner : String

-- The pairs that `from_apis` goes through.
abbrev pub offers : BrowserApis → List (Bool × String)
offers apis =
    (apis.storage, "storage/handle")
    ∷ (apis.fetch, "transport/fetch")
    ∷ (apis.websocket, "transport/websocket")
    ∷ (apis.clipboard, "platform/clipboard")
    ∷ (apis.notification, "platform/notification")
    ∷ (apis.permissions, "platform/permission")
    ∷ (apis.wake_lock, "platform/wake-lock")
    ∷ []

abbrev pub push_available : List String → List (Bool × String) → List String
push_available services [] = services
push_available services ((available, service) ∷ rest) =
    push_available (if available then services ++ service ∷ [] else services) rest

unfoldable pub from_apis : BrowserApis → BrowserCard
from_apis apis = record {
  schema = "sim.platform-browser-card/v1";
  site = "platform/browser";
  services = push_available ("platform/lifecycle" ∷ "platform/activation" ∷ []) (offers apis);
  omitted_services = "platform/process" ∷ "loader/native-v1" ∷ "storage/ambient-filesystem" ∷ [];
  presentation_owner = "sim-web";
}

pub data Lifecycle : Type 0 where
  created active hidden suspended stopped : Lifecycle

pub data HostOperation : Type 0 where
  activation : (name : String) (payload : List ℕ) → HostOperation
  storage_open : (space : String) → HostOperation
  storage_read : (handle : ℕ) (key : String) → HostOperation
  storage_write : (handle : ℕ) (key : String) (bytes : List ℕ) → HostOperation
  storage_close : (handle : ℕ) → HostOperation
  fetch_url : (url method : String) (body : List ℕ) → HostOperation
  websocket_open : (url : String) → HostOperation
  websocket_send : (handle : ℕ) (bytes : List ℕ) → HostOperation
  websocket_close : (handle : ℕ) → HostOperation
  clipboard_read : HostOperation
  clipboard_write : (text : String) → HostOperation
  notify : (title body : String) → HostOperation
  ask_permission : (name : String) (request : Bool) → HostOperation
  hold_wake_lock : (acquire : Bool) → HostOperation

unfoldable pub service_of : HostOperation → String
service_of (activation name payload) = "platform/activation"
service_of (storage_open space) = "storage/handle"
service_of (storage_read handle key) = "storage/handle"
service_of (storage_write handle key bytes) = "storage/handle"
service_of (storage_close handle) = "storage/handle"
service_of (fetch_url url method body) = "transport/fetch"
service_of (websocket_open url) = "transport/websocket"
service_of (websocket_send handle bytes) = "transport/websocket"
service_of (websocket_close handle) = "transport/websocket"
service_of clipboard_read = "platform/clipboard"
service_of (clipboard_write text) = "platform/clipboard"
service_of (notify title body) = "platform/notification"
service_of (ask_permission name request) = "platform/permission"
service_of (hold_wake_lock acquire) = "platform/wake-lock"

-- `value.starts_with(prefix)`, on code points.
abbrev pub begins_with : (start value : List ℕ) → Bool
begins_with [] value = true
begins_with (c ∷ start) [] = false
begins_with (c ∷ start) (d ∷ value) = eqb c d && begins_with start value

unfoldable pub is_bounded_text : String → Bool
unfolding is_blank
is_bounded_text value = not (is_blank value) && leb (len value) 4096

unfoldable pub bounded_text : String → String → Result String (Unit {0})
bounded_text value label =
    if is_bounded_text value then ok tt else err (String.◌++◌ "invalid bounded browser " label)

unfoldable pub is_secure_url : String → Bool
is_secure_url value =
    begins_with (codes "https://") (codes value) || begins_with (codes "wss://") (codes value)

unfoldable pub bounded_url : String → Result String (Unit {0})
bounded_url value = do
  bounded_text value "URL"
  if is_secure_url value then ok tt else err "browser transport URL must use https or wss"

-- What `validate` measures, after the texts of the operation are found bounded.
unfoldable pub payload_bytes : HostOperation → Result String ℕ
payload_bytes (activation name payload) = do bounded_text name "activation"; ok (length payload)
payload_bytes (storage_open space) = do bounded_text space "storage namespace"; ok 0
payload_bytes (storage_read handle key) = do bounded_text key "storage key"; ok 0
payload_bytes (storage_write handle key bytes) = do
  bounded_text key "storage key"
  ok (length bytes)
payload_bytes (storage_close handle) = ok 0
payload_bytes (fetch_url url method body) = do
  bounded_url url
  bounded_text method "fetch method"
  ok (length body)
payload_bytes (websocket_open url) = do bounded_url url; ok 0
payload_bytes (websocket_send handle bytes) = ok (length bytes)
payload_bytes (websocket_close handle) = ok 0
payload_bytes clipboard_read = ok 0
payload_bytes (clipboard_write text) = ok (len text)
payload_bytes (notify title body) = ok (min (len title + len body) (2 ^ 64 - 1))
payload_bytes (ask_permission name request) = do bounded_text name "permission"; ok 0
payload_bytes (hold_wake_lock acquire) = ok 0

unfoldable pub validate : HostOperation → Result String (Unit {0})
validate operation = do
  bytes ← payload_bytes operation
  if leb bytes max_host_payload_bytes
      then ok tt
      else err "browser host payload exceeds the capsule limit"

-- `operation_handles`, and the handle that the operation closes.
unfoldable pub operation_handles : HostOperation → List ℕ
operation_handles (storage_read handle key) = handle ∷ []
operation_handles (storage_write handle key bytes) = handle ∷ []
operation_handles (storage_close handle) = handle ∷ []
operation_handles (websocket_send handle bytes) = handle ∷ []
operation_handles (websocket_close handle) = handle ∷ []
operation_handles _ = []

unfoldable pub closed_by : HostOperation → Option ℕ
closed_by (storage_close handle) = some handle
closed_by (websocket_close handle) = some handle
closed_by _ = none

pub data Input : Type 0 where
  card_request : BrowserApis → Input
  set_lifecycle : Lifecycle → Input
  host_call : HostOperation → Input
  host_complete : (call_id : ℕ) (succeeded : Bool) (payload : List ℕ) (handle : Option ℕ) → Input

pub data Output : Type 0 where
  card : BrowserCard → Output
  lifecycle : Lifecycle → Output
  called : (call_id : ℕ) (service : String) → HostOperation → Output
  completed : (call_id : ℕ) (succeeded : Bool) (payload : List ℕ) (handle : Option ℕ) → Output
