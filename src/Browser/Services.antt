-- ===== src/Browser/Services.antt =====
-- The card of the browser capsule: which operations its services serve.
use sim_platform.Prelude.{
  String, Bool, true, false, ◌||◌, ◌&&◌, List, [], ◌∷◌, ◌++◌, ◌≡◌, refl, ◌∙◌, arith, any, text_key,
  ◌==◌,
}
use sim_platform.Browser.Types.{
  BrowserApis, from_apis, offers, push_available, HostOperation, activation, storage_open,
  storage_read, storage_write, storage_close, fetch_url, websocket_open, websocket_send,
  websocket_close, clipboard_read, clipboard_write, notify, ask_permission, hold_wake_lock,
  service_of,
}

-- The interface of the browser that an operation needs, where it needs one.
abbrev pub is_available : BrowserApis → HostOperation → Bool
is_available apis (activation name payload) = true
is_available apis (storage_open space) = apis.storage
is_available apis (storage_read handle key) = apis.storage
is_available apis (storage_write handle key bytes) = apis.storage
is_available apis (storage_close handle) = apis.storage
is_available apis (fetch_url url method body) = apis.fetch
is_available apis (websocket_open url) = apis.websocket
is_available apis (websocket_send handle bytes) = apis.websocket
is_available apis (websocket_close handle) = apis.websocket
is_available apis clipboard_read = apis.clipboard
is_available apis (clipboard_write text) = apis.clipboard
is_available apis (notify title body) = apis.notification
is_available apis (ask_permission name request) = apis.permissions
is_available apis (hold_wake_lock acquire) = apis.wake_lock

abbrev offered_in : (String → Bool) → List (Bool × String) → Bool
offered_in p [] = false
offered_in p ((available, service) ∷ rest) = (available && p service) || offered_in p rest

any-append :
    (p : String → Bool) (xs : List String) (s : String) → any p (xs ++ s ∷ []) ≡ (any p xs || p s)
any-append p [] s = ground arith
any-append p (x ∷ xs) s = ground (arith, any-append p xs s)

any-push_available :
    (p : String → Bool) (services : List String) (rest : List (Bool × String))
    → any p (push_available services rest) ≡ (any p services || offered_in p rest)
any-push_available p services [] = ground arith
any-push_available p services ((true, service) ∷ rest) =
    any-push_available p (services ++ service ∷ []) rest
    ∙ ground (arith, any-append p services service)
any-push_available p services ((false, service) ∷ rest) = any-push_available p services rest

-- The card of a browser offers the service of an operation exactly when the browser has the interface
-- that the operation needs; an activation needs none.
pub from_apis-service_of :
    (apis : BrowserApis) (operation : HostOperation)
    → any (λ service. service == service_of operation) (from_apis apis).services
      ≡ is_available apis operation
unfolding from_apis service_of
from_apis-service_of apis operation =
    any-push_available (λ service. service == service_of operation)
      ("platform/lifecycle" ∷ "platform/activation" ∷ []) (offers apis)
    ∙ each operation
  where
    each :
        (operation : HostOperation)
        → (any
              (λ service. service == service_of operation)
              ("platform/lifecycle" ∷ "platform/activation" ∷ [])
            || offered_in (λ service. service == service_of operation) (offers apis))
          ≡ is_available apis operation
    each (activation name payload) = refl
    each (storage_open space) = ground arith
    each (storage_read handle key) = ground arith
    each (storage_write handle key bytes) = ground arith
    each (storage_close handle) = ground arith
    each (fetch_url url method body) = ground arith
    each (websocket_open url) = ground arith
    each (websocket_send handle bytes) = ground arith
    each (websocket_close handle) = ground arith
    each clipboard_read = ground arith
    each (clipboard_write text) = ground arith
    each (notify title body) = ground arith
    each (ask_permission name request) = ground arith
    each (hold_wake_lock acquire) = ground arith
