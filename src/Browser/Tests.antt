-- ===== src/Browser/Tests.antt =====
-- The browser capsule at concrete inputs.
use sim_platform.Prelude.{
  String, true, false, none, some, List, [], ◌∷◌, ◌≡◌, refl, arith, text_key, ok, err,
}
use sim_platform.Prelude.Maps.{get, insert}
use sim_platform.Prelude.{number_key}
use sim_platform.Browser.Types.{
  BrowserApis, from_apis, storage_open, clipboard_read, service_of, active, Input, set_lifecycle,
  host_call, host_complete, completed, validate, payload_bytes, bounded_text, is_bounded_text,
  operation_handles, closed_by,
}
use sim_platform.Browser.{PendingCall, new, dispatch, start_call, set_state, complete}
use sim_platform.Browser.Invariant.{IsValid}
use sim_platform.Browser.Effects.{CompletionEffect, complete-Effect}
use sim_platform.Browser.History.{run, run-new-IsValid}
use sim_platform.Browser.Completion.{completing, complete_once}
use sim_platform.Browser.Waiting.{complete_answered}

abbrev with_storage : BrowserApis
with_storage = record {
  storage = true;
  fetch = false;
  websocket = false;
  clipboard = false;
  notification = false;
  permissions = false;
  wake_lock = false;
}

abbrev opening : List (String × Input)
opening =
    ("platform/lifecycle", set_lifecycle active)
    ∷ ("platform/host-call", host_call (storage_open "notes"))
    ∷ ("platform/host-call", host_call clipboard_read)
    ∷ []

abbrev later_inputs : List (String × Input)
later_inputs =
    ("platform/host-call", host_call (storage_open "more"))
    ∷ ("platform/host-complete", host_complete 2 true [] (some 9))
    ∷ []

abbrev notes_call : PendingCall
notes_call = record { service = "storage/handle"; close_handle = none }

is_pending : get 1 (run opening (new with_storage)).pending ≡ some notes_call
unfolding run new dispatch set_state from_apis start_call validate payload_bytes bounded_text
    is_bounded_text service_of operation_handles closed_by get insert
is_pending = refl

run-new-IsValid_example : IsValid (run opening (new with_storage))
run-new-IsValid_example = run-new-IsValid with_storage opening

complete-Effect_example :
    CompletionEffect 1 true []
      (some 4)
      (run opening (new with_storage))
      (complete 1 true [] (some 4) (run opening (new with_storage)))
complete-Effect_example = complete-Effect 1 true [] (run opening (new with_storage)) (some 4)

complete_once_example :
    (completing 1 false
      (3 ∷ [])
      none
      (run later_inputs (completing 1 true [] (some 4) (run opening (new with_storage))).1)).0
    ≡ err "unknown or already-completed browser call"
complete_once_example =
    complete_once with_storage opening later_inputs 1 true false [] (3 ∷ []) (some 4) none
      is_pending (omega arith) (omega arith)

complete_answered_example :
    (completing 1 true [] none (run later_inputs (run opening (new with_storage)))).0
    ≡ ok (completed 1 true [] none)
complete_answered_example =
    complete_answered with_storage opening later_inputs 1 true [] is_pending
      (tt, ((λ e. omega (arith, e)), tt)) (omega arith)
