-- ===== src/Browser/Waiting.antt =====
-- A pending host call waits until it is completed.
use sim_platform.Prelude.{
  ℕ, ◌≤◌, String, Bool, false, Option, none, some, List, [], ◌∷◌, ◌≡◌, ◌≢◌, sym, ◌∙◌, subst, arith,
  ltb, inl, inr, length, All, number_key, ok, err,
}
use sim_platform.Prelude.Maps.{get}
use sim_platform.Browser.Types.{
  max_host_payload_bytes, BrowserApis, HostOperation, Input, card_request, set_lifecycle, host_call,
  host_complete, completed,
}
use sim_platform.Browser.{
  PendingCall, Capsule, new, ends_calls, Outcome, set_state, take_handle, finish_call, complete,
  handle_input, dispatch,
}
use sim_platform.Browser.Invariant.{get-remove_call, IsValid}
use sim_platform.Browser.Effects.{
  CallEffect, start_call-Effect, without_call, CompletionEffect, complete-Effect,
}
use sim_platform.Browser.History.{handle_input-IsValid, dispatch_rule, run, run-new-IsValid}
use sim_platform.Browser.Completion.{
  number-below, with_handle_same, get_after_start, completing, completing_lem,
}

-- An input that neither completes the call nor suspends or stops the capsule.
abbrev pub Spares : ℕ → String × Input → Type 0
Spares id (function, set_lifecycle state) = ends_calls state ≡ false
Spares id (function, host_complete j x payload handle) = j ≢ id
Spares id (function, input) = Unit

abbrev Waits : ℕ → PendingCall → Capsule → Type 0
Waits id call self = get id self.pending ≡ some call

module _ (id : ℕ) (call : PendingCall) (self : Capsule) (v : IsValid self)
    (waits : get id self.pending ≡ some call) where
  call-Waits :
      (operation : HostOperation) (o : Outcome) → CallEffect operation self o → Waits id call o.1
  call-Waits operation (ok output, self') e =
      (get_after_start id self v operation self' output e
        (number-below id self.next_call call self.pending v.numbered waits)).0
      ∙ waits
  call-Waits operation (err m, self') e = subst (Waits id call) (sym e) waits

  without_call-Waits :
      (j : ℕ) (x : Bool) (c : PendingCall) → j ≢ id → Waits id call (without_call j x c self)
  without_call-Waits j x c other =
      get-remove_call j id self.pending v.distinct ∙ ground (arith, waits, other)

  completion-Waits :
      (j : ℕ) (x : Bool) (payload : List ℕ) (handle : Option ℕ) (o : Outcome)
      → j ≢ id
      → CompletionEffect j x payload handle self o
      → Waits id call o.1
  completion-Waits j x payload handle (ok output, self') other (e, (c, h, room, same)) =
      subst (Waits id call) (sym same) (
        with_handle_same x c.service handle (without_call j x c self) (λ n m. get id m ≡ some call)
          (without_call-Waits j x c other))
  completion-Waits j x payload handle (err e, self') other (inl (same, why)) =
      subst (Waits id call) (sym same) waits
  completion-Waits j x payload handle (err e, self') other (inr (e', (c, h, same, full, given))) =
      subst (Waits id call) (sym same) (without_call-Waits j x c other)

  handle_input-Waits :
      (function : String) (input : Input)
      → Spares id (function, input)
      → Waits id call (handle_input input self).1
  handle_input-Waits function (card_request apis) s = waits
  handle_input-Waits function (set_lifecycle state) s = unfold set_state in rw s waits
  handle_input-Waits function (host_call operation) s =
      call-Waits operation _ (start_call-Effect operation self)
  handle_input-Waits function (host_complete j x payload handle) s =
      completion-Waits j x payload handle _ s (complete-Effect j x payload self handle)

run-Waits :
    (id : ℕ) (call : PendingCall) (inputs : List (String × Input)) (self : Capsule)
    → IsValid self
    → Waits id call self
    → All (Spares id) inputs
    → Waits id call (run inputs self)
unfolding run
run-Waits id call [] self v w s = w
run-Waits id call ((function, input) ∷ inputs) self v w s =
    run-Waits id call inputs (dispatch function input self).1
      (dispatch_rule IsValid function input self v (handle_input-IsValid self v input))
      (dispatch_rule (Waits id call) function input self w
        (handle_input-Waits id call self v w function input s.0))
      s.1

waiting_answered :
    (id : ℕ) (x : Bool) (payload : List ℕ) (self : Capsule) (call : PendingCall)
    → get id self.pending ≡ some call
    → length payload ≤ max_host_payload_bytes
    → (complete id x payload none self).0 ≡ ok (completed id x payload none)
unfolding complete finish_call take_handle
waiting_answered id x payload self call waits short =
    let fits : ltb max_host_payload_bytes (length payload) ≡ false = ground arith in
    rw (fits, waits)

-- A pending call can be completed: in a capsule that any inputs led to, and after any further inputs that
-- neither complete the call nor suspend or stop the capsule, its completion without a handle and with at
-- most 512 KiB is answered by the completion.
pub complete_answered :
    (apis : BrowserApis) (before later : List (String × Input)) (id : ℕ) (x : Bool)
    (payload : List ℕ) {call : PendingCall}
    → get id (run before (new apis)).pending ≡ some call
    → All (Spares id) later
    → length payload ≤ max_host_payload_bytes
    → (completing id x payload none (run later (run before (new apis)))).0
      ≡ ok (completed id x payload none)
complete_answered apis before later id x payload {call} pending spares short =
    let self : Capsule = run before (new apis) in
    let v = run-new-IsValid apis before in
    rw (completing_lem id x payload none (run later self)) (
      waiting_answered id x payload (run later self) call
        (run-Waits id call later self v pending spares) short)
