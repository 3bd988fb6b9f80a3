-- ===== src/Browser/History.antt =====
-- Sequences of inputs to the browser capsule.
use sim_platform.Prelude.{
  ℕ, ◌+◌, ◌≤◌, ◌<◌, String, Bool, true, false, ◌&&◌, Option, none, some, List, [], ◌∷◌, ◌≡◌, ◌⊎◌,
  refl, sym, ap, subst, arith, if_rule, Bool-cases, inl, inr, length, contains, IsNodup, number_key,
  text_key, ◌==◌, ok, err,
}
use sim_platform.Prelude.Maps.{get}
use sim_platform.Browser.Types.{
  max_handles, BrowserApis, HostOperation, service_of, closed_by, Input, card_request,
  set_lifecycle, host_call, host_complete, Output,
}
use sim_platform.Browser.{
  PendingCall, Capsule, new, ends_calls, Outcome, after_close, gives_handle, handle_input,
  function_of, functions, dispatch,
}
use sim_platform.Browser.Invariant.{
  get-below, insert-IsDistinct, insert-below, length-insert, remove_call-All,
  remove_call-IsDistinct, length-remove_call, length-remove_handle, remove_handle-IsNodup, IsValid,
  new-IsValid, set_state-IsValid,
}
use sim_platform.Browser.Effects.{
  IsStarted, CallEffect, start_call-Effect, without_call, with_handle, CompletionEffect,
  complete-Effect,
}

after_close-IsNodup :
    (x : Bool) (closed : Option ℕ) (handles : List ℕ)
    → IsNodup handles
    → IsNodup (after_close x closed handles)
after_close-IsNodup true (some c) handles h = remove_handle-IsNodup c handles h
after_close-IsNodup false (some c) handles h = h
after_close-IsNodup true none handles h = h
after_close-IsNodup false none handles h = h

length-after_close :
    (x : Bool) (closed : Option ℕ) (handles : List ℕ)
    → length (after_close x closed handles) ≤ length handles
length-after_close true (some c) handles = length-remove_handle c handles
length-after_close false (some c) handles = omega arith
length-after_close true none handles = omega arith
length-after_close false none handles = omega arith

module _ (self : Capsule) (v : IsValid self) where
  started-IsValid :
      (operation : HostOperation) (self' : Capsule) (output : Output)
      → IsStarted operation self self' output
      → IsValid self'
  started-IsValid operation self' output s = subst IsValid (sym s.after) (record {
    few_calls = omega (arith, s.room, length-insert self.next_call call self.pending);
    few_handles = v.few_handles;
    distinct =
        insert-IsDistinct self.next_call call self.pending
          (get-below self.next_call self.pending v.numbered) v.distinct;
    numbered =
        insert-below self.next_call (self.next_call + 1) call self.pending (omega arith)
          (omega arith) v.numbered;
    in_range = omega (arith, s.unused);
    open_once = v.open_once;
    ended = λ e. cc (e, s.running);
  })
    where
      call : PendingCall
      call = record { service = service_of operation; close_handle = closed_by operation }

  call-IsValid :
      (operation : HostOperation) (o : Outcome) → CallEffect operation self o → IsValid o.1
  call-IsValid operation (ok output, self') s = started-IsValid operation self' output s
  call-IsValid operation (err e, self') s = subst IsValid (sym s) v

  without_call-IsValid :
      (id : ℕ) (x : Bool) (call : PendingCall)
      → get id self.pending ≡ some call
      → IsValid (without_call id x call self)
  without_call-IsValid id x call h = record {
    few_calls = omega (arith, v.few_calls, length-remove_call id self.pending);
    few_handles = omega (arith, v.few_handles, length-after_close x call.close_handle self.handles);
    distinct = remove_call-IsDistinct id self.pending v.distinct;
    numbered = remove_call-All (λ c. c.0 < self.next_call) id self.pending v.numbered;
    in_range = v.in_range;
    open_once = after_close-IsNodup x call.close_handle self.handles v.open_once;
    ended = λ e. cc (h, ap (get id) (v.ended e).0, none_there id);
  }
    where
      none_there : (id : ℕ) → get {V = PendingCall} id [] ≡ none
      none_there id = unfold get in refl

  with_handle-IsValid :
      (x : Bool) (service : String) (handle : Option ℕ)
      → ends_calls self.lifecycle ≡ false
      → (handle ≡ none) ⊎ (length self.handles < max_handles)
      → IsValid (with_handle x service handle self)
  with_handle-IsValid x service none running room = v
  with_handle-IsValid x service (some value) running (inl e) = cc
  with_handle-IsValid x service (some value) running (inr room) =
      if_rule IsValid (x && gives_handle service) _ _
        (λ gives. record {
          few_calls = v.few_calls;
          few_handles = ground (arith, room);
          distinct = v.distinct;
          numbered = v.numbered;
          in_range = v.in_range;
          open_once =
              if_rule IsNodup (contains self.handles value) _ _ (λ e. v.open_once)
                (λ e. (e, v.open_once));
          ended = λ e. cc (e, running);
        })
        (λ keeps. v)

module _ (self : Capsule) (v : IsValid self) where
  -- A capsule with a pending call is running.
  pub running_with :
      (id : ℕ) (call : PendingCall)
      → get id self.pending ≡ some call
      → ends_calls self.lifecycle ≡ false
  running_with id call h = elim (Bool-cases (ends_calls self.lifecycle)) [
    | inl e ↦ cc (h, ap (get id) (v.ended e).0, none_there)
    | inr e ↦ e
  ]
    where
      none_there : get {V = PendingCall} id [] ≡ none
      none_there = unfold get in refl

  pub completion-IsValid :
      (id : ℕ) (x : Bool) (payload : List ℕ) (handle : Option ℕ) (o : Outcome)
      → CompletionEffect id x payload handle self o
      → IsValid o.1
  completion-IsValid id x payload handle (ok output, self') (e, (call, h, room, same)) =
      subst IsValid (sym same) (
        with_handle-IsValid (without_call id x call self) (without_call-IsValid self v id x call h)
          x call.service handle (running_with id call h) room)
  completion-IsValid id x payload handle (err e, self') (inl (same, why)) =
      subst IsValid (sym same) v
  completion-IsValid id x payload handle (err e, self') (inr (e', (call, h, same, full, given))) =
      subst IsValid (sym same) (without_call-IsValid self v id x call h)

  pub handle_input-IsValid : (input : Input) → IsValid (handle_input input self).1
  handle_input-IsValid (card_request apis) = record {
    few_calls = v.few_calls;
    few_handles = v.few_handles;
    distinct = v.distinct;
    numbered = v.numbered;
    in_range = v.in_range;
    open_once = v.open_once;
    ended = v.ended;
  }
  handle_input-IsValid (set_lifecycle state) = set_state-IsValid state self v
  handle_input-IsValid (host_call operation) =
      call-IsValid self v operation _ (start_call-Effect operation self)
  handle_input-IsValid (host_complete id x payload handle) =
      completion-IsValid id x payload handle _ (complete-Effect id x payload self handle)

-- What holds of the capsule as it is, and after the input is handled, holds after `dispatch`.
pub dispatch_rule :
    (P : Capsule → Type 0) (function : String) (input : Input) (self : Capsule)
    → P self
    → P (handle_input input self).1
    → P (dispatch function input self).1
unfolding dispatch
dispatch_rule P function input self refused handled =
    if_rule (λ (o : Outcome). P o.1) (function == function_of input) _ _ (λ e. handled)
      λ e.
        if_rule (λ (o : Outcome). P o.1) (contains functions function) _ _ (λ e. refused)
          (λ e. refused)

unfoldable pub run : List (String × Input) → Capsule → Capsule
run [] self = self
run ((function, input) ∷ inputs) self = run inputs (dispatch function input self).1

pub run_from-IsValid :
    (inputs : List (String × Input)) (self : Capsule) → IsValid self → IsValid (run inputs self)
unfolding run
run_from-IsValid [] self v = v
run_from-IsValid ((function, input) ∷ inputs) self v =
    run_from-IsValid inputs (dispatch function input self).1
      (dispatch_rule IsValid function input self v (handle_input-IsValid self v input))

-- After any sequence of inputs to a new capsule, under whatever function names: at most 256 calls are
-- pending and at most 256 handles open; no two pending calls have one number, each has a number that was
-- given out, and the next number fits in 64 bits; no handle is recorded twice; and a suspended or stopped
-- capsule has no pending call and no open handle.
pub run-new-IsValid :
    (apis : BrowserApis) (inputs : List (String × Input)) → IsValid (run inputs (new apis))
run-new-IsValid apis inputs = run_from-IsValid inputs (new apis) (new-IsValid apis)
