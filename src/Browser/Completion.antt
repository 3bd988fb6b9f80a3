-- ===== src/Browser/Completion.antt =====
-- The completion of host calls: each at most once, and possible until it comes.
use sim_platform.Prelude.{
  ℕ, ◌≤◌, ◌<◌, String, Bool, true, false, ◌&&◌, Option, none, some, List, [], ◌∷◌, ◌≡◌, ◌⊎◌, refl,
  sym, ◌∙◌, subst, arith, ltb, if◌then◌else◌, if_rule, Bool-cases, inl, inr, length, All,
  number_key, text_key, ◌==◌, ==-refl, ok, err,
}
use sim_platform.Prelude.Maps.{get, get-insert}
use sim_platform.Browser.Types.{
  max_host_payload_bytes, BrowserApis, HostOperation, service_of, closed_by, Input, card_request,
  set_lifecycle, host_call, host_complete, Output,
}
use sim_platform.Browser.{
  PendingCall, Capsule, new, ends_calls, Outcome, set_state, finish_call, complete, gives_handle,
  handle_input, dispatch,
}
use sim_platform.Browser.Invariant.{Calls, get-remove_call, IsValid}
use sim_platform.Browser.Effects.{
  IsStarted, CallEffect, start_call-Effect, without_call, with_handle, CompletionEffect,
  complete-Effect,
}
use sim_platform.Browser.History.{handle_input-IsValid, dispatch_rule, run, run-new-IsValid}

-- A call that was given out and is not pending any more.
pub record IsSpent (id : ℕ) (self : Capsule) : Type 0 where
  pub given : id < self.next_call
  pub gone : get id self.pending ≡ none

-- A pending call.
pub record Waits (id : ℕ) (call : PendingCall) (self : Capsule) : Type 0 where
  pub waiting : get id self.pending ≡ some call

pub number-below :
    (id n : ℕ) (call : PendingCall) (calls : Calls)
    → All (λ c. c.0 < n) calls
    → get id calls ≡ some call
    → id < n
unfolding get
number-below id n call [] h e = cc
number-below id n call ((j, old) ∷ calls) h e =
    ground (arith, number_key.eq_decides j id, number-below id n call calls h.1, h.0)

pub with_handle_same :
    (x : Bool) (service : String) (handle : Option ℕ) (self : Capsule) (P : ℕ → Calls → Type 0)
    → P self.next_call self.pending
    → P (with_handle x service handle self).next_call (with_handle x service handle self).pending
with_handle_same x service none self P h = h
with_handle_same x service (some value) self P h =
    if_rule (λ (c : Capsule). P c.next_call c.pending) (x && gives_handle service) _ _ (λ e. h)
      (λ e. h)

module _ (id : ℕ) (self : Capsule) (v : IsValid self) where
  -- Where the numbers below the next one are not given out again.
  pub get_after_start :
      (operation : HostOperation) (self' : Capsule) (output : Output)
      → IsStarted operation self self' output
      → id < self.next_call
      → (get id self'.pending ≡ get id self.pending) × (id < self'.next_call)
  get_after_start operation self' output s below =
      subst (λ (c : Capsule). (get id c.pending ≡ get id self.pending) × (id < c.next_call))
        (sym s.after)
        (get-insert ltb self.next_call id call self.pending ∙ other, omega (arith, below))
    where
      call : PendingCall
      call = record { service = service_of operation; close_handle = closed_by operation }

      other :
          (if self.next_call == id then some call else get id self.pending) ≡ get id self.pending
      other = ground (arith, below)

  IsSpent-call :
      IsSpent id self
      → (operation : HostOperation) (o : Outcome) → CallEffect operation self o
      → IsSpent id o.1
  IsSpent-call s operation (ok output, self') e =
      let (same, below) = get_after_start operation self' output e s.given in
      record { given = below; gone = same ∙ s.gone }
  IsSpent-call s operation (err m, self') e = subst (IsSpent id) (sym e) s

  IsSpent-without_call :
      IsSpent id self
      → (j : ℕ) (x : Bool) (call : PendingCall) → IsSpent id (without_call j x call self)
  IsSpent-without_call s j x call = record {
    given = s.given;
    gone = get-remove_call j id self.pending v.distinct ∙ ground (arith, s.gone);
  }

  IsSpent-with_handle :
      (x : Bool) (service : String) (handle : Option ℕ) (c : Capsule)
      → IsSpent id c
      → IsSpent id (with_handle x service handle c)
  IsSpent-with_handle x service handle c s =
      let same =
        with_handle_same x service handle c (λ n m. (id < n) × (get id m ≡ none))
          (s.given, s.gone) in
      record { given = same.0; gone = same.1 }

  IsSpent-completion :
      IsSpent id self
      → (j : ℕ) (x : Bool) (payload : List ℕ) (handle : Option ℕ) (o : Outcome)
      → CompletionEffect j x payload handle self o
      → IsSpent id o.1
  IsSpent-completion s j x payload handle (ok output, self') (e, (call, h, room, same)) =
      subst (IsSpent id) (sym same) (
        IsSpent-with_handle x call.service handle (without_call j x call self)
          (IsSpent-without_call s j x call))
  IsSpent-completion s j x payload handle (err e, self') (inl (same, why)) =
      subst (IsSpent id) (sym same) s
  IsSpent-completion s j x payload handle (err e, self') (inr (e', (call, h, same, full, given))) =
      subst (IsSpent id) (sym same) (IsSpent-without_call s j x call)

  handle_input-IsSpent : IsSpent id self → (input : Input) → IsSpent id (handle_input input self).1
  handle_input-IsSpent s (card_request apis) = record { given = s.given; gone = s.gone }
  handle_input-IsSpent s (set_lifecycle state) = ended (Bool-cases (ends_calls state))
    where
      ended :
          (ends_calls state ≡ true) ⊎ (ends_calls state ≡ false) → IsSpent id (set_state state self)
      ended (inl e) =
          unfold set_state in rw e (record { given = s.given; gone = unfold get in refl })
      ended (inr e) = unfold set_state in rw e (record { given = s.given; gone = s.gone })
  handle_input-IsSpent s (host_call operation) =
      IsSpent-call s operation _ (start_call-Effect operation self)
  handle_input-IsSpent s (host_complete j x payload handle) =
      IsSpent-completion s j x payload handle _ (complete-Effect j x payload self handle)

run-IsSpent :
    (id : ℕ) (inputs : List (String × Input)) (self : Capsule)
    → IsValid self
    → IsSpent id self
    → IsSpent id (run inputs self)
unfolding run
run-IsSpent id [] self v s = s
run-IsSpent id ((function, input) ∷ inputs) self v s =
    run-IsSpent id inputs (dispatch function input self).1
      (dispatch_rule IsValid function input self v (handle_input-IsValid self v input))
      (dispatch_rule (IsSpent id) function input self s (handle_input-IsSpent id self v s input))

-- The input that completes a call.
abbrev pub completing : ℕ → Bool → List ℕ → Option ℕ → Capsule → Outcome
completing id x payload handle =
    dispatch "platform/host-complete" (host_complete id x payload handle)

pub completing_lem :
    (id : ℕ) (x : Bool) (payload : List ℕ) (handle : Option ℕ) (self : Capsule)
    → completing id x payload handle self ≡ complete id x payload handle self
unfolding dispatch
completing_lem id x payload handle self = refl

module _ (id : ℕ) (x : Bool) (payload : List ℕ) (handle : Option ℕ) (self : Capsule)
    (short : length payload ≤ max_host_payload_bytes) where
  spent_refused :
      IsSpent id self
      → (complete id x payload handle self).0 ≡ err "unknown or already-completed browser call"
  unfolding complete finish_call
  spent_refused s =
      let fits : ltb max_host_payload_bytes (length payload) ≡ false = ground arith in
      rw (fits, s.gone)

  complete-IsSpent :
      IsValid self
      → (call : PendingCall) → get id self.pending ≡ some call
      → IsSpent id (complete id x payload handle self).1
  complete-IsSpent v call h =
      after (complete id x payload handle self) (complete-Effect id x payload self handle)
    where
      taken : (y : Bool) (c : PendingCall) → IsSpent id (without_call id y c self)
      taken y c = record {
        given = number-below id self.next_call call self.pending v.numbered h;
        gone = get-remove_call id id self.pending v.distinct ∙ rw (==-refl id);
      }

      after : (o : Outcome) → CompletionEffect id x payload handle self o → IsSpent id o.1
      after (ok output, self') (e, (c, found, room, same)) =
          subst (IsSpent id) (sym same) (
            IsSpent-with_handle id self v x c.service handle (without_call id x c self) (taken x c))
      after (err e, self') (inl (same, inl long)) = absurd (omega arith)
      after (err e, self') (inl (same, inr none_there)) = cc (h, none_there)
      after (err e, self') (inr (e', (c, found, same, full, given))) =
          subst (IsSpent id) (sym same) (taken x c)

-- A host call is completed at most once: in a capsule that any inputs led to, after a completion of a
-- pending call (with at most 512 KiB, whether it was answered or refused for want of a handle) and any
-- further inputs, every completion of that call with at most 512 KiB is refused as unknown or already
-- completed.
pub complete_once :
    (apis : BrowserApis) (before later : List (String × Input)) (id : ℕ) (x y : Bool)
    (payload again : List ℕ) (handle other : Option ℕ) {call : PendingCall}
    → get id (run before (new apis)).pending ≡ some call
    → length payload ≤ max_host_payload_bytes
    → length again ≤ max_host_payload_bytes
    → (completing id y again other
        (run later (completing id x payload handle (run before (new apis))).1)).0
      ≡ err "unknown or already-completed browser call"
complete_once apis before later id x y payload again handle other {call} pending short short' =
    let self : Capsule = run before (new apis) in
    let v = run-new-IsValid apis before in
    let first = complete id x payload handle self in
    let spent = complete-IsSpent id x payload handle self short v call pending in
    let valid = handle_input-IsValid self v (host_complete id x payload handle) in
    rw
      (completing_lem id x payload handle self, completing_lem id y again other (run later first.1))
      (spent_refused id y again other (run later first.1) short'
        (run-IsSpent id later first.1 valid spent))
