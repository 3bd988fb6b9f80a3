-- ===== src/Browser/Effects.antt =====
-- What each input does to the browser capsule.
use Prim.Native.String
use sim_platform.Prelude.{
  ℕ, ◌+◌, ◌-◌, ◌^◌, ◌≤◌, ◌<◌, String, Bool, true, false, not, ◌&&◌, Option, none, some, List, ◌≡◌,
  ◌⊎◌, ◌≢◌, refl, arith, ltb, leb, if◌then◌else◌, if_rule, Bool-cases, inl, inr, length, contains,
  any, add, number_key, text_key, ◌==◌, Result, ok, err, refuse_if, bind_rule, ◌>>=◌, ◌>>◌,
}
use sim_platform.Prelude.Maps.{get, insert}
use sim_platform.Browser.Types.{
  max_host_payload_bytes, max_handles, HostOperation, service_of, validate, operation_handles,
  closed_by, Output, called, completed,
}
use sim_platform.Browser.{
  PendingCall, Capsule, ends_calls, Outcome, call_numbers, start_call, commit, remove_call,
  after_close, gives_handle, take_handle, finish_call, complete,
}

-- What an accepted host call puts out and changes.
pub record IsStarted (operation : HostOperation) (self self' : Capsule) (output : Output)
    : Type 0 where
  pub running : ends_calls self.lifecycle ≡ false
  pub bounded : validate operation ≡ ok tt
  pub offered : any (λ item. item == service_of operation) self.card.services ≡ true
  pub room : length self.pending < max_handles
  pub open_handles :
      any (λ handle. not (contains self.handles handle)) (operation_handles operation) ≡ false
  pub unused : self.next_call < 2 ^ 64 - 1
  pub answer : output ≡ called self.next_call (service_of operation) operation
  pub after : self' ≡ record self {
    next_call = self.next_call + 1;
    pending =
        insert ltb self.next_call
          (record { service = service_of operation; close_handle = closed_by operation })
          self.pending;
  }

abbrev pub CallEffect : HostOperation → Capsule → Outcome → Type 0
CallEffect operation self (ok output, self') = IsStarted operation self self' output
CallEffect operation self (err e, self') = self' ≡ self

module _ (operation : HostOperation) (self : Capsule) where
  abbrev Commits : Result String (Output × Capsule) → Type 0
  Commits r = CallEffect operation self (commit self r)

  call_numbers-eq-ok : (n next : ℕ) → call_numbers n ≡ ok next → (n < 2 ^ 64 - 1) × (next ≡ n + 1)
  call_numbers-eq-ok n next h = (ground arith, ground arith)

  abbrev started : ℕ → Output × Capsule
  started next = (
    called self.next_call (service_of operation) operation,
    record self {
      next_call = next;
      pending =
          insert ltb self.next_call
            (record { service = service_of operation; close_handle = closed_by operation })
            self.pending;
    },
  )

  guard_rule :
      (b : Bool) (e : String) (k : Result String (Output × Capsule))
      → (b ≡ false → Commits k)
      → Commits (refuse_if b e >> k)
  guard_rule true e k h = refl
  guard_rule false e k h = h refl

  -- An accepted host call is of a running capsule with fewer than 256 pending calls and a number left, its
  -- operation is valid, of a service on the card, on open handles; it puts out the operation under the next
  -- number, which becomes pending, and takes that number, and changes no more. A refused call changes
  -- nothing.
  pub start_call-Effect : CallEffect operation self (commit self (start_call operation self))
  unfolding start_call
  start_call-Effect = guard_rule (ends_calls self.lifecycle) _ _ λ running.
      bind_rule Commits (validate operation) (λ _. offered_chain)
        (λ u bounded. guard_rule _ _ room_chain λ offered. guard_rule _ _ handle_chain λ room.
          guard_rule _ _ number_chain λ open_handles.
            bind_rule Commits (call_numbers self.next_call) (λ next. ok (started next))
              (λ next numbered.
                let (unused, same) = call_numbers-eq-ok self.next_call next numbered in
                let facts : IsStarted operation self (started next).1 (started next).0 = record {
                  running = running;
                  bounded = bounded;
                  offered = ground (arith, offered);
                  room = ground (arith, room);
                  open_handles = open_handles;
                  unused = unused;
                  answer = refl;
                  after = rw same;
                } in
                facts)
              (λ e none_left. refl))
        (λ e invalid. refl)
    where
      number_chain : Result String (Output × Capsule)
      number_chain = call_numbers self.next_call >>= λ next. ok (started next)

      handle_chain : Result String (Output × Capsule)
      handle_chain =
          refuse_if
            (any (λ handle. not (contains self.handles handle)) (operation_handles operation))
            "unknown or closed browser handle"
          >> number_chain

      room_chain : Result String (Output × Capsule)
      room_chain =
          refuse_if (leb max_handles (length self.pending)) "browser pending-call limit reached"
          >> handle_chain

      offered_chain : Result String (Output × Capsule)
      offered_chain =
          refuse_if (not (any (λ item. item == service_of operation) self.card.services))
            (String.◌++◌ "unsupported browser service: " (service_of operation))
          >> room_chain

-- What a completion changes: the call is no longer pending, the handle that it closed is no longer open,
-- and the handle that it gives is.
abbrev pub without_call : ℕ → Bool → PendingCall → Capsule → Capsule
without_call id succeeded call self = record self {
  pending = remove_call id self.pending;
  handles = after_close succeeded call.close_handle self.handles;
}

abbrev pub with_handle : Bool → String → Option ℕ → Capsule → Capsule
with_handle succeeded service none self = self
with_handle succeeded service (some value) self =
    if succeeded && gives_handle service
    then record self { handles = add value self.handles }
    else self

abbrev pub CompletionEffect : ℕ → Bool → List ℕ → Option ℕ → Capsule → Outcome → Type 0
CompletionEffect id succeeded payload handle self (ok output, self') =
    (output ≡ completed id succeeded payload handle)
    × ((call : PendingCall) × (get id self.pending ≡ some call)
        × ((handle ≡ none) ⊎ (length (without_call id succeeded call self).handles < max_handles))
        × (self' ≡ with_handle succeeded call.service handle (without_call id succeeded call self)))
CompletionEffect id succeeded payload handle self (err e, self') =
    ((self' ≡ self) × ((max_host_payload_bytes < length payload) ⊎ (get id self.pending ≡ none)))
    ⊎ ((e ≡ "browser handle limit reached")
        × ((call : PendingCall) × (get id self.pending ≡ some call)
            × (self' ≡ without_call id succeeded call self)
            × (max_handles ≤ length self'.handles)
            × (handle ≢ none)))

module _ (id : ℕ) (succeeded : Bool) (payload : List ℕ) (self : Capsule) where
  take-Effect :
      (handle : Option ℕ) (call : PendingCall)
      → get id self.pending ≡ some call
      → CompletionEffect id succeeded payload handle self (
          take_handle succeeded call.service handle
            (completed id succeeded payload handle)
            (without_call id succeeded call self))
  unfolding take_handle
  take-Effect none call h = (refl, (call, h, inl refl, refl))
  take-Effect (some value) call h = elim (Bool-cases (leb max_handles (length without.handles))) [
    | inl full ↦ rw full (inr (refl, (call, h, refl, ground (arith, full), λ e. cc (e))))
    | inr room ↦ elim (Bool-cases (succeeded && gives_handle call.service)) [
      | inl gives ↦ rw (room, gives) (refl, (call, h, inr (ground (arith, room)), rw gives))
      | inr keeps ↦ rw (room, keeps) (refl, (call, h, inr (ground (arith, room)), rw keeps))
    ]
  ]
    where
      without : Capsule
      without = without_call id succeeded call self

  -- A completion that is answered is of a pending call, which is then no longer pending: a success closes
  -- the handle of a closing call and opens the handle that it brings for a call of storage or of a web
  -- socket, and nothing else changes. A refused one changes nothing, for a long payload or a call that is
  -- not pending; but a completion that brings a handle is refused while 256 are open, after its call was
  -- taken out.
  pub complete-Effect :
      (handle : Option ℕ)
      → CompletionEffect id succeeded payload handle self
          (complete id succeeded payload handle self)
  unfolding complete finish_call
  complete-Effect handle =
      if_rule (CompletionEffect id succeeded payload handle self)
        (ltb max_host_payload_bytes (length payload)) _ _
        (λ long. inl (refl, inl (ground (arith, long)))) (λ short. found (get id self.pending) refl)
    where
      found :
          (o : Option PendingCall)
          → get id self.pending ≡ o
          → CompletionEffect id succeeded payload handle self
              (finish_call id succeeded payload handle o self)
      found none h = inl (refl, inr h)
      found (some call) h = take-Effect handle call h
