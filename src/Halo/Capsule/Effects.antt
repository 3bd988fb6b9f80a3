-- ===== src/Halo/Capsule/Effects.antt =====
-- What one received fragment changes, on every branch.
use sim_platform.Prelude.{
  ℕ, ◌+◌, ◌%◌, ◌^◌, true, false, not, Option, none, some, List, [], ◌∷◌, ◌++◌, ◌≡◌, ◌≢◌, refl,
  arith, ltb, eqb, if_rule, number_key, length, contains, Result, ok, err,
}
use sim_platform.Halo.Types.{
  max_message_bytes, max_pending_events, ProxyError, GlassesInput, Assembly, Fragment, HaloCapsule,
}
use sim_platform.Halo.Input.{decode_input}
use sim_platform.Halo.Capsule.{
  Outcome, enqueue, complete, extend, is_out_of_order, assemble, begin, accept, accept_result,
  receive_fragment,
}

-- Nothing but the reassembly in progress has changed.
abbrev pub SameButAssembly : HaloCapsule → HaloCapsule → Type 0
SameButAssembly self self' = (a : Option Assembly) × (self' ≡ record self { assembly = a })

-- A complete message adds one input at the end of the queue and one new sequence number, and leaves
-- no reassembly; anything else changes at most the reassembly.
abbrev pub Effect : HaloCapsule → Outcome → Type 0
Effect self (ok true, self') =
    (sequence : ℕ) × (input : GlassesInput) × (contains self.seen sequence ≡ false)
    × (length self.pending ≢ max_pending_events)
    × (self' ≡ record self {
      seen = sequence ∷ self.seen;
      assembly = none;
      pending = self.pending ++ input ∷ [];
    })
Effect self (ok false, self') = (a : Assembly) × (self' ≡ record self { assembly = some a })
Effect self (err e, self') = SameButAssembly self self'

module _ (self : HaloCapsule) where
  enqueue-Effect :
      (sequence : ℕ) (r : Result ProxyError GlassesInput)
      → contains self.seen sequence ≡ false
      → length self.pending ≢ max_pending_events
      → Effect self (enqueue sequence r (record self { assembly = none }))
  enqueue-Effect sequence (err e) fresh room = (none, refl)
  enqueue-Effect sequence (ok input) fresh room = (sequence, input, fresh, room, rw fresh)

  complete-Effect :
      (a : Assembly)
      → contains self.seen a.sequence ≡ false
      → Effect self (complete a (record self { assembly = none }))
  unfolding complete
  complete-Effect a fresh =
      if_rule (Effect self) (not (eqb (length a.payload) a.total)) _ _ (λ wrong. (none, refl))
        λ right.
          if_rule (Effect self) (eqb (length self.pending) max_pending_events) _ _
            (λ full. (none, refl))
            λ free. enqueue-Effect a.sequence (decode_input a.kind a.payload) fresh (ground arith)

  extend-Effect :
      (a : Assembly) (f : Fragment) (b : Option Assembly)
      → contains self.seen a.sequence ≡ false
      → Effect self (extend a f (record self { assembly = b }))
  unfolding extend
  extend-Effect a f b fresh =
      if_rule (Effect self) (not (eqb ((a.next + 1) % 2 ^ 8) a.count)) _ _ (λ more. (_, refl))
        (λ last.
          complete-Effect
            (record a { payload = a.payload ++ f.payload; next = (a.next + 1) % 2 ^ 8 }) fresh)

  assemble-Effect :
      (a b : Option Assembly) (f : Fragment)
      → contains self.seen f.sequence ≡ false
      → Effect self (assemble a f (record self { assembly = b }))
  unfolding assemble
  assemble-Effect none b f fresh = (b, refl)
  assemble-Effect (some a) b f fresh =
      if_rule (Effect self) (is_out_of_order a f) _ _ (λ disordered. (b, refl))
        λ ordered.
          if_rule (Effect self) (ltb max_message_bytes (length a.payload + length f.payload)) _ _
            (λ large. (none, refl))
            (λ fits.
              let same : a.sequence ≡ f.sequence = ground arith in
              extend-Effect a f b (rw same fresh))

  accept-Effect : (f : Fragment) → Effect self (accept f self)
  unfolding accept
  accept-Effect f =
      if_rule (Effect self) (not (eqb f.session self.session)) _ _ (λ stale. (self.assembly, refl))
        λ current.
          if_rule (Effect self) (contains self.seen f.sequence) _ _
            (λ replayed. (self.assembly, refl)) λ fresh. begin-Effect fresh
    where
      begin-Effect :
          contains self.seen f.sequence ≡ false
          → Effect self (assemble (begin f self).assembly f (begin f self))
      begin-Effect fresh =
          if_rule (λ s. Effect self (assemble s.assembly f s)) (eqb f.index 0) _ _
            (λ first. assemble-Effect _ _ f fresh)
            (λ later. assemble-Effect self.assembly self.assembly f fresh)

accept_result-Effect :
    (self : HaloCapsule) (r : Result ProxyError Fragment) → Effect self (accept_result r self)
accept_result-Effect self (err e) = (self.assembly, refl)
accept_result-Effect self (ok f) = accept-Effect self f

-- On every branch of `receive_fragment`: a message that is completed adds exactly one input, at the
-- end of a queue that was not full, and exactly one sequence number that was not recorded before, and
-- leaves no reassembly; a partial one and a refusal change nothing but the reassembly.
pub receive_fragment-Effect :
    (self : HaloCapsule) (bytes : List ℕ) → Effect self (receive_fragment bytes self)
unfolding receive_fragment
receive_fragment-Effect self bytes = accept_result-Effect self _
