-- ===== src/Halo/Capsule/Delivery.antt =====
-- From `encode_message` on one side to the queue of the capsule on the other.
use sim_platform.Prelude.{
  ℕ, zero, suc, ◌+◌, ◌-◌, ◌*◌, ◌%◌, ◌^◌, ◌≤◌, ◌<◌, Bool, true, false, not, Option, none, some, List,
  [], ◌∷◌, ◌++◌, ◌≡◌, ◌∙◌, inl, inr, ◌⊎◌, length-take, refl, ap, arith, ltb, eqb, Bool-cases,
  number_key, length, take, take_all, contains, Result, ok,
}
use sim_platform.Halo.Types.{
  max_message_bytes, max_pending_events, active, ProxyError, Message, Assembly, Fragment,
  HaloCapsule,
}
use sim_platform.Halo.Codec.{fragment_count, chunk, encode_message, decode_fragment}
use sim_platform.Halo.Codec.Laws.{
  IsWire, fragment_of, frames_from, frame_of, length-chunk, take-chunk, fragment_starts_inside,
  fragments_reach_end, fragment_count_bounds, decode_fragment-frame_of, encode_message-frames_from,
}
use sim_platform.Halo.Input.{decode_input}
use sim_platform.Halo.Capsule.{
  require_active, Outcome, enqueue, complete, extend, is_out_of_order, assemble, begin, accept,
  receive_fragment,
}

-- Every frame in order: the results, and the capsule at the end.
unfoldable pub receive_all :
    List (List ℕ) → HaloCapsule → List (Result ProxyError Bool) × HaloCapsule
receive_all [] self = ([], self)
receive_all (frame ∷ frames) self =
    let (result, self') = receive_fragment frame self in
    let (results, self'') = receive_all frames self' in (result ∷ results, self'')

receive_all-cons :
    (frame : List ℕ) (frames : List (List ℕ)) (self self' end : HaloCapsule)
    (result : Result ProxyError Bool) (results : List (Result ProxyError Bool))
    → receive_fragment frame self ≡ (result, self')
    → receive_all frames self' ≡ (results, end)
    → receive_all (frame ∷ frames) self ≡ (result ∷ results, end)
unfolding receive_all
receive_all-cons frame frames self self' end result results e h = rw (e, h)

-- `more` fragments are acknowledged as partial, then the last has a result of its own.
abbrev pub awaited : ℕ → Result ProxyError Bool → List (Result ProxyError Bool)
awaited zero last = last ∷ []
awaited (suc more) last = ok false ∷ awaited more last

-- The capsule accepts fragments.
pub record IsActive (self : HaloCapsule) : Type 0 where
  pub consented : self.consent ≡ true
  pub linked : self.connected ≡ true
  pub running : self.lifecycle ≡ active

require_active-IsActive : (self : HaloCapsule) → IsActive self → require_active self ≡ ok tt
unfolding require_active
require_active-IsActive self h = ground arith

receive_fragment-accept :
    (self : HaloCapsule) (bytes : List ℕ) (fragment : Fragment)
    → require_active self ≡ ok tt
    → decode_fragment bytes ≡ ok fragment
    → receive_fragment bytes self ≡ accept fragment self
unfolding receive_fragment
receive_fragment-accept self bytes fragment h e = rw (h, e)

module _ (m : Message) (self : HaloCapsule) where
  -- The assembly after `index` fragments of the message.
  abbrev partial_of : ℕ → Assembly
  partial_of index = record {
    kind = m.kind;
    session = m.session;
    sequence = m.sequence;
    count = fragment_count m.payload;
    next = index;
    total = length m.payload;
    payload = take (index * 180) m.payload;
  }

  abbrev at_fragment : Option Assembly → HaloCapsule
  at_fragment a = record self { assembly = a }

  -- A message that the capsule is ready to take.
  pub record IsDeliverable : Type 0 where
    pub wire : IsWire m
    pub is_active : IsActive self
    pub same_session : m.session ≡ self.session
    pub unseen : contains self.seen m.sequence ≡ false
    pub room : length self.pending < max_pending_events

  module _ (d : IsDeliverable) (index : ℕ) (inside : index < fragment_count m.payload) where
    grown_fits : length (take (index * 180) m.payload) + length (chunk m.payload index) ≤ 2048
    grown_fits = omega (
      arith,
      length-take (index * 180) m.payload,
      length-chunk m.payload index,
      d.wire.payload_fits,
    )

    assemble-extend :
        (s : HaloCapsule)
        → assemble (some (partial_of index)) (fragment_of m index) s
          ≡ extend (partial_of index) (fragment_of m index) s
    unfolding assemble
    assemble-extend s =
        let in_order : is_out_of_order (partial_of index) (fragment_of m index) ≡ false =
          ground arith in
        let fits : ltb max_message_bytes
              (length (take (index * 180) m.payload) + length (chunk m.payload index))
            ≡ false =
          ground (arith, grown_fits) in
        rw (in_order, fits)

    grown_partial :
        record (partial_of index) {
          payload = take (index * 180) m.payload ++ chunk m.payload index;
          next = (index + 1) % 2 ^ 8;
        }
        ≡ partial_of (index + 1)
    grown_partial =
        let few = fragment_count_bounds m.payload d.wire.payload_fits in
        let small : (index + 1) % 2 ^ 8 ≡ index + 1 = omega arith in
        rw (small, take-chunk m.payload index (fragment_starts_inside m.payload index inside))

    extend_more :
        (s : HaloCapsule)
        → index + 1 < fragment_count m.payload
        → extend (partial_of index) (fragment_of m index) s
          ≡ (ok false, record s { assembly = some (partial_of (index + 1)) })
    unfolding extend
    extend_more s more =
        let few = fragment_count_bounds m.payload d.wire.payload_fits in
        let go_on : not (eqb ((index + 1) % 2 ^ 8) (fragment_count m.payload)) ≡ true =
          ground arith in
        rw grown_partial (rw go_on)

    extend_last :
        (s : HaloCapsule)
        → index + 1 ≡ fragment_count m.payload
        → extend (partial_of index) (fragment_of m index) s
          ≡ complete (partial_of (index + 1)) (record s { assembly = none })
    unfolding extend
    extend_last s last =
        let few = fragment_count_bounds m.payload d.wire.payload_fits in
        let stop : not (eqb ((index + 1) % 2 ^ 8) (fragment_count m.payload)) ≡ false =
          ground arith in
        rw grown_partial (rw stop)

    -- Before the first fragment any assembly may be there; then it is the one of this message.
    abbrev Ready : Option Assembly → Type 0
    Ready a = (index ≡ 0) ⊎ (a ≡ some (partial_of index))

    begin-Ready :
        (a : Option Assembly)
        → Ready a
        → begin (fragment_of m index) (at_fragment a) ≡ at_fragment (some (partial_of index))
    begin-Ready a (inl first) = rw first
    begin-Ready a (inr same) = elim (Bool-cases (eqb index 0)) [
      | inl first ↦ let zero_index : index ≡ 0 = ground arith in rw zero_index
      | inr later ↦ rw (same, later)
    ]

    receive_fragment-extend :
        (a : Option Assembly)
        → Ready a
        → receive_fragment (frame_of m index) (at_fragment a)
          ≡ extend (partial_of index) (fragment_of m index) (at_fragment (some (partial_of index)))
    unfolding accept
    receive_fragment-extend a ready =
        let is_active : IsActive (at_fragment a) = record {
          consented = d.is_active.consented;
          linked = d.is_active.linked;
          running = d.is_active.running;
        } in
        receive_fragment-accept (at_fragment a) (frame_of m index) (fragment_of m index)
          (require_active-IsActive (at_fragment a) is_active)
          (decode_fragment-frame_of m index d.wire inside)
        ∙ rw (same_stream, d.unseen, begin-Ready a ready) (assemble-extend _)
      where
        same_stream : not (eqb m.session self.session) ≡ false
        same_stream = ground (arith, d.same_session)

  -- What becomes of the message once it is whole: nothing is left over, and the decoder gets exactly
  -- the payload that was sent.
  abbrev pub delivered : Outcome
  delivered = enqueue m.sequence (decode_input m.kind m.payload) (at_fragment none)

  complete_lem :
      IsDeliverable
      → complete (partial_of (fragment_count m.payload)) (at_fragment none) ≡ delivered
  unfolding complete
  complete_lem d =
      let whole =
        take_all (fragment_count m.payload * 180) m.payload (fragments_reach_end m.payload) in
      let right_size : not (eqb (length m.payload) (length m.payload)) ≡ false = ground arith in
      let free : eqb (length self.pending) max_pending_events ≡ false = ground (arith, d.room) in
      rw (whole, right_size, free)

  receive_frames :
      (d : IsDeliverable) (index more : ℕ) (a : Option Assembly)
      → index + suc more ≡ fragment_count m.payload
      → (index ≡ 0) ⊎ (a ≡ some (partial_of index))
      → receive_all (frames_from m index (suc more)) (at_fragment a)
        ≡ (awaited more delivered.0, delivered.1)
  receive_frames d index zero a total ready =
      let last : index + 1 ≡ fragment_count m.payload = omega arith in
      let s = at_fragment (some (partial_of index)) in
      receive_all-cons (frame_of m index) [] (at_fragment a) delivered.1 delivered.1 delivered.0 []
        (receive_fragment-extend d index (omega arith) a ready
          ∙ extend_last d index (omega arith) s last
          ∙ rw last (complete_lem d))
        (unfold receive_all in refl)
  receive_frames d index (suc more) a total ready =
      let s = at_fragment (some (partial_of index)) in
      receive_all-cons (frame_of m index) (frames_from m (index + 1) (suc more)) (at_fragment a)
        (at_fragment (some (partial_of (index + 1)))) delivered.1 (ok false)
        (awaited more delivered.0)
        (receive_fragment-extend d index (omega arith) a ready
          ∙ extend_more d index (omega arith) s (omega arith))
        (receive_frames d (index + 1) more (some (partial_of (index + 1))) (omega arith) (inr refl))

length-frames_from : (m : Message) (index rounds : ℕ) → length (frames_from m index rounds) ≡ rounds
length-frames_from m index zero = refl
length-frames_from m index (suc rounds) = omega (arith, length-frames_from m (index + 1) rounds)

-- A message whose session, sequence number and payload fit the wire, sent by `encode_message` and
-- received fragment by fragment in order by an active capsule of its session, which has not recorded
-- its sequence number and has room in its queue: every fragment but the last is acknowledged as
-- partial, whatever reassembly was there before, and the last has the outcome of queueing what
-- `decode_input` makes of exactly the kind and the payload that were sent, with no reassembly left.
pub receive_all-encode_message :
    (m : Message) (self : HaloCapsule)
    → IsDeliverable m self
    → (frames : List (List ℕ)) × (more : ℕ) × (encode_message m ≡ ok frames)
      × (length frames ≡ suc more)
      × (receive_all frames self ≡ (awaited more (delivered m self).0, (delivered m self).1))
receive_all-encode_message m self d =
    let few = fragment_count_bounds m.payload d.wire.payload_fits in
    let more = fragment_count m.payload - 1 in
    let rounds : fragment_count m.payload ≡ suc more = omega arith in
    (
      frames_from m 0 (suc more),
      more,
      encode_message-frames_from m d.wire ∙ ap (λ (n : ℕ). ok (frames_from m 0 n)) rounds,
      length-frames_from m 0 (suc more),
      receive_frames m self d 0 more self.assembly (omega arith) (inl refl),
    )
