-- ===== src/Amazfit/Effects.antt =====
-- What one received frame changes, on every branch, and the reason for each refusal.
use sim_platform.Prelude.{
  ℕ, ◌<◌, true, false, not, ◌||◌, Option, none, some, List, [], ◌∷◌, ◌++◌, ◌≡◌, ◌≢◌, refl, arith,
  ltb, eqb, number_key, length, contains, ◌⊎◌, inl, inr, if_rule, Result, ok, err, ◌>>◌, ok_or_rule,
  refuse_if_rule,
}
use sim_platform.Amazfit.{
  max_frame_bytes, max_pending_events, protocol_version, WatchEvent, Envelope, ProxyError,
  oversized, consent_required, inactive, malformed, wrong_version, stale_session, queue_full,
  AmazfitCapsule, is_active, is_valid_event, validate_event, require_link, admit, Outcome, enqueue,
  read_frame, receive,
}
use sim_platform.Amazfit.Invariant.{IsCurrent}

-- The capsule takes frames.
pub record IsLinked (self : AmazfitCapsule) : Type 0 where
  pub consented : self.consent ≡ true
  pub connected : self.connected ≡ true
  pub running : is_active self.lifecycle ≡ true

module _ (from_slice : List ℕ → Option (Envelope WatchEvent)) (frame : List ℕ)
    (self : AmazfitCapsule) where
  -- An event of the frame with a property.
  abbrev pub Read : (Envelope WatchEvent → Type 0) → Type 0
  Read P = (event : Envelope WatchEvent) × (from_slice frame ≡ some event) × P event

  -- The frame is small, the capsule takes frames, and the event belongs to the current session.
  pub record IsAdmitted (event : Envelope WatchEvent) : Type 0 where
    pub small : ltb max_frame_bytes (length frame) ≡ false
    pub linked : IsLinked self
    pub read : from_slice frame ≡ some event
    pub current : IsCurrent self.session event

  abbrev pub Reason : ProxyError → Type 0
  Reason oversized = max_frame_bytes < length frame
  Reason consent_required = self.consent ≡ false
  Reason inactive =
      (self.consent ≡ true) × ((self.connected ≡ false) ⊎ (is_active self.lifecycle ≡ false))
  Reason malformed =
      (from_slice frame ≡ none) ⊎ Read (λ event. is_valid_event event.payload ≡ false)
  Reason wrong_version = Read (λ event. event.version ≢ protocol_version)
  Reason stale_session = Read (λ event. event.session ≢ self.session)
  Reason queue_full =
      Read (λ event. contains self.seen event.sequence ≡ false)
      × (length self.pending ≡ max_pending_events)

  -- The checks either find an admitted event or refuse for a reason.
  abbrev pub Checked : Result ProxyError (Envelope WatchEvent) → Type 0
  Checked (ok event) = IsAdmitted event
  Checked (err e) = Reason e × (e ≢ queue_full)

  admit-Checked :
      (event : Envelope WatchEvent)
      → ltb max_frame_bytes (length frame) ≡ false
      → IsLinked self
      → from_slice frame ≡ some event
      → Checked (admit self event)
  unfolding admit validate_event
  admit-Checked event small linked read =
      refuse_if_rule Checked (not (eqb event.version protocol_version)) _ _
        (λ other. ((event, read, ground arith), λ e. cc))
        λ versioned.
          refuse_if_rule Checked (not (eqb event.session self.session)) _ _
            (λ stale. ((event, read, ground arith), λ e. cc))
            λ current.
              if_rule (λ r. Checked (r >> ok event)) (is_valid_event event.payload) _ _
                (λ good. record {
                  small = small;
                  linked = linked;
                  read = read;
                  current = record {
                    versioned = ground arith;
                    in_session = ground arith;
                    contents = good;
                  };
                })
                (λ bad. (inr (event, read, bad), λ e. cc))

  abbrev Linked : Result ProxyError (Unit {0}) → Type 0
  Linked (ok u) = IsLinked self
  Linked (err e) = Reason e × (e ≢ queue_full)

  asleep_cases :
      not self.connected || not (is_active self.lifecycle) ≡ true
      → (self.connected ≡ false) ⊎ (is_active self.lifecycle ≡ false)
  asleep_cases h = ground arith

  require_link-Linked : Linked (require_link self)
  unfolding require_link
  require_link-Linked =
      refuse_if_rule Linked (not self.consent) _ _ (λ refused. (ground arith, λ e. cc))
        λ given.
          refuse_if_rule Linked (not self.connected || not (is_active self.lifecycle)) _ _
            (λ asleep. ((ground arith, asleep_cases asleep), λ e. cc))
            (λ awake. record {
              consented = ground arith;
              connected = ground arith;
              running = ground arith;
            })

  -- A chain behind the gates of the link.
  link_rule :
      (r : Result ProxyError (Unit {0})) (k : Result ProxyError (Envelope WatchEvent))
      → Linked r
      → (IsLinked self → Checked k)
      → Checked (r >> k)
  link_rule (ok u) k h goes_on = goes_on h
  link_rule (err e) k h goes_on = h

  read_frame-Checked : Checked (read_frame from_slice frame self)
  unfolding read_frame
  read_frame-Checked =
      refuse_if_rule Checked (ltb max_frame_bytes (length frame)) _ _
        (λ large. (ground arith, λ e. cc))
        λ small. link_rule (require_link self) _ require_link-Linked λ linked.
          ok_or_rule Checked (from_slice frame) malformed (admit self)
            (λ event read. admit-Checked event small linked read) (λ unread. (inl unread, λ e. cc))

  abbrev pub Effect : Outcome → Type 0
  Effect (ok true, self') =
      (event : Envelope WatchEvent) × IsAdmitted event
      × (contains self.seen event.sequence ≡ false)
      × (length self.pending ≢ max_pending_events)
      × (self'
          ≡ record self { seen = event.sequence ∷ self.seen; pending = self.pending ++ event ∷ [] })
  Effect (ok false, self') =
      (event : Envelope WatchEvent) × IsAdmitted event
      × (contains self.seen event.sequence ≡ true)
      × (self' ≡ self)
  Effect (err e, self') = Reason e × (self' ≡ self)

  enqueue-Effect :
      (r : Result ProxyError (Envelope WatchEvent)) → Checked r → Effect (enqueue self r)
  unfolding enqueue
  enqueue-Effect (err e) h = (h.0, refl)
  enqueue-Effect (ok event) h =
      if_rule Effect (contains self.seen event.sequence) _ _
        (λ repeated. (event, h, repeated, refl))
        λ fresh.
          if_rule Effect (eqb (length self.pending) max_pending_events) _ _
            (λ full. (((event, h.read, fresh), ground arith), refl))
            (λ free. (event, h, fresh, ground arith, rw fresh))

  -- On every branch of `receive`: a frame is accepted only as a small enough frame of a linked capsule,
  -- read as an event of protocol version 1 and the current session with valid contents, whose sequence
  -- number was not recorded, in a queue that was not full, and it changes only the queue, by that event
  -- at the end, and the set, by that number; a repetition and a refusal change nothing, and a
  -- repetition is of an admitted event, a refusal has the reason its error names.
  pub receive-Effect : Effect (receive from_slice frame self)
  unfolding receive
  receive-Effect = enqueue-Effect (read_frame from_slice frame self) read_frame-Checked
