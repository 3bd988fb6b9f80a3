-- ===== src/Midi/Connection.antt =====
-- What any sequence of calls on a MIDI connection delivers, sends and reopens.
use sim_platform.Prelude.{
  ℕ, ◌+◌, ◌%◌, ◌^◌, ◌≤◌, ◌<◌, true, false, not, Option, none, some, List, [], ◌∷◌, ◌++◌, ◌≡◌, refl,
  sym, ap, arith, leb, if_rule, Result, ok, err,
}
use sim_platform.Midi.{
  MidiCore, NativeMidiEvent, message, device_lost, UbuntuMidiConnection, pop_event, receive, send,
  reconnect, close,
}

module _ (core : MidiCore) where
  pub data Call : Type 0 where
    receiving : Call
    sending : core.Message → Call
    reconnecting : Call
    closing : Call

  -- What a call gave: a message, acceptance of a message, a reconnection, or nothing.
  pub data Gain : Type 0 where
    delivered : core.Message → Gain
    accepted : core.Message → Gain
    reopened : Gain
    nothing : Gain

  abbrev pub received_of : Result core.Refusal (Option core.Message) → Gain
  received_of (ok (some m)) = delivered m
  received_of (ok none) = nothing
  received_of (err e) = nothing

  abbrev pub done_of : Gain → Result core.Refusal (Unit {0}) → Gain
  done_of gain (ok u) = gain
  done_of gain (err e) = nothing

  abbrev pub step : Call → UbuntuMidiConnection core → Gain × UbuntuMidiConnection core
  step receiving self = let o = receive core self in (received_of o.0, o.1)
  step (sending m) self = let o = send core m self in (done_of (accepted m) o.0, o.1)
  step reconnecting self = let o = reconnect core self in (done_of reopened o.0, o.1)
  step closing self = let o = close core self in (done_of nothing o.0, o.1)

  abbrev pub run : List Call → UbuntuMidiConnection core → List Gain × UbuntuMidiConnection core
  run [] self = ([], self)
  run (call ∷ calls) self = let o = step call self in let p = run calls o.1 in (o.0 ∷ p.0, p.1)

  -- The messages of a script.
  abbrev pub messages : List (NativeMidiEvent core) → List core.Message
  messages [] = []
  messages (message m ∷ events) = m ∷ messages events
  messages (device_lost ∷ events) = messages events

  abbrev pub deliveries : List Gain → List core.Message
  deliveries [] = []
  deliveries (delivered m ∷ gains) = m ∷ deliveries gains
  deliveries (accepted m ∷ gains) = deliveries gains
  deliveries (reopened ∷ gains) = deliveries gains
  deliveries (nothing ∷ gains) = deliveries gains

  abbrev pub acceptances : List Gain → List core.Message
  acceptances [] = []
  acceptances (delivered m ∷ gains) = acceptances gains
  acceptances (accepted m ∷ gains) = m ∷ acceptances gains
  acceptances (reopened ∷ gains) = acceptances gains
  acceptances (nothing ∷ gains) = acceptances gains

  abbrev pub reopenings : List Gain → ℕ
  reopenings [] = 0
  reopenings (delivered m ∷ gains) = reopenings gains
  reopenings (accepted m ∷ gains) = reopenings gains
  reopenings (reopened ∷ gains) = reopenings gains + 1
  reopenings (nothing ∷ gains) = reopenings gains

  -- A closed connection is not connected, and the 16-bit count of reconnections is within its limit.
  pub record IsConsistent (self : UbuntuMidiConnection core) : Type 0 where
    pub word : self.reconnect_limit < 2 ^ 16
    pub bounded : self.reconnects ≤ self.reconnect_limit
    pub shut : self.closed ≡ true → self.connected ≡ false

  -- From `self` to `self'` by calls that gave `gains`.
  pub record Accounts (self : UbuntuMidiConnection core) (gains : List Gain)
      (self' : UbuntuMidiConnection core) : Type 0 where
    pub input_order : deliveries gains ++ messages self'.input ≡ messages self.input
    pub output_order : self'.sent ≡ self.sent ++ acceptances gains
    pub reconnections : self'.reconnects ≡ self.reconnects + reopenings gains
    pub same_limit : self'.reconnect_limit ≡ self.reconnect_limit
    pub consistent : IsConsistent self'

  pub append_nil : (xs : List core.Message) → xs ++ [] ≡ xs
  append_nil [] = refl
  append_nil (x ∷ xs) = ap (λ t. x ∷ t) (append_nil xs)

  pub append_assoc : (xs ys zs : List core.Message) → (xs ++ ys) ++ zs ≡ xs ++ (ys ++ zs)
  append_assoc [] ys zs = refl
  append_assoc (x ∷ xs) ys zs = ap (λ t. x ∷ t) (append_assoc xs ys zs)

  pub Accounts-none : (self : UbuntuMidiConnection core) → IsConsistent self → Accounts self [] self
  Accounts-none self c = record {
    input_order = refl;
    output_order = sym (append_nil self.sent);
    reconnections = omega arith;
    same_limit = refl;
    consistent = c;
  }

  module _ (self : UbuntuMidiConnection core) (c : IsConsistent self) where
    unchanged : Accounts self (nothing ∷ []) self
    unchanged = record {
      input_order = refl;
      output_order = sym (append_nil self.sent);
      reconnections = omega arith;
      same_limit = refl;
      consistent = c;
    }

    abbrev Received : Result core.Refusal (Option core.Message) × UbuntuMidiConnection core → Type 0
    Received o = Accounts self (received_of o.0 ∷ []) o.1

    pop_event-Received :
        (input : List (NativeMidiEvent core))
        → self.input ≡ input
        → Received (pop_event core input self)
    pop_event-Received [] e = unchanged
    pop_event-Received (message m ∷ rest) e = record {
      input_order = ap messages (sym e);
      output_order = sym (append_nil self.sent);
      reconnections = omega arith;
      same_limit = refl;
      consistent = record { word = c.word; bounded = c.bounded; shut = c.shut };
    }
    pop_event-Received (device_lost ∷ rest) e = record {
      input_order = ap messages (sym e);
      output_order = sym (append_nil self.sent);
      reconnections = omega arith;
      same_limit = refl;
      consistent = record { word = c.word; bounded = c.bounded; shut = λ h. refl };
    }

    receive-Received : Received (receive core self)
    unfolding receive
    receive-Received =
        if_rule Received self.closed _ _ (λ shut. unchanged)
          λ still_open.
            if_rule Received (not self.connected) _ _ (λ lost. unchanged)
              λ linked. pop_event-Received self.input refl

    abbrev Done : Gain → Result core.Refusal (Unit {0}) × UbuntuMidiConnection core → Type 0
    Done gain o = Accounts self (done_of gain o.0 ∷ []) o.1

    send-Done : (m : core.Message) → Done (accepted m) (send core m self)
    unfolding send
    send-Done m =
        if_rule (Done (accepted m)) self.closed _ _ (λ shut. unchanged)
          λ still_open.
            if_rule (Done (accepted m)) (not self.connected) _ _ (λ lost. unchanged)
              λ linked. record {
                input_order = refl;
                output_order = refl;
                reconnections = omega arith;
                same_limit = refl;
                consistent = record { word = c.word; bounded = c.bounded; shut = c.shut };
              }

    reconnect-Done : Done reopened (reconnect core self)
    unfolding reconnect
    reconnect-Done =
        if_rule (Done reopened) (leb self.reconnect_limit self.reconnects) _ _
          (λ used_up. unchanged)
          λ left.
            let small : (self.reconnects + 1) % 2 ^ 16 ≡ self.reconnects + 1 =
              ground (arith, c.word) in
            record {
              input_order = refl;
              output_order = sym (append_nil self.sent);
              reconnections = small;
              same_limit = refl;
              consistent = record {
                word = c.word;
                bounded = ground (arith, small);
                shut = λ h. cc;
              };
            }

    close-Done : Done nothing (close core self)
    unfolding close
    close-Done =
        if_rule (Done nothing) self.closed _ _ (λ shut. unchanged)
          λ still_open. record {
            input_order = refl;
            output_order = sym (append_nil self.sent);
            reconnections = omega arith;
            same_limit = refl;
            consistent = record { word = c.word; bounded = c.bounded; shut = λ h. refl };
          }

    pub step-Accounts : (call : Call) → let o = step call self in Accounts self (o.0 ∷ []) o.1
    step-Accounts receiving = receive-Received
    step-Accounts (sending m) = send-Done m
    step-Accounts reconnecting = reconnect-Done
    step-Accounts closing = close-Done
