-- ===== src/Midi/Ports.antt =====
-- Which connection a MIDI port opens after any registrations.
use sim_platform.Prelude.{
  Bool, true, false, Option, none, some, List, [], ◌∷◌, ◌≡◌, refl, sym, ◌∙◌, ltb, if◌then◌else◌,
  Bool-cases, inl, inr, ◌==◌, length, Result, ok, err,
}
use sim_platform.Prelude.Maps.{get, get-insert}
use sim_platform.Midi.{
  MidiCore, NativeMidiBinding, NativeMidiEvent, BindingState, UbuntuMidiPort, UbuntuMidiConnection,
  new_port, bind, open_connection,
}

module _ (core : MidiCore) where
  abbrev pub Registration : Type 0
  Registration = NativeMidiBinding core × List (NativeMidiEvent core)

  abbrev pub bind_all : List Registration → UbuntuMidiPort core → UbuntuMidiPort core
  bind_all [] self = self
  bind_all ((binding, input) ∷ rest) self = bind_all rest (bind core binding input self)

  abbrev pub choose : core.PortId → Registration → Option Registration → Option Registration
  choose id r before = if ◌==◌ ⦃key = core.id_key⦄ (core.id_of r.0.card) id then some r else before

  -- The last registration of an identity.
  abbrev pub latest : core.PortId → Option Registration → List Registration → Option Registration
  latest id before [] = before
  latest id before (r ∷ rest) = latest id (choose id r before) rest

  abbrev binding_of : Option Registration → Option (NativeMidiBinding core)
  binding_of none = none
  binding_of (some r) = some r.0

  abbrev state_of : Option Registration → Option (BindingState core)
  state_of none = none
  state_of (some r) = some (record { input = r.1; connected = true })

  -- The port knows one registration of `id`.
  record Knows (id : core.PortId) (known : Option Registration) (self : UbuntuMidiPort core)
      : Type 0 where
    bound : get ⦃e = core.id_key⦄ id self.bindings ≡ binding_of known
    held : get ⦃e = core.id_key⦄ id self.states ≡ state_of known

  -- A choice made before a function is applied, or after.
  choose_after :
      {A : Type 0} (f : Option Registration → Option A) (b : Bool) (r : Registration) (x : A)
      (known : Option Registration) (y : Option A)
      → f (some r) ≡ some x
      → y ≡ f known
      → (if b then some x else y) ≡ f (if b then some r else known)
  choose_after f true r x known y h k = sym h
  choose_after f false r x known y h k = k

  Knows-bind :
      (id : core.PortId) (known : Option Registration) (self : UbuntuMidiPort core)
      (r : Registration)
      → Knows id known self
      → Knows id (choose id r known) (bind core r.0 r.1 self)
  unfolding bind
  Knows-bind id known self r k =
      let key = core.id_of r.0.card in
      let chosen = ◌==◌ ⦃key = core.id_key⦄ key id in
      let state : BindingState core = record { input = r.1; connected = true } in
      record {
        bound =
            get-insert ⦃e = core.id_key⦄ core.before key id r.0 self.bindings
            ∙ choose_after binding_of chosen r r.0 known _ refl k.bound;
        held =
            get-insert ⦃e = core.id_key⦄ core.before key id state self.states
            ∙ choose_after state_of chosen r state known _ refl k.held;
      }

  Knows-bind_all :
      (id : core.PortId) (registrations : List Registration) (known : Option Registration)
      (self : UbuntuMidiPort core)
      → Knows id known self
      → Knows id (latest id known registrations) (bind_all registrations self)
  Knows-bind_all id [] known self k = k
  Knows-bind_all id (r ∷ rest) known self k =
      Knows-bind_all id rest (choose id r known) (bind core r.0 r.1 self)
        (Knows-bind id known self r k)

  denied_same :
      (registrations : List Registration) (self : UbuntuMidiPort core)
      → (bind_all registrations self).denied ≡ self.denied
  denied_same [] self = refl
  denied_same (r ∷ rest) self = denied_same rest (bind core r.0 r.1 self) ∙ (unfold bind in refl)

  -- The connection of a registration whose script fits the policy.
  abbrev pub opened :
      core.Policy → Option Registration → Result core.Refusal (UbuntuMidiConnection core)
  opened policy none = err core.unsupported
  opened policy (some r) =
      if ltb (core.queue_capacity policy) (length r.1)
      then err core.backpressure
      else ok (record {
        binding = r.0;
        input = r.1;
        sent = [];
        connected = true;
        closed = false;
        reconnects = 0;
        reconnect_limit = core.reconnect_attempts policy;
      })

  open_known :
      (id : core.PortId) (policy : core.Policy) (known : Option Registration)
      (self : UbuntuMidiPort core)
      → self.denied ≡ false
      → Knows id known self
      → open_connection core self id policy ≡ opened policy known
  unfolding open_connection
  open_known id policy none self allowed k = rw (allowed, k.bound)
  open_known id policy (some r) self allowed k =
      elim (Bool-cases (ltb (core.queue_capacity policy) (length r.1))) [
        | inl long ↦ rw (allowed, k.bound, k.held, long)
        | inr fits ↦ rw (allowed, k.bound, k.held, fits)
      ]

  open_denied :
      (id : core.PortId) (policy : core.Policy) (self : UbuntuMidiPort core)
      → self.denied ≡ true
      → open_connection core self id policy ≡ err core.denied_refusal
  unfolding open_connection
  open_denied id policy self denied = rw denied

  -- After any registrations on a new port: a denied port refuses to open anything, and another opens the
  -- last registration of the identity, on its own script and with the reconnections of the policy, unless
  -- there is none (unsupported) or its script is longer than the queue of the policy (backpressure).
  pub open_connection-bind_all :
      (denied : Bool) (registrations : List Registration) (id : core.PortId) (policy : core.Policy)
      → open_connection core (bind_all registrations (new_port core denied)) id policy
        ≡ (if denied then err core.denied_refusal else opened policy (latest id none registrations))
  open_connection-bind_all true registrations id policy =
      open_denied id policy _ (denied_same registrations (new_port core true))
  open_connection-bind_all false registrations id policy =
      open_known id policy _ _ (denied_same registrations (new_port core false)) (
        Knows-bind_all id registrations none (new_port core false)
          (record { bound = unfold get in refl; held = unfold get in refl }))
