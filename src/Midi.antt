-- ===== src/Midi.antt =====
-- crates/sim-platform-midi: capsule-owned native MIDI ports and their connections.
pub mod Connection
pub mod History
pub mod Ports
mod Tests
use sim_platform.Prelude.{
  ℕ, ◌+◌, ◌%◌, ◌^◌, Bool, true, false, not, Option, none, some, List, [], ◌∷◌, ◌++◌, map, ltb, leb,
  if◌then◌else◌, Eq, length, Result, ok, err, refuse_if, ok_or, ◌>>=◌, ◌>>◌,
}
use sim_platform.Prelude.Maps.{get, insert}

-- What the port uses of `sim_lib_midi_core`: the neutral card and message types, the limits of a policy,
-- the identity of a card with its order, and the refusals.
pub record MidiCore : Type 1 where
  pub Card : Type 0
  pub PortId : Type 0
  pub Message : Type 0
  pub Policy : Type 0
  pub Refusal : Type 0
  pub id_key : Eq PortId
  pub before : PortId → PortId → Bool
  pub id_of : Card → PortId
  pub max_devices : Policy → ℕ
  pub queue_capacity : Policy → ℕ
  pub reconnect_attempts : Policy → ℕ
  pub denied_refusal : Refusal
  pub discovery_limit : Refusal
  pub unsupported : Refusal
  pub unavailable : Refusal
  pub backpressure : Refusal
  pub already_closed : Refusal
  pub device_gone : Refusal
  pub reconnect_limited : Refusal

pub data NativeMidiApi : Type 0 where
  alsa_rt_midi core_midi_rt_midi win_mm_rt_midi bluez_ble_midi : NativeMidiApi

module _ (core : MidiCore) where
  pub record NativeMidiBinding : Type 0 where
    pub api : NativeMidiApi
    pub card : core.Card

  pub data NativeMidiEvent : Type 0 where
    message : core.Message → NativeMidiEvent
    device_lost : NativeMidiEvent

  pub record BindingState : Type 0 where
    pub input : List NativeMidiEvent
    pub connected : Bool

  -- A `Mutex` is the value that it holds: no thread panics while it holds one.
  pub record UbuntuMidiPort : Type 0 where
    pub bindings : List (core.PortId × NativeMidiBinding)
    pub states : List (core.PortId × BindingState)
    pub denied : Bool

  pub record UbuntuMidiConnection : Type 0 where
    pub binding : NativeMidiBinding
    pub input : List NativeMidiEvent
    pub sent : List core.Message
    pub connected : Bool
    pub closed : Bool
    pub reconnects : ℕ
    pub reconnect_limit : ℕ

  -- `UbuntuMidiPort::default` and `UbuntuMidiPort::denied`
  abbrev pub new_port : Bool → UbuntuMidiPort
  new_port denied = record { bindings = []; states = []; denied = denied }

  unfoldable pub bind : NativeMidiBinding → List NativeMidiEvent → UbuntuMidiPort → UbuntuMidiPort
  bind binding input self =
      let id = core.id_of binding.card in
      record self {
        bindings = insert ⦃e = core.id_key⦄ core.before id binding self.bindings;
        states =
            insert ⦃e = core.id_key⦄ core.before id (record { input = input; connected = true })
              self.states;
      }

  unfoldable pub cards : UbuntuMidiPort → core.Policy → Result core.Refusal (List core.Card)
  cards self policy = do
    refuse_if self.denied core.denied_refusal
    refuse_if (ltb (core.max_devices policy) (length self.bindings)) core.discovery_limit
    ok (map (λ entry. entry.1.card) self.bindings)

  unfoldable pub open_connection :
      UbuntuMidiPort → core.PortId → core.Policy → Result core.Refusal UbuntuMidiConnection
  open_connection self id policy = do
    refuse_if self.denied core.denied_refusal
    binding ← ok_or (get ⦃e = core.id_key⦄ id self.bindings) core.unsupported
    state ← ok_or (get ⦃e = core.id_key⦄ id self.states) core.unavailable
    refuse_if (ltb (core.queue_capacity policy) (length state.input)) core.backpressure
    ok (record {
      binding = binding;
      input = state.input;
      sent = [];
      connected = state.connected;
      closed = false;
      reconnects = 0;
      reconnect_limit = core.reconnect_attempts policy;
    })

  -- `input.pop_front()` and what the event at the front means.
  abbrev pub pop_event :
      List NativeMidiEvent
      → UbuntuMidiConnection
      → Result core.Refusal (Option core.Message) × UbuntuMidiConnection
  pop_event [] self = (ok none, self)
  pop_event (message m ∷ rest) self = (ok (some m), record self { input = rest })
  pop_event (device_lost ∷ rest) self =
      (err core.device_gone, record self { input = rest; connected = false })

  unfoldable pub receive :
      UbuntuMidiConnection → Result core.Refusal (Option core.Message) × UbuntuMidiConnection
  receive self =
      if self.closed
      then (err core.already_closed, self)
      else if not self.connected
      then (err core.device_gone, self)
      else pop_event self.input self

  unfoldable pub send :
      core.Message → UbuntuMidiConnection → Result core.Refusal (Unit {0}) × UbuntuMidiConnection
  send m self =
      if self.closed
      then (err core.already_closed, self)
      else if not self.connected
      then (err core.device_gone, self)
      else (ok tt, record self { sent = self.sent ++ m ∷ [] })

  unfoldable pub reconnect :
      UbuntuMidiConnection → Result core.Refusal (Unit {0}) × UbuntuMidiConnection
  reconnect self =
      if leb self.reconnect_limit self.reconnects then (err core.reconnect_limited, self) else (
        ok tt,
        record self {
          reconnects = (self.reconnects + 1) % 2 ^ 16;
          connected = true;
          closed = false;
        },
      )

  unfoldable pub close :
      UbuntuMidiConnection → Result core.Refusal (Unit {0}) × UbuntuMidiConnection
  close self =
      if self.closed
      then (err core.already_closed, self)
      else (ok tt, record self { closed = true; connected = false })
