-- ===== src/Midi/Tests.antt =====
-- Runs of crates/sim-platform-midi with numbers for cards, messages, policies and refusals, and the
-- theorems at them.
use sim_platform.Prelude.{ℕ, true, false, List, [], ◌∷◌, ◌≡◌, refl, arith, ltb, number_key}
use sim_platform.Midi.{
  MidiCore, alsa_rt_midi, NativeMidiBinding, NativeMidiEvent, message, device_lost,
  UbuntuMidiConnection, receive, send, reconnect, close,
}
use sim_platform.Midi.Connection.{
  Call, receiving, sending, reconnecting, closing, delivered, accepted, reopened, nothing, run,
  IsConsistent, Accounts,
}
use sim_platform.Midi.History.{run-Accounts}
use sim_platform.Midi.Ports.{Registration}

abbrev core : MidiCore
core = record {
  Card = ℕ;
  PortId = ℕ;
  Message = ℕ;
  Policy = ℕ;
  Refusal = ℕ;
  id_key = number_key;
  before = ltb;
  id_of = λ card. card;
  max_devices = λ policy. policy;
  queue_capacity = λ policy. policy;
  reconnect_attempts = λ policy. policy;
  denied_refusal = 0;
  discovery_limit = 1;
  unsupported = 2;
  unavailable = 3;
  backpressure = 4;
  already_closed = 5;
  device_gone = 6;
  reconnect_limited = 7;
}

abbrev binding : ℕ → NativeMidiBinding core
binding card = record { api = alsa_rt_midi; card = card }

abbrev script : List (NativeMidiEvent core)
script = message 60 ∷ device_lost ∷ message 62 ∷ []

abbrev connection : UbuntuMidiConnection core
connection = record {
  binding = binding 4;
  input = script;
  sent = [];
  connected = true;
  closed = false;
  reconnects = 0;
  reconnect_limit = 1;
}

abbrev calls : List (Call core)
calls =
    receiving
    ∷ receiving
    ∷ receiving
    ∷ sending 5
    ∷ reconnecting
    ∷ receiving
    ∷ sending 6
    ∷ closing
    ∷ reconnecting
    ∷ []

run-calls :
    (run core calls connection).0
    ≡ delivered 60
      ∷ nothing
      ∷ nothing
      ∷ nothing
      ∷ reopened
      ∷ delivered 62
      ∷ accepted 6
      ∷ nothing
      ∷ nothing
      ∷ []
unfolding receive send reconnect close
run-calls = refl

connection-IsConsistent : IsConsistent core connection
connection-IsConsistent = record { word = omega arith; bounded = omega arith; shut = λ h. cc }

run-Accounts_example :
    Accounts core connection (run core calls connection).0 (run core calls connection).1
run-Accounts_example = run-Accounts core calls connection connection-IsConsistent

abbrev registrations : List (Registration core)
registrations = (binding 4, []) ∷ (binding 9, []) ∷ (binding 4, script) ∷ []
