-- ===== src/Audio/Tests.antt =====
-- Runs of crates/sim-platform-audio with numbers for cards, budgets, events and refusals, and the
-- theorems at them.
use sim_platform.Prelude.{ℕ, ◌+◌, ◌*◌, false, List, [], ◌∷◌, ◌≡◌, refl, ltb, number_key, ok, err}
use sim_platform.Audio.{
  AudioPorts, clap, UbuntuPluginBinding, UbuntuPlugin, default, process, cancel_plugin, unload,
}
use sim_platform.Audio.{record_hotplug, poll_hotplug}
use sim_platform.Audio.Handles.{
  PluginCall, processing, unloading, cancelling, HotplugCall, recording, polling, run, run_hotplug,
}

-- A plugin card is its identity; its ABI is one more.
abbrev ports : AudioPorts
ports = record {
  NativeId = ℕ;
  AudioDeviceCard = ℕ;
  PluginCard = ℕ;
  CallbackOwner = ℕ;
  CallbackEvent = ℕ;
  DeviceEvent = ℕ;
  RealtimeBudget = ℕ;
  NativeRefusal = ℕ;
  id_key = number_key;
  before = ltb;
  device_id = λ card. card;
  sample_rates = λ card. 48000 ∷ [];
  plugin_id = λ card. card;
  abi = λ card. card + 1;
  owner_of = λ id. id;
  validate = λ budget. ok tt;
  max_frames = λ budget. budget;
  unsupported = 0;
  abi_mismatch = λ expected found. 100 * expected + found;
  already_closed = 1;
  cancelled = 2;
  budget_exceeded = 3;
}

abbrev plugin : UbuntuPlugin ports
plugin = record { card = 4; budget = 64; unloaded = false }

abbrev calls : List (PluginCall ports)
calls = processing 64 ∷ processing 65 ∷ unloading ∷ processing 1 ∷ cancelling ∷ []

run-plugin : run ports calls plugin ≡ ok tt ∷ err 3 ∷ ok tt ∷ err 1 ∷ err 1 ∷ []
unfolding process unload cancel_plugin
run-plugin = refl

abbrev events : List (HotplugCall ports)
events = recording 5 ∷ recording 6 ∷ polling ∷ polling ∷ recording 7 ∷ []

hotplug_polled :
    ((run_hotplug ports events (default ports)).0 ≡ 5 ∷ 6 ∷ [])
    × ((run_hotplug ports events (default ports)).1.hotplug ≡ 7 ∷ [])
unfolding record_hotplug poll_hotplug
hotplug_polled = (refl, refl)

abbrev bindings : List (UbuntuPluginBinding ports)
bindings = record { api = clap; card = 4 } ∷ record { api = clap; card = 9 } ∷ []
