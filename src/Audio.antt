-- ===== src/Audio.antt =====
-- crates/sim-platform-audio: native audio devices and plugins of the capsule. A method returns its result
-- and the object after it.
pub mod Handles
pub mod Ports
mod Tests
use sim_platform.Prelude.{
  ℕ, Bool, true, false, not, Option, none, some, List, [], ◌∷◌, ◌++◌, map, ltb, eqb, if◌then◌else◌,
  Eq, number_key, contains, Result, ok, err, refuse_if, ok_or, ◌>>=◌, ◌>>◌,
}
use sim_platform.Prelude.Maps.{get, insert}

-- What the capsule uses of `sim_audio_ports`: cards with their identities, callback owners, budgets with
-- their check, events and refusals.
pub record AudioPorts : Type 1 where
  pub NativeId : Type 0
  pub AudioDeviceCard : Type 0
  pub PluginCard : Type 0
  pub CallbackOwner : Type 0
  pub CallbackEvent : Type 0
  pub DeviceEvent : Type 0
  pub RealtimeBudget : Type 0
  pub NativeRefusal : Type 0
  pub id_key : Eq NativeId
  pub before : NativeId → NativeId → Bool
  pub device_id : AudioDeviceCard → NativeId
  pub sample_rates : AudioDeviceCard → List ℕ
  pub plugin_id : PluginCard → NativeId
  pub abi : PluginCard → ℕ
  pub owner_of : NativeId → CallbackOwner
  pub validate : RealtimeBudget → Result NativeRefusal (Unit {0})
  pub max_frames : RealtimeBudget → ℕ
  pub unsupported : NativeRefusal
  pub abi_mismatch : (expected found : ℕ) → NativeRefusal
  pub already_closed : NativeRefusal
  pub cancelled : NativeRefusal
  pub budget_exceeded : NativeRefusal

pub data AudioApi : Type 0 where
  alsa asio core_audio jack pipe_wire port_audio cpal : AudioApi

pub data PluginApi : Type 0 where
  lv2 vst3 clap : PluginApi

module _ (ports : AudioPorts) where
  pub record UbuntuAudioBinding : Type 0 where
    pub api : AudioApi
    pub card : ports.AudioDeviceCard

  pub record UbuntuPluginBinding : Type 0 where
    pub api : PluginApi
    pub card : ports.PluginCard

  -- The `Mutex` of the hotplug events is the value that it holds: no thread panics while it holds it.
  pub record UbuntuMediaCapsule : Type 0 where
    pub audio : List (ports.NativeId × UbuntuAudioBinding)
    pub plugins : List (ports.NativeId × UbuntuPluginBinding)
    pub hotplug : List ports.DeviceEvent

  pub record UbuntuStream : Type 0 where
    pub owner : ports.CallbackOwner
    pub closed : Bool

  pub record UbuntuPlugin : Type 0 where
    pub card : ports.PluginCard
    pub budget : ports.RealtimeBudget
    pub unloaded : Bool

  abbrev pub Refused : Type 0 → Type 0
  Refused A = Result ports.NativeRefusal A

  -- `UbuntuMediaCapsule::default`
  abbrev pub default : UbuntuMediaCapsule
  default = record { audio = []; plugins = []; hotplug = [] }

  unfoldable pub bind_audio : UbuntuAudioBinding → UbuntuMediaCapsule → UbuntuMediaCapsule
  bind_audio binding self = record self {
    audio =
        insert ⦃e = ports.id_key⦄ ports.before (ports.device_id binding.card) binding self.audio;
  }

  unfoldable pub bind_plugin : UbuntuPluginBinding → UbuntuMediaCapsule → UbuntuMediaCapsule
  bind_plugin binding self = record self {
    plugins =
        insert ⦃e = ports.id_key⦄ ports.before (ports.plugin_id binding.card) binding self.plugins;
  }

  unfoldable pub record_hotplug :
      ports.DeviceEvent → UbuntuMediaCapsule → Refused (Unit {0}) × UbuntuMediaCapsule
  record_hotplug event self = (ok tt, record self { hotplug = self.hotplug ++ event ∷ [] })

  unfoldable pub poll_hotplug :
      UbuntuMediaCapsule → Refused (List ports.DeviceEvent) × UbuntuMediaCapsule
  poll_hotplug self = (ok self.hotplug, record self { hotplug = [] })

  -- `AudioDevicePort::cards` and `NativePluginPort::cards`
  abbrev pub audio_cards : UbuntuMediaCapsule → Refused (List ports.AudioDeviceCard)
  audio_cards self = ok (map (λ entry. entry.1.card) self.audio)

  abbrev pub plugin_cards : UbuntuMediaCapsule → Refused (List ports.PluginCard)
  plugin_cards self = ok (map (λ entry. entry.1.card) self.plugins)

  -- `AudioDevicePort::open`
  unfoldable pub open_stream :
      UbuntuMediaCapsule → ports.NativeId → ℕ → ports.RealtimeBudget → Refused UbuntuStream
  open_stream self id sample_rate budget = do
    ports.validate budget
    binding ← ok_or (get ⦃e = ports.id_key⦄ id self.audio) ports.unsupported
    refuse_if (not (contains (ports.sample_rates binding.card) sample_rate)) ports.unsupported
    ok (record { owner = ports.owner_of id; closed = false })

  -- `NativePluginPort::load`
  unfoldable pub load :
      UbuntuMediaCapsule → ports.NativeId → ℕ → ports.RealtimeBudget → Refused UbuntuPlugin
  load self id expected_abi budget = do
    ports.validate budget
    binding ← ok_or (get ⦃e = ports.id_key⦄ id self.plugins) ports.unsupported
    refuse_if (not (eqb (ports.abi binding.card) expected_abi))
        (ports.abi_mismatch expected_abi (ports.abi binding.card))
    ok (record { card = binding.card; budget = budget; unloaded = false })

  unfoldable pub poll_callback : UbuntuStream → Refused (Option ports.CallbackEvent) × UbuntuStream
  poll_callback self = if self.closed then (err ports.already_closed, self) else (ok none, self)

  unfoldable pub cancel_stream : UbuntuStream → Refused (Unit {0}) × UbuntuStream
  cancel_stream self =
      if self.closed
      then (err ports.already_closed, self)
      else (err ports.cancelled, record self { closed = true })

  unfoldable pub close_stream : UbuntuStream → Refused (Unit {0}) × UbuntuStream
  close_stream self =
      if self.closed
      then (err ports.already_closed, self)
      else (ok tt, record self { closed = true })

  unfoldable pub process : ℕ → UbuntuPlugin → Refused (Unit {0}) × UbuntuPlugin
  process frames self =
      if self.unloaded
      then (err ports.already_closed, self)
      else if ltb (ports.max_frames self.budget) frames
      then (err ports.budget_exceeded, self)
      else (ok tt, self)

  unfoldable pub cancel_plugin : UbuntuPlugin → Refused (Unit {0}) × UbuntuPlugin
  cancel_plugin self =
      if self.unloaded
      then (err ports.already_closed, self)
      else (err ports.cancelled, record self { unloaded = true })

  unfoldable pub unload : UbuntuPlugin → Refused (Unit {0}) × UbuntuPlugin
  unload self =
      if self.unloaded
      then (err ports.already_closed, self)
      else (ok tt, record self { unloaded = true })
