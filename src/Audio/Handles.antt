-- ===== src/Audio/Handles.antt =====
-- The life of an open plugin, and the hotplug queue.
use sim_platform.Prelude.{
  ℕ, true, false, List, [], ◌∷◌, ◌++◌, ◌≡◌, refl, sym, ◌∙◌, ap, ltb, if◌then◌else◌, ok, err,
  Bool-cases, inl, inr,
}
use sim_platform.Audio.{
  AudioPorts, UbuntuMediaCapsule, UbuntuPlugin, Refused, process, cancel_plugin, unload,
  record_hotplug, poll_hotplug,
}

module _ (ports : AudioPorts) where
  pub data PluginCall : Type 0 where
    processing : ℕ → PluginCall
    cancelling : PluginCall
    unloading : PluginCall

  abbrev pub step : PluginCall → UbuntuPlugin ports → Refused ports (Unit {0}) × UbuntuPlugin ports
  step (processing frames) self = process ports frames self
  step cancelling self = cancel_plugin ports self
  step unloading self = unload ports self

  abbrev pub run : List PluginCall → UbuntuPlugin ports → List (Refused ports (Unit {0}))
  run [] self = []
  run (call ∷ calls) self = (step call self).0 ∷ run calls (step call self).1

  -- Every call on a plugin that is gone.
  abbrev pub all_closed : List PluginCall → List (Refused ports (Unit {0}))
  all_closed [] = []
  all_closed (call ∷ calls) = err ports.already_closed ∷ all_closed calls

  -- The life of a plugin with a budget of frames: calls are processed within it until the first that
  -- ends it.
  abbrev pub life : ℕ → List PluginCall → List (Refused ports (Unit {0}))
  life bound [] = []
  life bound (processing frames ∷ calls) =
      (if ltb bound frames then err ports.budget_exceeded else ok tt) ∷ life bound calls
  life bound (cancelling ∷ calls) = err ports.cancelled ∷ all_closed calls
  life bound (unloading ∷ calls) = ok tt ∷ all_closed calls

  run_closed :
      (calls : List PluginCall) (self : UbuntuPlugin ports)
      → self.unloaded ≡ true
      → run calls self ≡ all_closed calls
  unfolding process cancel_plugin unload
  run_closed [] self gone = refl
  run_closed (processing frames ∷ calls) self gone =
      simp gone (ap (λ t. err ports.already_closed ∷ t) (run_closed calls self gone))
  run_closed (cancelling ∷ calls) self gone =
      simp gone (ap (λ t. err ports.already_closed ∷ t) (run_closed calls self gone))
  run_closed (unloading ∷ calls) self gone =
      simp gone (ap (λ t. err ports.already_closed ∷ t) (run_closed calls self gone))

  -- Any calls on a loaded plugin: every request for frames is processed, or refused when it asks for more
  -- than the budget has, until the first cancellation or unloading, which ends the plugin; from there on
  -- every call is refused as already closed.
  pub run-life :
      (calls : List PluginCall) (self : UbuntuPlugin ports)
      → self.unloaded ≡ false
      → run calls self ≡ life (ports.max_frames self.budget) calls
  unfolding process cancel_plugin unload
  run-life [] self live = refl
  run-life (processing frames ∷ calls) self live =
      elim (Bool-cases (ltb (ports.max_frames self.budget) frames)) [
        | inl many ↦
            simp (live, many) (ap (λ t. err ports.budget_exceeded ∷ t) (run-life calls self live))
        | inr few ↦ simp (live, few) (ap (λ t. ok tt ∷ t) (run-life calls self live))
      ]
  run-life (cancelling ∷ calls) self live =
      simp live (
        ap (λ t. err ports.cancelled ∷ t) (run_closed calls (record self { unloaded = true }) refl))
  run-life (unloading ∷ calls) self live =
      simp live (ap (λ t. ok tt ∷ t) (run_closed calls (record self { unloaded = true }) refl))

  -- Events recorded and polls, in any order.
  pub data HotplugCall : Type 0 where
    recording : ports.DeviceEvent → HotplugCall
    polling : HotplugCall

  -- The batches that the polls of a history returned, and the capsule after it.
  abbrev pub batch : Refused ports (List ports.DeviceEvent) → List ports.DeviceEvent
  batch (ok events) = events
  batch (err e) = []

  abbrev pub run_hotplug :
      List HotplugCall
      → UbuntuMediaCapsule ports
      → List ports.DeviceEvent × UbuntuMediaCapsule ports
  run_hotplug [] self = ([], self)
  run_hotplug (recording event ∷ calls) self = run_hotplug calls (record_hotplug ports event self).1
  run_hotplug (polling ∷ calls) self =
      let polled = poll_hotplug ports self in
      let rest = run_hotplug calls polled.1 in (batch polled.0 ++ rest.0, rest.1)

  abbrev pub recorded : List HotplugCall → List ports.DeviceEvent
  recorded [] = []
  recorded (recording event ∷ calls) = event ∷ recorded calls
  recorded (polling ∷ calls) = recorded calls

  append_assoc : (xs ys zs : List ports.DeviceEvent) → (xs ++ ys) ++ zs ≡ xs ++ (ys ++ zs)
  append_assoc [] ys zs = refl
  append_assoc (x ∷ xs) ys zs = ap (λ t. x ∷ t) (append_assoc xs ys zs)

  append_nil : (xs : List ports.DeviceEvent) → xs ++ [] ≡ xs
  append_nil [] = refl
  append_nil (x ∷ xs) = ap (λ t. x ∷ t) (append_nil xs)

  -- In any history of recorded events and polls, the polled batches in order, followed by what is still
  -- queued, are the events queued at first followed by those recorded: each once and in order.
  pub run_hotplug-recorded :
      (calls : List HotplugCall) (self : UbuntuMediaCapsule ports)
      → (run_hotplug calls self).0 ++ (run_hotplug calls self).1.hotplug
        ≡ self.hotplug ++ recorded calls
  unfolding record_hotplug poll_hotplug
  run_hotplug-recorded [] self = sym (append_nil self.hotplug)
  run_hotplug-recorded (recording event ∷ calls) self =
      run_hotplug-recorded calls _ ∙ append_assoc self.hotplug (event ∷ []) (recorded calls)
  run_hotplug-recorded (polling ∷ calls) self =
      append_assoc self.hotplug _ _
      ∙ ap (λ t. self.hotplug ++ t) (run_hotplug-recorded calls (record self { hotplug = [] }))
