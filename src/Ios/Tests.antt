-- ===== src/Ios/Tests.antt =====
-- The iOS capsule at concrete inputs.
use sim_platform.Prelude.{String, true, none, List, [], ◌∷◌, ◌≡◌, refl}
use sim_platform.Prelude.Maps.{get, insert}
use sim_platform.Ios.Records.{
  active, suspended, microphone, Input, set_lifecycle, permission, audio_device, document_grant,
  background_execution, activation,
}
use sim_platform.Ios.{
  default, dispatch, dispatch_activation, dispatch_lifecycle, set_state, connect_audio, available,
}
use sim_platform.Ios.Invariant.{IsValid}
use sim_platform.Ios.History.{run, run-default-at_rest}
use sim_platform.Prelude.Text.{is_blank}

abbrev waking : List (String × Input)
waking =
    ("platform/lifecycle", set_lifecycle active)
    ∷ ("platform/activation", permission microphone true)
    ∷ ("platform/activation", audio_device "headset" true)
    ∷ []

abbrev history : List (String × Input)
history =
    ("platform/activation", activation "open" none)
    ∷ ("platform/lifecycle", set_lifecycle active)
    ∷ ("platform/activation", document_grant "doc" true)
    ∷ ("platform/activation", background_execution true)
    ∷ ("platform/lifecycle", set_lifecycle suspended)
    ∷ ("platform/activation", document_grant "doc" true)
    ∷ []

headset_held : (run waking default).resources ≡ "audio:headset" ∷ []
unfolding run dispatch dispatch_activation dispatch_lifecycle set_state connect_audio available get
    insert is_blank
headset_held = refl

run-default-at_rest_example : IsValid (run history default)
run-default-at_rest_example = run-default-at_rest history
