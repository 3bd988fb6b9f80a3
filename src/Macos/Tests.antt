-- ===== src/Macos/Tests.antt =====
-- The macOS capsule at concrete inputs.
use sim_platform.Prelude.{String, List, [], ◌∷◌, ◌≡◌, refl, ok, contains, text_key, true}
use sim_platform.Prelude.{All}
use sim_platform.Macos.{
  Permission, camera, microphone, Lifecycle, granted, NativeServices, required_for, MacosCapsule,
  capability, request_permission, permission_status, activate, stop,
}
use sim_platform.Macos.Prompts.{Call, asking, prompting, activating, stopping, perform, run, IsKept}

-- Native services that record the prompts they show.
abbrev recording : NativeServices
recording = record {
  State = List Permission;
  permission_status = λ p n. (granted, n);
  request_permission = λ p n. (granted, p ∷ n);
  activate = λ n. (ok tt, n);
  cleanup = λ n. n;
}

abbrev camera_only : List String
camera_only = "platform/permission-request/camera" ∷ []

abbrev calls : List Call
calls =
    asking microphone
    ∷ prompting microphone
    ∷ activating
    ∷ prompting camera
    ∷ stopping
    ∷ prompting camera
    ∷ []

abbrev fresh : MacosCapsule recording
fresh = record { native = []; grants = camera_only; lifecycle = Lifecycle.ready }

one_prompt : (run recording calls fresh).native ≡ camera ∷ []
unfolding run perform request_permission permission_status activate stop capability
one_prompt = refl

-- Every prompt that was shown had its grant.
abbrev AllGranted : List Permission → Type 0
AllGranted = All (λ p. contains camera_only (required_for p) ≡ true)

recording-IsKept : IsKept recording AllGranted camera_only
recording-IsKept = record {
  asked = λ p n q. q;
  prompted = λ p n e q. (e, q);
  activated = λ n q. q;
  cleaned = λ n q. q;
}
