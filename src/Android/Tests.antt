-- ===== src/Android/Tests.antt =====
-- The Android capsule at concrete inputs.
use sim_platform.Prelude.{
  String, true, false, some, List, [], ◌∷◌, ◌≡◌, refl, IsNodup, text_key, err,
}
use sim_platform.Prelude.Maps.{get, values, insert}
use sim_platform.Android.Audio.{arm, AudioSessionSpec, is_content_id}
use sim_platform.Android.Speech.{transcript}
use sim_platform.Android.Speech
use sim_platform.Android.Audio
use sim_platform.Android.Records.{
  BindPlan, RestorePlan, process_death, restart, microphone, Input, bind, event, restore,
  permission, audio_input, speech_input, validate_bind_plan, validate_restore_plan,
  validate_content_id,
}
use sim_platform.Android.{
  default, apply_android_event, restore_plan, dispatch_continuity, dispatch_activation,
  set_permission, dispatch_audio, dispatch_speech, dispatch,
}
use sim_platform.Android.Invariant.{IsValid}
use sim_platform.Android.History.{run, run-default-IsValid, dispatch_refused}
use sim_platform.Android.Turns.{resumptions, resumptions-IsNodup}

abbrev turn_id : String
turn_id = "0123456789abcdef0123456789abcdef0123456789abcdef0123456789abcdef"

abbrev plan : BindPlan
plan = record {
  snapshot = record { content_id = turn_id; providers = ("model", "model") ∷ [] };
  app_private_mount = "app-private";
  services =
      ("mount/app-private", "model")
      ∷ ("lifecycle", "model")
      ∷ ("foreground", "model")
      ∷ ("permissions", "model")
      ∷ ("activations", "model")
      ∷ ("provider-table", "model")
      ∷ [];
}

abbrev restoring : RestorePlan
restoring = record {
  snapshot_content_id = turn_id;
  journal_content_id = turn_id;
  pending_turn_content_id = some turn_id;
  permission_observations = [];
}

abbrev session : AudioSessionSpec
session = record {
  turn_content_id = turn_id;
  api_level = 34;
  admitted = true;
  private_output = true;
  pcm = record {
    sample_rate_hz = 48000;
    channels = 1;
    frames_per_chunk = 480;
    queue_capacity_chunks = 8;
  };
  armed_at_ms = 10;
  expires_at_ms = 20;
}

abbrev history : List (String × Input)
history =
    ("platform/continuity", bind plan)
    ∷ ("platform/continuity", restore restoring)
    ∷ ("platform/android-audio", audio_input (arm session))
    ∷ ("platform/activation", permission microphone false)
    ∷ ("platform/continuity", event process_death)
    ∷ ("platform/continuity", restore restoring)
    ∷ ("platform/continuity", event restart)
    ∷ ("platform/continuity", bind plan)
    ∷ ("platform/continuity", restore restoring)
    ∷ []

abbrev granting : List (String × Input)
granting = ("platform/activation", permission microphone true) ∷ []

resumed_in_history : resumptions history default ≡ turn_id ∷ []
unfolding resumptions dispatch dispatch_continuity dispatch_activation dispatch_audio restore_plan
    apply_android_event set_permission validate_bind_plan validate_restore_plan validate_content_id
    get values insert Audio.dispatch Audio.check_session Audio.for_api Audio.validate_pcm
    Audio.receipt Audio.receipt_at is_content_id
resumed_in_history = refl

run-default-IsValid_example : IsValid (run history default)
run-default-IsValid_example = run-default-IsValid history

resumptions-IsNodup_example : IsNodup (resumptions history default)
resumptions-IsNodup_example = resumptions-IsNodup history

unasked_transcript :
    (dispatch "platform/android-speech"
      (speech_input (transcript "sv-SE" "hej"))
      (run granting default)).0
    ≡ err "Android transcript arrived without an active local transcriber"
unfolding run dispatch dispatch_speech dispatch_activation set_permission insert Speech.dispatch
unasked_transcript = refl

dispatch_refused_example :
    (dispatch "platform/android-speech"
      (speech_input (transcript "sv-SE" "hej"))
      (run granting default)).1
    ≡ run granting default
dispatch_refused_example =
    dispatch_refused granting "platform/android-speech" (speech_input (transcript "sv-SE" "hej"))
      unasked_transcript
