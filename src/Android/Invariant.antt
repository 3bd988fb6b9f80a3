-- ===== src/Android/Invariant.antt =====
-- The Android capsule under any inputs: its invariant, and that a refusal changes nothing.
use Prim.Native.String
use sim_platform.Prelude.{
  String, Bool, true, false, not, ◌&&◌, Option, none, some, List, ◌≡◌, refl, ap, subst,
  if◌then◌else◌, if_rule, IsNodup, add, contains, text_key, ◌==◌, Result, ok, err, ok_or, refuse_if,
  ◌>>=◌, ◌>>◌,
}
use sim_platform.Android.Audio
use sim_platform.Android.Audio.{AndroidAudioState, AudioRouteReceipt}
use sim_platform.Android.Audio.Laws as AudioLaws
use sim_platform.Android.Speech
use sim_platform.Android.Speech.{AndroidSpeechState, SpeechOutput}
use sim_platform.Android.Speech.Laws as SpeechLaws
use sim_platform.Android.Records.{
  Lifecycle, AndroidEvent, rotation, activity_recreation, background_restriction, suspend,
  process_death, restart, memory_pressure, BindPlan, Permission, microphone, same_permission,
  RestorePlan, ContentRef, Input, bind, event, restore, submit_turn, set_lifecycle, activation,
  permission, notification, audio_input, speech_input, background_execution, validate_content_id,
  validate_restore_plan, validate_bind_plan,
}
use sim_platform.Android.{
  Capsule, default, release_io, apply_android_event, Gain, gain, Step, resume, resume_under,
  restore_plan, dispatch_continuity, is_asleep, set_state, has_bad_ref, activate, set_permission,
  notify, dispatch_activation, dispatch_lifecycle, Outcome, commit, with_audio, with_speech,
  dispatch_audio, dispatch_speech, dispatch,
}

-- The bound plan is a valid one, nothing is recorded twice, and audio and speech are as they should be.
pub record IsValid (self : Capsule) : Type 0 where
  pub bound : (plan : BindPlan) → self.binding ≡ some plan → validate_bind_plan plan ≡ ok tt
  pub resumed_once : IsNodup self.resumed_turns
  pub resources_once : IsNodup self.resources
  pub audio : AudioLaws.IsValid self.audio
  pub speech : SpeechLaws.IsValid self.speech

-- An answer leaves a valid capsule, and a refusal the capsule as it was.
abbrev pub Keeps : Capsule → Outcome → Type 0
Keeps self (ok output, self') = IsValid self'
Keeps self (err e, self') = self' ≡ self

pub default-IsValid : IsValid default
default-IsValid = record {
  bound = λ plan h. cc;
  resumed_once = tt;
  resources_once = tt;
  audio = AudioLaws.default-IsValid;
  speech = SpeechLaws.default-IsValid;
}

add-IsNodup : (a : String) (xs : List String) → IsNodup xs → IsNodup (add a xs)
add-IsNodup a xs h = if_rule IsNodup (contains xs a) _ _ (λ e. h) (λ e. (e, h))

module _ (self : Capsule) (v : IsValid self) where
  abbrev Commits : Step → Type 0
  Commits r = Keeps self (commit self r)

  guard_rule : (b : Bool) (e : String) (k : Step) → Commits k → Commits (refuse_if b e >> k)
  guard_rule true e k h = refl
  guard_rule false e k h = h

  step_rule :
      {A : Type 0} (r : Result String A) (k : A → Step)
      → ((a : A) → r ≡ ok a → Commits (k a))
      → Commits (r >>= k)
  step_rule (ok a) k h = h a refl
  step_rule (err e) k h = refl

  release_io-IsValid : IsValid (release_io self)
  release_io-IsValid = record {
    bound = v.bound;
    resumed_once = v.resumed_once;
    resources_once = tt;
    audio = AudioLaws.release-IsValid self.audio;
    speech = SpeechLaws.release-IsValid self.speech v.speech;
  }

  event-IsValid : (e : AndroidEvent) → IsValid (apply_android_event e self)
  unfolding apply_android_event
  event-IsValid rotation = v
  event-IsValid activity_recreation = v
  event-IsValid background_restriction =
      let r = release_io-IsValid in
      record {
        bound = r.bound;
        resumed_once = r.resumed_once;
        resources_once = tt;
        audio = r.audio;
        speech = r.speech;
      }
  event-IsValid suspend =
      let r = release_io-IsValid in
      record {
        bound = r.bound;
        resumed_once = r.resumed_once;
        resources_once = tt;
        audio = r.audio;
        speech = r.speech;
      }
  event-IsValid process_death =
      let r = release_io-IsValid in
      record {
        bound = λ plan h. cc;
        resumed_once = r.resumed_once;
        resources_once = tt;
        audio = r.audio;
        speech = r.speech;
      }
  event-IsValid restart = record {
    bound = v.bound;
    resumed_once = v.resumed_once;
    resources_once = v.resources_once;
    audio = v.audio;
    speech = v.speech;
  }
  event-IsValid memory_pressure = release_io-IsValid

  restored-IsValid :
      (plan : RestorePlan)
      → Commits (
          ok (
            resume_under (
              resume plan.pending_turn_content_id (record self {
                permissions = plan.permission_observations;
                pending_turn_content_id = plan.pending_turn_content_id;
              }))))
  restored-IsValid plan = resumed plan.pending_turn_content_id
    where
      resumed :
          (o : Option String)
          → Commits (
              ok (
                resume_under (
                  resume o (record self {
                    permissions = plan.permission_observations;
                    pending_turn_content_id = plan.pending_turn_content_id;
                  }))))
      resumed none = record {
        bound = v.bound;
        resumed_once = v.resumed_once;
        resources_once = v.resources_once;
        audio = v.audio;
        speech = v.speech;
      }
      resumed (some id) = record {
        bound = v.bound;
        resumed_once = add-IsNodup id self.resumed_turns v.resumed_once;
        resources_once = v.resources_once;
        audio = v.audio;
        speech = v.speech;
      }

  continuity-Keeps : (input : Input) → Commits (dispatch_continuity input self)
  unfolding dispatch_continuity restore_plan
  continuity-Keeps (bind plan) =
      step_rule (validate_bind_plan plan) (λ u. ok (gain true, record self { binding = some plan }))
        λ u checked. record {
          bound = λ p h.
              let same : plan ≡ p = cc in subst (λ q. validate_bind_plan q ≡ ok tt) same checked;
          resumed_once = v.resumed_once;
          resources_once = v.resources_once;
          audio = v.audio;
          speech = v.speech;
        }
  continuity-Keeps (event e) = event-IsValid e
  continuity-Keeps (restore plan) =
      step_rule (validate_restore_plan plan) (λ u. chain)
        λ u checked.
          step_rule
            (ok_or self.binding "Android restore requires an atomically bound provider snapshot")
            guarded λ binding bound. guard_rule _ _ restored (restored-IsValid plan)
    where
      restored : Step
      restored = ok (
          resume_under (
            resume plan.pending_turn_content_id (record self {
              permissions = plan.permission_observations;
              pending_turn_content_id = plan.pending_turn_content_id;
            })))

      guarded : BindPlan → Step
      guarded binding =
          refuse_if (not (binding.snapshot.content_id == plan.snapshot_content_id))
            "Android restore snapshot does not match bound providers"
          >> restored

      chain : Step
      chain =
          ok_or self.binding "Android restore requires an atomically bound provider snapshot"
          >>= guarded
  continuity-Keeps (submit_turn content_id) =
      step_rule (validate_content_id "turn" content_id)
        (λ u. ok (gain true, record self { pending_turn_content_id = some content_id }))
        λ u checked. record {
          bound = v.bound;
          resumed_once = v.resumed_once;
          resources_once = v.resources_once;
          audio = v.audio;
          speech = v.speech;
        }
  continuity-Keeps (set_lifecycle state) = refl
  continuity-Keeps (activation action content) = refl
  continuity-Keeps (permission p granted) = refl
  continuity-Keeps (notification channel payload) = refl
  continuity-Keeps (audio_input input) = refl
  continuity-Keeps (speech_input input) = refl
  continuity-Keeps (background_execution allowed) = refl

  set_state-IsValid : (state : Lifecycle) → IsValid (set_state state self)
  unfolding set_state
  set_state-IsValid state =
      let r = release_io-IsValid in
      if_rule IsValid (is_asleep (some state)) _ _
        (λ asleep. record {
          bound = r.bound;
          resumed_once = r.resumed_once;
          resources_once = tt;
          audio = r.audio;
          speech = r.speech;
        })
        (λ awake. record {
          bound = v.bound;
          resumed_once = v.resumed_once;
          resources_once = v.resources_once;
          audio = v.audio;
          speech = v.speech;
        })

  lifecycle-Keeps : (input : Input) → Commits (dispatch_lifecycle input self)
  unfolding dispatch_lifecycle
  lifecycle-Keeps (set_lifecycle state) = set_state-IsValid state
  lifecycle-Keeps (bind plan) = refl
  lifecycle-Keeps _ = refl

  activate-Keeps :
      (action : String) (content : Option ContentRef) → Commits (activate action content self)
  unfolding activate
  activate-Keeps action content =
      guard_rule _ _
        (refuse_if (has_bad_ref content)
            "Android activation contained an invalid bounded content ref"
          >> ok taken)
        (guard_rule _ _ (ok taken) (awake (is_asleep self.lifecycle)))
    where
      with_resource : Capsule
      with_resource = record self {
        resources = add (String.◌++◌ "activation:" action) self.resources;
      }

      taken : Gain × Capsule
      taken = if is_asleep self.lifecycle then (gain false, self) else (gain true, with_resource)

      awake :
          (b : Bool) → Commits (ok (if b then (gain false, self) else (gain true, with_resource)))
      awake true = v
      awake false = record {
        bound = v.bound;
        resumed_once = v.resumed_once;
        resources_once = add-IsNodup _ self.resources v.resources_once;
        audio = v.audio;
        speech = v.speech;
      }

  set_permission-IsValid :
      (p : Permission) (granted : Bool) → IsValid (set_permission p granted self)
  unfolding set_permission
  set_permission-IsValid p granted =
      if_rule IsValid (same_permission p microphone && not granted) _ _
        (λ quiet. record {
          bound = v.bound;
          resumed_once = v.resumed_once;
          resources_once = v.resources_once;
          audio = v.audio;
          speech = SpeechLaws.release-IsValid self.speech v.speech;
        })
        (λ same. record {
          bound = v.bound;
          resumed_once = v.resumed_once;
          resources_once = v.resources_once;
          audio = v.audio;
          speech = v.speech;
        })

  notify-Keeps : (channel : String) → Commits (notify channel self)
  unfolding notify
  notify-Keeps channel =
      guard_rule _ _
        (ok (
          gain (not (contains self.resources resource)),
          record self { resources = add resource self.resources },
        ))
        (record {
          bound = v.bound;
          resumed_once = v.resumed_once;
          resources_once = add-IsNodup resource self.resources v.resources_once;
          audio = v.audio;
          speech = v.speech;
        })
    where
      resource : String
      resource = String.◌++◌ "notification:" channel

  activation-Keeps : (input : Input) → Commits (dispatch_activation input self)
  unfolding dispatch_activation
  activation-Keeps (activation action content) = activate-Keeps action content
  activation-Keeps (permission p granted) = set_permission-IsValid p granted
  activation-Keeps (notification channel payload) = notify-Keeps channel
  activation-Keeps (background_execution allowed) = record {
    bound = v.bound;
    resumed_once = v.resumed_once;
    resources_once = v.resources_once;
    audio = v.audio;
    speech = v.speech;
  }
  activation-Keeps _ = refl

  audio-Keeps : (input : Input) → Keeps self (dispatch_audio input self)
  unfolding dispatch_audio
  audio-Keeps (audio_input input) =
      kept (Audio.dispatch input self.audio) (AudioLaws.dispatch-Keeps self.audio input v.audio)
    where
      kept :
          (r : Result String (Option AudioRouteReceipt) × AndroidAudioState)
          → AudioLaws.Keeps self.audio r
          → Keeps self (with_audio self r)
      kept (ok route, audio) h = record {
        bound = v.bound;
        resumed_once = v.resumed_once;
        resources_once = v.resources_once;
        audio = h;
        speech = v.speech;
      }
      kept (err e, audio) h = ap (λ a. record self { audio = a }) h
  audio-Keeps (bind plan) = refl
  audio-Keeps _ = refl

  speech-Keeps : (input : Input) → Keeps self (dispatch_speech input self)
  unfolding dispatch_speech
  speech-Keeps (speech_input input) =
      kept (Speech.dispatch input self.speech)
        (SpeechLaws.dispatch-Keeps self.speech v.speech input)
    where
      kept :
          (r : Result String SpeechOutput × AndroidSpeechState)
          → SpeechLaws.Keeps self.speech r
          → Keeps self (with_speech self r)
      kept (ok output, speech) h = record {
        bound = v.bound;
        resumed_once = v.resumed_once;
        resources_once = v.resources_once;
        audio = v.audio;
        speech = h;
      }
      kept (err e, speech) h = ap (λ s. record self { speech = s }) h
  speech-Keeps (bind plan) = refl
  speech-Keeps _ = refl

  pub dispatch-Keeps :
      (function : String) (input : Input) → Keeps self (dispatch function input self)
  unfolding dispatch
  dispatch-Keeps function input =
      if_rule (Keeps self) (function == "platform/continuity") _ _ (λ e. continuity-Keeps input)
        λ e.
          if_rule (Keeps self) (function == "platform/lifecycle") _ _ (λ e. lifecycle-Keeps input)
            λ e.
              if_rule (Keeps self) (function == "platform/activation") _ _
                (λ e. activation-Keeps input)
                λ e.
                  if_rule (Keeps self) (function == "platform/android-audio") _ _
                    (λ e. audio-Keeps input)
                    λ e.
                      if_rule (Keeps self) (function == "platform/android-speech") _ _
                        (λ e. speech-Keeps input) (λ e. refl)
