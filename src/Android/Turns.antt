-- ===== src/Android/Turns.antt =====
-- The turns that a restore resumes.
use Prim.Native.String
use sim_platform.Prelude.{
  String, Bool, true, false, not, ◌&&◌, Option, none, some, List, [], ◌∷◌, ◌≡◌, refl, sym, ap, ◌∙◌,
  subst, arith, if◌then◌else◌, if_rule, Bool-cases, inl, inr, All, IsNodup, add, contains, text_key,
  ◌==◌, Result, ok, err, ok_or, refuse_if, ◌>>=◌, ◌>>◌,
}
use sim_platform.Android.Audio.{AndroidAudioState, AudioRouteReceipt}
use sim_platform.Android.Audio
use sim_platform.Android.Speech.{AndroidSpeechState, SpeechOutput}
use sim_platform.Android.Speech
use sim_platform.Android.Records.{
  AndroidEvent, rotation, activity_recreation, background_restriction, suspend, process_death,
  restart, memory_pressure, BindPlan, microphone, same_permission, Input, bind, event, restore,
  submit_turn, set_lifecycle, activation, permission, notification, audio_input, speech_input,
  background_execution, Output, validate_content_id, validate_restore_plan, validate_bind_plan,
}
use sim_platform.Android.{
  Capsule, default, apply_android_event, Gain, gain, Step, resume, resume_under, restore_plan,
  dispatch_continuity, is_asleep, set_state, has_bad_ref, activate, set_permission, notify,
  dispatch_activation, dispatch_lifecycle, Outcome, commit, with_audio, with_speech, dispatch_audio,
  dispatch_speech, dispatch,
}

-- What an input does to the record of resumed turns: it stays as it is, or a turn that was not on it is
-- resumed and put on it.
abbrev pub Records : Option String → List String → List String → Type 0
Records none before after = after ≡ before
Records (some id) before after = (contains before id ≡ false) × (after ≡ id ∷ before)

abbrev pub Resumes : Capsule → Outcome → Type 0
Resumes self (ok output, self') =
    Records output.resumed_turn_content_id self.resumed_turns self'.resumed_turns
Resumes self (err e, self') = self'.resumed_turns ≡ self.resumed_turns

module _ (self : Capsule) where
  abbrev Commits : Step → Type 0
  Commits r = Resumes self (commit self r)

  guard_rule : (b : Bool) (e : String) (k : Step) → Commits k → Commits (refuse_if b e >> k)
  guard_rule true e k h = refl
  guard_rule false e k h = h

  step_rule :
      {A : Type 0} (r : Result String A) (k : A → Step)
      → ((a : A) → Commits (k a))
      → Commits (r >>= k)
  step_rule (ok a) k h = h a
  step_rule (err e) k h = refl

  resumed-Records :
      (o : Option String) (base : Capsule)
      → base.resumed_turns ≡ self.resumed_turns
      → Commits (ok (resume_under (resume o base)))
  resumed-Records none base e = e
  resumed-Records (some id) base e = elim (Bool-cases (contains base.resumed_turns id)) [
    | inl old ↦ simp old e
    | inr new ↦ simp new (ap (λ l. contains l id) (sym e) ∙ new, ap (λ l. id ∷ l) e)
  ]

  event-same : (e : AndroidEvent) → (apply_android_event e self).resumed_turns ≡ self.resumed_turns
  unfolding apply_android_event
  event-same rotation = refl
  event-same activity_recreation = refl
  event-same background_restriction = refl
  event-same suspend = refl
  event-same process_death = refl
  event-same restart = refl
  event-same memory_pressure = refl

  continuity-Resumes : (input : Input) → Commits (dispatch_continuity input self)
  unfolding dispatch_continuity restore_plan
  continuity-Resumes (bind plan) =
      step_rule (validate_bind_plan plan) (λ u. ok (gain true, record self { binding = some plan }))
        (λ u. refl)
  continuity-Resumes (event e) = event-same e
  continuity-Resumes (restore plan) =
      step_rule (validate_restore_plan plan)
        (λ u.
          ok_or self.binding "Android restore requires an atomically bound provider snapshot"
          >>= guarded)
        λ u.
          step_rule
            (ok_or self.binding "Android restore requires an atomically bound provider snapshot")
            guarded
            λ binding.
              guard_rule _ _ (ok (resume_under (resume plan.pending_turn_content_id base)))
                (resumed-Records plan.pending_turn_content_id base refl)
    where
      base : Capsule
      base = record self {
        permissions = plan.permission_observations;
        pending_turn_content_id = plan.pending_turn_content_id;
      }

      guarded : BindPlan → Step
      guarded binding =
          refuse_if (not (binding.snapshot.content_id == plan.snapshot_content_id))
            "Android restore snapshot does not match bound providers"
          >> ok (resume_under (resume plan.pending_turn_content_id base))
  continuity-Resumes (submit_turn content_id) =
      step_rule (validate_content_id "turn" content_id)
        (λ u. ok (gain true, record self { pending_turn_content_id = some content_id })) (λ u. refl)
  continuity-Resumes (set_lifecycle state) = refl
  continuity-Resumes _ = refl

  lifecycle-Resumes : (input : Input) → Commits (dispatch_lifecycle input self)
  unfolding dispatch_lifecycle set_state
  lifecycle-Resumes (set_lifecycle state) =
      if_rule (λ (c : Capsule). c.resumed_turns ≡ self.resumed_turns) (is_asleep (some state)) _ _
        (λ e. refl) (λ e. refl)
  lifecycle-Resumes (bind plan) = refl
  lifecycle-Resumes _ = refl

  activation-Resumes : (input : Input) → Commits (dispatch_activation input self)
  unfolding dispatch_activation activate set_permission notify
  activation-Resumes (activation action content) =
      guard_rule _ _
        (refuse_if (has_bad_ref content)
            "Android activation contained an invalid bounded content ref"
          >> ok taken)
        (guard_rule _ _ (ok taken) (awake (is_asleep self.lifecycle)))
    where
      with_resource : Capsule
      with_resource = record self {
        resources = add (String.◌++◌ "activation:" action) self.resources;
      }

      taken : Gain × Capsule
      taken = if is_asleep self.lifecycle then (gain false, self) else (gain true, with_resource)

      awake :
          (b : Bool) → Commits (ok (if b then (gain false, self) else (gain true, with_resource)))
      awake true = refl
      awake false = refl
  activation-Resumes (permission p granted) =
      if_rule (λ (c : Capsule). c.resumed_turns ≡ self.resumed_turns)
        (same_permission p microphone && not granted) _ _ (λ e. refl) (λ e. refl)
  activation-Resumes (notification channel payload) =
      guard_rule _ _ (ok (told (String.◌++◌ "notification:" channel))) refl
    where
      told : String → Gain × Capsule
      told resource = (
        gain (not (contains self.resources resource)),
        record self { resources = add resource self.resources },
      )
  activation-Resumes (background_execution allowed) = refl
  activation-Resumes _ = refl

  audio-Resumes : (input : Input) → Resumes self (dispatch_audio input self)
  unfolding dispatch_audio
  audio-Resumes (audio_input input) = kept (Audio.dispatch input self.audio)
    where
      kept :
          (r : Result String (Option AudioRouteReceipt) × AndroidAudioState)
          → Resumes self (with_audio self r)
      kept (ok route, audio) = refl
      kept (err e, audio) = refl
  audio-Resumes _ = refl

  speech-Resumes : (input : Input) → Resumes self (dispatch_speech input self)
  unfolding dispatch_speech
  speech-Resumes (speech_input input) = kept (Speech.dispatch input self.speech)
    where
      kept :
          (r : Result String SpeechOutput × AndroidSpeechState) → Resumes self (with_speech self r)
      kept (ok output, speech) = refl
      kept (err e, speech) = refl
  speech-Resumes _ = refl

  dispatch-Resumes :
      (function : String) (input : Input) → Resumes self (dispatch function input self)
  unfolding dispatch
  dispatch-Resumes function input =
      if_rule (Resumes self) (function == "platform/continuity") _ _ (λ e. continuity-Resumes input)
        λ e.
          if_rule (Resumes self) (function == "platform/lifecycle") _ _
            (λ e. lifecycle-Resumes input)
            λ e.
              if_rule (Resumes self) (function == "platform/activation") _ _
                (λ e. activation-Resumes input)
                λ e.
                  if_rule (Resumes self) (function == "platform/android-audio") _ _
                    (λ e. audio-Resumes input)
                    λ e.
                      if_rule (Resumes self) (function == "platform/android-speech") _ _
                        (λ e. speech-Resumes input) (λ e. refl)

-- The turns that the answers to a sequence of inputs resume, in order.
abbrev pub resumed_by : Result String Output → Option String
resumed_by (ok output) = output.resumed_turn_content_id
resumed_by (err e) = none

abbrev pub put_some : Option String → List String → List String
put_some none ids = ids
put_some (some id) ids = id ∷ ids

unfoldable pub resumptions : List (String × Input) → Capsule → List String
resumptions [] self = []
resumptions ((function, input) ∷ inputs) self =
    let o = dispatch function input self in put_some (resumed_by o.0) (resumptions inputs o.1)

unseen-cons :
    (id : String) (before ids : List String)
    → All (λ i. contains (id ∷ before) i ≡ false) ids
    → (All (λ i. contains before i ≡ false) ids) × (contains ids id ≡ false)
unseen-cons id before [] h = (tt, refl)
unseen-cons id before (i ∷ ids) h =
    let rest = unseen-cons id before ids h.1 in
    (
      (ground (arith, h.0), rest.0),
      ground (arith, h.0, rest.1, text_key.eq_decides i id, text_key.eq_decides id i),
    )

resumptions-unseen :
    (inputs : List (String × Input)) (self : Capsule)
    → (All (λ i. contains self.resumed_turns i ≡ false) (resumptions inputs self))
      × IsNodup (resumptions inputs self)
unfolding resumptions
resumptions-unseen [] self = (tt, tt)
resumptions-unseen ((function, input) ∷ inputs) self =
    after (dispatch function input self) (dispatch-Resumes self function input)
      (resumptions-unseen inputs (dispatch function input self).1)
  where
    Unseen : List String → List String → Type 0
    Unseen before ids = (All (λ i. contains before i ≡ false) ids) × IsNodup ids

    after :
        (o : Outcome)
        → Resumes self o
        → Unseen o.1.resumed_turns (resumptions inputs o.1)
        → Unseen self.resumed_turns (put_some (resumed_by o.0) (resumptions inputs o.1))
    after (err e, self') h rest = subst (λ l. Unseen l (resumptions inputs self')) h rest
    after (ok output, self') h rest = recorded output.resumed_turn_content_id h
      where
        recorded :
            (o : Option String)
            → Records o self.resumed_turns self'.resumed_turns
            → Unseen self.resumed_turns (put_some o (resumptions inputs self'))
        recorded none h = subst (λ l. Unseen l (resumptions inputs self')) h rest
        recorded (some id) h =
            let (fresh, other) = unseen-cons id self.resumed_turns (resumptions inputs self') (
              subst (λ l. All (λ i. contains l i ≡ false) (resumptions inputs self')) h.1 rest.0) in
            ((h.0, fresh), (other, rest.1))

-- A pending turn is resumed at most once: over any inputs to a new capsule, with any process deaths,
-- restarts, bindings and restores among them, no content id occurs twice among the turns that the
-- answers resume.
pub resumptions-IsNodup : (inputs : List (String × Input)) → IsNodup (resumptions inputs default)
resumptions-IsNodup inputs = (resumptions-unseen inputs default).1
