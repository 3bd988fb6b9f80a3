-- ===== src/Android/Speech.antt =====
-- crates/sim-platform-android/src/speech.rs: local speech of the Android capsule.
pub mod Laws
use Prim.Native.String
use Prim.Native.String.{len}
use sim_platform.Prelude.{
  ℕ, ◌*◌, ◌≡◌, ◌↔◌, refl, ap, ◌∙◌, sym, String, Bool, true, false, not, ◌&&◌, ◌||◌, Option, none,
  some, List, [], ◌∷◌, map, ltb, leb, eqb, if◌then◌else◌, all, any, length, Eq, text_key, ◌==◌,
  eqb_iff, Result, ok, err, refuse_if, ◌>>=◌, ◌>>◌,
}
use sim_platform.Prelude.Maps.{get, insert}
use sim_platform.Prelude.Text.{is_blank, trimmed, text_before}
use sim_platform.Prelude.Sort.{sort_by, dedup_by}

abbrev pub max_pcm_bytes : ℕ
max_pcm_bytes = 8 * 1024 * 1024

abbrev pub max_speak_bytes : ℕ
max_speak_bytes = 32 * 1024

pub data SpeechKind : Type 0 where
  transcribe speak : SpeechKind

abbrev pub kind_code : SpeechKind → ℕ
kind_code transcribe = 0
kind_code speak = 1

abbrev pub same_kind : SpeechKind → SpeechKind → Bool
same_kind a b = eqb (kind_code a) (kind_code b)

pub same_kind_iff : (a b : SpeechKind) → (same_kind a b ≡ true) ↔ (a ≡ b)
same_kind_iff transcribe transcribe = (λ h. refl, λ h. refl)
same_kind_iff transcribe speak = (λ h. cc, λ h. cc)
same_kind_iff speak transcribe = (λ h. cc, λ h. cc)
same_kind_iff speak speak = (λ h. refl, λ h. refl)

instance abbrev pub kind_key : Eq SpeechKind
kind_key = record { eq = same_kind; eq_decides = same_kind_iff }

pub data SpeechTier : Type 0 where
  on_device : SpeechTier

pub record SpeechLanguage : Type 0 where
  pub tag : String
  pub installed : Bool

pub record LocalSpeechEvidence : Type 0 where
  pub kind : SpeechKind
  pub implementation : String
  pub explicitly_on_device : Bool
  pub remotely_backed : Bool
  pub discovery_contacted_provider : Bool
  pub prompted : Bool
  pub downloaded : Bool
  pub network_denied_self_test : Bool
  pub languages : List SpeechLanguage

-- The evidence with its implementation trimmed, and its languages by tag and once each.
unfoldable pub tidy : LocalSpeechEvidence → LocalSpeechEvidence
tidy self = record self {
  implementation = trimmed self.implementation;
  languages =
      dedup_by (λ a b. a.tag == b.tag) (sort_by (λ a b. text_before a.tag b.tag) self.languages);
}

abbrev pub is_no_text : String → Bool
is_no_text String.[] = true
is_no_text (String.◌∷◌ c s) = false

abbrev pub is_no_language : List SpeechLanguage → Bool
is_no_language [] = true
is_no_language (language ∷ languages) = false

unfoldable pub is_usable : SpeechLanguage → Bool
unfolding is_blank
is_usable language = language.installed && not (is_blank language.tag) && leb (len language.tag) 64

unfoldable pub lacks_proof : LocalSpeechEvidence → Bool
lacks_proof self =
    is_no_text self.implementation
    || not self.explicitly_on_device
    || self.remotely_backed
    || self.discovery_contacted_provider
    || self.prompted
    || self.downloaded
    || not self.network_denied_self_test
    || not (all is_usable self.languages)
    || is_no_language self.languages

-- `validate` changes the evidence that it is called on: the tidied evidence, or the refusal.
unfoldable pub validate : LocalSpeechEvidence → Result String LocalSpeechEvidence
validate self =
    if lacks_proof (tidy self)
    then err "Android local speech requires installed-language, on-device, network-denied evidence"
    else ok (tidy self)

pub data SpeechFallback : Type 0 where
  voice_note type_text discard phone_scene silence : SpeechFallback

pub data SpeechStopReason : Type 0 where
  released permission_loss stale_route lifecycle_expiry oversized_input empty_input revocation :
      SpeechStopReason

pub data SpeechInput : Type 0 where
  install_evidence : LocalSpeechEvidence → SpeechInput
  transcribe_pcm : (language : String) (pcm : List ℕ) → SpeechInput
  transcript : (language text : String) → SpeechInput
  speak_text : (language text : String) → SpeechInput
  complete : SpeechInput
  stop : SpeechStopReason → SpeechInput

pub data SpeechOutput : Type 0 where
  available : SpeechKind → SpeechTier → (languages : List String) → SpeechOutput
  started : SpeechKind → (language : String) → SpeechOutput
  transcribed : (language text : String) → SpeechOutput
  unsupported : SpeechKind → SpeechFallback → SpeechOutput
  stopped : SpeechStopReason → SpeechOutput

abbrev pub is_available : SpeechOutput → Bool
is_available (unsupported kind fallback) = false
is_available (stopped reason) = false
is_available _ = true

pub record AndroidSpeechState : Type 0 where
  pub tiers : List (SpeechKind × LocalSpeechEvidence)
  pub active : Option SpeechKind

abbrev pub default : AndroidSpeechState
default = record { tiers = []; active = none }

abbrev pub release : AndroidSpeechState → AndroidSpeechState
release self = record self { active = none }

abbrev pub SpeechResult : Type 0
SpeechResult = Result String SpeechOutput × AndroidSpeechState

abbrev pub stop_for : SpeechStopReason → AndroidSpeechState → SpeechResult
stop_for reason self = (ok (stopped reason), record self { active = none })

abbrev pub fallback_of : SpeechKind → SpeechFallback
fallback_of transcribe = voice_note
fallback_of speak = silence

abbrev pub serves : String → Option LocalSpeechEvidence → Bool
serves language none = false
serves language (some evidence) =
    any (λ item. item.tag == language && item.installed) evidence.languages

unfoldable pub start : SpeechKind → String → AndroidSpeechState → SpeechResult
start kind language self =
    if not (serves language (get kind self.tiers))
    then (ok (unsupported kind (fallback_of kind)), self)
    else (ok (started kind language), record self { active = some kind })

abbrev pub installed : Result String LocalSpeechEvidence → AndroidSpeechState → SpeechResult
installed (err e) self = (err e, self)
installed (ok evidence) self = (
  ok (available evidence.kind on_device (map (λ item. item.tag) evidence.languages)),
  record self {
    tiers = insert (λ a b. ltb (kind_code a) (kind_code b)) evidence.kind evidence self.tiers;
  },
)

abbrev pub is_no_pcm : List ℕ → Bool
is_no_pcm [] = true
is_no_pcm (byte ∷ pcm) = false

abbrev pub is_transcribing : Option SpeechKind → Bool
is_transcribing (some transcribe) = true
is_transcribing _ = false

unfoldable pub dispatch : SpeechInput → AndroidSpeechState → SpeechResult
dispatch (install_evidence evidence) self = installed (validate evidence) self
dispatch (transcribe_pcm language pcm) self =
    if is_no_pcm pcm
    then stop_for empty_input self
    else if ltb max_pcm_bytes (length pcm)
    then stop_for oversized_input self
    else start transcribe language self
dispatch (speak_text language text) self =
    if is_blank text
    then stop_for empty_input self
    else if ltb max_speak_bytes (len text)
    then stop_for oversized_input self
    else start speak language self
dispatch (transcript language text) self =
    if not (is_transcribing self.active)
    then (err "Android transcript arrived without an active local transcriber", self)
    else if is_blank text
    then stop_for empty_input self
    else (ok (transcribed language text), record self { active = none })
dispatch complete self = stop_for released self
dispatch (stop reason) self = stop_for reason self
