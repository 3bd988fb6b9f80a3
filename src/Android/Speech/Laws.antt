-- ===== src/Android/Speech/Laws.antt =====
-- Local speech: its invariant, and that a refusal changes nothing.
use Prim.Native.String.{len}
use sim_platform.Prelude.Text.{is_blank}
use sim_platform.Prelude.{
  length, String, Bool, true, false, not, Option, none, some, ◌≡◌, ◌≢◌, refl, sym, ap, ◌∙◌, arith,
  if◌then◌else◌, if_rule, Bool-cases, inl, inr, ltb, ◌==◌, ok, err,
}
use sim_platform.Prelude.Maps.{get, insert, get-insert}
use sim_platform.Android.Speech.{
  SpeechKind, transcribe, speak, kind_code, same_kind_iff, kind_key, LocalSpeechEvidence,
  lacks_proof, tidy, validate, SpeechStopReason, oversized_input, empty_input, SpeechInput,
  install_evidence, transcribe_pcm, transcript, speak_text, complete, stop, AndroidSpeechState,
  default, release, SpeechResult, stop_for, serves, start, installed, is_transcribing, is_no_pcm,
  max_pcm_bytes, max_speak_bytes, transcribed, dispatch,
}

-- Each installed tier is proven to be local, and is filed under its kind; what is active has a tier.
pub record IsValid (self : AndroidSpeechState) : Type 0 where
  pub proven :
      (kind : SpeechKind) (e : LocalSpeechEvidence)
      → get kind self.tiers ≡ some e
      → (lacks_proof e ≡ false) × (e.kind ≡ kind)
  pub served : (kind : SpeechKind) → self.active ≡ some kind → get kind self.tiers ≢ none

-- An answer leaves a valid state, and a refusal the state as it was.
abbrev pub Keeps : AndroidSpeechState → SpeechResult → Type 0
Keeps self (ok output, self') = IsValid self'
Keeps self (err e, self') = self' ≡ self

pub default-IsValid : IsValid default
unfolding get
default-IsValid = record { proven = λ kind e h. cc; served = λ kind h. cc }

module _ (self : AndroidSpeechState) (v : IsValid self) where
  pub release-IsValid : IsValid (release self)
  release-IsValid = record { proven = v.proven; served = λ kind h. cc }

  installed-Keeps :
      (evidence : LocalSpeechEvidence) → Keeps self (installed (validate evidence) self)
  unfolding validate
  installed-Keeps evidence = elim (Bool-cases (lacks_proof (tidy evidence))) [
    | inl lacks ↦ rw lacks refl
    | inr shown ↦ rw shown (record {
      proven = λ kind e h. filed kind e shown (sym (looked kind) ∙ h);
      served = λ kind h none_there. missing kind h (sym (looked kind) ∙ none_there);
    })
  ]
    where
      new : LocalSpeechEvidence
      new = tidy evidence

      looked :
          (kind : SpeechKind)
          → get kind (insert (λ a b. ltb (kind_code a) (kind_code b)) new.kind new self.tiers)
            ≡ (if new.kind == kind then some new else get kind self.tiers)
      looked kind = get-insert (λ a b. ltb (kind_code a) (kind_code b)) new.kind kind new self.tiers

      filed :
          (kind : SpeechKind) (e : LocalSpeechEvidence)
          → lacks_proof new ≡ false
          → (if new.kind == kind then some new else get kind self.tiers) ≡ some e
          → (lacks_proof e ≡ false) × (e.kind ≡ kind)
      filed kind e shown h = elim (Bool-cases (new.kind == kind)) [
        | inl same ↦
            let is_new : new ≡ e = cc (simp same at h) in
            (
              ap lacks_proof (sym is_new) ∙ shown,
              ap (λ x. x.kind) (sym is_new) ∙ (same_kind_iff new.kind kind).0 same,
            )
        | inr other ↦ v.proven kind e (simp other at h)
      ]

      missing :
          (kind : SpeechKind)
          → self.active ≡ some kind
          → (if new.kind == kind then some new else get kind self.tiers) ≡ none
          → ⊥
      missing kind h e = elim (Bool-cases (new.kind == kind)) [
        | inl same ↦ cc (simp same at e)
        | inr other ↦ v.served kind h (simp other at e)
      ]

  start-Keeps : (kind : SpeechKind) (language : String) → Keeps self (start kind language self)
  unfolding start
  start-Keeps kind language =
      if_rule (Keeps self) (not (serves language (get kind self.tiers))) _ _ (λ unserved. v)
        (λ serving. record {
          proven = v.proven;
          served = λ k h e. found (get kind self.tiers) (ground (arith, serving)) (at k h ∙ e);
        })
    where
      found : (o : Option LocalSpeechEvidence) → serves language o ≡ true → o ≡ none → ⊥
      found none h e = cc
      found (some evidence) h e = cc

      at : (k : SpeechKind) → some kind ≡ some k → get kind self.tiers ≡ get k self.tiers
      at k h = let same : kind ≡ k = cc in ap (λ x. get x self.tiers) same

  stop_or :
      (b : Bool) (reason : SpeechStopReason) (r : SpeechResult)
      → Keeps self r
      → Keeps self (if b then stop_for reason self else r)
  stop_or true reason r h = release-IsValid
  stop_or false reason r h = h

  stop_empty_or :
      (b : Bool) (r : SpeechResult)
      → Keeps self r
      → Keeps self (if b then stop_for empty_input self else r)
  stop_empty_or b r h = stop_or b empty_input r h

  pub dispatch-Keeps : (input : SpeechInput) → Keeps self (dispatch input self)
  unfolding dispatch
  dispatch-Keeps (install_evidence evidence) = installed-Keeps evidence
  dispatch-Keeps (transcribe_pcm language pcm) =
      stop_empty_or (is_no_pcm pcm) _ (
        stop_or (ltb max_pcm_bytes (length pcm)) oversized_input _
          (start-Keeps transcribe language))
  dispatch-Keeps (speak_text language text) =
      stop_empty_or (is_blank text) _
        (stop_or (ltb max_speak_bytes (len text)) oversized_input _ (start-Keeps speak language))
  dispatch-Keeps (transcript language text) =
      if_rule (Keeps self) (not (is_transcribing self.active)) _ _ (λ inactive. refl)
        (λ active.
          stop_empty_or (is_blank text) (ok (transcribed language text), release self)
            release-IsValid)
  dispatch-Keeps complete = release-IsValid
  dispatch-Keeps (stop reason) = release-IsValid
