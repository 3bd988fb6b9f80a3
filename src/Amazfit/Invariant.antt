-- ===== src/Amazfit/Invariant.antt =====
-- The invariant of the watch capsule, and that every call keeps it.
use sim_platform.Prelude.{
  ℕ, ◌≤◌, Bool, true, false, not, List, [], ◌∷◌, ◌≡◌, refl, ap, subst, arith, number_key, length,
  All, IsNodup, Bool-cases, inl, inr, if_rule,
}
use sim_platform.Amazfit.{
  max_pending_events, protocol_version, Lifecycle, WatchEvent, Envelope, AmazfitCapsule, default,
  is_active, ends_link, disconnect, set_lifecycle, set_consent, connect, is_valid_event, pop_front,
}

-- An event of the current session whose contents passed `validate_event`.
pub record IsCurrent (session : ℕ) (event : Envelope WatchEvent) : Type 0 where
  pub versioned : event.version ≡ protocol_version
  pub in_session : event.session ≡ session
  pub contents : is_valid_event event.payload ≡ true

pub record IsValid (self : AmazfitCapsule) : Type 0 where
  pub queue : length self.pending ≤ max_pending_events
  pub distinct : IsNodup self.seen
  pub current : All (IsCurrent self.session) self.pending
  pub offline : self.connected ≡ false → (self.pending ≡ []) × (self.seen ≡ [])
  pub consented : self.connected ≡ true → self.consent ≡ true
  pub alive : self.connected ≡ true → ends_link self.lifecycle ≡ false

-- The capsule after a call is valid, whatever the call returned.
abbrev pub After : {R : Type 0} → R × AmazfitCapsule → Type 0
After o = IsValid o.1

pub default-IsValid : IsValid default
default-IsValid = record {
  queue = omega arith;
  distinct = tt;
  current = tt;
  offline = λ e. (refl, refl);
  consented = λ e. cc;
  alive = λ e. refl;
}

pub disconnect-IsValid : (self : AmazfitCapsule) → IsValid (disconnect self)
unfolding disconnect
disconnect-IsValid self = record {
  queue = omega arith;
  distinct = tt;
  current = tt;
  offline = λ e. (refl, refl);
  consented = λ e. cc;
  alive = λ e. cc;
}

pub set_lifecycle-IsValid :
    (state : Lifecycle) (self : AmazfitCapsule) → IsValid self → IsValid (set_lifecycle state self)
unfolding set_lifecycle
set_lifecycle-IsValid state self v = elim (Bool-cases (ends_link state)) [
  | inl ends ↦ rw ends (disconnect-IsValid (record self { lifecycle = state }))
  | inr stays ↦ rw stays (record {
    queue = v.queue;
    distinct = v.distinct;
    current = v.current;
    offline = v.offline;
    consented = v.consented;
    alive = λ e. stays;
  })
]

pub set_consent-IsValid :
    (granted : Bool) (self : AmazfitCapsule) → IsValid self → IsValid (set_consent granted self)
unfolding set_consent
set_consent-IsValid false self v = disconnect-IsValid (record self { consent = false })
set_consent-IsValid true self v = record {
  queue = v.queue;
  distinct = v.distinct;
  current = v.current;
  offline = v.offline;
  consented = λ e. refl;
  alive = v.alive;
}

active-alive : (state : Lifecycle) → is_active state ≡ true → ends_link state ≡ false
active-alive state h = ground arith

pub connect-IsValid :
    (session : ℕ) (self : AmazfitCapsule) → IsValid self → IsValid (connect session self).1
unfolding connect
connect-IsValid session self v =
    if_rule After (not self.consent) _ _ (λ refused. v)
      λ granted.
        if_rule After (not (is_active self.lifecycle)) _ _ (λ asleep. v)
          λ awake. record {
            queue = omega arith;
            distinct = tt;
            current = tt;
            offline = λ e. cc;
            consented = λ e. ground arith;
            alive = λ e. active-alive self.lifecycle (ground arith);
          }

pub pop_front-IsValid :
    (events : List (Envelope WatchEvent)) (self : AmazfitCapsule)
    → self.pending ≡ events
    → IsValid self
    → IsValid (pop_front events self).1
pop_front-IsValid [] self e v = v
pop_front-IsValid (event ∷ rest) self e v = record {
  queue = omega (arith, v.queue, ap length e);
  distinct = v.distinct;
  current = (subst (All (IsCurrent self.session)) e v.current).1;
  offline = λ off. let (empty, unseen) = v.offline off in absurd (cc (empty, e));
  consented = v.consented;
  alive = v.alive;
}
