-- ===== src/Halo/Capsule/Invariant.antt =====
-- The invariant of the capsule, and that the calls which do not receive keep it.
use sim_platform.Prelude.{
  ℕ, ◌≤◌, ◌<◌, Bool, true, false, not, Option, none, some, [], ◌≡◌, refl, arith, number_key, length,
  IsNodup, Bool-cases, inl, inr, if_rule,
}
use sim_platform.Halo.Types.{
  max_message_bytes, max_fragments, max_pending_events, HostTransport, Lifecycle, Assembly,
  HaloCapsule,
}
use sim_platform.Halo.Capsule.{
  new, disconnect, set_lifecycle, set_consent, connect, is_active, ends_link,
}

-- A reassembly in progress.
pub record IsPartial (session : ℕ) (a : Assembly) : Type 0 where
  pub unfinished : a.next < a.count
  pub few : a.count ≤ max_fragments
  pub bounded : length a.payload ≤ max_message_bytes
  pub current : a.session ≡ session

abbrev pub IsProgress : ℕ → Option Assembly → Type 0
IsProgress session none = Unit
IsProgress session (some a) = IsPartial session a

-- Without a connection nothing is kept.
abbrev pub IsIdle : HaloCapsule → Type 0
IsIdle self = (self.pending ≡ []) × (self.seen ≡ []) × (self.assembly ≡ none)

pub record IsValid (self : HaloCapsule) : Type 0 where
  pub queue : length self.pending ≤ max_pending_events
  pub distinct : IsNodup self.seen
  pub progress : IsProgress self.session self.assembly
  pub offline : self.connected ≡ false → IsIdle self
  pub consented : self.connected ≡ true → self.consent ≡ true
  pub alive : self.connected ≡ true → ends_link self.lifecycle ≡ false

pub new-IsValid : (transport : HostTransport) → IsValid (new transport)
new-IsValid transport = record {
  queue = omega arith;
  distinct = tt;
  progress = tt;
  offline = λ e. (refl, refl, refl);
  consented = λ e. cc;
  alive = λ e. refl;
}

pub disconnect-IsValid : (self : HaloCapsule) → IsValid (disconnect self)
unfolding disconnect
disconnect-IsValid self = record {
  queue = omega arith;
  distinct = tt;
  progress = tt;
  offline = λ e. (refl, refl, refl);
  consented = λ e. cc;
  alive = λ e. cc;
}

pub set_lifecycle-IsValid :
    (state : Lifecycle) (self : HaloCapsule) → IsValid self → IsValid (set_lifecycle state self)
unfolding set_lifecycle
set_lifecycle-IsValid state self v = elim (Bool-cases (ends_link state)) [
  | inl ends ↦ rw ends (disconnect-IsValid (record self { lifecycle = state }))
  | inr stays ↦ rw stays (record {
    queue = v.queue;
    distinct = v.distinct;
    progress = v.progress;
    offline = v.offline;
    consented = v.consented;
    alive = λ e. stays;
  })
]

pub set_consent-IsValid :
    (granted : Bool) (self : HaloCapsule) → IsValid self → IsValid (set_consent granted self)
unfolding set_consent
set_consent-IsValid false self v = disconnect-IsValid (record self { consent = false })
set_consent-IsValid true self v = record {
  queue = v.queue;
  distinct = v.distinct;
  progress = v.progress;
  offline = v.offline;
  consented = λ e. refl;
  alive = v.alive;
}

-- The capsule after a call is valid, whatever the call returned.
abbrev pub After : {R : Type 0} → R × HaloCapsule → Type 0
After o = IsValid o.1

active-alive : (state : Lifecycle) → is_active state ≡ true → ends_link state ≡ false
active-alive state h = ground arith

pub connect-IsValid :
    (session : ℕ) (self : HaloCapsule) → IsValid self → IsValid (connect session self).1
unfolding connect
connect-IsValid session self v =
    if_rule After (not self.consent) _ _ (λ refused. v)
      λ granted.
        if_rule After (not (is_active self.lifecycle)) _ _ (λ asleep. v)
          λ awake. record {
            queue = omega arith;
            distinct = tt;
            progress = tt;
            offline = λ e. cc;
            consented = λ e. ground arith;
            alive = λ e. active-alive self.lifecycle (ground arith);
          }
