-- ===== src/Ios/Invariant.antt =====
-- The invariant of the iOS capsule, and that every input keeps it.
use Prim.Native.String
use sim_platform.Prelude.{
  String, Bool, true, false, not, ◌&&◌, Option, none, some, List, [], ◌∷◌, ◌≡◌, refl, ap, arith,
  if◌then◌else◌, if_rule, Bool-cases, inl, inr, IsNodup, add, contains, text_key, ◌==◌, ok,
  refuse_if, ◌>>◌,
}
use sim_platform.Ios.Records.{
  Lifecycle, connected, active, suspended, disconnected, Service, audio_service,
  notification_service, ContentRef, Input, set_lifecycle, activation, permission, notification,
  audio_device, background_execution, document_grant, use_service, memory_pressure,
}
use sim_platform.Ios.{
  Capsule, default, remove, is_awake, is_asleep, is_active, has_some, available, Step, set_state,
  has_bad_ref, with_resource, activate, notify, connect_audio, grant_document, dispatch_activation,
  dispatch_lifecycle, Outcome, commit, dispatch,
}

-- Nothing is held twice; a suspended or disconnected capsule holds nothing; and background execution and
-- document grants are only there while it is connected or active.
pub record IsValid (self : Capsule) : Type 0 where
  pub resources_once : IsNodup self.resources
  pub grants_once : IsNodup self.document_grants
  pub rests : is_asleep self.lifecycle ≡ true → self.resources ≡ []
  pub background : self.background_allowed ≡ true → is_awake self.lifecycle ≡ true
  pub documents : has_some self.document_grants ≡ true → is_awake self.lifecycle ≡ true

contains-remove :
    (a b : String) (xs : List String) → contains xs b ≡ false → contains (remove a xs) b ≡ false
unfolding remove
contains-remove a b [] h = refl
contains-remove a b (x ∷ xs) h = ground (arith, contains-remove a b xs)

remove-IsNodup : (a : String) (xs : List String) → IsNodup xs → IsNodup (remove a xs)
unfolding remove
remove-IsNodup a [] h = tt
remove-IsNodup a (x ∷ xs) h =
    let later = remove-IsNodup a xs h.1 in
    let apart = contains-remove a x xs h.0 in
    if_rule IsNodup (x == a) _ _ (λ e. h.1) (λ e. (apart, later))

has_some-remove :
    (a : String) (xs : List String) → has_some (remove a xs) ≡ true → has_some xs ≡ true
unfolding remove
has_some-remove a [] h = h
has_some-remove a (x ∷ xs) h = refl

add-IsNodup : (a : String) (xs : List String) → IsNodup xs → IsNodup (add a xs)
add-IsNodup a xs h = if_rule IsNodup (contains xs a) _ _ (λ e. h) (λ e. (e, h))

awake_not_asleep : (state : Option Lifecycle) → is_awake state ≡ true → is_asleep state ≡ false
awake_not_asleep none h = refl
awake_not_asleep (some connected) h = refl
awake_not_asleep (some active) h = refl
awake_not_asleep (some suspended) h = cc
awake_not_asleep (some disconnected) h = cc

awake_or_asleep :
    (state : Lifecycle) → is_asleep (some state) ≡ false → is_awake (some state) ≡ true
awake_or_asleep connected h = refl
awake_or_asleep active h = refl
awake_or_asleep suspended h = cc
awake_or_asleep disconnected h = cc

pub default-IsValid : IsValid default
default-IsValid = record {
  resources_once = tt;
  grants_once = tt;
  rests = λ e. refl;
  background = λ e. cc;
  documents = λ e. cc;
}

module _ (self : Capsule) (v : IsValid self) where
  abbrev Commits : Step → Type 0
  Commits r = IsValid (commit self r).1

  guard_rule : (b : Bool) (e : String) (k : Step) → Commits k → Commits (refuse_if b e >> k)
  guard_rule true e k h = v
  guard_rule false e k h = h

  with_resource-IsValid :
      (resource : String)
      → is_asleep self.lifecycle ≡ false
      → IsValid (with_resource resource self).1
  with_resource-IsValid resource e = record {
    resources_once = add-IsNodup resource self.resources v.resources_once;
    grants_once = v.grants_once;
    rests = λ asleep. cc (asleep, e);
    background = v.background;
    documents = v.documents;
  }

  available-awake :
      (service : Service) → available service self ≡ true → is_asleep self.lifecycle ≡ false
  unfolding available
  available-awake service h = awake_not_asleep self.lifecycle (ground (arith, h))

  set_state-IsValid : (state : Lifecycle) → IsValid (set_state state self)
  unfolding set_state
  set_state-IsValid state = elim (Bool-cases (is_asleep (some state))) [
    | inl asleep ↦ rw asleep (record {
      resources_once = tt;
      grants_once = tt;
      rests = λ e. refl;
      background = λ e. cc;
      documents = λ e. cc;
    })
    | inr awake ↦ rw awake (record {
      resources_once = v.resources_once;
      grants_once = v.grants_once;
      rests = λ e. cc (e, awake);
      background = λ e. awake_or_asleep state awake;
      documents = λ e. awake_or_asleep state awake;
    })
  ]

  activate-IsValid :
      (action : String) (content : Option ContentRef) → Commits (activate action content self)
  unfolding activate
  activate-IsValid action content =
      guard_rule _ _
        (refuse_if (has_bad_ref content) "iOS activation contained an invalid bounded content ref"
          >> ok taken)
        (guard_rule _ _ (ok taken) (
          if_rule (λ (r : Bool × Capsule). IsValid r.1) (is_asleep self.lifecycle) _ _ (λ e. v)
            (λ e. with_resource-IsValid (String.◌++◌ "activation:" action) e)))
    where
      taken : Bool × Capsule
      taken =
          if is_asleep self.lifecycle
          then (false, self)
          else (true, (with_resource (String.◌++◌ "activation:" action) self).1)

  notify-IsValid : (channel : String) → Commits (notify channel self)
  unfolding notify
  notify-IsValid channel =
      guard_rule _ _
        (ok (
          if available notification_service self
          then with_resource (String.◌++◌ "notification:" channel) self
          else (false, self)))
        (if_rule (λ (r : Bool × Capsule). IsValid r.1) (available notification_service self) _ _
          (λ e. with_resource-IsValid _ (available-awake notification_service e)) (λ e. v))

  without_resource-IsValid :
      (resource : String) → IsValid (record self { resources = remove resource self.resources })
  unfolding remove
  without_resource-IsValid resource = record {
    resources_once = remove-IsNodup resource self.resources v.resources_once;
    grants_once = v.grants_once;
    rests = λ e. ap (remove resource) (v.rests e);
    background = v.background;
    documents = v.documents;
  }

  connect_audio-IsValid :
      (id : String) (is_connected : Bool) → Commits (connect_audio id is_connected self)
  unfolding connect_audio
  connect_audio-IsValid id is_connected =
      guard_rule _ _
        (ok (
          if is_connected && available audio_service self
          then with_resource (String.◌++◌ "audio:" id) self
          else (
            contains self.resources (String.◌++◌ "audio:" id),
            record self { resources = remove (String.◌++◌ "audio:" id) self.resources },
          )))
        (if_rule (λ (r : Bool × Capsule). IsValid r.1)
          (is_connected && available audio_service self) _ _
          (λ e. with_resource-IsValid _ (available-awake audio_service (ground (arith, e))))
          (λ e. without_resource-IsValid (String.◌++◌ "audio:" id)))

  grant_document-IsValid :
      (id : String) (is_granted : Bool) → Commits (grant_document id is_granted self)
  unfolding grant_document
  grant_document-IsValid id is_granted =
      guard_rule _ _
        (ok (
          if is_granted && is_active self
          then (
            not (contains self.document_grants id),
            record self { document_grants = add id self.document_grants },
          )
          else (false, record self { document_grants = remove id self.document_grants })))
        (if_rule (λ (r : Bool × Capsule). IsValid r.1) (is_granted && is_active self) _ _
          (λ e. record {
            resources_once = v.resources_once;
            grants_once = add-IsNodup id self.document_grants v.grants_once;
            rests = v.rests;
            background = v.background;
            documents = λ d. ground (arith, e);
          })
          (λ e. record {
            resources_once = v.resources_once;
            grants_once = remove-IsNodup id self.document_grants v.grants_once;
            rests = v.rests;
            background = v.background;
            documents = λ d. v.documents (has_some-remove id self.document_grants d);
          }))

  activation-IsValid : (input : Input) → Commits (dispatch_activation input self)
  unfolding dispatch_activation
  activation-IsValid (activation action content) = activate-IsValid action content
  activation-IsValid (permission p granted) = record {
    resources_once = v.resources_once;
    grants_once = v.grants_once;
    rests = v.rests;
    background = v.background;
    documents = v.documents;
  }
  activation-IsValid (notification channel payload) = notify-IsValid channel
  activation-IsValid (audio_device id is_connected) = connect_audio-IsValid id is_connected
  activation-IsValid (background_execution allowed) = record {
    resources_once = v.resources_once;
    grants_once = v.grants_once;
    rests = v.rests;
    background = λ e. ground (arith, e);
    documents = v.documents;
  }
  activation-IsValid (document_grant id is_granted) = grant_document-IsValid id is_granted
  activation-IsValid (use_service service) = v
  activation-IsValid memory_pressure = record {
    resources_once = tt;
    grants_once = v.grants_once;
    rests = λ e. refl;
    background = v.background;
    documents = v.documents;
  }
  activation-IsValid (set_lifecycle state) = v

  lifecycle-IsValid : (input : Input) → Commits (dispatch_lifecycle input self)
  unfolding dispatch_lifecycle
  lifecycle-IsValid (set_lifecycle state) = set_state-IsValid state
  lifecycle-IsValid memory_pressure = v
  lifecycle-IsValid _ = v

  pub dispatch-IsValid :
      (function : String) (input : Input) → IsValid (dispatch function input self).1
  unfolding dispatch
  dispatch-IsValid function input =
      if_rule (λ (o : Outcome). IsValid o.1) (function == "platform/lifecycle") _ _
        (λ e. lifecycle-IsValid input)
        λ e.
          if_rule (λ (o : Outcome). IsValid o.1) (function == "platform/activation") _ _
            (λ e. activation-IsValid input) (λ e. v)
