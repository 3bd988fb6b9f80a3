-- ===== src/Linux.antt =====
-- crates/sim-platform-linux/src/linux.rs: one activation of the Linux capsule. A method returns its
-- result and the capsule after it.
pub mod Budgets
mod Memory
pub mod Revocation
mod Tests
use Prim.Native.Nat.{bit_xor}
use sim_platform.Prelude.{
  ℕ, zero, suc, ◌+◌, ◌-◌, ◌*◌, ◌/◌, ◌%◌, ◌^◌, min, max, String, Bool, true, false, ◌||◌, Option,
  none, some, List, [], ◌∷◌, ◌++◌, map, ltb, leb, if◌then◌else◌, number_key, text_key, length, drop,
  contains, add, any, ◌==◌, Result, ok, err,
}
use sim_platform.Prelude.Words.{ℤ, pos, negsuc}
use sim_platform.Core.Records.{
  OpenSymbol, Lifecycle, ready, stopped, RefusalKind, unsupported, denied, budget_exhausted,
  cancelled, provider_fault, ResolutionRefusal,
}

pub record HostFacts : Type 0 where
  pub locale : String
  pub timezone : String
  pub memory_bytes : ℕ
  pub storage_bytes : ℕ
  pub parallelism : ℕ
  pub pressure : ℕ

pub data DesktopOperation : Type 0 where
  open_target share notify : String → DesktopOperation
  clipboard_read : DesktopOperation
  clipboard_write permission_status permission_request : String → DesktopOperation
  keep_awake : Bool → DesktopOperation
  activate : String → DesktopOperation

pub data Permission : Type 0 where
  permission_granted permission_denied permission_revoked : Permission

pub data PortalReply : Type 0 where
  accepted : PortalReply
  portal_text : String → PortalReply
  permission : Permission → PortalReply

pub data PortalError : Type 0 where
  not_supported portal_denied portal_revoked portal_cancelled : PortalError

-- An implementation of the trait `Portal`, and the path type of the standard library.
pub record Host : Type 1 where
  pub PathBuf : Type 0
  pub Portal : Type 0
  pub call : DesktopOperation → Portal → Result PortalError PortalReply × Portal
  pub cancel : ℕ → Portal → Portal
  pub cleanup : Portal → Portal

-- What the clocks say during a request: the nanoseconds since the epoch, unless it lies ahead, the
-- nanoseconds since the activation, and the same after a sleep.
pub record Clock : Type 0 where
  pub wall : Option ℕ
  pub elapsed : ℕ
  pub elapsed_after : ℕ → ℕ

pub record Budget : Type 0 where
  pub requests : ℕ
  pub queue : ℕ
  pub entropy_bytes : ℕ
  pub timer_ns : ℕ

pub data Request : Type 0 where
  wall_clock monotonic_clock : Request
  timer entropy_request : ℕ → Request
  locale_request timezone_request pressure_request limits_request : Request
  mount_request : OpenSymbol → Request
  desktop : DesktopOperation → Request
  lifecycle_request : Request
  cancel_request : ℕ → Request

pub data Reply : Type 0 where
  integer : ℤ → Reply
  bytes : List ℕ → Reply
  text : String → Reply
  limits : (memory_bytes storage_bytes parallelism : ℕ) → Reply
  mounted : OpenSymbol → Reply
  portal_reply : PortalReply → Reply
  lifecycle_reply : Lifecycle → Reply
  cancelled_reply : Reply

abbrev pub refusal : RefusalKind → String → ResolutionRefusal
refusal kind detail = record {
  request = "request/ubuntu-pc";
  service = "service/ubuntu-pc";
  kind = kind;
  detail = detail;
}

-- `u128::cast_signed`
abbrev pub cast_signed : ℕ → ℤ
cast_signed n = if ltb n (2 ^ 127) then pos n else negsuc (2 ^ 128 - 1 - n)

-- One round of the generator: three shifted exclusive ors of a 64-bit word.
unfoldable pub next_seed : ℕ → ℕ
next_seed seed =
    let a = bit_xor seed (seed * 2 ^ 13 % 2 ^ 64) in
    let b = bit_xor a (a / 2 ^ 7) in bit_xor b (b * 2 ^ 17 % 2 ^ 64)

-- `Capsule::entropy`: the bytes, and the seed after them.
unfoldable pub entropy : ℕ → ℕ → List ℕ × ℕ
entropy zero seed = ([], seed)
entropy (suc count) seed =
    let seed' = next_seed seed in let rest = entropy count seed' in (seed' % 256 ∷ rest.0, rest.1)

abbrev pub is_suspended : Lifecycle → Bool
is_suspended Lifecycle.suspended = true
is_suspended _ = false

abbrev pub kind_of_portal : PortalError → RefusalKind
kind_of_portal not_supported = unsupported
kind_of_portal portal_denied = denied
kind_of_portal portal_revoked = denied
kind_of_portal portal_cancelled = cancelled

module _ (host : Host) where
  -- `XdgMounts::new` builds the map in the order of its keys.
  abbrev pub XdgMounts : Type 0
  XdgMounts = List (OpenSymbol × host.PathBuf)

  abbrev pub new_mounts : (config cache data_root state temp : host.PathBuf) → XdgMounts
  new_mounts config cache data_root state temp =
      ("mount/temp", temp)
      ∷ ("mount/xdg-cache", cache)
      ∷ ("mount/xdg-config", config)
      ∷ ("mount/xdg-data", data_root)
      ∷ ("mount/xdg-state", state)
      ∷ []

  abbrev pub names : XdgMounts → List OpenSymbol
  names mounts = map (λ m. m.0) mounts

  abbrev pub has_mount : XdgMounts → OpenSymbol → Bool
  has_mount mounts mount = contains (names mounts) mount

  pub record Capsule : Type 0 where
    pub facts : HostFacts
    pub mounts : XdgMounts
    pub portal : Option host.Portal
    pub budget : Budget
    pub used : ℕ
    pub entropy_used : ℕ
    pub seed : ℕ
    pub lifecycle : Lifecycle
    pub queue : List ℕ
    pub cancelled_tokens : List ℕ

  abbrev pub new : HostFacts → XdgMounts → Option host.Portal → Budget → ℕ → Capsule
  new facts mounts portal budget seed = record {
    facts = facts;
    mounts = mounts;
    portal = portal;
    budget = budget;
    used = 0;
    entropy_used = 0;
    seed = max seed 1;
    lifecycle = ready;
    queue = [];
    cancelled_tokens = [];
  }

  abbrev pub Outcome : Type 0
  Outcome = Result ResolutionRefusal Reply × Capsule

  unfoldable pub suspend : Capsule → Capsule
  suspend self = record self { lifecycle = Lifecycle.suspended }

  unfoldable pub resume : Capsule → Capsule
  resume self = record self { lifecycle = ready }

  unfoldable pub revoke : ℕ → Capsule → Capsule
  revoke token self = record self { cancelled_tokens = add token self.cancelled_tokens }

  abbrev pub wall_reply : Option ℕ → Result ResolutionRefusal Reply
  wall_reply none = err (refusal provider_fault "wall clock before epoch")
  wall_reply (some n) = ok (integer (cast_signed n))

  abbrev pub portal_result : Result PortalError PortalReply → Result ResolutionRefusal Reply
  portal_result (ok reply) = ok (portal_reply reply)
  portal_result (err e) = err (refusal (kind_of_portal e) "portal refused request")

  abbrev pub call_portal : DesktopOperation → Option host.Portal → Capsule → Outcome
  call_portal op none self = (err (refusal unsupported "desktop service is absent"), self)
  call_portal op (some portal) self =
      let (result, portal') = host.call op portal in
      (portal_result result, record self { portal = some portal' })

  abbrev pub cancel_portal : ℕ → Option host.Portal → Option host.Portal
  cancel_portal token none = none
  cancel_portal token (some portal) = some (host.cancel token portal)

  unfoldable pub give_entropy : ℕ → Capsule → Outcome
  give_entropy count self =
      let drawn = entropy count self.seed in
      if leb (min (self.entropy_used + count) (2 ^ 64 - 1)) self.budget.entropy_bytes
      then (
        ok (bytes drawn.0),
        record self { entropy_used = (self.entropy_used + count) % 2 ^ 64; seed = drawn.1 },
      )
      else (err (refusal budget_exhausted "entropy budget exceeded"), self)

  unfoldable pub execute : Clock → Request → Capsule → Outcome
  execute clock wall_clock self = (wall_reply clock.wall, self)
  execute clock monotonic_clock self = (ok (integer (cast_signed clock.elapsed)), self)
  execute clock (timer ns) self =
      if leb ns self.budget.timer_ns
      then (ok (integer (cast_signed (clock.elapsed_after ns))), self)
      else (err (refusal budget_exhausted "timer budget exceeded"), self)
  execute clock (entropy_request count) self = give_entropy count self
  execute clock locale_request self = (ok (text self.facts.locale), self)
  execute clock timezone_request self = (ok (text self.facts.timezone), self)
  execute clock pressure_request self = (ok (integer (pos self.facts.pressure)), self)
  execute clock limits_request self =
      (ok (limits self.facts.memory_bytes self.facts.storage_bytes self.facts.parallelism), self)
  execute clock (mount_request name) self =
      if has_mount self.mounts name
      then (ok (mounted name), self)
      else (err (refusal unsupported "mount was not preopened"), self)
  execute clock (desktop op) self = call_portal op self.portal self
  execute clock lifecycle_request self = (ok (lifecycle_reply self.lifecycle), self)
  execute clock (cancel_request token) self = (
    ok cancelled_reply,
    record self {
      cancelled_tokens = add token self.cancelled_tokens;
      portal = cancel_portal token self.portal;
    },
  )

  -- The request is counted and queued while it is executed.
  abbrev pub begin : ℕ → Capsule → Capsule
  begin token self = record self {
    used = (self.used + 1) % 2 ^ 32;
    queue = self.queue ++ token ∷ [];
  }

  abbrev pub finish : Outcome → Outcome
  finish (result, self) = (result, record self { queue = drop 1 self.queue })

  unfoldable pub apply : Clock → ℕ → Request → Capsule → Outcome
  apply clock token request self =
      if is_suspended self.lifecycle
      then (err (refusal RefusalKind.suspended "activation is suspended"), self)
      else if contains self.cancelled_tokens token
      then (err (refusal cancelled "request is cancelled or revoked"), self)
      else if leb self.budget.requests self.used || leb self.budget.queue (length self.queue)
      then (err (refusal budget_exhausted "activation budget exhausted"), self)
      else finish (execute clock request (begin token self))

  abbrev pub cleanup_portal : Option host.Portal → Option host.Portal
  cleanup_portal none = none
  cleanup_portal (some portal) = some (host.cleanup portal)

  -- `Drop::drop`
  abbrev pub drop_capsule : Capsule → Capsule
  drop_capsule self = record self {
    lifecycle = stopped;
    queue = [];
    portal = cleanup_portal self.portal;
  }
