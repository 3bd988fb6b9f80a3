-- ===== src/Model.antt =====
-- crates/sim-platform-model/src/model.rs: `SeededPlatform`. The state that its clones share is passed on:
-- a request returns its reply and the state after it.
mod Reference
mod Replay
mod Tests
use Prim.Native.Nat.{bit_xor}
use Prim.Native.String
use sim_platform.Prelude.{
  ℕ, zero, suc, ◌+◌, ◌-◌, ◌*◌, ◌/◌, ◌%◌, ◌^◌, min, max, String, Bool, true, false, Option, none,
  some, List, [], ◌∷◌, ltb, leb, if◌then◌else◌, text_key, Result, ok, err, ok_or, ◌>>=◌,
}
use sim_platform.Prelude.Maps.{get}
use sim_platform.Prelude.Words.{ℤ, pos, negsuc}
use sim_platform.Core.Digest.{hex16, stable_digest}
use sim_platform.Core.Records.{
  OpenSymbol, FactPort, wall_clock, monotonic_clock, timer, entropy, locale, timezone,
  lifecycle_pressure, machine_limits, Lifecycle, ready, RefusalKind, unsupported, provider_fault,
  ResolutionRefusal, ResolutionReceipt, ExecutionEvidence,
}

pub record MachineLimits : Type 0 where
  pub memory_bytes : ℕ
  pub storage_bytes : ℕ
  pub parallelism : ℕ

pub record LifecycleStep : Type 0 where
  pub at_mono_ns : ℕ
  pub state : Lifecycle

pub data InjectedFault : Type 0 where
  unsupported_fault insufficient_evidence timer_fault entropy_fault mount_fault lifecycle_fault
        limits_fault :
      InjectedFault

pub record ModelConfig : Type 0 where
  pub seed : ℕ
  pub wall_epoch_ns : ℤ
  pub locale : String
  pub timezone : String
  pub limits : MachineLimits
  pub lifecycle : List LifecycleStep
  pub mounts : List (OpenSymbol × List ℕ)
  pub fault : Option InjectedFault

pub data ModelRequest : Type 0 where
  read_fact : FactPort → ModelRequest
  advance_time : (nanos : ℕ) → ModelRequest
  entropy_bytes : (bytes : ℕ) → ModelRequest
  read_mount : (mount : OpenSymbol) → ModelRequest
  read_lifecycle : ModelRequest
  read_limits : ModelRequest

pub data ModelResult : Type 0 where
  integer : ℤ → ModelResult
  text : String → ModelResult
  bytes_of : List ℕ → ModelResult
  lifecycle_of : Lifecycle → ModelResult
  limits_of : MachineLimits → ModelResult

pub record ModelReply : Type 0 where
  pub result : ModelResult
  pub receipt : ResolutionReceipt
  pub evidence : ExecutionEvidence

pub record ModelState : Type 0 where
  pub config : ModelConfig
  pub mono_ns : ℕ
  pub rng : ℕ
  pub sequence : ℕ
  pub scripts : List LifecycleStep

unfoldable pub new : ModelConfig → ModelState
new config = record {
  config = config;
  mono_ns = 0;
  rng = max config.seed 1;
  sequence = 0;
  scripts = config.lifecycle;
}

-- `wall_epoch_ns + i128::from(mono_ns)`, which wraps past the largest `i128`.
abbrev pub wrap_i128 : ℕ → ℤ
wrap_i128 n = if ltb n (2 ^ 127) then pos n else negsuc (2 ^ 128 - 1 - n)

unfoldable pub wall_at : ℤ → ℕ → ℤ
wall_at (pos epoch) now = wrap_i128 (epoch + now)
wall_at (negsuc epoch) now = if ltb epoch now then pos (now - epoch - 1) else negsuc (epoch - now)

-- One round of the generator, and `next_bytes` with the generator after it.
unfoldable pub next_rng : ℕ → ℕ
next_rng rng =
    let a = bit_xor rng (rng * 2 ^ 13 % 2 ^ 64) in
    let b = bit_xor a (a / 2 ^ 7) in bit_xor b (b * 2 ^ 17 % 2 ^ 64)

unfoldable pub next_bytes : ℕ → ℕ → List ℕ × ℕ
next_bytes zero rng = ([], rng)
next_bytes (suc count) rng =
    let rng' = next_rng rng in let rest = next_bytes count rng' in (rng' % 256 ∷ rest.0, rest.1)

-- The loop of `current_lifecycle`: the steps that are due are taken off the front.
unfoldable pub drop_due : ℕ → List LifecycleStep → List LifecycleStep
drop_due now [] = []
drop_due now (step ∷ steps) =
    let rest = drop_due now steps in if leb step.at_mono_ns now then rest else step ∷ steps

abbrev pub front_state : List LifecycleStep → Lifecycle
front_state [] = ready
front_state (step ∷ steps) = step.state

unfoldable pub refusal : ℕ → RefusalKind → OpenSymbol → String → ResolutionRefusal
unfolding hex16
refusal seq kind service detail = record {
  request = String.◌++◌ "request/model/" (hex16 seq);
  service = service;
  kind = kind;
  detail = detail;
}

-- Whether the configured fault hits a request.
abbrev pub hits : InjectedFault → ModelRequest → Bool
hits unsupported_fault request = true
hits insufficient_evidence request = true
hits timer_fault (advance_time nanos) = true
hits timer_fault (read_fact timer) = true
hits timer_fault _ = false
hits entropy_fault (entropy_bytes bytes) = true
hits entropy_fault (read_fact entropy) = true
hits entropy_fault _ = false
hits mount_fault (read_mount mount) = true
hits mount_fault _ = false
hits lifecycle_fault read_lifecycle = true
hits lifecycle_fault (read_fact lifecycle_pressure) = true
hits lifecycle_fault _ = false
hits limits_fault read_limits = true
hits limits_fault (read_fact machine_limits) = true
hits limits_fault _ = false

abbrev pub hit : Option InjectedFault → ModelRequest → Bool
hit none request = false
hit (some fault) request = hits fault request

abbrev pub injected_kind : Option InjectedFault → RefusalKind
injected_kind (some unsupported_fault) = unsupported
injected_kind (some insufficient_evidence) = unsupported
injected_kind _ = provider_fault

unfoldable pub injected : ModelConfig → ResolutionRefusal
injected config =
    refusal 0 (injected_kind config.fault) "service/injected" "deterministic injected refusal"

abbrev pub Outcome : Type 0
Outcome = Result ResolutionRefusal ModelResult × ModelState

abbrev pub draw : ℕ → ModelState → Outcome
draw count state =
    let drawn = next_bytes count state.rng in
    (ok (bytes_of drawn.0), record state { rng = drawn.1 })

abbrev pub current_lifecycle : ModelState → Outcome
current_lifecycle state =
    let scripts = drop_due state.mono_ns state.scripts in
    (ok (lifecycle_of (front_state scripts)), record state { scripts = scripts })

unfoldable pub execute : ModelRequest → ModelState → Outcome
execute (read_fact wall_clock) state =
    (ok (integer (wall_at state.config.wall_epoch_ns state.mono_ns)), state)
execute (read_fact monotonic_clock) state = (ok (integer (pos state.mono_ns)), state)
execute (read_fact timer) state = (ok (integer (pos state.mono_ns)), state)
execute (read_fact entropy) state = draw 8 state
execute (read_fact locale) state = (ok (text state.config.locale), state)
execute (read_fact timezone) state = (ok (text state.config.timezone), state)
execute (read_fact lifecycle_pressure) state = current_lifecycle state
execute (read_fact machine_limits) state = (ok (limits_of state.config.limits), state)
execute (advance_time nanos) state =
    let now = min (state.mono_ns + nanos) (2 ^ 64 - 1) in
    (ok (integer (pos now)), record state { mono_ns = now })
execute (entropy_bytes count) state = draw count state
execute (read_mount mount) state = (
  ok_or (get mount state.config.mounts)
        (refusal state.sequence unsupported mount "mount is unbound")
      >>= (λ bytes. ok (bytes_of bytes)),
  state,
)
execute read_lifecycle state = current_lifecycle state
execute read_limits state = (ok (limits_of state.config.limits), state)

abbrev pub counted : ModelState → ModelState
counted state = record state { sequence = (state.sequence + 1) % 2 ^ 64 }

-- The result of a request, with the state after it.
unfoldable pub serve : ModelRequest → ModelState → Outcome
serve request state =
    if hit state.config.fault request
    then (err (injected state.config), counted state)
    else execute request (counted state)

-- A refusal, or the panic of `expect` where `serde_json` does not serialize.
pub data Failure : Type 0 where
  refused : ResolutionRefusal → Failure
  panicked : Failure

module _ (request_to_vec : ModelRequest → Option (List ℕ))
    (result_to_vec : ModelResult → Option (List ℕ)) where
  unfoldable pub reply_with : ℕ → ModelResult → String → String → ModelReply
  unfolding hex16
  reply_with sequence result request_digest result_digest = record {
    result = result;
    receipt = record {
      id = String.◌++◌ "receipt/model/" (hex16 sequence);
      request = String.◌++◌ "request/" request_digest;
      site = "platform/site/model";
      bindings = [];
      card_digest = "fnv1a64:model";
    };
    evidence = record {
      execution = String.◌++◌ "execution/model/" (hex16 sequence);
      activation = "activation/model";
      request_digest = request_digest;
      result_digest = result_digest;
      ledger_ref = String.◌++◌ "ledger/model/" (hex16 sequence);
    };
  }

  abbrev pub reply_to :
      ModelRequest → ℕ → Result ResolutionRefusal ModelResult → Result Failure ModelReply
  reply_to request sequence (err r) = err (refused r)
  reply_to request sequence (ok result) = do
    request_bytes ← ok_or (request_to_vec request) panicked
    result_bytes ← ok_or (result_to_vec result) panicked
    ok (reply_with sequence result (stable_digest request_bytes) (stable_digest result_bytes))

  unfoldable pub apply : ModelRequest → ModelState → Result Failure ModelReply × ModelState
  apply request state = let o = serve request state in (reply_to request o.1.sequence o.0, o.1)
