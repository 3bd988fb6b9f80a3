-- ===== src/Linux/Tests.antt =====
-- Runs of crates/sim-platform-linux on concrete requests, with a portal that counts its calls, and the
-- theorems at them.
use sim_platform.Prelude.{
  ℕ, ◌+◌, ◌≤◌, some, List, [], ◌∷◌, ◌≡◌, refl, arith, if◌then◌else◌, ok, err,
}
use sim_platform.Prelude.Words.{pos}
use sim_platform.Core.Records.{RefusalKind, cancelled}
use sim_platform.Linux.{
  HostFacts, Host, accepted, Clock, Budget, wall_clock, entropy_request, cancel_request, desktop,
  share, integer, bytes, XdgMounts, new_mounts, Capsule, new, is_suspended, refusal, next_seed,
  entropy, give_entropy, execute, revoke, apply,
}
use sim_platform.Linux.Revocation.{
  Call, applying, suspending, resuming, revoking, run, Account, activation, run-new, apply-revoke,
}

abbrev host : Host
host = record {
  PathBuf = ℕ;
  Portal = ℕ;
  call = λ op calls. (ok accepted, calls + 1);
  cancel = λ token calls. calls;
  cleanup = λ calls. 0;
}

abbrev facts : HostFacts
facts = record {
  locale = "en";
  timezone = "UTC";
  memory_bytes = 1024;
  storage_bytes = 2048;
  parallelism = 2;
  pressure = 0;
}

abbrev mounts : XdgMounts host
mounts = new_mounts host 1 2 3 4 5

abbrev budget : Budget
budget = record { requests = 4; queue = 1; entropy_bytes = 8; timer_ns = 0 }

abbrev clock : Clock
clock = record { wall = some 77; elapsed = 5; elapsed_after = λ ns. 5 + ns }

abbrev fresh : Capsule host
fresh = new host facts mounts (some 0) budget 0

apply_wall : (apply host clock 1 wall_clock fresh).0 ≡ ok (integer (pos 77))
unfolding apply execute
apply_wall = refl

apply_two_bytes : (apply host clock 1 (entropy_request 2) fresh).0 ≡ ok (bytes (65 ∷ 65 ∷ []))
unfolding apply execute give_entropy entropy next_seed
apply_two_bytes = refl

abbrev calls : List (Call host)
calls =
    applying clock 1 (entropy_request 6)
    ∷ applying clock 2 (entropy_request 6)
    ∷ revoking 3
    ∷ applying clock 3 wall_clock
    ∷ suspending
    ∷ applying clock 4 wall_clock
    ∷ resuming
    ∷ applying clock 5 (cancel_request 6)
    ∷ applying clock 6 (desktop (share "x"))
    ∷ []

run-new_example :
    ((run host calls (activation host facts mounts (some 0) budget 9)).0.entropy_bytes ≤ 8)
    × ((run host calls (activation host facts mounts (some 0) budget 9)).0.replies ≤ 4)
    × Account host
        (activation host facts mounts (some 0) budget 9)
        (run host calls (activation host facts mounts (some 0) budget 9)).0
        (run host calls (activation host facts mounts (some 0) budget 9)).1
run-new_example = run-new host facts mounts (some 0) budget 9 calls (omega arith) (omega arith)

apply-revoke_example :
    let later = (run host calls (revoke host 7 fresh)).1 in
    apply host clock 7 wall_clock later ≡ (
      err (
          if is_suspended later.lifecycle
          then refusal RefusalKind.suspended "activation is suspended"
          else refusal cancelled "request is cancelled or revoked"),
      later,
    )
apply-revoke_example = apply-revoke host fresh 7 calls clock wall_clock
