-- ===== src/Model/Reference.antt =====
-- The answers of a seeded platform as a function of its configuration and of what was asked of it.
use sim_platform.Prelude.{
  ℕ, ◌+◌, ◌-◌, ◌^◌, min, max, List, [], ◌∷◌, if◌then◌else◌, text_key, Result, ok, err, ok_or, ◌>>=◌,
}
use sim_platform.Prelude.Maps.{get}
use sim_platform.Prelude.Words.{pos}
use sim_platform.Core.Records.{
  FactPort, wall_clock, monotonic_clock, timer, entropy, locale, timezone, lifecycle_pressure,
  machine_limits, unsupported, ResolutionRefusal,
}
use sim_platform.Model.{
  ModelConfig, ModelRequest, read_fact, advance_time, entropy_bytes, read_mount, read_lifecycle,
  read_limits, ModelResult, integer, text, bytes_of, lifecycle_of, limits_of, wall_at, next_bytes,
  drop_due, front_state, refusal, hit, injected,
}

-- What the requests that are not hit by the fault have asked for: time to pass, and random bytes.
abbrev pub asked_nanos : ModelRequest → ℕ
asked_nanos (advance_time nanos) = nanos
asked_nanos _ = 0

abbrev pub asked_bytes : ModelRequest → ℕ
asked_bytes (entropy_bytes count) = count
asked_bytes (read_fact entropy) = 8
asked_bytes _ = 0

abbrev pub tally : ModelConfig → (ModelRequest → ℕ) → List ModelRequest → ℕ
tally config asked [] = 0
tally config asked (request ∷ requests) =
    (if hit config.fault request then 0 else asked request) + tally config asked requests

-- The reference: the answer to a request by a platform on which `elapsed` nanoseconds have passed and
-- `drawn` random bytes are used, as its `sequence`-th one.
module _ (config : ModelConfig) (elapsed drawn sequence : ℕ) where
  abbrev pub now : ℕ
  now = min elapsed (2 ^ 64 - 1)

  abbrev pub stream : ℕ → List ℕ
  stream count = (next_bytes count (next_bytes drawn (max config.seed 1)).1).0

  abbrev pub fact : FactPort → ModelResult
  fact wall_clock = integer (wall_at config.wall_epoch_ns now)
  fact monotonic_clock = integer (pos now)
  fact timer = integer (pos now)
  fact entropy = bytes_of (stream 8)
  fact locale = text config.locale
  fact timezone = text config.timezone
  fact lifecycle_pressure = lifecycle_of (front_state (drop_due now config.lifecycle))
  fact machine_limits = limits_of config.limits

  abbrev pub answer : ModelRequest → Result ResolutionRefusal ModelResult
  answer (read_fact port) = ok (fact port)
  answer (advance_time nanos) = ok (integer (pos (min (elapsed + nanos) (2 ^ 64 - 1))))
  answer (entropy_bytes count) = ok (bytes_of (stream count))
  answer (read_mount mount) =
      ok_or (get mount config.mounts) (refusal sequence unsupported mount "mount is unbound")
      >>= λ bytes. ok (bytes_of bytes)
  answer read_lifecycle = ok (fact lifecycle_pressure)
  answer read_limits = ok (limits_of config.limits)

  abbrev pub expected : ModelRequest → Result ResolutionRefusal ModelResult
  expected request = if hit config.fault request then err (injected config) else answer request
