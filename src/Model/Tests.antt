-- ===== src/Model/Tests.antt =====
-- The seeded platform at concrete inputs.
use sim_platform.Prelude.{
  ℕ, ◌+◌, ◌%◌, ◌^◌, Option, none, some, List, [], ◌∷◌, length, ◌≡◌, refl, ok,
}
use sim_platform.Prelude.Words.{pos}
use sim_platform.Core.Records.{monotonic_clock, entropy, pressured, suspended}
use sim_platform.Model.{
  ModelConfig, ModelRequest, read_fact, advance_time, entropy_bytes, read_lifecycle, ModelResult,
  lifecycle_of, integer, new, next_rng, next_bytes, drop_due, execute, serve, reply_to, apply,
}
use sim_platform.Model.Reference.{asked_nanos, asked_bytes, tally, expected}
use sim_platform.Model.Replay.{run, apply-expected}

abbrev config : ModelConfig
config = record {
  seed = 7;
  wall_epoch_ns = pos 1000;
  locale = "sv-SE";
  timezone = "Europe/Stockholm";
  limits = record { memory_bytes = 1024; storage_bytes = 2048; parallelism = 2 };
  lifecycle =
      record { at_mono_ns = 10; state = pressured }
      ∷ record { at_mono_ns = 30; state = suspended }
      ∷ [];
  mounts = ("mount/a", 1 ∷ 2 ∷ []) ∷ [];
  fault = none;
}

abbrev requests : List ModelRequest
requests =
    read_lifecycle ∷ entropy_bytes 3 ∷ advance_time 12 ∷ read_fact entropy ∷ read_lifecycle ∷ []

suspended_next : (serve read_lifecycle (run requests (new config))).0 ≡ ok (lifecycle_of suspended)
unfolding run serve execute new next_bytes next_rng drop_due
suspended_next = refl

clock_after :
    (serve (read_fact monotonic_clock) (run requests (new config))).0 ≡ ok (integer (pos 12))
unfolding run serve execute new next_bytes next_rng drop_due
clock_after = refl

abbrev request_bytes : ModelRequest → Option (List ℕ)
request_bytes request = some (1 ∷ [])

abbrev result_bytes : ModelResult → Option (List ℕ)
result_bytes result = some (2 ∷ [])

apply-expected_example :
    (apply request_bytes result_bytes (read_fact entropy) (run requests (new config))).0
    ≡ reply_to request_bytes result_bytes (read_fact entropy) ((length requests + 1) % 2 ^ 64) (
        expected config
          (tally config asked_nanos requests)
          (tally config asked_bytes requests)
          ((length requests + 1) % 2 ^ 64)
          (read_fact entropy))
apply-expected_example =
    apply-expected request_bytes result_bytes config requests (read_fact entropy)
