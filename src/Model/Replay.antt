-- ===== src/Model/Replay.antt =====
-- A seeded platform answers as the reference does, after any requests.
use sim_platform.Prelude.{
  ℕ, zero, suc, ◌+◌, ◌-◌, ◌%◌, ◌^◌, ◌≤◌, min, max, true, false, Option, List, [], ◌∷◌, length, ◌≡◌,
  refl, sym, ap, ◌∙◌, subst, arith, leb, if◌then◌else◌, Bool-cases, inl, inr, text_key, Result, ok,
  err, ok_or, ◌>>=◌,
}
use sim_platform.Prelude.Maps.{get}
use sim_platform.Prelude.Words.{pos}
use sim_platform.Core.Records.{
  wall_clock, monotonic_clock, timer, entropy, locale, timezone, lifecycle_pressure, machine_limits,
  unsupported, ResolutionRefusal,
}
use sim_platform.Model.{
  LifecycleStep, ModelConfig, ModelRequest, read_fact, advance_time, entropy_bytes, read_mount,
  read_lifecycle, read_limits, ModelResult, integer, text, bytes_of, lifecycle_of, limits_of,
  ModelState, new, wall_at, next_rng, next_bytes, drop_due, front_state, refusal, hit, injected,
  Outcome, draw, current_lifecycle, execute, counted, serve, reply_to, apply,
}
use sim_platform.Model.Reference.{asked_nanos, asked_bytes, tally, now, stream, answer, expected}

next_bytes-add : (m n rng : ℕ) → (next_bytes (m + n) rng).1 ≡ (next_bytes n (next_bytes m rng).1).1
unfolding next_bytes
next_bytes-add zero n rng =
    let same : 0 + n ≡ n = omega arith in ap (λ (k : ℕ). (next_bytes k rng).1) same
next_bytes-add (suc m) n rng =
    let more : suc m + n ≡ suc (m + n) = omega arith in
    ap (λ (k : ℕ). (next_bytes k rng).1) more ∙ next_bytes-add m n (next_rng rng)

drop_due-drop_due :
    (c t : ℕ) (steps : List LifecycleStep)
    → c ≤ t
    → drop_due t (drop_due c steps) ≡ drop_due t steps
unfolding drop_due
drop_due-drop_due c t [] h = refl
drop_due-drop_due c t (step ∷ steps) h = elim (Bool-cases (leb step.at_mono_ns c)) [
  | inl due ↦
      let still : leb step.at_mono_ns t ≡ true = ground (arith, due) in
      rw (due, still) (drop_due-drop_due c t steps h)
  | inr early ↦ rw early refl
]

-- The state after requests that ask for `elapsed` and `drawn` together.
record Tracks (config : ModelConfig) (elapsed drawn sequence : ℕ) (state : ModelState)
    : Type 0 where
  configured : state.config ≡ config
  clock : state.mono_ns ≡ min elapsed (2 ^ 64 - 1)
  generator : state.rng ≡ (next_bytes drawn (max config.seed 1)).1
  number : state.sequence ≡ sequence
  script :
      (t : ℕ)
      → min elapsed (2 ^ 64 - 1) ≤ t
      → drop_due t state.scripts ≡ drop_due t config.lifecycle

abbrev Serves : ModelConfig → ModelRequest → (elapsed drawn sequence : ℕ) → Outcome → Type 0
Serves config request elapsed drawn sequence (r, state) =
    (r ≡ answer config elapsed drawn sequence request)
    × Tracks config (elapsed + asked_nanos request) (drawn + asked_bytes request) sequence state

module _ (config : ModelConfig) (elapsed drawn sequence : ℕ) (state : ModelState)
    (tracks : Tracks config elapsed drawn sequence state) where
  -- A request that asks for nothing leaves the state.
  unmoved : Tracks config (elapsed + 0) (drawn + 0) sequence state
  unmoved =
      let e : elapsed ≡ elapsed + 0 = omega arith in
      let d : drawn ≡ drawn + 0 = omega arith in
      subst (λ (n : ℕ). Tracks config n (drawn + 0) sequence state) e
        (subst (λ (n : ℕ). Tracks config elapsed n sequence state) d tracks)

  draw-Serves :
      (count : ℕ)
      → ((draw count state).0 ≡ ok (bytes_of (stream config elapsed drawn sequence count)))
        × Tracks config (elapsed + 0) (drawn + count) sequence (draw count state).1
  draw-Serves count = (
    ap (λ rng. ok (bytes_of (next_bytes count rng).0)) tracks.generator,
    record {
      configured = tracks.configured;
      clock = unmoved.clock;
      generator =
          ap (λ rng. (next_bytes count rng).1) tracks.generator
          ∙ sym (next_bytes-add drawn count (max config.seed 1));
      number = tracks.number;
      script = unmoved.script;
    },
  )

  lifecycle-Serves :
      ((current_lifecycle state).0
        ≡ ok (
            lifecycle_of
              (front_state (drop_due (now config elapsed drawn sequence) config.lifecycle))))
      × Tracks config (elapsed + 0) (drawn + 0) sequence (current_lifecycle state).1
  lifecycle-Serves =
      let at_now : drop_due state.mono_ns state.scripts
          ≡ drop_due (min elapsed (2 ^ 64 - 1)) config.lifecycle =
        ap (λ t. drop_due t state.scripts) tracks.clock
        ∙ tracks.script (min elapsed (2 ^ 64 - 1)) (omega arith) in
      (
        ap (λ s. ok (lifecycle_of (front_state s))) at_now,
        record {
          configured = tracks.configured;
          clock = unmoved.clock;
          generator = unmoved.generator;
          number = tracks.number;
          script = λ t h.
              drop_due-drop_due state.mono_ns t state.scripts (omega (arith, tracks.clock))
              ∙ tracks.script t (omega arith);
        },
      )

  advance-Serves :
      (nanos : ℕ)
      → Serves config
          (advance_time nanos)
          elapsed
          drawn
          sequence
          (execute (advance_time nanos) state)
  unfolding execute
  advance-Serves nanos =
      let later : min (state.mono_ns + nanos) (2 ^ 64 - 1) ≡ min (elapsed + nanos) (2 ^ 64 - 1) =
        omega (arith, tracks.clock) in
      (
        ap (λ t. ok (integer (pos t))) later,
        record {
          configured = tracks.configured;
          clock = later;
          generator = unmoved.generator;
          number = tracks.number;
          script = λ t h. tracks.script t (omega arith);
        },
      )

  execute-Serves :
      (request : ModelRequest)
      → Serves config request elapsed drawn sequence (execute request state)
  unfolding execute
  execute-Serves (read_fact wall_clock) = (
    ap (λ (c : ModelConfig). ok (integer (wall_at c.wall_epoch_ns state.mono_ns))) tracks.configured
        ∙ ap (λ t. ok (integer (wall_at config.wall_epoch_ns t))) tracks.clock,
    unmoved,
  )
  execute-Serves (read_fact monotonic_clock) =
      (ap (λ t. ok (integer (pos t))) tracks.clock, unmoved)
  execute-Serves (read_fact timer) = (ap (λ t. ok (integer (pos t))) tracks.clock, unmoved)
  execute-Serves (read_fact entropy) = draw-Serves 8
  execute-Serves (read_fact locale) =
      (ap (λ (c : ModelConfig). ok (text c.locale)) tracks.configured, unmoved)
  execute-Serves (read_fact timezone) =
      (ap (λ (c : ModelConfig). ok (text c.timezone)) tracks.configured, unmoved)
  execute-Serves (read_fact lifecycle_pressure) = lifecycle-Serves
  execute-Serves (read_fact machine_limits) =
      (ap (λ (c : ModelConfig). ok (limits_of c.limits)) tracks.configured, unmoved)
  execute-Serves (advance_time nanos) = advance-Serves nanos
  execute-Serves (entropy_bytes count) = draw-Serves count
  execute-Serves (read_mount mount) = (
    ap (λ (c : ModelConfig). mounted (get mount c.mounts) state.sequence) tracks.configured
        ∙ ap (mounted (get mount config.mounts)) tracks.number,
    unmoved,
  )
    where
      mounted : Option (List ℕ) → ℕ → Result ResolutionRefusal ModelResult
      mounted found n = ok_or found (refusal n unsupported mount "mount is unbound") >>= λ bytes.
          ok (bytes_of bytes)
  execute-Serves read_lifecycle = lifecycle-Serves
  execute-Serves read_limits =
      (ap (λ (c : ModelConfig). ok (limits_of c.limits)) tracks.configured, unmoved)

module _ (config : ModelConfig) (elapsed drawn sequence : ℕ) (state : ModelState)
    (tracks : Tracks config elapsed drawn sequence state) where
  abbrev next_number : ℕ
  next_number = (sequence + 1) % 2 ^ 64

  counted-Tracks : Tracks config elapsed drawn next_number (counted state)
  counted-Tracks = record {
    configured = tracks.configured;
    clock = tracks.clock;
    generator = tracks.generator;
    number = ap (λ n. (n + 1) % 2 ^ 64) tracks.number;
    script = tracks.script;
  }

  -- What a request is answered, and what it leaves.
  serve-expected :
      (request : ModelRequest)
      → ((serve request state).0 ≡ expected config elapsed drawn next_number request)
        × Tracks config
            (elapsed + (if hit config.fault request then 0 else asked_nanos request))
            (drawn + (if hit config.fault request then 0 else asked_bytes request))
            next_number
            (serve request state).1
  unfolding serve
  serve-expected request =
      let same : hit state.config.fault request ≡ hit config.fault request =
        ap (λ (c : ModelConfig). hit c.fault request) tracks.configured in
      elim (Bool-cases (hit config.fault request)) [
        | inl faulted ↦
            let there : hit state.config.fault request ≡ true = same ∙ faulted in
            rw (faulted, there)
              (
                ap (λ c. err (injected c)) tracks.configured,
                unmoved config elapsed drawn next_number (counted state) counted-Tracks,
              )
        | inr served ↦
            let there : hit state.config.fault request ≡ false = same ∙ served in
            rw (served, there)
              (execute-Serves config elapsed drawn next_number (counted state) counted-Tracks
                request)
      ]

unfoldable pub run : List ModelRequest → ModelState → ModelState
run [] state = state
run (request ∷ requests) state = run requests (serve request state).1

abbrev pub number_after : ℕ → List ModelRequest → ℕ
number_after sequence [] = sequence
number_after sequence (request ∷ requests) = number_after ((sequence + 1) % 2 ^ 64) requests

run-Tracks :
    (config : ModelConfig) (requests : List ModelRequest) (elapsed drawn sequence : ℕ)
    (state : ModelState)
    → Tracks config elapsed drawn sequence state
    → Tracks config
        (elapsed + tally config asked_nanos requests)
        (drawn + tally config asked_bytes requests)
        (number_after sequence requests)
        (run requests state)
unfolding run
run-Tracks config [] elapsed drawn sequence state tracks =
    unmoved config elapsed drawn sequence state tracks
run-Tracks config (request ∷ requests) elapsed drawn sequence state tracks =
    let nanos : ℕ = if hit config.fault request then 0 else asked_nanos request in
    let bytes : ℕ = if hit config.fault request then 0 else asked_bytes request in
    let rest =
      run-Tracks config requests (elapsed + nanos) (drawn + bytes) ((sequence + 1) % 2 ^ 64)
        (serve request state).1
        (serve-expected config elapsed drawn sequence state tracks request).1 in
    let e : elapsed + nanos + tally config asked_nanos requests
        ≡ elapsed + tally config asked_nanos (request ∷ requests) =
      omega arith in
    let d : drawn + bytes + tally config asked_bytes requests
        ≡ drawn + tally config asked_bytes (request ∷ requests) =
      omega arith in
    subst
      (λ (n : ℕ).
        Tracks config n (drawn + tally config asked_bytes (request ∷ requests))
          (number_after sequence (request ∷ requests)) (run requests (serve request state).1))
      e
      (subst
        (λ (n : ℕ).
          Tracks config (elapsed + nanos + tally config asked_nanos requests) n
            (number_after sequence (request ∷ requests)) (run requests (serve request state).1))
        d rest)

number_after-length :
    (sequence : ℕ) (requests : List ModelRequest)
    → sequence ≡ sequence % 2 ^ 64
    → number_after sequence requests ≡ (sequence + length requests) % 2 ^ 64
number_after-length sequence [] h = omega arith
number_after-length sequence (request ∷ requests) h =
    number_after-length ((sequence + 1) % 2 ^ 64) requests (omega arith) ∙ omega arith

new-Tracks : (config : ModelConfig) → Tracks config 0 0 0 (new config)
unfolding new next_bytes
new-Tracks config = record {
  configured = refl;
  clock = omega arith;
  generator = refl;
  number = refl;
  script = λ t h. refl;
}

-- The seeded platform is a function of its configuration and of what it was asked: after any requests to
-- a new platform, the reply to a request, refusals and the panics of serialization included, is the one
-- that the reference gives for the nanoseconds and the random bytes that the requests before it asked for
-- together where the fault did not hit them, with the number of requests modulo 2 ^ 64. In particular
-- reads do not show, the random bytes are consecutive parts of one stream, and each lifecycle read
-- answers from the whole script.
pub apply-expected :
    (request_to_vec : ModelRequest → Option (List ℕ))
    (result_to_vec : ModelResult → Option (List ℕ)) (config : ModelConfig)
    (requests : List ModelRequest) (request : ModelRequest)
    → (apply request_to_vec result_to_vec request (run requests (new config))).0
      ≡ reply_to request_to_vec result_to_vec request ((length requests + 1) % 2 ^ 64) (
          expected config
            (tally config asked_nanos requests)
            (tally config asked_bytes requests)
            ((length requests + 1) % 2 ^ 64)
            request)
unfolding apply
apply-expected request_to_vec result_to_vec config requests request =
    let n : ℕ = number_after 0 requests in
    let tracks = run-Tracks config requests 0 0 0 (new config) (new-Tracks config) in
    let (same, after) =
      serve-expected config (0 + tally config asked_nanos requests)
        (0 + tally config asked_bytes requests) n (run requests (new config)) tracks request in
    let counts : (number_after 0 requests + 1) % 2 ^ 64 ≡ (length requests + 1) % 2 ^ 64 =
      omega (arith, number_after-length 0 requests (omega arith)) in
    let e : 0 + tally config asked_nanos requests ≡ tally config asked_nanos requests =
      omega arith in
    let d : 0 + tally config asked_bytes requests ≡ tally config asked_bytes requests =
      omega arith in
    ap
      (reply_to request_to_vec result_to_vec request
        (serve request (run requests (new config))).1.sequence)
      same
    ∙ ap
        (λ k. reply_to request_to_vec result_to_vec request k (
          expected config (0 + tally config asked_nanos requests)
            (0 + tally config asked_bytes requests) ((n + 1) % 2 ^ 64) request))
        after.number
    ∙ ap
        (λ k. reply_to request_to_vec result_to_vec request k (
          expected config (0 + tally config asked_nanos requests)
            (0 + tally config asked_bytes requests) k request))
        counts
    ∙ ap
        (λ t. reply_to request_to_vec result_to_vec request ((length requests + 1) % 2 ^ 64) (
          expected config t (0 + tally config asked_bytes requests) ((length requests + 1) % 2 ^ 64)
            request))
        e
    ∙ ap
        (λ b. reply_to request_to_vec result_to_vec request ((length requests + 1) % 2 ^ 64) (
          expected config (tally config asked_nanos requests) b ((length requests + 1) % 2 ^ 64)
            request))
        d
