-- ===== src/Amazfit/Tests.antt =====
-- Runs of crates/sim-platform-amazfit on concrete inputs, and the theorems at them. The frames here are
-- three bytes: a session, a sequence number and a sensor value.
use sim_platform.Prelude.{ℕ, true, Option, none, some, List, [], ◌∷◌, ◌≡◌, refl, ok, err}
use sim_platform.Prelude.Words.{pos}
use sim_platform.Amazfit.{
  active, suspended, sensor, WatchEvent, HostCommand, Envelope, stale_session, AmazfitCapsule,
  default, require_link, read_frame, admit, validate_event, enqueue, receive, short,
}
use sim_platform.Amazfit.Invariant.{IsValid}
use sim_platform.Amazfit.Effects.{Effect, receive-Effect}
use sim_platform.Amazfit.History.{
  Call, lifecycle, consent, connect_to, receive_frame, take_event, run, run-default,
}

abbrev from_slice : List ℕ → Option (Envelope WatchEvent)
from_slice (session ∷ sequence ∷ value ∷ []) = some (record {
  version = 1;
  session = session;
  sequence = sequence;
  payload = sensor "steps" (pos value) 0;
})
from_slice _ = none

abbrev to_vec : Envelope HostCommand → Option (List ℕ)
to_vec command = some (command.session ∷ command.sequence ∷ [])

abbrev linked : AmazfitCapsule
linked = record default { lifecycle = active; consent = true; connected = true; session = 7 }

receive_fresh : receive from_slice (7 ∷ 1 ∷ 9 ∷ []) linked ≡ (
  ok true,
  record linked {
    seen = 1 ∷ [];
    pending =
        record { version = 1; session = 7; sequence = 1; payload = sensor "steps" (pos 9) 0 } ∷ [];
  },
)
unfolding receive read_frame require_link admit validate_event short enqueue
receive_fresh = refl

receive_stale : (receive from_slice (6 ∷ 1 ∷ 9 ∷ []) linked).0 ≡ err stale_session
unfolding receive read_frame require_link admit validate_event short enqueue
receive_stale = refl

receive-Effect_watch_example :
    Effect from_slice (7 ∷ 1 ∷ 9 ∷ []) linked (receive from_slice (7 ∷ 1 ∷ 9 ∷ []) linked)
receive-Effect_watch_example = receive-Effect from_slice (7 ∷ 1 ∷ 9 ∷ []) linked

abbrev history : List Call
history =
    consent true
    ∷ lifecycle active
    ∷ connect_to 7
    ∷ receive_frame (7 ∷ 1 ∷ 9 ∷ [])
    ∷ receive_frame (7 ∷ 1 ∷ 9 ∷ [])
    ∷ take_event
    ∷ lifecycle suspended
    ∷ []

run-default_example : IsValid (run from_slice history default)
run-default_example = run-default from_slice history
