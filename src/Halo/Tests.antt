-- ===== src/Halo/Tests.antt =====
-- Runs of crates/sim-platform-halo on concrete inputs, and the theorems at them.
use sim_platform.Prelude.{ℕ, zero, suc, true, List, [], ◌∷◌, ◌≡◌, refl, arith, length, ok, err}
use sim_platform.Halo.Types.{
  android, active, button, sensor, stale_session, replay, HaloCapsule, Message, kind_of,
}
use sim_platform.Halo.Codec.{encode_message, decode_fragment}
use sim_platform.Halo.Codec.Laws.{fragment_of}
use sim_platform.Halo.Input.{decode_input}
use sim_platform.Halo.Capsule.{
  new, require_active, complete, extend, assemble, accept, receive_fragment,
}
use sim_platform.Halo.Capsule.Delivery.{receive_all, awaited, delivered, receive_all-encode_message}
use sim_platform.Halo.Capsule.Invariant.{IsValid}
use sim_platform.Halo.Capsule.History.{
  consent, lifecycle, connect_to, receive, take_input, Call, run, run-IsValid,
}
use sim_platform.Halo.Capsule.Effects.{Effect, receive_fragment-Effect}

abbrev live : HaloCapsule
live = record (new android) { lifecycle = active; consent = true; connected = true; session = 7 }

abbrev press : Message
press = record { kind = button; session = 7; sequence = 1; payload = 1 ∷ b'O' ∷ b'K' ∷ [] }

abbrev press_frame : List ℕ
press_frame =
    83 ∷ 72 ∷ 1 ∷ 1 ∷ 0 ∷ 0 ∷ 0 ∷ 7 ∷ 0 ∷ 0 ∷ 0 ∷ 1 ∷ 0 ∷ 3 ∷ 0 ∷ 1 ∷ 0 ∷ 3 ∷ 1 ∷ 79 ∷ 75 ∷ []

encode_press : encode_message press ≡ ok (press_frame ∷ [])
unfolding encode_message
encode_press = refl

decode_press : decode_fragment press_frame ≡ ok (fragment_of press 0)
unfolding decode_fragment kind_of
decode_press = refl

receive_press : (receive_fragment press_frame live).0 ≡ ok true
unfolding receive_fragment require_active decode_fragment kind_of accept assemble extend complete
    decode_input
receive_press = refl

receive_stale : (receive_fragment press_frame (record live { session = 8 })).0 ≡ err stale_session
unfolding receive_fragment require_active decode_fragment kind_of accept
receive_stale = refl

receive_again : (receive_fragment press_frame (record live { seen = 1 ∷ [] })).0 ≡ err replay
unfolding receive_fragment require_active decode_fragment kind_of accept
receive_again = refl

abbrev zeros : ℕ → List ℕ
zeros zero = []
zeros (suc n) = 0 ∷ zeros n

-- Two full fragments and a third of forty bytes, whose payload no input decodes.
abbrev long : Message
long = record { kind = sensor; session = 7; sequence = 2; payload = zeros 400 }

receive_all-encode_message_example :
    (frames : List (List ℕ)) × (more : ℕ) × (encode_message long ≡ ok frames)
    × (length frames ≡ suc more)
    × (receive_all frames live ≡ (awaited more (delivered long live).0, (delivered long live).1))
receive_all-encode_message_example = receive_all-encode_message long live (record {
  wire = record {
    session_fits = omega arith;
    sequence_fits = omega arith;
    payload_fits = omega arith;
  };
  is_active = record { consented = refl; linked = refl; running = refl };
  same_session = refl;
  unseen = refl;
  room = omega arith;
})

abbrev history : List Call
history =
    consent true
    ∷ lifecycle active
    ∷ connect_to 7
    ∷ receive press_frame
    ∷ receive press_frame
    ∷ take_input
    ∷ []

run-IsValid_example : IsValid (run history (new android))
run-IsValid_example = run-IsValid android history

receive_fragment-Effect_example : Effect live (receive_fragment press_frame live)
receive_fragment-Effect_example = receive_fragment-Effect live press_frame
