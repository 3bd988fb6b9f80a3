-- ===== src/Halo/Capsule/History.antt =====
-- What holds of the capsule after any history of calls.
use sim_platform.Prelude.{ℕ, Bool, List, [], ◌∷◌, ◌≡◌, refl, ap, arith, number_key, length}
use sim_platform.Halo.Types.{HostTransport, Lifecycle, GlassesInput, HaloCapsule}
use sim_platform.Halo.Capsule.{
  new, disconnect, set_lifecycle, set_consent, connect, receive_fragment, pop_front, next_input,
}
use sim_platform.Halo.Capsule.Invariant.{
  IsValid, new-IsValid, disconnect-IsValid, set_lifecycle-IsValid, set_consent-IsValid,
  connect-IsValid,
}
use sim_platform.Halo.Capsule.Reception.{receive_fragment-IsValid}

pop_front-IsValid :
    (inputs : List GlassesInput) (self : HaloCapsule)
    → self.pending ≡ inputs
    → IsValid self
    → IsValid (pop_front inputs self).1
pop_front-IsValid [] self e v = v
pop_front-IsValid (input ∷ rest) self e v = record {
  queue = omega (arith, v.queue, ap length e);
  distinct = v.distinct;
  progress = v.progress;
  offline = λ off. let (empty, unseen, idle) = v.offline off in absurd (cc (empty, e));
  consented = v.consented;
  alive = v.alive;
}

-- The calls that change a capsule.
pub data Call : Type 0 where
  lifecycle : Lifecycle → Call
  consent : Bool → Call
  connect_to : ℕ → Call
  hang_up : Call
  receive : List ℕ → Call
  take_input : Call

abbrev pub apply : Call → HaloCapsule → HaloCapsule
apply (lifecycle state) self = set_lifecycle state self
apply (consent granted) self = set_consent granted self
apply (connect_to session) self = (connect session self).1
apply hang_up self = disconnect self
apply (receive bytes) self = (receive_fragment bytes self).1
apply take_input self = (next_input self).1

abbrev pub run : List Call → HaloCapsule → HaloCapsule
run [] self = self
run (call ∷ calls) self = run calls (apply call self)

apply-IsValid : (call : Call) (self : HaloCapsule) → IsValid self → IsValid (apply call self)
unfolding next_input
apply-IsValid (lifecycle state) self v = set_lifecycle-IsValid state self v
apply-IsValid (consent granted) self v = set_consent-IsValid granted self v
apply-IsValid (connect_to session) self v = connect-IsValid session self v
apply-IsValid hang_up self v = disconnect-IsValid self
apply-IsValid (receive bytes) self v = receive_fragment-IsValid bytes self v
apply-IsValid take_input self v = pop_front-IsValid self.pending self refl v

run_from-IsValid :
    (calls : List Call) (self : HaloCapsule) → IsValid self → IsValid (run calls self)
run_from-IsValid [] self v = v
run_from-IsValid (call ∷ calls) self v =
    run_from-IsValid calls (apply call self) (apply-IsValid call self v)

-- After any history of calls on a new capsule, whatever bytes it received: the queue holds at most 32
-- inputs, no sequence number is recorded twice, a reassembly in progress is unfinished, has at most 16
-- fragments and 2048 bytes and belongs to the current session; a connected capsule has consent and is
-- neither suspended nor destroyed, and one that is not connected keeps no input, no sequence number
-- and no reassembly.
pub run-IsValid :
    (transport : HostTransport) (calls : List Call) → IsValid (run calls (new transport))
run-IsValid transport calls = run_from-IsValid calls (new transport) (new-IsValid transport)
