-- ===== src/Halo/Capsule.antt =====
-- The operations of `HaloCapsule` of crates/sim-platform-halo/src/halo.rs. A method returns its
-- result and the capsule after it, also beside an error.
pub mod Delivery
pub mod Invariant
pub mod Reception
pub mod History
pub mod Effects
use sim_platform.Prelude.{
  ℕ, ◌+◌, ◌%◌, ◌^◌, Bool, true, false, not, ◌&&◌, ◌||◌, Option, none, some, List, [], ◌∷◌, ◌++◌,
  ltb, eqb, if◌then◌else◌, ◌==◌, number_key, length, contains, add, Result, ok, err, ◌>>=◌, ◌>>◌,
}
use sim_platform.Halo.Types.{
  max_message_bytes, max_pending_events, HostTransport, Lifecycle, created, active, suspended,
  destroyed, MessageKind, ProxyError, malformed, oversized, stale_session, replay, inactive,
  consent_required, queue_full, fragment_order, same_kind, GlassesInput, SurfaceCommand, Message,
  Assembly, Fragment, HaloCapsule,
}
use sim_platform.Halo.Codec.{encode_message, decode_fragment}
use sim_platform.Halo.Input.{decode_input, encode_surface_payload}

-- `HaloCapsule::new`
abbrev pub new : HostTransport → HaloCapsule
new transport = record {
  transport = transport;
  lifecycle = created;
  consent = false;
  connected = false;
  session = 0;
  seen = [];
  assembly = none;
  pending = [];
}

abbrev pub is_active : Lifecycle → Bool
is_active active = true
is_active _ = false

-- `matches!(state, Suspended | Destroyed)`
abbrev pub ends_link : Lifecycle → Bool
ends_link suspended = true
ends_link destroyed = true
ends_link _ = false

unfoldable pub disconnect : HaloCapsule → HaloCapsule
disconnect self = record self { connected = false; seen = []; assembly = none; pending = [] }

-- `HaloCapsule::lifecycle`
unfoldable pub set_lifecycle : Lifecycle → HaloCapsule → HaloCapsule
unfolding disconnect
set_lifecycle state self =
    let self' = record self { lifecycle = state } in
    if ends_link state then disconnect self' else self'

unfoldable pub set_consent : Bool → HaloCapsule → HaloCapsule
unfolding disconnect
set_consent granted self =
    let self' = record self { consent = granted } in if granted then self' else disconnect self'

unfoldable pub connect : ℕ → HaloCapsule → Result ProxyError (Unit {0}) × HaloCapsule
connect session self =
    if not self.consent
    then (err consent_required, self)
    else if not (is_active self.lifecycle)
    then (err inactive, self)
    else (
      ok tt,
      record self { connected = true; session = session; seen = []; assembly = none; pending = [] },
    )

unfoldable pub require_active : HaloCapsule → Result ProxyError (Unit {0})
require_active self =
    if not self.consent
    then err consent_required
    else if not self.connected || not (is_active self.lifecycle)
    then err inactive
    else ok tt

abbrev pub Outcome : Type 0
Outcome = Result ProxyError Bool × HaloCapsule

-- The end of `receive_fragment`: what `decode_input` made of the message goes to the queue.
abbrev pub enqueue : ℕ → Result ProxyError GlassesInput → HaloCapsule → Outcome
enqueue sequence (err e) self = (err e, self)
enqueue sequence (ok input) self =
    (ok true, record self { seen = add sequence self.seen; pending = self.pending ++ input ∷ [] })

-- A complete message, after `self.assembly.take()`.
unfoldable pub complete : Assembly → HaloCapsule → Outcome
complete message self =
    if not (eqb (length message.payload) message.total)
    then (err malformed, self)
    else if eqb (length self.pending) max_pending_events
    then (err queue_full, self)
    else enqueue message.sequence (decode_input message.kind message.payload) self

-- A fragment that fits the assembly, whose payload is appended.
unfoldable pub extend : Assembly → Fragment → HaloCapsule → Outcome
extend assembly fragment self =
    let grown = record assembly {
      payload = assembly.payload ++ fragment.payload;
      next = (assembly.next + 1) % 2 ^ 8;
    } in
    if not (eqb grown.next grown.count)
    then (ok false, record self { assembly = some grown })
    else complete grown (record self { assembly = none })

abbrev pub is_out_of_order : Assembly → Fragment → Bool
is_out_of_order assembly fragment =
    not (same_kind assembly.kind fragment.kind)
    || not (eqb assembly.session fragment.session)
    || not (eqb assembly.sequence fragment.sequence)
    || not (eqb assembly.count fragment.count)
    || not (eqb assembly.total fragment.total)
    || not (eqb assembly.next fragment.index)

-- From `self.assembly.as_mut()` on.
unfoldable pub assemble : Option Assembly → Fragment → HaloCapsule → Outcome
assemble none fragment self = (err fragment_order, self)
assemble (some assembly) fragment self =
    if is_out_of_order assembly fragment
    then (err fragment_order, self)
    else if ltb max_message_bytes (length assembly.payload + length fragment.payload)
    then (err oversized, record self { assembly = none })
    else extend assembly fragment self

abbrev pub fresh_assembly : Fragment → Assembly
fresh_assembly fragment = record {
  kind = fragment.kind;
  session = fragment.session;
  sequence = fragment.sequence;
  count = fragment.count;
  next = 0;
  total = fragment.total;
  payload = [];
}

-- The first fragment of a message starts a new assembly.
abbrev pub begin : Fragment → HaloCapsule → HaloCapsule
begin fragment self =
    if eqb fragment.index 0 then record self { assembly = some (fresh_assembly fragment) } else self

-- A decoded fragment, from the session test on.
unfoldable pub accept : Fragment → HaloCapsule → Outcome
accept fragment self =
    if not (eqb fragment.session self.session)
    then (err stale_session, self)
    else if contains self.seen fragment.sequence
    then (err replay, self)
    else let self' = begin fragment self in assemble self'.assembly fragment self'

abbrev pub accept_result : Result ProxyError Fragment → HaloCapsule → Outcome
accept_result (err e) self = (err e, self)
accept_result (ok fragment) self = accept fragment self

unfoldable pub receive_fragment : List ℕ → HaloCapsule → Outcome
receive_fragment bytes self = accept_result (do require_active self; decode_fragment bytes) self

-- `pending.pop_front()`, on the queue as it is.
abbrev pub pop_front : List GlassesInput → HaloCapsule → Option GlassesInput × HaloCapsule
pop_front [] self = (none, self)
pop_front (input ∷ rest) self = (some input, record self { pending = rest })

unfoldable pub next_input : HaloCapsule → Option GlassesInput × HaloCapsule
next_input self = pop_front self.pending self

abbrev pub message_of : ℕ → ℕ → MessageKind × List ℕ → Message
message_of session sequence (kind, payload) = record {
  kind = kind;
  session = session;
  sequence = sequence;
  payload = payload;
}

unfoldable pub encode_surface : ℕ → SurfaceCommand → HaloCapsule → Result ProxyError (List (List ℕ))
unfolding require_active encode_surface_payload
encode_surface sequence command self = do
  require_active self
  encoded ← encode_surface_payload command
  encode_message (message_of self.session sequence encoded)
