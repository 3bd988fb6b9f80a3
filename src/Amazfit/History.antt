-- ===== src/Amazfit/History.antt =====
-- What holds of the watch capsule after any history of calls, and of the commands it sends.
use sim_platform.Prelude.{
  ℕ, ◌≤◌, Bool, true, false, Option, some, List, [], ◌∷◌, ◌≡◌, refl, subst, sym, ◌↔◌, arith, ltb,
  number_key, length, length-append, All-append, Result, ok, err, bind_rule, ok_or_rule,
  refuse_if_rule,
}
use sim_platform.Amazfit.{
  max_frame_bytes, Lifecycle, WatchEvent, HostCommand, Envelope, ProxyError, malformed, oversized,
  AmazfitCapsule, default, disconnect, set_lifecycle, set_consent, connect, is_valid_command,
  validate_command, require_link, next_event, receive, envelope_of, encode_command,
}
use sim_platform.Amazfit.Invariant.{
  IsCurrent, IsValid, default-IsValid, disconnect-IsValid, set_lifecycle-IsValid,
  set_consent-IsValid, connect-IsValid, pop_front-IsValid,
}
use sim_platform.Amazfit.Effects.{IsLinked, Effect, receive-Effect}

require_link-linked : (self : AmazfitCapsule) → require_link self ≡ ok tt → IsLinked self
unfolding require_link
require_link-linked self h = record {
  consented = ground arith;
  connected = ground arith;
  running = ground arith;
}

require_link-ok : (self : AmazfitCapsule) → IsLinked self → require_link self ≡ ok tt
unfolding require_link
require_link-ok self h = ground (arith, h.consented, h.connected, h.running)

-- The calls that change a capsule.
pub data Call : Type 0 where
  lifecycle : Lifecycle → Call
  consent : Bool → Call
  connect_to : ℕ → Call
  hang_up : Call
  receive_frame : List ℕ → Call
  take_event : Call

module _ (from_slice : List ℕ → Option (Envelope WatchEvent)) where
  -- An accepted frame keeps the capsule valid; on the other branches it is unchanged.
  Effect-IsValid :
      (frame : List ℕ) (self : AmazfitCapsule) (result : Result ProxyError Bool)
      (self' : AmazfitCapsule)
      → IsValid self
      → Effect from_slice frame self (result, self')
      → IsValid self'
  Effect-IsValid frame self (ok true) self' v (event, admitted, fresh, room, e) =
      let linked = admitted.linked in
      subst IsValid (sym e) (record {
        queue = omega (arith, length-append self.pending (event ∷ []), v.queue, room);
        distinct = (fresh, v.distinct);
        current =
            All-append (IsCurrent self.session) self.pending (event ∷ []) v.current
              (admitted.current, tt);
        offline = λ off. absurd (cc (off, linked.connected));
        consented = v.consented;
        alive = v.alive;
      })
  Effect-IsValid frame self (ok false) self' v (event, admitted, repeated, e) =
      subst IsValid (sym e) v
  Effect-IsValid frame self (err refusal) self' v (reason, e) = subst IsValid (sym e) v

  abbrev pub apply : Call → AmazfitCapsule → AmazfitCapsule
  apply (lifecycle state) self = set_lifecycle state self
  apply (consent granted) self = set_consent granted self
  apply (connect_to session) self = (connect session self).1
  apply hang_up self = disconnect self
  apply (receive_frame frame) self = (receive from_slice frame self).1
  apply take_event self = (next_event self).1

  abbrev pub run : List Call → AmazfitCapsule → AmazfitCapsule
  run [] self = self
  run (call ∷ calls) self = run calls (apply call self)

  apply-IsValid : (call : Call) (self : AmazfitCapsule) → IsValid self → IsValid (apply call self)
  unfolding next_event
  apply-IsValid (lifecycle state) self v = set_lifecycle-IsValid state self v
  apply-IsValid (consent granted) self v = set_consent-IsValid granted self v
  apply-IsValid (connect_to session) self v = connect-IsValid session self v
  apply-IsValid hang_up self v = disconnect-IsValid self
  apply-IsValid (receive_frame frame) self v =
      Effect-IsValid frame self (receive from_slice frame self).0 (receive from_slice frame self).1
        v (receive-Effect from_slice frame self)
  apply-IsValid take_event self v = pop_front-IsValid self.pending self refl v

  run_from-IsValid :
      (calls : List Call) (self : AmazfitCapsule) → IsValid self → IsValid (run calls self)
  run_from-IsValid [] self v = v
  run_from-IsValid (call ∷ calls) self v =
      run_from-IsValid calls (apply call self) (apply-IsValid call self v)

  -- After any history of calls on a new capsule, whatever frames it received and however they are read:
  -- the queue holds at most 32 events, each of protocol version 1, of the current session and with valid
  -- contents; no sequence number is recorded twice; a connected capsule has consent and is neither
  -- suspended nor destroyed, and one that is not connected keeps no event and no sequence number.
  pub run-default : (calls : List Call) → IsValid (run calls default)
  run-default calls = run_from-IsValid calls default default-IsValid

module _ (to_vec : Envelope HostCommand → Option (List ℕ)) (sequence : ℕ) (command : HostCommand)
    (self : AmazfitCapsule) where
  -- What an encoded command is.
  pub record IsCommand (bytes : List ℕ) : Type 0 where
    pub linked : IsLinked self
    pub valid : is_valid_command command ≡ true
    pub written : to_vec (envelope_of self sequence command) ≡ some bytes
    pub small : length bytes ≤ max_frame_bytes

  validate_command-valid : validate_command command ≡ ok tt → is_valid_command command ≡ true
  unfolding validate_command
  validate_command-valid h = ground arith

  encode_command-IsCommand :
      (bytes : List ℕ) → encode_command to_vec sequence command self ≡ ok bytes → IsCommand bytes
  unfolding encode_command
  encode_command-IsCommand bytes =
      bind_rule Encoded (require_link self) _
        (λ u is_ok.
          bind_rule Encoded (validate_command command) _
            (λ u' valid.
              ok_or_rule Encoded (to_vec (envelope_of self sequence command)) malformed _
                (λ written e.
                  refuse_if_rule Encoded (ltb max_frame_bytes (length written)) oversized
                    (ok written) (λ large h. cc)
                    (λ small h.
                      let same : written ≡ bytes = cc in
                      record {
                        linked = require_link-linked self is_ok;
                        valid = validate_command-valid valid;
                        written = cc (e, same);
                        small = ground (arith, same, small);
                      }))
                (λ unwritten h. cc))
            (λ e refused h. cc))
        (λ e refused h. cc)
    where
      Encoded : Result ProxyError (List ℕ) → Type 0
      Encoded r = r ≡ ok bytes → IsCommand bytes

  IsCommand-encode_command :
      (bytes : List ℕ) → IsCommand bytes → encode_command to_vec sequence command self ≡ ok bytes
  unfolding encode_command validate_command
  IsCommand-encode_command bytes h =
      let small : ltb max_frame_bytes (length bytes) ≡ false = ground (arith, h.small) in
      rw (require_link-ok self h.linked, h.valid, h.written, small)

  -- A command is encoded into `bytes` exactly when the capsule has consent, is connected and active, the
  -- command is valid, and its envelope of version 1 and the current session is written as `bytes`, of at
  -- most 4096.
  pub encode_command_iff :
      (bytes : List ℕ) → (encode_command to_vec sequence command self ≡ ok bytes) ↔ IsCommand bytes
  encode_command_iff bytes = (encode_command-IsCommand bytes, IsCommand-encode_command bytes)
