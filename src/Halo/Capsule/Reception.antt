-- ===== src/Halo/Capsule/Reception.antt =====
-- Receiving a fragment keeps the capsule valid, on every branch.
use sim_platform.Prelude.{
  ℕ, ◌+◌, ◌%◌, ◌^◌, ◌≤◌, ◌<◌, true, not, Option, none, some, List, [], ◌∷◌, ◌≡◌, refl, arith, ltb,
  eqb, number_key, length, length-append, contains, IsNodup, add, Result, ok, err, ◌>>=◌, if_rule,
  OnOk,
}
use sim_platform.Halo.Types.{
  max_message_bytes, max_pending_events, ProxyError, GlassesInput, Assembly, Fragment, HaloCapsule,
}
use sim_platform.Halo.Codec.{decode_fragment}
use sim_platform.Halo.Codec.Laws.{IsFragment, decode_fragment-OnOk}
use sim_platform.Halo.Input.{decode_input}
use sim_platform.Halo.Capsule.{
  is_out_of_order, fresh_assembly, require_active, enqueue, complete, extend, assemble, begin,
  accept, accept_result, receive_fragment,
}
use sim_platform.Halo.Capsule.Invariant.{IsPartial, IsProgress, IsValid, After}

IsNodup-add : (x : ℕ) (xs : List ℕ) → IsNodup xs → IsNodup (add x xs)
IsNodup-add x xs h = if_rule IsNodup (contains xs x) xs (x ∷ xs) (λ there. h) (λ fresh. (fresh, h))

-- A connected capsule that stays connected, with another assembly.
pub progress-IsValid :
    (a : Option Assembly) (self : HaloCapsule)
    → IsValid self
    → self.connected ≡ true
    → IsProgress self.session a
    → IsValid (record self { assembly = a })
progress-IsValid a self v linked h = record {
  queue = v.queue;
  distinct = v.distinct;
  progress = h;
  offline = λ e. cc;
  consented = v.consented;
  alive = v.alive;
}

enqueue-IsValid :
    (sequence : ℕ) (r : Result ProxyError GlassesInput) (self : HaloCapsule)
    → IsValid self
    → self.connected ≡ true
    → length self.pending < max_pending_events
    → IsValid (enqueue sequence r self).1
enqueue-IsValid sequence (err e) self v linked room = v
enqueue-IsValid sequence (ok input) self v linked room = record {
  queue = omega (arith, length-append self.pending (input ∷ []));
  distinct = IsNodup-add sequence self.seen v.distinct;
  progress = v.progress;
  offline = λ e. cc;
  consented = v.consented;
  alive = v.alive;
}

complete-IsValid :
    (message : Assembly) (self : HaloCapsule)
    → IsValid self
    → self.connected ≡ true
    → IsValid (complete message self).1
unfolding complete
complete-IsValid message self v linked =
    if_rule After (not (eqb (length message.payload) message.total)) _ _ (λ wrong. v)
      λ right.
        if_rule After (eqb (length self.pending) max_pending_events) _ _ (λ full. v)
          λ free.
            enqueue-IsValid message.sequence (decode_input message.kind message.payload) self v
              linked (ground (arith, v.queue))

extend-IsValid :
    (a : Assembly) (f : Fragment) (self : HaloCapsule)
    → IsValid self
    → self.connected ≡ true
    → IsPartial self.session a
    → length a.payload + length f.payload ≤ max_message_bytes
    → IsValid (extend a f self).1
unfolding extend
extend-IsValid a f self v linked partial fits =
    if_rule After (not (eqb ((a.next + 1) % 2 ^ 8) a.count)) _ _
      (λ more. progress-IsValid _ self v linked (record {
        unfinished = ground arith;
        few = partial.few;
        bounded = omega (arith, length-append a.payload f.payload);
        current = partial.current;
      }))
      (λ last. complete-IsValid _ _ (progress-IsValid none self v linked tt) linked)

assemble-IsValid :
    (a : Option Assembly) (f : Fragment) (self : HaloCapsule)
    → IsValid self
    → self.connected ≡ true
    → IsProgress self.session a
    → IsValid (assemble a f self).1
unfolding assemble
assemble-IsValid none f self v linked partial = v
assemble-IsValid (some a) f self v linked partial =
    if_rule After (is_out_of_order a f) _ _ (λ disordered. v)
      λ ordered.
        if_rule After (ltb max_message_bytes (length a.payload + length f.payload)) _ _
          (λ large. progress-IsValid none self v linked tt)
          (λ fits. extend-IsValid a f self v linked partial (ground arith))

begin-IsValid :
    (f : Fragment) (self : HaloCapsule)
    → IsFragment f
    → f.session ≡ self.session
    → IsValid self
    → self.connected ≡ true
    → IsValid (begin f self) × ((begin f self).connected ≡ true)
begin-IsValid f self fragment same v linked =
    if_rule (λ s. IsValid s × (s.connected ≡ true)) (eqb f.index 0) _ _
      (λ first. (
        progress-IsValid (some (fresh_assembly f)) self v linked (record {
          unfinished = omega (arith, fragment.index_inside);
          few = fragment.few;
          bounded = omega arith;
          current = same;
        }),
        linked,
      ))
      (λ later. (v, linked))

accept-IsValid :
    (f : Fragment) (self : HaloCapsule)
    → IsFragment f
    → IsValid self
    → self.connected ≡ true
    → IsValid (accept f self).1
unfolding accept
accept-IsValid f self fragment v linked =
    if_rule After (not (eqb f.session self.session)) _ _ (λ stale. v)
      λ current.
        if_rule After (contains self.seen f.sequence) _ _ (λ replayed. v)
          λ fresh.
            let (v', linked') = begin-IsValid f self fragment (ground arith) v linked in
            assemble-IsValid (begin f self).assembly f (begin f self) v' linked' v'.progress

require_active-linked : (self : HaloCapsule) → require_active self ≡ ok tt → self.connected ≡ true
unfolding require_active
require_active-linked self h = ground arith

accept_result-IsValid :
    (self : HaloCapsule) (active_now : Result ProxyError (Unit {0}))
    (decoded : Result ProxyError Fragment)
    → require_active self ≡ active_now
    → OnOk IsFragment decoded
    → IsValid self
    → IsValid (accept_result (active_now >>= λ _. decoded) self).1
accept_result-IsValid self (err e) decoded active_e h v = v
accept_result-IsValid self (ok tt) (err e) active_e h v = v
accept_result-IsValid self (ok tt) (ok f) active_e h v =
    accept-IsValid f self h v (require_active-linked self active_e)

pub receive_fragment-IsValid :
    (bytes : List ℕ) (self : HaloCapsule) → IsValid self → IsValid (receive_fragment bytes self).1
unfolding receive_fragment
receive_fragment-IsValid bytes self v =
    accept_result-IsValid self (require_active self) (decode_fragment bytes) refl
      (decode_fragment-OnOk bytes) v
