-- ===== src/HostDir/History.antt =====
-- Sequences of the calls that write, and the map from full paths that they make.
use sim_platform.Prelude.{
  Bool, true, false, Option, none, some, List, [], ◌∷◌, ◌≡◌, ◌↔◌, refl, ap, sym, ◌∙◌, if◌then◌else◌,
  Bool-cases, inl, inr, ok, err,
}
use mathlib.Core.Path.{fun_ext}
use sim_platform.Prelude.{ℕ}
use sim_platform.HostDir.Store.{Segments}
use sim_platform.HostDir.{
  StoragePort, ModelEntry, file, dir, ModelState, MemoryHostDirPort, PortResult, replace,
  HostCompareExchange, observe, same_bytes, compare_exchange, remove_file, create_dir,
  remove_dir_all,
}
use sim_platform.HostDir.Laws.{
  View, update, file_of, key_of, view, Call, replacing, exchanging, removing, making, clearing,
  swap, spec, Follows, update_same, replace-Follows, remove_file-Follows, create_dir-Follows,
  remove_dir_all-Follows,
}
use sim_platform.HostDir.Exchange.{
  same_bytes_sound, same_bytes_refl, Atomic, compare_exchange-Atomic,
}

-- What the specification makes of an entry is what the exchange does.
swap_lem :
    (x : Bool) (o : Option ModelEntry) (seen expected replacement : Option (List ℕ))
    {port : StoragePort}
    → observe port o ≡ ok seen
    → ((x ≡ true) ↔ (seen ≡ expected))
    → swap o expected replacement ≡ (if x then file_of replacement else o)
swap_lem x (some dir) seen expected replacement h d = cc
swap_lem true none seen none replacement h d = refl
swap_lem true none seen (some b) replacement h d = cc (d.0 refl)
swap_lem false none seen none replacement h d = cc (d.1 (cc))
swap_lem false none seen (some b) replacement h d = refl
swap_lem true (some (file a)) seen none replacement h d = cc (d.0 refl)
swap_lem false (some (file a)) seen none replacement h d = refl
swap_lem true (some (file a)) seen (some b) replacement h d =
    let e : a ≡ b = cc (h, d.0 refl) in
    let same : same_bytes a b ≡ true = ap (same_bytes a) (sym e) ∙ same_bytes_refl a in rw same
swap_lem false (some (file a)) seen (some b) replacement h d = elim (Bool-cases (same_bytes a b)) [
  | inl same ↦ let e = same_bytes_sound a b same in cc (d.1 (cc (h, e)))
  | inr other ↦ rw other
]

-- The specification on a sequence.
abbrev pub specs : List Call → View → View
specs [] fs = fs
specs (call ∷ calls) fs = specs calls (spec call fs)

module _ (port : StoragePort) where
  compare_exchange-Follows :
      (self : MemoryHostDirPort) (path : Segments) (expected replacement : Option (List ℕ))
      (before after : Bool) (state : ModelState)
      → Follows port state
          (exchanging self path expected replacement before after)
          (compare_exchange port self path expected replacement before after state)
  compare_exchange-Follows self path expected replacement before after state =
      follow (compare_exchange port self path expected replacement before after state)
        (compare_exchange-Atomic port state self path expected replacement before after)
    where
      put_in :
          (x : Bool) (value : Option ModelEntry) (k : Segments)
          → (if x then update (view state) (key_of self path) value k else view state k)
            ≡ update
                (view state)
                (key_of self path)
                (if x then value else view state (key_of self path))
                k
      put_in true value k = refl
      put_in false value k =
          sym (update_same (view state) (key_of self path) k (view state (key_of self path)) refl)

      follow :
          (out : PortResult port (HostCompareExchange port) × ModelState)
          → Atomic port state self path expected replacement before after out
          → Follows port state (exchanging self path expected replacement before after) out
      follow (err e, state') h = h
      follow (ok r, state') h = λ k.
          h.2 k
          ∙ put_in r.exchanged (file_of replacement) k
          ∙ ap (λ v. update (view state) (key_of self path) v k)
              (sym (
                swap_lem r.exchanged (view state (key_of self path)) r.observed expected replacement
                  {port = port} h.0 h.1))

  abbrev pub outcome : {A : Type 0} → PortResult port A × ModelState → Bool × ModelState
  outcome (ok a, state) = (true, state)
  outcome (err e, state) = (false, state)

  -- A call, as whether it was accepted and the state after it.
  unfoldable pub perform : Call → ModelState → Bool × ModelState
  perform (replacing self path bytes c) state = outcome (replace port self path bytes c state)
  perform (exchanging self path expected replacement before after) state =
      outcome (compare_exchange port self path expected replacement before after state)
  perform (removing self path) state = outcome (remove_file port self path state)
  perform (making self path) state = outcome (create_dir port self path state)
  perform (clearing self path) state = outcome (remove_dir_all port self path state)

  unfoldable pub run : List Call → ModelState → ModelState
  run [] state = state
  run (call ∷ calls) state = run calls (perform call state).1

  -- The calls of a sequence that are accepted, in order.
  unfoldable pub accepted : List Call → ModelState → List Call
  accepted [] state = []
  accepted (call ∷ calls) state =
      let rest = accepted calls (perform call state).1 in
      if (perform call state).0 then call ∷ rest else rest

  abbrev pub Performs : Call → ModelState → Bool × ModelState → Type 0
  Performs call state (true, state') = view state' ≡ spec call (view state)
  Performs call state (false, state') = state' ≡ state

  performs :
      {A : Type 0} (call : Call) (state : ModelState) (r : PortResult port A × ModelState)
      → Follows port state call r
      → Performs call state (outcome r)
  performs call state (ok a, state') h = fun_ext h
  performs call state (err e, state') h = h

  pub perform-Performs :
      (call : Call) (state : ModelState) → Performs call state (perform call state)
  unfolding perform
  perform-Performs (replacing self path bytes c) state =
      performs (replacing self path bytes c) state (replace port self path bytes c state)
        (replace-Follows port state self path bytes c)
  perform-Performs (exchanging self path expected replacement before after) state =
      performs (exchanging self path expected replacement before after) state
        (compare_exchange port self path expected replacement before after state)
        (compare_exchange-Follows self path expected replacement before after state)
  perform-Performs (removing self path) state =
      performs (removing self path) state (remove_file port self path state)
        (remove_file-Follows port state self path)
  perform-Performs (making self path) state =
      performs (making self path) state (create_dir port self path state)
        (create_dir-Follows port state self path)
  perform-Performs (clearing self path) state =
      performs (clearing self path) state (remove_dir_all port self path state)
        (remove_dir_all-Follows port state self path)

  -- The port implements a map from full paths to entries: after any sequence of writing calls, through
  -- whatever ports share the state, what stands at each full path is what the specification of the
  -- accepted calls, in order, makes of what stood there before; refused calls have no effect.
  pub run-refines :
      (calls : List Call) (state : ModelState)
      → view (run calls state) ≡ specs (accepted calls state) (view state)
  unfolding run accepted
  run-refines [] state = refl
  run-refines (call ∷ calls) state =
      after (perform call state) (perform-Performs call state)
        (run-refines calls (perform call state).1)
    where
      after :
          (r : Bool × ModelState)
          → Performs call state r
          → view (run calls r.1) ≡ specs (accepted calls r.1) (view r.1)
          → view (run calls r.1)
            ≡ specs (if r.0 then call ∷ accepted calls r.1 else accepted calls r.1) (view state)
      after (true, state') h rest = rest ∙ ap (specs (accepted calls state')) h
      after (false, state') h rest = rest ∙ ap (λ s. specs (accepted calls state') (view s)) h
