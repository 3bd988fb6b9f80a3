-- ===== src/Midi/History.antt =====
-- The account of a whole history of calls on a MIDI connection.
use sim_platform.Prelude.{◌+◌, List, [], ◌∷◌, ◌++◌, ◌≡◌, refl, sym, ◌∙◌, ap, arith}
use sim_platform.Midi.{MidiCore, UbuntuMidiConnection}
use sim_platform.Midi.Connection.{
  Call, Gain, delivered, accepted, reopened, nothing, step, run, deliveries, acceptances,
  reopenings, messages, IsConsistent, Accounts, Accounts-none, append_assoc, step-Accounts,
}

module _ (core : MidiCore) where
  deliveries-cons :
      (g : Gain core) (gs : List (Gain core))
      → deliveries core (g ∷ gs) ≡ deliveries core (g ∷ []) ++ deliveries core gs
  deliveries-cons (delivered m) gs = refl
  deliveries-cons (accepted m) gs = refl
  deliveries-cons reopened gs = refl
  deliveries-cons nothing gs = refl

  acceptances-cons :
      (g : Gain core) (gs : List (Gain core))
      → acceptances core (g ∷ gs) ≡ acceptances core (g ∷ []) ++ acceptances core gs
  acceptances-cons (delivered m) gs = refl
  acceptances-cons (accepted m) gs = refl
  acceptances-cons reopened gs = refl
  acceptances-cons nothing gs = refl

  reopenings-cons :
      (g : Gain core) (gs : List (Gain core))
      → reopenings core (g ∷ gs) ≡ reopenings core (g ∷ []) + reopenings core gs
  reopenings-cons (delivered m) gs = omega arith
  reopenings-cons (accepted m) gs = omega arith
  reopenings-cons reopened gs = omega arith
  reopenings-cons nothing gs = omega arith

  Accounts-cons :
      (self middle end : UbuntuMidiConnection core) (g : Gain core) (gs : List (Gain core))
      → Accounts core self (g ∷ []) middle
      → Accounts core middle gs end
      → Accounts core self (g ∷ gs) end
  Accounts-cons self middle end g gs a b = record {
    input_order =
        ap (λ t. t ++ messages core end.input) (deliveries-cons g gs)
        ∙ append_assoc core (deliveries core (g ∷ [])) (deliveries core gs)
            (messages core end.input)
        ∙ ap (λ t. deliveries core (g ∷ []) ++ t) b.input_order
        ∙ a.input_order;
    output_order =
        b.output_order
        ∙ ap (λ t. t ++ acceptances core gs) a.output_order
        ∙ append_assoc core self.sent (acceptances core (g ∷ [])) (acceptances core gs)
        ∙ ap (λ t. self.sent ++ t) (sym (acceptances-cons g gs));
    reconnections = omega (arith, b.reconnections, a.reconnections, reopenings-cons g gs);
    same_limit = b.same_limit ∙ a.same_limit;
    consistent = b.consistent;
  }

  -- In any history of calls on a consistent connection, whatever devices are lost and reopened: the
  -- messages that `receive` delivered, followed by those still queued, are the messages queued at first,
  -- in order, so none is lost, repeated or reordered; the messages sent at the end are those sent before
  -- and those that `send` accepted, in order; the count of reconnections grew by one for each that
  -- succeeded and is within the unchanged limit; and a closed connection is not connected.
  pub run-Accounts :
      (calls : List (Call core)) (self : UbuntuMidiConnection core)
      → IsConsistent core self
      → Accounts core self (run core calls self).0 (run core calls self).1
  run-Accounts [] self c = Accounts-none core self c
  run-Accounts (call ∷ calls) self c =
      let o = step core call self in
      let first = step-Accounts core self c call in
      Accounts-cons self o.1 (run core calls o.1).1 o.0 (run core calls o.1).0 first
        (run-Accounts calls o.1 first.consistent)
