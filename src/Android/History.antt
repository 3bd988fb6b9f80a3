-- ===== src/Android/History.antt =====
-- Sequences of inputs to the Android capsule.
use sim_platform.Prelude.{String, List, [], ◌∷◌, ◌≡◌, sym, subst, ok, err}
use sim_platform.Android.Records.{Input}
use sim_platform.Android.{Capsule, default, Outcome, dispatch}
use sim_platform.Android.Invariant.{IsValid, Keeps, default-IsValid, dispatch-Keeps}

unfoldable pub run : List (String × Input) → Capsule → Capsule
run [] self = self
run ((function, input) ∷ inputs) self = run inputs (dispatch function input self).1

run_from-IsValid :
    (inputs : List (String × Input)) (self : Capsule) → IsValid self → IsValid (run inputs self)
unfolding run
run_from-IsValid [] self v = v
run_from-IsValid ((function, input) ∷ inputs) self v =
    run_from-IsValid inputs (dispatch function input self).1
      (after (dispatch function input self) (dispatch-Keeps self v function input))
  where
    after : (o : Outcome) → Keeps self o → IsValid o.1
    after (ok output, self') h = h
    after (err e, self') h = subst IsValid (sym h) v

-- After any inputs to a new capsule, under whatever function names: a bound plan is a valid one; no
-- resumed turn and no resource is recorded twice; the audio focus and the communication route are held
-- exactly while a session is armed, and that session passed its test; each speech tier has evidence that
-- is not lacking in proof and stands under its kind, and the speech that is active has a tier.
pub run-default-IsValid : (inputs : List (String × Input)) → IsValid (run inputs default)
run-default-IsValid inputs = run_from-IsValid inputs default default-IsValid

-- Refusals are atomic: in a capsule that any inputs led to, an input that is refused, by whatever part
-- it was meant for, leaves the whole capsule as it was.
pub dispatch_refused :
    (inputs : List (String × Input)) (function : String) (input : Input) {e : String}
    → (dispatch function input (run inputs default)).0 ≡ err e
    → (dispatch function input (run inputs default)).1 ≡ run inputs default
dispatch_refused inputs function input refused =
    unchanged (dispatch function input (run inputs default))
      (dispatch-Keeps (run inputs default) (run-default-IsValid inputs) function input) refused
  where
    unchanged :
        (o : Outcome) {e : String}
        → Keeps (run inputs default) o
        → o.0 ≡ err e
        → o.1 ≡ run inputs default
    unchanged (ok output, self') h refused = cc
    unchanged (err m, self') h refused = h
