-- ===== src/Ios/History.antt =====
-- Sequences of inputs to the iOS capsule.
use sim_platform.Prelude.{String, List, [], ◌∷◌}
use sim_platform.Ios.Records.{Input}
use sim_platform.Ios.{Capsule, default, dispatch}
use sim_platform.Ios.Invariant.{IsValid, default-IsValid, dispatch-IsValid}

unfoldable pub run : List (String × Input) → Capsule → Capsule
run [] self = self
run ((function, input) ∷ inputs) self = run inputs (dispatch function input self).1

run_from-IsValid :
    (inputs : List (String × Input)) (self : Capsule) → IsValid self → IsValid (run inputs self)
unfolding run
run_from-IsValid [] self v = v
run_from-IsValid ((function, input) ∷ inputs) self v =
    run_from-IsValid inputs (dispatch function input self).1
      (dispatch-IsValid self v function input)

-- After any inputs to a new iOS capsule, under whatever function names: no resource and no document grant
-- is recorded twice, a suspended or disconnected capsule has no resource, and background execution is
-- allowed and documents are granted only while it is connected or active.
pub run-default-at_rest : (inputs : List (String × Input)) → IsValid (run inputs default)
run-default-at_rest inputs = run_from-IsValid inputs default default-IsValid
