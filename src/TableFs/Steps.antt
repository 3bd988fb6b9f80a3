-- ===== src/TableFs/Steps.antt =====
-- A call on the shared state of a host directory: what was written stays written, also beside an error.
use sim_platform.Prelude.{Bool, Result, ok, err, refuse_if}
use sim_platform.HostDir.{ModelState}

abbrev pub Action : Type 0 → Type 0 → Type 0
Action E A = ModelState → Result E A × ModelState

unfoldable pub next :
    {E A B : Type 0} → (A → Action E B) → Result E A × ModelState → Result E B × ModelState
next f (ok a, state) = f a state
next f (err e, state) = (err e, state)

infixl 5 ◌>>=◌ ◌>>◌
abbrev pub ◌>>=◌ : {E A B : Type 0} → Action E A → (A → Action E B) → Action E B
◌>>=◌ m f state = next f (m state)

abbrev pub ◌>>◌ : {E A B : Type 0} → Action E A → Action E B → Action E B
m >> k = m >>= λ _. k

-- A step that does not touch the state, and one that only reads it.
abbrev pub lift : {E A : Type 0} → Result E A → Action E A
lift r state = (r, state)

abbrev pub reading : {E A : Type 0} → (ModelState → Result E A) → Action E A
reading f state = (f state, state)

abbrev pub raise_if : {E : Type 0} → Bool → E → Action E (Unit {0})
raise_if test e state = (refuse_if test e, state)

-- A relation of the states before and after that is reflexive and transitive holds across a chain.
pub next_rule :
    {E A B : Type 0} (P : ModelState → Type 0) (f : A → Action E B) (r : Result E A × ModelState)
    → P r.1
    → ((a : A) (state : ModelState) → P state → P (f a state).1)
    → P (next f r).1
unfolding next
next_rule P f (ok a, state) h k = k a state h
next_rule P f (err e, state) h k = h
