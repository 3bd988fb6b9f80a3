-- ===== src/Core/Symbol/Tests.antt =====
-- Runs of the requirement builder of crates/sim-platform-core.
use sim_platform.Prelude.{List, [], ◌∷◌, ◌≡◌, refl, ok, err}
use sim_platform.Core.Records.{invalid_symbol}
use sim_platform.Core.Symbol.{is_valid, new, new_all, require, optional}
use sim_platform.Core.Symbol.Laws.{Call, requiring, optionally, build, requests}

abbrev calls : List Call
calls = requiring "service/clock" ∷ optionally "service/midi" ("service/beep" ∷ []) ∷ []

build_lem : build calls [] ≡ ok (requests calls)
unfolding build require optional new_all new is_valid
build_lem = refl

build-err : build (requiring "clock" ∷ calls) [] ≡ err (invalid_symbol "clock")
unfolding build require optional new_all new is_valid
build-err = refl
