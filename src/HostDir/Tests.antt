-- ===== src/HostDir/Tests.antt =====
-- The in-memory host directory at concrete inputs.
use sim_platform.Prelude.{
  ℕ, false, none, some, List, [], ◌∷◌, ◌≡◌, refl, arith, text_key, ◌==◌, not,
}
use sim_platform.Prelude.Maps.{get}
use sim_platform.HostDir.Store.{Segments, put}
use sim_platform.HostDir.{
  StoragePort, MemoryHostDirPort, new_port, new_state, total, compare_exchange, validate,
  remove_file, removed, full, exchanged_state, replace, replaced, create_dir, created, exchange,
}
use sim_platform.HostDir.Laws.{Call, replacing, exchanging, removing, making, clearing, view}
use sim_platform.HostDir.Exchange.{Atomic, compare_exchange-Atomic}
use sim_platform.HostDir.History.{run, perform, accepted, specs, run-refines}
use sim_platform.HostDir.Confined.{Derived, here, Derived-run}
use sim_platform.HostDir.Quota.{IsWithin, run-IsWithin}

abbrev numbered : StoragePort
numbered = record {
  Kind = ℕ;
  escape = 0;
  special_file = 1;
  not_found = 2;
  cancelled = 3;
  quota_exceeded = 4;
  is_legal_table_segment = λ s. not (s == "..");
  is_absolute = λ s. s == "/";
}

abbrev root : MemoryHostDirPort
root = new_port "model"

abbrev inner : MemoryHostDirPort
inner = record { prefix = "docs" ∷ []; label = "model" }

abbrev a_path : Segments
a_path = "a" ∷ []

abbrev history : List Call
history =
    making root ("docs" ∷ [])
    ∷ replacing root a_path (1 ∷ 2 ∷ 3 ∷ []) false
    ∷ replacing inner a_path (7 ∷ 8 ∷ []) false
    ∷ replacing root ("b" ∷ []) (4 ∷ 5 ∷ 6 ∷ 7 ∷ []) false
    ∷ exchanging root a_path (some (1 ∷ 2 ∷ 3 ∷ [])) (some (9 ∷ [])) false false
    ∷ removing inner ("missing" ∷ [])
    ∷ []

abbrev inner_history : List Call
inner_history = replacing inner a_path (7 ∷ 8 ∷ []) false ∷ clearing inner [] ∷ []

total_of_history : total (run numbered history (new_state 8)).entries ≡ 3
unfolding run perform remove_file removed full validate get compare_exchange exchanged_state replace
    replaced create_dir created put exchange
total_of_history = refl

accepted_of_history :
    accepted numbered history (new_state 8)
    ≡ making root ("docs" ∷ [])
      ∷ replacing root a_path (1 ∷ 2 ∷ 3 ∷ []) false
      ∷ replacing inner a_path (7 ∷ 8 ∷ []) false
      ∷ exchanging root a_path (some (1 ∷ 2 ∷ 3 ∷ [])) (some (9 ∷ [])) false false
      ∷ []
unfolding accepted perform remove_file removed full validate get compare_exchange exchanged_state
    replace replaced create_dir created put exchange
accepted_of_history = refl

run-refines_example :
    view (run numbered history (new_state 8))
    ≡ specs (accepted numbered history (new_state 8)) (view (new_state 8))
run-refines_example = run-refines numbered history (new_state 8)

run-IsWithin_example : IsWithin 8 (run numbered history (new_state 8))
run-IsWithin_example =
    run-IsWithin numbered 8 (omega arith) history (new_state 8)
      (record { same_quota = refl; fits = omega arith }) (omega arith)

compare_exchange-Atomic_example :
    Atomic numbered
      (run numbered history (new_state 8))
      root
      a_path
      (some (9 ∷ []))
      none
      false
      false
      (compare_exchange numbered root a_path
        (some (9 ∷ []))
        none
        false
        false
        (run numbered history (new_state 8)))
compare_exchange-Atomic_example =
    compare_exchange-Atomic numbered (run numbered history (new_state 8)) root a_path
      (some (9 ∷ [])) none false false

from_root : Derived numbered inner inner
from_root = here

Derived-run_example :
    view (run numbered inner_history (run numbered history (new_state 8))) a_path
    ≡ view (run numbered history (new_state 8)) a_path
Derived-run_example =
    Derived-run numbered inner inner_history (run numbered history (new_state 8)) a_path refl
      (from_root, (from_root, tt))
