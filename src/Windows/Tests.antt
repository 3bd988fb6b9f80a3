-- ===== src/Windows/Tests.antt =====
-- The Windows capsule and its paths at concrete inputs.
use sim_platform.Prelude.{ℕ, ◌+◌, List, [], ◌∷◌, ◌≡◌, ◌≢◌, refl, ok, err}
use sim_platform.Windows.TablePath.{traversal, from_table_units}
use sim_platform.Windows.TablePath.Laws.{Verdict, from_table_units-Verdict}
use sim_platform.Windows.{
  active, stopped, clipboard, is_stopped, NativeServices, WindowsCapsule, stop, resume, request,
}
use sim_platform.Windows.Life.{Call, requesting, stopping, resuming, perform, run, run-stop}

-- Native services that count what they are asked.
abbrev counting : NativeServices
counting = record {
  State = ℕ;
  dispatch = λ r n. (ok tt, n + 1);
  cancel_process_tree = λ n. n + 10;
  cleanup = λ n. n + 100;
}

abbrev running_capsule : WindowsCapsule counting
running_capsule = record {
  native = 0;
  profile = record {
    preopened_dirs = [];
    grants = "platform/clipboard" ∷ [];
    max_processes = 4;
    max_output_bytes = 1024;
  };
  lifecycle = active;
}

abbrev later_calls : List Call
later_calls = requesting "clipboard" clipboard ∷ resuming ∷ stopping ∷ []

cleaned_once :
    (run counting
      (requesting "clipboard" clipboard ∷ stopping ∷ later_calls)
      running_capsule).native
    ≡ 101
unfolding run perform stop resume request
cleaned_once = refl

run-stop_example :
    ((stop counting running_capsule).lifecycle ≡ stopped)
    × ((stop counting running_capsule).native ≡ 100)
    × (run counting later_calls (stop counting running_capsule) ≡ stop counting running_capsule)
    × ((call : Call)
        → call ≢ stopping
        → (perform counting call (run counting later_calls (stop counting running_capsule))).0
          ≡ err is_stopped)
run-stop_example = run-stop counting later_calls running_capsule

-- `a/../b`
abbrev climbing : List ℕ
climbing = 97 ∷ 47 ∷ 46 ∷ 46 ∷ 47 ∷ 98 ∷ []

climbing_refused : from_table_units climbing ≡ err traversal
unfolding from_table_units
climbing_refused = refl

from_table_units-Verdict_example : Verdict climbing (from_table_units climbing)
from_table_units-Verdict_example = from_table_units-Verdict climbing
