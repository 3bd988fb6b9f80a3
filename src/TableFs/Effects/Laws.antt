-- ===== src/TableFs/Effects/Laws.antt =====
-- What each call of a table that writes has done.
use sim_platform.Prelude.{String, List, ◌≡◌, Result}
use sim_platform.HostDir.{StoragePort, ModelState, MemoryHostDirPort}
use sim_platform.HostDir.Laws.{removing as unlinking, making as adding}
use sim_platform.TableFs.Leaf.{Kernel, FsError, Leaf}
use sim_platform.TableFs
use sim_platform.TableFs.{
  TableCompareExchange, TableExpected, TableReplacement, delete, value, expected_expr,
  replacement_expr, encoded, expect_text,
}
use sim_platform.TableFs.Effects.{Write, making, removing, Did}
use sim_platform.TableFs.Effects.Steps.{Holds}

module _ (port : StoragePort) (kernel : Kernel)
    (name-new : (s : String) → kernel.name_of (kernel.new_symbol s) ≡ s)
    (capabilities : List String) (self : MemoryHostDirPort) (state : ModelState) where
  abbrev Holding :
      {A : Type 0} → Write port kernel → Result (FsError port kernel) A × ModelState → Type 0
  Holding call r = Holds port kernel (Did port kernel capabilities self state call) r
