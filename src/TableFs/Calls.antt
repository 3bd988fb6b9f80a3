-- ===== src/TableFs/Calls.antt =====
-- Sequences of the calls of tables.
use sim_platform.Prelude.{ℕ, String, Bool, List, [], ◌∷◌, text_key}
use sim_platform.HostDir.{StoragePort, ModelState, MemoryHostDirPort}
use sim_platform.TableFs.Leaf.{Kernel}
use sim_platform.TableFs
use sim_platform.TableFs.Listing as Listing
use sim_platform.TableFs.{TableExpected, TableReplacement, Fs, calling}

module _ (port : StoragePort) (kernel : Kernel) where
  -- The calls of a table.
  pub data TableCall : Type 0 where
    getting having deleting making opening removing testing : kernel.Symbol → TableCall
    setting : kernel.Symbol → kernel.Value → TableCall
    exchanging :
        kernel.Symbol → TableExpected kernel.Expr → TableReplacement kernel.Value → TableCall
    editing : kernel.Symbol → (old new : String) → Bool → TableCall
    editing_lines : kernel.Symbol → (start end : ℕ) → String → TableCall
    listing reading_all counting emptying : TableCall

  module _ (capabilities : List String) where
    -- The state after a call of the table over a port.
    unfoldable pub perform : MemoryHostDirPort → TableCall → ModelState → ModelState
    perform self (getting key) state = (TableFs.get port kernel capabilities key self state).1
    perform self (having key) state = (TableFs.has port kernel capabilities key self state).1
    perform self (deleting key) state = (TableFs.del port kernel capabilities key self state).1
    perform self (making key) state = (TableFs.mkdir port kernel capabilities key self state).1
    perform self (opening key) state = (TableFs.opendir port kernel capabilities key self state).1
    perform self (removing key) state = (TableFs.rmdir port kernel capabilities key self state).1
    perform self (testing key) state = (TableFs.is_dir port kernel capabilities key self state).1
    perform self (setting key v) state = (TableFs.set port kernel capabilities key v self state).1
    perform self (exchanging key expected replacement) state =
        (TableFs.compare_exchange port kernel capabilities key expected replacement self state).1
    perform self (editing key old new replace_all) state =
        (TableFs.edit port kernel capabilities key old new replace_all self state).1
    perform self (editing_lines key start end new) state =
        (TableFs.edit_lines port kernel capabilities key start end new self state).1
    perform self listing state = (Listing.keys port kernel capabilities self state).1
    perform self reading_all state = (Listing.entries port kernel capabilities self state).1
    perform self counting state = (Listing.table_len port kernel capabilities self state).1
    perform self emptying state = (Listing.clear port kernel capabilities self state).1

    unfoldable pub run : List (MemoryHostDirPort × TableCall) → ModelState → ModelState
    run [] state = state
    run ((self, call) ∷ calls) state = run calls (perform self call state)
