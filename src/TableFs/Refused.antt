-- ===== src/TableFs/Refused.antt =====
-- The calls of tables without the right to write.
use sim_platform.Prelude.{String, List, [], ◌∷◌, ◌≡◌, refl, ap, ◌∙◌, err, text_key}
use sim_platform.HostDir.{StoragePort, ModelState, MemoryHostDirPort}
use sim_platform.TableFs.Leaf.{Kernel, FsError, require_table_fs_write}
use sim_platform.TableFs.Steps.{next}
use sim_platform.TableFs
use sim_platform.TableFs.{TableExpected, TableReplacement, Fs, calling}
use sim_platform.TableFs.Calls.{
  TableCall, getting, having, deleting, making, opening, removing, testing, setting, exchanging,
  editing, editing_lines, listing, reading_all, counting, emptying, perform, run,
}
use sim_platform.TableFs.Listing as Listing
use sim_platform.TableFs.Reads.{
  unchanged, get_still, has_still, opendir_still, is_dir_still, keys_still, entries_still,
  len_still,
}

module _ (port : StoragePort) (kernel : Kernel) where
  -- Without the right to write.
  module _ (capabilities : List String) (e : FsError port kernel)
      (refused : require_table_fs_write port kernel capabilities ≡ err e) where
    -- A chain that starts with the refused test.
    blocked :
        {A : Type 0} (f : Unit {0} → Fs port kernel A) (state : ModelState)
        → (next f (require_table_fs_write port kernel capabilities, state)).1 ≡ state
    unfolding next
    blocked f state = rw refused

    perform_refused :
        (self : MemoryHostDirPort) (call : TableCall port kernel) (state : ModelState)
        → perform port kernel capabilities self call state ≡ state
    unfolding perform Listing.clear TableFs.del TableFs.mkdir TableFs.rmdir TableFs.set
        TableFs.compare_exchange TableFs.edit TableFs.edit_lines TableFs.edit_text_leaf
    perform_refused self (editing key old new replace_all) state =
        unchanged port kernel state _ _ refl λ u s h. blocked _ s ∙ h
    perform_refused self (editing_lines key start end new) state =
        unchanged port kernel state _ _ refl λ u s h. blocked _ s ∙ h
    perform_refused self (making key) state = blocked _ state
    perform_refused self (removing key) state = blocked _ state
    perform_refused self (setting key v) state = blocked _ state
    perform_refused self (deleting key) state =
        unchanged port kernel state _ _ refl λ u s h. blocked _ s ∙ h
    perform_refused self (exchanging key expected new) state =
        unchanged port kernel state _ _ refl λ u s h. blocked _ s ∙ h
    perform_refused self (getting key) state =
        get_still port kernel capabilities self state key state refl
    perform_refused self (having key) state =
        has_still port kernel capabilities self state key state refl
    perform_refused self (opening key) state =
        opendir_still port kernel capabilities self state key state refl
    perform_refused self (testing key) state =
        is_dir_still port kernel capabilities self state key state refl
    perform_refused self listing state = keys_still port kernel capabilities self state state refl
    perform_refused self reading_all state =
        entries_still port kernel capabilities self state state refl
    perform_refused self counting state = len_still port kernel capabilities self state state refl
    perform_refused self emptying state = blocked _ state

    -- Where the capabilities do not allow writing, no sequence of table calls changes the host directory.
    pub run_refused :
        (calls : List (MemoryHostDirPort × TableCall port kernel)) (state : ModelState)
        → run port kernel capabilities calls state ≡ state
    unfolding run
    run_refused [] state = refl
    run_refused ((self, call) ∷ calls) state =
        ap (run port kernel capabilities calls) (perform_refused self call state)
        ∙ run_refused calls state
