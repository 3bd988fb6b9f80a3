-- ===== src/TableFs/Effects.antt =====
-- What the calls of a table that write do to the host directory, as a map from full paths.
pub mod Steps
pub mod Facts
pub mod Exchange
pub mod Accepts
pub mod Laws
use sim_platform.Prelude.{
  ℕ, String, Bool, true, false, Option, none, some, List, [], ◌∷◌, ◌++◌, ◌≡◌, ◌≢◌, ◌⊎◌, ◌↔◌,
  if◌then◌else◌, Result, ok, err,
}
use sim_platform.HostDir.Store.{Segments, starts_with}
use sim_platform.HostDir.{StoragePort, dir, file, ModelState, MemoryHostDirPort, observe}
use sim_platform.HostDir.Laws.{View, update, file_of, or_dir, view}
use sim_platform.TableFs.Edit.{EditError, apply_edit, apply_edit_lines}
use sim_platform.TableFs.Leaf.{
  Kernel, FsError, Leaf, leaf_text, leaf_path_for_read, read_leaf_path, read_leaf_expr,
  require_table_fs_read, require_table_fs_write,
}
use sim_platform.TableFs.{TableExpected, TableReplacement, delete, value, expected_expr, ext_of, Fs}
use sim_platform.TableFs as TableFs

module _ (port : StoragePort) (kernel : Kernel) where
  -- The calls that write.
  pub data Write : Type 0 where
    setting : kernel.Symbol → kernel.Value → Write
    exchanging : kernel.Symbol → TableExpected kernel.Expr → TableReplacement kernel.Value → Write
    deleting making removing : kernel.Symbol → Write
    editing : kernel.Symbol → (old new : String) → Bool → Write
    editing_lines : kernel.Symbol → (start end : ℕ) → String → Write

  -- Whether a call was accepted, and the state after it.
  abbrev pub verdict :
      {A : Type 0} → Result (FsError port kernel) A × ModelState → Bool × ModelState
  verdict (ok a, state) = (true, state)
  verdict (err e, state) = (false, state)

  abbrev pub lisp : kernel.Symbol
  lisp = kernel.qualified "codec" "lisp"

  -- The Lisp text of an expression that may be absent.
  abbrev pub Encodes : Option kernel.Expr → Option (List ℕ) → Type 0
  Encodes none none = Unit
  Encodes none (some bytes) = ⊥
  Encodes (some e) none = ⊥
  Encodes (some e) (some bytes) = kernel.encode_with_codec lisp e ≡ ok bytes

  abbrev pub Replaces : TableReplacement kernel.Value → Option kernel.Expr → Type 0
  Replaces delete none = Unit
  Replaces delete (some e) = ⊥
  Replaces (value v) none = ⊥
  Replaces (value v) (some e) = kernel.as_expr v ≡ ok e

  module _ (capabilities : List String) (self : MemoryHostDirPort) where
    unfoldable pub write : Write → ModelState → Bool × ModelState
    write (setting key v) state = verdict (TableFs.set port kernel capabilities key v self state)
    write (exchanging key expected new) state =
        verdict (TableFs.compare_exchange port kernel capabilities key expected new self state)
    write (deleting key) state = verdict (TableFs.del port kernel capabilities key self state)
    write (making key) state = verdict (TableFs.mkdir port kernel capabilities key self state)
    write (removing key) state = verdict (TableFs.rmdir port kernel capabilities key self state)
    write (editing key old new replace_all) state =
        verdict (TableFs.edit port kernel capabilities key old new replace_all self state)
    write (editing_lines key start end new) state =
        verdict (TableFs.edit_lines port kernel capabilities key start end new self state)

    abbrev pub MayRead : Type 0
    MayRead = require_table_fs_read port kernel capabilities ≡ ok tt

    abbrev pub MayWrite : Type 0
    MayWrite = require_table_fs_write port kernel capabilities ≡ ok tt

    -- The full path of a name in the directory of the port.
    abbrev pub place : String → Segments
    place name = self.prefix ++ name ∷ []

    module _ (state : ModelState) where
      abbrev pub HasLeaf : kernel.Symbol → Option (Leaf port kernel) → Type 0
      HasLeaf key existing = leaf_path_for_read port kernel key self state ≡ ok existing

      -- The file at a path gets contents, or goes.
      abbrev pub IsUpdated : ModelState → Segments → Option (List ℕ) → Type 0
      IsUpdated after path contents =
          (k : Segments) → view after k ≡ update (view state) path (file_of contents) k

      -- The full path of the leaf file of a key: that which it has, or that which it would get.
      abbrev pub leaf_place : kernel.Symbol → Option (Leaf port kernel) → Segments
      leaf_place key none = place (leaf_text port kernel key "siml")
      leaf_place key (some leaf) = self.prefix ++ leaf.0

      -- A value replaces the leaf file of a key that names no directory.
      abbrev pub Sets : kernel.Symbol → kernel.Value → ModelState → Type 0
      Sets key v after =
          (existing : Option (Leaf port kernel)) × (expr : kernel.Expr) × (bytes : List ℕ)
          × MayWrite
          × (view state (place (kernel.name_of key)) ≢ some dir)
          × HasLeaf key existing
          × (kernel.as_expr v ≡ ok expr)
          × (kernel.encode_with_codec lisp expr ≡ ok bytes)
          × IsUpdated after (place (leaf_text port kernel key (ext_of port kernel existing)))
              (some bytes)

      -- Its text is edited.
      abbrev pub Edits : kernel.Symbol → (String → Result EditError String) → ModelState → Type 0
      Edits key change after =
          (leaf : Leaf port kernel) × (expr : kernel.Expr) × (text : String) × (edited : String)
          × (bytes : List ℕ) × MayRead
          × MayWrite
          × (kernel.require capabilities "edit" ≡ ok tt)
          × (read_leaf_expr port kernel key self state ≡ ok (leaf.0, leaf.1, expr))
          × (kernel.text_of expr ≡ some text)
          × (change text ≡ ok edited)
          × (kernel.encode_with_codec lisp (kernel.string_expr edited) ≡ ok bytes)
          × IsUpdated after (self.prefix ++ leaf.0) (some bytes)

      -- Its leaf file, which can be read, goes.
      abbrev pub Deletes : kernel.Symbol → ModelState → Type 0
      Deletes key after =
          (leaf : Leaf port kernel) × (expr : kernel.Expr) × MayRead
          × MayWrite
          × HasLeaf key (some leaf)
          × (read_leaf_path port kernel leaf.0 leaf.1 self state ≡ ok expr)
          × IsUpdated after (self.prefix ++ leaf.0) none

      -- The file is exchanged where it holds the Lisp text that is expected.
      abbrev pub Exchanges :
          kernel.Symbol
          → TableExpected kernel.Expr
          → TableReplacement kernel.Value
          → ModelState
          → Type 0
      Exchanges key expected new after =
          (existing : Option (Leaf port kernel)) × (expr : Option kernel.Expr) × (wanted : Option
            (List ℕ))
          × (contents : Option (List ℕ)) × (seen : Option (List ℕ)) × (exchanged : Bool) × MayRead
          × MayWrite
          × HasLeaf key existing
          × Replaces new expr
          × Encodes (expected_expr port kernel expected) wanted
          × Encodes expr contents
          × (observe port (view state (leaf_place key existing)) ≡ ok seen)
          × ((exchanged ≡ true) ↔ (seen ≡ wanted))
          × ((k : Segments)
              → view after k ≡ (
                  if exchanged
                  then update (view state) (leaf_place key existing) (file_of contents) k
                  else view state k))

      abbrev pub Makes : kernel.Symbol → ModelState → Type 0
      Makes key after =
          MayWrite
          × HasLeaf key none
          × ((k : Segments)
              → view after k
                ≡ update (view state) (place (kernel.name_of key))
                    (or_dir (view state (place (kernel.name_of key)))) k)

      abbrev pub Removes : kernel.Symbol → ModelState → Type 0
      Removes key after =
          MayWrite
          × (view state (place (kernel.name_of key)) ≡ some dir)
          × ((k : Segments)
              → view after k
                ≡ (if starts_with k (place (kernel.name_of key)) then none else view state k))

      -- What an accepted call has done, and what a refused one.
      abbrev pub Did : Write → Bool × ModelState → Type 0
      Did (setting key v) (true, after) = Sets key v after
      Did (setting key v) (false, after) = after ≡ state
      Did (editing key old new all) (true, after) =
          Edits key (λ text. apply_edit text old new all) after
      Did (editing key old new all) (false, after) = after ≡ state
      Did (editing_lines key start end new) (true, after) =
          Edits key (λ text. apply_edit_lines text start end new) after
      Did (editing_lines key start end new) (false, after) = after ≡ state
      Did (deleting key) (true, after) = ((HasLeaf key none × (after ≡ state)) ⊎ Deletes key after)
      Did (deleting key) (false, after) = (after ≡ state) ⊎ Deletes key after
      Did (making key) (true, after) = Makes key after
      Did (making key) (false, after) = (after ≡ state) ⊎ Makes key after
      Did (removing key) (true, after) = Removes key after
      Did (removing key) (false, after) = (after ≡ state) ⊎ Removes key after
      Did (exchanging key expected new) (true, after) = Exchanges key expected new after
      Did (exchanging key expected new) (false, after) =
          (after ≡ state) ⊎ Exchanges key expected new after
