-- ===== src/TableFs.antt =====
-- crates/sim-table-fs/src/fs_dir.rs and src/dir_edit.rs: the table and the directory of `FsDir`, over the in-memory host
-- directory, with no optional format feature. An operation takes the granted capabilities, its arguments
-- and the port, and acts on the shared state.
pub mod Leaf
pub mod Steps
mod Candidates
pub mod Edit
pub mod Find
mod Leaves
pub mod Calls
mod Tests
pub mod Effects
mod Refused
pub mod Listing
mod Reads
pub mod RoundTrip
use sim_platform.Prelude.{
  ℕ, String, Bool, true, false, not, ◌&&◌, ◌||◌, Option, none, some, List, [], ◌∷◌, text_key, ◌==◌,
  Result, ok, err, map_err,
}
use sim_platform.Prelude
use sim_platform.HostDir
use sim_platform.HostDir.Store.{Segments, same_segments}
use sim_platform.HostDir.{
  StoragePort, HostEntry, HostEntryKind, regular, directory, ModelState, MemoryHostDirPort,
  PortResult, HostCompareExchange, metadata, replace, remove_file, create_dir, remove_dir_all,
  child,
}
use sim_platform.TableFs.Edit.{EditError, apply_edit, apply_edit_lines}
use sim_platform.TableFs.Leaf.{
  expects_string, edit_failed, Kernel, is_some, FsError, FsResult, port_error, is_a_directory,
  is_a_file, not_a_directory, failed, require_table_fs_read, require_table_fs_write, segment,
  leaf_name, leaf_candidates, leaf_path_for_read, read_leaf_path, read_leaf_expr, encode_leaf_expr,
  decode_leaf_bytes,
}
use sim_platform.TableFs.Steps.{Action, ◌>>=◌, ◌>>◌, lift, reading, raise_if}

abbrev pub default_ext : String
default_ext = "siml"

abbrev pub is_directory : Option HostEntry → Bool
is_directory none = false
is_directory (some entry) = elim entry.kind [ regular ↦ false | directory ↦ true ]

pub data TableExpected (Expr : Type 0) : Type 0 where
  absent : TableExpected Expr
  present : Expr → TableExpected Expr

pub data TableReplacement (Value : Type 0) : Type 0 where
  delete : TableReplacement Value
  value : Value → TableReplacement Value

pub data TableObserved (Expr : Type 0) : Type 0 where
  nothing : TableObserved Expr
  seen : Expr → TableObserved Expr

pub record TableCompareExchange (Expr : Type 0) : Type 0 where
  pub exchanged : Bool
  pub observed : TableObserved Expr

module _ (port : StoragePort) (kernel : Kernel) where
  abbrev pub Fs : Type 0 → Type 0
  Fs A = Action (FsError port kernel) A

  abbrev pub Leaf : Type 0
  Leaf = Segments × String

  -- A call of the port.
  abbrev pub calling : {A : Type 0} → (ModelState → PortResult port A × ModelState) → Fs A
  calling f state = let (r, after) = f state in (map_err port_error r, after)

  abbrev pub kernel_result : {A : Type 0} → Result kernel.Failure A → Fs A
  kernel_result r = lift (map_err failed r)

  abbrev pub entry_at : Segments → MemoryHostDirPort → Fs (Option HostEntry)
  entry_at path self = reading (λ state. map_err port_error (metadata port self path state))

  abbrev pub value_of : kernel.Symbol → Option Leaf → MemoryHostDirPort → Fs kernel.Value
  value_of key none self = kernel_result kernel.nil_value
  value_of key (some leaf) self = do
    found ← reading (read_leaf_expr port kernel key self)
    kernel_result (kernel.expr_value found.2)

  unfoldable pub get : List String → kernel.Symbol → MemoryHostDirPort → Fs kernel.Value
  get capabilities key self = do
    lift (require_table_fs_read port kernel capabilities)
    leaf ← reading (leaf_path_for_read port kernel key self)
    value_of key leaf self

  abbrev pub is_leaf : Segments → Option Leaf → Bool
  is_leaf path none = false
  is_leaf path (some leaf) = same_segments path leaf.0

  abbrev pub remove_unless : Bool → Segments → MemoryHostDirPort → Fs (Unit {0})
  remove_unless true path self = lift (ok tt)
  remove_unless false path self = calling (remove_file port self path)

  -- The loop of `set` over the candidates, which removes those in the place of the leaf.
  unfoldable pub remove_others : Option Leaf → List Leaf → MemoryHostDirPort → Fs (Unit {0})
  remove_others existing [] self = lift (ok tt)
  remove_others existing ((path, ext) ∷ rest) self = do
    remove_unless (is_leaf path existing || ext == default_ext) path self
    remove_others existing rest self

  -- `infer_ext_from_expr` names no extension without the format features.
  abbrev pub ext_of : Option Leaf → String
  ext_of none = default_ext
  ext_of (some leaf) = leaf.1

  unfoldable pub set :
      List String → kernel.Symbol → kernel.Value → MemoryHostDirPort → Fs (Unit {0})
  set capabilities key v self = do
    lift (require_table_fs_write port kernel capabilities)
    base ← lift (segment port kernel key)
    entry ← entry_at base self
    raise_if (is_directory entry) (is_a_directory key)
    existing ← reading (leaf_path_for_read port kernel key self)
    candidates ← reading (leaf_candidates port kernel key self)
    remove_others existing candidates self
    expr ← kernel_result (kernel.as_expr v)
    path ← lift (leaf_name port kernel key (ext_of existing))
    bytes ← lift (encode_leaf_expr port kernel (ext_of existing) expr)
    calling (replace port self path bytes false)

  abbrev pub has_leaf : Bool → kernel.Symbol → MemoryHostDirPort → Fs Bool
  has_leaf true key self = lift (ok true)
  has_leaf false key self = do
    leaf ← reading (leaf_path_for_read port kernel key self)
    lift (ok (is_some leaf))

  unfoldable pub has : List String → kernel.Symbol → MemoryHostDirPort → Fs Bool
  has capabilities key self = do
    lift (require_table_fs_read port kernel capabilities)
    path ← lift (segment port kernel key)
    entry ← entry_at path self
    has_leaf (is_directory entry) key self

  abbrev pub del_leaf : Option Leaf → MemoryHostDirPort → Fs kernel.Value
  del_leaf none self = kernel_result kernel.nil_value
  del_leaf (some leaf) self = do
    expr ← reading (read_leaf_path port kernel leaf.0 leaf.1 self)
    calling (remove_file port self leaf.0)
    kernel_result (kernel.expr_value expr)

  unfoldable pub del : List String → kernel.Symbol → MemoryHostDirPort → Fs kernel.Value
  del capabilities key self = do
    lift (require_table_fs_read port kernel capabilities)
    lift (require_table_fs_write port kernel capabilities)
    leaf ← reading (leaf_path_for_read port kernel key self)
    del_leaf leaf self

  abbrev pub replacement_expr :
      TableReplacement kernel.Value → FsResult port kernel (Option kernel.Expr)
  replacement_expr delete = ok none
  replacement_expr (value v) = Prelude.◌>>=◌ (map_err failed (kernel.as_expr v)) λ e. ok (some e)

  -- The path of the leaf, or that which it would get; the name is computed either way.
  abbrev pub path_of : Option Leaf → Segments → Segments
  path_of none path = path
  path_of (some leaf) path = leaf.0

  abbrev pub encoded : String → Option kernel.Expr → FsResult port kernel (Option (List ℕ))
  encoded ext none = ok none
  encoded ext (some e) = Prelude.◌>>=◌ (encode_leaf_expr port kernel ext e) λ bytes. ok (some bytes)

  abbrev pub expected_expr : TableExpected kernel.Expr → Option kernel.Expr
  expected_expr absent = none
  expected_expr (present e) = some e

  abbrev pub observed_in :
      String → Option (List ℕ) → FsResult port kernel (TableObserved kernel.Expr)
  observed_in ext none = ok nothing
  observed_in ext (some bytes) =
      Prelude.◌>>=◌ (decode_leaf_bytes port kernel ext bytes) λ e. ok (seen e)

  unfoldable pub compare_exchange :
      List String
      → kernel.Symbol
      → TableExpected kernel.Expr
      → TableReplacement kernel.Value
      → MemoryHostDirPort
      → Fs (TableCompareExchange kernel.Expr)
  compare_exchange capabilities key expected replacement self = do
    lift (require_table_fs_read port kernel capabilities)
    lift (require_table_fs_write port kernel capabilities)
    existing ← reading (leaf_path_for_read port kernel key self)
    new ← lift (replacement_expr replacement)
    named ← lift (leaf_name port kernel key (ext_of existing))
    expected_bytes ← lift (encoded (ext_of existing) (expected_expr expected))
    replacement_bytes ← lift (encoded (ext_of existing) new)
    outcome ← calling (
        HostDir.compare_exchange port self (path_of existing named) expected_bytes replacement_bytes
          false false)
    observed ← lift (observed_in (ext_of existing) outcome.observed)
    lift (ok (record { exchanged = outcome.exchanged; observed = observed }))

  unfoldable pub mkdir : List String → kernel.Symbol → MemoryHostDirPort → Fs kernel.Value
  mkdir capabilities name self = do
    lift (require_table_fs_write port kernel capabilities)
    path ← lift (segment port kernel name)
    leaf ← reading (leaf_path_for_read port kernel name self)
    raise_if (is_some leaf) (is_a_file name)
    calling (create_dir port self path)
    inner ← lift (map_err port_error (child port self (kernel.name_of name)))
    kernel_result (kernel.dir_value inner)

  abbrev pub open_child : kernel.Symbol → MemoryHostDirPort → Fs (Option kernel.Value)
  open_child name self = do
    inner ← lift (map_err port_error (child port self (kernel.name_of name)))
    opened ← kernel_result (kernel.dir_value inner)
    lift (ok (some opened))

  -- What `opendir` answers where there is no directory: an entry at the path, or a leaf, is an error.
  abbrev pub no_dir : Bool → kernel.Symbol → MemoryHostDirPort → Fs (Option kernel.Value)
  no_dir true name self = lift (err (not_a_directory name))
  no_dir false name self = do
    leaf ← reading (leaf_path_for_read port kernel name self)
    raise_if (is_some leaf) (not_a_directory name)
    lift (ok none)

  abbrev pub open_as :
      Bool → Option HostEntry → kernel.Symbol → MemoryHostDirPort → Fs (Option kernel.Value)
  open_as true entry name self = open_child name self
  open_as false entry name self = no_dir (is_some entry) name self

  unfoldable pub opendir :
      List String → kernel.Symbol → MemoryHostDirPort → Fs (Option kernel.Value)
  opendir capabilities name self = do
    lift (require_table_fs_read port kernel capabilities)
    path ← lift (segment port kernel name)
    entry ← entry_at path self
    open_as (is_directory entry) entry name self

  unfoldable pub rmdir : List String → kernel.Symbol → MemoryHostDirPort → Fs kernel.Value
  rmdir capabilities name self = do
    lift (require_table_fs_write port kernel capabilities)
    path ← lift (segment port kernel name)
    entry ← entry_at path self
    raise_if (not (is_directory entry)) (not_a_directory name)
    calling (remove_dir_all port self path)
    kernel_result kernel.nil_value

  unfoldable pub is_dir : List String → kernel.Symbol → MemoryHostDirPort → Fs Bool
  is_dir capabilities name self = do
    lift (require_table_fs_read port kernel capabilities)
    path ← lift (segment port kernel name)
    entry ← entry_at path self
    lift (ok (is_directory entry))

  abbrev pub expect_text : kernel.Symbol → Option String → FsResult port kernel String
  expect_text key none = err (expects_string key)
  expect_text key (some text) = ok text

  -- src/dir_edit.rs: an edit of the text of a leaf.
  unfoldable pub edit_text_leaf :
      List String
      → kernel.Symbol
      → (String → Result EditError String)
      → MemoryHostDirPort
      → Fs (Unit {0})
  edit_text_leaf capabilities key change self = do
    lift (require_table_fs_read port kernel capabilities)
    lift (require_table_fs_write port kernel capabilities)
    kernel_result (kernel.require capabilities "edit")
    found ← reading (read_leaf_expr port kernel key self)
    text ← lift (expect_text key (kernel.text_of found.2))
    edited ← lift (map_err edit_failed (change text))
    bytes ← lift (encode_leaf_expr port kernel found.1 (kernel.string_expr edited))
    calling (replace port self found.0 bytes false)

  unfoldable pub edit :
      List String → kernel.Symbol → (old new : String) → Bool → MemoryHostDirPort → Fs (Unit {0})
  edit capabilities key old new replace_all =
      edit_text_leaf capabilities key (λ text. apply_edit text old new replace_all)

  unfoldable pub edit_lines :
      List String → kernel.Symbol → (start end : ℕ) → String → MemoryHostDirPort → Fs (Unit {0})
  edit_lines capabilities key start end new =
      edit_text_leaf capabilities key (λ text. apply_edit_lines text start end new)
