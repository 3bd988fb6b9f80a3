-- ===== src/TableFs/Leaf.antt =====
-- crates/sim-table-fs/src/capabilities.rs and src/fs_dir/leaf_io.rs: the tests of capabilities, the leaf
-- files of a key, and their codecs, as the crate is built without its optional format features.
use Prim.Native.String
use sim_platform.Prelude.{
  ℕ, String, Bool, true, false, ◌||◌, Option, none, some, List, [], ◌∷◌, if◌then◌else◌, contains,
  any, text_key, ◌==◌, Result, ok, err, map_err, ◌>>=◌,
}
use sim_platform.TableFs.Edit.{EditError}
use sim_platform.HostDir.Store.{Segments}
use sim_platform.HostDir.{
  StoragePort, ModelState, MemoryHostDirPort, HostDirError, is_illegal, metadata, read,
}

-- What the crate uses of `sim_kernel` and `sim_codec`: symbols with their order, expressions (`text_of` matches
-- `Expr::String`) and values, the codecs, whose output is its bytes, `cx.require`, and the matcher that
-- `globset` makes of a pattern.
pub record Kernel : Type 1 where
  pub Symbol : Type 0
  pub Expr : Type 0
  pub Value : Type 0
  pub Failure : Type 0
  pub name_of : Symbol → String
  pub new_symbol : String → Symbol
  pub same_symbol : Symbol → Symbol → Bool
  pub symbol_before : Symbol → Symbol → Bool
  pub qualified : String → String → Symbol
  pub encode_with_codec : Symbol → Expr → Result Failure (List ℕ)
  pub decode_with_codec : Symbol → List ℕ → Result Failure Expr
  pub as_expr : Value → Result Failure Expr
  pub expr_value : Expr → Result Failure Value
  pub nil_value : Result Failure Value
  pub dir_value : MemoryHostDirPort → Result Failure Value
  pub text_of : Expr → Option String
  pub string_expr : String → Expr
  pub glob_matcher : String → Result Failure (String → Bool)
  pub require : List String → String → Result Failure (Unit {0})

abbrev pub fs_read_aliases : List String
fs_read_aliases = "table.fs.read" ∷ "stream.file.read" ∷ "file-read" ∷ []

abbrev pub fs_write_aliases : List String
fs_write_aliases =
    "table.fs.write" ∷ "table.fs.mkdir" ∷ "table.fs.rmdir" ∷ "stream.file.write" ∷ "file-write" ∷ []

-- `known_exts()`
abbrev pub known_exts : List String
known_exts = "siml" ∷ "simb" ∷ "simb64" ∷ "simj" ∷ "sima" ∷ []

abbrev pub is_some : {A : Type 0} → Option A → Bool
is_some none = false
is_some (some a) = true

module _ (port : StoragePort) (kernel : Kernel) where
  -- The errors, each with what its message prints.
  pub data FsError : Type 0 where
    capability_denied : String → FsError
    illegal_name : String → FsError
    port_error : HostDirError port → FsError
    unknown_extension : String → FsError
    multiple_leaves not_a_file is_a_directory is_a_file not_a_directory expects_string :
        kernel.Symbol → FsError
    edit_failed : EditError → FsError
    failed : kernel.Failure → FsError

  abbrev pub FsResult : Type 0 → Type 0
  FsResult A = Result FsError A

  unfoldable pub require_with_aliases : List String → String → List String → FsResult (Unit {0})
  require_with_aliases capabilities canonical aliases =
      if contains capabilities canonical || any (λ alias. contains capabilities alias) aliases
      then ok tt
      else err (capability_denied canonical)

  unfoldable pub require_table_fs_read : List String → FsResult (Unit {0})
  require_table_fs_read capabilities = require_with_aliases capabilities "fs/read" fs_read_aliases

  unfoldable pub require_table_fs_write : List String → FsResult (Unit {0})
  require_table_fs_write capabilities =
      require_with_aliases capabilities "fs/write" fs_write_aliases

  unfoldable pub segment : kernel.Symbol → FsResult Segments
  segment name =
      if is_illegal port (kernel.name_of name)
      then err (illegal_name (kernel.name_of name))
      else ok (kernel.name_of name ∷ [])

  abbrev pub leaf_text : kernel.Symbol → String → String
  leaf_text name ext = String.◌++◌ (String.◌++◌ (kernel.name_of name) ".") ext

  unfoldable pub leaf_name : kernel.Symbol → String → FsResult Segments
  leaf_name name ext = do own ← segment name; segment (kernel.new_symbol (leaf_text name ext))

  -- A leaf file: its path and its extension.
  abbrev pub Leaf : Type 0
  Leaf = Segments × String

  abbrev pub with_leaf : Bool → Leaf → List Leaf → List Leaf
  with_leaf true leaf rest = leaf ∷ rest
  with_leaf false leaf rest = rest

  -- The loop of `leaf_candidates` over the extensions.
  unfoldable pub candidates_among :
      List String → kernel.Symbol → MemoryHostDirPort → ModelState → FsResult (List Leaf)
  candidates_among [] name self state = ok []
  candidates_among (ext ∷ exts) name self state = do
    path ← leaf_name name ext
    entry ← map_err port_error (metadata port self path state)
    rest ← candidates_among exts name self state
    ok (with_leaf (is_some entry) (path, ext) rest)

  unfoldable pub leaf_candidates :
      kernel.Symbol → MemoryHostDirPort → ModelState → FsResult (List Leaf)
  leaf_candidates = candidates_among known_exts

  abbrev pub the_leaf : kernel.Symbol → List Leaf → FsResult (Option Leaf)
  the_leaf name [] = ok none
  the_leaf name (leaf ∷ []) = ok (some leaf)
  the_leaf name (leaf ∷ other ∷ rest) = err (multiple_leaves name)

  unfoldable pub leaf_path_for_read :
      kernel.Symbol → MemoryHostDirPort → ModelState → FsResult (Option Leaf)
  leaf_path_for_read name self state = do
    matches ← leaf_candidates name self state
    the_leaf name matches

  unfoldable pub codec_for_ext : String → FsResult kernel.Symbol
  codec_for_ext ext =
      if ext == "siml"
      then ok (kernel.qualified "codec" "lisp")
      else if ext == "simb"
      then ok (kernel.qualified "codec" "binary")
      else if ext == "simb64"
      then ok (kernel.qualified "codec" "binary-base64")
      else if ext == "simj"
      then ok (kernel.qualified "codec" "json")
      else if ext == "sima"
      then ok (kernel.qualified "codec" "algol")
      else err (unknown_extension ext)

  unfoldable pub decode_leaf_bytes : String → List ℕ → FsResult kernel.Expr
  decode_leaf_bytes ext bytes = do
    codec ← codec_for_ext ext
    map_err failed (kernel.decode_with_codec codec bytes)

  -- Whatever the extension, the codec is that of Lisp text.
  unfoldable pub encode_leaf_expr : String → kernel.Expr → FsResult (List ℕ)
  encode_leaf_expr ext expr =
      map_err failed (kernel.encode_with_codec (kernel.qualified "codec" "lisp") expr)

  unfoldable pub read_leaf_path :
      Segments → String → MemoryHostDirPort → ModelState → FsResult kernel.Expr
  read_leaf_path path ext self state = do
    bytes ← map_err port_error (read port self path state)
    decode_leaf_bytes ext bytes

  abbrev pub or_not_a_file : kernel.Symbol → Option Leaf → FsResult Leaf
  or_not_a_file key none = err (not_a_file key)
  or_not_a_file key (some leaf) = ok leaf

  unfoldable pub read_leaf_expr :
      kernel.Symbol → MemoryHostDirPort → ModelState → FsResult (Segments × String × kernel.Expr)
  read_leaf_expr key self state = do
    found ← leaf_path_for_read key self state
    leaf ← or_not_a_file key found
    expr ← read_leaf_path leaf.0 leaf.1 self state
    ok (leaf.0, leaf.1, expr)
