-- ===== src/TableFs/Listing.antt =====
-- crates/sim-table-fs/src/fs_dir.rs: what a table of `FsDir` lists, `keys`, `entries` and `len`, and `clear`.
mod Rows
pub mod Laws
use Prim.Native.String
use Prim.Native.String.{◌++◌}
use sim_platform.Prelude.{
  ℕ, String, Bool, true, false, Option, none, some, List, [], ◌∷◌, if◌then◌else◌, text_key, ◌==◌,
  length, ok, map_err,
}
use sim_platform.HostDir.{StoragePort, HostEntry, MemoryHostDirPort, list}
use sim_platform.TableFs.Edit.{has_prefix}
use sim_platform.TableFs.Leaf.{
  Kernel, known_exts, port_error, require_table_fs_read, require_table_fs_write,
}
use sim_platform.TableFs.Steps.{◌>>=◌, ◌>>◌, lift, reading}
use sim_platform.TableFs.{Fs, is_directory, is_dir, get, del}

abbrev pub in_front : String → Option String → Option String
in_front c none = none
in_front c (some s) = some (c ++ s)

-- `name.strip_suffix(suffix)`
unfoldable pub strip_suffix : String → String → Option String
strip_suffix suffix String.[] = if suffix == "" then some "" else none
strip_suffix suffix (String.◌∷◌ c s) =
    let rest = strip_suffix suffix s in
    if String.◌∷◌ c s == suffix then some "" else in_front (String.◌∷◌ c "") rest

abbrev pub or_else : Option String → Option String → Option String
or_else none other = other
or_else (some s) other = some s

abbrev pub stem_among : List String → String → Option String
stem_among [] name = none
stem_among (ext ∷ exts) name = or_else (strip_suffix ("." ++ ext) name) (stem_among exts name)

-- The name of the key of an entry, where it has one.
abbrev pub key_of : HostEntry → Option String
key_of entry =
    if has_prefix "." entry.name
    then none
    else if is_directory (some entry)
    then some entry.name
    else stem_among known_exts entry.name

module _ (port : StoragePort) (kernel : Kernel) where
  -- `BTreeSet::insert`, by the order of symbols.
  unfoldable pub insert : kernel.Symbol → List kernel.Symbol → List kernel.Symbol
  insert key [] = key ∷ []
  insert key (k ∷ ks) =
      let rest = insert key ks in
      if kernel.same_symbol k key
      then k ∷ ks
      else if kernel.symbol_before key k
      then key ∷ k ∷ ks
      else k ∷ rest

  abbrev pub with_key : Option String → List kernel.Symbol → List kernel.Symbol
  with_key none ks = ks
  with_key (some name) ks = insert (kernel.new_symbol name) ks

  -- The loop of `keys` over the entries.
  unfoldable pub keys_among : List kernel.Symbol → List HostEntry → List kernel.Symbol
  keys_among ks [] = ks
  keys_among ks (entry ∷ rest) = keys_among (with_key (key_of entry) ks) rest

  unfoldable pub keys : List String → MemoryHostDirPort → Fs port kernel (List kernel.Symbol)
  keys capabilities self = do
    lift (require_table_fs_read port kernel capabilities)
    listed ← reading (λ state. map_err port_error (list port self [] state))
    lift (ok (keys_among [] listed))

  abbrev pub Entries : Type 0
  Entries = List (kernel.Symbol × kernel.Value)

  -- A key that is no directory, with its value.
  abbrev pub with_entry :
      Bool
      → List String
      → kernel.Symbol
      → MemoryHostDirPort
      → Fs port kernel Entries
      → Fs port kernel Entries
  with_entry true capabilities key self rest = rest
  with_entry false capabilities key self rest = do
    v ← get port kernel capabilities key self
    others ← rest
    lift (ok ((key, v) ∷ others))

  -- The loop of `entries` over the keys.
  unfoldable pub entries_among :
      List String → List kernel.Symbol → MemoryHostDirPort → Fs port kernel Entries
  entries_among capabilities [] self = lift (ok [])
  entries_among capabilities (key ∷ ks) self = do
    inner ← is_dir port kernel capabilities key self
    with_entry inner capabilities key self (entries_among capabilities ks self)

  unfoldable pub entries : List String → MemoryHostDirPort → Fs port kernel Entries
  entries capabilities self = do
    lift (require_table_fs_read port kernel capabilities)
    ks ← keys capabilities self
    entries_among capabilities ks self

  unfoldable pub table_len : List String → MemoryHostDirPort → Fs port kernel ℕ
  table_len capabilities self = do found ← entries capabilities self; lift (ok (length found))

  abbrev pub del_unless :
      Bool → List String → kernel.Symbol → MemoryHostDirPort → Fs port kernel (Unit {0})
  del_unless true capabilities key self = lift (ok tt)
  del_unless false capabilities key self = do del port kernel capabilities key self; lift (ok tt)

  -- The loop of `clear` over the keys.
  unfoldable pub clear_among :
      List String → List kernel.Symbol → MemoryHostDirPort → Fs port kernel (Unit {0})
  clear_among capabilities [] self = lift (ok tt)
  clear_among capabilities (key ∷ ks) self = do
    inner ← is_dir port kernel capabilities key self
    del_unless inner capabilities key self
    clear_among capabilities ks self

  unfoldable pub clear : List String → MemoryHostDirPort → Fs port kernel (Unit {0})
  clear capabilities self = do
    lift (require_table_fs_write port kernel capabilities)
    ks ← keys capabilities self
    clear_among capabilities ks self
