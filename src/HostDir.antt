-- ===== src/HostDir.antt =====
-- crates/sim-table-fs/src/adapters.rs: the in-memory realization of the host-directory port. The state
-- that the clones and children of a port share is passed on: an operation takes it last, and returns its
-- result and the state after it.
pub mod Store
pub mod Laws
pub mod Exchange
pub mod History
pub mod Quota
pub mod Confined
mod Tests
use sim_platform.Prelude.{
  ℕ, ◌+◌, ◌-◌, ◌%◌, ◌^◌, String, Bool, true, false, not, ◌||◌, ◌&&◌, Option, none, some, List, [],
  ◌∷◌, ◌++◌, ltb, leb, eqb, if◌then◌else◌, ◌==◌, Eq, text_key, length, any, Result, ok, err,
  refuse_if, ◌>>=◌, ◌>>◌,
}
use sim_platform.Prelude.Maps.{get, insert, values}
use sim_platform.Prelude.Text.{text_before}
use sim_platform.HostDir.Store.{Segments, segments_key, starts_with, last_segment, put, retain}

-- What the adapter uses of `sim_storage_port` (the kinds of errors) and of `sim_table_core` and the
-- standard library (the tests of one segment).
pub record StoragePort : Type 1 where
  pub Kind : Type 0
  pub escape : Kind
  pub special_file : Kind
  pub not_found : Kind
  pub cancelled : Kind
  pub quota_exceeded : Kind
  pub is_legal_table_segment : String → Bool
  pub is_absolute : String → Bool

pub data HostEntryKind : Type 0 where
  regular directory : HostEntryKind

pub record HostEntry : Type 0 where
  pub name : String
  pub kind : HostEntryKind
  pub len : ℕ

pub data ModelEntry : Type 0 where
  file : List ℕ → ModelEntry
  dir : ModelEntry

-- The entries of a `BTreeMap` whose order is not observed: `list` orders its rows itself.
pub record ModelState : Type 0 where
  pub entries : List (Segments × ModelEntry)
  pub quota : ℕ

pub record MemoryHostDirPort : Type 0 where
  pub prefix : Segments
  pub label : String

-- `MemoryHostDirPort::new`: the port, and the state that it shares.
abbrev pub new_port : String → MemoryHostDirPort
new_port label = record { prefix = []; label = label }

abbrev pub new_state : ℕ → ModelState
new_state quota = record { entries = []; quota = quota }

-- The kind and the length of an entry, and its length as a number of bytes.
abbrev pub size_of : ModelEntry → ℕ
size_of (file bytes) = length bytes
size_of dir = 0

abbrev pub kind_of : ModelEntry → HostEntryKind
kind_of (file bytes) = regular
kind_of dir = directory

abbrev pub entry_of : Segments → ModelEntry → HostEntry
entry_of path value = record { name = last_segment path; kind = kind_of value; len = size_of value }

abbrev pub total : List (Segments × ModelEntry) → ℕ
total [] = 0
total ((path, value) ∷ entries) = size_of value + total entries

-- The sum of the lengths, as a `u64`.
abbrev pub used_bytes : ModelState → ℕ
used_bytes state = total state.entries % 2 ^ 64

abbrev pub file_size : Option ModelEntry → ℕ
file_size none = 0
file_size (some value) = size_of value

-- `used - old + len > quota`, on `u64`: `old` is part of `used`.
abbrev pub is_over_quota : ModelState → (old len : ℕ) → Bool
is_over_quota state old len = ltb state.quota ((used_bytes state - old + len) % 2 ^ 64)

abbrev pub lookup : Segments → ModelState → Option ModelEntry
lookup path state = get ⦃e = segments_key⦄ path state.entries

abbrev pub store : Segments → ModelEntry → ModelState → ModelState
store path value state = record state { entries = put path value state.entries }

abbrev pub same_bytes : List ℕ → List ℕ → Bool
same_bytes [] [] = true
same_bytes [] (y ∷ ys) = false
same_bytes (x ∷ xs) [] = false
same_bytes (x ∷ xs) (y ∷ ys) = eqb x y && same_bytes xs ys

-- `observed.as_deref() == expected`
abbrev pub same_contents : Option (List ℕ) → Option (List ℕ) → Bool
same_contents none none = true
same_contents none (some b) = false
same_contents (some a) none = false
same_contents (some a) (some b) = same_bytes a b

abbrev pub length_of : Option (List ℕ) → ℕ
length_of none = 0
length_of (some bytes) = length bytes

abbrev pub is_root : Segments → Bool
is_root [] = true
is_root (part ∷ path) = false

-- `entry(full).or_insert(Dir)`
abbrev pub or_insert : Segments → Option ModelEntry → ModelState → ModelState
or_insert key (some value) state = state
or_insert key none state = store key dir state

abbrev pub is_dir : Option ModelEntry → Bool
is_dir (some dir) = true
is_dir _ = false

module _ (port : StoragePort) where
  pub record HostDirError : Type 0 where
    pub kind : port.Kind
    pub message : String

  abbrev pub PortResult : Type 0 → Type 0
  PortResult A = Result HostDirError A

  abbrev pub error : port.Kind → String → HostDirError
  error kind message = record { kind = kind; message = message }

  abbrev pub is_illegal : String → Bool
  is_illegal part = not (port.is_legal_table_segment part) || port.is_absolute part

  unfoldable pub validate : Segments → PortResult (Unit {0})
  validate path =
      if any is_illegal path
      then err (error port.escape "table/fs: illegal relative path")
      else ok tt

  unfoldable pub full : MemoryHostDirPort → Segments → PortResult Segments
  full self path = do validate path; ok (self.prefix ++ path)

  abbrev pub is_child_of : Segments → Segments → Bool
  is_child_of base path = eqb (length path) (length base + 1) && starts_with path base

  -- The loop over the entries, in which a row replaces one of the same name.
  unfoldable pub rows_of :
      Segments
      → List (String × HostEntry)
      → List (Segments × ModelEntry)
      → List (String × HostEntry)
  rows_of base rows [] = rows
  rows_of base rows ((path, value) ∷ entries) =
      rows_of base
        (if is_child_of base path
          then insert text_before (last_segment path) (entry_of path value) rows
          else rows)
        entries

  unfoldable pub list : MemoryHostDirPort → Segments → ModelState → PortResult (List HostEntry)
  list self path state = do base ← full self path; ok (values (rows_of base [] state.entries))

  abbrev pub describe : Segments → Option ModelEntry → Option HostEntry
  describe path none = none
  describe path (some value) = some (entry_of path value)

  unfoldable pub metadata :
      MemoryHostDirPort → Segments → ModelState → PortResult (Option HostEntry)
  metadata self path state = do key ← full self path; ok (describe key (lookup key state))

  abbrev pub contents : Option ModelEntry → PortResult (List ℕ)
  contents none = err (error port.not_found "entry not found")
  contents (some (file bytes)) = ok bytes
  contents (some dir) = err (error port.special_file "entry is a directory")

  unfoldable pub read : MemoryHostDirPort → Segments → ModelState → PortResult (List ℕ)
  read self path state = do key ← full self path; contents (lookup key state)

  -- The new state of a write, or its refusal, which leaves the state as it was.
  abbrev pub commit :
      {A : Type 0} → ModelState → PortResult (A × ModelState) → PortResult A × ModelState
  commit state (err e) = (err e, state)
  commit state (ok (a, state')) = (ok a, state')

  unfoldable pub replaced :
      MemoryHostDirPort → Segments → List ℕ → Bool → ModelState → PortResult (Unit {0} × ModelState)
  replaced self path bytes is_cancelled state = do
    refuse_if is_cancelled (error port.cancelled "write cancelled")
    key ← full self path
    refuse_if (is_over_quota state (file_size (lookup key state)) (length bytes))
        (error port.quota_exceeded "storage quota exceeded")
    ok (tt, store key (file bytes) state)

  -- `is_cancelled` is what the cancellation says when it is asked.
  unfoldable pub replace :
      MemoryHostDirPort → Segments → List ℕ → Bool → ModelState → PortResult (Unit {0}) × ModelState
  replace self path bytes is_cancelled state =
      commit state (replaced self path bytes is_cancelled state)

  pub record HostCompareExchange : Type 0 where
    pub exchanged : Bool
    pub observed : Option (List ℕ)

  abbrev pub observe : Option ModelEntry → PortResult (Option (List ℕ))
  observe none = ok none
  observe (some (file bytes)) = ok (some bytes)
  observe (some dir) = err (error port.special_file "entry is a directory")

  -- The exchange itself, after the contents were found as expected.
  unfoldable pub exchange :
      Segments → Option (List ℕ) → Option (List ℕ) → ModelState → PortResult ModelState
  exchange key observed none state = ok (record state {
    entries = retain (λ path. not (◌==◌ ⦃key = segments_key⦄ path key)) state.entries;
  })
  exchange key observed (some bytes) state = do
    refuse_if (is_over_quota state (length_of observed) (length bytes))
        (error port.quota_exceeded "storage quota exceeded")
    ok (store key (file bytes) state)

  unfoldable pub exchanged_state :
      MemoryHostDirPort
      → Segments
      → (expected replacement : Option (List ℕ)) → (before after : Bool) → ModelState
      → PortResult (HostCompareExchange × ModelState)
  exchanged_state self path expected replacement before after state = do
    refuse_if (is_root path) (error port.escape "compare-exchange requires a leaf path")
    refuse_if before (error port.cancelled "write cancelled")
    key ← full self path
    observed ← observe (lookup key state)
    refuse_if after (error port.cancelled "write cancelled")
    let exchanged = same_contents observed expected
    state' ← if exchanged then exchange key observed replacement state else ok state
    ok (record { exchanged = exchanged; observed = observed }, state')

  -- `before` and `after` are what the cancellation says in front of the read and behind it.
  unfoldable pub compare_exchange :
      MemoryHostDirPort
      → Segments
      → (expected replacement : Option (List ℕ)) → (before after : Bool) → ModelState
      → PortResult HostCompareExchange × ModelState
  compare_exchange self path expected replacement before after state =
      commit state (exchanged_state self path expected replacement before after state)

  abbrev pub removable : Option ModelEntry → PortResult (Unit {0})
  removable none = err (error port.not_found "entry not found")
  removable (some (file bytes)) = ok tt
  removable (some dir) = err (error port.special_file "entry is a directory")

  -- A directory that was taken out is put back.
  unfoldable pub removed :
      MemoryHostDirPort → Segments → ModelState → PortResult (Unit {0} × ModelState)
  removed self path state = do
    key ← full self path
    removable (lookup key state)
    ok (
      tt,
      record state { entries = retain (λ p. not (◌==◌ ⦃key = segments_key⦄ p key)) state.entries },
    )

  unfoldable pub remove_file :
      MemoryHostDirPort → Segments → ModelState → PortResult (Unit {0}) × ModelState
  remove_file self path state = commit state (removed self path state)

  unfoldable pub created :
      MemoryHostDirPort → Segments → ModelState → PortResult (Unit {0} × ModelState)
  created self path state = do key ← full self path; ok (tt, or_insert key (lookup key state) state)

  unfoldable pub create_dir :
      MemoryHostDirPort → Segments → ModelState → PortResult (Unit {0}) × ModelState
  create_dir self path state = commit state (created self path state)

  unfoldable pub cleared :
      MemoryHostDirPort → Segments → ModelState → PortResult (Unit {0} × ModelState)
  cleared self path state = do
    key ← full self path
    refuse_if (not (is_dir (lookup key state))) (error port.not_found "directory not found")
    ok (tt, record state { entries = retain (λ p. not (starts_with p key)) state.entries })

  unfoldable pub remove_dir_all :
      MemoryHostDirPort → Segments → ModelState → PortResult (Unit {0}) × ModelState
  remove_dir_all self path state = commit state (cleared self path state)

  unfoldable pub child : MemoryHostDirPort → String → PortResult MemoryHostDirPort
  child self name = do validate (name ∷ []); ok (record self { prefix = self.prefix ++ name ∷ [] })
