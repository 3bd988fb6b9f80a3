-- ===== src/TableFs/Find.antt =====
-- crates/sim-table-fs/src/find.rs: the walk over a host directory, and the search by a glob.
pub mod Walk
pub mod Laws
use sim_platform.Prelude.{
  ℕ, zero, suc, max, String, Bool, true, false, Option, none, some, List, [], ◌∷◌, ◌++◌, map, leb,
  if◌then◌else◌, length, Result, ok, err, map_err, ◌>>=◌, ◌>>◌,
}
use sim_platform.HostDir.Store.{Segments}
use sim_platform.HostDir.{StoragePort, HostEntry, ModelEntry, ModelState, MemoryHostDirPort, list}
use sim_platform.TableFs.Leaf.{Kernel, FsResult, port_error, failed, require_table_fs_read}
use sim_platform.TableFs.Edit.{has_prefix, joined}
use sim_platform.TableFs.{is_directory}

abbrev pub is_hidden : HostEntry → Bool
is_hidden entry = has_prefix "." entry.name

-- `path.join("/")`
abbrev pub join : Segments → String
join [] = ""
join (p ∷ ps) = joined "/" p ps

-- The length of the longest path.
abbrev pub longest : List (Segments × ModelEntry) → ℕ
longest [] = 0
longest ((path, value) ∷ entries) = max (length path) (longest entries)

pub record FindGlobResult : Type 0 where
  pub paths : List String
  pub truncated : Bool

abbrev pub add_path : String → FindGlobResult → FindGlobResult
add_path path result = record result { paths = path ∷ result.paths }

-- The loop over the paths: a match beyond the bound ends it.
unfoldable pub collect : (String → Bool) → ℕ → ℕ → List Segments → FindGlobResult
collect glob bound found [] = record { paths = []; truncated = false }
collect glob bound found (path ∷ files) =
    let more = add_path (join path) (collect glob bound (suc found) files) in
    let others = collect glob bound found files in
    if glob (join path)
    then (if leb bound found then record { paths = []; truncated = true } else more)
    else others

module _ (port : StoragePort) (kernel : Kernel) where
  -- `none` where the fuel has run out.
  abbrev pub Walked : Type 0
  Walked = Option (FsResult port kernel (List Segments))

  abbrev pub followed : Segments → List Segments → Walked → Walked
  followed path below none = none
  followed path below (some (err e)) = some (err e)
  followed path below (some (ok rest)) = some (ok (path ∷ (below ++ rest)))

  abbrev pub visited : Segments → Walked → Walked → Walked
  visited path none rest = none
  visited path (some (err e)) rest = some (err e)
  visited path (some (ok below)) rest = followed path below rest

  -- The loop over the entries of a directory, which calls `walk` on those that are directories.
  unfoldable pub walk_entries : (Segments → Walked) → Segments → List HostEntry → Walked
  walk_entries deeper prefix [] = some (ok [])
  walk_entries deeper prefix (entry ∷ entries) =
      let rest = walk_entries deeper prefix entries in
      let path = prefix ++ entry.name ∷ [] in
      if is_hidden entry
      then rest
      else visited path (if is_directory (some entry) then deeper path else some (ok [])) rest

  abbrev pub walk_listed :
      (Segments → Walked) → Segments → FsResult port kernel (List HostEntry) → Walked
  walk_listed deeper prefix (err e) = some (err e)
  walk_listed deeper prefix (ok entries) = walk_entries deeper prefix entries

  unfoldable pub walk : ℕ → MemoryHostDirPort → ModelState → Segments → Walked
  walk zero self state prefix = none
  walk (suc fuel) self state prefix =
      walk_listed (walk fuel self state) prefix (map_err port_error (list port self prefix state))

  abbrev pub collected : (String → Bool) → ℕ → Walked → Option (FsResult port kernel FindGlobResult)
  collected glob bound none = none
  collected glob bound (some (err e)) = some (err e)
  collected glob bound (some (ok files)) = some (ok (collect glob bound 0 files))

  abbrev pub search_with :
      FsResult port kernel (String → Bool)
      → ℕ
      → Walked
      → Option (FsResult port kernel FindGlobResult)
  search_with (err e) bound files = some (err e)
  search_with (ok glob) bound files = collected glob bound files

  -- The walk has fuel for the longest path of the host directory.
  unfoldable pub find_glob :
      List String
      → String
      → ℕ
      → MemoryHostDirPort
      → ModelState
      → Option (FsResult port kernel FindGlobResult)
  find_glob capabilities pattern bound self state =
      search_with
        (require_table_fs_read port kernel capabilities
          >> (map_err failed (kernel.require capabilities "find")
              >> map_err failed (kernel.glob_matcher pattern)))
        bound (walk (suc (longest state.entries)) self state [])
