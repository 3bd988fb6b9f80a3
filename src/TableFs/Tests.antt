-- ===== src/TableFs/Tests.antt =====
-- The tables over the in-memory host directory at concrete inputs.
use Prim.Native.String
use mathlib.Core.List.{Memᴰ}
use mathlib.Core.List.Memᴰ.{head, tail}
use sim_platform.Prelude.{
  All, sym, ◌∙◌, ap, ℕ, suc, ◌+◌, String, true, false, not, none, some, List, [], ◌∷◌, ◌≡◌, refl,
  text_key, ◌==◌, Result, ok, err, if◌then◌else◌, map_err, ◌>>=◌, Option,
}
use sim_platform.Prelude.Text.{codes, text_before}
use sim_platform.Prelude.Maps as Maps
use sim_platform.HostDir.Store.{Segments, put, retain, same_segments_iff}
use sim_platform.HostDir as HostDir
use sim_platform.HostDir.{
  StoragePort, ModelEntry, file, dir, ModelState, MemoryHostDirPort, new_port,
}
use sim_platform.TableFs.Leaf as Leaf
use sim_platform.TableFs.Leaf.{Kernel, failed, capability_denied}
use sim_platform.TableFs.Steps.{next}
use sim_platform.TableFs.Edit.{
  pattern_not_found, not_unique, out_of_range, apply_edit, apply_edit_lines, split_inclusive,
  has_prefix,
}
use sim_platform.TableFs.Edit.Laws.{
  Edited, apply_edit-Edited, LinesEdited, apply_edit_lines-LinesEdited,
}
use sim_platform.TableFs
use sim_platform.TableFs.Listing as Listing
use sim_platform.TableFs.Listing.Laws.{Listed, Complete, keys-Listed}
use sim_platform.TableFs.Calls as Calls
use sim_platform.TableFs.Calls.{TableCall, deleting, making, emptying, run}
use sim_platform.TableFs.Find.{walk, walk_entries, collect, longest, find_glob}
use sim_platform.TableFs.Find.Walk.{walk_total}
use sim_platform.TableFs.Find.Laws.{Finds, find_glob-Finds}
use sim_platform.TableFs.RoundTrip.{lisp, get-set, get-set_back}
use sim_platform.TableFs.Effects.{setting, write}
use sim_platform.TableFs.Refused.{run_refused}

abbrev numbered : StoragePort
numbered = record {
  Kind = ℕ;
  escape = 0;
  special_file = 1;
  not_found = 2;
  cancelled = 3;
  quota_exceeded = 4;
  is_legal_table_segment = λ s. not (s == "..");
  is_absolute = λ s. s == "/";
}

-- Expressions are bytes, which the Lisp codec leaves as they are and another one does not know.
abbrev bytes_kernel : Kernel
bytes_kernel = record {
  Symbol = String;
  Expr = List ℕ;
  Value = List ℕ;
  Failure = ℕ;
  name_of = λ s. s;
  new_symbol = λ s. s;
  same_symbol = λ a b. a == b;
  symbol_before = text_before;
  qualified = λ a b. String.◌++◌ a (String.◌++◌ "/" b);
  encode_with_codec = λ codec e. ok e;
  decode_with_codec = λ codec bytes. if codec == "codec/lisp" then ok bytes else err 1;
  as_expr = λ v. ok v;
  expr_value = λ e. ok e;
  nil_value = ok [];
  dir_value = λ p. ok (0 ∷ []);
  text_of = λ e. none;
  string_expr = codes;
  glob_matcher = λ pattern. ok (λ s. has_prefix pattern s);
  require = λ capabilities name. ok tt;
}

abbrev root : MemoryHostDirPort
root = new_port "model"

abbrev rights : List String
rights = "fs/read" ∷ "file-write" ∷ []

-- A file of Lisp text, and one of JSON.
abbrev stored : ModelState
stored = record {
  entries = ("a.siml" ∷ [], file (1 ∷ [])) ∷ ("j.simj" ∷ [], file (2 ∷ [])) ∷ [];
  quota = 100;
}

abbrev set_in : String → Result (Leaf.FsError numbered bytes_kernel) (Unit {0}) × ModelState
set_in key = TableFs.set numbered bytes_kernel rights key (7 ∷ 8 ∷ []) root stored

set_siml : set_in "a" ≡ (ok tt, (set_in "a").1)
unfolding TableFs.set next Leaf.require_table_fs_write Leaf.require_with_aliases Leaf.segment
    HostDir.metadata HostDir.full HostDir.validate Leaf.leaf_path_for_read Leaf.leaf_candidates
    Leaf.candidates_among Leaf.leaf_name TableFs.remove_others Leaf.encode_leaf_expr HostDir.replace
    HostDir.replaced Maps.get put
set_siml = refl

set_simj : set_in "j" ≡ (ok tt, (set_in "j").1)
unfolding TableFs.set next Leaf.require_table_fs_write Leaf.require_with_aliases Leaf.segment
    HostDir.metadata HostDir.full HostDir.validate Leaf.leaf_path_for_read Leaf.leaf_candidates
    Leaf.candidates_among Leaf.leaf_name TableFs.remove_others Leaf.encode_leaf_expr HostDir.replace
    HostDir.replaced Maps.get put
set_simj = refl

may_read : Leaf.require_table_fs_read numbered bytes_kernel rights ≡ ok tt
unfolding Leaf.require_table_fs_read Leaf.require_with_aliases
may_read = refl

-- What was set on the key of a JSON file is not read back.
json_unread : (TableFs.get numbered bytes_kernel rights "j" root (set_in "j").1).0 ≡ err (failed 1)
unfolding TableFs.set TableFs.get next Leaf.require_table_fs_write Leaf.require_with_aliases
    Leaf.segment HostDir.metadata HostDir.full HostDir.validate Leaf.leaf_path_for_read
    Leaf.leaf_candidates Leaf.candidates_among Leaf.leaf_name TableFs.remove_others
    Leaf.encode_leaf_expr HostDir.replace HostDir.replaced Maps.get put Leaf.require_table_fs_read
    Leaf.read_leaf_expr Leaf.read_leaf_path HostDir.read Leaf.decode_leaf_bytes Leaf.codec_for_ext
json_unread = refl

get-set_example :
    (existing : Option (Segments × String)) × (expr : List ℕ) × (bytes : List ℕ)
    × (Leaf.leaf_path_for_read numbered bytes_kernel "j" root stored ≡ ok existing)
    × (bytes_kernel.as_expr (7 ∷ 8 ∷ []) ≡ ok expr)
    × (bytes_kernel.encode_with_codec (lisp numbered bytes_kernel (λ s. refl)) expr ≡ ok bytes)
    × (TableFs.get numbered bytes_kernel rights "j" root (set_in "j").1 ≡ (
      Leaf.decode_leaf_bytes numbered bytes_kernel
            (TableFs.ext_of numbered bytes_kernel existing)
            bytes
          >>= λ e. map_err failed (bytes_kernel.expr_value e),
      (set_in "j").1,
    ))
get-set_example =
    get-set numbered bytes_kernel (λ s. refl) rights "j" (7 ∷ 8 ∷ []) root stored (set_in "j").1
      may_read set_simj

one_siml :
    (existing : Option (Segments × String))
    → Leaf.leaf_path_for_read numbered bytes_kernel "a" root stored ≡ ok existing
    → TableFs.ext_of numbered bytes_kernel existing ≡ "siml"
unfolding Leaf.leaf_path_for_read Leaf.leaf_candidates Leaf.candidates_among Leaf.leaf_name
    Leaf.segment HostDir.metadata HostDir.full HostDir.validate Maps.get
one_siml none h = cc
one_siml (some leaf) h = cc

get-set_back_example :
    (expr : List ℕ) × (bytes_kernel.as_expr (7 ∷ 8 ∷ []) ≡ ok expr)
    × (TableFs.get numbered bytes_kernel rights "a" root (set_in "a").1
        ≡ (map_err failed (bytes_kernel.expr_value expr), (set_in "a").1))
get-set_back_example =
    get-set_back numbered bytes_kernel (λ s. refl) rights "a" (7 ∷ 8 ∷ []) root stored
      (set_in "a").1 (λ e bytes h. cc) one_siml may_read set_siml

abbrev calls : List (MemoryHostDirPort × TableCall numbered bytes_kernel)
calls =
    (root, making "docs")
    ∷ (root, Calls.setting "a" (9 ∷ []))
    ∷ (root, deleting "j")
    ∷ (root, emptying)
    ∷ []

written_once : write numbered bytes_kernel rights root (setting "a" (7 ∷ 8 ∷ [])) stored ≡ (
  true,
  record stored {
    entries = ("a.siml" ∷ [], file (7 ∷ 8 ∷ [])) ∷ ("j.simj" ∷ [], file (2 ∷ [])) ∷ [];
  },
)
unfolding write TableFs.set next Leaf.require_table_fs_write Leaf.require_with_aliases Leaf.segment
    HostDir.metadata HostDir.full HostDir.validate Leaf.leaf_path_for_read Leaf.leaf_candidates
    Leaf.candidates_among Leaf.leaf_name TableFs.remove_others Leaf.encode_leaf_expr HostDir.replace
    HostDir.replaced Maps.get put
written_once = refl

-- A file of Lisp text and one of JSON, a directory, a hidden file, and one that is no leaf.
abbrev listed_tree : ModelState
listed_tree = record {
  entries =
      ("a.siml" ∷ [], file (1 ∷ []))
      ∷ ("d" ∷ [], dir)
      ∷ ("d" ∷ "x.siml" ∷ [], file [])
      ∷ (".h.siml" ∷ [], file [])
      ∷ ("n.txt" ∷ [], file [])
      ∷ ("j.simj" ∷ [], file [])
      ∷ [];
  quota = 100;
}

read_only :
    Leaf.require_table_fs_write numbered bytes_kernel ("fs/read" ∷ [])
    ≡ err (capability_denied "fs/write")
unfolding Leaf.require_table_fs_write Leaf.require_with_aliases
read_only = refl

run_refused_example : run numbered bytes_kernel ("fs/read" ∷ []) calls stored ≡ stored
run_refused_example =
    run_refused numbered bytes_kernel ("fs/read" ∷ []) (capability_denied "fs/write") read_only
      calls stored

edits :
    (apply_edit "abcabc" "bc" "x" true ≡ ok "axax")
    × (apply_edit "abcabd" "bc" "x" false ≡ ok "axabd")
    × (apply_edit "abcabc" "bc" "x" false ≡ err (not_unique 2))
    × (apply_edit "abc" "d" "x" true ≡ err (pattern_not_found "d"))
    × (apply_edit_lines "a\nb\nc" 2 2 "x\n" ≡ ok "a\nx\nc")
    × (apply_edit_lines "a\nb\nc" 2 4 "x\n" ≡ err (out_of_range 2 4 3))
unfolding apply_edit apply_edit_lines split_inclusive
edits = (refl, refl, refl, refl, refl, refl)

apply_edit-Edited_example : Edited "abcabc" "bc" "x" true (apply_edit "abcabc" "bc" "x" true)
apply_edit-Edited_example = apply_edit-Edited "abcabc" "bc" "x" true

apply_edit_lines-LinesEdited_example :
    LinesEdited "a\nb\nc" 2 2 "x\n" (apply_edit_lines "a\nb\nc" 2 2 "x\n")
apply_edit_lines-LinesEdited_example = apply_edit_lines-LinesEdited "a\nb\nc" 2 2 "x\n"

-- A directory with a file in it, a hidden file, and a file.
abbrev tree : ModelState
tree = record {
  entries =
      ("d" ∷ [], dir)
      ∷ ("d" ∷ "x.siml" ∷ [], file (1 ∷ []))
      ∷ (".h" ∷ [], file [])
      ∷ ("d.siml" ∷ [], file [])
      ∷ [];
  quota = 100;
}

walk_total_example :
    (r : Leaf.FsResult numbered bytes_kernel (List Segments)) × ((more : ℕ)
      → walk numbered bytes_kernel (suc (longest tree.entries + more)) root tree [] ≡ some r)
walk_total_example = walk_total numbered bytes_kernel root tree []

find_glob-Finds_example :
    Finds numbered bytes_kernel rights "d" 2 root tree
      (find_glob numbered bytes_kernel rights "d" 2 root tree)
find_glob-Finds_example = find_glob-Finds numbered bytes_kernel rights "d" 2 root tree

two_found :
    find_glob numbered bytes_kernel rights "d" 2 root tree
    ≡ some (ok (record { paths = "d" ∷ "d/x.siml" ∷ []; truncated = true }))
unfolding find_glob walk walk_entries collect Leaf.require_table_fs_read Leaf.require_with_aliases
    HostDir.list HostDir.rows_of HostDir.full HostDir.validate Maps.values Maps.insert text_before
two_found = refl

tree_keys :
    (Listing.keys numbered bytes_kernel rights root listed_tree).0 ≡ ok ("a" ∷ "d" ∷ "j" ∷ [])
unfolding Listing.keys Listing.keys_among Listing.insert Listing.strip_suffix next
    Leaf.require_table_fs_read Leaf.require_with_aliases HostDir.list HostDir.rows_of HostDir.full
    HostDir.validate Maps.values Maps.insert text_before
tree_keys = refl

-- Hidden files, other files and directories stay; so does a leaf that does not decode, which ends `clear`.
emptied : Listing.clear numbered bytes_kernel rights root listed_tree ≡ (
  err (failed 1),
  record listed_tree {
    entries =
        ("d" ∷ [], dir)
        ∷ ("d" ∷ "x.siml" ∷ [], file [])
        ∷ (".h.siml" ∷ [], file [])
        ∷ ("n.txt" ∷ [], file [])
        ∷ ("j.simj" ∷ [], file [])
        ∷ [];
  },
)
unfolding Listing.clear Listing.clear_among Listing.keys Listing.keys_among Listing.insert
    Listing.strip_suffix next Leaf.require_table_fs_read Leaf.require_table_fs_write
    Leaf.require_with_aliases HostDir.list HostDir.rows_of HostDir.full HostDir.validate Maps.values
    Maps.insert text_before TableFs.is_dir TableFs.del Leaf.segment HostDir.metadata
    Leaf.leaf_path_for_read Leaf.leaf_candidates Leaf.candidates_among Leaf.leaf_name
    Leaf.read_leaf_path HostDir.read Leaf.decode_leaf_bytes Leaf.codec_for_ext HostDir.remove_file
    HostDir.removed Maps.get retain
emptied = refl

same_text : (k j : String) → (k == j) ≡ true → k ≡ j
same_text k j = (text_key.eq_decides k j).0

apart : (p : Segments) → p ≡ "a.siml" ∷ [] → p ≡ "j.simj" ∷ [] → ⊥
apart p e f =
    let same : false ≡ true = (same_segments_iff ("a.siml" ∷ []) ("j.simj" ∷ [])).1 (sym e ∙ f) in
    cc same

-- The two files of `stored` have different paths.
stored_distinct :
    (path : Segments) (v w : ModelEntry)
    → Memᴰ (path, v) stored.entries
    → Memᴰ (path, w) stored.entries
    → v ≡ w
stored_distinct path v w (head e) (head f) = cc
stored_distinct path v w (head e) (tail (head f)) =
    elim (apart path (ap (λ x. x.0) e) (ap (λ x. x.0) f)) [ ]
stored_distinct path v w (tail (head e)) (head f) =
    elim (apart path (ap (λ x. x.0) f) (ap (λ x. x.0) e)) [ ]
stored_distinct path v w (tail (head e)) (tail (head f)) = cc
stored_distinct path v w (head e) (tail (tail none_left)) = elim none_left [ ]
stored_distinct path v w (tail (head e)) (tail (tail none_left)) = elim none_left [ ]
stored_distinct path v w (tail (tail none_left)) m = elim none_left [ ]

two_listed : (Listing.keys numbered bytes_kernel rights root stored).0 ≡ ok ("a" ∷ "j" ∷ [])
unfolding Listing.keys Listing.keys_among Listing.insert Listing.strip_suffix next
    Leaf.require_table_fs_read Leaf.require_with_aliases HostDir.list HostDir.rows_of HostDir.full
    HostDir.validate Maps.values Maps.insert text_before
two_listed = refl

keys-Listed_example :
    All (Listed numbered bytes_kernel same_text rights root stored) ("a" ∷ "j" ∷ [])
    × Complete numbered bytes_kernel same_text rights root stored ("a" ∷ "j" ∷ [])
keys-Listed_example =
    keys-Listed numbered bytes_kernel same_text rights root stored ("a" ∷ "j" ∷ []) stored_distinct
      two_listed
