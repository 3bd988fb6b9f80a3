-- ===== src/TableFs/Listing/Rows.antt =====
-- The rows of a listing of the host directory.
use mathlib.Core.List.{Memᴰ}
use mathlib.Core.List.Memᴰ.{head, tail}
use sim_platform.Prelude.{
  String, Bool, true, some, List, [], ◌∷◌, ◌++◌, ◌≡◌, refl, ap, ◌∙◌, arith, if◌then◌else◌, text_key,
  ◌==◌, Bool-cases, inl, inr, ◌⊎◌, All,
}
use sim_platform.Prelude.Text.{text_before}
use sim_platform.Prelude.Maps as Maps
use sim_platform.Prelude.Maps.{values, get, get-insert}
use sim_platform.HostDir.Store.{Segments, last_segment}
use sim_platform.HostDir.{StoragePort, HostEntry, ModelEntry, entry_of, is_child_of, rows_of}

abbrev pub Stored : Type 0
Stored = List (Segments × ModelEntry)

-- The rows of a listing, as a map.
module _ {V : Type 0} (before : String → String → Bool) where
  All-insert :
      (P : V → Type 0) (k : String) (v : V) (m : List (String × V))
      → P v
      → All P (values m)
      → All P (values (Maps.insert before k v m))
  unfolding values Maps.insert
  All-insert P k v [] h a = (h, tt)
  All-insert P k v ((j, w) ∷ m) h a = elim (Bool-cases (j == k)) [
    | inl same ↦ rw same (h, a.1)
    | inr other ↦ elim (Bool-cases (before k j)) [
      | inl first ↦ rw (other, first) (h, a)
      | inr later ↦ rw (other, later) (a.0, All-insert P k v m h a.1)
    ]
  ]

  pub get-values :
      (k : String) (v : V) (m : List (String × V)) → get k m ≡ some v → Memᴰ v (values m)
  unfolding get values
  get-values k v [] h = cc
  get-values k v ((j, w) ∷ m) h = elim (Bool-cases (j == k)) [
    | inl same ↦ head (cc (rw same at h))
    | inr other ↦ tail (get-values k v m (rw other at h))
  ]

-- Two children of a directory with one name are the same path.
pub child_path :
    (port : StoragePort) (base path : Segments)
    → is_child_of port base path ≡ true
    → path ≡ base ++ last_segment path ∷ []
child_path port [] [] h = ground arith
child_path port [] (p ∷ []) h = refl
child_path port [] (p ∷ q ∷ path) h = ground arith
child_path port (b ∷ base) [] h = ground arith
child_path port (b ∷ base) (p ∷ []) h = ground arith
child_path port (b ∷ base) (p ∷ q ∷ path) h =
    let inner : is_child_of port base (q ∷ path) ≡ true = ground arith in
    let first : (p == b) ≡ true = ground arith in
    let rest = child_path port base (q ∷ path) inner in cc ((text_key.eq_decides p b).0 first, rest)

module _ (port : StoragePort) (base : Segments) where
  pub rows_of-All :
      (P : HostEntry → Type 0) (entries : Stored) (rows : List (String × HostEntry))
      → ((path : Segments) (value : ModelEntry)
          → Memᴰ (path, value) entries
          → is_child_of port base path ≡ true
          → P (entry_of path value))
      → All P (values rows)
      → All P (values (rows_of port base rows entries))
  unfolding rows_of
  rows_of-All P [] rows f a = a
  rows_of-All P ((path, value) ∷ entries) rows f a =
      elim (Bool-cases (is_child_of port base path)) [
        | inl inside ↦ rw inside (
            rows_of-All P entries
              (Maps.insert text_before (last_segment path) (entry_of path value) rows)
              (λ p v m. f p v (tail m))
              (All-insert text_before P (last_segment path) (entry_of path value) rows
                (f path value (head refl) inside) a))
        | inr outside ↦ rw outside (rows_of-All P entries rows (λ p v m. f p v (tail m)) a)
      ]

  module _ (name : String) (e : HostEntry) where
    -- Every entry that could be the row of the name is this one.
    abbrev Agreed : Stored → Type 0
    Agreed entries =
        (path : Segments) (value : ModelEntry)
        → Memᴰ (path, value) entries
        → is_child_of port base path ≡ true
        → last_segment path ≡ name
        → entry_of path value ≡ e

    -- What the row of the name is after an entry.
    put_row :
        (path : Segments) (value : ModelEntry) (rows : List (String × HostEntry))
        → (last_segment path ≡ name → entry_of path value ≡ e)
        → (last_segment path ≡ name) ⊎ (get name rows ≡ some e)
        → get name (Maps.insert text_before (last_segment path) (entry_of path value) rows) ≡ some e
    put_row path value rows same h =
        get-insert text_before (last_segment path) name (entry_of path value) rows
        ∙ elim (Bool-cases (last_segment path == name)) [
          | inl hit ↦ rw hit (ap some (same ((text_key.eq_decides (last_segment path) name).0 hit)))
          | inr miss ↦ rw miss (elim h [
            | inl eq ↦ cc (miss, (text_key.eq_decides (last_segment path) name).1 eq)
            | inr old ↦ old
          ])
        ]

    rows_of_kept :
        (entries : Stored) (rows : List (String × HostEntry))
        → Agreed entries
        → get name rows ≡ some e
        → get name (rows_of port base rows entries) ≡ some e
    unfolding rows_of
    rows_of_kept [] rows agreed h = h
    rows_of_kept ((path, value) ∷ entries) rows agreed h =
        elim (Bool-cases (is_child_of port base path)) [
          | inl inside ↦ rw inside (
              rows_of_kept entries
                (Maps.insert text_before (last_segment path) (entry_of path value) rows)
                (λ p v m. agreed p v (tail m))
                (put_row path value rows (agreed path value (head refl) inside) (inr h)))
          | inr outside ↦ rw outside (rows_of_kept entries rows (λ p v m. agreed p v (tail m)) h)
        ]

    pub rows_of_found :
        (entries : Stored) (rows : List (String × HostEntry)) (path : Segments) (value : ModelEntry)
        → Agreed entries
        → Memᴰ (path, value) entries
        → is_child_of port base path ≡ true
        → last_segment path ≡ name
        → get name (rows_of port base rows entries) ≡ some e
    unfolding rows_of
    rows_of_found [] rows path value agreed m inside named = elim m [ ]
    rows_of_found ((p, v) ∷ entries) rows path value agreed (head same) inside named =
        let inside' : is_child_of port base p ≡ true = cc (inside, ap (λ x. x.0) same) in
        let named' : last_segment p ≡ name = cc (named, ap (λ x. x.0) same) in
        rw inside' (
          rows_of_kept entries (Maps.insert text_before (last_segment p) (entry_of p v) rows)
            (λ q w k. agreed q w (tail k))
            (put_row p v rows (agreed p v (head refl) inside') (inl named')))
    rows_of_found ((p, v) ∷ entries) rows path value agreed (tail m) inside named =
        rows_of_found entries
          (if is_child_of port base p
            then Maps.insert text_before (last_segment p) (entry_of p v) rows
            else rows)
          path value (λ q w k. agreed q w (tail k)) m inside named
