-- ===== src/TableFs/Listing/Laws.antt =====
-- Which keys a table lists.
use mathlib.Core.List.{Memᴰ}
use mathlib.Core.List.Memᴰ.{head, tail}
use mathlib.Core.List.{append-nil}
use sim_platform.Prelude.{
  String, true, Option, none, some, List, [], ◌∷◌, ◌++◌, ◌≡◌, refl, sym, ap, ◌∙◌, text_key,
  Bool-cases, inl, inr, All, ok, err, map_err, subst,
}
use sim_platform.Prelude.Text.{text_before}
use sim_platform.Prelude.Maps.{values}
use sim_platform.HostDir.Store.{Segments, last_segment}
use sim_platform.HostDir.{
  StoragePort, HostEntry, ModelEntry, ModelState, MemoryHostDirPort, entry_of, is_child_of, rows_of,
  full, validate, list,
}
use sim_platform.TableFs.Leaf.{Kernel, FsResult, port_error, require_table_fs_read}
use sim_platform.TableFs.Steps.{next, lift}
use sim_platform.TableFs.Listing.Rows.{get-values, child_path, rows_of-All, rows_of_found}
use sim_platform.TableFs.Listing.{key_of, insert, with_key, keys_among, keys}

module _ (port : StoragePort) (kernel : Kernel) where
  All-insert_key :
      (P : kernel.Symbol → Type 0) (key : kernel.Symbol) (ks : List kernel.Symbol)
      → P key
      → All P ks
      → All P (insert port kernel key ks)
  unfolding insert
  All-insert_key P key [] h a = (h, tt)
  All-insert_key P key (k ∷ ks) h a = elim (Bool-cases (kernel.same_symbol k key)) [
    | inl same ↦ rw same a
    | inr other ↦ elim (Bool-cases (kernel.symbol_before key k)) [
      | inl first ↦ rw (other, first) (h, a)
      | inr later ↦ rw (other, later) (a.0, All-insert_key P key ks h a.1)
    ]
  ]

  keys_among-All :
      (P : kernel.Symbol → Type 0) (es : List HostEntry) (ks : List kernel.Symbol)
      → All (λ e. (name : String) → key_of e ≡ some name → P (kernel.new_symbol name)) es
      → All P ks
      → All P (keys_among port kernel ks es)
  unfolding keys_among
  keys_among-All P [] ks h a = a
  keys_among-All P (e ∷ es) ks h a =
      keys_among-All P es (with_key port kernel (key_of e) ks) h.1 (step (key_of e) refl)
    where
      step : (o : Option String) → key_of e ≡ o → All P (with_key port kernel o ks)
      step none eq = a
      step (some name) eq = All-insert_key P (kernel.new_symbol name) ks (h.0 name eq) a

  module _ (decides : (k j : kernel.Symbol) → kernel.same_symbol k j ≡ true → k ≡ j) where
    insert-Mem :
        (key : kernel.Symbol) (ks : List kernel.Symbol) → Memᴰ key (insert port kernel key ks)
    unfolding insert
    insert-Mem key [] = head refl
    insert-Mem key (k ∷ ks) = elim (Bool-cases (kernel.same_symbol k key)) [
      | inl same ↦ rw same (head (sym (decides k key same)))
      | inr other ↦ elim (Bool-cases (kernel.symbol_before key k)) [
        | inl first ↦ rw (other, first) (head refl)
        | inr later ↦ rw (other, later) (tail (insert-Mem key ks))
      ]
    ]

    insert-Mem_old :
        (key old : kernel.Symbol) (ks : List kernel.Symbol)
        → Memᴰ old ks
        → Memᴰ old (insert port kernel key ks)
    unfolding insert
    insert-Mem_old key old [] m = elim m [ ]
    insert-Mem_old key old (k ∷ ks) m = elim (Bool-cases (kernel.same_symbol k key)) [
      | inl same ↦ rw same m
      | inr other ↦ elim (Bool-cases (kernel.symbol_before key k)) [
        | inl first ↦ rw (other, first) (tail m)
        | inr later ↦ rw (other, later) (below m (insert-Mem_old key old ks))
      ]
    ]
      where
        below :
            Memᴰ old (k ∷ ks)
            → (Memᴰ old ks → Memᴰ old (insert port kernel key ks))
            → Memᴰ old (k ∷ insert port kernel key ks)
        below (head e) f = head e
        below (tail m) f = tail (f m)

    keys_among-Mem_old :
        (key : kernel.Symbol) (es : List HostEntry) (ks : List kernel.Symbol)
        → Memᴰ key ks
        → Memᴰ key (keys_among port kernel ks es)
    unfolding keys_among
    keys_among-Mem_old key [] ks m = m
    keys_among-Mem_old key (e ∷ es) ks m =
        keys_among-Mem_old key es (with_key port kernel (key_of e) ks) (step (key_of e))
      where
        step : (o : Option String) → Memᴰ key (with_key port kernel o ks)
        step none = m
        step (some name) = insert-Mem_old (kernel.new_symbol name) key ks m

    keys_among-Mem :
        (name : String) (e : HostEntry) (es : List HostEntry) (ks : List kernel.Symbol)
        → Memᴰ e es
        → key_of e ≡ some name
        → Memᴰ (kernel.new_symbol name) (keys_among port kernel ks es)
    unfolding keys_among
    keys_among-Mem name e [] ks m h = elim m [ ]
    keys_among-Mem name e (x ∷ es) ks (head same) h =
        let here : key_of x ≡ some name = subst (λ y. key_of y ≡ some name) same h in
        keys_among-Mem_old (kernel.new_symbol name) es (with_key port kernel (key_of x) ks)
          (rw here (insert-Mem (kernel.new_symbol name) ks))
    keys_among-Mem name e (x ∷ es) ks (tail m) h =
        keys_among-Mem name e es (with_key port kernel (key_of x) ks) m h

    module _ (capabilities : List String) (self : MemoryHostDirPort) (state : ModelState) where
      -- The key is that of an entry directly below the directory of the port.
      abbrev pub Listed : kernel.Symbol → Type 0
      Listed key =
          (path : Segments) × (value : ModelEntry) × (name : String) × Memᴰ (path, value)
            state.entries
          × (is_child_of port self.prefix path ≡ true)
          × (key_of (entry_of path value) ≡ some name)
          × (key ≡ kernel.new_symbol name)

      abbrev pub Complete : List kernel.Symbol → Type 0
      Complete ks =
          (path : Segments) (value : ModelEntry) (name : String)
          → Memᴰ (path, value) state.entries
          → is_child_of port self.prefix path ≡ true
          → key_of (entry_of path value) ≡ some name
          → Memᴰ (kernel.new_symbol name) ks

      abbrev rows : List (String × HostEntry)
      rows = rows_of port self.prefix [] state.entries

      rows-Listed : All Listed (keys_among port kernel [] (values rows))
      unfolding values
      rows-Listed =
          keys_among-All Listed (values rows) []
            (rows_of-All port self.prefix
              (λ e. (name : String) → key_of e ≡ some name → Listed (kernel.new_symbol name))
              state.entries []
              (λ path value m inside name h. (path, value, name, m, inside, h, refl)) tt)
            tt

      rows-Complete :
          ((path : Segments) (v w : ModelEntry)
            → Memᴰ (path, v) state.entries
            → Memᴰ (path, w) state.entries
            → v ≡ w)
          → Complete (keys_among port kernel [] (values rows))
      rows-Complete distinct path value name m inside h =
          keys_among-Mem name (entry_of path value) (values rows) []
            (get-values text_before (last_segment path) (entry_of path value) rows (
              rows_of_found port self.prefix (last_segment path) (entry_of path value) state.entries
                [] path value agreed m inside refl))
            h
        where
          agreed :
              (p : Segments) (v : ModelEntry)
              → Memᴰ (p, v) state.entries
              → is_child_of port self.prefix p ≡ true
              → last_segment p ≡ last_segment path
              → entry_of p v ≡ entry_of path value
          agreed p v k inside' named =
              let same : p ≡ path =
                child_path port self.prefix p inside'
                ∙ ap (λ s. self.prefix ++ s ∷ []) named
                ∙ sym (child_path port self.prefix path inside) in
              let one : v ≡ value =
                distinct path v value (subst (λ q. Memᴰ (q, v) state.entries) same k) m in
              cc (same, one)

      all_rows : list port self [] state ≡ ok (values rows)
      unfolding list full validate
      all_rows = rw (append-nil self.prefix)

      keys_unfolded :
          (ks : List kernel.Symbol)
          → (keys port kernel capabilities self state).0 ≡ ok ks
          → ks ≡ keys_among port kernel [] (values rows)
      unfolding keys next
      keys_unfolded ks h = allowed (require_table_fs_read port kernel capabilities) h
        where
          allowed :
              (r : FsResult port kernel (Unit {0}))
              → (next
                  (λ u s.
                    next
                      (λ listed. lift (ok (keys_among port kernel [] listed)))
                      (map_err port_error (list port self [] s), s))
                  (r, state)).0
                ≡ ok ks
              → ks ≡ keys_among port kernel [] (values rows)
          allowed (err e) eq = cc
          allowed (ok u) eq = cc (rw all_rows at eq)

      -- Where symbols that compare as the same are equal and no path has two entries, the keys that keys
      -- answers are those of entries directly below the directory of the port, and the key of every such
      -- entry is among them.
      pub keys-Listed :
          (ks : List kernel.Symbol)
          → ((path : Segments) (v w : ModelEntry)
              → Memᴰ (path, v) state.entries
              → Memᴰ (path, w) state.entries
              → v ≡ w)
          → (keys port kernel capabilities self state).0 ≡ ok ks
          → All Listed ks × Complete ks
      keys-Listed ks distinct h =
          let same : keys_among port kernel [] (values rows) ≡ ks = sym (keys_unfolded ks h) in
          (subst (All Listed) same rows-Listed, subst Complete same (rows-Complete distinct))
