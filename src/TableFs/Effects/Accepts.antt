-- ===== src/TableFs/Effects/Accepts.antt =====
-- When the calls of a table that write are accepted.
use sim_platform.Prelude.{
  ℕ, String, Bool, true, false, Option, none, some, List, ◌≡◌, ◌⊎◌, inl, inr, Result, ok,
}
use sim_platform.HostDir.Store.{Segments}
use sim_platform.HostDir.{
  StoragePort, HostEntry, ModelState, MemoryHostDirPort, HostCompareExchange, metadata, replace,
  remove_file, create_dir, remove_dir_all, compare_exchange, child,
}
use sim_platform.TableFs.Edit.{EditError, apply_edit, apply_edit_lines}
use sim_platform.TableFs.Leaf.{
  Kernel, Leaf, segment, leaf_name, leaf_candidates, the_leaf, leaf_path_for_read, read_leaf_path,
  read_leaf_expr, encode_leaf_expr,
}
use sim_platform.TableFs.Steps.{next}
use sim_platform.TableFs
use sim_platform.TableFs.{
  TableExpected, TableReplacement, TableObserved, ext_of, is_directory, expected_expr,
  replacement_expr, encoded, path_of, observed_in,
}
use sim_platform.TableFs.Leaves.{remove_others_lem, bind-eq-ok}
use sim_platform.TableFs.Effects.{
  Write, setting, exchanging, deleting, making, removing, editing, editing_lines, verdict, write,
  lisp, MayRead, MayWrite, HasLeaf,
}

module _ (port : StoragePort) (kernel : Kernel) (capabilities : List String)
    (self : MemoryHostDirPort) (state : ModelState) where
  abbrev Reads : Type 0
  Reads = MayRead port kernel capabilities self

  abbrev Writes : Type 0
  Writes = MayWrite port kernel capabilities self

  abbrev Has : kernel.Symbol → Option (Leaf port kernel) → Type 0
  Has = HasLeaf port kernel capabilities self state

  -- What an edit needs.
  abbrev pub CanEdit : kernel.Symbol → (String → Result EditError String) → Type 0
  CanEdit key change =
      (leaf : Leaf port kernel) × (expr : kernel.Expr) × (text : String) × (edited : String)
      × (bytes : List ℕ) × Reads
      × Writes
      × (kernel.require capabilities "edit" ≡ ok tt)
      × (read_leaf_expr port kernel key self state ≡ ok (leaf.0, leaf.1, expr))
      × (kernel.text_of expr ≡ some text)
      × (change text ≡ ok edited)
      × (kernel.encode_with_codec (lisp port kernel) (kernel.string_expr edited) ≡ ok bytes)
      × ((replace port self leaf.0 bytes false state).0 ≡ ok tt)

  -- What each call needs: the rights, legal names, the leaf file or the directory, what the kernel and the
  -- codecs answer, and that the port accepts.
  abbrev pub Can : Write port kernel → Type 0
  Can (setting key v) =
      (base : Segments) × (entry : Option HostEntry) × (existing : Option (Leaf port kernel))
      × (expr : kernel.Expr) × (path : Segments) × (bytes : List ℕ) × Writes
      × (segment port kernel key ≡ ok base)
      × (metadata port self base state ≡ ok entry)
      × (is_directory entry ≡ false)
      × Has key existing
      × (kernel.as_expr v ≡ ok expr)
      × (leaf_name port kernel key (ext_of port kernel existing) ≡ ok path)
      × (kernel.encode_with_codec (lisp port kernel) expr ≡ ok bytes)
      × ((replace port self path bytes false state).0 ≡ ok tt)
  Can (editing key old new all) = CanEdit key (λ text. apply_edit text old new all)
  Can (editing_lines key start end new) = CanEdit key (λ text. apply_edit_lines text start end new)
  Can (deleting key) =
      ((v : kernel.Value) × Reads × Writes × Has key none × (kernel.nil_value ≡ ok v))
      ⊎ ((leaf : Leaf port kernel) × (expr : kernel.Expr) × (v : kernel.Value) × Reads
          × Writes
          × Has key (some leaf)
          × (read_leaf_path port kernel leaf.0 leaf.1 self state ≡ ok expr)
          × ((remove_file port self leaf.0 state).0 ≡ ok tt)
          × (kernel.expr_value expr ≡ ok v))
  Can (making key) =
      (path : Segments) × (inner : MemoryHostDirPort) × (v : kernel.Value) × Writes
      × (segment port kernel key ≡ ok path)
      × Has key none
      × ((create_dir port self path state).0 ≡ ok tt)
      × (child port self (kernel.name_of key) ≡ ok inner)
      × (kernel.dir_value inner ≡ ok v)
  Can (removing key) =
      (path : Segments) × (entry : Option HostEntry) × (v : kernel.Value) × Writes
      × (segment port kernel key ≡ ok path)
      × (metadata port self path state ≡ ok entry)
      × (is_directory entry ≡ true)
      × ((remove_dir_all port self path state).0 ≡ ok tt)
      × (kernel.nil_value ≡ ok v)
  Can (exchanging key expected new) =
      (existing : Option (Leaf port kernel)) × (expr : Option kernel.Expr) × (named : Segments)
      × (wanted : Option (List ℕ)) × (contents : Option (List ℕ)) × (o : HostCompareExchange port)
      × (seen : TableObserved kernel.Expr) × Reads
      × Writes
      × Has key existing
      × (replacement_expr port kernel new ≡ ok expr)
      × (leaf_name port kernel key (ext_of port kernel existing) ≡ ok named)
      × (encoded port kernel (ext_of port kernel existing) (expected_expr port kernel expected)
          ≡ ok wanted)
      × (encoded port kernel (ext_of port kernel existing) expr ≡ ok contents)
      × ((compare_exchange port self (path_of port kernel existing named) wanted contents false
            false state).0
          ≡ ok o)
      × (observed_in port kernel (ext_of port kernel existing) o.observed ≡ ok seen)

  edit_accepted :
      (key : kernel.Symbol) (change : String → Result EditError String)
      → CanEdit key change
      → (verdict port kernel
          (TableFs.edit_text_leaf port kernel capabilities key change self state)).0
        ≡ true
  unfolding TableFs.edit_text_leaf encode_leaf_expr next
  edit_accepted key change (leaf, expr, text, edited, bytes, r, w, q, found, t, c, e, p) =
      rw (r, w, q, found) (rw (t, c) (rw (e) (rw p)))

  candidates_there :
      (key : kernel.Symbol) (existing : Option (Leaf port kernel))
      → Has key existing
      → (ms : List (Leaf port kernel)) × (leaf_candidates port kernel key self state ≡ ok ms)
        × (the_leaf port kernel key ms ≡ ok existing)
  unfolding leaf_path_for_read
  candidates_there key existing l =
      bind-eq-ok (leaf_candidates port kernel key self state) (the_leaf port kernel key) l

  set_accepted :
      ((s : String) → kernel.name_of (kernel.new_symbol s) ≡ s)
      → (key : kernel.Symbol) (v : kernel.Value) → Can (setting key v)
      → (verdict port kernel (TableFs.set port kernel capabilities key v self state)).0 ≡ true
  unfolding TableFs.set encode_leaf_expr next
  set_accepted name-new key v
        (base, entry, existing, expr, path, bytes, w, s, m, d, l, a, n, e, p) =
      let (ms, among, the) = candidates_there key existing l in
      rw (w, s, m)
        (rw (d, l, among)
          (rw (remove_others_lem port kernel name-new key existing ms self state the)
            (rw (a, n, e) (rw p))))

  pub write_accepted :
      ((s : String) → kernel.name_of (kernel.new_symbol s) ≡ s)
      → (call : Write port kernel) → Can call
      → (write port kernel capabilities self call state).0 ≡ true
  unfolding write TableFs.edit TableFs.edit_lines TableFs.del TableFs.mkdir TableFs.rmdir
      TableFs.compare_exchange next
  write_accepted name-new (setting key v) can = set_accepted name-new key v can
  write_accepted name-new (editing key old new all) can = edit_accepted key _ can
  write_accepted name-new (editing_lines key start end new) can = edit_accepted key _ can
  write_accepted name-new (deleting key) (inl (v, r, w, l, x)) = rw (r, w, l) (rw x)
  write_accepted name-new (deleting key) (inr (leaf, expr, v, r, w, l, f, p, x)) =
      rw (r, w, l) (rw f (rw p (rw x)))
  write_accepted name-new (making key) (path, inner, v, w, s, l, p, c, x) =
      rw (w, s, l) (rw p (rw c (rw x)))
  write_accepted name-new (removing key) (path, entry, v, w, s, m, d, p, x) =
      rw (w, s, m) (rw d (rw p (rw x)))
  write_accepted name-new (exchanging key expected new)
        (existing, expr, named, wanted, contents, o, shown, r, w, l, n, at, e, c, p, x) =
      rw (r, w, l) (rw (n, at, e) (rw c (rw p (rw x))))

  -- A call is refused only where something that it needs is missing.
  abbrev pub HasCause : Write port kernel → Bool → Type 0
  HasCause call true = Unit
  HasCause call false = ¬ (Can call)

  pub write-HasCause :
      ((s : String) → kernel.name_of (kernel.new_symbol s) ≡ s)
      → (call : Write port kernel)
      → HasCause call (write port kernel capabilities self call state).0
  write-HasCause name-new call =
      answered (write port kernel capabilities self call state).0 (write_accepted name-new call)
    where
      answered : (b : Bool) → (Can call → b ≡ true) → HasCause call b
      answered true h = tt
      answered false h = λ can. cc (h can)
