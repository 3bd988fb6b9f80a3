-- ===== src/TableFs/Effects/Facts.antt =====
-- What the steps of a call of a table establish, in the words of the descriptions.
use sim_platform.Prelude.{
  ℕ, String, Bool, true, false, not, Option, none, some, List, ◌++◌, ◌≡◌, ◌≢◌, refl, sym, ap, ◌∙◌,
  subst, Result, ok, err, map_err, ◌>>=◌,
}
use sim_platform.HostDir.Store.{Segments}
use sim_platform.HostDir.{StoragePort, dir, HostEntry, metadata, ModelState, MemoryHostDirPort}
use sim_platform.HostDir.Laws.{view}
use sim_platform.TableFs.Leaf.{
  Kernel, is_some, FsError, port_error, failed, Leaf, leaf_candidates, the_leaf, segment,
  leaf_path_for_read, encode_leaf_expr,
}
use sim_platform.TableFs.{
  TableReplacement, delete, value, is_directory, replacement_expr, encoded, expect_text,
}
use sim_platform.TableFs.Candidates.{segment-eq-ok}
use sim_platform.TableFs.Effects.{Encodes, Replaces, place}
use sim_platform.TableFs.Effects.Steps.{metadata-eq-ok, directory_there, no_directory}

module _ (port : StoragePort) (kernel : Kernel)
    (name-new : (s : String) → kernel.name_of (kernel.new_symbol s) ≡ s) where
  pub the_leaf_of :
      (key : kernel.Symbol) (self : MemoryHostDirPort) (state : ModelState)
      (existing : Option (Leaf port kernel)) (ms : List (Leaf port kernel))
      → leaf_path_for_read port kernel key self state ≡ ok existing
      → leaf_candidates port kernel key self state ≡ ok ms
      → the_leaf port kernel key ms ≡ ok existing
  unfolding leaf_path_for_read
  the_leaf_of key self state existing ms leaf matches =
      subst (λ r. (r >>= the_leaf port kernel key) ≡ ok existing) matches leaf

  pub expect_text-eq-ok :
      (key : kernel.Symbol) (o : Option String) {text : String}
      → expect_text port kernel key o ≡ ok text
      → o ≡ some text
  expect_text-eq-ok key none h = cc
  expect_text-eq-ok key (some t) h = cc

  pub is_some-none : {A : Type 0} (o : Option A) → is_some o ≡ false → o ≡ none
  is_some-none none h = refl
  is_some-none (some a) h = cc

  pub not-eq-false : (b : Bool) → not b ≡ false → b ≡ true
  not-eq-false true h = refl
  not-eq-false false h = cc

  pub replacement_expr-Replaces :
      (new : TableReplacement kernel.Value) (expr : Option kernel.Expr)
      → replacement_expr port kernel new ≡ ok expr
      → Replaces port kernel new expr
  replacement_expr-Replaces delete none h = tt
  replacement_expr-Replaces delete (some e) h = cc
  replacement_expr-Replaces (value v) expr h = valued (kernel.as_expr v) refl h
    where
      valued :
          (r : Result kernel.Failure kernel.Expr)
          → kernel.as_expr v ≡ r
          → (map_err {F = FsError port kernel} failed r >>= λ e. ok (some e)) ≡ ok expr
          → Replaces port kernel (value v) expr
      valued (ok e) eq k =
          let same : some e ≡ expr = cc in subst (Replaces port kernel (value v)) same eq
      valued (err x) eq k = cc

  pub encoded-Encodes :
      (ext : String) (o : Option kernel.Expr) (contents : Option (List ℕ))
      → encoded port kernel ext o ≡ ok contents
      → Encodes port kernel o contents
  unfolding encode_leaf_expr
  encoded-Encodes ext none none h = tt
  encoded-Encodes ext none (some bytes) h = cc
  encoded-Encodes ext (some e) contents h = written (kernel.encode_with_codec _ e) refl h
    where
      written :
          (r : Result kernel.Failure (List ℕ))
          → kernel.encode_with_codec (kernel.qualified "codec" "lisp") e ≡ r
          → (map_err {F = FsError port kernel} failed r >>= λ bytes. ok (some bytes)) ≡ ok contents
          → Encodes port kernel (some e) contents
      written (ok bytes) eq k =
          let same : some bytes ≡ contents = cc in subst (Encodes port kernel (some e)) same eq
      written (err x) eq k = cc

  module _ (capabilities : List String) (self : MemoryHostDirPort) (state : ModelState) where
    pub no_dir_at :
        (key : kernel.Symbol) (base : Segments) (entry : Option HostEntry)
        → segment port kernel key ≡ ok base
        → map_err {F = FsError port kernel} port_error (metadata port self base state) ≡ ok entry
        → is_directory entry ≡ false
        → view state (place port kernel capabilities self (kernel.name_of key)) ≢ some dir
    no_dir_at key base entry named there free =
        let at_base = segment-eq-ok port kernel name-new key named in
        let shown = metadata-eq-ok port self base state port_error entry there in
        subst (λ p. view state (self.prefix ++ p) ≢ some dir) at_base
          (no_directory port (self.prefix ++ base) (view state (self.prefix ++ base))
            (ap is_directory (sym shown) ∙ free))

    pub dir_at :
        (key : kernel.Symbol) (base : Segments) (entry : Option HostEntry)
        → segment port kernel key ≡ ok base
        → map_err {F = FsError port kernel} port_error (metadata port self base state) ≡ ok entry
        → is_directory entry ≡ true
        → view state (place port kernel capabilities self (kernel.name_of key)) ≡ some dir
    dir_at key base entry named there is_dir =
        let at_base = segment-eq-ok port kernel name-new key named in
        let shown = metadata-eq-ok port self base state port_error entry there in
        subst (λ p. view state (self.prefix ++ p) ≡ some dir) at_base
          (directory_there port (self.prefix ++ base) (view state (self.prefix ++ base))
            (ap is_directory (sym shown) ∙ is_dir))
