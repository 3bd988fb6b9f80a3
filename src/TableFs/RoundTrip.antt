-- ===== src/TableFs/RoundTrip.antt =====
-- What `get` reads after `set`.
use sim_platform.Prelude.{
  ℕ, String, false, Option, some, List, [], ◌∷◌, ◌++◌, ◌≡◌, refl, sym, ap, ◌∙◌, subst, Result, ok,
  err, map_err, ◌>>=◌, text_key,
}
use sim_platform.HostDir.Store.{Segments}
use sim_platform.HostDir.{
  StoragePort, file, ModelState, MemoryHostDirPort, PortResult, validate, full, lookup, replace,
  read,
}
use sim_platform.HostDir.Laws.{replacing, update, view, replace-Follows, Follows}
use sim_platform.TableFs.Leaf.{
  Kernel, FsError, FsResult, port_error, failed, known_exts, require_table_fs_read, leaf_text,
  leaf_name, Leaf, leaf_candidates, the_leaf, leaf_path_for_read, codec_for_ext, decode_leaf_bytes,
  encode_leaf_expr, read_leaf_path, read_leaf_expr,
}
use sim_platform.TableFs.Steps.{Action, next}
use sim_platform.TableFs.Candidates.{leaf_name-eq-ok, legal, candidates_among-present}
use sim_platform.TableFs.{ext_of, get, set}
use sim_platform.TableFs.Leaves.{
  remove_others_lem, at, leaves, leaf_after, read_back, map_err-eq-ok, replace-eq-ok,
}

module _ (port : StoragePort) (kernel : Kernel)
    (name-new : (s : String) → kernel.name_of (kernel.new_symbol s) ≡ s) where
  -- The codec of Lisp text.
  abbrev pub lisp : kernel.Symbol
  lisp = kernel.qualified "codec" "lisp"

  module _ (capabilities : List String) (key : kernel.Symbol) (v : kernel.Value)
      (self : MemoryHostDirPort) (state after : ModelState) where
    -- What an accepted `set` left behind: `get` decodes the Lisp text of the value, by the codec of the
    -- extension that the leaf file had before.
    abbrev Stores : Result (FsError port kernel) (Unit {0}) × ModelState → Type 0
    Stores (err e, s) = Unit
    Stores (ok u, s) =
        (existing : Option (Leaf port kernel)) × (expr : kernel.Expr) × (bytes : List ℕ)
        × (leaf_path_for_read port kernel key self state ≡ ok existing)
        × (kernel.as_expr v ≡ ok expr)
        × (kernel.encode_with_codec lisp expr ≡ ok bytes)
        × (get port kernel capabilities key self s ≡ (
          decode_leaf_bytes port kernel (ext_of port kernel existing) bytes >>= λ e.
              map_err failed (kernel.expr_value e),
          s,
        ))

    record IsRead (r : Result (FsError port kernel) (Unit {0}) × ModelState) : Type 0 where
      stores : Stores r

    step :
        {A : Type 0} (f : A → Action (FsError port kernel) (Unit {0})) (r : FsResult port kernel A)
        → ((a : A) → r ≡ ok a → IsRead (f a state))
        → IsRead (next f (r, state))
    unfolding next
    step f (ok a) k = k a refl
    step f (err e) k = record { stores = tt }

    skip :
        (f : Unit {0} → Action (FsError port kernel) (Unit {0}))
        (m : Result (FsError port kernel) (Unit {0}) × ModelState)
        → m ≡ (ok tt, state)
        → IsRead (f tt state)
        → IsRead (next f m)
    unfolding next
    skip f m h k = subst (λ r. IsRead (next f r)) (sym h) k

    the_leaf_of :
        (existing : Option (Leaf port kernel)) (ms : List (Leaf port kernel))
        → leaf_path_for_read port kernel key self state ≡ ok existing
        → leaf_candidates port kernel key self state ≡ ok ms
        → the_leaf port kernel key ms ≡ ok existing
    unfolding leaf_path_for_read
    the_leaf_of existing ms leaf matches =
        subst (λ r. (r >>= the_leaf port kernel key) ≡ ok existing) matches leaf

    candidates-eq-ok :
        (ms : List (Leaf port kernel))
        → leaf_candidates port kernel key self state ≡ ok ms
        → (legal port kernel name-new key self known_exts ≡ ok tt)
          × (leaves port kernel name-new key self known_exts state ≡ ms)
    unfolding leaf_candidates
    candidates-eq-ok ms h =
        split (legal port kernel name-new key self known_exts)
          (sym (candidates_among-present port kernel name-new key self known_exts state) ∙ h)
      where
        split :
            (l : FsResult port kernel (Unit {0}))
            → (l >>= λ u. ok (leaves port kernel name-new key self known_exts state)) ≡ ok ms
            → (l ≡ ok tt) × (leaves port kernel name-new key self known_exts state ≡ ms)
        split (ok u) e = (refl, cc)
        split (err x) e = cc

    found_leaf :
        (s : ModelState) (ext : String)
        → legal port kernel name-new key self known_exts ≡ ok tt
        → leaves port kernel name-new key self known_exts s
          ≡ (leaf_text port kernel key ext ∷ [], ext) ∷ []
        → leaf_path_for_read port kernel key self s
          ≡ ok (some (leaf_text port kernel key ext ∷ [], ext))
    unfolding leaf_path_for_read leaf_candidates
    found_leaf s ext in_order only =
        rw (candidates_among-present port kernel name-new key self known_exts s)
          (rw (in_order, only))

    read_leaf_expr_lem :
        (s : ModelState) (ext : String) (bytes : List ℕ)
        → leaf_path_for_read port kernel key self s
          ≡ ok (some (leaf_text port kernel key ext ∷ [], ext))
        → validate port (leaf_text port kernel key ext ∷ []) ≡ ok tt
        → lookup (at port kernel name-new key self ext) s ≡ some (file bytes)
        → read_leaf_expr port kernel key self s ≡ (
            decode_leaf_bytes port kernel ext bytes >>= λ e.
            ok (leaf_text port kernel key ext ∷ [], ext, e))
    unfolding read_leaf_expr read_leaf_path read full
    read_leaf_expr_lem s ext bytes found valid stands = rw (found, valid, stands)

    decoded :
        (s : ModelState) (ext : String) (r : FsResult port kernel kernel.Expr)
        → next
            (λ (f : Segments × String × kernel.Expr) state'.
              (map_err failed (kernel.expr_value f.2), state'))
            ((r >>= λ e. ok (leaf_text port kernel key ext ∷ [], ext, e)), s)
          ≡ ((r >>= λ e. map_err failed (kernel.expr_value e)), s)
    unfolding next
    decoded s ext (ok e) = refl
    decoded s ext (err x) = refl

    -- A state in which the leaf file is the only one, and has the bytes.
    get_lem :
        (s : ModelState) (ext : String) (bytes : List ℕ)
        → require_table_fs_read port kernel capabilities ≡ ok tt
        → legal port kernel name-new key self known_exts ≡ ok tt
        → validate port (leaf_text port kernel key ext ∷ []) ≡ ok tt
        → leaves port kernel name-new key self known_exts s
          ≡ (leaf_text port kernel key ext ∷ [], ext) ∷ []
        → lookup (at port kernel name-new key self ext) s ≡ some (file bytes)
        → get port kernel capabilities key self s ≡ (
          decode_leaf_bytes port kernel ext bytes >>= λ e. map_err failed (kernel.expr_value e),
          s,
        )
    unfolding get next
    get_lem s ext bytes readable in_order valid only stands =
        let found = found_leaf s ext in_order only in
        rw (readable, found)
          (rw (read_leaf_expr_lem s ext bytes found valid stands)
            (decoded s ext (decode_leaf_bytes port kernel ext bytes)))

    final :
        (existing : Option (Leaf port kernel)) (ms : List (Leaf port kernel)) (expr : kernel.Expr)
        (path : Segments) (bytes : List ℕ)
        → leaf_path_for_read port kernel key self state ≡ ok existing
        → leaf_candidates port kernel key self state ≡ ok ms
        → kernel.as_expr v ≡ ok expr
        → leaf_name port kernel key (ext_of port kernel existing) ≡ ok path
        → kernel.encode_with_codec lisp expr ≡ ok bytes
        → (r : PortResult port (Unit {0}) × ModelState)
        → replace port self path bytes false state ≡ r
        → require_table_fs_read port kernel capabilities ≡ ok tt
        → IsRead (map_err port_error r.0, r.1)
    final existing ms expr path bytes leaf matches valued at_path written (err e, s) h readable =
        record { stores = tt }
    final existing ms expr path bytes leaf matches valued at_path written (ok u, s) h readable =
        let ext = ext_of port kernel existing in
        let (in_order, were) = candidates-eq-ok ms matches in
        let the = the_leaf_of existing ms leaf matches in
        let named = leaf_name-eq-ok port kernel name-new key ext at_path in
        let stored : (k : Segments)
            → view s k
              ≡ update (view state) (at port kernel name-new key self ext) (some (file bytes)) k =
          λ k.
            subst (λ p. view s k ≡ update (view state) (self.prefix ++ p) (some (file bytes)) k)
              named
              (subst (Follows port state (replacing self path bytes false)) h
                (replace-Follows port state self path bytes false) k) in
        let valid : validate port (leaf_text port kernel key ext ∷ []) ≡ ok tt =
          subst (λ p. validate port p ≡ ok tt) named
            (replace-eq-ok port self path bytes state (ap (λ r. r.0) h)) in
        record {
          stores = (
            existing,
            expr,
            bytes,
            leaf,
            valued,
            written,
            get_lem s ext bytes readable in_order valid
                (leaf_after port kernel name-new key self state s ext bytes stored existing
                  (subst (λ m. the_leaf port kernel key m ≡ ok existing) (sym were) the) refl)
                (read_back port kernel name-new key self state s ext bytes stored),
          );
        }

    set-IsRead :
        require_table_fs_read port kernel capabilities ≡ ok tt
        → IsRead (set port kernel capabilities key v self state)
    unfolding set encode_leaf_expr
    set-IsRead readable = step _ _ λ u may. step _ _ λ base named. step _ _ λ entry there.
        step _ _ λ u free. step _ _ λ existing leaf. step _ _ λ ms matches.
          skip _ _
            (remove_others_lem port kernel name-new key existing ms self state
              (the_leaf_of existing ms leaf matches))
            (step _ _ λ expr valued. step _ _ λ path at_path. step _ _ λ bytes written.
              final existing ms expr path bytes leaf matches
                (map_err-eq-ok failed (kernel.as_expr v) valued) at_path
                (map_err-eq-ok failed (kernel.encode_with_codec lisp expr) written)
                (replace port self path bytes false state) refl readable)

    -- Let `set` be accepted, and let the capabilities allow reading. Then `get` reads Lisp text, the encoded
    -- expression of the value, by the codec of the extension that the leaf file of the key had before, or
    -- that of `siml` where there was none; it leaves the state as it is.
    pub get-set :
        require_table_fs_read port kernel capabilities ≡ ok tt
        → set port kernel capabilities key v self state ≡ (ok tt, after)
        → (existing : Option (Leaf port kernel)) × (expr : kernel.Expr) × (bytes : List ℕ)
          × (leaf_path_for_read port kernel key self state ≡ ok existing)
          × (kernel.as_expr v ≡ ok expr)
          × (kernel.encode_with_codec lisp expr ≡ ok bytes)
          × (get port kernel capabilities key self after ≡ (
            decode_leaf_bytes port kernel (ext_of port kernel existing) bytes >>= λ e.
                map_err failed (kernel.expr_value e),
            after,
          ))
    get-set readable done = subst Stores done (set-IsRead readable).stores

    -- Let Lisp text decode to the expression that was encoded, let the leaf file of the key be a `siml` file
    -- or none, and let the capabilities allow reading. After an accepted `set`, `get` returns the value of
    -- the expression that was set, and leaves the state as it is.
    pub get-set_back :
        ((e : kernel.Expr) (bytes : List ℕ)
          → kernel.encode_with_codec lisp e ≡ ok bytes
          → kernel.decode_with_codec lisp bytes ≡ ok e)
        → ((existing : Option (Leaf port kernel))
            → leaf_path_for_read port kernel key self state ≡ ok existing
            → ext_of port kernel existing ≡ "siml")
        → require_table_fs_read port kernel capabilities ≡ ok tt
        → set port kernel capabilities key v self state ≡ (ok tt, after)
        → (expr : kernel.Expr) × (kernel.as_expr v ≡ ok expr)
          × (get port kernel capabilities key self after
              ≡ (map_err failed (kernel.expr_value expr), after))
    unfolding decode_leaf_bytes codec_for_ext
    get-set_back law siml readable done =
        let (existing, expr, bytes, leaf, valued, written, reads) = get-set readable done in
        (expr, valued, reads ∙ rw (siml existing leaf) (rw (law expr bytes written)))
