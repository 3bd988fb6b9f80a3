-- ===== src/TableFs/Candidates.antt =====
-- The leaf files of a key, as a function of what stands in the host directory.
use sim_platform.Prelude.{
  String, Option, none, some, List, [], ◌∷◌, ◌++◌, ◌≡◌, refl, ap, ◌∙◌, Bool-cases, inl, inr, ok,
  err, map_err, ◌>>=◌, ◌>>◌,
}
use sim_platform.HostDir.Store.{Segments}
use sim_platform.HostDir.{
  StoragePort, ModelEntry, ModelState, MemoryHostDirPort, PortResult, is_illegal, validate, full,
  lookup, describe, metadata,
}
use sim_platform.TableFs.Leaf.{
  Kernel, is_some, FsResult, port_error, segment, leaf_text, leaf_name, Leaf, with_leaf,
  candidates_among,
}

is_some-describe :
    (port : StoragePort) (path : Segments) (o : Option ModelEntry)
    → is_some (describe port path o) ≡ is_some o
is_some-describe port path none = refl
is_some-describe port path (some entry) = refl

module _ (port : StoragePort) (kernel : Kernel)
    (name-new : (s : String) → kernel.name_of (kernel.new_symbol s) ≡ s) where
  pub segment-eq-ok :
      (name : kernel.Symbol) {path : Segments}
      → segment port kernel name ≡ ok path
      → path ≡ kernel.name_of name ∷ []
  unfolding segment
  segment-eq-ok name h = elim (Bool-cases (is_illegal port (kernel.name_of name))) [
    | inl bad ↦ cc (rw bad at h)
    | inr good ↦ cc (rw good at h)
  ]

  pub leaf_name-eq-ok :
      (name : kernel.Symbol) (ext : String) {path : Segments}
      → leaf_name port kernel name ext ≡ ok path
      → path ≡ leaf_text port kernel name ext ∷ []
  unfolding leaf_name
  leaf_name-eq-ok name ext h = after (segment port kernel name) h
    where
      after :
          {path : Segments} (r : FsResult port kernel Segments)
          → (r >>= λ own. segment port kernel (kernel.new_symbol (leaf_text port kernel name ext)))
            ≡ ok path
          → path ≡ leaf_text port kernel name ext ∷ []
      after (ok own) e =
          segment-eq-ok (kernel.new_symbol (leaf_text port kernel name ext)) e
          ∙ ap (λ s. s ∷ []) (name-new (leaf_text port kernel name ext))
      after (err x) e = cc

  module _ (name : kernel.Symbol) (self : MemoryHostDirPort) where
    -- Whether the names of the leaf files are in order, which the state has no part in.
    unfoldable pub legal : List String → FsResult port kernel (Unit {0})
    legal [] = ok tt
    legal (ext ∷ exts) = do
      path ← leaf_name port kernel name ext
      map_err port_error (validate port path)
      legal exts

    -- The full path of a leaf file.
    abbrev pub place : String → Segments
    place ext = self.prefix ++ leaf_text port kernel name ext ∷ []

    unfoldable pub present : List String → ModelState → List (Leaf port kernel)
    present [] state = []
    present (ext ∷ exts) state =
        with_leaf port kernel (is_some (lookup (place ext) state))
          (leaf_text port kernel name ext ∷ [], ext) (present exts state)

    pub candidates_among-present :
        (exts : List String) (state : ModelState)
        → candidates_among port kernel exts name self state
          ≡ (legal exts >>= λ u. ok (present exts state))
    unfolding candidates_among metadata full legal present
    candidates_among-present [] state = refl
    candidates_among-present (ext ∷ exts) state =
        named (leaf_name port kernel name ext) refl (candidates_among-present exts state)
      where
        found :
            Segments
            → Option ModelEntry
            → Leaf port kernel
            → FsResult port kernel (Unit {0})
            → FsResult port kernel (List (Leaf port kernel))
        found path o leaf l = (l >>= λ u. ok (present exts state)) >>= λ rest.
            ok (with_leaf port kernel (is_some (describe port path o)) leaf rest)

        settled :
            (path : Segments) (o : Option ModelEntry) (leaf : Leaf port kernel)
            (l : FsResult port kernel (Unit {0}))
            → found path o leaf l
              ≡ (l >>= λ u. ok (with_leaf port kernel (is_some o) leaf (present exts state)))
        settled path o leaf (ok u) =
            ap (λ b. ok (with_leaf port kernel b leaf (present exts state)))
              (is_some-describe port path o)
        settled path o leaf (err e) = refl

        checked :
            (path : Segments) (v : PortResult port (Unit {0}))
            → path ≡ leaf_text port kernel name ext ∷ []
            → candidates_among port kernel exts name self state
              ≡ (legal exts >>= λ u. ok (present exts state))
            → (map_err port_error (
                  (v >>= λ u. ok (self.prefix ++ path)) >>= λ key.
                  ok (describe port key (lookup key state)))
                >>= λ entry. candidates_among port kernel exts name self state >>= λ rest.
                    ok (with_leaf port kernel (is_some entry) (path, ext) rest))
              ≡ ((map_err port_error v >>= λ u. legal exts) >>= λ u. ok (
                  with_leaf port kernel
                    (is_some (lookup (place ext) state))
                    (leaf_text port kernel name ext ∷ [], ext)
                    (present exts state)))
        checked path (err x) p ih = refl
        checked path (ok u) p ih =
            rw (ih, p)
              (settled (place ext) (lookup (place ext) state)
                (leaf_text port kernel name ext ∷ [], ext) (legal exts))

        named :
            (r : FsResult port kernel Segments)
            → leaf_name port kernel name ext ≡ r
            → candidates_among port kernel exts name self state
              ≡ (legal exts >>= λ u. ok (present exts state))
            → (r >>= λ path. map_err port_error (metadata port self path state) >>= λ entry.
                candidates_among port kernel exts name self state >>= λ rest.
                ok (with_leaf port kernel (is_some entry) (path, ext) rest))
              ≡ ((r >>= λ path. map_err port_error (validate port path) >>= λ u. legal exts)
                  >>= λ u. ok (
                      with_leaf port kernel
                        (is_some (lookup (place ext) state))
                        (leaf_text port kernel name ext ∷ [], ext)
                        (present exts state)))
        named (err x) e ih = refl
        named (ok path) e ih = checked path (validate port path) (leaf_name-eq-ok name ext e) ih
