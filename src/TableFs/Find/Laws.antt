-- ===== src/TableFs/Find/Laws.antt =====
-- What the search by a glob finds.
use sim_platform.Prelude.{
  ℕ, zero, suc, ◌+◌, ◌-◌, ◌≤◌, String, Bool, true, false, Option, none, some, List, [], ◌∷◌, ◌≡◌,
  refl, sym, ap, ◌∙◌, subst, arith, leb, ltb, length, take, keep_if, map, Bool-cases, inl, inr,
  Result, ok, err, map_err, ◌>>◌,
}
use sim_platform.HostDir.Store.{Segments}
use sim_platform.HostDir.{StoragePort, ModelState, MemoryHostDirPort}
use sim_platform.TableFs.Leaf.{Kernel, FsResult, failed, require_table_fs_read}
use sim_platform.TableFs.Find.{
  join, longest, FindGlobResult, add_path, collect, walk, search_with, find_glob,
}
use sim_platform.TableFs.Find.Walk.{walk_total}

-- The matching paths, from the front, up to the bound, and whether there are more.
abbrev pub cut_at : ℕ → List String → FindGlobResult
cut_at n paths = record { paths = take n paths; truncated = ltb n (length paths) }

abbrev pub matching : (String → Bool) → List Segments → List String
matching glob files = keep_if glob (map join files)

none_left : (n : ℕ) → cut_at n [] ≡ record { paths = []; truncated = false }
none_left zero = refl
none_left (suc n) = let no_more : ltb (suc n) 0 ≡ false = ground arith in rw no_more

full_up :
    (n : ℕ) (p : String) (ps : List String)
    → n ≡ 0
    → cut_at n (p ∷ ps) ≡ record { paths = []; truncated = true }
full_up n p ps h = let over : ltb 0 (length (p ∷ ps)) ≡ true = ground arith in rw (h, over)

one_more :
    (n k : ℕ) (p : String) (ps : List String)
    → n ≡ suc k
    → cut_at n (p ∷ ps) ≡ add_path p (cut_at k ps)
one_more n k p ps h =
    let same : ltb (suc k) (length (p ∷ ps)) ≡ ltb k (length ps) = ground arith in rw (h, same)

collect-eq-cut_at :
    (glob : String → Bool) (bound found : ℕ) (files : List Segments)
    → found ≤ bound
    → collect glob bound found files ≡ cut_at (bound - found) (matching glob files)
unfolding collect
collect-eq-cut_at glob bound found [] h = sym (none_left (bound - found))
collect-eq-cut_at glob bound found (path ∷ files) h = elim (Bool-cases (glob (join path))) [
  | inl hit ↦ elim (Bool-cases (leb bound found)) [
    | inl full ↦
        let at_end : bound - found ≡ 0 = ground arith in
        rw (hit, full) (sym (full_up (bound - found) (join path) (matching glob files) at_end))
    | inr room ↦
        let left : bound - found ≡ suc (bound - suc found) = ground arith in
        rw (hit, room)
          (ap (add_path (join path)) (collect-eq-cut_at glob bound (suc found) files (ground arith))
            ∙ sym (
                one_more (bound - found) (bound - suc found) (join path) (matching glob files)
                  left))
  ]
  | inr miss ↦ rw miss (collect-eq-cut_at glob bound found files h)
]

module _ (port : StoragePort) (kernel : Kernel) (capabilities : List String) (pattern : String)
    (bound : ℕ) (self : MemoryHostDirPort) (state : ModelState) where
  -- A search that answers has the matching paths of the walk, cut at the bound.
  abbrev pub Finds : Option (FsResult port kernel FindGlobResult) → Type 0
  Finds none = ⊥
  Finds (some (err e)) = Unit
  Finds (some (ok result)) =
      (glob : String → Bool) × (files : List Segments) × (require_table_fs_read port kernel
          capabilities
        ≡ ok tt)
      × (kernel.require capabilities "find" ≡ ok tt)
      × (kernel.glob_matcher pattern ≡ ok glob)
      × ((more : ℕ)
          → walk port kernel (suc (longest state.entries + more)) self state [] ≡ some (ok files))
      × (result ≡ cut_at bound (matching glob files))

  answered :
      (a : FsResult port kernel (Unit {0})) (b : Result kernel.Failure (Unit {0}))
      (c : Result kernel.Failure (String → Bool)) (r : FsResult port kernel (List Segments))
      → require_table_fs_read port kernel capabilities ≡ a
      → kernel.require capabilities "find" ≡ b
      → kernel.glob_matcher pattern ≡ c
      → ((more : ℕ) → walk port kernel (suc (longest state.entries + more)) self state [] ≡ some r)
      → Finds (search_with port kernel (a >> (map_err failed b >> map_err failed c)) bound (some r))
  answered (err x) b c r e₁ e₂ e₃ w = tt
  answered (ok u) (err x) c r e₁ e₂ e₃ w = tt
  answered (ok u) (ok v) (err x) r e₁ e₂ e₃ w = tt
  answered (ok u) (ok v) (ok glob) (err x) e₁ e₂ e₃ w = tt
  answered (ok u) (ok v) (ok glob) (ok files) e₁ e₂ e₃ w =
      let whole : bound - 0 ≡ bound = omega arith in
      (
        glob,
        files,
        e₁,
        e₂,
        e₃,
        w,
        collect-eq-cut_at glob bound 0 files (omega arith)
            ∙ ap (λ n. cut_at n (matching glob files)) whole,
      )

  -- A search by a glob ends. Where it answers, the capabilities allow reading and searching, and the answer
  -- has the paths of the walk that match, in its order and at most as many as the bound, and tells
  -- whether there are more.
  pub find_glob-Finds : Finds (find_glob port kernel capabilities pattern bound self state)
  unfolding find_glob
  find_glob-Finds =
      let (r, walked) = walk_total port kernel self state [] in
      let end : longest state.entries + 0 ≡ longest state.entries = omega arith in
      let now : walk port kernel (suc (longest state.entries)) self state [] ≡ some r =
        subst (λ n. walk port kernel (suc n) self state [] ≡ some r) end (walked 0) in
      subst
        (λ w. Finds (
          search_with port kernel
            (require_table_fs_read port kernel capabilities
              >> (map_err failed (kernel.require capabilities "find")
                  >> map_err failed (kernel.glob_matcher pattern)))
            bound w))
        (sym now)
        (answered (require_table_fs_read port kernel capabilities)
          (kernel.require capabilities "find") (kernel.glob_matcher pattern) r refl refl refl
          walked)
