-- ===== src/TableFs/Find/Walk.antt =====
-- The walk ends: the longest path is fuel enough.
use sim_platform.Prelude.{
  ℕ, zero, suc, ◌+◌, ◌≤◌, String, Bool, true, false, none, some, List, [], ◌∷◌, ◌++◌, ◌≡◌, refl,
  sym, ◌∙◌, subst, arith, if◌then◌else◌, length, length-append, eqb, Result, ok, err, map_err,
  ◌>>=◌, ◌>>◌, text_key,
}
use sim_platform.Prelude.Maps.{values}
use sim_platform.HostDir.Store.{Segments}
use sim_platform.HostDir.{
  StoragePort, HostEntry, ModelEntry, ModelState, MemoryHostDirPort, PortResult, full, validate,
  rows_of, list,
}
use sim_platform.TableFs.Leaf.{Kernel, FsResult, port_error}
use sim_platform.TableFs.{is_directory}
use sim_platform.TableFs.Find.{
  is_hidden, longest, Walked, followed, visited, walk_entries, walk_listed, walk,
}

map_err-eq-ok :
    {E F A : Type 0} (f : E → F) (r : Result E A) {a : A} → map_err f r ≡ ok a → r ≡ ok a
map_err-eq-ok f (ok a) h = cc
map_err-eq-ok f (err e) h = cc

module _ (port : StoragePort) where
  -- A directory as deep as the longest path lists nothing.
  rows_of-deep :
      (base : Segments) (rows : List (String × HostEntry)) (entries : List (Segments × ModelEntry))
      → longest entries ≤ length base
      → rows_of port base rows entries ≡ rows
  unfolding rows_of
  rows_of-deep base rows [] h = refl
  rows_of-deep base rows ((path, value) ∷ entries) h =
      let short : eqb (length path) (length base + 1) ≡ false = ground arith in
      rw short (rows_of-deep base rows entries (omega arith))

  list-deep :
      (self : MemoryHostDirPort) (prefix : Segments) (state : ModelState)
      → longest state.entries ≤ length (self.prefix ++ prefix)
      → (r : PortResult port (List HostEntry)) → list port self prefix state ≡ r
      → (l : List HostEntry) → r ≡ ok l
      → l ≡ []
  unfolding list full values
  list-deep self prefix state h r e l f = checked (validate port prefix) (e ∙ f)
    where
      checked :
          (v : PortResult port (Unit {0}))
          → ((v >> ok (self.prefix ++ prefix)) >>= λ base.
              ok (values (rows_of port base [] state.entries)))
            ≡ ok l
          → l ≡ []
      checked (ok u) g =
          let none_there = rows_of-deep (self.prefix ++ prefix) [] state.entries h in
          let shown : values (rows_of port (self.prefix ++ prefix) [] state.entries) ≡ l = cc in
          sym shown ∙ rw none_there
      checked (err x) g = cc

  module _ (kernel : Kernel) where
    abbrev Ends : Walked port kernel → Type 0
    Ends w = (r : FsResult port kernel (List Segments)) × (w ≡ some r)

    followed-Ends :
        (path : Segments) (below : List Segments) (rest : Walked port kernel)
        → Ends rest
        → Ends (followed port kernel path below rest)
    followed-Ends path below none (r, h) = cc
    followed-Ends path below (some (err e)) h = (err e, refl)
    followed-Ends path below (some (ok rest)) h = (ok (path ∷ (below ++ rest)), refl)

    visited-Ends :
        (path : Segments) (below rest : Walked port kernel)
        → Ends below
        → Ends rest
        → Ends (visited port kernel path below rest)
    visited-Ends path none rest (r, h) k = cc
    visited-Ends path (some (err e)) rest h k = (err e, refl)
    visited-Ends path (some (ok below)) rest h k = followed-Ends path below rest k

    walk_entries-Ends :
        (deeper : Segments → Walked port kernel) (prefix : Segments) (entries : List HostEntry)
        → ((name : String) → Ends (deeper (prefix ++ name ∷ [])))
        → Ends (walk_entries port kernel deeper prefix entries)
    unfolding walk_entries
    walk_entries-Ends deeper prefix [] h = (ok [], refl)
    walk_entries-Ends deeper prefix (entry ∷ entries) h =
        let rest = walk_entries-Ends deeper prefix entries h in
        shown (is_hidden entry) rest
          (visited-Ends (prefix ++ entry.name ∷ []) _ _ (below (is_directory (some entry))) rest)
      where
        below : (b : Bool) → Ends (if b then deeper (prefix ++ entry.name ∷ []) else some (ok []))
        below true = h entry.name
        below false = (ok [], refl)

        shown :
            (b : Bool) {w : Walked port kernel}
            → Ends (walk_entries port kernel deeper prefix entries)
            → Ends w
            → Ends (if b then walk_entries port kernel deeper prefix entries else w)
        shown true rest k = rest
        shown false rest k = k

    walk_listed-Ends :
        (deeper : Segments → Walked port kernel) (prefix : Segments)
        (r : FsResult port kernel (List HostEntry))
        → ((l : List HostEntry) → r ≡ ok l → Ends (walk_entries port kernel deeper prefix l))
        → Ends (walk_listed port kernel deeper prefix r)
    walk_listed-Ends deeper prefix (err e) h = (err e, refl)
    walk_listed-Ends deeper prefix (ok l) h = h l refl

    walk-Ends :
        (fuel : ℕ) (self : MemoryHostDirPort) (state : ModelState) (prefix : Segments)
        → longest state.entries ≤ fuel + length (self.prefix ++ prefix)
        → Ends (walk port kernel (suc fuel) self state prefix)
    unfolding walk walk_entries
    walk-Ends zero self state prefix h =
        walk_listed-Ends (walk port kernel zero self state) prefix
          (map_err port_error (list port self prefix state))
          λ l e.
            let nothing =
              list-deep self prefix state (omega arith) (list port self prefix state) refl l
                (map_err-eq-ok port_error (list port self prefix state) e) in
            subst (λ l. Ends (walk_entries port kernel (walk port kernel zero self state) prefix l))
              (sym nothing) (ok [], refl)
    walk-Ends (suc fuel) self state prefix h =
        walk_listed-Ends (walk port kernel (suc fuel) self state) prefix
          (map_err port_error (list port self prefix state))
          λ l e. walk_entries-Ends (walk port kernel (suc fuel) self state) prefix l λ name.
            walk-Ends fuel self state (prefix ++ name ∷ []) (
              omega (
                arith,
                length-append self.prefix prefix,
                length-append self.prefix (prefix ++ name ∷ []),
                length-append prefix (name ∷ []),
              ))

    -- The second walk has every result of the first one.
    abbrev Covers : Walked port kernel → Walked port kernel → Type 0
    Covers w w' = (r : FsResult port kernel (List Segments)) → w ≡ some r → w' ≡ some r

    followed-Covers :
        (path : Segments) (below : List Segments) (rest rest' : Walked port kernel)
        → Covers rest rest'
        → Covers (followed port kernel path below rest) (followed port kernel path below rest')
    followed-Covers path below none rest' c r h = cc
    followed-Covers path below (some (err e)) rest' c r h =
        let same : rest' ≡ some (err e) = c (err e) refl in rw same h
    followed-Covers path below (some (ok l)) rest' c r h =
        let same : rest' ≡ some (ok l) = c (ok l) refl in rw same h

    visited-Covers :
        (path : Segments) (below below' rest rest' : Walked port kernel)
        → Covers below below'
        → Covers rest rest'
        → Covers (visited port kernel path below rest) (visited port kernel path below' rest')
    visited-Covers path none below' rest rest' b c r h = cc
    visited-Covers path (some (err e)) below' rest rest' b c r h =
        let same : below' ≡ some (err e) = b (err e) refl in rw same h
    visited-Covers path (some (ok l)) below' rest rest' b c r h =
        let same : below' ≡ some (ok l) = b (ok l) refl in
        rw same (followed-Covers path l rest rest' c r h)

    walk_entries-Covers :
        (deeper deeper' : Segments → Walked port kernel) (prefix : Segments)
        (entries : List HostEntry)
        → ((p : Segments) → Covers (deeper p) (deeper' p))
        → Covers
            (walk_entries port kernel deeper prefix entries)
            (walk_entries port kernel deeper' prefix entries)
    unfolding walk_entries
    walk_entries-Covers deeper deeper' prefix [] h = λ r e. e
    walk_entries-Covers deeper deeper' prefix (entry ∷ entries) h =
        let rest = walk_entries-Covers deeper deeper' prefix entries h in
        shown (is_hidden entry) rest (
          visited-Covers (prefix ++ entry.name ∷ []) _ _ _ _ (below (is_directory (some entry)))
            rest)
      where
        below :
            (b : Bool)
            → Covers
                (if b then deeper (prefix ++ entry.name ∷ []) else some (ok []))
                (if b then deeper' (prefix ++ entry.name ∷ []) else some (ok []))
        below true = h (prefix ++ entry.name ∷ [])
        below false = λ r e. e

        shown :
            (b : Bool) {v v' w w' : Walked port kernel}
            → Covers v v'
            → Covers w w'
            → Covers (if b then v else w) (if b then v' else w')
        shown true first second = first
        shown false first second = second

    walk-Covers :
        (fuel : ℕ) (self : MemoryHostDirPort) (state : ModelState) (prefix : Segments)
        → Covers
            (walk port kernel fuel self state prefix)
            (walk port kernel (suc fuel) self state prefix)
    unfolding walk
    walk-Covers zero self state prefix = λ r h. cc
    walk-Covers (suc fuel) self state prefix =
        listed (map_err port_error (list port self prefix state))
          (walk_entries-Covers (walk port kernel fuel self state)
            (walk port kernel (suc fuel) self state) prefix)
          (walk-Covers fuel self state)
      where
        listed :
            (l : FsResult port kernel (List HostEntry))
            → ((entries : List HostEntry)
                → ((p : Segments)
                    → Covers
                        (walk port kernel fuel self state p)
                        (walk port kernel (suc fuel) self state p))
                → Covers
                    (walk_entries port kernel (walk port kernel fuel self state) prefix entries)
                    (walk_entries port kernel
                      (walk port kernel (suc fuel) self state)
                      prefix
                      entries))
            → ((p : Segments)
                → Covers
                    (walk port kernel fuel self state p)
                    (walk port kernel (suc fuel) self state p))
            → Covers
                (walk_listed port kernel (walk port kernel fuel self state) prefix l)
                (walk_listed port kernel (walk port kernel (suc fuel) self state) prefix l)
        listed (err e) k more = λ r h. h
        listed (ok entries) k more = k entries more

    -- The walk ends, with one result whatever the fuel, as long as the fuel is above the length of the longest
    -- path of the host directory.
    pub walk_total :
        (self : MemoryHostDirPort) (state : ModelState) (prefix : Segments)
        → (r : FsResult port kernel (List Segments)) × ((more : ℕ)
            → walk port kernel (suc (longest state.entries + more)) self state prefix ≡ some r)
    walk_total self state prefix =
        let enough = walk-Ends (longest state.entries) self state prefix (omega arith) in
        (enough.0, λ more. grown more enough.0 enough.1)
      where
        grown :
            (more : ℕ) (r : FsResult port kernel (List Segments))
            → walk port kernel (suc (longest state.entries)) self state prefix ≡ some r
            → walk port kernel (suc (longest state.entries + more)) self state prefix ≡ some r
        grown zero r h =
            let e : longest state.entries ≡ longest state.entries + 0 = omega arith in rw (← e) h
        grown (suc more) r h =
            let e : suc (longest state.entries + more) ≡ longest state.entries + suc more =
              omega arith in
            rw (← e) (
              walk-Covers (suc (longest state.entries + more)) self state prefix r (grown more r h))
