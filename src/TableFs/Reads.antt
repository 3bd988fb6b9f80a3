-- ===== src/TableFs/Reads.antt =====
-- The calls of a table that only read.
use sim_platform.Prelude.{String, Bool, true, false, Option, none, some, List, [], ◌∷◌, ◌≡◌, Result}
use sim_platform.HostDir.{StoragePort, ModelState, MemoryHostDirPort, HostEntry}
use sim_platform.TableFs.Leaf.{Kernel, is_some, FsError, Leaf}
use sim_platform.TableFs.Steps.{next, next_rule}
use sim_platform.TableFs
use sim_platform.TableFs.{Fs}
use sim_platform.TableFs.Listing as Listing

module _ (port : StoragePort) (kernel : Kernel) where
  -- A chain whose steps leave the state as it was.
  pub unchanged :
      {A B : Type 0} (before : ModelState) (f : A → Fs port kernel B)
      (r : Result (FsError port kernel) A × ModelState)
      → r.1 ≡ before
      → ((a : A) (state : ModelState) → state ≡ before → (f a state).1 ≡ before)
      → (next f r).1 ≡ before
  unchanged before f r = next_rule (λ state. state ≡ before) f r

  module _ (capabilities : List String) (self : MemoryHostDirPort) (before : ModelState) where
    pub get_still :
        (key : kernel.Symbol) (state : ModelState)
        → state ≡ before
        → (TableFs.get port kernel capabilities key self state).1 ≡ before
    unfolding TableFs.get
    get_still key state h =
        unchanged before _ _ h λ u s h. unchanged before _ _ h λ leaf s h. value leaf s h
      where
        value :
            (leaf : Option (Leaf port kernel)) (s : ModelState)
            → s ≡ before
            → (TableFs.value_of port kernel key leaf self s).1 ≡ before
        value none s h = h
        value (some leaf) s h = unchanged before _ _ h λ found s h. h

    pub has_still :
        (key : kernel.Symbol) (state : ModelState)
        → state ≡ before
        → (TableFs.has port kernel capabilities key self state).1 ≡ before
    unfolding TableFs.has
    has_still key state h = unchanged before _ _ h λ u s h.
        unchanged before _ _ h
          λ path s h. unchanged before _ _ h λ entry s h. answer (TableFs.is_directory entry) s h
      where
        answer :
            (b : Bool) (s : ModelState)
            → s ≡ before
            → (TableFs.has_leaf port kernel b key self s).1 ≡ before
        answer true s h = h
        answer false s h = unchanged before _ _ h λ leaf s h. h

    pub opendir_still :
        (key : kernel.Symbol) (state : ModelState)
        → state ≡ before
        → (TableFs.opendir port kernel capabilities key self state).1 ≡ before
    unfolding TableFs.opendir
    opendir_still key state h = unchanged before _ _ h λ u s h. unchanged before _ _ h λ path s h.
        unchanged before _ _ h λ entry s h. opened (TableFs.is_directory entry) entry s h
      where
        nothing_there :
            (b : Bool) (s : ModelState)
            → s ≡ before
            → (TableFs.no_dir port kernel b key self s).1 ≡ before
        nothing_there true s h = h
        nothing_there false s h =
            unchanged before _ _ h λ leaf s h. unchanged before _ _ h λ u s h. h

        opened :
            (b : Bool) (entry : Option HostEntry) (s : ModelState)
            → s ≡ before
            → (TableFs.open_as port kernel b entry key self s).1 ≡ before
        opened true entry s h =
            unchanged before _ _ h λ inner s h. unchanged before _ _ h λ v s h. h
        opened false entry s h = nothing_there (is_some entry) s h

    pub is_dir_still :
        (key : kernel.Symbol) (state : ModelState)
        → state ≡ before
        → (TableFs.is_dir port kernel capabilities key self state).1 ≡ before
    unfolding TableFs.is_dir
    is_dir_still key state h =
        unchanged before _ _ h
          λ u s h. unchanged before _ _ h λ path s h. unchanged before _ _ h λ entry s h. h

    pub keys_still :
        (state : ModelState)
        → state ≡ before
        → (Listing.keys port kernel capabilities self state).1 ≡ before
    unfolding Listing.keys
    keys_still state h = unchanged before _ _ h λ u s h. unchanged before _ _ h λ listed s h. h

    entries_among_still :
        (ks : List kernel.Symbol) (state : ModelState)
        → state ≡ before
        → (Listing.entries_among port kernel capabilities ks self state).1 ≡ before
    unfolding Listing.entries_among
    entries_among_still [] state h = h
    entries_among_still (key ∷ ks) state h =
        unchanged before _ _ (is_dir_still key state h)
          λ inner s h. found inner (entries_among_still ks) s h
      where
        found :
            (b : Bool)
            → ((s : ModelState)
                → s ≡ before
                → (Listing.entries_among port kernel capabilities ks self s).1 ≡ before)
            → (s : ModelState) → s ≡ before
            → (Listing.with_entry port kernel b capabilities key self
                (Listing.entries_among port kernel capabilities ks self)
                s).1
              ≡ before
        found true rest s h = rest s h
        found false rest s h =
            unchanged before _ _ (get_still key s h)
              λ v s h. unchanged before _ _ (rest s h) λ others s h. h

    pub entries_still :
        (state : ModelState)
        → state ≡ before
        → (Listing.entries port kernel capabilities self state).1 ≡ before
    unfolding Listing.entries
    entries_still state h =
        unchanged before _ _ h
          λ u s h. unchanged before _ _ (keys_still s h) λ ks s h. entries_among_still ks s h

    pub len_still :
        (state : ModelState)
        → state ≡ before
        → (Listing.table_len port kernel capabilities self state).1 ≡ before
    unfolding Listing.table_len
    len_still state h = unchanged before _ _ (entries_still state h) λ found s h. h
