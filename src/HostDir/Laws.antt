-- ===== src/HostDir/Laws.antt =====
-- The port as a map from full paths to entries: what each call that writes does to it.
use sim_platform.Prelude.{
  ℕ, Bool, true, false, not, Option, none, some, List, ◌++◌, ◌≡◌, refl, ap, sym, ◌∙◌, arith,
  if◌then◌else◌, Bool-cases, inl, inr, ok, err, refuse_if, ◌>>=◌, ◌>>◌,
}
use sim_platform.HostDir.Store.{
  Segments, same_segments, same_segments_iff, starts_with, retain, get-put, get-retain,
}
use sim_platform.HostDir.{
  StoragePort, ModelEntry, file, dir, ModelState, MemoryHostDirPort, lookup, store, PortResult,
  HostDirError, full, validate, commit, replaced, replace, same_bytes, removed, remove_file,
  or_insert, created, create_dir, cleared, remove_dir_all,
}

-- The abstract view: what stands at a full path.
abbrev pub View : Type 0
View = Segments → Option ModelEntry

abbrev pub update : View → Segments → Option ModelEntry → View
update fs key value k = if same_segments key k then value else fs k

abbrev pub file_of : Option (List ℕ) → Option ModelEntry
file_of none = none
file_of (some bytes) = some (file bytes)

-- The calls that write, each through a port; what the cancellation says is part of the call.
pub data Call : Type 0 where
  replacing : MemoryHostDirPort → Segments → List ℕ → Bool → Call
  exchanging :
      MemoryHostDirPort
      → Segments
      → (expected replacement : Option (List ℕ)) → (before after : Bool) → Call
  removing making clearing : MemoryHostDirPort → Segments → Call

abbrev pub key_of : MemoryHostDirPort → Segments → Segments
key_of self path = self.prefix ++ path

abbrev pub or_dir : Option ModelEntry → Option ModelEntry
or_dir none = some dir
or_dir (some value) = some value

-- The file at the key is exchanged where it is as expected; a directory is never touched.
abbrev pub swap : Option ModelEntry → (expected replacement : Option (List ℕ)) → Option ModelEntry
swap none none replacement = file_of replacement
swap none (some b) replacement = none
swap (some dir) expected replacement = some dir
swap (some (file a)) none replacement = some (file a)
swap (some (file a)) (some b) replacement =
    if same_bytes a b then file_of replacement else some (file a)

-- The specification: what an accepted call does to the view.
abbrev pub spec : Call → View → View
spec (replacing self path bytes c) fs = update fs (key_of self path) (some (file bytes))
spec (exchanging self path expected replacement before after) fs =
    update fs (key_of self path) (swap (fs (key_of self path)) expected replacement)
spec (removing self path) fs = update fs (key_of self path) none
spec (making self path) fs = update fs (key_of self path) (or_dir (fs (key_of self path)))
spec (clearing self path) fs = λ k. if starts_with k (key_of self path) then none else fs k

abbrev pub view : ModelState → View
view state k = lookup k state

pub view-store :
    (key k : Segments) (value : ModelEntry) (state : ModelState)
    → view (store key value state) k ≡ update (view state) key (some value) k
view-store key k value state = get-put key k value state.entries

abbrev pub without : Segments → ModelState → ModelState
without key state = record state { entries = retain (λ p. not (same_segments p key)) state.entries }

same_back : (p q : Segments) → same_segments p q ≡ same_segments q p
same_back p q = ground (arith, same_segments_iff p q, same_segments_iff q p)

pub view-without :
    (key k : Segments) (state : ModelState)
    → view (without key state) k ≡ update (view state) key none k
view-without key k state =
    get-retain (λ p. not (same_segments p key)) k state.entries ∙ ground (arith, same_back key k)

-- A key that is updated to what it has.
pub update_same :
    (fs : View) (key k : Segments) (value : Option ModelEntry)
    → fs key ≡ value
    → update fs key value k ≡ fs k
update_same fs key k value h = elim (Bool-cases (same_segments key k)) [
  | inl same ↦ rw same (sym h ∙ ap fs ((same_segments_iff key k).0 same))
  | inr other ↦ rw other
]

module _ (port : StoragePort) (state : ModelState) where
  -- The state after a call: as specified where it was accepted, and else as it was.
  abbrev pub Follows : {A : Type 0} → Call → PortResult port A × ModelState → Type 0
  Follows call (ok a, state') = (k : Segments) → view state' k ≡ spec call (view state) k
  Follows call (err e, state') = state' ≡ state

  abbrev pub Commits : {A : Type 0} → Call → PortResult port (A × ModelState) → Type 0
  Commits call r = Follows call (commit port state r)

  pub full_rule :
      {A : Type 0} (P : PortResult port A → Type 0) (self : MemoryHostDirPort) (path : Segments)
      (f : Segments → PortResult port A)
      → ((e : HostDirError port) → P (err e))
      → P (f (key_of self path))
      → P (full port self path >>= f)
  unfolding full
  full_rule P self path f refused goes_on = after (validate port path)
    where
      after : (r : PortResult port (Unit {0})) → P ((r >>= λ _. ok (key_of self path)) >>= f)
      after (ok u) = goes_on
      after (err e) = refused e

  -- A test in front: a refusal leaves the state as it was.
  guard_rule :
      {A : Type 0} (call : Call) (b : Bool) (e : HostDirError port)
      (k : PortResult port (A × ModelState))
      → Commits call k
      → Commits call (refuse_if b e >> k)
  guard_rule call true e k h = refl
  guard_rule call false e k h = h

  step_rule :
      {A B : Type 0} (call : Call) (r : PortResult port B)
      (k : B → PortResult port (A × ModelState))
      → ((b : B) → r ≡ ok b → Commits call (k b))
      → Commits call (r >>= k)
  step_rule call (ok b) k h = h b refl
  step_rule call (err e) k h = refl

  key_rule :
      {A : Type 0} (call : Call) (self : MemoryHostDirPort) (path : Segments)
      (k : Segments → PortResult port (A × ModelState))
      → Commits call (k (key_of self path))
      → Commits call (full port self path >>= k)
  key_rule call self path k h = full_rule (Commits call) self path k (λ e. refl) h

  pub replace-Follows :
      (self : MemoryHostDirPort) (path : Segments) (bytes : List ℕ) (c : Bool)
      → Follows (replacing self path bytes c) (replace port self path bytes c state)
  unfolding replace replaced
  replace-Follows self path bytes c =
      let call = replacing self path bytes c in
      guard_rule call c _ _ (
        key_rule call self path _ (
          guard_rule call _ _ (ok (tt, store (key_of self path) (file bytes) state))
            (λ k. view-store (key_of self path) k (file bytes) state)))

  pub remove_file-Follows :
      (self : MemoryHostDirPort) (path : Segments)
      → Follows (removing self path) (remove_file port self path state)
  unfolding remove_file removed
  remove_file-Follows self path =
      let call = removing self path in
      key_rule call self path _ (
        step_rule call _ (λ u. ok (tt, without (key_of self path) state))
          (λ u h k. view-without (key_of self path) k state))

  pub create_dir-Follows :
      (self : MemoryHostDirPort) (path : Segments)
      → Follows (making self path) (create_dir port self path state)
  unfolding create_dir created
  create_dir-Follows self path =
      key_rule (making self path) self path _ (after (lookup (key_of self path) state) refl)
    where
      after :
          (o : Option ModelEntry)
          → lookup (key_of self path) state ≡ o
          → (k : Segments)
          → view (or_insert (key_of self path) o state) k ≡ spec (making self path) (view state) k
      after none h k = view-store (key_of self path) k dir state ∙ rw h
      after (some value) h k = sym (
          update_same (view state) (key_of self path) k (or_dir (lookup (key_of self path) state))
            (h ∙ rw h))

  pub remove_dir_all-Follows :
      (self : MemoryHostDirPort) (path : Segments)
      → Follows (clearing self path) (remove_dir_all port self path state)
  unfolding remove_dir_all cleared
  remove_dir_all-Follows self path =
      let call = clearing self path in
      key_rule call self path _ (
        guard_rule call _ _
          (ok (
            tt,
            record state {
              entries = retain (λ p. not (starts_with p (key_of self path))) state.entries;
            },
          ))
          (λ k. get-retain (λ p. not (starts_with p (key_of self path))) k state.entries ∙ flip k))
    where
      flip :
          (k : Segments)
          → (if not (starts_with k (key_of self path)) then lookup k state else none)
            ≡ (if starts_with k (key_of self path) then none else lookup k state)
      flip k = ground arith
