-- ===== src/HostDir/Quota.antt =====
-- The quota of the in-memory host directory.
use sim_platform.Prelude.{
  ℕ, ◌+◌, ◌^◌, ◌≤◌, ◌<◌, Bool, true, false, not, Option, none, some, List, [], ◌∷◌, All, ◌≡◌, refl,
  ap, sym, arith, if◌then◌else◌, Bool-cases, inl, inr, ok, err, refuse_if, ◌>>=◌, ◌>>◌, length,
}
use sim_platform.HostDir.Store.{Segments, segments_key, same_segments, starts_with, put, retain}
use sim_platform.Prelude.Maps.{get}
use sim_platform.HostDir.{
  StoragePort, ModelEntry, file, dir, ModelState, MemoryHostDirPort, PortResult, HostDirError,
  HostCompareExchange, size_of, total, file_size, is_over_quota, lookup, store, commit, full,
  replaced, replace, observe, same_contents, length_of, exchange, exchanged_state, compare_exchange,
  is_root, removed, remove_file, or_insert, created, create_dir, cleared, remove_dir_all,
}
use sim_platform.HostDir.Laws.{
  key_of, full_rule, Call, replacing, exchanging, removing, making, clearing, without,
}
use sim_platform.HostDir.History.{run, perform, outcome}

total-put :
    (k : Segments) (v : ModelEntry) (m : List (Segments × ModelEntry))
    → total (put k v m) + file_size (get ⦃e = segments_key⦄ k m) ≡ total m + size_of v
unfolding put get
total-put k v [] = omega arith
total-put k v ((j, w) ∷ m) = elim (Bool-cases (same_segments j k)) [
  | inl same ↦ rw same (omega arith)
  | inr other ↦ rw other (omega (arith, total-put k v m))
]

total-retain :
    (keep : Segments → Bool) (m : List (Segments × ModelEntry)) → total (retain keep m) ≤ total m
unfolding retain
total-retain keep [] = omega arith
total-retain keep ((j, w) ∷ m) = ground (arith, total-retain keep m)

file_size-le :
    (k : Segments) (m : List (Segments × ModelEntry))
    → file_size (get ⦃e = segments_key⦄ k m) ≤ total m
unfolding get
file_size-le k [] = omega arith
file_size-le k ((j, w) ∷ m) = ground (arith, file_size-le k m)

-- The bytes that stand in the files, which are at most the quota.
pub record IsWithin (quota : ℕ) (state : ModelState) : Type 0 where
  pub same_quota : state.quota ≡ quota
  pub fits : total state.entries ≤ quota

-- What a call writes is shorter than 2 ^ 63 bytes.
abbrev pub IsShort : Option (List ℕ) → Type 0
IsShort none = Unit
IsShort (some bytes) = length bytes < 2 ^ 63

abbrev pub WritesShort : Call → Type 0
WritesShort (replacing self path bytes c) = length bytes < 2 ^ 63
WritesShort (exchanging self path expected replacement before after) = IsShort replacement
WritesShort _ = Unit

module _ (port : StoragePort) (quota : ℕ) (small : quota < 2 ^ 63) (state : ModelState)
    (w : IsWithin quota state) where
  abbrev Keeps : {A : Type 0} → PortResult port (A × ModelState) → Type 0
  Keeps r = IsWithin quota (commit port state r).1

  guard_rule :
      {A : Type 0} (b : Bool) (e : HostDirError port) (k : PortResult port (A × ModelState))
      → (b ≡ false → Keeps k)
      → Keeps (refuse_if b e >> k)
  guard_rule true e k h = w
  guard_rule false e k h = h refl

  step_rule :
      {A B : Type 0} (r : PortResult port B) (k : B → PortResult port (A × ModelState))
      → ((b : B) → r ≡ ok b → Keeps (k b))
      → Keeps (r >>= k)
  step_rule (ok b) k h = h b refl
  step_rule (err e) k h = w

  key_rule :
      {A : Type 0} (self : MemoryHostDirPort) (path : Segments)
      (k : Segments → PortResult port (A × ModelState))
      → Keeps (k (key_of self path))
      → Keeps (full port self path >>= k)
  key_rule self path k h = full_rule port state Keeps self path k (λ e. w) h

  IsWithin-store :
      (key : Segments) (bytes : List ℕ) (old : ℕ)
      → old ≡ file_size (lookup key state)
      → length bytes < 2 ^ 63
      → is_over_quota state old (length bytes) ≡ false
      → IsWithin quota (store key (file bytes) state)
  IsWithin-store key bytes old same short h = record {
    same_quota = w.same_quota;
    fits = bound (length bytes) short h (total-put key (file bytes) state.entries);
  }
    where
      bound :
          (len : ℕ) {t' : ℕ}
          → len < 2 ^ 63
          → is_over_quota state old len ≡ false
          → t' + file_size (lookup key state) ≡ total state.entries + len
          → t' ≤ quota
      bound len s over e = ground (arith, w.same_quota, w.fits, file_size-le key state.entries)

  IsWithin-retain :
      (keep : Segments → Bool)
      → IsWithin quota (record state { entries = retain keep state.entries })
  IsWithin-retain keep = record {
    same_quota = w.same_quota;
    fits = omega (arith, w.fits, total-retain keep state.entries);
  }

  replace-IsWithin :
      (self : MemoryHostDirPort) (path : Segments) (bytes : List ℕ) (c : Bool)
      → length bytes < 2 ^ 63
      → IsWithin quota (replace port self path bytes c state).1
  unfolding replace replaced
  replace-IsWithin self path bytes c short = guard_rule c _ _ λ _. key_rule self path _ (
      guard_rule _ _ (ok (tt, store (key_of self path) (file bytes) state))
        (λ fits. IsWithin-store (key_of self path) bytes _ refl short fits))

  remove_file-IsWithin :
      (self : MemoryHostDirPort) (path : Segments)
      → IsWithin quota (remove_file port self path state).1
  unfolding remove_file removed
  remove_file-IsWithin self path =
      key_rule self path _
        (step_rule _ (λ u. ok (tt, without (key_of self path) state)) (λ u h. IsWithin-retain _))

  create_dir-IsWithin :
      (self : MemoryHostDirPort) (path : Segments)
      → IsWithin quota (create_dir port self path state).1
  unfolding create_dir created
  create_dir-IsWithin self path = key_rule self path _ (after (lookup (key_of self path) state))
    where
      after : (o : Option ModelEntry) → IsWithin quota (or_insert (key_of self path) o state)
      after (some value) = w
      after none = record {
        same_quota = w.same_quota;
        fits = omega (arith, w.fits, total-put (key_of self path) dir state.entries);
      }

  remove_dir_all-IsWithin :
      (self : MemoryHostDirPort) (path : Segments)
      → IsWithin quota (remove_dir_all port self path state).1
  unfolding remove_dir_all cleared
  remove_dir_all-IsWithin self path = key_rule self path _ (
      guard_rule _ _
        (ok (
          tt,
          record state {
            entries = retain (λ p. not (starts_with p (key_of self path))) state.entries;
          },
        ))
        (λ _. IsWithin-retain _))

  observe-size :
      (o : Option ModelEntry) (seen : Option (List ℕ))
      → observe port o ≡ ok seen
      → length_of seen ≡ file_size o
  observe-size none seen h = let e : none ≡ seen = cc in ap length_of (sym e)
  observe-size (some (file bytes)) seen h = let e : some bytes ≡ seen = cc in ap length_of (sym e)
  observe-size (some dir) seen h = cc

  compare_exchange-IsWithin :
      (self : MemoryHostDirPort) (path : Segments) (expected replacement : Option (List ℕ))
      (before after : Bool)
      → IsShort replacement
      → IsWithin quota (compare_exchange port self path expected replacement before after state).1
  unfolding compare_exchange exchanged_state exchange
  compare_exchange-IsWithin self path expected replacement before after short =
      guard_rule (is_root path) _ _ λ _. guard_rule before _ _ λ _. key_rule self path _ (
        step_rule (observe port (lookup key state)) _ λ seen e. guard_rule after _ _ λ _.
          decide (same_contents seen expected) seen (observe-size (lookup key state) seen e)
            replacement short)
    where
      key : Segments
      key = key_of self path

      decide :
          (x : Bool) (seen : Option (List ℕ))
          → length_of seen ≡ file_size (lookup (key_of self path) state)
          → (replacement : Option (List ℕ)) → IsShort replacement
          → Keeps {A = HostCompareExchange port} (
              (if x then exchange port (key_of self path) seen replacement state else ok state)
              >>= λ s. ok (record { exchanged = x; observed = seen }, s))
      decide false seen same replacement short = w
      decide true seen same none short = IsWithin-retain _
      decide true seen same (some bytes) short =
          elim (Bool-cases (is_over_quota state (length_of seen) (length bytes))) [
            | inl over ↦ rw over w
            | inr fits ↦ rw fits (IsWithin-store (key_of self path) bytes _ same short fits)
          ]

module _ (port : StoragePort) (quota : ℕ) (small : quota < 2 ^ 63) where
  within :
      {A : Type 0} (r : PortResult port A × ModelState)
      → IsWithin quota r.1
      → IsWithin quota (outcome port r).1
  within (ok a, state) h = h
  within (err e, state) h = h

  perform-IsWithin :
      (call : Call) (state : ModelState)
      → IsWithin quota state
      → WritesShort call
      → IsWithin quota (perform port call state).1
  unfolding perform
  perform-IsWithin (replacing self path bytes c) state w short =
      within _ (replace-IsWithin port quota small state w self path bytes c short)
  perform-IsWithin (exchanging self path expected replacement before after) state w short =
      within _ (
        compare_exchange-IsWithin port quota small state w self path expected replacement before
          after short)
  perform-IsWithin (removing self path) state w short =
      within _ (remove_file-IsWithin port quota small state w self path)
  perform-IsWithin (making self path) state w short =
      within _ (create_dir-IsWithin port quota small state w self path)
  perform-IsWithin (clearing self path) state w short =
      within _ (remove_dir_all-IsWithin port quota small state w self path)

  -- With a quota below 2 ^ 63, and contents shorter than 2 ^ 63 bytes, the files never hold more bytes
  -- together than the quota: where they fit it, they still do after any sequence of writing calls, and the
  -- quota is the same.
  pub run-IsWithin :
      (calls : List Call) (state : ModelState)
      → IsWithin quota state
      → All WritesShort calls
      → IsWithin quota (run port calls state)
  unfolding run
  run-IsWithin [] state w short = w
  run-IsWithin (call ∷ calls) state w short =
      run-IsWithin calls (perform port call state).1 (perform-IsWithin call state w short.0) short.1
