-- ===== src/HostDir/Exchange.antt =====
-- `compare_exchange` of the in-memory host directory.
use sim_platform.Prelude.{
  ℕ, Bool, true, false, Option, none, some, List, [], ◌∷◌, ◌≡◌, ◌↔◌, refl, ap, sym, subst, ◌∙◌,
  arith, if◌then◌else◌, Bool-cases, inl, inr, ok, err, refuse_if, ◌>>=◌, ◌>>◌, length,
}
use sim_platform.HostDir.Store.{Segments}
use sim_platform.HostDir.{
  StoragePort, file, ModelState, MemoryHostDirPort, lookup, store, is_over_quota, length_of,
  PortResult, HostDirError, error, commit, HostCompareExchange, observe, same_bytes, same_contents,
  exchange, exchanged_state, compare_exchange, is_root,
}
use sim_platform.HostDir.Laws.{
  update, file_of, key_of, view, view-store, view-without, without, full_rule,
}

pub same_bytes_sound : (a b : List ℕ) → same_bytes a b ≡ true → a ≡ b
same_bytes_sound [] [] h = refl
same_bytes_sound [] (y ∷ b) h = cc
same_bytes_sound (x ∷ a) [] h = cc
same_bytes_sound (x ∷ a) (y ∷ b) h =
    let first : x ≡ y = ground arith in
    let rest = same_bytes_sound a b (ground arith) in cc (first, rest)

pub same_bytes_refl : (a : List ℕ) → same_bytes a a ≡ true
same_bytes_refl [] = refl
same_bytes_refl (x ∷ a) = ground (arith, same_bytes_refl a)

same_contents_iff : (a b : Option (List ℕ)) → (same_contents a b ≡ true) ↔ (a ≡ b)
same_contents_iff none none = (λ h. refl, λ h. refl)
same_contents_iff none (some b) = (λ h. cc, λ h. cc)
same_contents_iff (some a) none = (λ h. cc, λ h. cc)
same_contents_iff (some a) (some b) = (
  λ h. ap some (same_bytes_sound a b h),
  λ h. subst (λ o. same_contents (some a) o ≡ true) h (same_bytes_refl a),
)

module _ (port : StoragePort) (state : ModelState) (self : MemoryHostDirPort) (path : Segments)
    (expected replacement : Option (List ℕ)) (before after : Bool) where
  abbrev key : Segments
  key = key_of self path

  -- What an answered exchange saw and did; a refused one did nothing.
  abbrev pub Atomic : PortResult port (HostCompareExchange port) × ModelState → Type 0
  Atomic (ok r, state') =
      (observe port (view state (key_of self path)) ≡ ok r.observed)
      × ((r.exchanged ≡ true) ↔ (r.observed ≡ expected))
      × ((k : Segments)
          → view state' k ≡ (
              if r.exchanged
              then update (view state) (key_of self path) (file_of replacement) k
              else view state k))
  Atomic (err e, state') = state' ≡ state

  abbrev Commits : PortResult port (HostCompareExchange port × ModelState) → Type 0
  Commits r = Atomic (commit port state r)

  guard_rule :
      (b : Bool) (e : HostDirError port)
      (k : PortResult port (HostCompareExchange port × ModelState))
      → Commits k
      → Commits (refuse_if b e >> k)
  guard_rule true e k h = refl
  guard_rule false e k h = h

  step_rule :
      {B : Type 0} (r : PortResult port B)
      (k : B → PortResult port (HostCompareExchange port × ModelState))
      → ((b : B) → r ≡ ok b → Commits (k b))
      → Commits (r >>= k)
  step_rule (ok b) k h = h b refl
  step_rule (err e) k h = refl

  exchange-view :
      (observed replaced : Option (List ℕ)) (s : ModelState)
      → exchange port key observed replaced state ≡ ok s
      → (k : Segments) → view s k ≡ update (view state) key (file_of replaced) k
  unfolding exchange
  exchange-view observed none s h k =
      let same : without key state ≡ s = cc in
      ap (λ t. view t k) (sym same) ∙ view-without key k state
  exchange-view observed (some bytes) s h k =
      elim (Bool-cases (is_over_quota state (length_of observed) (length bytes))) [
        | inl over ↦ absurd (stop over h)
        | inr fits ↦ ap (λ t. view t k) (sym (go_on fits h)) ∙ view-store key k (file bytes) state
      ]
    where
      stop :
          is_over_quota state (length_of observed) (length bytes) ≡ true
          → (refuse_if
                (is_over_quota state (length_of observed) (length bytes))
                (error port port.quota_exceeded "storage quota exceeded")
              >> ok (store key (file bytes) state))
            ≡ ok s
          → ⊥
      stop over e = cc (simp over at e)

      go_on :
          is_over_quota state (length_of observed) (length bytes) ≡ false
          → (refuse_if
                (is_over_quota state (length_of observed) (length bytes))
                (error port port.quota_exceeded "storage quota exceeded")
              >> ok (store key (file bytes) state))
            ≡ ok s
          → store key (file bytes) state ≡ s
      go_on fits e = cc (simp fits at e)

  -- An exchange is atomic: an answer gives the contents that stood at the full path before, says that they
  -- were exchanged exactly when they are the expected ones, and then exactly that entry has become the
  -- replacement (a file, or none) and every other entry is as before; without an exchange, and on a
  -- refusal, nothing has changed.
  pub compare_exchange-Atomic :
      Atomic (compare_exchange port self path expected replacement before after state)
  unfolding compare_exchange exchanged_state
  compare_exchange-Atomic = guard_rule (is_root path) _ _ (
      guard_rule before _ _ (
        full_rule port state Commits self path _ (λ e. refl)
          (step_rule (observe port (lookup key state)) _
            λ observed seen. guard_rule after _ _ (decide observed seen))))
    where
      decide :
          (observed : Option (List ℕ))
          → observe port (lookup key state) ≡ ok observed
          → Commits (
              (if same_contents observed expected
                then exchange port key observed replacement state
                else ok state)
              >>= λ s.
                  ok (
                    record { exchanged = same_contents observed expected; observed = observed },
                    s,
                  ))
      decide observed seen = elim (Bool-cases (same_contents observed expected)) [
        | inl same ↦ rw same (
            step_rule (exchange port key observed replacement state) _ λ s done. (
              seen,
              (λ h. (same_contents_iff observed expected).0 same, λ h. refl),
              exchange-view observed replacement s done,
            ))
        | inr other ↦ rw other (
          seen,
          ((λ h. cc), λ e. absurd (cc (other, (same_contents_iff observed expected).1 e))),
          λ k. refl,
        )
      ]
