-- ===== src/Bootstrap/Bounds.antt =====
-- Which envelopes `BootstrapEnvelope::validate` of crates/sim-platform-bootstrap accepts.
use sim_platform.Prelude.{
  ℕ, ◌≤◌, false, ◌||◌, List, [], ◌∷◌, ◌≡◌, ◌≢◌, ◌↔◌, refl, arith, ltb, eqb, length, any, All,
  Result, ok, refuse_if_rule,
}
use sim_platform.Bootstrap.{
  max_artifact_bytes, max_envelope_items, max_envelope_item_bytes, World, BootstrapEnvelope,
  BootstrapError, all_roots, is_long_frame, validate,
}

module _ {A : Type 0} (size : A → ℕ) (bound : ℕ) where
  none_over :
      (xs : List A) → any (λ x. ltb bound (size x)) xs ≡ false → All (λ x. size x ≤ bound) xs
  none_over [] h = tt
  none_over (x ∷ xs) h = (ground arith, none_over xs (ground arith))

  All-within :
      (xs : List A) → All (λ x. size x ≤ bound) xs → any (λ x. ltb bound (size x)) xs ≡ false
  All-within [] h = refl
  All-within (x ∷ xs) (h, k) = ground (arith, All-within xs k)

module _ (world : World) (self : BootstrapEnvelope world) where
  -- The bounds of an envelope.
  pub record IsBounded : Type 0 where
    pub arguments : length self.argv ≤ max_envelope_items
    pub roots : length self.preopened_roots ≤ max_envelope_items
    pub identified : world.text_bytes self.bundle_identity ≢ 0
    pub identity : world.text_bytes self.bundle_identity ≤ max_envelope_item_bytes
    pub each_argument : All (λ arg. world.os_bytes arg ≤ max_envelope_item_bytes) self.argv
    pub each_root :
        All (λ root. world.path_bytes root ≤ max_envelope_item_bytes) (all_roots world self)
    pub frames :
        All
          (λ frame. length frame ≤ max_artifact_bytes)
          (self.stdio.stdin ∷ self.stdio.stdout ∷ self.stdio.stderr ∷ [])

  abbrev Checked : Result (BootstrapError world) (Unit {0}) → Type 0
  Checked r = r ≡ ok tt → IsBounded

  validate-IsBounded : Checked (validate world self)
  unfolding validate
  validate-IsBounded =
      refuse_if_rule Checked
        (ltb max_envelope_items (length self.argv)
          || ltb max_envelope_items (length self.preopened_roots))
        _ _ (λ many h. cc)
        λ items.
          refuse_if_rule Checked
            (eqb (world.text_bytes self.bundle_identity) 0
              || ltb max_envelope_item_bytes (world.text_bytes self.bundle_identity))
            _ _ (λ wrong h. cc)
            λ identity.
              refuse_if_rule Checked
                (any (λ arg. ltb max_envelope_item_bytes (world.os_bytes arg)) self.argv) _ _
                (λ long h. cc)
                λ arguments.
                  refuse_if_rule Checked
                    (any (λ root. ltb max_envelope_item_bytes (world.path_bytes root))
                      (all_roots world self))
                    _ _ (λ long h. cc)
                    λ roots.
                      refuse_if_rule Checked
                        (any (is_long_frame world)
                          (self.stdio.stdin ∷ self.stdio.stdout ∷ self.stdio.stderr ∷ []))
                        _ _ (λ long h. cc)
                        λ frames h. record {
                          arguments = ground arith;
                          roots = ground arith;
                          identified = λ e. ground arith;
                          identity = ground arith;
                          each_argument =
                              none_over world.os_bytes max_envelope_item_bytes self.argv arguments;
                          each_root =
                              none_over world.path_bytes max_envelope_item_bytes
                                (all_roots world self) roots;
                          frames =
                              none_over (length {A = ℕ}) max_artifact_bytes
                                (self.stdio.stdin ∷ self.stdio.stdout ∷ self.stdio.stderr ∷ [])
                                frames;
                        }

  IsBounded-validate : IsBounded → validate world self ≡ ok tt
  unfolding validate
  IsBounded-validate b =
      let items : (ltb max_envelope_items (length self.argv)
            || ltb max_envelope_items (length self.preopened_roots))
          ≡ false =
        ground (arith, b.arguments, b.roots) in
      let identity : (eqb (world.text_bytes self.bundle_identity) 0
            || ltb max_envelope_item_bytes (world.text_bytes self.bundle_identity))
          ≡ false =
        ground (arith, b.identified, b.identity) in
      rw (
        items,
        identity,
        All-within world.os_bytes max_envelope_item_bytes self.argv b.each_argument,
        All-within world.path_bytes max_envelope_item_bytes (all_roots world self) b.each_root,
        All-within length max_artifact_bytes
            (self.stdio.stdin ∷ self.stdio.stdout ∷ self.stdio.stderr ∷ []) b.frames,
      )

  -- An envelope is valid exactly when it has at most 256 arguments and preopened roots, an identity of 1
  -- to 16384 bytes, no argument and no root (preopened, home or work) of more than 16384 bytes, and no
  -- standard stream of more than 512 MiB.
  pub validate_iff : (validate world self ≡ ok tt) ↔ IsBounded
  validate_iff = (validate-IsBounded, IsBounded-validate)
