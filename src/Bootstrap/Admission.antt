-- ===== src/Bootstrap/Admission.antt =====
-- From an admitted envelope to the loaded capsule of crates/sim-platform-bootstrap.
use sim_platform.Prelude.{
  ℕ, String, true, not, some, List, ◌≡◌, refl, arith, if_rule, ◌==◌, text_key, inl, inr, ◌⊎◌,
  Result, ok, err, ok_or_rule, refuse_if_rule, bind_rule, OnOk, OnOk-ok,
}
use sim_platform.Core.Validation.{CapsuleManifest, BundleManifest}
use sim_platform.Bootstrap.{
  max_artifact_bytes, World, BootstrapEnvelope, BootstrappedCapsule, BootstrapPolicy,
  BootstrapError, native, invalid_adjacent_name, content_mismatch, validate, read_bounded,
  content_name, admit_manifests, admit_artifact, admit, loaded, load_admitted, bootstrap,
}
use sim_platform.Bootstrap.Laws.{
  IsBounded, IsManifests, read_bounded-Bounded, admit_manifests-IsManifests,
}

module _ (world : World) where
  -- The artifact is the file of its name, within the bound, with the content that the bundle claims.
  pub record IsArtifact (adjacent : world.FilePath) (bundle : BundleManifest) (artifact : List ℕ)
      : Type 0 where
    pub read : IsBounded world (world.join adjacent bundle.artifact) max_artifact_bytes artifact
    pub content : content_name world artifact ≡ bundle.artifact_content

  admit_artifact-IsArtifact :
      (adjacent : world.FilePath) (bundle : BundleManifest)
      → OnOk (IsArtifact adjacent bundle) (admit_artifact world adjacent bundle)
  unfolding admit_artifact
  admit_artifact-IsArtifact adjacent bundle =
      let path = world.join adjacent bundle.artifact in
      bind_rule (OnOk (IsArtifact adjacent bundle)) (read_bounded world path max_artifact_bytes) _
        (λ artifact is_read.
          refuse_if_rule (OnOk (IsArtifact adjacent bundle))
            (not (content_name world artifact == bundle.artifact_content))
            (content_mismatch bundle.artifact_content (content_name world artifact)) (ok artifact)
            (λ changed. tt)
            λ same. record {
              read =
                  OnOk-ok (IsBounded world path max_artifact_bytes) _
                    (read_bounded-Bounded world path max_artifact_bytes) is_read;
              content = (text_key.eq_decides (content_name world artifact) _).0 (ground arith);
            })
        (λ e refused. tt)

  module _ (executable : world.FilePath) (envelope : BootstrapEnvelope world)
      (policy : BootstrapPolicy world) where
    -- What stands behind an admitted envelope and the path of its artifact.
    pub record IsAdmission (o : BootstrapEnvelope world × world.FilePath) : Type 0 where
      pub bounded : validate world envelope ≡ ok tt
      pub adjacent : world.FilePath
      pub beside : world.parent executable ≡ some adjacent
      pub bundle : BundleManifest
      pub capsule : CapsuleManifest
      pub manifests : IsManifests world executable envelope policy adjacent (bundle, capsule)
      pub bytes : List ℕ
      pub artifact : IsArtifact adjacent bundle bytes
      pub same_path : o.1 ≡ world.join adjacent bundle.artifact
      pub same_envelope :
          o.0
          ≡ record envelope { bundle_identity = content_name world bytes; capsule_card = capsule }

    admit-IsAdmission : OnOk IsAdmission (admit world executable envelope policy)
    unfolding admit
    admit-IsAdmission =
        bind_rule (OnOk IsAdmission) (validate world envelope) _
          (λ u bounded.
            ok_or_rule (OnOk IsAdmission) (world.parent executable)
              (invalid_adjacent_name (world.display executable)) _
              (λ adjacent beside.
                bind_rule (OnOk IsAdmission) (admit_manifests world adjacent policy) _
                  (λ manifests manifests_ok.
                    bind_rule (OnOk IsAdmission) (admit_artifact world adjacent manifests.0) _
                      (λ bytes artifact_ok. record {
                        bounded = bounded;
                        adjacent = adjacent;
                        beside = beside;
                        bundle = manifests.0;
                        capsule = manifests.1;
                        manifests =
                            OnOk-ok (IsManifests world executable envelope policy adjacent) _
                              (admit_manifests-IsManifests world executable envelope policy
                                adjacent)
                              manifests_ok;
                        bytes = bytes;
                        artifact =
                            OnOk-ok (IsArtifact adjacent manifests.0) _
                              (admit_artifact-IsArtifact adjacent manifests.0) artifact_ok;
                        same_path = refl;
                        same_envelope = refl;
                      })
                      (λ e refused. tt))
                  (λ e refused. tt))
              (λ rootless. tt))
          (λ e refused. tt)

    module _ (cx : world.Cx) (loader : world.Loader) where
      -- A loaded capsule comes from an admission; a refusal has not touched the kernel's context, unless it
      -- is the loader's own.
      abbrev pub Justified :
          Result (BootstrapError world) (BootstrappedCapsule world) × world.Cx → Type 0
      Justified (ok b, cx') =
          (path : world.FilePath) × IsAdmission (b.envelope, path)
          × (world.can_load loader (world.path_source path) ≡ true)
          × (world.load_library loader cx (world.path_source path) ≡ (ok b.capsule, cx'))
      Justified (err e, cx') =
          (cx' ≡ cx)
          ⊎ ((path : world.FilePath) × (detail : String) × (e ≡ native detail)
              × (world.load_library loader cx (world.path_source path) ≡ (err detail, cx')))

      loaded-Justified :
          (o : BootstrapEnvelope world × world.FilePath)
          (r : Result String world.Library × world.Cx)
          → IsAdmission o
          → world.can_load loader (world.path_source o.1) ≡ true
          → world.load_library loader cx (world.path_source o.1) ≡ r
          → Justified (loaded world o.0 r)
      loaded-Justified o (ok library, cx') a can e = (o.1, a, can, e)
      loaded-Justified o (err detail, cx') a can e = inr (o.1, detail, refl, e)

      load_admitted-Justified :
          (r : Result (BootstrapError world) (BootstrapEnvelope world × world.FilePath))
          → OnOk IsAdmission r
          → Justified (load_admitted world loader r cx)
      load_admitted-Justified (err e) h = inl refl
      load_admitted-Justified (ok (envelope', path)) h =
          if_rule Justified (not (world.can_load loader (world.path_source path))) _ _
            (λ foreign. inl refl)
            (λ can. loaded-Justified (envelope', path) _ h (ground arith) refl)

      -- A capsule is bootstrapped only from an envelope within its bounds and the one directory beside the
      -- executable, whose descriptor and card were read, whose names are plain, whose bundle the card
      -- accepts, whose services the policy allows, and whose artifact is a regular file of at most 512 MiB
      -- with the claimed digest, loaded by a loader that takes it; the envelope then carries that digest
      -- and card, and else what the caller supplied. A refusal leaves the kernel's context as it was, unless
      -- it is the loader's own refusal of an artifact.
      pub bootstrap-Justified : Justified (bootstrap world executable envelope policy cx loader)
      unfolding bootstrap
      bootstrap-Justified =
          load_admitted-Justified (admit world executable envelope policy) admit-IsAdmission
