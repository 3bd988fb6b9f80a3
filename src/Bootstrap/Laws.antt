-- ===== src/Bootstrap/Laws.antt =====
-- What a bootstrapped capsule guarantees.
use sim_platform.Prelude.{
  ℕ, ◌≤◌, String, true, false, not, ◌||◌, Option, none, some, List, [], ◌∷◌, ◌≡◌, refl, arith, ltb,
  eqb, text_key, length, find, All, In, add, contains, contains_sound, Bool-cases, inl, inr, Result,
  ok, err, map_err, refuse_if_rule, bind_rule, OnOk, subst,
}
use sim_platform.Core.Validation.{CapsuleManifest, BundleManifest, validate_bundle}
use sim_platform.Core.Validation.Laws.{IsAccepted, Verdict, validate_bundle-Verdict}
use sim_platform.Bootstrap.{
  Metadata, World, BootstrapEnvelope, BootstrapPolicy, BootstrapError, read_error, invalid_manifest,
  require_plain_name, read_bounded, read_bundle, read_capsule, refuse_service,
  first_foreign_service, admit_manifests,
}

pub map_err-eq-ok :
    {E F A : Type 0} (f : E → F) (r : Result E A) {a : A} → map_err f r ≡ ok a → r ≡ ok a
map_err-eq-ok f (ok b) h = cc
map_err-eq-ok f (err e) h = cc

pub OnOk-each :
    {E A : Type 0} (P : A → Type 0) (r : Result E A) → ((a : A) → r ≡ ok a → P a) → OnOk P r
OnOk-each P (ok a) h = h a refl
OnOk-each P (err e) h = tt

module _ (world : World) where
  -- A name of one component, neither empty nor absolute.
  pub record IsPlainName (name : String) : Type 0 where
    pub filled : eqb (world.text_bytes name) 0 ≡ false
    pub relative : world.is_absolute name ≡ false
    pub single : world.component_count name ≡ 1

  require_plain_name-IsPlainName :
      (name : String) → require_plain_name world name ≡ ok tt → IsPlainName name
  unfolding require_plain_name
  require_plain_name-IsPlainName name h = record {
    filled = ground arith;
    relative = ground arith;
    single = ground arith;
  }

  -- A regular file within the limit, and its contents.
  pub record IsBounded (path : world.FilePath) (limit : ℕ) (bytes : List ℕ) : Type 0 where
    pub facts : Metadata
    pub described : world.metadata path ≡ ok facts
    pub regular : facts.is_file ≡ true
    pub small : facts.len ≤ limit
    pub contents : world.read path ≡ ok bytes

  abbrev Bounded : world.FilePath → ℕ → Result (BootstrapError world) (List ℕ) → Type 0
  Bounded path limit = OnOk (IsBounded path limit)

  pub read_bounded-Bounded :
      (path : world.FilePath) (limit : ℕ) → Bounded path limit (read_bounded world path limit)
  unfolding read_bounded
  read_bounded-Bounded path limit =
      bind_rule (Bounded path limit) (map_err (read_error path) (world.metadata path)) _
        (λ facts described.
          refuse_if_rule (Bounded path limit) (not facts.is_file || ltb limit facts.len) _ _
            (λ refused. tt)
            λ fits.
              OnOk-each (IsBounded path limit) (map_err (read_error path) (world.read path))
                λ bytes contents. record {
                  facts = facts;
                  described = map_err-eq-ok _ _ described;
                  regular = ground arith;
                  small = ground arith;
                  contents = map_err-eq-ok _ _ contents;
                })
        (λ e refused. tt)

  module _ (executable : world.FilePath) (envelope : BootstrapEnvelope world)
      (policy : BootstrapPolicy world) where
    -- The capsule and the bundle beside the executable, as they were admitted.
    pub record IsManifests (adjacent : world.FilePath) (m : BundleManifest × CapsuleManifest)
        : Type 0 where
      pub bundle_read : read_bundle world adjacent ≡ ok m.0
      pub capsule_name : IsPlainName m.0.capsule
      pub artifact_name : IsPlainName m.0.artifact
      pub capsule_read : read_capsule world adjacent m.0.capsule ≡ ok m.1
      pub accepted : IsAccepted m.0 m.1
      pub allowed : All (λ service. In service policy.allowed_services) m.1.services

    first_foreign_none :
        (services : List String)
        → find (λ service. not (contains policy.allowed_services service)) services ≡ none
        → All (λ service. In service policy.allowed_services) services
    first_foreign_none [] h = tt
    first_foreign_none (service ∷ services) h =
        elim (Bool-cases (contains policy.allowed_services service)) [
          | inl there ↦ (
            contains_sound policy.allowed_services service there,
            first_foreign_none services (go_on there h),
          )
          | inr absent ↦ absurd (stop absent h)
        ]
      where
        go_on :
            contains policy.allowed_services service ≡ true
            → find (λ s. not (contains policy.allowed_services s)) (service ∷ services) ≡ none
            → find (λ s. not (contains policy.allowed_services s)) services ≡ none
        go_on there k = simp there at k

        stop :
            contains policy.allowed_services service ≡ false
            → find (λ s. not (contains policy.allowed_services s)) (service ∷ services) ≡ none
            → ⊥
        stop absent k = ground arith

    refuse_service-none : (o : Option String) → refuse_service world o ≡ ok tt → o ≡ none
    refuse_service-none none h = refl
    refuse_service-none (some service) h = cc

    accepted_lem :
        (bundle : BundleManifest) (capsule : CapsuleManifest)
        → validate_bundle bundle capsule ≡ ok tt
        → IsAccepted bundle capsule
    accepted_lem bundle capsule h =
        subst (Verdict bundle capsule) h (validate_bundle-Verdict bundle capsule)

    pub admit_manifests-IsManifests :
        (adjacent : world.FilePath)
        → OnOk (IsManifests adjacent) (admit_manifests world adjacent policy)
    unfolding admit_manifests
    admit_manifests-IsManifests adjacent =
        bind_rule Good (read_bundle world adjacent) _
          (λ bundle bundle_read.
            bind_rule Good (require_plain_name world bundle.capsule) _
              (λ u capsule_name.
                bind_rule Good (require_plain_name world bundle.artifact) _
                  (λ u' artifact_name.
                    bind_rule Good (read_capsule world adjacent bundle.capsule) _
                      (λ capsule capsule_read.
                        bind_rule Good (map_err _ (validate_bundle bundle capsule)) _
                          (λ u'' valid.
                            refuse_if_rule Good (not (eqb (length (add capsule.provider [])) 1))
                              (invalid_manifest "duplicate capsule provider") _ (λ twice. tt)
                              λ once.
                                bind_rule Good
                                  (refuse_service world
                                    (first_foreign_service world policy capsule))
                                  _
                                  (λ v none_foreign. record {
                                    bundle_read = bundle_read;
                                    capsule_name = require_plain_name-IsPlainName _ capsule_name;
                                    artifact_name = require_plain_name-IsPlainName _ artifact_name;
                                    capsule_read = capsule_read;
                                    accepted =
                                        accepted_lem bundle capsule (map_err-eq-ok _ _ valid);
                                    allowed =
                                        first_foreign_none capsule.services
                                          (refuse_service-none _ none_foreign);
                                  })
                                  (λ e refused. tt))
                          (λ e refused. tt))
                      (λ e refused. tt))
                  (λ e refused. tt))
              (λ e refused. tt))
          (λ e refused. tt)
      where
        Good : Result (BootstrapError world) (BundleManifest × CapsuleManifest) → Type 0
        Good = OnOk (IsManifests adjacent)
