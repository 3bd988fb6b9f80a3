-- ===== src/Core/Validation/Ownership.antt =====
-- What `validate_capsules` asks of the packages around the capsules, and the whole of its check.
use sim_platform.Prelude.{
  String, true, false, not, Option, none, some, List, [], ◌∷◌, if◌then◌else◌, ◌==◌, text_key, All,
  any, ◌≡◌, refl, ◌↔◌, inl, inr, Bool-cases, Result, ok, refuse_if_rule, ◌>>◌, arith,
}
use sim_platform.Core.Validation.{
  ValidationContext, CapsuleManifest, ValidationError, capsule_outside_owner,
  host_tool_in_product_closure, first_foreign, refuse_bootstrap, is_host_tool, check_capsules,
  validate_capsules,
}
use sim_platform.Core.Validation.Capsules.{
  IsCapsuleSet, Accepts-IsCapsuleSet, IsCapsuleSet-Accepts, Unused-none, check_capsules-Accepts,
  Accepts-check_capsules,
}

first_foreign-none :
    (names : List String)
    → first_foreign names ≡ none
    → All (λ name. name ≡ "sim-platform-bootstrap") names
first_foreign-none [] h = tt
first_foreign-none (name ∷ names) h = elim (Bool-cases (name == "sim-platform-bootstrap")) [
  | inl same ↦ (
    (text_key.eq_decides name _).0 same,
    first_foreign-none names (cc (h, if_false same (first_foreign names))),
  )
  | inr other ↦ absurd (cc (h, if_true other (first_foreign names)))
]
  where
    if_false :
        (name == "sim-platform-bootstrap") ≡ true
        → (o : Option String)
        → (if not (name == "sim-platform-bootstrap") then some name else o) ≡ o
    if_false e o = rw e

    if_true :
        (name == "sim-platform-bootstrap") ≡ false
        → (o : Option String)
        → (if not (name == "sim-platform-bootstrap") then some name else o) ≡ some name
    if_true e o = rw e

none-first_foreign :
    (names : List String)
    → All (λ name. name ≡ "sim-platform-bootstrap") names
    → first_foreign names ≡ none
none-first_foreign [] h = refl
none-first_foreign (name ∷ names) (same, h) =
    rw ((text_key.eq_decides name "sim-platform-bootstrap").1 same) (none-first_foreign names h)

-- The package structure that owns the capsules.
pub record IsOwned (context : ValidationContext) : Type 0 where
  pub owner : context.declaring_repository ≡ context.owner_repository
  pub bootstraps : All (λ name. name ≡ "sim-platform-bootstrap") context.bootstrap_packages
  pub no_tools : any is_host_tool context.product_closure_roles ≡ false

module _ (context : ValidationContext) (capsules : List CapsuleManifest) where
  abbrev Validated : Result ValidationError (Unit {0}) → Type 0
  Validated r = r ≡ ok tt → IsOwned context × IsCapsuleSet capsules

  refuse_bootstrap_rule :
      (o : Option String) (k : Result ValidationError (Unit {0}))
      → (o ≡ none → Validated k)
      → Validated (refuse_bootstrap o >> k)
  refuse_bootstrap_rule none k goes_on = goes_on refl
  refuse_bootstrap_rule (some name) k goes_on = λ h. cc

  validate_capsules-Validated : Validated (validate_capsules context capsules)
  unfolding validate_capsules
  validate_capsules-Validated =
      refuse_if_rule Validated (not (context.declaring_repository == context.owner_repository))
        capsule_outside_owner _ (λ outside h. cc)
        λ owner. refuse_bootstrap_rule (first_foreign context.bootstrap_packages) _ λ bootstraps.
          refuse_if_rule Validated (any is_host_tool context.product_closure_roles)
            host_tool_in_product_closure (check_capsules [] capsules) (λ tool h. cc)
            (λ no_tools h. (
              record {
                owner = (text_key.eq_decides context.declaring_repository _).0 (ground arith);
                bootstraps = first_foreign-none context.bootstrap_packages bootstraps;
                no_tools = no_tools;
              },
              (Accepts-IsCapsuleSet [] capsules (check_capsules-Accepts [] capsules h)).0,
            ))

  Validated-validate_capsules :
      IsOwned context × IsCapsuleSet capsules → validate_capsules context capsules ≡ ok tt
  unfolding validate_capsules
  Validated-validate_capsules (owned, set) =
      rw
        (
          (text_key.eq_decides context.declaring_repository context.owner_repository).1 owned.owner,
          none-first_foreign context.bootstrap_packages owned.bootstraps,
          owned.no_tools,
        )
        (Accepts-check_capsules [] capsules
          (IsCapsuleSet-Accepts [] capsules set.well_formed set.distinct (Unused-none capsules)))

  -- A set of capsules is valid exactly when the repository that declares it is the owner, every bootstrap
  -- package is the canonical one, no host tool is in the product closure, every capsule has the v1 schema
  -- and a provider that is not blank, and no two capsules have one provider.
  pub validate_capsules_iff :
      (validate_capsules context capsules ≡ ok tt) ↔ (IsOwned context × IsCapsuleSet capsules)
  validate_capsules_iff = (validate_capsules-Validated, Validated-validate_capsules)
