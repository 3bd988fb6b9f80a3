-- ===== src/Core/Validation/Laws.antt =====
-- What the checks of crates/sim-platform-core/src/validation.rs accept and why they refuse.
use sim_platform.Prelude.{
  String, true, false, not, Option, none, some, List, [], ◌∷◌, ◌==◌, text_key, contains,
  contains_complete, contains_sound, In, All, Any, ◌≡◌, ◌≢◌, refl, inl, inr, if_rule, Bool-cases,
  Result, ok, err, refuse_if_rule, bind_rule, ◌>>◌, arith, sym, subst,
}
use sim_platform.Prelude.Text.{is_blank}
use sim_platform.Core.Validation.{
  PackageRole, sim_pure, platform_bootstrap, platform_capsule, host_tool, CapsuleManifest,
  BundleManifest, ValidationError, wrong_schema, undeclared_shell, unknown_role, empty_field,
  wrong_entry, unsupported_loader, parse, require_schema, require_nonempty, require_all_nonempty,
  required_fields, check_shell, validate_bundle,
}

-- The name that package metadata gives a role.
abbrev pub role_name : PackageRole → String
role_name sim_pure = "sim-pure"
role_name platform_bootstrap = "platform-bootstrap"
role_name platform_capsule = "platform-capsule"
role_name host_tool = "host-tool"

abbrev pub Parsed : String → Result ValidationError PackageRole → Type 0
Parsed name (ok role) = name ≡ role_name role
Parsed name (err e) = (e ≡ unknown_role name) × ((role : PackageRole) → name ≢ role_name role)

-- Explicit role metadata is parsed into the role of exactly that name, and refused, with its text, when it
-- is the name of no role.
parse-Parsed : (name : String) → Parsed name (parse (some name))
unfolding parse
parse-Parsed name =
    if_rule (Parsed name) (name == "sim-pure") _ _ (λ h. (text_key.eq_decides name "sim-pure").0 h)
      λ not_pure.
        if_rule (Parsed name) (name == "platform-bootstrap") _ _
          (λ h. (text_key.eq_decides name _).0 h)
          λ not_bootstrap.
            if_rule (Parsed name) (name == "platform-capsule") _ _
              (λ h. (text_key.eq_decides name _).0 h)
              λ not_capsule.
                if_rule (Parsed name) (name == "host-tool") _ _
                  (λ h. (text_key.eq_decides name _).0 h)
                  λ not_tool. (refl, no_name not_pure not_bootstrap not_capsule not_tool)
  where
    no_name :
        (name == "sim-pure") ≡ false
        → (name == "platform-bootstrap") ≡ false
        → (name == "platform-capsule") ≡ false
        → (name == "host-tool") ≡ false
        → (role : PackageRole) → name ≢ role_name role
    no_name a b c d sim_pure e = cc (a, (text_key.eq_decides name "sim-pure").1 e)
    no_name a b c d platform_bootstrap e =
        cc (b, (text_key.eq_decides name "platform-bootstrap").1 e)
    no_name a b c d platform_capsule e = cc (c, (text_key.eq_decides name "platform-capsule").1 e)
    no_name a b c d host_tool e = cc (d, (text_key.eq_decides name "host-tool").1 e)

-- A manifest that a bundle may select.
pub record IsAccepted (bundle : BundleManifest) (capsule : CapsuleManifest) : Type 0 where
  pub schema : bundle.schema ≡ "sim.platform-bundle/v1"
  pub filled : All (λ field. is_blank field.0 ≡ false) (required_fields bundle)
  pub entry : bundle.entry ≡ "sim_native_abi_v1"
  pub loader : In bundle.loader capsule.loader_kinds
  pub shell : (s : String) → bundle.shell ≡ some s → In s capsule.shells

-- What each refusal of a bundle says.
abbrev pub Reason : BundleManifest → CapsuleManifest → ValidationError → Type 0
Reason bundle capsule (wrong_schema expected found) =
    (expected ≡ "sim.platform-bundle/v1") × (found ≡ bundle.schema) × (found ≢ expected)
Reason bundle capsule (empty_field name) =
    Any (λ field. (field.1 ≡ name) × (is_blank field.0 ≡ true)) (required_fields bundle)
Reason bundle capsule (wrong_entry found) = (found ≡ bundle.entry) × (found ≢ "sim_native_abi_v1")
Reason bundle capsule (unsupported_loader kind) =
    (kind ≡ bundle.loader) × ¬ In kind capsule.loader_kinds
Reason bundle capsule (undeclared_shell s) = (bundle.shell ≡ some s) × ¬ In s capsule.shells
Reason bundle capsule _ = ⊥

abbrev pub Verdict : BundleManifest → CapsuleManifest → Result ValidationError (Unit {0}) → Type 0
Verdict bundle capsule (ok u) = IsAccepted bundle capsule
Verdict bundle capsule (err e) = Reason bundle capsule e

abbrev Filled : List (String × String) → Result ValidationError (Unit {0}) → Type 0
Filled fields (ok u) = All (λ field. is_blank field.0 ≡ false) fields
Filled fields (err e) =
    (name : String) × (e ≡ empty_field name)
    × Any (λ field. (field.1 ≡ name) × (is_blank field.0 ≡ true)) fields

Filled-cons :
    (value field : String) (fields : List (String × String)) (r : Result ValidationError (Unit {0}))
    → is_blank value ≡ false
    → Filled fields r
    → Filled ((value, field) ∷ fields) r
Filled-cons value field fields (ok u) h k = (h, k)
Filled-cons value field fields (err e) h (name, same, there) = (name, same, inr there)

require_all_nonempty-Filled :
    (fields : List (String × String)) → Filled fields (require_all_nonempty fields)
unfolding require_all_nonempty require_nonempty
require_all_nonempty-Filled [] = tt
require_all_nonempty-Filled ((value, field) ∷ fields) =
    let rest = require_all_nonempty fields in
    if_rule (λ r. Filled ((value, field) ∷ fields) (r >> rest)) (is_blank value) _ _
      (λ blank. (field, refl, inl (refl, blank)))
      λ full. Filled-cons value field fields rest full (require_all_nonempty-Filled fields)

not-In : (xs : List String) (a : String) → not (contains xs a) ≡ true → ¬ In a xs
not-In xs a h there = cc (h, contains_complete xs a there)

is_In : (xs : List String) (a : String) → not (contains xs a) ≡ false → In a xs
is_In xs a h = contains_sound xs a (ground arith)

differs : {s t : String} → (s == t) ≡ false → s ≢ t
differs {s} {t} h e = cc (h, (text_key.eq_decides s t).1 e)

module _ (bundle : BundleManifest) (capsule : CapsuleManifest) where
  check_shell-Verdict :
      (shell : Option String)
      → bundle.shell ≡ shell
      → (((s : String) → bundle.shell ≡ some s → In s capsule.shells) → IsAccepted bundle capsule)
      → Verdict bundle capsule (check_shell shell capsule.shells)
  check_shell-Verdict none e accept = accept (λ s e'. absurd (cc (e, e')))
  check_shell-Verdict (some shell) e accept =
      elim (Bool-cases (not (contains capsule.shells shell))) [
        | inl undeclared ↦ rw undeclared (e, not-In capsule.shells shell undeclared)
        | inr declared ↦ rw declared (
            accept (λ s e'.
              let same : shell ≡ s = cc (e, e') in
              subst (λ t. In t capsule.shells) same (is_In capsule.shells shell declared)))
      ]

  schema_rule :
      (k : Result ValidationError (Unit {0}))
      → (bundle.schema ≡ "sim.platform-bundle/v1" → Verdict bundle capsule k)
      → Verdict bundle capsule (require_schema bundle.schema "sim.platform-bundle/v1" >> k)
  unfolding require_schema
  schema_rule k goes_on =
      if_rule (λ r. Verdict bundle capsule (r >> k)) (bundle.schema == "sim.platform-bundle/v1") _ _
        (λ schema. goes_on ((text_key.eq_decides bundle.schema _).0 schema))
        (λ other. (refl, refl, differs other))

  -- A bundle is accepted only when its schema is v1 of `sim.platform-bundle`, its capsule, artifact,
  -- content and loader are not blank, its entry is `sim_native_abi_v1`, and the capsule names its loader
  -- and, where it has one, its shell; every refusal is for the fault that its error names, with the text
  -- that the bundle has there.
  pub validate_bundle-Verdict : Verdict bundle capsule (validate_bundle bundle capsule)
  unfolding validate_bundle
  validate_bundle-Verdict = schema_rule _ λ schema.
      bind_rule (Verdict bundle capsule) (require_all_nonempty (required_fields bundle)) _
        (λ u filled.
          refuse_if_rule (Verdict bundle capsule) (not (bundle.entry == "sim_native_abi_v1"))
            (wrong_entry bundle.entry) _ (λ wrong. (refl, differs (ground arith)))
            λ entry.
              refuse_if_rule (Verdict bundle capsule)
                (not (contains capsule.loader_kinds bundle.loader))
                (unsupported_loader bundle.loader) _
                (λ unsupported. (refl, not-In capsule.loader_kinds bundle.loader unsupported))
                λ loader. check_shell-Verdict bundle.shell refl λ shell. record {
                  schema = schema;
                  filled =
                      subst (Filled (required_fields bundle)) filled
                        (require_all_nonempty-Filled (required_fields bundle));
                  entry = (text_key.eq_decides bundle.entry _).0 (ground arith);
                  loader = is_In capsule.loader_kinds bundle.loader loader;
                  shell = shell;
                })
        (λ e refused. refusal e refused)
    where
      refusal :
          (e : ValidationError)
          → require_all_nonempty (required_fields bundle) ≡ err e
          → Reason bundle capsule e
      refusal e refused =
          let (name, same, there) =
            subst (Filled (required_fields bundle)) refused
              (require_all_nonempty-Filled (required_fields bundle)) in
          subst (Reason bundle capsule) (sym same) there
