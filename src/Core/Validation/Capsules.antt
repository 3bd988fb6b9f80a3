-- ===== src/Core/Validation/Capsules.antt =====
-- Which sets of capsules `validate_capsules` accepts.
use sim_platform.Prelude.{
  String, false, List, [], ◌∷◌, map, ◌==◌, text_key, contains, All, IsNodup, ◌≡◌, refl, if_rule,
  Result, ok, refuse_if, refuse_if_rule, ◌>>◌, arith, ◌∙◌,
}
use sim_platform.Prelude.Text.{is_blank}
use sim_platform.Core.Validation.{
  CapsuleManifest, ValidationError, duplicate_provider, require_schema, require_nonempty,
  check_capsules,
}

abbrev pub provider_of : CapsuleManifest → String
provider_of capsule = capsule.provider

pub record IsWellFormed (capsule : CapsuleManifest) : Type 0 where
  pub schema : capsule.schema ≡ "sim.platform-capsule/v1"
  pub named : is_blank capsule.provider ≡ false

-- Every capsule is well formed and named unlike those before it.
abbrev pub Accepts : List String → List CapsuleManifest → Type 0
Accepts providers [] = Unit
Accepts providers (capsule ∷ capsules) =
    IsWellFormed capsule
    × (contains providers capsule.provider ≡ false)
    × Accepts (capsule.provider ∷ providers) capsules

module _ (capsule : CapsuleManifest) (providers : List String)
    (rest : Result ValidationError (Unit {0})) where
  abbrev check_one : Result ValidationError (Unit {0})
  check_one =
      require_schema capsule.schema "sim.platform-capsule/v1"
      >> (require_nonempty capsule.provider "provider"
          >> (refuse_if (contains providers capsule.provider) (duplicate_provider capsule.provider)
              >> rest))

  abbrev Inverted : Result ValidationError (Unit {0}) → Type 0
  Inverted r =
      r ≡ ok tt
      → IsWellFormed capsule × (contains providers capsule.provider ≡ false) × (rest ≡ ok tt)

  schema_rule :
      (k : Result ValidationError (Unit {0}))
      → (capsule.schema ≡ "sim.platform-capsule/v1" → Inverted k)
      → Inverted (require_schema capsule.schema "sim.platform-capsule/v1" >> k)
  unfolding require_schema
  schema_rule k goes_on =
      if_rule (λ r. Inverted (r >> k)) (capsule.schema == "sim.platform-capsule/v1") _ _
        (λ schema. goes_on ((text_key.eq_decides capsule.schema _).0 schema)) (λ other h. cc)

  provider_rule :
      (k : Result ValidationError (Unit {0}))
      → (is_blank capsule.provider ≡ false → Inverted k)
      → Inverted (require_nonempty capsule.provider "provider" >> k)
  unfolding require_nonempty
  provider_rule k goes_on =
      if_rule (λ r. Inverted (r >> k)) (is_blank capsule.provider) _ _ (λ blank h. cc) goes_on

  check_one-eq-ok : Inverted check_one
  check_one-eq-ok = schema_rule _ λ schema. provider_rule _ λ named.
      refuse_if_rule Inverted (contains providers capsule.provider)
        (duplicate_provider capsule.provider) rest (λ there h. cc)
        (λ fresh h. (record { schema = schema; named = named }, fresh, h))

  check_one_ok :
      IsWellFormed capsule → contains providers capsule.provider ≡ false → check_one ≡ rest
  unfolding require_schema require_nonempty
  check_one_ok w fresh = rw ((text_key.eq_decides capsule.schema _).1 w.schema, w.named, fresh)

pub check_capsules-Accepts :
    (providers : List String) (capsules : List CapsuleManifest)
    → check_capsules providers capsules ≡ ok tt
    → Accepts providers capsules
unfolding check_capsules
check_capsules-Accepts providers [] h = tt
check_capsules-Accepts providers (capsule ∷ capsules) h =
    let rest = check_capsules (capsule.provider ∷ providers) capsules in
    let (w, fresh, later) = check_one-eq-ok capsule providers rest h in
    (w, fresh, check_capsules-Accepts (capsule.provider ∷ providers) capsules later)

pub Accepts-check_capsules :
    (providers : List String) (capsules : List CapsuleManifest)
    → Accepts providers capsules
    → check_capsules providers capsules ≡ ok tt
unfolding check_capsules
Accepts-check_capsules providers [] h = refl
Accepts-check_capsules providers (capsule ∷ capsules) (w, fresh, h) =
    check_one_ok capsule providers _ w fresh
    ∙ Accepts-check_capsules (capsule.provider ∷ providers) capsules h

differs_back : (s t : String) → (s == t) ≡ false → (t == s) ≡ false
differs_back s t h = ground (arith, text_key.eq_decides s t, text_key.eq_decides t s)

-- No capsule of the list has a provider among `providers`.
abbrev pub Unused : List String → List CapsuleManifest → Type 0
Unused providers = All (λ capsule. contains providers capsule.provider ≡ false)

Unused-split :
    (p : String) (providers : List String) (capsules : List CapsuleManifest)
    → Unused (p ∷ providers) capsules
    → Unused providers capsules × (contains (map provider_of capsules) p ≡ false)
Unused-split p providers [] h = (tt, refl)
Unused-split p providers (capsule ∷ capsules) (h, k) =
    let (unused, apart) = Unused-split p providers capsules k in
    let back = differs_back p capsule.provider in ((ground arith, unused), ground (arith, back))

Unused-cons :
    (p : String) (providers : List String) (capsules : List CapsuleManifest)
    → Unused providers capsules
    → contains (map provider_of capsules) p ≡ false
    → Unused (p ∷ providers) capsules
Unused-cons p providers [] h apart = tt
Unused-cons p providers (capsule ∷ capsules) (h, k) apart =
    let back = differs_back capsule.provider p in
    (ground (arith, back), Unused-cons p providers capsules k (ground arith))

-- The description: well formed capsules with pairwise different providers.
pub record IsCapsuleSet (capsules : List CapsuleManifest) : Type 0 where
  pub well_formed : All IsWellFormed capsules
  pub distinct : IsNodup (map provider_of capsules)

pub Accepts-IsCapsuleSet :
    (providers : List String) (capsules : List CapsuleManifest)
    → Accepts providers capsules
    → IsCapsuleSet capsules × Unused providers capsules
Accepts-IsCapsuleSet providers [] h = (record { well_formed = tt; distinct = tt }, tt)
Accepts-IsCapsuleSet providers (capsule ∷ capsules) (w, fresh, h) =
    let (set, unused) = Accepts-IsCapsuleSet (capsule.provider ∷ providers) capsules h in
    let (unused', apart) = Unused-split capsule.provider providers capsules unused in
    (
      record { well_formed = (w, set.well_formed); distinct = (apart, set.distinct) },
      (fresh, unused'),
    )

pub IsCapsuleSet-Accepts :
    (providers : List String) (capsules : List CapsuleManifest)
    → All IsWellFormed capsules
    → IsNodup (map provider_of capsules)
    → Unused providers capsules
    → Accepts providers capsules
IsCapsuleSet-Accepts providers [] w d u = tt
IsCapsuleSet-Accepts providers (capsule ∷ capsules) (w, ws) (d, ds) (u, us) = (
  w,
  u,
  IsCapsuleSet-Accepts (capsule.provider ∷ providers) capsules ws ds
      (Unused-cons capsule.provider providers capsules us d),
)

pub Unused-none : (capsules : List CapsuleManifest) → Unused [] capsules
Unused-none [] = tt
Unused-none (capsule ∷ capsules) = (refl, Unused-none capsules)
