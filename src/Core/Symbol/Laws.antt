-- ===== src/Core/Symbol/Laws.antt =====
-- Which requirements the builder of crates/sim-platform-core/src/records.rs makes.
use sim_platform.Prelude.{
  String, true, false, List, [], ◌∷◌, ◌++◌, ◌≡◌, refl, arith, All, Result, ok, err, ◌>>=◌,
  bind_rule, OnOk, OnOk-ok, ap, ap₂, sym, ◌∙◌,
}
use sim_platform.Core.Records.{OpenSymbol, modeled, Requirement, PlatformRecordError}
use sim_platform.Core.Symbol.{is_valid, new, new_all, RequirementBuilder, require, optional}

-- The calls on a builder, in order; the first error ends the chain.
pub data Call : Type 0 where
  requiring : String → Call
  optionally : String → List String → Call

abbrev pub step : Call → RequirementBuilder → Result PlatformRecordError RequirementBuilder
step (requiring service) self = require self service
step (optionally service substitutes) self = optional self service substitutes

unfoldable pub build :
    List Call → RequirementBuilder → Result PlatformRecordError RequirementBuilder
build [] self = ok self
build (call ∷ calls) self = step call self >>= build calls

-- What a call asks for.
abbrev pub requested : Call → Requirement
requested (requiring service) = record {
  service = service;
  substitutes = [];
  optional = false;
  minimum_evidence = modeled;
}
requested (optionally service substitutes) = record {
  service = service;
  substitutes = substitutes;
  optional = true;
  minimum_evidence = modeled;
}

abbrev pub requests : List Call → List Requirement
requests [] = []
requests (call ∷ calls) = requested call ∷ requests calls

-- Every symbol of a requirement is valid.
abbrev pub IsSymbolic : Requirement → Type 0
IsSymbolic r = (is_valid r.service ≡ true) × All (λ s. is_valid s ≡ true) r.substitutes

new-eq-ok :
    (value : String) {symbol : OpenSymbol}
    → new value ≡ ok symbol
    → (symbol ≡ value) × (is_valid value ≡ true)
unfolding new
new-eq-ok value h = (ground arith, ground arith)

-- The symbols of a list are its texts, and valid.
abbrev AllValid : List String → List OpenSymbol → Type 0
AllValid values symbols = (symbols ≡ values) × All (λ s. is_valid s ≡ true) values

new_all-AllValid : (values : List String) → OnOk (AllValid values) (new_all values)
unfolding new_all
new_all-AllValid [] = (refl, tt)
new_all-AllValid (value ∷ values) =
    bind_rule (OnOk (AllValid (value ∷ values))) (new value) _
      (λ symbol first.
        let (same, valid) = new-eq-ok value first in
        bind_rule (OnOk (AllValid (value ∷ values))) (new_all values) _
          (λ symbols later.
            let (rest, all_valid) =
              OnOk-ok (AllValid values) (new_all values) (new_all-AllValid values) later in
            (ap₂ (λ s t. s ∷ t) same rest, (valid, all_valid)))
          (λ e refused. tt))
      (λ e refused. tt)

abbrev Stepped : Call → RequirementBuilder → RequirementBuilder → Type 0
Stepped call self b = (b ≡ self ++ requested call ∷ []) × IsSymbolic (requested call)

step-Stepped : (call : Call) (self : RequirementBuilder) → OnOk (Stepped call self) (step call self)
unfolding require optional
step-Stepped (requiring service) self =
    bind_rule (OnOk (Stepped (requiring service) self)) (new service) _
      (λ symbol h.
        let (same, valid) = new-eq-ok service h in
        (
          ap
              (λ s.
                self
                ++ record {
                  service = s;
                  substitutes = [];
                  optional = false;
                  minimum_evidence = modeled;
                }
                  ∷ [])
              same,
          (valid, tt),
        ))
      (λ e refused. tt)
step-Stepped (optionally service substitutes) self =
    bind_rule (OnOk (Stepped (optionally service substitutes) self)) (new service) _
      (λ symbol h.
        let (same, valid) = new-eq-ok service h in
        bind_rule (OnOk (Stepped (optionally service substitutes) self)) (new_all substitutes) _
          (λ symbols later.
            let (rest, all_valid) =
              OnOk-ok (AllValid substitutes) (new_all substitutes) (new_all-AllValid substitutes)
                later in
            (
              ap₂
                  (λ s t.
                    self
                    ++ record {
                      service = s;
                      substitutes = t;
                      optional = true;
                      minimum_evidence = modeled;
                    }
                      ∷ [])
                  same rest,
              (valid, all_valid),
            ))
          (λ e refused. tt))
      (λ e refused. tt)

OnOk-then :
    (P Q : RequirementBuilder → Type 0) (r : Result PlatformRecordError RequirementBuilder)
    → ((b : RequirementBuilder) → P b → Q b)
    → OnOk P r
    → OnOk Q r
OnOk-then P Q (ok b) f h = f b h
OnOk-then P Q (err e) f h = tt

append_one :
    (xs : List Requirement) (x : Requirement) (ys : List Requirement)
    → (xs ++ x ∷ []) ++ ys ≡ xs ++ x ∷ ys
append_one [] x ys = refl
append_one (z ∷ xs) x ys = ap (λ t. z ∷ t) (append_one xs x ys)

append_nil : (xs : List Requirement) → xs ++ [] ≡ xs
append_nil [] = refl
append_nil (x ∷ xs) = ap (λ t. x ∷ t) (append_nil xs)

-- A requirement list that the builder returns, after any chain of calls that none of which refused, is the
-- list it had, followed by exactly the requirements that were asked for, in order, each optional or not as
-- asked, of modeled evidence, and with valid symbols for its service and its substitutes.
build-OnOk :
    (calls : List Call) (self : RequirementBuilder)
    → OnOk (λ b. (b ≡ self ++ requests calls) × All IsSymbolic (requests calls)) (build calls self)
unfolding build
build-OnOk [] self = (sym (append_nil self), tt)
build-OnOk (call ∷ calls) self =
    bind_rule Built (step call self) (build calls)
      (λ b first.
        let (same, symbolic) =
          OnOk-ok (Stepped call self) (step call self) (step-Stepped call self) first in
        OnOk-then (λ d. (d ≡ b ++ requests calls) × All IsSymbolic (requests calls))
          (λ d. (d ≡ self ++ requests (call ∷ calls)) × All IsSymbolic (requests (call ∷ calls)))
          (build calls b)
          (λ d (c, all_symbolic). (
            c
                ∙ ap (λ t. t ++ requests calls) same
                ∙ append_one self (requested call) (requests calls),
            (symbolic, all_symbolic),
          ))
          (build-OnOk calls b))
      (λ e refused. tt)
  where
    Built : Result PlatformRecordError RequirementBuilder → Type 0
    Built =
        OnOk (λ b. (b ≡ self ++ requests (call ∷ calls)) × All IsSymbolic (requests (call ∷ calls)))
