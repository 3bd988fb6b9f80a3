-- ===== src/Wasi/Imports.antt =====
-- The imports of an inspected component.
use sim_platform.Prelude.{
  ℕ, String, false, ◌&&◌, Option, none, some, List, [], ◌∷◌, ◌++◌, find, Any, In, text_key, ◌==◌,
  ◌≡◌, inl, inr, refl, sym, ap, ◌∙◌, subst, arith, Bool-cases, Result, ok, err, ok_or, ◌>>=◌,
}
use sim_platform.Wasi.{
  ImportDeclaration, allowed_imports, WasiRefusal, malformed_artifact, undeclared_import,
  capability_denied, unsupported_service, unknown_preopen, unknown_socket, Payload, import_section,
  other_payload, declaration_of, admit_section, admit_payloads, inspect_artifact,
}

abbrev pub Named : String × String → ImportDeclaration → Type 0
Named i d = (d.module_name ≡ i.0) × (d.name ≡ i.1)

-- All imports of an artifact in order, with the errors between them.
abbrev pub imports_in : List (Result String Payload) → List (Result String (String × String))
imports_in [] = []
imports_in (err e ∷ payloads) = err e ∷ imports_in payloads
imports_in (ok other_payload ∷ payloads) = imports_in payloads
imports_in (ok (import_section section) ∷ payloads) = section ++ imports_in payloads

-- The declarations are those of the imports, one by one and in order, and stand on the list.
abbrev pub Declares : List (Result String (String × String)) → List ImportDeclaration → Type 0
Declares [] [] = Unit
Declares (ok i ∷ items) (d ∷ declarations) =
    Named i d × In d allowed_imports × Declares items declarations
Declares _ _ = ⊥

abbrev pub IsDeclared : String × String → Type 0
IsDeclared i = Any (Named i) allowed_imports

-- The verdict on imports and errors in order.
abbrev pub Verdict :
    List (Result String (String × String)) → Result WasiRefusal (List ImportDeclaration) → Type 0
Verdict items (ok declarations) = Declares items declarations
Verdict items (err (malformed_artifact e)) = Any (λ r. r ≡ err e) items
Verdict items (err (undeclared_import m n)) =
    (Any (λ r. r ≡ ok (m, n)) items) × (IsDeclared (m, n) → ⊥)
Verdict items (err _) = ⊥

abbrev Finds : String → String → List ImportDeclaration → Option ImportDeclaration → Type 0
Finds m n list none = Any (Named (m, n)) list → ⊥
Finds m n list (some d) = Named (m, n) d × In d list

find-Finds :
    (m n : String) (list : List ImportDeclaration)
    → Finds m n list (find (λ item. item.module_name == m && item.name == n) list)
find-Finds m n [] = λ h. h
find-Finds m n (d ∷ list) = elim (Bool-cases (d.module_name == m && d.name == n)) [
  | inl same ↦
      let e : d.module_name ≡ m = (text_key.eq_decides d.module_name m).0 (ground (arith, same)) in
      let f : d.name ≡ n = (text_key.eq_decides d.name n).0 (ground (arith, same)) in
      rw same ((e, f), inl refl)
  | inr other ↦ rw other (
      later (find (λ item. item.module_name == m && item.name == n) list) (find-Finds m n list)
        other)
]
  where
    later :
        (o : Option ImportDeclaration)
        → Finds m n list o
        → (d.module_name == m && d.name == n) ≡ false
        → Finds m n (d ∷ list) o
    later none h other = λ found. elim found [
      | inl e ↦
          let yes_m = (text_key.eq_decides d.module_name m).1 e.0 in
          let yes_n = (text_key.eq_decides d.name n).1 e.1 in ground (arith, other, yes_m, yes_n)
      | inr deeper ↦ h deeper
    ]
    later (some x) h other = (h.0, inr h.1)

-- The nested loops are one loop over all imports.
flat-section :
    (section items : List (Result String (String × String))) (admitted : List ImportDeclaration)
    → admit_section (section ++ items) admitted
      ≡ (admit_section section admitted >>= λ more. admit_section items more)
unfolding admit_section
flat-section [] items admitted = refl
flat-section (err e ∷ section) items admitted = refl
flat-section (ok i ∷ section) items admitted =
    next (declaration_of i) (λ d. flat-section section items (admitted ++ d ∷ []))
  where
    next :
        (r : Result WasiRefusal ImportDeclaration)
        → ((d : ImportDeclaration)
            → admit_section (section ++ items) (admitted ++ d ∷ [])
              ≡ (admit_section section (admitted ++ d ∷ []) >>= λ more. admit_section items more))
        → (r >>= λ d. admit_section (section ++ items) (admitted ++ d ∷ [])) ≡ (
            (r >>= λ d. admit_section section (admitted ++ d ∷ [])) >>= λ more.
            admit_section items more)
    next (ok d) rest = rest d
    next (err e) rest = refl

flat-payloads :
    (payloads : List (Result String Payload)) (admitted : List ImportDeclaration)
    → admit_payloads payloads admitted ≡ admit_section (imports_in payloads) admitted
unfolding admit_payloads
flat-payloads [] admitted = unfold admit_section in refl
flat-payloads (err e ∷ payloads) admitted = unfold admit_section in refl
flat-payloads (ok other_payload ∷ payloads) admitted = flat-payloads payloads admitted
flat-payloads (ok (import_section section) ∷ payloads) admitted =
    next (admit_section section admitted) (λ more. flat-payloads payloads more)
    ∙ sym (flat-section section (imports_in payloads) admitted)
  where
    next :
        (r : Result WasiRefusal (List ImportDeclaration))
        → ((more : List ImportDeclaration)
            → admit_payloads payloads more ≡ admit_section (imports_in payloads) more)
        → (r >>= λ more. admit_payloads payloads more)
          ≡ (r >>= λ more. admit_section (imports_in payloads) more)
    next (ok more) rest = rest more
    next (err e) rest = refl

-- What the declarations add to those that were admitted before.
abbrev Adds :
    List (Result String (String × String))
    → List ImportDeclaration
    → Result WasiRefusal (List ImportDeclaration)
    → Type 0
Adds items admitted (ok declarations) =
    (added : List ImportDeclaration) × (declarations ≡ admitted ++ added) × Declares items added
Adds items admitted (err e) = Verdict items (err e)

append_one :
    (xs : List ImportDeclaration) (d : ImportDeclaration) (ys : List ImportDeclaration)
    → (xs ++ d ∷ []) ++ ys ≡ xs ++ d ∷ ys
append_one [] d ys = refl
append_one (x ∷ xs) d ys = ap (λ l. x ∷ l) (append_one xs d ys)

append_none : (xs : List ImportDeclaration) → xs ≡ xs ++ []
append_none [] = refl
append_none (x ∷ xs) = ap (λ l. x ∷ l) (append_none xs)

later-Adds :
    (i : String × String) (d : ImportDeclaration) (items : List (Result String (String × String)))
    (admitted : List ImportDeclaration) (r : Result WasiRefusal (List ImportDeclaration))
    → Named i d
    → In d allowed_imports
    → Adds items (admitted ++ d ∷ []) r
    → Adds (ok i ∷ items) admitted r
later-Adds i d items admitted (ok declarations) named there (added, same, rest) =
    (d ∷ added, same ∙ append_one admitted d added, (named, there, rest))
later-Adds i d items admitted (err (malformed_artifact e)) named there rest = inr rest
later-Adds i d items admitted (err (undeclared_import m n)) named there (found, undeclared) =
    (inr found, undeclared)
later-Adds i d items admitted (err (capability_denied x)) named there rest = rest
later-Adds i d items admitted (err (unsupported_service x)) named there rest = rest
later-Adds i d items admitted (err (unknown_preopen x)) named there rest = rest
later-Adds i d items admitted (err (unknown_socket x)) named there rest = rest

admit_section-Adds :
    (items : List (Result String (String × String))) (admitted : List ImportDeclaration)
    → Adds items admitted (admit_section items admitted)
unfolding admit_section declaration_of
admit_section-Adds [] admitted = ([], append_none admitted, tt)
admit_section-Adds (err e ∷ items) admitted = inl refl
admit_section-Adds (ok (m, n) ∷ items) admitted =
    found (find (λ item. item.module_name == m && item.name == n) allowed_imports)
      (find-Finds m n allowed_imports) (λ d. admit_section-Adds items (admitted ++ d ∷ []))
  where
    found :
        (o : Option ImportDeclaration)
        → Finds m n allowed_imports o
        → ((d : ImportDeclaration)
            → Adds items (admitted ++ d ∷ []) (admit_section items (admitted ++ d ∷ [])))
        → Adds
            (ok (m, n) ∷ items)
            admitted
            (ok_or o (undeclared_import m n) >>= λ d. admit_section items (admitted ++ d ∷ []))
    found none h rest = (inl refl, h)
    found (some d) h rest =
        later-Adds (m, n) d items admitted (admit_section items (admitted ++ d ∷ [])) h.0 h.1
          (rest d)

module _ (parse_all : List ℕ → List (Result String Payload)) (bytes : List ℕ) where
  -- However the artifact is parsed: it is admitted with one declaration for each import of all its import
  -- sections, in order, each of the import's module and name and on the list of allowed imports. It is
  -- refused as malformed only with an error of the parser, and for an undeclared import only with an
  -- import of the artifact that no declaration on the list is of; there is no other refusal.
  pub inspect_artifact-Verdict :
      Verdict (imports_in (parse_all bytes)) (inspect_artifact parse_all bytes)
  unfolding inspect_artifact
  inspect_artifact-Verdict =
      subst (Verdict (imports_in (parse_all bytes))) (sym (flat-payloads (parse_all bytes) [])) (
        verdict (admit_section (imports_in (parse_all bytes)) [])
          (admit_section-Adds (imports_in (parse_all bytes)) []))
    where
      verdict :
          (r : Result WasiRefusal (List ImportDeclaration))
          → Adds (imports_in (parse_all bytes)) [] r
          → Verdict (imports_in (parse_all bytes)) r
      verdict (ok declarations) (added, same, h) =
          subst (Declares (imports_in (parse_all bytes))) (sym same) h
      verdict (err e) h = h
