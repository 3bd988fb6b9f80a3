-- ===== src/Wasi/Tests.antt =====
-- The imports of artifacts, with a parser that knows two of them.
use sim_platform.Prelude.{ℕ, String, List, [], ◌∷◌, ◌≡◌, refl, Result, ok, err, text_key}
use sim_platform.Wasi.{
  undeclared_import, Payload, import_section, other_payload, declaration_of, allowed_imports,
  admit_section, admit_payloads, inspect_artifact,
}
use sim_platform.Wasi.Imports.{imports_in, Verdict, inspect_artifact-Verdict}

abbrev parsed : List ℕ → List (Result String Payload)
parsed [] =
    ok other_payload
    ∷ ok (
        import_section (
          ok ("wasi:cli/exit@0.2.0", "exit")
          ∷ ok ("wasi:random/random@0.2.0", "get-random-bytes")
          ∷ []))
    ∷ []
parsed (byte ∷ bytes) = ok (import_section (ok ("env", "socket") ∷ err "later error" ∷ [])) ∷ []

undeclared_refused : inspect_artifact parsed (0 ∷ []) ≡ err (undeclared_import "env" "socket")
unfolding inspect_artifact admit_payloads admit_section declaration_of allowed_imports
undeclared_refused = refl

inspect_artifact-Verdict_example : Verdict (imports_in (parsed [])) (inspect_artifact parsed [])
inspect_artifact-Verdict_example = inspect_artifact-Verdict parsed []
