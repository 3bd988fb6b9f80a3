-- ===== src/Core/Symbol.antt =====
-- `OpenSymbol::new` and `RequirementBuilder` of crates/sim-platform-core/src/records.rs.
pub mod Laws
mod Tests
use sim_platform.Prelude.{
  ℕ, String, Bool, true, false, not, ◌&&◌, List, [], ◌∷◌, ◌++◌, eqb, any, if◌then◌else◌, Result, ok,
  err, ◌>>=◌,
}
use sim_platform.Prelude.Text.{codes, is_whitespace, is_blank}
use sim_platform.Core.Records.{
  OpenSymbol, modeled, Requirement, PlatformRecordError, invalid_symbol,
}

abbrev slash : ℕ
slash = b'/'

pub starts_with_slash : List ℕ → Bool
starts_with_slash [] = false
starts_with_slash (c ∷ s) = eqb c slash

pub ends_with_slash : List ℕ → Bool
ends_with_slash [] = false
ends_with_slash (c ∷ []) = eqb c slash
ends_with_slash (c ∷ s) = ends_with_slash s

unfoldable pub is_valid : String → Bool
unfolding is_blank starts_with_slash ends_with_slash
is_valid value =
    not (is_blank value)
    && any (λ c. eqb c slash) (codes value)
    && not (starts_with_slash (codes value))
    && not (ends_with_slash (codes value))
    && not (any is_whitespace (codes value))

-- `OpenSymbol::new`
unfoldable pub new : String → Result PlatformRecordError OpenSymbol
unfolding is_valid
new value = if is_valid value then ok value else err (invalid_symbol value)

-- A builder is its list of requirements.
abbrev pub RequirementBuilder : Type 0
RequirementBuilder = List Requirement

-- `RequirementBuilder::require`
unfoldable pub require : RequirementBuilder → String → Result PlatformRecordError RequirementBuilder
require self service = do
  symbol ← new service
  ok (
      self
      ++ record { service = symbol; substitutes = []; optional = false; minimum_evidence = modeled }
        ∷ [])

-- The `collect` of a sequence of results: the first error, or all values.
unfoldable pub new_all : List String → Result PlatformRecordError (List OpenSymbol)
new_all [] = ok []
new_all (s ∷ rest) = do symbol ← new s; symbols ← new_all rest; ok (symbol ∷ symbols)

-- `RequirementBuilder::optional`
unfoldable pub optional :
    RequirementBuilder → String → List String → Result PlatformRecordError RequirementBuilder
unfolding new_all
optional self service substitutes = do
  symbol ← new service
  symbols ← new_all substitutes
  ok (
      self
      ++ record {
        service = symbol;
        substitutes = symbols;
        optional = true;
        minimum_evidence = modeled;
      }
        ∷ [])
