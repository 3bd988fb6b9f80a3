-- ===== src/Windows/TablePath.antt =====
-- crates/sim-platform-windows/src/path.rs: paths in UTF-16 units.
pub mod Laws
use sim_platform.Prelude.{
  ℕ, ◌/◌, ◌%◌, String, Bool, true, false, ◌||◌, Option, none, some, List, [], ◌∷◌, ◌++◌, map, eqb,
  any, if◌then◌else◌, Result, ok, err, refuse_if, ◌>>◌, ◌>>=◌,
}
use sim_platform.Core.Digest.{stable_digest}

pub data PathError : Type 0 where
  empty absolute traversal invalid_separator : PathError

pub record WindowsPath : Type 0 where
  pub units : List ℕ
  pub identity : String

-- `matches!(units.first(), Some(47 | 92))` and `units.get(1) == Some(&58)`
abbrev pub is_absolute : List ℕ → Bool
is_absolute [] = false
is_absolute (a ∷ []) = eqb a 47 || eqb a 92
is_absolute (a ∷ b ∷ units) = eqb a 47 || eqb a 92 || eqb b 58

abbrev pub is_empty : List ℕ → Bool
is_empty [] = true
is_empty (unit ∷ units) = false

abbrev pub normalized : List ℕ → List ℕ
normalized units = map (λ unit. if eqb unit 47 then 92 else unit) units

abbrev pub push_front : ℕ → List (List ℕ) → List (List ℕ)
push_front unit [] = (unit ∷ []) ∷ []
push_front unit (part ∷ parts) = (unit ∷ part) ∷ parts

-- `split(|unit| *unit == 92)`
abbrev pub split : List ℕ → List (List ℕ)
split [] = [] ∷ []
split (unit ∷ units) =
    let parts = split units in if eqb unit 92 then [] ∷ parts else push_front unit parts

abbrev pub is_dot_dot : List ℕ → Bool
is_dot_dot (a ∷ b ∷ []) = if eqb a 46 then eqb b 46 else false
is_dot_dot _ = false

abbrev pub le_bytes : List ℕ → List ℕ
le_bytes [] = []
le_bytes (unit ∷ units) = unit % 256 ∷ unit / 256 ∷ le_bytes units

unfoldable pub from_table_units : List ℕ → Result PathError WindowsPath
unfolding stable_digest
from_table_units units = do
  refuse_if (is_empty units) empty
  refuse_if (is_absolute units) absolute
  refuse_if (any (λ unit. eqb unit 0) units) invalid_separator
  refuse_if (any is_dot_dot (split (normalized units))) traversal
  ok (record { units = normalized units; identity = stable_digest (le_bytes units) })
