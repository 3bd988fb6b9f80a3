-- ===== src/TableFs/Edit.antt =====
-- crates/sim-table-fs/src/dir_edit.rs: the edits of a text, `apply_edit` and `apply_edit_lines`.
mod Pieces
pub mod Laws
use Prim.Native.Char.{Char}
use Prim.Native.String.{◌++◌}
use sim_platform.Prelude.{
  ℕ, zero, suc, ◌-◌, String, Bool, true, false, not, ◌&&◌, Option, none, some, List, [], ◌∷◌, ltb,
  eqb, if◌then◌else◌, ◌==◌, text_key, length, take, drop, Result, ok, err, refuse_if, ◌>>=◌, ◌>>◌,
}

-- The messages of the errors, with what they print.
pub data EditError : Type 0 where
  empty_pattern : EditError
  pattern_not_found : String → EditError
  not_unique : ℕ → EditError
  start_is_zero end_before_start : EditError
  out_of_range : (start end lines : ℕ) → EditError

abbrev pub same_char : Char → Char → Bool
same_char c d = String.◌∷◌ c "" == String.◌∷◌ d ""

abbrev pub count_chars : String → ℕ
count_chars String.[] = 0
count_chars (String.◌∷◌ c s) = suc (count_chars s)

abbrev pub has_prefix : String → String → Bool
has_prefix String.[] t = true
has_prefix (String.◌∷◌ c s) String.[] = false
has_prefix (String.◌∷◌ c s) (String.◌∷◌ d t) = same_char c d && has_prefix s t

-- The characters of a match behind its first one.
abbrev pub count_rest : String → ℕ
count_rest String.[] = 0
count_rest (String.◌∷◌ c s) = count_chars s

-- A text cut at the matches of a pattern, from left to right and without overlap: the first piece, and
-- the piece behind each match. The number is that of the characters of a match which are still to pass.
abbrev pub Pieces : Type 0
Pieces = String × List String

abbrev pub cut : Bool → Char → Pieces → Pieces
cut true c (p, ps) = ("", p ∷ ps)
cut false c (p, ps) = (String.◌∷◌ c p, ps)

unfoldable pub pieces : String → ℕ → String → Pieces
pieces old k String.[] = ("", [])
pieces old (suc k) (String.◌∷◌ c t) = pieces old k t
pieces old zero (String.◌∷◌ c t) =
    cut (has_prefix old (String.◌∷◌ c t)) c
      (pieces old (if has_prefix old (String.◌∷◌ c t) then count_rest old else 0) t)

abbrev pub joined : String → String → List String → String
joined between p [] = p
joined between p (q ∷ qs) = p ++ (between ++ joined between q qs)

-- `text.matches(old).count()`
abbrev pub count_matches : Pieces → ℕ
count_matches (p, ps) = length ps

-- `text.replace(old, new)`
abbrev pub replace : String → Pieces → String
replace new (p, ps) = joined new p ps

-- `text.replacen(old, new, 1)`
abbrev pub replace_first : String → String → Pieces → String
replace_first old new (p, []) = p
replace_first old new (p, q ∷ qs) = p ++ (new ++ joined old q qs)

unfoldable pub apply_edit : String → String → String → Bool → Result EditError String
unfolding pieces
apply_edit text old new replace_all = do
  refuse_if (old == "") empty_pattern
  let found = pieces old 0 text
  refuse_if (eqb (count_matches found) 0) (pattern_not_found old)
  refuse_if (ltb 1 (count_matches found) && not replace_all) (not_unique (count_matches found))
  ok (if replace_all then replace new found else replace_first old new found)

abbrev pub put_char : Char → List String → List String
put_char c [] = String.◌∷◌ c "" ∷ []
put_char c (line ∷ lines) = String.◌∷◌ c line ∷ lines

-- `text.split_inclusive('\n')`
abbrev pub line_end : String
line_end = "\n"

abbrev pub with_char : Bool → Char → List String → List String
with_char true c lines = String.◌∷◌ c "" ∷ lines
with_char false c lines = put_char c lines

unfoldable pub split_inclusive : String → List String
split_inclusive String.[] = []
split_inclusive (String.◌∷◌ c t) = with_char (String.◌∷◌ c "" == line_end) c (split_inclusive t)

abbrev pub concat : List String → String
concat [] = ""
concat (line ∷ lines) = line ++ concat lines

unfoldable pub apply_edit_lines : String → ℕ → ℕ → String → Result EditError String
apply_edit_lines text start end new = do
  refuse_if (eqb start 0) start_is_zero
  refuse_if (ltb end start) end_before_start
  let lines = split_inclusive text
  refuse_if (ltb (length lines) end) (out_of_range start end (length lines))
  ok (concat (take (start - 1) lines) ++ (new ++ concat (drop end lines)))
