-- ===== src/TableFs/Edit/Laws.antt =====
-- What the edits of a text do, on every branch.
use Prim.Native.Char.{Char}
use Prim.Native.String.{◌++◌}
use text.Mathlib.TextLemmas as T
use mathlib.Core.List as L
use sim_platform.Prelude.{
  ℕ, zero, suc, ◌+◌, ◌-◌, ◌≤◌, ◌<◌, String, Bool, true, false, not, ◌&&◌, List, [], ◌∷◌, ◌≡◌, ◌≢◌,
  ◌⊎◌, refl, sym, ap, ◌∙◌, subst, arith, if◌then◌else◌, inl, inr, ◌==◌, text_key, eq_iff, Result,
  ok, err, refuse_if, refuse_if_rule, ◌>>◌, length, take, drop, take-append-drop, length-take,
  length-drop, ltb, eqb,
}
use sim_platform.TableFs.Edit.{
  EditError, empty_pattern, pattern_not_found, not_unique, start_is_zero, end_before_start,
  out_of_range, Pieces, pieces, joined, count_matches, replace, replace_first, apply_edit, put_char,
  with_char, line_end, split_inclusive, concat, apply_edit_lines,
}
use sim_platform.TableFs.Edit.Pieces.{IsFree, AllFree, joined-pieces, AllFree-pieces}

module _ (text old new : String) where
  -- The text is cut by the pattern into these pieces, in none of which it occurs.
  abbrev pub CutsInto : Pieces → Type 0
  CutsInto ps = (text ≡ joined old ps.0 ps.1) × AllFree old ps

  abbrev pub Replaced : Bool → Pieces → String → Type 0
  Replaced true ps t = t ≡ joined new ps.0 ps.1
  Replaced false ps t = (after : String) × (ps.1 ≡ after ∷ []) × (t ≡ ps.0 ++ (new ++ after))

  abbrev pub Edited : Bool → Result EditError String → Type 0
  Edited replace_all (ok t) =
      (ps : Pieces) × CutsInto ps × (0 < length ps.1) × Replaced replace_all ps t
  Edited replace_all (err empty_pattern) = old ≡ ""
  Edited replace_all (err (pattern_not_found pattern)) = (pattern ≡ old) × IsFree old text
  Edited replace_all (err (not_unique n)) =
      (replace_all ≡ false) × (1 < n) × (ps : Pieces) × CutsInto ps × (length ps.1 ≡ n)
  Edited replace_all (err e) = ⊥

  edited : Bool → Pieces → Result EditError String
  edited replace_all ps = do
    refuse_if (eqb (count_matches ps) 0) (pattern_not_found old)
    refuse_if (ltb 1 (count_matches ps) && not replace_all) (not_unique (count_matches ps))
    ok (if replace_all then replace new ps else replace_first old new ps)

  edited-Edited :
      (replace_all : Bool) (ps : Pieces) → CutsInto ps → Edited replace_all (edited replace_all ps)
  unfolding edited
  edited-Edited replace_all (p, []) (whole, (free, rest)) =
      (refl, subst (IsFree old) (sym whole) free)
  edited-Edited true (p, q ∷ []) cuts = ((p, q ∷ []), cuts, omega arith, refl)
  edited-Edited false (p, q ∷ []) cuts = ((p, q ∷ []), cuts, omega arith, (q, refl, refl))
  edited-Edited true (p, q ∷ q' ∷ qs) cuts =
      let several : ltb 1 (length (q ∷ q' ∷ qs)) ≡ true = ground arith in
      let some_match : eqb (length (q ∷ q' ∷ qs)) 0 ≡ false = ground arith in
      rw (several, some_match) ((p, q ∷ q' ∷ qs), cuts, omega arith, refl)
  edited-Edited false (p, q ∷ q' ∷ qs) cuts =
      let several : ltb 1 (length (q ∷ q' ∷ qs)) ≡ true = ground arith in
      let some_match : eqb (length (q ∷ q' ∷ qs)) 0 ≡ false = ground arith in
      rw (several, some_match) (refl, omega arith, (p, q ∷ q' ∷ qs), cuts, refl)

-- Every branch of a replacement. It succeeds with the text cut by the pattern into at least two pieces that
-- do not contain the pattern: to replace all, the new text stands between all of them; else there are
-- exactly two, and the new text stands between them. It refuses the empty pattern, a pattern that does
-- not occur in the text, and, unless all are replaced, one by which such a cut gives more than two pieces.
pub apply_edit-Edited :
    (text old new : String) (replace_all : Bool)
    → Edited text old new replace_all (apply_edit text old new replace_all)
unfolding apply_edit edited
apply_edit-Edited text String.[] new replace_all = refl
apply_edit-Edited text (String.◌∷◌ o os) new replace_all =
    let old = String.◌∷◌ o os in
    refuse_if_rule (Edited text old new replace_all) (old == "") empty_pattern
      (edited text old new replace_all (pieces old 0 text)) (λ h. (eq_iff old "").0 h)
      (λ h.
        edited-Edited text old new replace_all (pieces old 0 text)
          (sym (joined-pieces o os 0 text (omega arith)), AllFree-pieces o os 0 text (omega arith)))

-- A line: its end is its last character, and there is no other.
abbrev pub IsLine : String → Type 0
IsLine String.[] = ⊥
IsLine (String.◌∷◌ c String.[]) = String.◌∷◌ c "" ≡ line_end
IsLine (String.◌∷◌ c (String.◌∷◌ d s)) = (String.◌∷◌ c "" ≢ line_end) × IsLine (String.◌∷◌ d s)

-- What stands behind the last line end: it is not empty, and has no line end.
abbrev pub IsTail : String → Type 0
IsTail String.[] = ⊥
IsTail (String.◌∷◌ c String.[]) = String.◌∷◌ c "" ≢ line_end
IsTail (String.◌∷◌ c (String.◌∷◌ d s)) = (String.◌∷◌ c "" ≢ line_end) × IsTail (String.◌∷◌ d s)

-- Lines, of which the last one may lack its end.
abbrev pub AreLines : List String → Type 0
AreLines [] = Unit
AreLines (s ∷ []) = IsLine s ⊎ IsTail s
AreLines (s ∷ t ∷ rest) = IsLine s × AreLines (t ∷ rest)

with_char-concat :
    (b : Bool) (c : Char) (ls : List String) → concat (with_char b c ls) ≡ String.◌∷◌ c (concat ls)
with_char-concat true c ls =
    T.cons-append c "" (concat ls) ∙ ap (String.◌∷◌ c) (T.nil-append (concat ls))
with_char-concat false c [] = T.append-nil (String.◌∷◌ c "")
with_char-concat false c (l ∷ ls) = T.cons-append c l (concat ls)

-- The lines of a text are the text.
concat-split_inclusive : (t : String) → concat (split_inclusive t) ≡ t
unfolding split_inclusive
concat-split_inclusive String.[] = refl
concat-split_inclusive (String.◌∷◌ c t) =
    with_char-concat (String.◌∷◌ c "" == line_end) c (split_inclusive t)
    ∙ ap (String.◌∷◌ c) (concat-split_inclusive t)

longer-IsLine :
    (c : Char) (s : String) → String.◌∷◌ c "" ≢ line_end → IsLine s → IsLine (String.◌∷◌ c s)
longer-IsLine c String.[] h k = absurd k
longer-IsLine c (String.◌∷◌ d s) h k = (h, k)

longer-IsTail :
    (c : Char) (s : String) → String.◌∷◌ c "" ≢ line_end → IsTail s → IsTail (String.◌∷◌ c s)
longer-IsTail c String.[] h k = absurd k
longer-IsTail c (String.◌∷◌ d s) h k = (h, k)

with_char-AreLines :
    (b : Bool) (c : Char) (ls : List String)
    → (String.◌∷◌ c "" == line_end) ≡ b
    → AreLines ls
    → AreLines (with_char b c ls)
with_char-AreLines true c [] h k = inl ((eq_iff (String.◌∷◌ c "") line_end).0 h)
with_char-AreLines true c (l ∷ ls) h k = ((eq_iff (String.◌∷◌ c "") line_end).0 h, k)
with_char-AreLines false c ls h k =
    grown (λ e. cc (h, (eq_iff (String.◌∷◌ c "") line_end).1 e)) ls k
  where
    grown : String.◌∷◌ c "" ≢ line_end → (ls : List String) → AreLines ls → AreLines (put_char c ls)
    grown other [] k = inr other
    grown other (l ∷ []) (inl line) = inl (longer-IsLine c l other line)
    grown other (l ∷ []) (inr tail) = inr (longer-IsTail c l other tail)
    grown other (l ∷ l' ∷ ls) (line, rest) = (longer-IsLine c l other line, rest)

split_inclusive-AreLines : (t : String) → AreLines (split_inclusive t)
unfolding split_inclusive
split_inclusive-AreLines String.[] = tt
split_inclusive-AreLines (String.◌∷◌ c t) =
    with_char-AreLines (String.◌∷◌ c "" == line_end) c (split_inclusive t) refl
      (split_inclusive-AreLines t)

concat-append : (xs ys : List String) → concat (L.◌++◌ xs ys) ≡ concat xs ++ concat ys
concat-append [] ys = sym (T.nil-append (concat ys))
concat-append (x ∷ xs) ys =
    ap (λ s. x ++ s) (concat-append xs ys) ∙ sym (T.append_assoc x (concat xs) (concat ys))

drop_nil : (n : ℕ) → drop {A = String} n [] ≡ []
drop_nil zero = refl
drop_nil (suc n) = refl

drop-drop : (a b : ℕ) (xs : List String) → drop b (drop a xs) ≡ drop (a + b) xs
drop-drop zero b xs = let e : b ≡ 0 + b = omega arith in ap (λ n. drop n xs) e
drop-drop (suc a) b [] = drop_nil b ∙ sym (drop_nil (suc a + b))
drop-drop (suc a) b (x ∷ xs) =
    let e : suc (a + b) ≡ suc a + b = omega arith in drop-drop a b xs ∙ ap (λ n. drop n (x ∷ xs)) e

module _ (text : String) (start end : ℕ) (new : String) where
  -- The text is made of these lines.
  abbrev pub Consists : List String → Type 0
  Consists lines = AreLines lines × (text ≡ concat lines)

  abbrev pub LinesEdited : Result EditError String → Type 0
  LinesEdited (ok t) =
      (before middle rest : List String) × Consists (L.◌++◌ before (L.◌++◌ middle rest))
      × (suc (length before) ≡ start)
      × (length before + length middle ≡ end)
      × (start ≤ end)
      × (t ≡ concat before ++ (new ++ concat rest))
  LinesEdited (err start_is_zero) = start ≡ 0
  LinesEdited (err end_before_start) = end < start
  LinesEdited (err (out_of_range s e n)) =
      (s ≡ start)
      × (e ≡ end)
      × (n < end)
      × (lines : List String) × Consists lines
      × (length lines ≡ n)
  LinesEdited (err e) = ⊥

  -- Every branch of a replacement of lines. It succeeds with the text made of lines, of which the last one may
  -- lack its end: those from the first given number to the second, counted from one, are replaced by the
  -- new text, and the lines before and behind them are kept. It refuses a first number of zero, a second
  -- one below the first, and one above the number of the lines.
  pub apply_edit_lines-LinesEdited : LinesEdited (apply_edit_lines text start end new)
  unfolding apply_edit_lines
  apply_edit_lines-LinesEdited =
      refuse_if_rule LinesEdited (eqb start 0) start_is_zero _ (λ h. ground arith)
        λ h₀.
          refuse_if_rule LinesEdited (ltb end start) end_before_start _ (λ h. ground arith)
            λ h₁.
              refuse_if_rule LinesEdited (ltb (length lines) end)
                (out_of_range start end (length lines)) _
                (λ h. (refl, refl, ground arith, lines, made, refl))
                λ h₂. cut (ground arith) (ground arith) (ground arith)
    where
      lines : List String
      lines = split_inclusive text

      made : Consists lines
      made = (split_inclusive-AreLines text, sym (concat-split_inclusive text))

      cut :
          0 < start
          → start ≤ end
          → end ≤ length lines
          → LinesEdited (ok (concat (take (start - 1) lines) ++ (new ++ concat (drop end lines))))
      cut h₀ h₁ h₂ =
          let n = start - 1 in
          let later = drop n lines in
          let rest : drop (end - n) later ≡ drop end lines =
            let e : n + (end - n) ≡ end = omega arith in
            drop-drop n (end - n) lines ∙ ap (λ m. drop m lines) e in
          let whole : L.◌++◌ (take n lines) (L.◌++◌ (take (end - n) later) (drop end lines))
              ≡ lines =
            ap (λ r. L.◌++◌ (take n lines) (L.◌++◌ (take (end - n) later) r)) (sym rest)
            ∙ ap (L.◌++◌ (take n lines)) (take-append-drop (end - n) later)
            ∙ take-append-drop n lines in
          let first = length-take n lines in
          let second = length-take (end - n) later in
          let left = length-drop n lines in
          (
            take n lines,
            take (end - n) later,
            drop end lines,
            subst Consists (sym whole) made,
            omega arith,
            omega arith,
            h₁,
            refl,
          )
