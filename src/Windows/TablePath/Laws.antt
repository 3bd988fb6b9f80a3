-- ===== src/Windows/TablePath/Laws.antt =====
-- Which paths of the table membrane become paths of Windows.
use sim_platform.Prelude.{
  ℕ, true, false, ◌||◌, List, [], ◌∷◌, ◌++◌, length, eqb, any, All, ◌≡◌, ◌≢◌, ◌⊎◌, inl, inr, refl,
  sym, ap, ◌∙◌, subst, arith, Bool-cases, Result, ok, err, refuse_if_rule,
}
use sim_platform.Core.Digest.{stable_digest}
use sim_platform.Windows.TablePath.{
  PathError, empty, absolute, traversal, invalid_separator, WindowsPath, is_absolute, is_empty,
  normalized, push_front, split, is_dot_dot, le_bytes, from_table_units,
}

split-append : (before rest : List ℕ) → split (before ++ 92 ∷ rest) ≡ split before ++ split rest
split-append [] rest = refl
split-append (unit ∷ before) rest = elim (Bool-cases (eqb unit 92)) [
  | inl same ↦ rw same (ap (λ p. [] ∷ p) (split-append before rest))
  | inr other ↦
      rw other
        (ap (push_front unit) (split-append before rest) ∙ pushed (split before) (some_part before))
]
  where
    pushed :
        (parts : List (List ℕ))
        → parts ≢ []
        → push_front unit (parts ++ split rest) ≡ push_front unit parts ++ split rest
    pushed [] h = absurd (h refl)
    pushed (part ∷ parts) h = refl

    some_part : (units : List ℕ) → split units ≢ []
    some_part [] e = cc
    some_part (u ∷ units) e = elim (Bool-cases (eqb u 92)) [
      | inl same ↦ cc (simp same at e)
      | inr other ↦ filled (split units) (simp other at e)
    ]
      where
        filled : (parts : List (List ℕ)) → push_front u parts ≡ [] → ⊥
        filled [] e = cc
        filled (part ∷ parts) e = cc

any-append :
    (xs ys : List (List ℕ)) → any is_dot_dot (xs ++ ys) ≡ (any is_dot_dot xs || any is_dot_dot ys)
any-append [] ys = refl
any-append (x ∷ xs) ys = ground (arith, any-append xs ys)

-- A list that is empty, or ends in a separator; one that is empty, or begins with a separator.
abbrev pub EndsPart : List ℕ → Type 0
EndsPart before = (before ≡ []) ⊎ ((b : List ℕ) × (before ≡ b ++ 92 ∷ []))

abbrev pub StartsPart : List ℕ → Type 0
StartsPart after = (after ≡ []) ⊎ ((a : List ℕ) × (after ≡ 92 ∷ a))

-- The units have no component `..`.
abbrev pub Stays : List ℕ → Type 0
Stays units =
    (before after : List ℕ) → EndsPart before → StartsPart after → units ≢ before ++ 46 ∷ 46 ∷ after

dots_found : (after : List ℕ) → StartsPart after → any is_dot_dot (split (46 ∷ 46 ∷ after)) ≡ true
dots_found after (inl e) = subst (λ a. any is_dot_dot (split (46 ∷ 46 ∷ a)) ≡ true) (sym e) refl
dots_found after (inr (a, e)) =
    subst (λ x. any is_dot_dot (split (46 ∷ 46 ∷ x)) ≡ true) (sym e) (ground arith)

append_part : (b rest : List ℕ) → (b ++ 92 ∷ []) ++ rest ≡ b ++ 92 ∷ rest
append_part [] rest = refl
append_part (x ∷ b) rest = ap (λ l. x ∷ l) (append_part b rest)

split-Stays : (units : List ℕ) → any is_dot_dot (split units) ≡ false → Stays units
split-Stays units none_found before after (inl e) starts same =
    let found : any is_dot_dot (split (before ++ 46 ∷ 46 ∷ after)) ≡ true =
      ap (λ b. any is_dot_dot (split (b ++ 46 ∷ 46 ∷ after))) e ∙ dots_found after starts in
    cc (none_found, found, ap (λ u. any is_dot_dot (split u)) same)
split-Stays units none_found before after (inr (b, e)) starts same =
    let parts : split (before ++ 46 ∷ 46 ∷ after) ≡ split b ++ split (46 ∷ 46 ∷ after) =
      ap (λ x. split (x ++ 46 ∷ 46 ∷ after)) e
      ∙ ap split (append_part b (46 ∷ 46 ∷ after))
      ∙ split-append b (46 ∷ 46 ∷ after) in
    let found : any is_dot_dot (split (before ++ 46 ∷ 46 ∷ after)) ≡ true =
      ap (any is_dot_dot) parts
      ∙ any-append (split b) (split (46 ∷ 46 ∷ after))
      ∙ ground (arith, dots_found after starts) in
    cc (none_found, found, ap (λ u. any is_dot_dot (split u)) same)

-- An accepted path, from its table units.
pub record IsConfined (units : List ℕ) (path : WindowsPath) : Type 0 where
  pub some_unit : units ≢ []
  pub relative : is_absolute units ≡ false
  pub no_nul : All (λ unit. unit ≢ 0) path.units
  pub no_slash : All (λ unit. unit ≢ 47) path.units
  pub same_length : length path.units ≡ length units
  pub stays : Stays path.units
  pub named : path.identity ≡ stable_digest (le_bytes units)

normalized-no_nul :
    (units : List ℕ)
    → any (λ unit. eqb unit 0) units ≡ false
    → All (λ unit. unit ≢ 0) (normalized units)
normalized-no_nul [] h = tt
normalized-no_nul (unit ∷ units) h =
    (λ e. ground (arith, h, e), normalized-no_nul units (ground (arith, h)))

normalized-no_slash : (units : List ℕ) → All (λ unit. unit ≢ 47) (normalized units)
normalized-no_slash [] = tt
normalized-no_slash (unit ∷ units) = (λ e. ground (arith, e), normalized-no_slash units)

length-normalized : (units : List ℕ) → length (normalized units) ≡ length units
length-normalized [] = refl
length-normalized (unit ∷ units) = omega (arith, length-normalized units)

abbrev pub Verdict : List ℕ → Result PathError WindowsPath → Type 0
Verdict units (ok path) = IsConfined units path
Verdict units (err empty) = units ≡ []
Verdict units (err absolute) = is_absolute units ≡ true
Verdict units (err invalid_separator) = any (λ unit. eqb unit 0) units ≡ true
Verdict units (err traversal) = any is_dot_dot (split (normalized units)) ≡ true

-- Every branch: an accepted path is of at least one unit, is not absolute, has as many units as were
-- given, none of them NUL and none a slash, has no component `..` between its separators or its ends,
-- and carries the digest of the bytes that were given; a refusal names the test that failed.
pub from_table_units-Verdict : (units : List ℕ) → Verdict units (from_table_units units)
unfolding from_table_units
from_table_units-Verdict units =
    refuse_if_rule (Verdict units) (is_empty units) _ _ (λ e. none_given units e)
      λ given.
        refuse_if_rule (Verdict units) (is_absolute units) _ _ (λ e. e)
          λ relative.
            refuse_if_rule (Verdict units) (any (λ unit. eqb unit 0) units) _ _ (λ e. e)
              λ no_nul.
                refuse_if_rule (Verdict units) (any is_dot_dot (split (normalized units))) _
                  (ok (record {
                    units = normalized units;
                    identity = stable_digest (le_bytes units);
                  }))
                  (λ e. e)
                  λ stays. record {
                    some_unit = some_given units given;
                    relative = relative;
                    no_nul = normalized-no_nul units no_nul;
                    no_slash = normalized-no_slash units;
                    same_length = length-normalized units;
                    stays = split-Stays (normalized units) stays;
                    named = refl;
                  }
  where
    none_given : (units : List ℕ) → is_empty units ≡ true → units ≡ []
    none_given [] e = refl
    none_given (u ∷ units) e = cc

    some_given : (units : List ℕ) → is_empty units ≡ false → units ≢ []
    some_given [] e h = cc
    some_given (u ∷ units) e h = cc
