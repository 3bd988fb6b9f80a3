-- ===== src/TableFs/Edit/Pieces.antt =====
-- The pieces of a text between the matches of a pattern.
use Prim.Native.Char.{Char}
use Prim.Native.String.{◌++◌}
use text.Mathlib.TextLemmas as T
use sim_platform.Prelude.{
  ℕ, zero, suc, ◌≤◌, String, Bool, true, false, List, [], ◌∷◌, ◌≡◌, ◌≢◌, refl, sym, ap, ◌∙◌, arith,
  if◌then◌else◌, text_key, eq_iff, All,
}
use sim_platform.TableFs.Edit.{
  same_char, count_chars, count_rest, has_prefix, Pieces, cut, pieces, joined,
}

same_char-eq : (c d : Char) → same_char c d ≡ true → c ≡ d
same_char-eq c d h = let e = (eq_iff (String.◌∷◌ c "") (String.◌∷◌ d "")).0 h in cc

true-ne-false : ◌≡◌ {A = Bool} true false → ⊥
true-ne-false h = absurd (cc)

same_char_self : (c : Char) → same_char c c ≡ true
same_char_self c = (eq_iff (String.◌∷◌ c "") (String.◌∷◌ c "")).1 refl

abbrev drop_chars : ℕ → String → String
drop_chars zero t = t
drop_chars (suc k) String.[] = ""
drop_chars (suc k) (String.◌∷◌ c t) = drop_chars k t

has_prefix-split : (s t : String) → has_prefix s t ≡ true → t ≡ s ++ drop_chars (count_chars s) t
has_prefix-split String.[] t h = sym (T.nil-append t)
has_prefix-split (String.◌∷◌ c s) String.[] h = cc
has_prefix-split (String.◌∷◌ c s) (String.◌∷◌ d t) h =
    let same = same_char-eq c d (ground arith) in
    let rest = has_prefix-split s t (ground arith) in
    cc (same, rest, T.cons-append c s (drop_chars (count_chars s) t))

has_prefix-le : (s t : String) → has_prefix s t ≡ true → count_chars s ≤ count_chars t
has_prefix-le String.[] t h = omega arith
has_prefix-le (String.◌∷◌ c s) String.[] h = cc
has_prefix-le (String.◌∷◌ c s) (String.◌∷◌ d t) h = omega (arith, has_prefix-le s t (ground arith))

has_prefix-append : (s t : String) → has_prefix s (s ++ t) ≡ true
has_prefix-append String.[] t = refl
has_prefix-append (String.◌∷◌ c s) t =
    rw (T.cons-append c s t) (rw (same_char_self c, has_prefix-append s t))

-- The pattern does not occur in the text.
abbrev pub IsFree : String → String → Type 0
IsFree old t = (a b : String) → t ≢ a ++ (old ++ b)

abbrev pub AllFree : String → Pieces → Type 0
AllFree old (p, ps) = IsFree old p × All (IsFree old) ps

joined-front :
    (between p : String) (ps : List String) → (rest : String) × (joined between p ps ≡ p ++ rest)
joined-front between p [] = ("", sym (T.append-nil p))
joined-front between p (q ∷ qs) = (between ++ joined between q qs, refl)

module _ (o : Char) (os : String) where
  abbrev old : String
  old = String.◌∷◌ o os

  joined-cut :
      (c : Char) (t : String) (b : Bool) (ps : Pieces)
      → has_prefix old (String.◌∷◌ c t) ≡ b
      → joined old ps.0 ps.1 ≡ drop_chars (if b then count_rest old else 0) t
      → joined old (cut b c ps).0 (cut b c ps).1 ≡ String.◌∷◌ c t
  joined-cut c t true (p, ps) h ih =
      T.nil-append (old ++ joined old p ps)
      ∙ ap (λ s. old ++ s) ih
      ∙ sym (has_prefix-split old (String.◌∷◌ c t) h)
  joined-cut c t false (p, []) h ih = ap (String.◌∷◌ c) ih
  joined-cut c t false (p, q ∷ qs) h ih =
      T.cons-append c p (old ++ joined old q qs) ∙ ap (String.◌∷◌ c) ih

  -- Joined by the pattern, the pieces are the text.
  pub joined-pieces :
      (k : ℕ) (t : String)
      → k ≤ count_chars t
      → joined old (pieces old k t).0 (pieces old k t).1 ≡ drop_chars k t
  unfolding pieces
  joined-pieces zero String.[] h = refl
  joined-pieces (suc k) String.[] h = absurd (omega arith)
  joined-pieces (suc k) (String.◌∷◌ c t) h = joined-pieces k t (omega arith)
  joined-pieces zero (String.◌∷◌ c t) h = joined-cut c t (has_prefix old (String.◌∷◌ c t)) _ refl (
      joined-pieces (if has_prefix old (String.◌∷◌ c t) then count_rest old else 0) t
        (short (has_prefix old (String.◌∷◌ c t)) refl))
    where
      short :
          (b : Bool)
          → has_prefix old (String.◌∷◌ c t) ≡ b
          → (if b then count_rest old else 0) ≤ count_chars t
      short true e = let le = has_prefix-le old (String.◌∷◌ c t) e in omega arith
      short false e = omega arith

  IsFree-empty : IsFree old ""
  IsFree-empty a b h =
      let second = (T.append-eq-nil_iff.0 (sym h)).1 in
      T.cons-ne-nil o os (T.append-eq-nil_iff.0 second).0

  AllFree-cut :
      (c : Char) (t : String) (b : Bool) (ps : Pieces)
      → has_prefix old (String.◌∷◌ c t) ≡ b
      → joined old ps.0 ps.1 ≡ drop_chars (if b then count_rest old else 0) t
      → AllFree old ps
      → AllFree old (cut b c ps)
  AllFree-cut c t true (p, ps) h text (first, rest) = (IsFree-empty, (first, rest))
  AllFree-cut c t false (p, ps) h text (first, rest) = (free, rest)
    where
      free : IsFree old (String.◌∷◌ c p)
      free String.[] b e =
          let (tail, front) = joined-front old p ps in
          let whole : String.◌∷◌ c t ≡ old ++ (b ++ tail) =
            ap (String.◌∷◌ c) (sym text ∙ front)
            ∙ sym (T.cons-append c p tail)
            ∙ ap (λ s. s ++ tail) (e ∙ T.nil-append (old ++ b))
            ∙ T.append_assoc old b tail in
          true-ne-false (sym (ap (has_prefix old) whole ∙ has_prefix-append old (b ++ tail)) ∙ h)
      free (String.◌∷◌ x a) b e =
          first a b (T.tail-eq_of_cons-eq (e ∙ T.cons-append x a (old ++ b)))

  -- The pattern occurs in none of the pieces.
  pub AllFree-pieces : (k : ℕ) (t : String) → k ≤ count_chars t → AllFree old (pieces old k t)
  unfolding pieces
  AllFree-pieces k String.[] h = (IsFree-empty, tt)
  AllFree-pieces (suc k) (String.◌∷◌ c t) h = AllFree-pieces k t (omega arith)
  AllFree-pieces zero (String.◌∷◌ c t) h =
      AllFree-cut c t (has_prefix old (String.◌∷◌ c t)) _ refl (joined-pieces k t le)
        (AllFree-pieces k t le)
    where
      k : ℕ
      k = if has_prefix old (String.◌∷◌ c t) then count_rest old else 0

      short :
          (b : Bool)
          → has_prefix old (String.◌∷◌ c t) ≡ b
          → (if b then count_rest old else 0) ≤ count_chars t
      short true e = let le = has_prefix-le old (String.◌∷◌ c t) e in omega arith
      short false e = omega arith

      le : k ≤ count_chars t
      le = short (has_prefix old (String.◌∷◌ c t)) refl
