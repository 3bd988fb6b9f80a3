-- ===== src/TableFs/Leaves.antt =====
-- The leaf files of a key after its leaf file was written.
use Prim.Native.String
use mathlib.Core.List as L
use text.Mathlib.TextLemmas.{append_cancel_left}
use sim_platform.Prelude.{
  ℕ, String, Bool, true, false, Option, none, some, List, [], ◌∷◌, ◌++◌, ◌≡◌, ◌≢◌, refl, sym, ap,
  ◌∙◌, subst, Bool-cases, inl, inr, Result, ok, err, map_err, ◌>>=◌, All, ◌==◌, text_key, eq_iff,
}
use sim_platform.HostDir.Store.{Segments, same_segments, same_segments_iff}
use sim_platform.HostDir.{
  StoragePort, file, ModelState, MemoryHostDirPort, PortResult, validate, full, lookup, commit,
  replaced, replace,
}
use sim_platform.HostDir.Laws.{update, view}
use sim_platform.TableFs.Leaf.{Kernel, is_some, known_exts, leaf_text, Leaf, with_leaf, the_leaf}
use sim_platform.TableFs.Steps.{next}
use sim_platform.TableFs.Candidates.{place, present}
use sim_platform.TableFs.{remove_others, ext_of}

same_segments_self : (path : Segments) → same_segments path path ≡ true
same_segments_self path = (same_segments_iff path path).1 refl

-- Two texts that are not `==` differ.
unlike : (s : String) {t : String} → s ≡ t → (s == t) ≡ false → ⊥
unlike s {t} p h = absurd (cc ((eq_iff s t).1 p, h))

pub bind-eq-ok :
    {E A B : Type 0} (r : Result E A) (f : A → Result E B) {b : B}
    → (r >>= f) ≡ ok b
    → (a : A) × (r ≡ ok a) × (f a ≡ ok b)
bind-eq-ok (ok a) f h = (a, refl, h)
bind-eq-ok (err e) f h = cc

pub map_err-eq-ok :
    {E F A : Type 0} (f : E → F) (r : Result E A) {a : A} → map_err f r ≡ ok a → r ≡ ok a
map_err-eq-ok f (ok a) h = cc
map_err-eq-ok f (err e) h = cc

pub replace-eq-ok :
    (port : StoragePort) (self : MemoryHostDirPort) (path : Segments) (bytes : List ℕ)
    (state : ModelState)
    → (replace port self path bytes false state).0 ≡ ok tt
    → validate port path ≡ ok tt
unfolding replace replaced full
replace-eq-ok port self path bytes state h = checked (validate port path) _ h
  where
    checked :
        (r : PortResult port (Unit {0})) (f : Segments → PortResult port (Unit {0} × ModelState))
        → (commit port state ((r >>= λ u. ok (self.prefix ++ path)) >>= f)).0 ≡ ok tt
        → r ≡ ok tt
    checked (ok u) f h = refl
    checked (err e) f h = cc

module _ (port : StoragePort) (kernel : Kernel)
    (name-new : (s : String) → kernel.name_of (kernel.new_symbol s) ≡ s) where
  with_leaf-eq-nil :
      (b : Bool) (leaf : Leaf port kernel) (rest : List (Leaf port kernel))
      → with_leaf port kernel b leaf rest ≡ []
      → rest ≡ []
  with_leaf-eq-nil true leaf rest h = cc
  with_leaf-eq-nil false leaf rest h = h

  pub remove_others_lem :
      (key : kernel.Symbol) (existing : Option (Leaf port kernel)) (ms : List (Leaf port kernel))
      (self : MemoryHostDirPort) (state : ModelState)
      → the_leaf port kernel key ms ≡ ok existing
      → remove_others port kernel existing ms self state ≡ (ok tt, state)
  unfolding remove_others next
  remove_others_lem key existing [] self state h = refl
  remove_others_lem key existing (leaf ∷ []) self state h =
      let found : some leaf ≡ existing = cc in rw (← found) (rw (same_segments_self leaf.0))
  remove_others_lem key existing (leaf ∷ other ∷ ms) self state h = cc

  module _ (key : kernel.Symbol) (self : MemoryHostDirPort) where
    abbrev pub at : String → Segments
    at = place port kernel name-new key self

    abbrev pub leaves : List String → ModelState → List (Leaf port kernel)
    leaves = present port kernel name-new key self

    abbrev IsThere : ModelState → Leaf port kernel → Type 0
    IsThere state leaf =
        (is_some (lookup (at leaf.1) state) ≡ true)
        × (leaf.0 ≡ leaf_text port kernel key leaf.1 ∷ [])

    leaf-IsThere :
        (exts : List String) (state : ModelState) (leaf : Leaf port kernel)
        → leaves exts state ≡ leaf ∷ []
        → IsThere state leaf
    unfolding present
    leaf-IsThere [] state leaf h = cc
    leaf-IsThere (ext ∷ exts) state leaf h = elim (Bool-cases (is_some (lookup (at ext) state))) [
      | inl there ↦
          let same : (leaf_text port kernel key ext ∷ [], ext) ≡ leaf = cc (rw there at h) in
          subst (IsThere state) same (there, refl)
      | inr gone ↦ leaf-IsThere exts state leaf (rw gone at h)
    ]

    -- Two leaf files of one key differ in the extension.
    at_inj : (e f : String) → at e ≡ at f → e ≡ f
    at_inj e f h =
        let last : (leaf_text port kernel key e ∷ []) ≡ leaf_text port kernel key f ∷ [] =
          L.append_cancel_left self.prefix _ _ h in
        append_cancel_left (String.◌++◌ (kernel.name_of key) ".") e f (cc last)

    module _ (state after : ModelState) (ext : String) (bytes : List ℕ)
        (stored : (k : Segments)
          → view after k ≡ update (view state) (at ext) (some (file bytes)) k) where
      pub read_back : lookup (at ext) after ≡ some (file bytes)
      read_back = stored (at ext) ∙ rw (same_segments_self (at ext))

      kept_at : (e : String) → at ext ≢ at e → lookup (at e) after ≡ lookup (at e) state
      kept_at e other = elim (Bool-cases (same_segments (at ext) (at e))) [
        | inl same ↦ absurd (other ((same_segments_iff (at ext) (at e)).0 same))
        | inr apart ↦ stored (at e) ∙ rw apart
      ]

      -- Where the leaf was there before, the same leaf files are there after.
      leaves_kept :
          (exts : List String)
          → is_some (lookup (at ext) state) ≡ true
          → leaves exts after ≡ leaves exts state
      unfolding present
      leaves_kept [] h = refl
      leaves_kept (e ∷ exts) h = cc (leaves_kept exts h, still)
        where
          still : is_some (lookup (at e) after) ≡ is_some (lookup (at e) state)
          still = elim (Bool-cases (same_segments (at ext) (at e))) [
            | inl same ↦
                let place_same = (same_segments_iff (at ext) (at e)).0 same in
                rw (← place_same) (rw (read_back, h))
            | inr apart ↦ ap is_some (stored (at e) ∙ rw apart)
          ]

      leaves_absent :
          (exts : List String)
          → All (λ e. e ≢ ext) exts
          → leaves exts state ≡ []
          → leaves exts after ≡ []
      unfolding present
      leaves_absent [] others h = refl
      leaves_absent (e ∷ exts) (other, others) h =
          elim (Bool-cases (is_some (lookup (at e) state))) [
            | inl there ↦ cc (rw there at h)
            | inr gone ↦
                let same = kept_at e (λ p. other (sym (at_inj ext e p))) in
                rw (same, gone) (leaves_absent exts others (rw gone at h))
          ]

      -- The one leaf file afterwards is that which was written.
      pub leaf_after :
          (existing : Option (Leaf port kernel))
          → the_leaf port kernel key (leaves known_exts state) ≡ ok existing
          → ext_of port kernel existing ≡ ext
          → leaves known_exts after ≡ (leaf_text port kernel key ext ∷ [], ext) ∷ []
      unfolding present
      leaf_after existing h e = which (leaves known_exts state) refl h
        where
          others : ext ≡ "siml" → All (λ e. e ≢ ext) ("simb" ∷ "simb64" ∷ "simj" ∷ "sima" ∷ [])
          others siml = (
            λ p. unlike "simb" (p ∙ siml) refl,
            (
              λ p. unlike "simb64" (p ∙ siml) refl,
              (λ p. unlike "simj" (p ∙ siml) refl, (λ p. unlike "sima" (p ∙ siml) refl, tt)),
            ),
          )

          fresh :
              leaves known_exts state ≡ []
              → ext ≡ "siml"
              → leaves known_exts after ≡ (leaf_text port kernel key ext ∷ [], ext) ∷ []
          fresh m siml =
              let first : lookup (at "siml") after ≡ some (file bytes) =
                subst (λ x. lookup (at x) after ≡ some (file bytes)) siml read_back in
              let rest =
                leaves_absent ("simb" ∷ "simb64" ∷ "simj" ∷ "sima" ∷ []) (others siml)
                  (with_leaf-eq-nil (is_some (lookup (at "siml") state)) _ _ m) in
              subst (λ x. leaves known_exts after ≡ (leaf_text port kernel key x ∷ [], x) ∷ [])
                (sym siml) (rw (first, rest))

          which :
              (ms : List (Leaf port kernel))
              → leaves known_exts state ≡ ms
              → the_leaf port kernel key ms ≡ ok existing
              → leaves known_exts after ≡ (leaf_text port kernel key ext ∷ [], ext) ∷ []
          which [] m found =
              let nothing : existing ≡ none = cc in
              fresh m (sym e ∙ ap (ext_of port kernel) nothing)
          which ((path, e') ∷ []) m found =
              let known : some (path, e') ≡ existing = cc in
              let same : e' ≡ ext = ap (ext_of port kernel) known ∙ e in
              let (there, named) = leaf-IsThere known_exts state (path, e') m in
              leaves_kept known_exts (subst (λ x. is_some (lookup (at x) state) ≡ true) same there)
              ∙ m
              ∙ cc (named, same)
          which (leaf ∷ other ∷ ms) m found = cc
