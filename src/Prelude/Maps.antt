-- ===== src/Prelude/Maps.antt =====
-- `BTreeMap` as an association list in key order: `insert` replaces the value of a present key, and
-- `get` reads. The order of the keys is a parameter.
use mathlib.Core.Path.{◌≡◌, refl}
use mathlib.Core.Bool.{Bool}
use mathlib.Core.Option.{Option, none, some}
use mathlib.Core.List.{List, [], ◌∷◌}
use native.Mathlib.Omega.{arith}
use sim_platform.Prelude.Tests.{Eq, ◌==◌, if◌then◌else◌}

module _ {ℓ κ} {K : Type ℓ} {V : Type κ} ⦃e : Eq K⦄ where
  unfoldable pub get : K → List (K × V) → Option V
  get k [] = none
  get k ((j, v) ∷ m) = if j == k then some v else get k m

  unfoldable pub insert : (K → K → Bool) → K → V → List (K × V) → List (K × V)
  insert before k v [] = (k, v) ∷ []
  insert before k v ((j, w) ∷ m) =
      if j == k
      then (j, v) ∷ m
      else if before k j
      then (k, v) ∷ (j, w) ∷ m
      else (j, w) ∷ insert before k v m

  pub get-insert :
      (before : K → K → Bool) (k j : K) (v : V) (m : List (K × V))
      → get j (insert before k v m) ≡ (if k == j then some v else get j m)
  unfolding get insert
  get-insert before k j v [] = refl
  get-insert before k j v ((i, w) ∷ m) =
      ground
        (arith, e.eq_decides k j, e.eq_decides i k, e.eq_decides i j, get-insert before k j v m)

  unfoldable pub values : List (K × V) → List V
  values [] = []
  values ((k, v) ∷ m) = v ∷ values m
