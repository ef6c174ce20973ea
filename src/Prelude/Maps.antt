-- ===== src/Prelude/Maps.antt =====
-- A Go map as an association list in which a key stands once: assigning to a key changes its entry in
-- place or adds one at the end. The order of the entries is the order in which `range` visits them.
use mathlib.Core.Path.{◌≡◌, refl}
use mathlib.Core.Logic.{◌↔◌}
use mathlib.Core.Bool.{Bool, true}
use mathlib.Core.List.{List, [], ◌∷◌}
use mathlib.Core.Option.{Option, none, some}
use native.Mathlib.Omega.{arith}
use sadbox.Prelude.Tests.{if◌then◌else◌}

module _ {ℓ κ} {K : Type ℓ} {V : Type κ} (eq : K → K → Bool) where
  unfoldable pub look : List (K × V) → K → Option V
  look [] k = none
  look ((j, v) ∷ m) k = if eq j k then some v else look m k

  unfoldable pub put : List (K × V) → K → V → List (K × V)
  put [] k v = (k, v) ∷ []
  put ((j, w) ∷ m) k v = if eq j k then (j, v) ∷ m else (j, w) ∷ put m k v

module _ {ℓ κ} {K : Type ℓ} {V : Type κ} (eq : K → K → Bool)
    (eq_lem : (a b : K) → (eq a b ≡ true) ↔ (a ≡ b)) where
  -- The one law of assignment and lookup.
  pub look-put :
      (m : List (K × V)) (k j : K) (v : V)
      → look eq (put eq m k v) j ≡ (if eq k j then some v else look eq m j)
  unfolding look put
  look-put [] k j v = refl
  look-put ((i, w) ∷ m) k j v = ground (arith, look-put m k j v, eq_lem i k, eq_lem i j, eq_lem k j)

-- No key stands twice.
module _ {ℓ κ} {K : Type ℓ} {V : Type κ} (eq : K → K → Bool) where
  abbrev pub Distinct : List (K × V) → Type κ
  Distinct [] = Unit {κ}
  Distinct ((k, v) ∷ m) = (look eq m k ≡ none) × Distinct m

module _ {ℓ κ} {K : Type ℓ} {V : Type κ} (eq : K → K → Bool)
    (eq_lem : (a b : K) → (eq a b ≡ true) ↔ (a ≡ b)) where
  pub put-Distinct : (m : List (K × V)) (k : K) (v : V) → Distinct eq m → Distinct eq (put eq m k v)
  unfolding put look
  put-Distinct [] k v h = (refl, tt)
  put-Distinct ((j, w) ∷ m) k v (fresh, rest) =
      ground (arith, put-Distinct m k v rest, eq_lem j k, eq_lem k j, look-put eq eq_lem m k j v)
