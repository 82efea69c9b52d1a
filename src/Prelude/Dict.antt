-- ===== src/Prelude/Dict.antt =====
-- A Python dict, or an SQL table by its unique key, as an association list. A first match decides.
use mathlib.Core.Path.{◌≡◌, refl}
use mathlib.Core.Option
use mathlib.Core.Option.{Option, none, some}
use mathlib.Core.List.{List, [], ◌∷◌}
use native.Mathlib.Omega.{arith}
use sieshka.Prelude.Tests.{if◌then◌else◌}
use sieshka.Prelude.Equality.{Eq, ◌==◌}

abbrev pub Dict {ℓ κ} : Type ℓ → Type κ → Type (ℓ ⊔ κ)
Dict K V = List (K × V)

module _ {ℓ κ} {K : Type ℓ} {V : Type κ} ⦃e : Eq K⦄ where
  unfoldable pub lookup : K → Dict K V → Option V
  lookup k [] = none
  lookup k ((j, v) ∷ d) = if j == k then some v else lookup k d

  -- `d[k] = v`, or an INSERT of a row with a key.
  unfoldable pub insert : K → V → Dict K V → Dict K V
  insert k v [] = (k, v) ∷ []
  insert k v ((j, w) ∷ d) = if j == k then (k, v) ∷ d else (j, w) ∷ insert k v d

  -- `UPDATE … WHERE key = k`: every row with the key, and no row if there is none.
  unfoldable pub adjust : K → (V → V) → Dict K V → Dict K V
  adjust k f [] = []
  adjust k f ((j, w) ∷ d) = (j, if j == k then f w else w) ∷ adjust k f d

  pub lookup-insert :
      (k j : K) (v : V) (d : Dict K V)
      → lookup j (insert k v d) ≡ (if k == j then some v else lookup j d)
  unfolding lookup insert
  lookup-insert k j v [] = refl
  lookup-insert k j v ((i, w) ∷ d) =
      ground (arith, e.same_iff k j, e.same_iff i k, e.same_iff i j, lookup-insert k j v d)

  pub lookup-adjust :
      (k j : K) (f : V → V) (d : Dict K V)
      → lookup j (adjust k f d) ≡ (if k == j then Option.map f (lookup j d) else lookup j d)
  unfolding lookup adjust
  lookup-adjust k j f [] = ground arith
  lookup-adjust k j f ((i, w) ∷ d) =
      ground (arith, e.same_iff k j, e.same_iff i k, e.same_iff i j, lookup-adjust k j f d)
