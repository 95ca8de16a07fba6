-- ===== src/Base/Maps.antt =====
-- Go's `map[K]V` as an association list with one entry per key. Programs see the laws below; where
-- the source iterates over a map, the model says in which order.
use mathlib.Core.Path.{◌≡◌, refl}
use mathlib.Core.Option.{Option, none, some}
use mathlib.Core.List.{List, [], ◌∷◌}
use native.Mathlib.Omega.{arith}
use go_lib.Base.Tests.{Comparable, ◌==◌, if◌then◌else◌}

abbrev pub Map {ℓ κ} : Type ℓ → Type κ → Type (ℓ ⊔ κ)
Map K V = List (K × V)

module _ {ℓ κ} {K : Type ℓ} {V : Type κ} ⦃cmp : Comparable K⦄ where
  -- `v, ok := m[k]`
  unfoldable pub get : K → Map K V → Option V
  get k [] = none
  get k ((j, v) ∷ m) = if j == k then some v else get k m

  -- `m[k] = v`
  unfoldable pub put : K → V → Map K V → Map K V
  put k v [] = (k, v) ∷ []
  put k v ((j, w) ∷ m) = if j == k then (k, v) ∷ m else (j, w) ∷ put k v m

  -- `delete(m, k)`
  unfoldable pub del : K → Map K V → Map K V
  del k [] = []
  del k ((j, v) ∷ m) = if j == k then del k m else (j, v) ∷ del k m

  pub get_empty : (k : K) → get k [] ≡ none
  unfolding get
  get_empty k = refl

  pub get-put :
      (k j : K) (v : V) (m : Map K V) → get j (put k v m) ≡ (if k == j then some v else get j m)
  unfolding get put
  get-put k j v [] = refl
  get-put k j v ((i, w) ∷ m) =
      ground (arith, cmp.decides k j, cmp.decides i k, cmp.decides i j, get-put k j v m)

  pub get-del : (k j : K) (m : Map K V) → get j (del k m) ≡ (if k == j then none else get j m)
  unfolding get del
  get-del k j [] = ground arith
  get-del k j ((i, w) ∷ m) =
      ground (arith, cmp.decides k j, cmp.decides i k, cmp.decides i j, get-del k j m)
