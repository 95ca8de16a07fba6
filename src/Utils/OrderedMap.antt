-- ===== src/Utils/OrderedMap.antt =====
-- common/utils/zmap.go: a map that keeps the order of insertion, as a linked list of pairs and a map
-- from keys to list elements. An element is its address, a number; the list has the elements in
-- order, each with the pair that its Value points to, and `fresh` is the next address.
pub mod Members
pub mod Linked
pub mod Refines
pub mod Runs
use go_lib.Base.{
  ℕ, suc, Bool, true, false, List, [], ◌∷◌, ◌++◌, Option, none, some, is_some, map, length, Map,
  if◌then◌else◌, Comparable, comparable_nat, get as map_get, put as map_put, del as map_del,
}
use mathlib.Core.Option

pub record OrderedMap {ℓ κ} (K : Type ℓ) (V : Type κ) : Type (ℓ ⊔ κ) where
  pub list : Map ℕ (K × V)
  pub elements : Map K ℕ
  pub fresh : ℕ

module _ {ℓ κ} {K : Type ℓ} {V : Type κ} ⦃cmp : Comparable K⦄ where
  -- `NewOrderedMap`
  unfoldable pub new_ordered_map : OrderedMap K V
  new_ordered_map = record { list = []; elements = []; fresh = 0 }

  unfoldable pub set : K → V → OrderedMap K V → OrderedMap K V
  set key value m = elim (map_get key m.elements) [
    | some elem ↦ record m { list = map_put elem (key, value) m.list }
    | none ↦ record {
      list = m.list ++ (m.fresh, (key, value)) ∷ [];
      elements = map_put key m.fresh m.elements;
      fresh = suc m.fresh;
    }
  ]

  -- `InitOrderedMap`
  unfoldable pub init_ordered_map : K → V → OrderedMap K V
  init_ordered_map key value = set key value new_ordered_map

  unfoldable pub get : K → OrderedMap K V → Option V
  get key m = elim (map_get key m.elements) [
    | some elem ↦ Option.map (λ (pair : K × V). pair.1) (map_get elem m.list)
    | none ↦ none
  ]

  unfoldable pub has : K → OrderedMap K V → Bool
  has key m = is_some (map_get key m.elements)

  unfoldable pub del : K → OrderedMap K V → OrderedMap K V
  del key m = elim (map_get key m.elements) [
    | some elem ↦ record m { list = map_del elem m.list; elements = map_del key m.elements }
    | none ↦ m
  ]

  unfoldable pub len : OrderedMap K V → ℕ
  len m = length m.list

  -- `snapshot`, and so `Pairs`.
  unfoldable pub snapshot : OrderedMap K V → List (K × V)
  snapshot m = map (λ e. e.1) m.list

  unfoldable pub keys : OrderedMap K V → List K
  keys m = map (λ e. e.1.0) m.list

  unfoldable pub values : OrderedMap K V → List V
  values m = map (λ e. e.1.1) m.list

  -- The loop from `Back` over `Prev`.
  abbrev backwards : Map ℕ (K × V) → List (K × V)
  backwards [] = []
  backwards (e ∷ es) = backwards es ++ e.1 ∷ []

  unfoldable pub snapshot_reverse : OrderedMap K V → List (K × V)
  snapshot_reverse m = backwards m.list

  -- The pairs that a callback is given, until it returns false.
  unfoldable pub visited : (K × V → Bool) → List (K × V) → List (K × V)
  visited f [] = []
  visited f (pair ∷ pairs) = let rest = visited f pairs in pair ∷ (if f pair then rest else [])

  unfoldable pub each : (K × V → Bool) → OrderedMap K V → List (K × V)
  unfolding snapshot visited
  each f m = visited f (snapshot m)

  unfoldable pub each_reverse : (K × V → Bool) → OrderedMap K V → List (K × V)
  unfolding snapshot_reverse visited
  each_reverse f m = visited f (snapshot_reverse m)
