-- ===== src/Utils/OrderedMap/Runs.antt =====
-- An ordered map after any sequence of calls.
use go_lib.Base.{
  List, [], ◌∷◌, is_some, Map, ◌≡◌, refl, ap, ◌∙◌, Comparable, get as map_get, put as map_put,
  del as map_del,
}
use go_lib.Utils.OrderedMap.{OrderedMap, new_ordered_map, set, get, has, del, snapshot}
use go_lib.Utils.OrderedMap.Linked.{IsLinked, new-IsLinked, set-IsLinked, del-IsLinked}
use go_lib.Utils.OrderedMap.Refines.{set-Refines, del-Refines, get-Refines}

-- A change of a map.
pub data Edit {ℓ κ} (K : Type ℓ) (V : Type κ) : Type (ℓ ⊔ κ) where
  sets : K → V → Edit K V
  dels : K → Edit K V

module _ {ℓ κ} {K : Type ℓ} {V : Type κ} ⦃cmp : Comparable K⦄ where
  -- Changes of a map, and of the entries that it stands for.
  unfoldable pub run : List (Edit K V) → OrderedMap K V → OrderedMap K V
  run [] m = m
  run (sets k v ∷ cs) m = run cs (set k v m)
  run (dels k ∷ cs) m = run cs (del k m)

  unfoldable pub entries : List (Edit K V) → Map K V → Map K V
  entries [] es = es
  entries (sets k v ∷ cs) es = entries cs (map_put k v es)
  entries (dels k ∷ cs) es = entries cs (map_del k es)

  run-Refines_from :
      (cs : List (Edit K V)) (m : OrderedMap K V)
      → IsLinked m
      → IsLinked (run cs m) × (snapshot (run cs m) ≡ entries cs (snapshot m))
  unfolding run entries
  run-Refines_from [] m l = (l, refl)
  run-Refines_from (sets k v ∷ cs) m l =
      let later = run-Refines_from cs (set k v m) (set-IsLinked k v m l) in
      (later.0, later.1 ∙ ap (entries cs) (set-Refines k v m l))
  run-Refines_from (dels k ∷ cs) m l =
      let later = run-Refines_from cs (del k m) (del-IsLinked k m l) in
      (later.0, later.1 ∙ ap (entries cs) (del-Refines k m l))

  -- After any sequence of `Set` and `Del` on a new map, `Pairs` returns the entries in the order of
  -- their insertion, with the last value of each key that is left in the place of its first one, and
  -- `Get` and `Has` of every key answer what these entries say.
  pub run-Refines :
      (cs : List (Edit K V)) (k : K)
      → let m = run cs new_ordered_map in
        (snapshot m ≡ entries cs [])
        × (get k m ≡ map_get k (entries cs []))
        × (has k m ≡ is_some (map_get k (entries cs [])))
  unfolding new_ordered_map snapshot
  run-Refines cs k =
      let (linked, same) = run-Refines_from cs new_ordered_map new-IsLinked in
      let reads = get-Refines k (run cs new_ordered_map) linked in
      (same, reads.0 ∙ ap (map_get k) same, reads.1 ∙ ap (λ es. is_some (map_get k es)) same)
