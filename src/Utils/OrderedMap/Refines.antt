-- ===== src/Utils/OrderedMap/Refines.antt =====
-- The ordered map as an association list: what is read from the linked list and the map is what the
-- list of pairs says.
use go_lib.Base.{
  ℕ, false, [], ◌∷◌, ◌++◌, none, some, is_some, map, Map, Memᴰ, ◌≡◌, refl, sym, ap, ◌∙◌, inl, inr,
  arith, Comparable, comparable_nat, ◌==◌, get as map_get, put as map_put, del as map_del,
  Option-cases, Bool-cases, subst,
}
use mathlib.Core.Option
use go_lib.Utils.OrderedMap.{OrderedMap, set, get, has, del, snapshot}
use go_lib.Utils.OrderedMap.Members.{get-mem}
use go_lib.Utils.OrderedMap.Linked.{IsLinked}

module _ {ℓ κ} {K : Type ℓ} {V : Type κ} ⦃cmp : Comparable K⦄ where
  abbrev pairs : Map ℕ (K × V) → Map K V
  pairs es = map (λ e. e.1) es

  -- A part of the list.
  abbrev Part : OrderedMap K V → Map ℕ (K × V) → Type (ℓ ⊔ κ)
  Part m es = (j : ℕ) (q : K × V) → Memᴰ (j, q) es → Memᴰ (j, q) m.list

  module _ (k : K) (i : ℕ) (m : OrderedMap K V) (l : IsLinked m)
      (old : map_get k m.elements ≡ some i) where
    -- An element is the one of the key exactly if it has the key.
    same_test : (j : ℕ) (q : K × V) → Memᴰ (j, q) m.list → (q.0 == k) ≡ (j == i)
    same_test j q mem = elim (Bool-cases (j == i)) [
      | inl same ↦
          let here = subst (λ a. Memᴰ (a, q) m.list) ((comparable_nat.decides j i).0 same) mem in
          (cmp.decides q.0 k).1 (l.named k i q old here) ∙ sym same
      | inr other ↦ elim (Bool-cases (q.0 == k)) [
        | inl with_key ↦
            let at = l.mapped j q mem in
            let keys = ap (λ x. map_get x m.elements) ((cmp.decides q.0 k).0 with_key) in
            absurd (ground (arith, at, keys, old, comparable_nat.decides j i))
        | inr neither ↦ neither ∙ sym other
      ]
    ]

    pairs-put :
        (v : V) (es : Map ℕ (K × V))
        → Part m es
        → pairs (map_put i (k, v) es) ≡ map_put k v (pairs es)
    unfolding map_put
    pairs-put v [] sub = refl
    pairs-put v ((j, q) ∷ es) sub =
        let test = same_test j q (sub j q (Memᴰ.head refl)) in
        let rest = pairs-put v es (λ x y mem. sub x y (Memᴰ.tail mem)) in
        elim (Bool-cases (j == i)) [
          | inl same ↦ rw (test, same) refl
          | inr other ↦ rw (test, other) (ap (λ ps. q ∷ ps) rest)
        ]

    pairs-del : (es : Map ℕ (K × V)) → Part m es → pairs (map_del i es) ≡ map_del k (pairs es)
    unfolding map_del
    pairs-del [] sub = refl
    pairs-del ((j, q) ∷ es) sub =
        let test = same_test j q (sub j q (Memᴰ.head refl)) in
        let rest = pairs-del es (λ x y mem. sub x y (Memᴰ.tail mem)) in
        elim (Bool-cases (j == i)) [
          | inl same ↦ rw (test, same) rest
          | inr other ↦ rw (test, other) (ap (λ ps. q ∷ ps) rest)
        ]

    get-pairs :
        (es : Map ℕ (K × V))
        → Part m es
        → Option.map (λ (q : K × V). q.1) (map_get i es) ≡ map_get k (pairs es)
    unfolding map_get
    get-pairs [] sub = refl
    get-pairs ((j, q) ∷ es) sub =
        let test = same_test j q (sub j q (Memᴰ.head refl)) in
        let rest = get-pairs es (λ x y mem. sub x y (Memᴰ.tail mem)) in
        elim (Bool-cases (j == i)) [
          | inl same ↦ rw (test, same) refl
          | inr other ↦ rw (test, other) rest
        ]

  -- A key that the map does not have.
  module _ (k : K) (m : OrderedMap K V) (l : IsLinked m) (new : map_get k m.elements ≡ none) where
    without : (j : ℕ) (q : K × V) → Memᴰ (j, q) m.list → (q.0 == k) ≡ false
    without j q mem = elim (Bool-cases (q.0 == k)) [
      | inl with_key ↦
          let keys = ap (λ x. map_get x m.elements) ((cmp.decides q.0 k).0 with_key) in
          absurd (ground (arith, l.mapped j q mem, keys, new))
      | inr neither ↦ neither
    ]

    put_new :
        (v : V) (es : Map ℕ (K × V))
        → Part m es
        → pairs (es ++ (m.fresh, (k, v)) ∷ []) ≡ map_put k v (pairs es)
    unfolding map_put
    put_new v [] sub = refl
    put_new v ((j, q) ∷ es) sub =
        rw (without j q (sub j q (Memᴰ.head refl)))
          (ap (λ ps. q ∷ ps) (put_new v es (λ x y mem. sub x y (Memᴰ.tail mem))))

    get_new : (es : Map ℕ (K × V)) → Part m es → map_get k (pairs es) ≡ none
    unfolding map_get
    get_new [] sub = refl
    get_new ((j, q) ∷ es) sub =
        rw (without j q (sub j q (Memᴰ.head refl)))
          (get_new es (λ x y mem. sub x y (Memᴰ.tail mem)))

    del_new : (es : Map ℕ (K × V)) → Part m es → map_del k (pairs es) ≡ pairs es
    unfolding map_del
    del_new [] sub = refl
    del_new ((j, q) ∷ es) sub =
        rw (without j q (sub j q (Memᴰ.head refl)))
          (ap (λ ps. q ∷ ps) (del_new es (λ x y mem. sub x y (Memᴰ.tail mem))))

  pub set-Refines :
      (k : K) (v : V) (m : OrderedMap K V)
      → IsLinked m
      → snapshot (set k v m) ≡ map_put k v (snapshot m)
  unfolding set snapshot
  set-Refines k v m l = elim (Option-cases (map_get k m.elements)) [
    | inl new ↦ rw (new, set) (put_new k m l new v m.list (λ j q mem. mem))
    | inr (i, old) ↦ rw (old, set) (pairs-put k i m l old v m.list (λ j q mem. mem))
  ]

  pub del-Refines :
      (k : K) (m : OrderedMap K V) → IsLinked m → snapshot (del k m) ≡ map_del k (snapshot m)
  unfolding del snapshot
  del-Refines k m l = elim (Option-cases (map_get k m.elements)) [
    | inl new ↦ rw (new, del) (sym (del_new k m l new m.list (λ j q mem. mem)))
    | inr (i, old) ↦ rw (old, del) (pairs-del k i m l old m.list (λ j q mem. mem))
  ]

  pub get-Refines :
      (k : K) (m : OrderedMap K V)
      → IsLinked m
      → (get k m ≡ map_get k (snapshot m)) × (has k m ≡ is_some (map_get k (snapshot m)))
  unfolding get snapshot has
  get-Refines k m l = elim (Option-cases (map_get k m.elements)) [
    | inl new ↦
        let gone = get_new k m l new m.list (λ j q mem. mem) in
        (rw (new, get) (sym gone), rw (new, has) (ap is_some (sym gone)))
    | inr (i, old) ↦
        let read = get-pairs k i m l old m.list (λ j q mem. mem) in
        let (q, found) = l.listed k i old in
        (
          rw (old, get) read,
          rw (old, has) (ground (arith, get-mem i q m.list found, ap is_some read)),
        )
  ]
