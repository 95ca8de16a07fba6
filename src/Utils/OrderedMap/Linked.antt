-- ===== src/Utils/OrderedMap/Linked.antt =====
-- How the linked list and the map of an ordered map belong together.
use go_lib.Base.{
  subst, ==-refl, ℕ, suc, ◌<◌, false, [], ◌∷◌, ◌++◌, none, some, Memᴰ, ◌≡◌, sym, ap, ◌∙◌, inl, inr,
  arith, if◌then◌else◌, Comparable, comparable_nat, ◌==◌, get as map_get, put as map_put,
  del as map_del, get-put, get-del, get_empty, snoc_cases, Option-cases, Bool-cases, mem-snoc_left,
  mem-snoc_self,
}
use go_lib.Utils.OrderedMap.{OrderedMap, new_ordered_map, set, del}
use go_lib.Utils.OrderedMap.Members.{mem-put, put-mem, mem-del, del-mem}

module _ {ℓ κ} {K : Type ℓ} {V : Type κ} ⦃cmp : Comparable K⦄ where
  -- Every list element is the one that the map has for its key, every entry of the map leads to an
  -- element with that key, and addresses are below the next one.
  pub record IsLinked (m : OrderedMap K V) : Type (ℓ ⊔ κ) where
    pub mapped : (j : ℕ) (q : K × V) → Memᴰ (j, q) m.list → map_get q.0 m.elements ≡ some j
    pub named :
        (k : K) (i : ℕ) (q : K × V) → map_get k m.elements ≡ some i → Memᴰ (i, q) m.list → q.0 ≡ k
    pub listed : (k : K) (i : ℕ) → map_get k m.elements ≡ some i → (q : K × V) × Memᴰ (i, q) m.list
    pub below : (j : ℕ) (q : K × V) → Memᴰ (j, q) m.list → j < m.fresh

  pub new-IsLinked : IsLinked new_ordered_map
  unfolding new_ordered_map
  new-IsLinked = record {
    mapped = λ j q mem. elim mem [ ];
    named = λ k i q h mem. elim mem [ ];
    listed = λ k i h. absurd (ground (arith, get_empty {V = ℕ} k));
    below = λ j q mem. elim mem [ ];
  }

  -- `Set` of a key that is there.
  module _ (k : K) (v : V) (i : ℕ) (m : OrderedMap K V) (l : IsLinked m)
      (old : map_get k m.elements ≡ some i) where
    pub set_old-IsLinked : IsLinked (record m { list = map_put i (k, v) m.list })
    set_old-IsLinked = record {
      mapped = λ j q mem. elim (mem-put i j (k, v) q m.list mem) [
        | inl e ↦ ap (λ (x : K × V). map_get x.0 m.elements) e.1 ∙ old ∙ ap some (sym e.0)
        | inr before ↦ l.mapped j q before
      ];
      named = λ k' i' q h mem. elim (mem-put i i' (k, v) q m.list mem) [
        | inl e ↦
            let (x, found) = l.listed k i old in
            ap (λ (x : K × V). x.0) e.1
            ∙ sym (l.named k i x old found)
            ∙ l.named k' i x (h ∙ ap some e.0) found
        | inr before ↦ l.named k' i' q h before
      ];
      listed = λ k' i' h. let (x, found) = l.listed k' i' h in put-mem i i' (k, v) x m.list found;
      below = λ j q mem. elim (mem-put i j (k, v) q m.list mem) [
        | inl e ↦ let (x, found) = l.listed k i old in ground (arith, l.below i x found)
        | inr before ↦ l.below j q before
      ];
    }

  -- `Set` of a new key.
  module _ (k : K) (v : V) (m : OrderedMap K V) (l : IsLinked m)
      (new : map_get k m.elements ≡ none) where
    get_new :
        (j : K)
        → map_get j (map_put k m.fresh m.elements)
          ≡ (if k == j then some m.fresh else map_get j m.elements)
    get_new j = get-put k j m.fresh m.elements

    set_new-mapped :
        (j : ℕ) (q : K × V)
        → Memᴰ (j, q) (m.list ++ (m.fresh, (k, v)) ∷ [])
        → map_get q.0 (map_put k m.fresh m.elements) ≡ some j
    set_new-mapped j q mem = elim (snoc_cases (j, q) (m.fresh, (k, v)) m.list mem) [
      | inl before ↦ ground (arith, get_new q.0, l.mapped j q before, cmp.decides k q.0)
      | inr e ↦
          ap (λ (x : ℕ × (K × V)). map_get x.1.0 (map_put k m.fresh m.elements)) e
          ∙ get_new k
          ∙ rw (==-refl k) (ap (λ (x : ℕ × (K × V)). some x.0) (sym e))
    ]

    set_new-named :
        (j : K) (i : ℕ) (q : K × V)
        → map_get j (map_put k m.fresh m.elements) ≡ some i
        → Memᴰ (i, q) (m.list ++ (m.fresh, (k, v)) ∷ [])
        → q.0 ≡ j
    set_new-named j i q h mem = elim (snoc_cases (i, q) (m.fresh, (k, v)) m.list mem) [
      | inl before ↦ elim (Bool-cases (k == j)) [
        | inl same ↦ absurd (ground (arith, get_new j, l.below i q before))
        | inr other ↦ l.named j i q (ground (arith, get_new j)) before
      ]
      | inr e ↦ elim (Bool-cases (k == j)) [
        | inl same ↦ ap (λ (x : ℕ × (K × V)). x.1.0) e ∙ (cmp.decides k j).0 same
        | inr other ↦
            let at : map_get j m.elements ≡ some i = ground (arith, get_new j) in
            let (x, found) = l.listed j i at in
            let fresh : i ≡ m.fresh = ap (λ (x : ℕ × (K × V)). x.0) e in
            absurd (ground (arith, l.below i x found))
      ]
    ]

    set_new-listed :
        (j : K) (i : ℕ)
        → map_get j (map_put k m.fresh m.elements) ≡ some i
        → (q : K × V) × Memᴰ (i, q) (m.list ++ (m.fresh, (k, v)) ∷ [])
    set_new-listed j i h = elim (Bool-cases (k == j)) [
      | inl same ↦
          let at : m.fresh ≡ i = ground (arith, get_new j) in
          (
            (k, v),
            subst (λ a. Memᴰ (a, (k, v)) (m.list ++ (m.fresh, (k, v)) ∷ [])) at
                (mem-snoc_self (m.fresh, (k, v)) m.list),
          )
      | inr other ↦
          let (q, found) = l.listed j i (ground (arith, get_new j)) in
          (q, mem-snoc_left (i, q) (m.fresh, (k, v)) m.list found)
    ]

    pub set_new-IsLinked : IsLinked (record {
      list = m.list ++ (m.fresh, (k, v)) ∷ [];
      elements = map_put k m.fresh m.elements;
      fresh = suc m.fresh;
    })
    set_new-IsLinked = record {
      mapped = set_new-mapped;
      named = set_new-named;
      listed = set_new-listed;
      below = λ j q mem. elim (snoc_cases (j, q) (m.fresh, (k, v)) m.list mem) [
        | inl before ↦ omega (arith, l.below j q before)
        | inr e ↦ omega (arith, ap (λ (x : ℕ × (K × V)). x.0) e)
      ];
    }

  -- `Del` of a key that is there.
  module _ (k : K) (i : ℕ) (m : OrderedMap K V) (l : IsLinked m)
      (old : map_get k m.elements ≡ some i) where
    apart :
        (k' : K) (i' : ℕ) (q : K × V)
        → map_get k' (map_del k m.elements) ≡ some i'
        → map_get k' m.elements ≡ some i'
        → Memᴰ (i', q) m.list
        → (i' == i) ≡ false
    apart k' i' q h at found = elim (Bool-cases (i' == i)) [
      | inl same ↦
          let here = subst (λ a. Memᴰ (a, q) m.list) ((comparable_nat.decides i' i).0 same) found in
          let keys : k ≡ k' = sym (l.named k i q old here) ∙ l.named k' i' q at found in
          absurd (ground (arith, get-del k k' m.elements, (cmp.decides k k').1 keys))
      | inr other ↦ other
    ]

    pub del_old-IsLinked :
        IsLinked (record m { list = map_del i m.list; elements = map_del k m.elements })
    del_old-IsLinked = record {
      mapped = λ j q mem.
          let was = mem-del i j q m.list mem in
          ground (arith, get-del k q.0 m.elements, l.mapped j q was.0, cmp.decides k q.0);
      named = λ k' i' q h mem.
          l.named k' i' q (ground (arith, get-del k k' m.elements)) (mem-del i i' q m.list mem).0;
      listed = λ k' i' h.
          let at : map_get k' m.elements ≡ some i' = ground (arith, get-del k k' m.elements) in
          let (q, found) = l.listed k' i' at in
          (q, del-mem i i' q m.list found (apart k' i' q h at found));
      below = λ j q mem. l.below j q (mem-del i j q m.list mem).0;
    }

  pub set-IsLinked : (k : K) (v : V) (m : OrderedMap K V) → IsLinked m → IsLinked (set k v m)
  unfolding set
  set-IsLinked k v m l = elim (Option-cases (map_get k m.elements)) [
    | inl new ↦ rw (new, set) (set_new-IsLinked k v m l new)
    | inr (i, old) ↦ rw (old, set) (set_old-IsLinked k v i m l old)
  ]

  pub del-IsLinked : (k : K) (m : OrderedMap K V) → IsLinked m → IsLinked (del k m)
  unfolding del
  del-IsLinked k m l = elim (Option-cases (map_get k m.elements)) [
    | inl gone ↦ rw (gone, del) l
    | inr (i, old) ↦ rw (old, del) (del_old-IsLinked k i m l old)
  ]
