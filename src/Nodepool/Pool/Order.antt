-- ===== src/Nodepool/Pool/Order.antt =====
-- `resortNodes`, and all the operations on the nodes of a pool one after the other.
use go_lib.Base.{
  Distinct-reordered, sym, mem_reordered, inr, refl, inl, arith, [], Bool-cases, ◌∷◌, occurrences,
  ◌≡◌,
}
use go_lib.Nodepool.Types.{Platform, NodeConfig}
use go_lib.Nodepool.Node.{Node}
use go_lib.Nodepool.Pool.{
  String, false, true, List, ℕ, Pool, insert_by_score, sort_by_score, resort_nodes, add_node,
  remove_node, update_nodes,
}
use go_lib.Nodepool.Pool.Nodes.{Agrees, add_node-Agrees}
use go_lib.Nodepool.Pool.Sync.{remove_node-Agrees, update_nodes-Agrees}

module _ ⦃p : Platform⦄ where
  open p use {Float, flt}

  -- No node stands behind one with a lower score.
  abbrev pub Falls : (ℕ → Node) → List ℕ → Type 0
  Falls heap [] = Unit
  Falls heap (r ∷ []) = Unit
  Falls heap (r ∷ x ∷ xs) = (flt (heap r).score (heap x).score ≡ false) × Falls heap (x ∷ xs)

  module _ (heap : ℕ → Node) where
    occurrences-insert_by_score :
        (j r : ℕ) (rs : List ℕ) → occurrences j (insert_by_score heap r rs) ≡ occurrences j (r ∷ rs)
    unfolding insert_by_score
    occurrences-insert_by_score j r [] = refl
    occurrences-insert_by_score j r (x ∷ xs) = ground (arith, occurrences-insert_by_score j r xs)

    occurrences-sort_by_score :
        (j : ℕ) (rs : List ℕ) → occurrences j (sort_by_score heap rs) ≡ occurrences j rs
    unfolding sort_by_score
    occurrences-sort_by_score j [] = refl
    occurrences-sort_by_score j (r ∷ rs) = ground (
      arith,
      occurrences-insert_by_score j r (sort_by_score heap rs),
      occurrences-sort_by_score j rs,
    )

    module _ (asym : (x y : Float) → flt x y ≡ true → flt y x ≡ false) where
      -- What `insert_by_score` puts before a list that falls, after a node that is not lower.
      insert_after-Falls :
          (y r : ℕ) (rs : List ℕ)
          → flt (heap y).score (heap r).score ≡ false
          → Falls heap (y ∷ rs)
          → Falls heap (y ∷ insert_by_score heap r rs)
      unfolding insert_by_score
      insert_after-Falls y r [] h f = (h, tt)
      insert_after-Falls y r (x ∷ xs) h f = elim (Bool-cases (flt (heap r).score (heap x).score)) [
        | inl lower ↦
            rw lower (f.0, insert_after-Falls x r xs (asym (heap r).score (heap x).score lower) f.1)
        | inr over ↦ rw over (h, (over, f.1))
      ]

      insert_by_score-Falls :
          (r : ℕ) (rs : List ℕ) → Falls heap rs → Falls heap (insert_by_score heap r rs)
      unfolding insert_by_score
      insert_by_score-Falls r [] f = tt
      insert_by_score-Falls r (x ∷ xs) f = elim (Bool-cases (flt (heap r).score (heap x).score)) [
        | inl lower ↦
            rw lower (insert_after-Falls x r xs (asym (heap r).score (heap x).score lower) f)
        | inr over ↦ rw over (over, f)
      ]

      sort_by_score-Falls : (rs : List ℕ) → Falls heap (sort_by_score heap rs)
      unfolding sort_by_score
      sort_by_score-Falls [] = tt
      sort_by_score-Falls (r ∷ rs) =
          insert_by_score-Falls r (sort_by_score heap rs) (sort_by_score-Falls rs)

  -- If the order of floats is asymmetric, which it is even with NaN among them, `resortNodes` leaves
  -- no node directly behind one with a lower score, and every node is listed as often as before.
  pub resort_nodes-Falls :
      (q : Pool) (j : ℕ)
      → ((x y : Float) → flt x y ≡ true → flt y x ≡ false)
      → Falls q.world.heap (resort_nodes q).nodes
        × (occurrences j (resort_nodes q).nodes ≡ occurrences j q.nodes)
  unfolding resort_nodes
  resort_nodes-Falls q j asym = (
    sort_by_score-Falls q.world.heap asym q.nodes,
    occurrences-sort_by_score q.world.heap j q.nodes,
  )

  resort_nodes-Agrees : (q : Pool) → Agrees q → Agrees (resort_nodes q)
  unfolding resort_nodes
  resort_nodes-Agrees q a =
      let sorted = sort_by_score q.world.heap q.nodes in
      let count : (j : ℕ) → occurrences j sorted ≡ occurrences j q.nodes =
        λ j. occurrences-sort_by_score q.world.heap j q.nodes in
      record {
        below = λ r m. a.below r (mem_reordered q.nodes sorted count r m);
        mapped = λ r m. a.mapped r (mem_reordered q.nodes sorted count r m);
        listed = λ e r h.
            let l = a.listed e r h in
            (mem_reordered sorted q.nodes (λ j. sym (count j)) r l.0, l.1);
        once = Distinct-reordered q.nodes sorted count a.once;
      }

  -- A change of the nodes of a pool.
  pub data Change : Type 0 where
    adds : NodeConfig → Change
    removes : String → Change
    updates : List NodeConfig → Change
    resorts : Change

  unfoldable pub change : Change → Pool → Pool
  change (adds cfg) q = add_node cfg q
  change (removes endpoint) q = remove_node endpoint q
  change (updates cfgs) q = update_nodes cfgs q
  change resorts q = resort_nodes q

  unfoldable pub change_all : List Change → Pool → Pool
  unfolding change
  change_all [] q = q
  change_all (c ∷ cs) q = change_all cs (change c q)

  -- If the list and the map of a pool agree, they do after any sequence of additions, removals,
  -- updates and re-sortings: the list has every node of the map, once, and the map no other.
  pub change_all-Agrees : (cs : List Change) (q : Pool) → Agrees q → Agrees (change_all cs q)
  unfolding change_all change
  change_all-Agrees [] q a = a
  change_all-Agrees (adds cfg ∷ cs) q a = change_all-Agrees cs _ (add_node-Agrees cfg q a)
  change_all-Agrees (removes endpoint ∷ cs) q a =
      change_all-Agrees cs _ (remove_node-Agrees endpoint q a)
  change_all-Agrees (updates cfgs ∷ cs) q a = change_all-Agrees cs _ (update_nodes-Agrees cfgs q a)
  change_all-Agrees (resorts ∷ cs) q a = change_all-Agrees cs _ (resort_nodes-Agrees q a)
