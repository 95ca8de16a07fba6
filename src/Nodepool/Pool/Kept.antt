-- ===== src/Nodepool/Pool/Kept.antt =====
-- The nodes that `RemoveNode` and `UpdateNodes` keep, and the map entries that go with them.
use go_lib.Base.{
  ==-refl, sym, Memᴰ, arith, Option-cases, Bool-cases, inr, refl, ap, [], ◌∙◌, ◌∷◌, if◌then◌else◌,
  ◌≡◌, get, comparable_string, none, get-del,
}
use text.Mathlib.TextEquality.{eq_iff}
use go_lib.Nodepool.Types.{Platform}
use go_lib.Nodepool.Node.{Node}
use go_lib.Nodepool.Pool.{
  some, false, ℕ, Bool, inl, true, Map, List, String, Pool, endpoint_at, keep_nodes, forget_nodes,
}
use go_lib.Nodepool.Pool.Nodes.{Agrees, keep_nodes-mem, mem-keep_nodes, Distinct-keep_nodes}

module _ ⦃p : Platform⦄ where
  -- What the last loop leaves of the map.
  module _ (test : String → Bool) (heap : ℕ → Node) (e : String) where
    get-forget_kept :
        (rs : List ℕ) (m : Map String ℕ)
        → test e ≡ true
        → get e (forget_nodes test heap rs m) ≡ get e m
    unfolding forget_nodes
    get-forget_kept [] m h = refl
    get-forget_kept (r ∷ rs) m h =
        get-forget_kept rs _ h
        ∙ ground (arith, get-del (heap r).config.endpoint e m, eq_iff (heap r).config.endpoint e)

    get-forget_none :
        (rs : List ℕ) (m : Map String ℕ)
        → get e m ≡ none
        → get e (forget_nodes test heap rs m) ≡ none
    unfolding forget_nodes
    get-forget_none [] m h = h
    get-forget_none (r ∷ rs) m h =
        get-forget_none rs _
          (ground (arith, get-del (heap r).config.endpoint e m, eq_iff (heap r).config.endpoint e))

    get-forget_stale :
        (r : ℕ) (rs : List ℕ) (m : Map String ℕ)
        → Memᴰ r rs
        → (heap r).config.endpoint ≡ e
        → test e ≡ false
        → get e (forget_nodes test heap rs m) ≡ none
    unfolding forget_nodes
    get-forget_stale r [] m mem its h = elim mem [ ]
    get-forget_stale r (x ∷ rs) m (Memᴰ.head here) its h =
        let ends : (heap x).config.endpoint ≡ e =
          ap (λ k. (heap k).config.endpoint) (sym here) ∙ its in
        get-forget_none rs _
          (rw (ends, h) (get-del e e m ∙ ap (λ b. if b then none else get e m) (==-refl e)))
    get-forget_stale r (x ∷ rs) m (Memᴰ.tail mem) its h = get-forget_stale r rs _ mem its h

  module _ (test : String → Bool) (q : Pool) (a : Agrees q) where
    pub get-kept :
        (e : String)
        → get e (forget_nodes test q.world.heap q.nodes q.node_map)
          ≡ (if test e then get e q.node_map else none)
    get-kept e = elim (Bool-cases (test e)) [
      | inl passes ↦ rw passes (get-forget_kept test q.world.heap e q.nodes q.node_map passes)
      | inr stale ↦ rw stale (elim (Option-cases (get e q.node_map)) [
        | inl gone ↦ get-forget_none test q.world.heap e q.nodes q.node_map gone
        | inr (r, h) ↦
            get-forget_stale test q.world.heap e r q.nodes q.node_map (a.listed e r h).0
              (a.listed e r h).1 stale
      ])
    ]

  -- A list rebuilt by a test and a map without the endpoints that fail it.
  module _ (test : String → Bool) (q : Pool) (a : Agrees q) (m : Map String ℕ)
      (fits : (e : String) → get e m ≡ (if test e then get e q.node_map else none)) where
    kept-listed :
        (e : String) (r : ℕ)
        → get e m ≡ some r
        → Memᴰ r (keep_nodes test q.world.heap q.nodes) × (endpoint_at q r ≡ e)
    kept-listed e r h = elim (Bool-cases (test e)) [
      | inl passes ↦
          let old = a.listed e r (ground (arith, fits e)) in
          (mem-keep_nodes test q.world.heap r q.nodes old.0 (ap test old.1 ∙ passes), old.1)
      | inr stale ↦ absurd (ground (arith, fits e))
    ]

    pub kept-Agrees :
        Agrees (record q { nodes = keep_nodes test q.world.heap q.nodes; node_map = m })
    kept-Agrees = record {
      below = λ r mem. a.below r (keep_nodes-mem test q.world.heap r q.nodes mem).0;
      mapped = λ r mem.
          let was = keep_nodes-mem test q.world.heap r q.nodes mem in
          fits (endpoint_at q r) ∙ rw was.1 (a.mapped r was.0);
      listed = kept-listed;
      once = Distinct-keep_nodes test q.world.heap q.nodes a.once;
    }
