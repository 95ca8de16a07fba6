-- ===== src/Nodepool/Pool/Nodes.antt =====
-- The node list and the node map agree, and what the operations on them do.
use text.Mathlib.TextEquality.{eq_iff}
use go_lib.Base.{
  ap, sym, if_cases, cons_cases, nat_beq_iff, Option-cases, ◌∙◌, Bool-cases, ◌∷◌, ◌==◌, ◌++◌,
  ==-refl, snoc_cases, mem-snoc_self, mem-snoc_left, Distinct-snoc, get-put, inr, Distinct, nat_beq,
  inl, ◌<◌, snoc_cases, if◌then◌else◌, arith, ◌≡◌, Memᴰ, ℕ, none, some, get, comparable_string,
}
use go_lib.Nodepool.Types.{Platform, NodeConfig}
use go_lib.Nodepool.Options.{Options}
use go_lib.Nodepool.World.{store}
use go_lib.Nodepool.Node.Health.{update_config}
use go_lib.Nodepool.Node.{new_node}
use go_lib.Nodepool.Pool.{
  true, Node, List, Bool, keep_nodes, add_nodes, add_node, [], String, Pool, endpoint_at,
  insert_node,
}

module _ ⦃p : Platform⦄ where
  -- Every listed node is the one that the map has for its endpoint, the map has no other entries,
  -- no pointer is listed twice, and all are below the next pointer.
  pub record Agrees (q : Pool) : Type 0 where
    pub below : (r : ℕ) → Memᴰ r q.nodes → r < q.fresh
    pub mapped : (r : ℕ) → Memᴰ r q.nodes → get (endpoint_at q r) q.node_map ≡ some r
    pub listed :
        (e : String) (r : ℕ) → get e q.node_map ≡ some r → Memᴰ r q.nodes × (endpoint_at q r ≡ e)
    pub once : Distinct q.nodes

  pub config-new_node : (cfg : NodeConfig) (o : Options) → (new_node cfg o).config ≡ cfg
  unfolding new_node
  config-new_node cfg o = ground arith

  -- The configuration at a pointer after `AddNode` of a new endpoint.
  endpoint-insert_node :
      (cfg : NodeConfig) (q : Pool) (j : ℕ)
      → endpoint_at (insert_node cfg q) j
        ≡ (if nat_beq j q.fresh then cfg.endpoint else endpoint_at q j)
  unfolding insert_node
  endpoint-insert_node cfg q j = ground (arith, config-new_node cfg q.opts)

  module _ (cfg : NodeConfig) (q : Pool) (new : get cfg.endpoint q.node_map ≡ none)
      (a : Agrees q) where
    endpoint-insert_node_old :
        (r : ℕ) → Memᴰ r q.nodes → endpoint_at (insert_node cfg q) r ≡ endpoint_at q r
    endpoint-insert_node_old r m = ground (arith, endpoint-insert_node cfg q r, a.below r m)

    endpoint-insert_node_new : endpoint_at (insert_node cfg q) q.fresh ≡ cfg.endpoint
    endpoint-insert_node_new = ground (arith, endpoint-insert_node cfg q q.fresh)

    get-insert_node :
        (e : String)
        → get e (insert_node cfg q).node_map
          ≡ (if cfg.endpoint == e then some q.fresh else get e q.node_map)
    unfolding insert_node
    get-insert_node e = get-put cfg.endpoint e q.fresh q.node_map

    insert_node-mapped :
        (r : ℕ)
        → Memᴰ r (q.nodes ++ q.fresh ∷ [])
        → get (endpoint_at (insert_node cfg q) r) (insert_node cfg q).node_map ≡ some r
    insert_node-mapped r m = elim (snoc_cases r q.fresh q.nodes m) [
      | inl old ↦
          rw (endpoint-insert_node_old r old, get-insert_node (endpoint_at q r))
            (ground (arith, a.mapped r old, eq_iff cfg.endpoint (endpoint_at q r)))
      | inr e ↦ rw (e, endpoint-insert_node_new, get-insert_node cfg.endpoint, ==-refl cfg.endpoint)
    ]

    insert_node-listed :
        (e : String) (r : ℕ)
        → get e (insert_node cfg q).node_map ≡ some r
        → Memᴰ r (q.nodes ++ q.fresh ∷ []) × (endpoint_at (insert_node cfg q) r ≡ e)
    insert_node-listed e r h = elim (Bool-cases (cfg.endpoint == e)) [
      | inl same ↦
          let at : r ≡ q.fresh = ground (arith, get-insert_node e) in
          (
            rw at (mem-snoc_self q.fresh q.nodes),
            rw at (endpoint-insert_node_new ∙ (eq_iff cfg.endpoint e).0 same),
          )
      | inr other ↦
          let old = a.listed e r (ground (arith, get-insert_node e)) in
          (mem-snoc_left r q.fresh q.nodes old.0, endpoint-insert_node_old r old.0 ∙ old.1)
    ]

    pub insert_node-Agrees : Agrees (insert_node cfg q)
    unfolding insert_node
    insert_node-Agrees = record {
      below = λ r m. elim (snoc_cases r q.fresh q.nodes m) [
        | inl old ↦ let b = a.below r old in omega arith
        | inr e ↦ omega arith
      ];
      mapped = insert_node-mapped;
      listed = insert_node-listed;
      once =
          Distinct-snoc q.fresh q.nodes (λ m. let b = a.below q.fresh m in absurd (omega arith))
            a.once;
    }

  -- `AddNode` of an endpoint that is there only replaces the configuration behind its pointer.
  module _ (cfg : NodeConfig) (q : Pool) (r : ℕ) (old : get cfg.endpoint q.node_map ≡ some r)
      (a : Agrees q) where
    abbrev pub reconfigured : Pool
    reconfigured = record q { world = store r (update_config cfg (q.world.heap r)) q.world }

    endpoint-reconfigured : (j : ℕ) → endpoint_at reconfigured j ≡ endpoint_at q j
    unfolding update_config
    endpoint-reconfigured j = ground (arith, a.listed cfg.endpoint r old, nat_beq_iff j r)

    reconfigured-Agrees : Agrees reconfigured
    reconfigured-Agrees = record {
      below = a.below;
      mapped = λ j m. rw (endpoint-reconfigured j) (a.mapped j m);
      listed = λ e j h. ((a.listed e j h).0, endpoint-reconfigured j ∙ (a.listed e j h).1);
      once = a.once;
    }

  pub add_node-some :
      (cfg : NodeConfig) (q : Pool) (r : ℕ)
      → (e : get cfg.endpoint q.node_map ≡ some r) → (a : Agrees q)
      → add_node cfg q ≡ reconfigured cfg q r e a
  unfolding add_node
  add_node-some cfg q r e a = rw (e, add_node)

  pub add_node-none :
      (cfg : NodeConfig) (q : Pool)
      → get cfg.endpoint q.node_map ≡ none
      → add_node cfg q ≡ insert_node cfg q
  unfolding add_node
  add_node-none cfg q e = rw (e, add_node)

  pub add_node-Agrees : (cfg : NodeConfig) (q : Pool) → Agrees q → Agrees (add_node cfg q)
  add_node-Agrees cfg q a = elim (Option-cases (get cfg.endpoint q.node_map)) [
    | inl new ↦ rw (add_node-none cfg q new) (insert_node-Agrees cfg q new a)
    | inr (r, old) ↦ rw (add_node-some cfg q r old a) (reconfigured-Agrees cfg q r old a)
  ]

  pub add_nodes-Agrees : (cfgs : List NodeConfig) (q : Pool) → Agrees q → Agrees (add_nodes cfgs q)
  unfolding add_nodes
  add_nodes-Agrees [] q a = a
  add_nodes-Agrees (cfg ∷ cfgs) q a =
      add_nodes-Agrees cfgs (add_node cfg q) (add_node-Agrees cfg q a)

  -- The rebuilt list holds the listed nodes whose endpoint passes the test.
  pub keep_nodes-mem :
      (test : String → Bool) (heap : ℕ → Node) (r : ℕ) (rs : List ℕ)
      → Memᴰ r (keep_nodes test heap rs)
      → Memᴰ r rs × (test (heap r).config.endpoint ≡ true)
  unfolding keep_nodes
  keep_nodes-mem test heap r [] m = elim m [ ]
  keep_nodes-mem test heap r (x ∷ rs) m =
      let ih = keep_nodes-mem test heap r rs in
      elim (Bool-cases (test (heap x).config.endpoint)) [
        | inl passes ↦ elim (cons_cases (rw passes at m)) [
          | inl e ↦ (Memᴰ.head e, ap (λ k. test (heap k).config.endpoint) e ∙ passes)
          | inr later ↦ (Memᴰ.tail (ih later).0, (ih later).1)
        ]
        | inr fails ↦ let later = ih (rw fails at m) in (Memᴰ.tail later.0, later.1)
      ]

  pub mem-keep_nodes :
      (test : String → Bool) (heap : ℕ → Node) (r : ℕ) (rs : List ℕ)
      → Memᴰ r rs
      → test (heap r).config.endpoint ≡ true
      → Memᴰ r (keep_nodes test heap rs)
  unfolding keep_nodes
  mem-keep_nodes test heap r [] m h = elim m [ ]
  mem-keep_nodes test heap r (x ∷ rs) (Memᴰ.head e) h =
      rw (sym (ap (λ k. test (heap k).config.endpoint) e) ∙ h) (Memᴰ.head e)
  mem-keep_nodes test heap r (x ∷ rs) (Memᴰ.tail m) h =
      let ih = mem-keep_nodes test heap r rs m h in
      if_cases (Memᴰ r) (test (heap x).config.endpoint) (x ∷ keep_nodes test heap rs)
        (keep_nodes test heap rs) (λ _. Memᴰ.tail ih) (λ _. ih)

  pub Distinct-keep_nodes :
      (test : String → Bool) (heap : ℕ → Node) (rs : List ℕ)
      → Distinct rs
      → Distinct (keep_nodes test heap rs)
  unfolding keep_nodes
  Distinct-keep_nodes test heap [] d = tt
  Distinct-keep_nodes test heap (x ∷ rs) d =
      let ih = Distinct-keep_nodes test heap rs d.1 in
      if_cases Distinct (test (heap x).config.endpoint) (x ∷ keep_nodes test heap rs)
        (keep_nodes test heap rs) (λ _. (λ m. d.0 (keep_nodes-mem test heap x rs m).0, ih))
        (λ _. ih)
