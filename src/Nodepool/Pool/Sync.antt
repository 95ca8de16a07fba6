-- ===== src/Nodepool/Pool/Sync.antt =====
-- `AddNode`, `RemoveNode` and `UpdateNodes` seen from the endpoints.
use go_lib.Base.{
  nat_beq_iff, arith, Option-cases, Bool-cases, inr, refl, ap, [], ◌∙◌, ◌==◌, ◌⊎◌, ◌∷◌,
  if◌then◌else◌, ◌≡◌, get, put, del, comparable_string, none, some, get_empty, get-put, get-del,
}
use text.Mathlib.TextEquality.{eq_iff}
use mathlib.Core.Option
use go_lib.Nodepool.Types.{Platform, NodeConfig}
use go_lib.Nodepool.Node.Health.{update_config}
use go_lib.Nodepool.Pool.{
  not, ℕ, inl, true, is_some, Map, Option, List, String, Pool, insert_node, add_node, add_nodes,
  remove_node, config_map, forget_nodes, drop_stale, update_nodes,
}
use go_lib.Nodepool.Pool.Kept.{get-kept, kept-Agrees}
use go_lib.Nodepool.Pool.Nodes.{
  reconfigured, Agrees, config-new_node, add_node-Agrees, add_nodes-Agrees, add_node-some,
  add_node-none,
}

module _ ⦃p : Platform⦄ where
  -- The configuration that the pool has for an endpoint.
  abbrev pub config_at : String → Pool → Option NodeConfig
  config_at e q = Option.map (λ r. (q.world.heap r).config) (get e q.node_map)

  -- The last of some configurations for an endpoint, or else `d`.
  abbrev pub latest : String → List NodeConfig → Option NodeConfig → Option NodeConfig
  latest e [] d = d
  latest e (cfg ∷ cfgs) d = latest e cfgs (if cfg.endpoint == e then some cfg else d)

  latest_cases :
      (e : String) (cfgs : List NodeConfig) (d : Option NodeConfig)
      → ((latest e cfgs none ≡ none) × (latest e cfgs d ≡ d))
        ⊎ ((is_some (latest e cfgs none) ≡ true) × (latest e cfgs d ≡ latest e cfgs none))
  latest_cases e [] d = inl (refl, refl)
  latest_cases e (cfg ∷ cfgs) d = elim (Bool-cases (cfg.endpoint == e)) [
    | inr other ↦ rw other (latest_cases e cfgs d)
    | inl same ↦ rw same (inr (given (latest_cases e cfgs (some cfg)), refl))
  ]
    where
      given :
          ((latest e cfgs none ≡ none) × (latest e cfgs (some cfg) ≡ some cfg))
            ⊎ ((is_some (latest e cfgs none) ≡ true)
                × (latest e cfgs (some cfg) ≡ latest e cfgs none))
          → is_some (latest e cfgs (some cfg)) ≡ true
      given (inl h) = rw h.1
      given (inr h) = rw h.1 h.0

  get-config_map :
      (e : String) (cfgs : List NodeConfig) (m : Map String NodeConfig)
      → get e (config_map cfgs m) ≡ latest e cfgs (get e m)
  unfolding config_map
  get-config_map e [] m = refl
  get-config_map e (cfg ∷ cfgs) m =
      get-config_map e cfgs (put cfg.endpoint cfg m)
      ∙ ap (latest e cfgs) (get-put cfg.endpoint e cfg m)

  config_at-insert_node :
      (e : String) (cfg : NodeConfig) (q : Pool)
      → Agrees q
      → config_at e (insert_node cfg q) ≡ (if cfg.endpoint == e then some cfg else config_at e q)
  unfolding insert_node
  config_at-insert_node e cfg q a = elim (Bool-cases (cfg.endpoint == e)) [
    | inl same ↦
        rw (get-put cfg.endpoint e q.fresh q.node_map, same)
          (ground (arith, config-new_node cfg q.opts, nat_beq_iff q.fresh q.fresh))
    | inr other ↦
        rw (get-put cfg.endpoint e q.fresh q.node_map, other)
          (elim (Option-cases (get e q.node_map)) [
            | inl gone ↦ rw gone
            | inr (r, h) ↦
                let older = a.below r (a.listed e r h).0 in
                rw h (ground (arith, nat_beq_iff r q.fresh))
          ])
  ]

  config_at-reconfigured :
      (e : String) (cfg : NodeConfig) (q : Pool) (r : ℕ)
      → (old : get cfg.endpoint q.node_map ≡ some r) → (a : Agrees q)
      → config_at e (reconfigured cfg q r old a)
        ≡ (if cfg.endpoint == e then some cfg else config_at e q)
  unfolding update_config
  config_at-reconfigured e cfg q r old a = elim (Option-cases (get e q.node_map)) [
    | inl gone ↦ rw gone (ground (arith, eq_iff cfg.endpoint e))
    | inr (j, h) ↦
        let here = a.listed e j h in
        let there = a.listed cfg.endpoint r old in
        rw h (ground (arith, eq_iff cfg.endpoint e, nat_beq_iff j r))
  ]

  config_at-add_node :
      (e : String) (cfg : NodeConfig) (q : Pool)
      → Agrees q
      → config_at e (add_node cfg q) ≡ (if cfg.endpoint == e then some cfg else config_at e q)
  config_at-add_node e cfg q a = elim (Option-cases (get cfg.endpoint q.node_map)) [
    | inl new ↦ rw (add_node-none cfg q new) (config_at-insert_node e cfg q a)
    | inr (r, old) ↦ rw (add_node-some cfg q r old a) (config_at-reconfigured e cfg q r old a)
  ]

  config_at-add_nodes :
      (e : String) (cfgs : List NodeConfig) (q : Pool)
      → Agrees q
      → config_at e (add_nodes cfgs q) ≡ latest e cfgs (config_at e q)
  unfolding add_nodes
  config_at-add_nodes e [] q a = refl
  config_at-add_nodes e (cfg ∷ cfgs) q a =
      config_at-add_nodes e cfgs (add_node cfg q) (add_node-Agrees cfg q a)
      ∙ ap (latest e cfgs) (config_at-add_node e cfg q a)

  config_at-drop_stale :
      (e : String) (m : Map String NodeConfig) (q : Pool)
      → Agrees q
      → config_at e (drop_stale m q) ≡ (if is_some (get e m) then config_at e q else none)
  unfolding drop_stale
  config_at-drop_stale e m q a = ground (arith, get-kept (λ k. is_some (get k m)) q a e)

  drop_stale-Agrees : (m : Map String NodeConfig) (q : Pool) → Agrees q → Agrees (drop_stale m q)
  unfolding drop_stale
  drop_stale-Agrees m q a =
      let test = λ (k : String). is_some (get k m) in
      kept-Agrees test q a (forget_nodes test q.world.heap q.nodes q.node_map) (get-kept test q a)

  pub update_nodes-Agrees :
      (cfgs : List NodeConfig) (q : Pool) → Agrees q → Agrees (update_nodes cfgs q)
  unfolding update_nodes
  update_nodes-Agrees cfgs q a =
      drop_stale-Agrees (config_map cfgs []) (add_nodes cfgs q) (add_nodes-Agrees cfgs q a)

  -- If the list and the map of a pool agree, `UpdateNodes` leaves for every endpoint exactly the last
  -- configuration that its argument has for it, and no node if it has none, whatever the pool held.
  pub config_at-update_nodes :
      (e : String) (cfgs : List NodeConfig) (q : Pool)
      → Agrees q
      → config_at e (update_nodes cfgs q) ≡ latest e cfgs none
  unfolding update_nodes
  config_at-update_nodes e cfgs q a =
      config_at-drop_stale e (config_map cfgs []) (add_nodes cfgs q) (add_nodes-Agrees cfgs q a)
      ∙ rw (get-config_map e cfgs [], get_empty {V = NodeConfig} e, config_at-add_nodes e cfgs q a)
          (only_named (latest_cases e cfgs (config_at e q)))
    where
      only_named :
          ((latest e cfgs none ≡ none) × (latest e cfgs (config_at e q) ≡ config_at e q))
            ⊎ ((is_some (latest e cfgs none) ≡ true)
                × (latest e cfgs (config_at e q) ≡ latest e cfgs none))
          → (if is_some (latest e cfgs none) then latest e cfgs (config_at e q) else none)
            ≡ latest e cfgs none
      only_named (inl h) = rw (h.0) refl
      only_named (inr h) = rw (h.1, h.0) refl

  get-remove_node :
      (endpoint e : String) (q : Pool)
      → get e (del endpoint q.node_map) ≡ (if not (e == endpoint) then get e q.node_map else none)
  get-remove_node endpoint e q =
      ground (arith, get-del endpoint e q.node_map, eq_iff e endpoint, eq_iff endpoint e)

  pub remove_node-Agrees :
      (endpoint : String) (q : Pool) → Agrees q → Agrees (remove_node endpoint q)
  unfolding remove_node
  remove_node-Agrees endpoint q a = elim (Option-cases (get endpoint q.node_map)) [
    | inl gone ↦ rw (gone, remove_node) a
    | inr (r, h) ↦
        rw (h, remove_node)
          (kept-Agrees (λ e. not (e == endpoint)) q a (del endpoint q.node_map)
            (λ e. get-remove_node endpoint e q))
  ]

  -- `RemoveNode` leaves no node for its endpoint, and for every other endpoint what there was.
  pub config_at-remove_node :
      (endpoint e : String) (q : Pool)
      → config_at e (remove_node endpoint q) ≡ (if e == endpoint then none else config_at e q)
  unfolding remove_node
  config_at-remove_node endpoint e q =
      ground (arith, get-remove_node endpoint e q, eq_iff e endpoint)
