-- ===== src/Nodepool/Pool.antt =====
-- provider/nodepool/pool.go: the pool, its node list and the requests on it. Nodes are shared by
-- pointer between the list and the map; a pointer is a number, and `fresh` the next one.
use mathlib.Core.Option.{Option}
pub mod Requests
pub mod Many
pub mod Nodes
pub mod Kept
pub mod Fresh
pub mod Sync
pub mod Order
use go_lib.Base.{
  ◌==◌, not, get, put, del, map, comparable_string, none, some, true, false, inr, suc, inl, del,
  ◌⊎◌, put, if◌then◌else◌, ◌∷◌, some, is_some, ◌++◌, length, String, Map, List, Bool, ℕ, [],
}
use mathlib.Core.Option
use go_lib.Nodepool.Types.{
  Platform, Error, Classifier, NodeConfig, NodeStats, default_classify, transport_required,
  no_configs,
}
use go_lib.Nodepool.Options.{
  Options, Setting, configure, default_options, StrategyType, strategy_conservative, strategy_race,
  strategy_unknown,
}
use go_lib.Nodepool.Node.{Node, new_node}
use go_lib.Nodepool.Node.Health.{update_config, stats}
use go_lib.Nodepool.World.{World, store}
use go_lib.Nodepool.Strategy.Conservative.{Conservative, new_conservative}
use go_lib.Nodepool.Strategy.Race.{Race, new_race}

pub data Strategy : Type 0 where
  conservative : Conservative → Strategy
  race : Race → Strategy

module _ ⦃p : Platform⦄ where
  open p use {flt}

  pub record Pool : Type 0 where
    pub opts : Options
    pub classifier : Classifier
    pub strategy : Strategy
    pub nodes : List ℕ
    pub node_map : Map String ℕ
    pub world : World
    pub fresh : ℕ

  choose_strategy : StrategyType → Options → Strategy
  choose_strategy strategy_race o = race (new_race o.race_concurrency o.wait_on_throttle)
  choose_strategy strategy_conservative o =
      conservative (new_conservative o.max_retries o.wait_on_throttle)
  choose_strategy (strategy_unknown _) o =
      conservative (new_conservative o.max_retries o.wait_on_throttle)

  abbrev pub endpoint_at : Pool → ℕ → String
  endpoint_at q r = (q.world.heap r).config.endpoint

  -- `newNode`, the append to `p.nodes` and the entry in `p.nodeMap`.
  unfoldable pub insert_node : NodeConfig → Pool → Pool
  insert_node cfg q = record q {
    nodes = q.nodes ++ q.fresh ∷ [];
    node_map = put cfg.endpoint q.fresh q.node_map;
    world = store q.fresh (new_node cfg q.opts) q.world;
    fresh = suc q.fresh;
  }

  unfoldable pub insert_nodes : List NodeConfig → Pool → Pool
  insert_nodes [] q = q
  insert_nodes (cfg ∷ cfgs) q = insert_nodes cfgs (insert_node cfg q)

  -- `New`, in a world where nothing happened yet. `has_transport` says that it is not nil.
  unfoldable pub new_pool :
      Bool → Option Classifier → List NodeConfig → List Setting → World → Error ⊎ Pool
  unfolding choose_strategy insert_nodes
  new_pool false classifier cfgs settings w = inl transport_required
  new_pool true classifier [] settings w = inl no_configs
  new_pool true classifier (cfg ∷ cfgs) settings w =
      let o = configure default_options settings in
      inr (
        insert_nodes (cfg ∷ cfgs) (record {
          opts = o;
          classifier = Option.get_or classifier default_classify;
          strategy = choose_strategy o.strategy o;
          nodes = [];
          node_map = [];
          world = w;
          fresh = 0;
        }))

  -- `AddNode`, and the body of the second loop of `UpdateNodes`.
  unfoldable pub add_node : NodeConfig → Pool → Pool
  add_node cfg q = elim (get cfg.endpoint q.node_map) [
    | some r ↦ record q { world = store r (update_config cfg (q.world.heap r)) q.world }
    | none ↦ insert_node cfg q
  ]

  unfoldable pub add_nodes : List NodeConfig → Pool → Pool
  add_nodes [] q = q
  add_nodes (cfg ∷ cfgs) q = add_nodes cfgs (add_node cfg q)

  -- The loops that rebuild `p.nodes` keep the nodes that pass a test on their endpoint.
  unfoldable pub keep_nodes : (String → Bool) → (ℕ → Node) → List ℕ → List ℕ
  keep_nodes test heap [] = []
  keep_nodes test heap (r ∷ rs) =
      let rest = keep_nodes test heap rs in if test (heap r).config.endpoint then r ∷ rest else rest

  unfoldable pub remove_node : String → Pool → Pool
  unfolding keep_nodes
  remove_node endpoint q = elim (get endpoint q.node_map) [
    | none ↦ q
    | some _ ↦ record q {
      node_map = del endpoint q.node_map;
      nodes = keep_nodes (λ e. not (e == endpoint)) q.world.heap q.nodes;
    }
  ]

  -- The first loop of `UpdateNodes`: the configurations by endpoint, the last one winning.
  unfoldable pub config_map : List NodeConfig → Map String NodeConfig → Map String NodeConfig
  config_map [] m = m
  config_map (cfg ∷ cfgs) m = config_map cfgs (put cfg.endpoint cfg m)

  -- The deletions of its last loop.
  unfoldable pub forget_nodes : (String → Bool) → (ℕ → Node) → List ℕ → Map String ℕ → Map String ℕ
  forget_nodes test heap [] m = m
  forget_nodes test heap (r ∷ rs) m =
      forget_nodes test heap rs
        (if test (heap r).config.endpoint then m else del (heap r).config.endpoint m)

  unfoldable pub drop_stale : Map String NodeConfig → Pool → Pool
  drop_stale m q =
      let test = λ (e : String). is_some (get e m) in
      record q {
        nodes = keep_nodes test q.world.heap q.nodes;
        node_map = forget_nodes test q.world.heap q.nodes q.node_map;
      }

  unfoldable pub update_nodes : List NodeConfig → Pool → Pool
  update_nodes cfgs q = drop_stale (config_map cfgs []) (add_nodes cfgs q)

  unfoldable pub node_stats : Pool → List NodeStats
  node_stats q = map (λ r. stats (q.world.heap r)) q.nodes

  unfoldable pub node_count : Pool → ℕ
  node_count q = length q.nodes

  -- `sort.SliceStable` by falling score, as an insertion sort: equal scores keep their order.
  unfoldable pub insert_by_score : (ℕ → Node) → ℕ → List ℕ → List ℕ
  insert_by_score heap r [] = r ∷ []
  insert_by_score heap r (x ∷ xs) =
      let rest = insert_by_score heap r xs in
      if flt (heap r).score (heap x).score then x ∷ rest else r ∷ x ∷ xs

  unfoldable pub sort_by_score : (ℕ → Node) → List ℕ → List ℕ
  unfolding insert_by_score
  sort_by_score heap [] = []
  sort_by_score heap (r ∷ rs) = insert_by_score heap r (sort_by_score heap rs)

  unfoldable pub resort_nodes : Pool → Pool
  unfolding sort_by_score
  resort_nodes q = record q { nodes = sort_by_score q.world.heap q.nodes }
