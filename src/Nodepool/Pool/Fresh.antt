-- ===== src/Nodepool/Pool/Fresh.antt =====
-- The pool that `New` makes.
use go_lib.Base.{
  refl, ◌∙◌, true, sym, false, ◌==◌, subst, [], Memᴰ, Bool-cases, ◌∷◌, String, List, get, none, inr,
  inl, Distinct, ◌≡◌, get-put,
}
use go_lib.Base.{comparable_string, ◌∷◌, [], ℕ, Map, Memᴰ, get_empty, arith}
use mathlib.Core.Sum.{inr-injective}
use text.Mathlib.TextEquality.{eq_iff}
use go_lib.Nodepool.Types.{Platform, NodeConfig, Classifier}
use go_lib.Nodepool.Options.{Setting}
use go_lib.Nodepool.World.{World}
use go_lib.Nodepool.Pool.{ℕ, Option, Map, Bool, Pool, insert_node, insert_nodes, new_pool}
use go_lib.Nodepool.Pool.Nodes.{Agrees, insert_node-Agrees}

module _ ⦃p : Platform⦄ where
  abbrev pub endpoints : List NodeConfig → List String
  endpoints [] = []
  endpoints (cfg ∷ cfgs) = cfg.endpoint ∷ endpoints cfgs

  -- None of the endpoints has an entry in the map.
  abbrev New : List NodeConfig → Map String ℕ → Type 0
  New cfgs m = (e : String) → Memᴰ e (endpoints cfgs) → get e m ≡ none

  insert_node-New :
      (cfg : NodeConfig) (cfgs : List NodeConfig) (q : Pool)
      → Distinct (endpoints (cfg ∷ cfgs))
      → New (cfg ∷ cfgs) q.node_map
      → New cfgs (insert_node cfg q).node_map
  unfolding insert_node
  insert_node-New cfg cfgs q d new e m = elim (Bool-cases (cfg.endpoint == e)) [
    | inl same ↦
        absurd (d.0 (subst (λ k. Memᴰ k (endpoints cfgs)) (sym ((eq_iff cfg.endpoint e).0 same)) m))
    | inr other ↦ get-put cfg.endpoint e q.fresh q.node_map ∙ rw other (new e (Memᴰ.tail m))
  ]

  insert_nodes-Agrees :
      (cfgs : List NodeConfig) (q : Pool)
      → Distinct (endpoints cfgs)
      → New cfgs q.node_map
      → Agrees q
      → Agrees (insert_nodes cfgs q)
  unfolding insert_nodes
  insert_nodes-Agrees [] q d new a = a
  insert_nodes-Agrees (cfg ∷ cfgs) q d new a =
      insert_nodes-Agrees cfgs (insert_node cfg q) d.1 (insert_node-New cfg cfgs q d new)
        (insert_node-Agrees cfg q (new cfg.endpoint (Memᴰ.head refl)) a)

  -- If the configurations name each endpoint once, every pool that `New` returns has a list and a
  -- map that agree.
  pub new_pool-Agrees :
      (has_transport : Bool) (classifier : Option Classifier) (cfgs : List NodeConfig)
      (settings : List Setting) (w : World) (q : Pool)
      → Distinct (endpoints cfgs)
      → new_pool has_transport classifier cfgs settings w ≡ inr q
      → Agrees q
  unfolding new_pool
  new_pool-Agrees false classifier cfgs settings w q d e = ground arith
  new_pool-Agrees true classifier [] settings w q d e = ground arith
  new_pool-Agrees true classifier (cfg ∷ cfgs) settings w q d e =
      subst Agrees (inr-injective _ _ e) (
        insert_nodes-Agrees (cfg ∷ cfgs) _ d (λ k m. get_empty k)
          (record {
            below = λ r m. elim m [ ];
            mapped = λ r m. elim m [ ];
            listed = λ k r h. absurd (ground (arith, get_empty {V = ℕ} k));
            once = tt;
          }))
