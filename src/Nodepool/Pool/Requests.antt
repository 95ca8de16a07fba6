-- ===== src/Nodepool/Pool/Requests.antt =====
-- provider/nodepool/pool.go: `doOnNode`, `doWithStatus` and `Do`.
pub mod Sound
use go_lib.Base.{◌∷◌, sub_ℕ, ◌+◌, ℤ, if◌then◌else◌, ℕ, comparable_string, map, none, some}
use mathlib.Core.Option
use go_lib.Nodepool.Types.{
  Platform, NodeStatus, success, fail, biz_error, Error, external, circuit_open_error, Classifier,
  Request, Response,
}
use go_lib.Nodepool.Node.{Node}
use go_lib.Nodepool.Node.Health.{
  try_transition_to_half_open, record_success, record_failure, record_biz_error,
}
use go_lib.Nodepool.World.{World, Env, Outcome, DoFunc, store, next_tick}
use go_lib.Nodepool.Strategy.Conservative
use go_lib.Nodepool.Strategy.Race
use go_lib.Nodepool.Pool.{not, Option, List, Pool, Strategy, conservative, race}

module _ ⦃p : Platform⦄ where
  -- The switch on the status; `now` is the clock that `RecordFailure` reads.
  unfoldable pub record_outcome : NodeStatus → ℕ → ℤ → Node → Node
  record_outcome success now latency n = record_success latency n
  record_outcome fail now latency n = record_failure now latency n
  record_outcome biz_error now latency n = record_biz_error n

  module _ (env : Env) where
    -- The part of `doOnNode` after the circuit let the request through.
    unfoldable pub send : Classifier → World → ℕ → Request → Outcome × World
    unfolding record_outcome
    send pool_classifier w r req =
        let n = w.heap r in
        let endpoint = n.config.endpoint in
        let answer = env.transport (w.tick + 1) endpoint req in
        let latency = sub_ℕ (env.now (w.tick + 2)) (env.now w.tick) in
        let resp = Option.map (λ (a : Response). record a { latency = latency }) answer.0 in
        let err = Option.map external answer.1 in
        let classify = Option.get_or n.config.classifier pool_classifier in
        let status = classify endpoint resp err in
        let n' = record_outcome status (env.now (w.tick + 3)) latency n in
        (
          record { response = resp; status = status; error = err },
          record (store r n' w) { tick = w.tick + 4; sent = (endpoint, req) ∷ w.sent },
        )

    unfoldable pub do_on_node : Classifier → DoFunc
    do_on_node pool_classifier w r req =
        let (ok, n) = try_transition_to_half_open (env.now w.tick) (w.heap r) in
        let w₁ = store r n (next_tick w) in
        if not ok
        then (
          record {
            response = none;
            status = fail;
            error = some (circuit_open_error n.config.endpoint);
          },
          w₁,
        )
        else send pool_classifier w₁ r req

    unfoldable pub execute_strategy : Strategy → DoFunc → List ℕ → Request → World → Outcome × World
    execute_strategy (conservative s) do_on nodes req w =
        Conservative.execute env do_on req s nodes w
    execute_strategy (race s) do_on nodes req w = Race.execute env do_on req s nodes w

    unfoldable pub do_with_status : Pool → Request → Outcome × World
    unfolding execute_strategy
    do_with_status q req = execute_strategy q.strategy (do_on_node q.classifier) q.nodes req q.world

    -- `Do` drops the status.
    unfoldable pub do_request : Pool → Request → Option Response × Option Error × World
    do_request q req = let (o, w) = do_with_status q req in (o.response, o.error, w)
