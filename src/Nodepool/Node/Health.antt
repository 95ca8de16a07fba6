-- ===== src/Nodepool/Node/Health.antt =====
-- provider/nodepool/node.go, lines 176 to 303: availability, statistics, the records of outcomes,
-- the score and the circuit breaker. A method that reads the clock is given the time.
use go_lib.Base.{
  ℕ, ◌+◌, ℤ, pos, Bool, true, false, leb_ℤ, ltb_ℤ, sub_ℕ, if◌then◌else◌, ◌&&◌, not, ltb,
}
use go_lib.Nodepool.Types.{Platform, NodeConfig, NodeStats}
use go_lib.Nodepool.Options.{second}
use go_lib.Nodepool.Node.{Node, CircuitState, circuit_closed, circuit_open, circuit_half_open}

abbrev pub is_open : CircuitState → Bool
is_open circuit_open = true
is_open _ = false

module _ ⦃p : Platform⦄ where
  open p use {Float, decimal, of_int, fadd, fsub, fmul, fdiv, flt, fle, truncate}

  -- `time.Since(n.openedAt) >= n.opts.CircuitOpenTime`
  unfoldable pub has_cooled : ℕ → Node → Bool
  has_cooled now n = leb_ℤ n.opts.circuit_open_time (sub_ℕ now n.opened_at)

  unfoldable pub is_available : ℕ → Node → Bool
  unfolding has_cooled
  is_available now n = elim n.state [
    | circuit_closed ↦ true
    | circuit_half_open ↦ true
    | circuit_open ↦ if has_cooled now n then true else false
  ]

  unfoldable pub stats : Node → NodeStats
  stats n = record {
    endpoint = n.config.endpoint;
    total_requests = n.total_requests;
    success_count = n.success_count;
    fail_count = n.fail_count;
    consecutive_fail = n.consecutive_fail;
    consecutive_succ = n.consecutive_succ;
    avg_latency = n.avg_latency;
    circuit_open = is_open n.state;
  }

  abbrev is_zero : ℤ → Bool
  is_zero d = leb_ℤ d (pos 0) && leb_ℤ (pos 0) d

  update_latency : ℤ → Node → Node
  update_latency d n =
      if is_zero n.avg_latency
      then record n { avg_latency = d }
      else let alpha = n.opts.ewma_alpha in
        record n {
          avg_latency = truncate (
              fadd (fmul (of_int n.avg_latency) (fsub (decimal 1 0) alpha))
                (fmul (of_int d) alpha));
        }

  float_weight : ℤ → Float
  float_weight weight = let w = of_int weight in if fle w (decimal 0 0) then decimal 1 0 else w

  success_rate : Node → Float
  success_rate n =
      if ltb 0 n.total_requests
      then fdiv (of_int (pos n.success_count)) (of_int (pos n.total_requests))
      else decimal 0 0

  -- The local variable `latencyPenalty`, which the score adds.
  latency_penalty : Node → Float
  latency_penalty n =
      let bonus = fdiv (of_int (pos second)) (of_int n.avg_latency) in
      if ltb_ℤ (pos 0) n.avg_latency
      then (if flt (decimal 10 0) bonus then decimal 10 0 else bonus)
      else decimal 0 0

  unfoldable pub minus_one : Float
  minus_one = of_int (sub_ℕ 0 1)

  unfoldable pub recalc_score : Node → Node
  unfolding float_weight success_rate latency_penalty minus_one
  recalc_score n =
      let fail_penalty = fmul (of_int (pos n.consecutive_fail)) (decimal 5 1) in
      let healthy =
        fsub (fadd (fmul (float_weight n.config.weight) (success_rate n)) (latency_penalty n))
          fail_penalty in
      record n { score = if is_open n.state then minus_one else healthy }

  -- The switch of `RecordSuccess`.
  after_success : CircuitState → Node → Node
  after_success circuit_half_open n =
      if leb_ℤ n.opts.success_threshold (pos n.consecutive_succ)
      then record n { state = circuit_closed }
      else n
  after_success circuit_open n = record n { state = circuit_half_open; consecutive_succ = 1 }
  after_success circuit_closed n = n

  unfoldable pub record_success : ℤ → Node → Node
  unfolding update_latency after_success recalc_score
  record_success latency n =
      let counted = record n {
        total_requests = n.total_requests + 1;
        success_count = n.success_count + 1;
        consecutive_succ = n.consecutive_succ + 1;
        consecutive_fail = 0;
      } in
      recalc_score (after_success n.state (update_latency latency counted))

  -- The test of `RecordFailure`.
  trip : ℕ → Node → Node
  trip now n =
      if leb_ℤ n.opts.failure_threshold (pos n.consecutive_fail)
      then record n { state = circuit_open; opened_at = now }
      else n

  unfoldable pub record_failure : ℕ → ℤ → Node → Node
  unfolding update_latency trip recalc_score
  record_failure now latency n =
      let counted = record n {
        total_requests = n.total_requests + 1;
        fail_count = n.fail_count + 1;
        consecutive_fail = n.consecutive_fail + 1;
        consecutive_succ = 0;
      } in
      recalc_score (trip now (update_latency latency counted))

  unfoldable pub record_biz_error : Node → Node
  record_biz_error n = record n { total_requests = n.total_requests + 1 }

  unfoldable pub try_transition_to_half_open : ℕ → Node → Bool × Node
  unfolding has_cooled
  try_transition_to_half_open now n =
      if is_open n.state && has_cooled now n
      then (true, record n { state = circuit_half_open; consecutive_succ = 0 })
      else (not (is_open n.state), n)

  unfoldable pub update_config : NodeConfig → Node → Node
  update_config cfg n = record n { config = cfg }
