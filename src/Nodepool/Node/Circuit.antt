-- ===== src/Nodepool/Node/Circuit.antt =====
-- The circuit breaker of a node: what holds between two calls, and when it opens and closes.
use go_lib.Base.{
  leb, suc, length, if◌then◌else◌, ◌≢◌, ◌+◌, ◌<◌, length, false, ◌≢◌, ◌<◌, ℕ, suc, ◌+◌, ◌≤◌, ℤ, pos,
  ◌≡◌, true, ◌⊎◌, List, [], ◌∷◌, arith, leb_ℤ, ltb_ℤ,
}
use go_lib.Nodepool.Types.{Platform, NodeConfig}
use go_lib.Nodepool.Options.{Options}
use go_lib.Nodepool.Options
use go_lib.Nodepool.Node.{Node, circuit_closed, circuit_open, circuit_half_open, new_node}
use go_lib.Nodepool.Node.Health.{
  is_available, record_success, record_failure, record_biz_error, minus_one,
  try_transition_to_half_open, update_config,
}

module _ ⦃p : Platform⦄ where
  -- The calls that change a node's health, each with the time and the latency it sees.
  pub data Event : Type 0 where
    succeeds : ℤ → Event
    fails : ℕ → ℤ → Event
    biz_fails : Event
    tries : ℕ → Event
    reconfigures : NodeConfig → Event

  unfoldable pub handle : Event → Node → Node
  handle (succeeds d) n = record_success d n
  handle (fails now d) n = record_failure now d n
  handle biz_fails n = record_biz_error n
  handle (tries now) n = (try_transition_to_half_open now n).1
  handle (reconfigures cfg) n = update_config cfg n

  unfoldable pub handle_all : Node → List Event → Node
  handle_all n [] = n
  handle_all n (e ∷ es) = handle_all (handle e n) es

  -- What holds of a node between two calls.
  pub record IsSound (o : Options) (n : Node) : Type 0 where
    pub same_opts : n.opts ≡ o
    pub accounted : n.success_count + n.fail_count ≤ n.total_requests
    pub fails_counted : n.consecutive_fail ≤ n.fail_count
    pub succs_counted : n.consecutive_succ ≤ n.success_count
    pub one_streak : (n.consecutive_fail ≡ 0) ⊎ (n.consecutive_succ ≡ 0)
    pub closed_below :
        n.state ≡ circuit_closed → ltb_ℤ (pos n.consecutive_fail) n.opts.failure_threshold ≡ true
    pub open_failed :
        n.state ≡ circuit_open → leb_ℤ n.opts.failure_threshold (pos n.consecutive_fail) ≡ true
    pub open_last : n.state ≡ circuit_open → n.score ≡ minus_one
    pub half_open_below :
        n.state ≡ circuit_half_open
        → (ltb_ℤ (pos n.consecutive_succ) n.opts.success_threshold ≡ true)
          ⊎ (n.consecutive_succ ≡ 1)

  new_node-IsSound :
      (cfg : NodeConfig) (o : Options) → Options.IsValid o → IsSound o (new_node cfg o)
  unfolding new_node
  new_node-IsSound cfg o v = ground arith

  handle-IsSound :
      (o : Options) (e : Event) (n : Node)
      → Options.IsValid o
      → IsSound o n
      → IsSound o (handle e n)
  unfolding handle
  handle-IsSound o (succeeds d) n v s = unfold record_success in ground arith
  handle-IsSound o (fails now d) n v s = unfold record_failure in ground arith
  handle-IsSound o biz_fails n v s = unfold record_biz_error in ground arith
  handle-IsSound o (tries now) n v s = unfold try_transition_to_half_open in ground arith
  handle-IsSound o (reconfigures cfg) n v s = unfold update_config in ground arith

  handle_all-IsSound :
      (o : Options) (n : Node) (es : List Event)
      → Options.IsValid o
      → IsSound o n
      → IsSound o (handle_all n es)
  unfolding handle_all
  handle_all-IsSound o n [] v s = s
  handle_all-IsSound o n (e ∷ es) v s =
      handle_all-IsSound o (handle e n) es v (handle-IsSound o e n v s)

  -- A node made from valid options is sound after any sequence of recorded outcomes, attempts and
  -- configuration changes.
  pub node-IsSound :
      (cfg : NodeConfig) (o : Options) (es : List Event)
      → Options.IsValid o
      → IsSound o (handle_all (new_node cfg o) es)
  node-IsSound cfg o es v = handle_all-IsSound o (new_node cfg o) es v (new_node-IsSound cfg o v)

  -- One failure, one success: what they do to the state and the streaks.
  record_failure_step :
      (n : Node) (now t : ℕ) (d : ℤ)
      → n.state ≢ circuit_open
      → n.opts.failure_threshold ≡ pos t
      → let m = record_failure now d n in
        (m.opts ≡ n.opts)
        × (m.consecutive_fail ≡ suc n.consecutive_fail)
        × (m.state ≡ (if leb t (suc n.consecutive_fail) then circuit_open else n.state))
  unfolding record_failure
  record_failure_step n now t d s h = ground arith

  record_success_step :
      (n : Node) (t : ℕ) (d : ℤ)
      → n.state ≡ circuit_half_open
      → n.opts.success_threshold ≡ pos t
      → let m = record_success d n in
        (m.opts ≡ n.opts)
        × (m.consecutive_succ ≡ suc n.consecutive_succ)
        × (m.state ≡ (if leb t (suc n.consecutive_succ) then circuit_closed else circuit_half_open))
  unfolding record_success
  record_success_step n t d s h = ground arith

  -- Failures in a row, each with its time and latency.
  unfoldable pub fail_all : Node → List (ℕ × ℤ) → Node
  fail_all n [] = n
  fail_all n ((now, d) ∷ fs) = fail_all (record_failure now d n) fs

  -- Successes in a row, each with its latency.
  unfoldable pub succeed_all : Node → List ℤ → Node
  succeed_all n [] = n
  succeed_all n (d ∷ ds) = succeed_all (record_success d n) ds

  -- A circuit that is not open, half-open or closed, keeps its state through every run of failures
  -- that stays below the threshold, and is open as soon as the run reaches it.
  pub fail_all_opens :
      (n : Node) (t : ℕ) (fs : List (ℕ × ℤ))
      → n.state ≢ circuit_open
      → n.opts.failure_threshold ≡ pos t
      → n.consecutive_fail < t
      → n.consecutive_fail + length fs ≤ t
      → (fail_all n fs).state
        ≡ (if leb t (n.consecutive_fail + length fs) then circuit_open else n.state)
  unfolding fail_all
  fail_all_opens n t [] s h lt le = ground arith
  fail_all_opens n t ((now, d) ∷ []) s h lt le = ground (arith, record_failure_step n now t d s h)
  fail_all_opens n t ((now, d) ∷ f ∷ fs) s h lt le =
      ground (
        arith,
        record_failure_step n now t d s h,
        fail_all_opens (record_failure now d n) t (f ∷ fs),
      )

  -- A half-open circuit stays half-open through every run of successes below the threshold, and is
  -- closed as soon as the run reaches it.
  pub succeed_all_closes :
      (n : Node) (t : ℕ) (ds : List ℤ)
      → n.state ≡ circuit_half_open
      → n.opts.success_threshold ≡ pos t
      → n.consecutive_succ < t
      → n.consecutive_succ + length ds ≤ t
      → (succeed_all n ds).state
        ≡ (if leb t (n.consecutive_succ + length ds) then circuit_closed else circuit_half_open)
  unfolding succeed_all
  succeed_all_closes n t [] s h lt le = ground arith
  succeed_all_closes n t (d ∷ []) s h lt le = ground (arith, record_success_step n t d s h)
  succeed_all_closes n t (d ∷ e ∷ ds) s h lt le =
      ground
        (arith, record_success_step n t d s h, succeed_all_closes (record_success d n) t (e ∷ ds))

  -- `IsAvailable` says yes exactly when an attempt at the same instant is let through; an attempt
  -- that is refused changes nothing, and one that is let through leaves the circuit not open.
  pub is_available-try_transition :
      (now : ℕ) (n : Node)
      → let r = try_transition_to_half_open now n in
        (is_available now n ≡ r.0) × ((r.1.state ≢ circuit_open) ⊎ ((r.0 ≡ false) × (r.1 ≡ n)))
  unfolding is_available try_transition_to_half_open
  is_available-try_transition now n = ground arith
