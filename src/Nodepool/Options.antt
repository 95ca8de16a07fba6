-- ===== src/Nodepool/Options.antt =====
-- provider/nodepool/options.go.
use go_lib.Base.{
  ℕ, ℤ, pos, ◌*◌, ◌≡◌, Bool, true, false, List, [], ◌∷◌, arith, ltb_ℤ, ◌≤ℤ◌, if◌then◌else◌, ◌&&◌,
}
use go_lib.Nodepool.Types.{Platform}

pub data StrategyType : Type 0 where
  strategy_conservative strategy_race : StrategyType
  -- any other value of the integer type
  strategy_unknown : ℤ → StrategyType

abbrev pub millisecond : ℕ
millisecond = 1_000_000

abbrev pub second : ℕ
second = 1_000_000_000

module _ ⦃p : Platform⦄ where
  open p use {Float, decimal, flt, fle}

  pub record Options : Type 0 where
    pub strategy : StrategyType
    pub max_retries : ℤ
    pub race_concurrency : ℤ
    pub failure_threshold : ℤ
    pub success_threshold : ℤ
    pub circuit_open_time : ℤ
    pub health_check_period : ℤ
    pub sort_period : ℤ
    pub ewma_alpha : Float
    pub wait_on_throttle : Bool

  unfoldable pub default_options : Options
  default_options = record {
    strategy = strategy_conservative;
    max_retries = pos 3;
    race_concurrency = pos 0;
    failure_threshold = pos 5;
    success_threshold = pos 3;
    circuit_open_time = pos (10 * second);
    health_check_period = pos (30 * second);
    sort_period = pos (3 * second);
    ewma_alpha = decimal 3 1;
    wait_on_throttle = false;
  }

  -- One constructor for each `With…` function.
  pub data Setting : Type 0 where
    with_strategy : StrategyType → Setting
    with_max_retries : ℤ → Setting
    with_race_concurrency : ℤ → Setting
    with_failure_threshold : ℤ → Setting
    with_success_threshold : ℤ → Setting
    with_circuit_open_time : ℤ → Setting
    with_health_check_period : ℤ → Setting
    with_sort_period : ℤ → Setting
    with_ewma_alpha : Float → Setting
    with_wait_on_throttle : Bool → Setting

  -- The function that a setting returns, applied.
  unfoldable pub apply : Setting → Options → Options
  apply (with_strategy s) o = record o { strategy = s }
  apply (with_max_retries n) o = if ltb_ℤ (pos 0) n then record o { max_retries = n } else o
  apply (with_race_concurrency n) o = record o { race_concurrency = n }
  apply (with_failure_threshold n) o =
      if ltb_ℤ (pos 0) n then record o { failure_threshold = n } else o
  apply (with_success_threshold n) o =
      if ltb_ℤ (pos 0) n then record o { success_threshold = n } else o
  apply (with_circuit_open_time d) o =
      if ltb_ℤ (pos 0) d then record o { circuit_open_time = d } else o
  apply (with_health_check_period d) o =
      if ltb_ℤ (pos 0) d then record o { health_check_period = d } else o
  apply (with_sort_period d) o = if ltb_ℤ (pos 0) d then record o { sort_period = d } else o
  apply (with_ewma_alpha a) o =
      if flt (decimal 0 0) a && fle a (decimal 1 0) then record o { ewma_alpha = a } else o
  apply (with_wait_on_throttle w) o = record o { wait_on_throttle = w }

  -- The loop over `opts` in `New`.
  unfoldable pub configure : Options → List Setting → Options
  unfolding apply
  configure o [] = o
  configure o (s ∷ ss) = configure (apply s o) ss

  -- What every operation of a pool relies on.
  pub record IsValid (o : Options) : Type 0 where
    pub retries : pos 1 ≤ℤ o.max_retries
    pub failures : pos 1 ≤ℤ o.failure_threshold
    pub successes : pos 1 ≤ℤ o.success_threshold
    pub cooling : pos 1 ≤ℤ o.circuit_open_time
    pub sorting : pos 1 ≤ℤ o.sort_period
    pub checking : pos 1 ≤ℤ o.health_check_period
    pub alpha_pos : flt (decimal 0 0) o.ewma_alpha ≡ true
    pub alpha_le_one : fle o.ewma_alpha (decimal 1 0) ≡ true

  apply-IsValid : (s : Setting) (o : Options) → IsValid o → IsValid (apply s o)
  unfolding apply
  apply-IsValid (with_strategy s) o v = ground arith
  apply-IsValid _ o v = ground arith

  configure-IsValid : (ss : List Setting) (o : Options) → IsValid o → IsValid (configure o ss)
  unfolding configure
  configure-IsValid [] o v = v
  configure-IsValid (s ∷ ss) o v = configure-IsValid ss (apply s o) (apply-IsValid s o v)

  -- If the platform's floats put 0.3 between 0 and 1, then whatever settings a caller passes, in
  -- any number and order, valid or not, the options that `New` ends with are valid: retries,
  -- thresholds and periods are at least 1, and the smoothing factor is above 0 and at most 1.
  pub configure_default-IsValid :
      (ss : List Setting)
      → flt (decimal 0 0) (decimal 3 1) ≡ true
      → fle (decimal 3 1) (decimal 1 0) ≡ true
      → IsValid (configure default_options ss)
  unfolding default_options
  configure_default-IsValid ss low high = configure-IsValid ss default_options (ground arith)
