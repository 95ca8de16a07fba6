-- ===== src/Nodepool/Node.antt =====
-- provider/nodepool/node.go, lines 21 to 176: a node and its rate limits. Time is in nanoseconds
-- since the zero time; 64-bit counters are numbers without a bound.
pub mod Health
pub mod Slots
pub mod Circuit
use go_lib.Base.{
  ℕ, ℤ, pos, ◌≡◌, Bool, true, false, List, Option, none, some, is_some, ltb_ℤ, leb_ℤ, if◌then◌else◌,
  ◌&&◌, not, String,
}
use go_lib.Nodepool.Types.{Platform, NodeConfig, RateLimitConfig}
use go_lib.Nodepool.Options.{Options}

pub data CircuitState : Type 0 where
  circuit_closed circuit_open circuit_half_open : CircuitState

module _ ⦃p : Platform⦄ where
  open p use {
    Float, decimal, of_int, fdiv, flt, truncate, Semaphore, new_weighted, sem_try_acquire,
    sem_release, Limiter, new_limiter, allow, Failure,
  }

  pub record Node : Type 0 where
    pub config : NodeConfig
    pub opts : Options
    pub state : CircuitState
    pub opened_at : ℕ
    pub total_requests : ℕ
    pub success_count : ℕ
    pub fail_count : ℕ
    pub consecutive_fail : ℕ
    pub consecutive_succ : ℕ
    pub avg_latency : ℤ
    pub score : Float
    pub conc_sem : Option Semaphore
    pub rate_limiter : Option Limiter
    pub minute_limiter : Option Limiter

  -- The burst of a limiter of `rate` tokens a second.
  burst_of : ℤ → Float → ℤ
  burst_of burst rate =
      if leb_ℤ burst (pos 0)
      then (if leb_ℤ (truncate rate) (pos 0) then pos 1 else truncate rate)
      else burst

  -- `initThrottler`, on a node whose limits are all nil.
  with_limits : RateLimitConfig → Node → Node
  unfolding burst_of
  with_limits rl n = record n {
    conc_sem =
        if ltb_ℤ (pos 0) rl.max_concurrent then some (new_weighted rl.max_concurrent) else none;
    rate_limiter =
        if flt (decimal 0 0) rl.per_second
        then some (new_limiter rl.per_second (burst_of rl.burst rl.per_second))
        else none;
    minute_limiter =
        let per_sec = fdiv rl.per_minute (decimal 60 0) in
        if flt (decimal 0 0) rl.per_minute
        then some (new_limiter per_sec (burst_of rl.burst per_sec))
        else none;
  }

  init_throttler : Node → Node
  unfolding with_limits
  init_throttler n = elim n.config.rate_limit [ none ↦ n | some rl ↦ with_limits rl n ]

  unfoldable pub new_node : NodeConfig → Options → Node
  unfolding init_throttler
  new_node cfg opts = init_throttler (record {
    config = cfg;
    opts = opts;
    state = circuit_closed;
    opened_at = 0;
    total_requests = 0;
    success_count = 0;
    fail_count = 0;
    consecutive_fail = 0;
    consecutive_succ = 0;
    avg_latency = pos 0;
    score = of_int (if leb_ℤ cfg.weight (pos 0) then pos 1 else cfg.weight);
    conc_sem = none;
    rate_limiter = none;
    minute_limiter = none;
  })

  unfoldable pub is_unlimited : Node → Bool
  is_unlimited n =
      not (is_some n.conc_sem) && not (is_some n.rate_limiter) && not (is_some n.minute_limiter)

  -- The three limits, each passed if it is nil.
  unfoldable pub take_slot : Node → Bool × Node
  take_slot n = elim n.conc_sem [
    | none ↦ (true, n)
    | some s ↦ ((sem_try_acquire s).0, record n { conc_sem = some (sem_try_acquire s).1 })
  ]

  unfoldable pub pass_rate : ℕ → Node → Bool × Node
  pass_rate now n = elim n.rate_limiter [
    | none ↦ (true, n)
    | some l ↦ ((allow now l).0, record n { rate_limiter = some (allow now l).1 })
  ]

  unfoldable pub pass_minute : ℕ → Node → Bool × Node
  pass_minute now n = elim n.minute_limiter [
    | none ↦ (true, n)
    | some l ↦ ((allow now l).0, record n { minute_limiter = some (allow now l).1 })
  ]

  unfoldable pub release : Node → Node
  release n = elim n.conc_sem [ none ↦ n | some s ↦ record n { conc_sem = some (sem_release s) } ]

  unfoldable pub try_acquire : ℕ → Node → Bool × Node
  unfolding is_unlimited take_slot pass_rate pass_minute release
  try_acquire now n =
      if is_unlimited n
      then (true, n)
      else let (slot, n₁) = take_slot n in
        if not slot
        then (false, n₁)
        else let (rate, n₂) = pass_rate now n₁ in
          if not rate
          then (false, release n₂)
          else let (minute, n₃) = pass_minute now n₂ in
            if not minute then (false, release n₃) else (true, n₃)

  -- How the blocking calls of the two libraries end: with nil or an error, and their new state.
  pub record Blocking : Type 0 where
    pub sem_acquire : Semaphore → Option Failure × Semaphore
    pub limiter_wait : Limiter → Option Failure × Limiter

  unfoldable pub await_slot : Blocking → Node → Option Failure × Node
  await_slot b n = elim n.conc_sem [
    | none ↦ (none, n)
    | some s ↦ ((b.sem_acquire s).0, record n { conc_sem = some (b.sem_acquire s).1 })
  ]

  unfoldable pub await_rate : Blocking → Node → Option Failure × Node
  await_rate b n = elim n.rate_limiter [
    | none ↦ (none, n)
    | some l ↦ ((b.limiter_wait l).0, record n { rate_limiter = some (b.limiter_wait l).1 })
  ]

  unfoldable pub await_minute : Blocking → Node → Option Failure × Node
  await_minute b n = elim n.minute_limiter [
    | none ↦ (none, n)
    | some l ↦ ((b.limiter_wait l).0, record n { minute_limiter = some (b.limiter_wait l).1 })
  ]

  unfoldable pub acquire : Blocking → Node → Option Failure × Node
  unfolding is_unlimited await_slot await_rate await_minute release
  acquire b n =
      if is_unlimited n
      then (none, n)
      else let (slot, n₁) = await_slot b n in
        if is_some slot
        then (slot, n₁)
        else let (rate, n₂) = await_rate b n₁ in
          if is_some rate
          then (rate, release n₂)
          else let (minute, n₃) = await_minute b n₂ in
            if is_some minute then (minute, release n₃) else (none, n₃)
