-- ===== src/Nodepool/Types.antt =====
-- provider/nodepool/types.go, and what the package takes from elsewhere: float64, the semaphore of
-- golang.org/x/sync, the limiter of golang.org/x/time, payloads and errors of other packages.
use go_lib.Base.{ℕ, ℤ, String, Bool, Option, is_some, if◌then◌else◌}

pub record Platform : Type 1 where
  -- float64: `decimal m k` is the literal m / 10^k, and `truncate` the conversion to an integer.
  pub Float : Type 0
  pub decimal : ℕ → ℕ → Float
  pub of_int : ℤ → Float
  pub fadd : Float → Float → Float
  pub fsub : Float → Float → Float
  pub fmul : Float → Float → Float
  pub fdiv : Float → Float → Float
  pub flt : Float → Float → Bool
  pub fle : Float → Float → Bool
  pub truncate : Float → ℤ
  -- semaphore.Weighted
  pub Semaphore : Type 0
  pub new_weighted : ℤ → Semaphore
  pub sem_try_acquire : Semaphore → Bool × Semaphore
  pub sem_release : Semaphore → Semaphore
  -- rate.Limiter; `allow` is given the time.
  pub Limiter : Type 0
  pub new_limiter : Float → ℤ → Limiter
  pub allow : ℕ → Limiter → Bool × Limiter
  -- `any`, and the errors that other packages make.
  pub Payload : Type 0
  pub Failure : Type 0

pub data NodeStatus : Type 0 where
  success fail biz_error : NodeStatus

module _ ⦃p : Platform⦄ where
  open p use {Float, Payload, Failure}

  -- The errors of the package, by their messages; `external` is one of another package. A lost race
  -- names the errors of its attempts, whose texts the source joins.
  mutual
    pub data Error : Type 0 where
      external : Failure → Error
      transport_required no_configs no_available all_throttled all_attempts_failed : Error
      circuit_open_error : String → Error
      exhausted : Error → Error
      race_failed : ℕ → Errors → Error

    pub data Errors : Type 0 where
      no_errors : Errors
      and_error : Errors → Error → Errors

  pub record Request : Type 0 where
    pub payload : Payload

  -- Durations are nanoseconds.
  pub record Response : Type 0 where
    pub payload : Payload
    pub latency : ℤ

  abbrev pub Classifier : Type 0
  Classifier = String → Option Response → Option Error → NodeStatus

  -- `DefaultClassifier.Classify`
  unfoldable pub default_classify : Classifier
  default_classify _ _ err = if is_some err then fail else success

  pub record RateLimitConfig : Type 0 where
    pub max_concurrent : ℤ
    pub per_second : Float
    pub per_minute : Float
    pub burst : ℤ

  pub record NodeConfig : Type 0 where
    pub endpoint : String
    pub weight : ℤ
    pub classifier : Option Classifier
    pub rate_limit : Option RateLimitConfig

  pub record NodeStats : Type 0 where
    pub endpoint : String
    pub total_requests : ℕ
    pub success_count : ℕ
    pub fail_count : ℕ
    pub consecutive_fail : ℕ
    pub consecutive_succ : ℕ
    pub avg_latency : ℤ
    pub circuit_open : Bool
