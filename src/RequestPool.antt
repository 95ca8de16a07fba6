-- ===== src/RequestPool.antt =====
-- provider/requestPool/server.go: requests that workers send to several endpoints, each until one
-- answers. The data of the pool, and what a worker does to the endpoint that it serves.
pub mod Answer
pub mod Work
pub mod Calls
pub mod Conserved
mod Examples
use go_lib.Base.{
  ℕ, zero, suc, ◌+◌, ◌-◌, ◌*◌, ◌/◌, String, Bool, true, false, not, ◌&&◌, List, [], ◌∷◌, ◌++◌,
  Option, none, some, ℤ, pos, Map, put, get, length, ltb, leb, nat_beq, if◌then◌else◌,
  comparable_nat, comparable_string, leb_ℤ, ltb_ℤ,
}
use go_lib.NetHttp.{Response}

abbrev pub default_concurrency : ℕ
default_concurrency = 10

abbrev pub max_retry_attempts : ℕ
max_retry_attempts = 3

abbrev pub max_concurrency : ℕ
max_concurrency = 200

abbrev pub success_threshold : ℕ
success_threshold = 5

abbrev pub failure_threshold : ℕ
failure_threshold = 3

abbrev pub max_failure_count : ℕ
max_failure_count = 5

-- The capacity of each channel of requests.
abbrev pub channel_capacity : ℕ
channel_capacity = 10000

-- Times are in milliseconds from Go's zero time on.
abbrev pub second : ℕ
second = 1000

abbrev pub cooldown_period : ℕ
cooldown_period = second

-- Why a node did not serve a request. The flag says that the error is an exceeded deadline.
pub data PoolError : Type 0 where
  transport : String → Bool → PoolError
  bad_status : ℕ → PoolError
  not_json not_rpc null_result : PoolError
  node_error retry_error : String → PoolError

-- The group of a call is a number, and 0 stands for the empty identifier of the zero request. The
-- map `error_urls` has the identifiers of points as its keys.
pub record Request : Type 0 where
  pub method : String
  pub path : String
  pub body : String
  pub headers : Map String String
  pub result : Option Response
  pub error : Option PoolError
  pub retry_num : ℤ
  pub request_id : String
  pub group_id : ℕ
  pub error_num : ℕ
  pub group_num : ℕ
  pub error_urls : Map ℕ PoolError

-- What a receive from a closed and empty channel gives.
abbrev pub zero_request : Request
zero_request = record {
  method = "";
  path = "";
  body = "";
  headers = [];
  result = none;
  error = none;
  retry_num = pos 0;
  request_id = "";
  group_id = 0;
  error_num = 0;
  group_num = 0;
  error_urls = [];
}

-- A nil map of headers is none. `routines` has the workers that serve the point, by their number,
-- and `queue` is what is in `requestChan`.
pub record Point : Type 0 where
  pub url : String
  pub headers : Option (Map String String)
  pub routines : List ℕ
  pub queue : List Request
  pub queue_closed : Bool
  pub request_num : ℕ
  pub request_time : ℕ
  pub avg_time : ℕ
  pub success_num : ℕ
  pub error_num : ℕ
  pub success_streak : ℕ
  pub failure_streak : ℕ
  pub last_adjust_time : ℕ
  pub failure_count : ℕ
  pub backoff_time : ℕ
  pub need_close : Bool

pub record PointConfig : Type 0 where
  pub url : String
  pub headers : Option (Map String String)

unfoldable pub new_point : PointConfig → Point
new_point c = record {
  url = c.url;
  headers = c.headers;
  routines = [];
  queue = [];
  queue_closed = false;
  request_num = 0;
  request_time = 0;
  avg_time = 0;
  success_num = 0;
  error_num = 0;
  success_streak = 0;
  failure_streak = 0;
  last_adjust_time = 0;
  failure_count = 0;
  backoff_time = 0;
  need_close = false;
}

-- `Point.Close`
unfoldable pub close : Point → Point
close p = if p.need_close then p else record p { need_close = true; queue_closed = true }

-- What `handleSuccessRequest` and `handleErrorRequest` write to the point.
unfoldable pub note_success : ℕ → Point → Point
note_success exec_time p = record p {
  request_num = suc p.request_num;
  success_num = suc p.success_num;
  request_time = p.request_time + exec_time;
  avg_time = (p.request_time + exec_time) / suc p.request_num;
  success_streak = suc p.success_streak;
  failure_streak = 0;
}

abbrev pub back_off : ℕ → Point → Point
back_off now p =
    if leb max_failure_count p.failure_count
    then record p { backoff_time = now + second; failure_count = 0 }
    else p

unfoldable pub note_failure : ℕ → Point → Point
note_failure now p =
    let q = back_off now (record p { failure_count = suc p.failure_count }) in
    record q {
      request_num = suc q.request_num;
      error_num = suc q.error_num;
      failure_streak = suc q.failure_streak;
      success_streak = 0;
    }

abbrev pub remove : ℕ → List ℕ → List ℕ
remove n [] = []
remove n (m ∷ ms) = if nat_beq m n then remove n ms else m ∷ remove n ms

-- What `adjustGoroutine` does besides: nothing, one more worker, or the end of its own.
pub data Change : Type 0 where
  keeps grows stops : Change

-- `adjustGoroutine` of the worker `rid`; `since` is the time that has passed by `time.Since`.
unfoldable pub adjust : Bool → ℕ → ℕ → Point → Change × Point
adjust success rid now p =
    if ltb (now - p.last_adjust_time) cooldown_period
    then (keeps, p)
    else if success
    then if leb success_threshold p.success_streak && ltb (length p.routines) max_concurrency
      then (grows, record p { success_streak = 0; last_adjust_time = now })
      else (keeps, p)
    else if leb failure_threshold p.failure_streak && ltb 1 (length p.routines)
    then (
      stops,
      record p { routines = remove rid p.routines; failure_streak = 0; last_adjust_time = now },
    )
    else (keeps, p)

-- What `handleErrorRequest` writes to the request of a worker at the point `i`, and its test for
-- another try.
unfoldable pub note_error : ℕ → PoolError → Request → Request
note_error i e r = record r {
  error_num = suc r.error_num;
  error = some e;
  error_urls = put i e r.error_urls;
}

unfoldable pub retries : Request → Bool
retries r = not (ltb_ℤ (pos 0) r.retry_num && ltb_ℤ r.retry_num (pos r.error_num))
