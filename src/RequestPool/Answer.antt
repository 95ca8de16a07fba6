-- ===== src/RequestPool/Answer.antt =====
-- provider/requestPool/server.go: DoRequest, and what counts as an answer of a node.
pub mod Accepted
use go_lib.Base.{
  ℕ, ◌+◌, ◌*◌, String, Bool, false, not, ◌&&◌, ◌||◌, List, [], ◌∷◌, map, Option, none, some, ℤ,
  negsuc, Map, put, ltb, leb, ◌==◌, if◌then◌else◌, comparable_string, comparable_int,
}
use go_lib.NetHttp.{Response}
use go_lib.RequestPool.{
  PoolError, transport, bad_status, not_json, not_rpc, null_result, node_error, retry_error,
  Request, Point, second,
}

-- What gjson reads in a body: `result`, `error`, `error.code` and `error.message`.
pub record Rpc : Type 0 where
  pub has_result : Bool
  pub null : Bool
  pub has_error : Bool
  pub error_code : Option ℤ
  pub error_message : String

-- The code that is called: `utils.IsJson`, gjson, `strings.Contains` and `strings.ToLower`.
pub record Parsers : Type 0 where
  pub is_json : List ℕ → Bool
  pub rpc : List ℕ → Rpc
  pub contains : String → String → Bool
  pub to_lower : String → String

abbrev pub RetryFunc : Type 0
RetryFunc = Point → Request → Response → Option String

-- The headers of the request are written into the map of the point; a nil map makes that a panic.
unfoldable pub merge_headers :
    Map String String → Option (Map String String) → Option (Option (Map String String))
merge_headers [] h = some h
merge_headers ((k, v) ∷ r) none = none
merge_headers ((k, v) ∷ r) (some h) = merge_headers r (some (put k v h))

abbrev pub is_timeout : Option PoolError → Bool
is_timeout (some (transport m late)) = late
is_timeout _ = false

unfoldable pub request_timeout : Point → Request → ℕ
request_timeout p r =
    if not (is_timeout r.error) && (ltb 0 p.avg_time && ltb 0 p.success_num)
    then p.avg_time + 5 * second
    else 60 * second

-- `cleanManual`
unfoldable pub clean_manual : List ℕ → List ℕ
clean_manual = map (λ b. if leb 0x20 b then b else b' ')

-- What the attempt comes to: an error, an answer with the time that it took, or a panic.
pub data Outcome : Type 0 where
  fails : PoolError → Outcome
  succeeds : ℕ → Response → Outcome
  panics : Outcome

module _ (parsers : Parsers) where
  open parsers use {is_json, rpc, contains, to_lower}

  unfoldable pub check_json : Response → Option PoolError
  unfolding clean_manual
  check_json t =
      if ltb t.status_code 200 || leb 300 t.status_code
      then some (bad_status t.status_code)
      else if not (is_json (clean_manual t.body))
      then some not_json
      else none

  -- The errors of an RPC node that another node may not have.
  unfoldable pub is_node_error : ℤ → String → Bool
  is_node_error code message =
      (code == negsuc 27)
      || ((code == negsuc 32089)
          || (((code == negsuc 32000) && (message == "Exceeded the quota usage"))
              || (contains (to_lower message) "limit" || contains (to_lower message) "exceeded")))

  abbrev pub check_code : Option ℤ → String → Option PoolError
  check_code none message = none
  check_code (some code) message =
      if is_node_error code message then some (node_error message) else none

  -- `RetryCheckFunc`
  unfoldable pub retry_check : Bool → Point → Response → Option PoolError
  unfolding is_node_error
  retry_check is_rpc p t =
      let g = rpc t.body in
      if not is_rpc
      then none
      else if not g.has_result && not g.has_error
      then some not_rpc
      else if g.has_result && g.null
      then if contains p.url "put.com" then none else some null_result
      else check_code g.error_code g.error_message

  unfoldable pub run_retry_funcs : List RetryFunc → Point → Request → Response → Option PoolError
  run_retry_funcs [] p r t = none
  run_retry_funcs (f ∷ fs) p r t = elim (f p r t) [
    | some m ↦ some (retry_error m)
    | none ↦ run_retry_funcs fs p r t
  ]

  -- The time of a response without statistics is read through a nil pointer.
  abbrev pub timed : Response → Outcome
  timed t = elim t.stats [ none ↦ panics | some s ↦ succeeds s.total_time t ]

  abbrev pub or_else : Option PoolError → Outcome → Outcome
  or_else none o = o
  or_else (some e) o = fails e

  -- `DoRequest` after its request was sent: `reply` is the client's answer.
  unfoldable pub judge : Bool → List RetryFunc → Point → Request → Response → Outcome
  unfolding check_json retry_check run_retry_funcs
  judge is_rpc fs p r t =
      or_else (check_json t)
        (or_else (retry_check is_rpc p t) (or_else (run_retry_funcs fs p r t) (timed t)))
