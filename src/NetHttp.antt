-- ===== src/NetHttp.antt =====
-- net/http/types.go and the data of net/http/context.go: a request, its response, and what the
-- middlewares of one call share. What the HTTP client, the clock and the parsers answer is a
-- parameter.
pub mod Chain
pub mod Middleware
pub mod Builder
mod Examples
use go_lib.Base.{
  ℕ, ◌+◌, String, Bool, true, false, List, [], ◌∷◌, ◌++◌, Option, none, some, ◌⊎◌, ℤ, pos, Map, get,
  put, length, is_some, if◌then◌else◌, comparable_string,
}

-- The body of a request: bytes, a text's bytes, or another value, of which only the length of its
-- JSON matters here, if it has one.
pub data Payload : Type 0 where
  bytes : List ℕ → Payload
  text : List ℕ → Payload
  value : Option ℕ → Payload

pub record Request : Type 0 where
  pub method : String
  pub url : String
  pub query : Map String (List String)
  pub body : Option Payload
  pub headers : Map String String
  pub timeout : ℕ

pub record ResponseStats : Type 0 where
  pub total_time : ℕ
  pub start_time : ℕ
  pub end_time : ℕ

pub record Response : Type 0 where
  pub status_code : ℕ
  pub header : Map String (List String)
  pub body : List ℕ
  pub stats : Option ResponseStats

-- The errors of this package, and those of the code that it calls, by their text.
pub data HttpError : Type 0 where
  client_is_nil client_is_nil_retry url_empty no_scheme no_host not_json : HttpError
  other recovered invalid_url : String → HttpError
  body_too_large response_too_large : ℕ → ℕ → HttpError
  invalid_method : String → HttpError
  unexpected_status : ℕ → HttpError
  business_code : ℤ → HttpError

-- What a middleware leaves in the context under a key.
pub data Value : Type 0 where
  string : String → Value
  int64 : ℤ → Value
  duration : ℕ → Value
  log_config : Bool → Bool → Value

-- What the request log writes: an error, with or without a notification, or a success.
pub data LogEntry : Type 0 where
  failed : Bool → LogEntry
  completed : LogEntry

-- The code that is called: the client's answer to the n-th request of the call, the n-th reading of
-- the clock, a new UUID at that time, the decimal and the MD5 form, `url.Parse` (an error, or the
-- scheme and the host), and gjson.
pub record Env : Type 0 where
  pub client : Option (ℕ → Request → Option Response × Option String)
  pub clock : ℕ → ℕ
  pub fresh_id : ℕ → String
  pub decimal : ℕ → String
  pub md5_hex : String → String
  pub parse_url : String → String ⊎ (String × String)
  pub json_int : List ℕ → String → Option ℤ
  pub valid_json : List ℕ → Bool

-- The fields of `Context` but those that control the chain, with the requests that were sent, the
-- time slept and the number of readings of the clock.
pub record Exchange : Type 0 where
  pub request_id : Option String
  pub request : Request
  pub response : Option Response
  pub error : Option HttpError
  pub errors : List HttpError
  pub values : Map String Value
  pub sent : List Request
  pub slept : ℕ
  pub readings : ℕ
  pub logged : List LogEntry

-- `AddError`; a nil error is `none`.
unfoldable pub add_error : Option HttpError → Exchange → Exchange
add_error none x = x
add_error (some e) x = record x {
  errors = x.errors ++ e ∷ [];
  error = if is_some x.error then x.error else some e;
}

-- `Context.Set`, `Get`, `GetString` and `GetInt64`.
unfoldable pub set_value : String → Value → Exchange → Exchange
set_value key v x = record x { values = put key v x.values }

unfoldable pub get_value : String → Exchange → Option Value
get_value key x = get key x.values

unfoldable pub get_string : String → Exchange → String
unfolding get_value
get_string key x = elim (get_value key x) [ some (string s) ↦ s | _ ↦ "" ]

unfoldable pub get_int64 : String → Exchange → ℤ
unfolding get_value
get_int64 key x = elim (get_value key x) [ some (int64 i) ↦ i | _ ↦ pos 0 ]

unfoldable pub answered : Option Response × Option String → Exchange → Exchange
unfolding add_error
answered (resp, none) x = record x { response = resp }
answered (resp, some e) x = add_error (some (other e)) (record x { response = resp })

module _ (env : Env) where
  -- What `doRequestMiddleware` does.
  unfoldable pub do_request : Exchange → Exchange
  unfolding add_error answered
  do_request x = elim env.client [
    | none ↦ add_error (some client_is_nil) x
    | some client ↦
        answered (client (length x.sent) x.request) (record x { sent = x.sent ++ x.request ∷ [] })
  ]

  unfoldable pub retry_request : Exchange → Exchange
  unfolding add_error answered
  retry_request x = elim env.client [
    | none ↦ add_error (some client_is_nil_retry) x
    | some client ↦
        answered (client (length x.sent) x.request)
          (record x { error = none; errors = []; sent = x.sent ++ x.request ∷ [] })
  ]
