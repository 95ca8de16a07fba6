-- ===== src/NetHttp/Builder.antt =====
-- net/http/builder.go and net/http/result.go: a request from its arguments to the text of its result.
use go_lib.Base.{
  ℕ, String, Bool, true, false, not, ◌||◌, List, [], ◌∷◌, Option, none, some, if◌then◌else◌,
  comparable_string, ◌==◌,
}
use go_lib.NetHttp.{Env, Exchange, Request, log_config, url_empty, invalid_method, set_value}
use go_lib.NetHttp.Chain.{
  Middleware, Middlewares, nil, cons, append, Context, returned, Ran, execute,
}
use go_lib.NetHttp.Middleware.{request_log}

-- `validHTTPMethods`.
abbrev member : String → List String → Bool
member s [] = false
member s (t ∷ ts) = s == t || member s ts

unfoldable pub is_valid_http_method : String → Bool
is_valid_http_method method =
    member method ("GET" ∷ "POST" ∷ "PUT" ∷ "DELETE" ∷ "PATCH" ∷ "HEAD" ∷ "OPTIONS" ∷ [])

pub record RequestBuilder : Type 0 where
  pub chain : Middlewares
  pub keep_log : Bool
  pub send_error_msg : Bool
  pub timeout : ℕ

unfoldable pub new_request_builder : RequestBuilder
new_request_builder = record { chain = nil; keep_log = true; send_error_msg = true; timeout = 0 }

unfoldable pub use_middleware : Middleware → RequestBuilder → RequestBuilder
use_middleware m rb = record rb { chain = append rb.chain m }

unfoldable pub no_send_error_msg : RequestBuilder → RequestBuilder
no_send_error_msg rb = record rb { send_error_msg = false }

unfoldable pub no_keep_log : RequestBuilder → RequestBuilder
no_keep_log rb = record rb { keep_log = false }

unfoldable pub set_timeout : ℕ → RequestBuilder → RequestBuilder
set_timeout limit rb = record rb { timeout = limit }

-- The exchange of a call, whose ID is in the Go context.
unfoldable pub new_exchange : RequestBuilder → Option String → Request → Exchange
unfolding set_value
new_exchange rb id req =
    set_value "__log_config__" (log_config rb.keep_log rb.send_error_msg) (record {
      request_id = id;
      request = record req { timeout = rb.timeout };
      response = none;
      error = none;
      errors = [];
      values = [];
      sent = [];
      slept = 0;
      readings = 0;
      logged = [];
    })

-- `Execute`: the exchange that its result holds, none if a middleware panics or the fuel runs out.
abbrev result_of : Ran Context → Option Exchange
result_of (some (returned, c)) = some c.exchange
result_of _ = none

unfoldable pub execute_request :
    ℕ → Env → RequestBuilder → Option String → Request → Option Exchange
unfolding new_exchange request_log is_valid_http_method
execute_request fuel env rb id req =
    let x = new_exchange rb id req in
    if req.url == ""
    then some (record x { error = some url_empty })
    else if not (is_valid_http_method req.method)
    then some (record x { error = some (invalid_method req.method) })
    else result_of (execute fuel env (cons request_log rb.chain) x)
