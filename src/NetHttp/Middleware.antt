-- ===== src/NetHttp/Middleware.antt =====
-- net/http/middleware.go: the middlewares of the package.
pub mod Retries
pub mod Once
pub mod Compose
pub mod Recovery
use Prim.Native.String.{◌++◌ as append}
use go_lib.Base.{
  ℕ, zero, suc, ◌+◌, ◌-◌, String, Bool, true, false, not, ◌&&◌, ◌||◌, List, [], ◌∷◌, ◌++◌, Option,
  none, some, ◌⊎◌, inl, inr, ℤ, Map, get, put, length, is_some, ltb, leb, if◌then◌else◌,
  comparable_string, comparable_nat, ◌==◌, int_beq,
}
use go_lib.NetHttp.{
  Env, Exchange, Payload, bytes, text, value, Request, Response, ResponseStats, HttpError, Value,
  string, duration, log_config, LogEntry, failed, completed, recovered, url_empty, invalid_url,
  no_scheme, no_host, body_too_large, response_too_large, unexpected_status, business_code,
  not_json, add_error, set_value, get_value, retry_request,
}
use go_lib.NetHttp.Chain.{
  Middleware, ends, next, abort, reads, writes, guarded, composed, Middlewares,
}

-- `AddError`, and `AbortWithError` before a return.
abbrev pub fail : HttpError → Middleware → Middleware
fail e m = writes (add_error (some e)) m

abbrev pub abort_with : HttpError → Middleware
abort_with e = fail e (abort ends)

-- What follows a test for nil.
abbrev pub on {ℓ} : {A : Type ℓ} → Option A → Middleware → (A → Middleware) → Middleware
on none m f = m
on (some a) m f = f a

-- What `URLValidationMiddleware` does with the answer of `url.Parse`.
abbrev pub check_url : String ⊎ (String × String) → Middleware
check_url (inl e) = abort_with (invalid_url e)
check_url (inr (scheme, host)) =
    if scheme == ""
    then abort_with no_scheme
    else if host == ""
    then abort_with no_host
    else next ends

-- `Compose` and `ConditionalMiddleware`.
unfoldable pub compose : Middlewares → Middleware
compose ms = composed ms ends

unfoldable pub conditional : (Exchange → Bool) → Middleware → Middleware
conditional condition m = reads (λ x. if condition x then m else next ends)

unfoldable pub recovery : Middleware
recovery = guarded (next ends) (λ e. fail (recovered e) ends)

-- `RequestLogMiddleware` without the logger itself.
unfoldable pub log_request : Exchange → Exchange
unfolding get_value
log_request x = elim (get_value "__log_config__" x) [
  | some (log_config true send) ↦ record x {
    logged = x.logged ++ (if is_some x.error then failed send else completed) ∷ [];
  }
  | _ ↦ x
]

unfoldable pub request_log : Middleware
request_log = next (writes log_request ends)

-- `RetryMiddleware`: whether its loop goes on.
unfoldable pub needs_retry : Exchange → Bool
needs_retry x = elim x.response [
  | none ↦ is_some x.error
  | some r ↦
      (is_some x.error || leb 500 r.status_code)
      && not (leb 400 r.status_code && ltb r.status_code 500)
]

module _ (env : Env) where
  abbrev read_clock : Exchange → Exchange
  read_clock x = record x { readings = suc x.readings }

  -- What `TimingMiddleware` does after the others; `time.Now` is read again for the end.
  unfoldable pub stop_timing : ℕ → Exchange → Exchange
  unfolding set_value
  stop_timing start x =
      let total = env.clock x.readings - start in
      let y = set_value "request_duration" (duration total) (read_clock x) in
      elim y.response [
        | none ↦ y
        | some r ↦ elim r.stats [
          | none ↦ y
          | some s ↦ record y {
            readings = suc y.readings;
            response = some (record r {
              stats = some (record s { total_time = total; end_time = env.clock y.readings });
            });
          }
        ]
      ]

  unfoldable pub timing : Middleware
  unfolding stop_timing
  timing = reads λ x. writes read_clock (next (writes (stop_timing (env.clock x.readings)) ends))

  abbrev with_header : String → String → Exchange → Exchange
  with_header k v x = record x {
    request = record x.request { headers = put k v x.request.headers };
  }

  abbrev trace : String → Middleware
  trace id =
      writes (with_header "X-Request-ID" id) (next (writes (set_value "trace_id" (string id)) ends))

  unfoldable pub tracing : Middleware
  tracing = reads λ x. on x.request_id (writes read_clock (trace (env.fresh_id x.readings))) trace

  unfoldable pub calculate_signature : String → String → String → ℕ → String
  calculate_signature secret sign_type nonce sign_time =
      env.md5_hex (append (env.decimal sign_time) (append secret (append sign_type nonce)))

  unfoldable pub auth : String → String → String → Middleware
  unfolding calculate_signature
  auth app_id secret sign_type = reads λ x.
      let timestamp = env.clock x.readings in
      let nonce = env.fresh_id (suc x.readings) in
      writes
        (λ y. with_header "X-Nonce" nonce (
          with_header "X-SignTimestamp" (env.decimal timestamp) (
            with_header "X-Sign" (calculate_signature secret sign_type nonce timestamp) (
              with_header "X-SignType" sign_type
                (with_header "X-Appid" app_id (record y { readings = suc (suc y.readings) }))))))
        (next ends)

  -- `URLValidationMiddleware`.
  unfoldable pub url_validation : Middleware
  url_validation = reads λ x.
      if x.request.url == "" then abort_with url_empty else check_url (env.parse_url x.request.url)

  -- `CodeCheckMiddleware`: `field` is its optional argument.
  unfoldable pub code_check : ℤ → Option String → Middleware
  code_check expected field = next (
      reads (λ x. on x.response ends (λ r.
        let name : String = elim field [ none ↦ "code" | some f ↦ f ] in
        let wrong = fail (business_code expected) ends in
        if length r.body == 0
        then ends
        else on (env.json_int r.body name) wrong
            (λ code. if int_beq code expected then ends else wrong))))

  unfoldable pub json_validation : Middleware
  json_validation = next (
      reads (λ x. on x.response ends (λ r.
        if ltb 0 (length r.body) && not (env.valid_json r.body) then fail not_json ends else ends)))

  -- One more attempt of `RetryMiddleware`, and its loop.
  unfoldable pub attempt_again : ℕ → Exchange → Exchange
  unfolding retry_request
  attempt_again delay x = retry_request env (record x { slept = x.slept + delay })

  unfoldable pub retry_loop : ℕ → ℕ → Middleware
  unfolding needs_retry attempt_again
  retry_loop zero delay = ends
  retry_loop (suc n) delay =
      let again = writes (attempt_again delay) (retry_loop n delay) in
      reads (λ x. if needs_retry x then again else ends)

  unfoldable pub retry : ℕ → ℕ → Middleware
  unfolding retry_loop
  retry max_retries delay = next (retry_loop max_retries delay)

abbrev payload_size : Payload → ℕ
payload_size (bytes b) = length b
payload_size (text b) = length b
payload_size (value none) = 0
payload_size (value (some n)) = n

unfoldable pub request_size_limit : ℕ → Middleware
request_size_limit max_size = reads (λ x. on x.request.body (next ends) (λ b.
    if ltb max_size (payload_size b)
    then abort_with (body_too_large (payload_size b) max_size)
    else next ends))

-- `HeaderMiddleware`; the keys of a Go map are distinct, so its order does not matter.
abbrev put_all : List (String × String) → Map String String → Map String String
put_all [] m = m
put_all ((k, v) ∷ rest) m = put_all rest (put k v m)

unfoldable pub header : List (String × String) → Middleware
header headers =
    writes
      (λ x. record x { request = record x.request { headers = put_all headers x.request.headers } })
      (next ends)

unfoldable pub timeout : ℕ → Middleware
timeout limit =
    writes (λ x. record x { request = record x.request { timeout = limit } }) (next ends)

abbrev contains : List ℕ → ℕ → Bool
contains [] c = false
contains (x ∷ xs) c = c == x || contains xs c

unfoldable pub expects : List ℕ → ℕ → Bool
expects [] c = leb 200 c && ltb c 300
expects (x ∷ xs) c = contains (x ∷ xs) c

unfoldable pub status_code_check : List ℕ → Middleware
unfolding expects
status_code_check expected = next (
    reads (λ x. on x.response ends (λ r.
      if expects expected r.status_code
      then ends
      else fail (unexpected_status r.status_code) ends)))

unfoldable pub response_size_check : ℕ → Middleware
response_size_check max_size = next (
    reads (λ x. on x.response ends (λ r.
      if ltb max_size (length r.body)
      then fail (response_too_large (length r.body) max_size) ends
      else ends)))
