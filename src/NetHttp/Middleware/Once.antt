-- ===== src/NetHttp/Middleware/Once.antt =====
-- The package's own middlewares call Next at most once.
use go_lib.NetHttp.Middleware.{
  unexpected_status, response_too_large, next, body_too_large, not, ltb, not_json,
}
use go_lib.Base.{
  ◌&&◌, ◌+◌, ◌≤◌, ◌<◌, ◌≡◌, refl, ap, is_some, arith, ℕ, zero, suc, String, Bool, true, false, List,
  [], ◌∷◌, Option, none, some, ◌⊎◌, inl, inr, ℤ, if◌then◌else◌, length, int_beq, comparable_nat,
  comparable_string, ◌==◌,
}
use go_lib.NetHttp.{Env, Exchange}
use go_lib.NetHttp.Chain.{
  Middleware, ends, Middlewares, nil, cons, count, append, execute, request_middleware,
}
use go_lib.NetHttp.Chain.Refines.{execute-onion}
use go_lib.NetHttp.Chain.Ends.{execute-is_some}
use go_lib.NetHttp.Chain.Onion.{Calls, AllOnce, onion, planned}
use go_lib.NetHttp.Middleware

if-Calls :
    (n : ℕ) (m k : Middleware) (b : Bool) → Calls n m → Calls n k → Calls n (if b then m else k)
if-Calls n m k true x y = x
if-Calls n m k false x y = y

on-Calls {ℓ} :
    {A : Type ℓ} (n : ℕ) (m : Middleware) (f : A → Middleware) (o : Option A)
    → Calls n m
    → ((a : A) → Calls n (f a))
    → Calls n (Middleware.on o m f)
on-Calls n m f none x y = x
on-Calls n m f (some a) x y = y a

check_url-Calls : (a : String ⊎ (String × String)) → Calls 1 (Middleware.check_url a)
check_url-Calls (inl e) = tt
check_url-Calls (inr (scheme, host)) =
    if-Calls 1 _ _ (scheme == "") tt (if-Calls 1 _ _ (host == "") tt tt)

retry_loop-Calls : (env : Env) (n delay : ℕ) → Calls 0 (Middleware.retry_loop env n delay)
unfolding Middleware.retry_loop
retry_loop-Calls env zero delay = tt
retry_loop-Calls env (suc n) delay =
    λ x. if-Calls 0 _ ends (Middleware.needs_retry x) (retry_loop-Calls env n delay) tt

-- A middleware of the package, with its arguments.
pub data Builtin : Type 0 where
  recovery request_log timing tracing url_validation json_validation : Builtin
  auth : String → String → String → Builtin
  code_check : ℤ → Option String → Builtin
  retry : ℕ → ℕ → Builtin
  request_size_limit timeout response_size_check : ℕ → Builtin
  header : List (String × String) → Builtin
  status_code_check : List ℕ → Builtin

module _ (env : Env) where
  abbrev pub middleware_of : Builtin → Middleware
  middleware_of recovery = Middleware.recovery
  middleware_of request_log = Middleware.request_log
  middleware_of timing = Middleware.timing env
  middleware_of tracing = Middleware.tracing env
  middleware_of url_validation = Middleware.url_validation env
  middleware_of json_validation = Middleware.json_validation env
  middleware_of (auth app_id secret sign_type) = Middleware.auth env app_id secret sign_type
  middleware_of (code_check expected field) = Middleware.code_check env expected field
  middleware_of (retry max_retries delay) = Middleware.retry env max_retries delay
  middleware_of (request_size_limit n) = Middleware.request_size_limit n
  middleware_of (timeout n) = Middleware.timeout n
  middleware_of (response_size_check n) = Middleware.response_size_check n
  middleware_of (header hs) = Middleware.header hs
  middleware_of (status_code_check codes) = Middleware.status_code_check codes

  builtin-Calls : (b : Builtin) → Calls 1 (middleware_of b)
  unfolding Middleware.recovery Middleware.request_log Middleware.timing Middleware.tracing
      Middleware.url_validation Middleware.json_validation Middleware.auth Middleware.code_check
      Middleware.retry Middleware.request_size_limit Middleware.timeout
      Middleware.response_size_check Middleware.header Middleware.status_code_check
  builtin-Calls recovery = (tt, λ e. tt)
  builtin-Calls request_log = tt
  builtin-Calls timing = λ x. tt
  builtin-Calls tracing = λ x. on-Calls 1 _ _ x.request_id tt (λ id. tt)
  builtin-Calls url_validation =
      λ x. if-Calls 1 _ _ (x.request.url == "") tt (check_url-Calls (env.parse_url x.request.url))
  builtin-Calls json_validation = λ x. on-Calls 0 ends _ x.response tt (λ r.
      if-Calls 0 (Middleware.fail not_json ends) ends
        (ltb 0 (length r.body) && not (env.valid_json r.body)) tt tt)
  builtin-Calls (auth app_id secret sign_type) = λ x. tt
  builtin-Calls (code_check expected field) = λ x. on-Calls 0 ends _ x.response tt (λ r.
      if-Calls 0 ends _ (length r.body == 0) tt (
        on-Calls 0 _ _ (env.json_int r.body _) tt
          (λ code. if-Calls 0 ends _ (int_beq code expected) tt tt)))
  builtin-Calls (retry max_retries delay) = retry_loop-Calls env max_retries delay
  builtin-Calls (request_size_limit n) = λ x. on-Calls 1 _ _ x.request.body tt (λ b.
      if-Calls 1 (Middleware.abort_with (body_too_large (Middleware.payload_size b) n)) (next ends)
        (ltb n (Middleware.payload_size b)) tt tt)
  builtin-Calls (timeout n) = tt
  builtin-Calls (response_size_check n) = λ x. on-Calls 0 ends _ x.response tt (λ r.
      if-Calls 0 (Middleware.fail (response_too_large (length r.body) n) ends) ends
        (ltb n (length r.body)) tt tt)
  builtin-Calls (header hs) = tt
  builtin-Calls (status_code_check codes) = λ x. on-Calls 0 ends _ x.response tt (λ r.
      if-Calls 0 ends (Middleware.fail (unexpected_status r.status_code) ends)
        (Middleware.expects codes r.status_code) tt tt)

  abbrev pub chain_of : List Builtin → Middlewares
  chain_of [] = nil
  chain_of (b ∷ bs) = cons (middleware_of b) (chain_of bs)

  count-chain_of : (bs : List Builtin) → count (chain_of bs) ≡ length bs
  count-chain_of [] = refl
  count-chain_of (b ∷ bs) = ap suc (count-chain_of bs)

  chain_of-AllOnce : (bs : List Builtin) → AllOnce (chain_of bs)
  chain_of-AllOnce [] = tt
  chain_of-AllOnce (b ∷ bs) = (builtin-Calls b, chain_of-AllOnce bs)

-- A call through at most 30 of the package's own middlewares (LoggingMiddleware and the composing
-- ones aside) ends, by itself or by a panic, and it is the run of the middlewares and then of the
-- request, each once and in order, where an Abort drops those that have not begun.
pub execute-chain_of :
    (fuel : ℕ) (env : Env) (bs : List Builtin) (x : Exchange)
    → length bs ≤ 30
    → length bs + 1 < fuel
    → (is_some (execute fuel env (chain_of env bs) x) ≡ true)
      × (planned (execute fuel env (chain_of env bs) x)
          ≡ onion fuel
              (record { exchange = x; todo = append (chain_of env bs) (request_middleware env) }))
execute-chain_of fuel env bs x few enough =
    let n = count-chain_of env bs in
    let once = chain_of-AllOnce env bs in
    (
      execute-is_some fuel env (chain_of env bs) x (omega arith) once (omega arith),
      execute-onion fuel env (chain_of env bs) x (omega arith) once,
    )
