-- ===== src/NetHttp/Examples.antt =====
-- Concrete requests at which the theorems on the HTTP client are applied.
use go_lib.Base.{
  ◌*◌, ℕ, zero, suc, ◌⊎◌, true, none, some, List, [], ◌∷◌, ◌≡◌, ◌≤◌, ◌+◌, inr, pos, is_some, length,
  arith,
}
use go_lib.NetHttp.{Env, Exchange, Request, Response, url_empty}
use go_lib.NetHttp.Chain.{
  Middlewares, nil, cons, append, panics, Context, returned, run, go_on, execute,
  request_middleware,
}
use go_lib.NetHttp.Chain.Onion.{onion, planned}
use go_lib.NetHttp.Chain.Refines.{execute-onion}
use go_lib.NetHttp.Middleware.{retry_loop, compose, abort_with}
use go_lib.NetHttp.Middleware.Once.{
  Builtin, recovery, timing, retry, request_log, chain_of, execute-chain_of,
}
use go_lib.NetHttp.Middleware.Retries.{Warrants, run-retry_loop, attempts, AllNeeded}

abbrev answer : ℕ → Response
answer status = record { status_code = status; header = []; body = []; stats = none }

-- A server that fails twice.
abbrev flaky : Env
flaky = record {
  client = some (λ n r. elim n [
    | zero ↦ (none, some "refused")
    | suc zero ↦ (some (answer 503), none)
    | _ ↦ (some (answer 200), none)
  ]);
  clock = λ n. 10 * n;
  fresh_id = λ n. "id";
  decimal = λ n. "1";
  md5_hex = λ s. s;
  parse_url = λ s. inr ("http", "host");
  json_int = λ b f. some (pos 0);
  valid_json = λ b. true;
}

abbrev get_home : Request
get_home = record {
  method = "GET";
  url = "http://host/";
  query = [];
  body = none;
  headers = [];
  timeout = 0;
}

abbrev start : Exchange
start = record {
  request_id = none;
  request = get_home;
  response = none;
  error = none;
  errors = [];
  values = [];
  sent = [];
  slept = 0;
  readings = 0;
  logged = [];
}

abbrev chain : List Builtin
chain = recovery ∷ timing ∷ retry 3 50 ∷ request_log ∷ []

abbrev ones : Middlewares
ones = cons (panics "a") (cons (panics "b") nil)

execute-onion_example :
    planned (execute 6 flaky ones start)
    ≡ onion 6 (record { exchange = start; todo = append ones (request_middleware flaky) })
execute-onion_example = execute-onion 6 flaky ones start (omega arith) (omega arith)

execute-chain_of_example :
    (is_some (execute 6 flaky (chain_of flaky chain) start) ≡ true)
    × (planned (execute 6 flaky (chain_of flaky chain) start)
        ≡ onion 6 (record {
          exchange = start;
          todo = append (chain_of flaky chain) (request_middleware flaky);
        }))
execute-chain_of_example = execute-chain_of 6 flaky chain start (omega arith) (omega arith)

abbrev began : Context
began = record { exchange = start; handlers = nil; index = 0 }

run-retry_loop_example :
    (k : ℕ) × (run (go_on 1) (retry_loop flaky 3 50) began
      ≡ some (returned, record began { exchange = attempts flaky 50 k start }))
    × (k ≤ 3)
    × AllNeeded flaky 50 k start
    × ((k ≡ 3) ⊎ (¬ Warrants (attempts flaky 50 k start)))
    × (length (attempts flaky 50 k start).sent ≤ 0 + 3)
run-retry_loop_example = run-retry_loop flaky 50 3 (go_on 1) began

-- A chain whose first part refuses the URL.
abbrev refusing : Context
refusing = record {
  exchange = start;
  handlers =
      cons (compose (cons (abort_with url_empty) ones)) (cons (request_middleware flaky) nil);
  index = 255;
}
