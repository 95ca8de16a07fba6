-- ===== src/NetHttp/Middleware/Recovery.antt =====
-- What follows a panic that `RecoveryMiddleware` recovers.
use go_lib.Base.{ℕ, suc, ◌≤◌, ◌≡◌, refl, ◌∙◌, some, String, arith}
use go_lib.NetHttp.{Env, Exchange, recovered, add_error}
use go_lib.NetHttp.Chain.{panics, Middlewares, cons, count, append, execute, request_middleware}
use go_lib.NetHttp.Chain.Onion.{onion, run_plan, planned, AllOnce}
use go_lib.NetHttp.Chain.Refines.{execute-onion}
use go_lib.NetHttp.Middleware.{recovery}

-- If the middleware behind RecoveryMiddleware panics before it does anything else, and there are at most 28 others, each of which
-- calls Next at most once and composes none, then these and the request run after the panic, each
-- once and in order, with the error noted.
execute-recovery :
    (fuel : ℕ) (env : Env) (e : String) (ms : Middlewares) (x : Exchange)
    → count ms ≤ 28
    → AllOnce ms
    → planned (execute (suc (suc (suc fuel))) env (cons recovery (cons (panics e) ms)) x)
      ≡ onion (suc (suc fuel)) (record {
        exchange = add_error (some (recovered e)) x;
        todo = append ms (request_middleware env);
      })
unfolding recovery onion run_plan
execute-recovery fuel env e ms x few a =
    execute-onion (suc (suc (suc fuel))) env (cons recovery (cons (panics e) ms)) x (omega arith)
      ((tt, λ s. tt), (tt, a))
    ∙ step
  where
    step :
        onion (suc (suc (suc fuel))) (record {
          exchange = x;
          todo = cons recovery (cons (panics e) (append ms (request_middleware env)));
        })
        ≡ onion (suc (suc fuel)) (record {
          exchange = add_error (some (recovered e)) x;
          todo = append ms (request_middleware env);
        })
    step = refl
