-- ===== src/NetHttp/Chain/Onion.antt =====
-- The chain without its index: the middlewares that have not begun, in order.
use go_lib.Base.{ℕ, zero, suc, ◌+◌, ◌%◌, String, none, some}
use go_lib.NetHttp.{Exchange}
use go_lib.NetHttp.Chain.{
  Middleware, ends, next, abort, reads, writes, panics, guarded, composed, Middlewares, nil, cons,
  Context, returned, panicked, Ran, and_then, or_recover,
}

pub record Plan : Type 0 where
  pub exchange : Exchange
  pub todo : Middlewares

-- A middleware on a plan: Next runs what is to do, Abort forgets it.
unfoldable pub run_plan : (Plan → Ran Plan) → Middleware → Plan → Ran Plan
run_plan rest ends p = some (returned, p)
run_plan rest (next m) p = and_then (rest p) (run_plan rest m)
run_plan rest (abort m) p = run_plan rest m (record p { todo = nil })
run_plan rest (reads f) p = run_plan rest (f p.exchange) p
run_plan rest (writes f m) p = run_plan rest m (record p { exchange = f p.exchange })
run_plan rest (panics e) p = some (panicked e, p)
run_plan rest (guarded m h) p = or_recover (run_plan rest m p) (λ e. run_plan rest (h e))
run_plan rest (composed ms m) p =
    and_then (rest (record p { todo = ms })) (λ p'. run_plan rest m (record p' { todo = p.todo }))

-- Each middleware begins once, in order, until none is left to do.
unfoldable pub onion : ℕ → Plan → Ran Plan
unfolding run_plan
onion zero p = none
onion (suc fuel) p = elim p.todo [
  | nil ↦ some (returned, p)
  | cons m ms ↦ and_then (run_plan (onion fuel) m (record p { todo = ms })) (onion fuel)
]

-- `m` calls Next at most `n` times, on every path, and never after a panic, and runs no composed
-- middleware.
abbrev pub Calls : ℕ → Middleware → Type 0
Calls n ends = Unit
Calls zero (next m) = ⊥
Calls (suc n) (next m) = Calls n m
Calls n (abort m) = Calls n m
Calls n (reads f) = (x : Exchange) → Calls n (f x)
Calls n (writes f m) = Calls n m
Calls n (panics e) = Unit
Calls n (guarded m h) = Calls n m × ((e : String) → Calls 0 (h e))
Calls n (composed ms m) = ⊥

abbrev pub AllOnce : Middlewares → Type 0
AllOnce nil = Unit
AllOnce (cons m ms) = Calls 1 m × AllOnce ms

abbrev pub from : ℕ → Middlewares → Middlewares
from zero ms = ms
from (suc i) nil = nil
from (suc i) (cons m ms) = from i ms

-- The number of the middleware that begins next.
abbrev pub begun : Context → ℕ
begun c = (c.index + 1) % 256

abbrev pub plan : Context → Plan
plan c = record { exchange = c.exchange; todo = from (begun c) c.handlers }

abbrev pub planned : Ran Context → Ran Plan
planned none = none
planned (some (o, c)) = some (o, plan c)
