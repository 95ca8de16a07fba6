-- ===== src/NetHttp/Chain/Ends.antt =====
-- The chain ends.
use go_lib.Base.{ℕ, zero, suc, ◌+◌, ◌≤◌, ◌<◌, ◌≡◌, refl, String, Bool, none, some, is_some, arith}
use go_lib.NetHttp.{Env, Exchange}
use go_lib.NetHttp.Chain.{
  Middleware, ends, next, abort, reads, writes, panics, guarded, composed, Middlewares, nil, cons,
  count, append, Context, returned, panicked, Ran, and_then, or_recover, execute,
  request_middleware,
}
use go_lib.NetHttp.Chain.Onion.{Plan, run_plan, onion, Calls, AllOnce, planned}
use go_lib.NetHttp.Chain.Refines.{count-append, AllOnce-append, execute-onion}

-- The run ends, with at most `k` middlewares left, each of which calls Next at most once.
abbrev Leaves : ℕ → Ran Plan → Type 0
Leaves k none = ⊥
Leaves k (some (o, p)) = (count p.todo ≤ k) × AllOnce p.todo

abbrev LeavesFrom : ℕ → (Plan → Ran Plan) → Type 0
LeavesFrom k f = (p : Plan) → count p.todo ≤ k → AllOnce p.todo → Leaves k (f p)

and_then-Leaves :
    (k : ℕ) (r : Ran Plan) (f : Plan → Ran Plan)
    → Leaves k r
    → LeavesFrom k f
    → Leaves k (and_then r f)
and_then-Leaves k none f l g = absurd l
and_then-Leaves k (some (returned, p)) f l g = g p l.0 l.1
and_then-Leaves k (some (panicked e, p)) f l g = l

or_recover-Leaves :
    (k : ℕ) (r : Ran Plan) (f : String → Plan → Ran Plan)
    → Leaves k r
    → ((e : String) → LeavesFrom k (f e))
    → Leaves k (or_recover r f)
or_recover-Leaves k none f l g = absurd l
or_recover-Leaves k (some (returned, p)) f l g = l
or_recover-Leaves k (some (panicked e, p)) f l g = g e p l.0 l.1

run_plan-Leaves :
    (k n : ℕ) (rest : Plan → Ran Plan) (m : Middleware)
    → LeavesFrom k rest
    → Calls n m
    → LeavesFrom k (run_plan rest m)
unfolding run_plan
run_plan-Leaves k n rest ends f c p le a = (le, a)
run_plan-Leaves k zero rest (next m) f c p le a = absurd c
run_plan-Leaves k (suc n) rest (next m) f c p le a =
    and_then-Leaves k (rest p) (run_plan rest m) (f p le a) (run_plan-Leaves k n rest m f c)
run_plan-Leaves k n rest (abort m) f c p le a =
    run_plan-Leaves k n rest m f c (record p { todo = nil }) (omega arith) tt
run_plan-Leaves k n rest (reads g) f c p le a =
    run_plan-Leaves k n rest (g p.exchange) f (c p.exchange) p le a
run_plan-Leaves k n rest (writes g m) f c p le a =
    run_plan-Leaves k n rest m f c (record p { exchange = g p.exchange }) le a
run_plan-Leaves k n rest (panics e) f c p le a = (le, a)
run_plan-Leaves k n rest (guarded m h) f c p le a =
    or_recover-Leaves k (run_plan rest m p) (λ e. run_plan rest (h e))
      (run_plan-Leaves k n rest m f c.0 p le a) (λ e. run_plan-Leaves k 0 rest (h e) f (c.1 e))
run_plan-Leaves k n rest (composed ms m) f c p le a = absurd c

Leaves-le : (k l : ℕ) (r : Ran Plan) → k ≤ l → Leaves k r → Leaves l r
Leaves-le k l none le h = h
Leaves-le k l (some (o, p)) le h = (omega arith, h.1)

onion_step-Leaves :
    (k fuel : ℕ) (ms : Middlewares) (p : Plan)
    → k < suc fuel
    → ((l : ℕ) → l < fuel → LeavesFrom l (onion fuel))
    → p.todo ≡ ms
    → count ms ≤ k
    → AllOnce ms
    → Leaves k (onion (suc fuel) p)
unfolding onion
onion_step-Leaves k fuel nil p lt f e le a = rw e (omega arith, tt)
onion_step-Leaves k fuel (cons m ms) p lt f e le a =
    let go = f (count ms) (omega arith) in
    let start : Plan = record p { todo = ms } in
    let r = run_plan-Leaves (count ms) 1 (onion fuel) m go a.0 start (omega arith) a.1 in
    rw e (
      Leaves-le (count ms) k (and_then (run_plan (onion fuel) m start) (onion fuel)) (omega arith)
        (and_then-Leaves (count ms) (run_plan (onion fuel) m start) (onion fuel) r go))

onion-Leaves : (fuel k : ℕ) → k < fuel → LeavesFrom k (onion fuel)
onion-Leaves zero k lt p le a = absurd (omega arith)
onion-Leaves (suc fuel) k lt p le a =
    onion_step-Leaves k fuel p.todo p lt (onion-Leaves fuel) refl le a

some-of-Leaves : (k : ℕ) (r : Ran Context) → Leaves k (planned r) → is_some r ≡ Bool.true
some-of-Leaves k none h = absurd h
some-of-Leaves k (some (o, c)) h = refl

-- With at most 30 middlewares, each of which calls Next at most once and composes none, the call
-- ends, with a result or a panic: one unit of fuel for each, one for the request and one for the end
-- are enough.
pub execute-is_some :
    (fuel : ℕ) (env : Env) (ms : Middlewares) (x : Exchange)
    → count ms ≤ 30
    → AllOnce ms
    → count ms + 1 < fuel
    → is_some (execute fuel env ms x) ≡ Bool.true
unfolding request_middleware
execute-is_some fuel env ms x few a enough =
    let last = request_middleware env in
    some-of-Leaves (count ms + 1) (execute fuel env ms x) (
      rw (execute-onion fuel env ms x few a) (
        onion-Leaves fuel (count ms + 1) enough (record { exchange = x; todo = append ms last })
          (omega (arith, count-append ms last)) (AllOnce-append ms last tt a)))
