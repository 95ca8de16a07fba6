-- ===== src/NetHttp/Chain/Refines.antt =====
-- The chain by its index does what the chain without it does.
use go_lib.Base.{
  ℕ, zero, suc, ◌+◌, ◌*◌, ◌-◌, ◌≤◌, ◌<◌, ◌≡◌, refl, sym, ap, ◌∙◌, inl, inr, String, Bool, none,
  some, ltb, if◌then◌else◌, Bool-cases, arith,
}
use go_lib.NetHttp.{Env, Exchange, do_request}
use go_lib.NetHttp.Chain.{
  Middleware, ends, next, abort, reads, writes, panics, guarded, composed, Middlewares, nil, cons,
  count, handler_at, append, Context, returned, panicked, int8_lt, int8, abort_chain, Ran, and_then,
  or_recover, run, go_on, request_middleware, execute,
}
use go_lib.NetHttp.Chain.Onion.{Plan, run_plan, onion, Calls, AllOnce, from, begun, plan, planned}

from-nil : (i : ℕ) → from i nil ≡ nil
from-nil zero = refl
from-nil (suc i) = refl

from-end : (i : ℕ) (ms : Middlewares) → count ms ≤ i → from i ms ≡ nil
from-end i nil h = from-nil i
from-end zero (cons m ms) h = absurd (omega arith)
from-end (suc i) (cons m ms) h = from-end i ms (omega arith)

-- The next one to begin, and those behind it.
from-at :
    (i : ℕ) (ms : Middlewares)
    → i < count ms
    → AllOnce ms
    → (m : Middleware) × (handler_at ms i ≡ some m)
      × (from i ms ≡ cons m (from (suc i) ms))
      × Calls 1 m
from-at i nil h a = absurd (omega arith)
from-at zero (cons m ms) h a = (m, refl, refl, a.0)
from-at (suc i) (cons m ms) h a = from-at i ms (omega arith) a.1

-- No index in the rest of the run is higher than this, and one for each call of Next.
abbrev height : Context → ℕ
height c = (if ltb (begun c) 64 then 64 else begun c) + 2 * (count c.handlers - begun c)

abbrev Below : ℕ → Middlewares → Ran Context → Type 0
Below h ms none = Unit
Below h ms (some (o, c)) = (height c ≤ h) × (c.handlers ≡ ms)

-- The context of a handler that begins.
abbrev pub bumped : Context → Context
bumped c = record c { index = begun c }

pub go_on-turn :
    (fuel : ℕ) (m : Middleware) (c : Context)
    → count c.handlers ≤ 31
    → begun c < count c.handlers
    → handler_at c.handlers (begun c) ≡ some m
    → go_on (suc fuel) c ≡ and_then (run (go_on fuel) m (bumped c)) (go_on fuel)
unfolding go_on
go_on-turn fuel m c few lt at =
    let within : int8_lt (begun c) (int8 (count c.handlers)) ≡ Bool.true = ground arith in
    let low : ltb (begun c) 128 ≡ Bool.true = ground arith in rw (within, low, at) refl

pub go_on-end :
    (fuel : ℕ) (c : Context)
    → count c.handlers ≤ 31
    → begun c ≤ 126
    → count c.handlers ≤ begun c
    → go_on (suc fuel) c ≡ some (returned, bumped c)
unfolding go_on
go_on-end fuel c few low ge =
    let out : int8_lt (begun c) (int8 (count c.handlers)) ≡ Bool.false = ground arith in rw out refl

onion-turn :
    (fuel : ℕ) (m : Middleware) (ms : Middlewares) (p : Plan)
    → p.todo ≡ cons m ms
    → onion (suc fuel) p ≡ and_then (run_plan (onion fuel) m (record p { todo = ms })) (onion fuel)
unfolding onion
onion-turn fuel m ms p e = rw e refl

onion-end : (fuel : ℕ) (p : Plan) → p.todo ≡ nil → onion (suc fuel) p ≡ some (returned, p)
unfolding onion
onion-end fuel p e = rw e refl

module _ (ms : Middlewares) (few : count ms ≤ 31) where
  -- What goes on from a context not higher than `h`, and stays below `h'`.
  abbrev FollowsFrom : ℕ → ℕ → (Context → Ran Context) → (Plan → Ran Plan) → Type 0
  FollowsFrom h h' k k' =
      (c : Context)
      → c.handlers ≡ ms
      → height c ≤ h
      → (planned (k c) ≡ k' (plan c)) × Below h' ms (k c)

  and_then-Follows :
      (h h' : ℕ) (r : Ran Context) (k : Context → Ran Context) (k' : Plan → Ran Plan)
      {r' : Ran Plan}
      → h ≤ h'
      → planned r ≡ r'
      → Below h ms r
      → FollowsFrom h h' k k'
      → (planned (and_then r k) ≡ and_then r' k') × Below h' ms (and_then r k)
  and_then-Follows h h' none k k' le e b f = rw (← e) (refl, tt)
  and_then-Follows h h' (some (returned, c)) k k' le e b f = rw (← e) (f c b.1 b.0)
  and_then-Follows h h' (some (panicked x, c)) k k' le e b f =
      rw (← e) (refl, (omega (arith, b.0), b.1))

  or_recover-Follows :
      (h : ℕ) (r : Ran Context) (k : String → Context → Ran Context) (k' : String → Plan → Ran Plan)
      {r' : Ran Plan}
      → planned r ≡ r'
      → Below h ms r
      → ((x : String) → FollowsFrom h h (k x) (k' x))
      → (planned (or_recover r k) ≡ or_recover r' k') × Below h ms (or_recover r k)
  or_recover-Follows h none k k' e b f = rw (← e) (refl, tt)
  or_recover-Follows h (some (returned, c)) k k' e b f = rw (← e) (refl, b)
  or_recover-Follows h (some (panicked x, c)) k k' e b f = rw (← e) (f x c b.1 b.0)

  -- What `Next` does on both sides.
  abbrev Follows : (Context → Ran Context) → (Plan → Ran Plan) → Type 0
  Follows go rest = (h : ℕ) → 64 ≤ h → h ≤ 126 → FollowsFrom h (h + 1) go rest

  abort-plan : (c : Context) → c.handlers ≡ ms → from 64 c.handlers ≡ nil
  abort-plan c e = rw e (from-end 64 ms (omega arith))

  run-Follows :
      (go : Context → Ran Context) (rest : Plan → Ran Plan) (n h h' : ℕ) (m : Middleware)
      → Follows go rest
      → h + n ≤ h'
      → h' ≤ 127
      → 64 ≤ h
      → Calls n m
      → FollowsFrom h h' (run go m) (run_plan rest m)
  unfolding run run_plan abort_chain
  run-Follows go rest n h h' ends f le top lo a c e b = (refl, (omega arith, e))
  run-Follows go rest zero h h' (next m) f le top lo a c e b = absurd a
  run-Follows go rest (suc n) h h' (next m) f le top lo a c e b =
      let (same, under) = f h lo (omega arith) c e b in
      and_then-Follows (h + 1) h' (go c) (run go m) (run_plan rest m) (omega arith) same under
        (run-Follows go rest n (h + 1) h' m f (omega arith) top (omega arith) a)
  run-Follows go rest n h h' (abort m) f le top lo a c e b =
      rw (← abort-plan c e)
        (run-Follows go rest n h h' m f le top lo a (abort_chain c) e (omega (arith, ap count e)))
  run-Follows go rest n h h' (reads g) f le top lo a c e b =
      run-Follows go rest n h h' (g c.exchange) f le top lo (a c.exchange) c e b
  run-Follows go rest n h h' (writes g m) f le top lo a c e b =
      run-Follows go rest n h h' m f le top lo a (record c { exchange = g c.exchange }) e b
  run-Follows go rest n h h' (panics x) f le top lo a c e b = (refl, (omega arith, e))
  run-Follows go rest n h h' (guarded m g) f le top lo a c e b =
      let (same, under) = run-Follows go rest n h h' m f le top lo a.0 c e b in
      or_recover-Follows h' (run go m c) (λ x. run go (g x)) (λ x. run_plan rest (g x)) same under
        (λ x. run-Follows go rest 0 h' h' (g x) f (omega arith) top (omega arith) (a.1 x))
  run-Follows go rest n h h' (composed xs m) f le top lo a c e b = absurd a

  -- A turn at the middleware `m`.
  turn-Follows :
      (fuel : ℕ) (m : Middleware) (c : Context) (h : ℕ)
      → Follows (go_on fuel) (onion fuel)
      → Calls 1 m
      → c.handlers ≡ ms
      → begun c < count ms
      → height c ≤ h
      → 64 ≤ h
      → h ≤ 126
      → (planned (and_then (run (go_on fuel) m (bumped c)) (go_on fuel))
          ≡ and_then (run_plan (onion fuel) m (plan (bumped c))) (onion fuel))
        × Below (h + 1) ms (and_then (run (go_on fuel) m (bumped c)) (go_on fuel))
  turn-Follows fuel m c h f a e lt b lo top =
      let many : count c.handlers ≡ count ms = ap count e in
      let least : 64 ≤ height (bumped c) = ground arith in
      let low : height (bumped c) + 1 ≤ h = ground arith in
      let (same, under) =
        run-Follows (go_on fuel) (onion fuel) 1 (height (bumped c)) h m f low (omega arith) least a
          (bumped c) e (omega arith) in
      and_then-Follows h (h + 1) (run (go_on fuel) m (bumped c)) (go_on fuel) (onion fuel)
        (omega arith) same under (f h lo top)

  go_on-stops :
      (h : ℕ) (c : Context)
      → (planned (go_on 0 c) ≡ onion 0 (plan c)) × Below (h + 1) ms (go_on 0 c)
  unfolding go_on onion
  go_on-stops h c = (refl, tt)

  go_on-Follows : (fuel : ℕ) → AllOnce ms → Follows (go_on fuel) (onion fuel)
  go_on-Follows zero a h lo top c e b = go_on-stops h c
  go_on-Follows (suc fuel) a h lo top c e b = elim (Bool-cases (ltb (begun c) (count ms))) [
    | inl lt ↦
        let (m, at, next_ones, once) = from-at (begun c) ms (ground arith) a in
        let many : count c.handlers ≡ count ms = ap count e in
        let s : begun (bumped c) ≡ suc (begun c) = ground arith in
        let todo : (plan c).todo ≡ cons m (plan (bumped c)).todo = rw (s, e) next_ones in
        rw
          (
            go_on-turn fuel m c (omega arith) (ground arith) (rw e at),
            onion-turn fuel m (plan (bumped c)).todo (plan c) todo,
          )
          (turn-Follows fuel m c h (go_on-Follows fuel a) once e (ground arith) b lo top)
    | inr ge ↦
        let many : count c.handlers ≡ count ms = ap count e in
        let ended : (plan c).todo ≡ nil = from-end (begun c) c.handlers (ground arith) in
        let after : (plan (bumped c)).todo ≡ nil =
          from-end (begun (bumped c)) c.handlers (ground arith) in
        rw
          (
            go_on-end fuel c (omega arith) (ground arith) (ground arith),
            onion-end fuel (plan c) ended,
          )
          (
            ap (λ t. some (returned, record { exchange = c.exchange; todo = t }))
                (after ∙ sym ended),
            (ground arith, e),
          )
  ]

pub count-append : (ms : Middlewares) (m : Middleware) → count (append ms m) ≡ count ms + 1
count-append nil m = omega arith
count-append (cons x ms) m = omega (arith, count-append ms m)

pub AllOnce-append :
    (ms : Middlewares) (m : Middleware) → Calls 1 m → AllOnce ms → AllOnce (append ms m)
AllOnce-append nil m c a = (c, tt)
AllOnce-append (cons x ms) m c a = (a.0, AllOnce-append ms m c a.1)

-- With at most 30 middlewares, each of which calls Next at most once and composes none, running
-- them by an int8 index is running each of them once, in order: Next runs those that have not begun,
-- Abort drops them, and one that returns or recovers without having called Next is followed by
-- the next. The outcome, the exchange and what is left to do agree for every fuel.
pub execute-onion :
    (fuel : ℕ) (env : Env) (ms : Middlewares) (x : Exchange)
    → count ms ≤ 30
    → AllOnce ms
    → planned (execute fuel env ms x)
      ≡ onion fuel (record { exchange = x; todo = append ms (request_middleware env) })
unfolding execute request_middleware
execute-onion fuel env ms x few a =
    let all = append ms (writes (do_request env) ends) in
    let n : count all ≤ 31 = omega (arith, count-append ms (writes (do_request env) ends)) in
    (go_on-Follows all n fuel (AllOnce-append ms (writes (do_request env) ends) tt a) 126
      (omega arith) (omega arith) (record { exchange = x; handlers = all; index = 255 }) refl
      (omega (arith, n))).0
