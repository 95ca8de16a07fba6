-- ===== src/NetHttp/Chain.antt =====
-- net/http/context.go and net/http/chain.go: the chain of middlewares, run by an index of type int8.
pub mod Onion
pub mod Refines
pub mod Ends
use go_lib.Base.{ℕ, zero, suc, ◌+◌, ◌%◌, String, Bool, Option, none, some, ltb, if◌then◌else◌}
use go_lib.NetHttp.{Env, Exchange, do_request}

-- A middleware by the calls that it makes on its context, in order: `ctx.Next()`, `ctx.Abort()`,
-- reads and writes of the other fields; and how it ends. `guarded m h` is `m` under a deferred
-- function that recovers from a panic by `h`; `composed ms m` runs what `Compose` makes of `ms`. No
-- middleware of the package asks its context whether it is aborted, and there is no call for that.
mutual
  pub data Middleware : Type 0 where
    ends : Middleware
    next abort : Middleware → Middleware
    reads : (Exchange → Middleware) → Middleware
    writes : (Exchange → Exchange) → Middleware → Middleware
    panics : String → Middleware
    guarded : Middleware → (String → Middleware) → Middleware
    composed : Middlewares → Middleware → Middleware

  pub data Middlewares : Type 0 where
    nil : Middlewares
    cons : Middleware → Middlewares → Middlewares

abbrev pub count : Middlewares → ℕ
count nil = 0
count (cons m ms) = suc (count ms)

abbrev pub handler_at : Middlewares → ℕ → Option Middleware
handler_at nil i = none
handler_at (cons m ms) zero = some m
handler_at (cons m ms) (suc i) = handler_at ms i

abbrev pub append : Middlewares → Middleware → Middlewares
append nil last = cons last nil
append (cons m ms) last = cons m (append ms last)

-- `index` is the int8 as a byte: 255 is -1.
pub record Context : Type 0 where
  pub exchange : Exchange
  pub handlers : Middlewares
  pub index : ℕ

pub data Outcome : Type 0 where
  returned : Outcome
  panicked : String → Outcome

-- The order of int8, and `int8(n)`.
abbrev pub int8_lt : ℕ → ℕ → Bool
int8_lt a b = ltb ((a + 128) % 256) ((b + 128) % 256)

abbrev pub int8 : ℕ → ℕ
int8 n = n % 256

abbrev pub abort_index : ℕ
abort_index = 63

unfoldable pub abort_chain : Context → Context
abort_chain c = record c { index = abort_index }

unfoldable pub is_aborted : Context → Bool
is_aborted c = if int8_lt c.index abort_index then Bool.false else Bool.true

-- What a call that may panic returns; none if the fuel ran out.
abbrev pub Ran : Type 0 → Type 0
Ran C = Option (Outcome × C)

abbrev pub and_then : {C : Type 0} → Ran C → (C → Ran C) → Ran C
and_then none k = none
and_then (some (returned, c)) k = k c
and_then (some (panicked e, c)) k = some (panicked e, c)

abbrev pub or_recover : {C : Type 0} → Ran C → (String → C → Ran C) → Ran C
or_recover none k = none
or_recover (some (returned, c)) k = some (returned, c)
or_recover (some (panicked e, c)) k = k e c

-- A middleware on its context, where `go_on` is `Next`.
unfoldable pub run : (Context → Ran Context) → Middleware → Context → Ran Context
unfolding abort_chain
run go_on ends c = some (returned, c)
run go_on (next m) c = and_then (go_on c) (run go_on m)
run go_on (abort m) c = run go_on m (abort_chain c)
run go_on (reads f) c = run go_on (f c.exchange) c
run go_on (writes f m) c = run go_on m (record c { exchange = f c.exchange })
run go_on (panics e) c = some (panicked e, c)
run go_on (guarded m h) c = or_recover (run go_on m c) (λ e. run go_on (h e))
run go_on (composed ms m) c =
    and_then (go_on (record c { handlers = ms; index = 255 }))
      (λ c'. run go_on m (record c' { handlers = c.handlers; index = c.index }))

-- `handlers[index]`, which panics out of range.
abbrev pub handler_of : Context → Option Middleware
handler_of c = if ltb c.index 128 then handler_at c.handlers c.index else none

-- `Next`. After a handler the loop adds one to the index and tests it, as `Next` does first.
unfoldable pub go_on : ℕ → Context → Ran Context
unfolding run
go_on zero c = none
go_on (suc fuel) c =
    let c' : Context = record c { index = (c.index + 1) % 256 } in
    let turn : Ran Context = elim (handler_of c') [
      | none ↦ some (panicked "index out of range", c')
      | some m ↦ and_then (run (go_on fuel) m c') (go_on fuel)
    ] in
    if int8_lt c'.index (int8 (count c'.handlers)) then turn else some (returned, c')

-- `doRequestMiddleware`.
unfoldable pub request_middleware : Env → Middleware
request_middleware env = writes (do_request env) ends

-- `execute`.
unfoldable pub execute : ℕ → Env → Middlewares → Exchange → Ran Context
unfolding request_middleware
execute fuel env ms x =
    go_on fuel (record { exchange = x; handlers = append ms (request_middleware env); index = 255 })
