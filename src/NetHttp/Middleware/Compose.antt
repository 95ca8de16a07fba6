-- ===== src/NetHttp/Middleware/Compose.antt =====
-- What `Compose` makes of an Abort inside it.
use go_lib.Base.{ℕ, suc, ◌≤◌, ◌<◌, ◌≡◌, refl, ◌∙◌, some, arith}
use go_lib.NetHttp.{HttpError, add_error}
use go_lib.NetHttp.Chain.{
  Middlewares, cons, count, handler_at, Context, returned, run, go_on, abort_chain,
}
use go_lib.NetHttp.Chain.Onion.{begun}
use go_lib.NetHttp.Chain.Refines.{bumped, go_on-turn, go_on-end}
use go_lib.NetHttp.Middleware.{abort_with, compose}

module _ (fuel : ℕ) (e : HttpError) (more : Middlewares) (few : count more ≤ 30) where
  aborted :
      (c : Context)
      → go_on (suc (suc fuel)) (record c { handlers = cons (abort_with e) more; index = 255 })
        ≡ some (
          returned,
          record c {
            exchange = add_error (some e) c.exchange;
            handlers = cons (abort_with e) more;
            index = 64;
          },
        )
  unfolding run abort_chain
  aborted c =
      go_on-turn (suc fuel) (abort_with e)
        (record c { handlers = cons (abort_with e) more; index = 255 }) (omega arith) (omega arith)
        refl
      ∙ go_on-end fuel
          (record {
            exchange = add_error (some e) c.exchange;
            handlers = cons (abort_with e) more;
            index = 63;
          })
          (omega arith) (omega arith) (omega arith)

  -- A middleware that aborts with an error at the head of a composed chain of at most 31 skips the
  -- rest of that chain; then the middlewares behind the composed one run as if it had returned, with
  -- the error noted.
  pub go_on-composed_abort :
      (c : Context)
      → count c.handlers ≤ 31
      → begun c < count c.handlers
      → handler_at c.handlers (begun c) ≡ some (compose (cons (abort_with e) more))
      → go_on (suc (suc (suc fuel))) c
        ≡ go_on
            (suc (suc fuel))
            (record c { exchange = add_error (some e) c.exchange; index = begun c })
  unfolding compose run
  go_on-composed_abort c n lt at =
      go_on-turn (suc (suc fuel)) (compose (cons (abort_with e) more)) c n lt at
      ∙ rw (aborted (bumped c)) refl
