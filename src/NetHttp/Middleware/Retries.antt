-- ===== src/NetHttp/Middleware/Retries.antt =====
-- How often `RetryMiddleware` sends the request, and when it stops.
use go_lib.Base.{
  ap, ◌∙◌, sym, ◌<◌, is_some, Option-cases, ℕ, zero, suc, ◌+◌, ◌≤◌, ◌≡◌, refl, ◌⊎◌, inl, inr, true,
  false, Option, none, some, length, length-append, ◌∷◌, [], Bool-cases, arith,
}
use go_lib.NetHttp.{String, Env, Exchange, retry_request, answered, add_error}
use go_lib.NetHttp.Chain.{Context, returned, Ran, run}
use go_lib.NetHttp.Middleware.{Response, needs_retry, attempt_again, retry_loop}

-- What the loop repeats a request for: an error, or a status of 500 or more; but never a status of
-- 400 to 499.
abbrev pub Warrants : Exchange → Type 0
Warrants x =
    ((is_some x.error ≡ true) ⊎ ((r : Response) × (x.response ≡ some r) × (500 ≤ r.status_code)))
    × ((r : Response) → x.response ≡ some r → (r.status_code < 400) ⊎ (500 ≤ r.status_code))

Warrants-needs_retry : (x : Exchange) → needs_retry x ≡ true → Warrants x
unfolding needs_retry
Warrants-needs_retry x h = elim (Option-cases x.response) [
  | inl e ↦
      let h' = rw (e, needs_retry) at h in
      (inl h', λ r f. absurd (let no : none ≡ some r = sym e ∙ f in cc))
  | inr (r, e) ↦
      let h' = rw (e, needs_retry) at h in
      (
        elim (Bool-cases (is_some x.error)) [
          | inl failed ↦ inl failed
          | inr fine ↦ inr (r, e, ground arith)
        ],
        λ q f.
            let both : some r ≡ some q = sym e ∙ f in
            let same : r ≡ q = cc in rw (← same) (ground arith),
      )
]

not-Warrants : (x : Exchange) → needs_retry x ≡ false → ¬ Warrants x
unfolding needs_retry
not-Warrants x h (why, no_client) = elim (Option-cases x.response) [
  | inl e ↦
      let h' = rw (e, needs_retry) at h in
      elim why [ inl failed ↦ cc | inr (r, f, big) ↦ let no : none ≡ some r = sym e ∙ f in cc ]
  | inr (r, e) ↦
      let h' = rw (e, needs_retry) at h in
      let range = no_client r e in
      elim why [
        | inl failed ↦ ground arith
        | inr (q, f, big) ↦
            let both : some r ≡ some q = sym e ∙ f in
            let same : r ≡ q = cc in let big' : 500 ≤ r.status_code = rw same big in ground arith
      ]
]

module _ (env : Env) (delay : ℕ) where
  -- `n` further attempts, one after the other.
  abbrev pub attempts : ℕ → Exchange → Exchange
  attempts zero x = x
  attempts (suc n) x = attempts n (attempt_again env delay x)

  -- Every attempt but the first of them was warranted.
  abbrev pub AllNeeded : ℕ → Exchange → Type 0
  AllNeeded zero x = Unit
  AllNeeded (suc n) x = Warrants x × AllNeeded n (attempt_again env delay x)

  sent-answered :
      (a : Option Response × Option String) (x : Exchange) → (answered a x).sent ≡ x.sent
  unfolding answered add_error
  sent-answered (r, none) x = refl
  sent-answered (r, some e) x = refl

  sent-attempt_again : (x : Exchange) → length (attempt_again env delay x).sent ≤ length x.sent + 1
  unfolding attempt_again retry_request add_error
  sent-attempt_again x = elim (Option-cases env.client) [
    | inl nil ↦ rw (nil, attempt_again) (omega arith)
    | inr (client, e) ↦
        rw (e, attempt_again, sent-answered) (omega (arith, length-append x.sent (x.request ∷ [])))
  ]

  sent-attempts : (k : ℕ) (x : Exchange) → length (attempts k x).sent ≤ length x.sent + k
  sent-attempts zero x = omega arith
  sent-attempts (suc k) x =
      omega (arith, sent-attempts k (attempt_again env delay x), sent-attempt_again x)

  retry_loop-again :
      (n : ℕ) (go : Context → Ran Context) (c : Context)
      → needs_retry c.exchange ≡ true
      → run go (retry_loop env (suc n) delay) c
        ≡ run go
            (retry_loop env n delay)
            (record c { exchange = attempt_again env delay c.exchange })
  unfolding run retry_loop
  retry_loop-again n go c h = rw (h, run) refl

  retry_loop-done :
      (n : ℕ) (go : Context → Ran Context) (c : Context)
      → needs_retry c.exchange ≡ false
      → run go (retry_loop env (suc n) delay) c ≡ some (returned, c)
  unfolding run retry_loop
  retry_loop-done n go c h = rw (h, run) refl

  retry_loop-none :
      (go : Context → Ran Context) (c : Context)
      → run go (retry_loop env zero delay) c ≡ some (returned, c)
  unfolding run retry_loop
  retry_loop-none go c = refl

  -- From what the rest of the chain left, the loop of RetryMiddleware makes some number `k` of
  -- attempts, at most `n`: each because the exchange before it has an error or a status of 500 or
  -- more, and no status of 400 to 499; and fewer than `n` only if the last exchange is not such. So
  -- it sends the request at most `n` times more, and it ends and leaves the chain as it is.
  pub run-retry_loop :
      (n : ℕ) (go : Context → Ran Context) (c : Context)
      → (k : ℕ) × (run go (retry_loop env n delay) c
          ≡ some (returned, record c { exchange = attempts k c.exchange }))
        × (k ≤ n)
        × AllNeeded k c.exchange
        × ((k ≡ n) ⊎ (¬ Warrants (attempts k c.exchange)))
        × (length (attempts k c.exchange).sent ≤ length c.exchange.sent + n)
  run-retry_loop zero go c = (0, retry_loop-none go c, omega arith, tt, inl refl, omega arith)
  run-retry_loop (suc n) go c = elim (Bool-cases (needs_retry c.exchange)) [
    | inl again ↦
        let d : Context = record c { exchange = attempt_again env delay c.exchange } in
        let (k, e, le, all, last, few) = run-retry_loop n go d in
        (
          suc k,
          retry_loop-again n go c again ∙ e,
          omega arith,
          (Warrants-needs_retry c.exchange again, all),
          elim last [ inl same ↦ inl (ap suc same) | inr done ↦ inr done ],
          omega (arith, sent-attempts (suc k) c.exchange),
        )
    | inr done ↦ (
      0,
      retry_loop-done n go c done,
      omega arith,
      tt,
      inr (not-Warrants c.exchange done),
      omega arith,
    )
  ]
