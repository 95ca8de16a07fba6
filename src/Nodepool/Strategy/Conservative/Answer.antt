-- ===== src/Nodepool/Strategy/Conservative/Answer.antt =====
-- What the conservative strategy answers, and how many requests it sends.
use go_lib.Base.{
  ap, snoc_cases, ◌++◌, sym, subst, ℕ, zero, suc, true, List, [], ◌∷◌, Option, none, some, is_some,
  arith, ◌≡◌, ◌≢◌, refl, Option-cases, inl, inr, ◌⊎◌,
}
use mathlib.Core.List.{Memᴰ}
use go_lib.Nodepool.Types.{Platform, Error, Request, success, fail, biz_error}
use go_lib.Nodepool.World.{
  World, error_for, Env, DoFunc, Outcome, available_at, try_acquire_at, acquire_at, next_tick,
}
use go_lib.Nodepool.Strategy.Conservative.{
  all_throttled, after_throttled, NodeStatus, Conservative, Round, Flow, returned, continued,
  settle, attempt, visit, visit_all, wait_for, after_visits, round, rounds, execute, round_count,
  and_then, or_else,
}

module _ ⦃p : Platform⦄ (env : Env) (do_on : DoFunc) (req : Request) where
  -- The answer is that of an attempt on one of the nodes, which was no node failure; a success
  -- comes without an error, a business error with its own.
  pub record IsAnswered (rs : List ℕ) (o : Outcome) : Type 0 where
    pub node : ℕ
    pub before : World
    pub listed : Memᴰ node rs
    pub not_fail : o.status ≢ fail
    pub same_status : o.status ≡ (do_on before node req).0.status
    pub same_response : o.response ≡ (do_on before node req).0.response
    pub same_error : o.error ≡ error_for o.status (do_on before node req).0.error

  abbrev pub IsFailed : Outcome → Type 0
  IsFailed o = (o.status ≡ fail) × (o.response ≡ none) × (is_some o.error ≡ true)

  abbrev Within : List ℕ → Round → Type 0
  Within rs l = (r : ℕ) → Memᴰ r l.throttled → Memᴰ r rs

  -- Every outcome that a part of the loop returns is such an answer, or a failure; where it goes
  -- on, the throttled nodes are among the nodes.
  data Replies (rs : List ℕ) : Flow → Type 0 where
    replies : {o : Outcome} {w : World} → IsAnswered rs o ⊎ IsFailed o → Replies rs (returned o w)
    goes_on : {l : Round} {w : World} → Within rs l → Replies rs (continued l w)

  settle-Replies_of :
      (rs : List ℕ) (r : ℕ) (before w : World) (l : Round) (st : NodeStatus)
      → Memᴰ r rs
      → (do_on before r req).0.status ≡ st
      → Within rs l
      → Replies rs (settle (do_on before r req).0 l w)
  unfolding settle
  settle-Replies_of rs r before w l success m e h =
      rw (e, settle)
        (replies (
          inl (record {
            node = r;
            before = before;
            listed = m;
            not_fail = λ x. ground arith;
            same_status = refl;
            same_response = refl;
            same_error = sym (ap (λ s. error_for s (do_on before r req).0.error) e);
          })))
  settle-Replies_of rs r before w l fail m e h = rw (e, settle) (goes_on h)
  settle-Replies_of rs r before w l biz_error m e h =
      rw (e, settle)
        (replies (
          inl (record {
            node = r;
            before = before;
            listed = m;
            not_fail = λ x. ground arith;
            same_status = refl;
            same_response = refl;
            same_error = sym (ap (λ s. error_for s (do_on before r req).0.error) e);
          })))

  attempt-Replies :
      (rs : List ℕ) (r : ℕ) (l : Round) (w : World)
      → Memᴰ r rs
      → Within rs l
      → let a = attempt env do_on req r w in Replies rs (settle a.0 l a.1)
  unfolding attempt
  attempt-Replies rs r l w m h = settle-Replies_of rs r w _ l (do_on w r req).0.status m refl h

  visit-Replies :
      (rs : List ℕ) (r : ℕ) (l : Round) (w : World)
      → Memᴰ r rs
      → Within rs l
      → Replies rs (visit env do_on req r l w)
  unfolding visit
  visit-Replies rs r l w m h =
      let w₂ = (try_acquire_at env r (available_at env r w).1).1 in
      let l' : Round = record l { throttled = l.throttled ++ r ∷ [] } in
      let within : Within rs l' = λ x mx. elim (snoc_cases x r l.throttled mx) [
        | inl before ↦ h x before
        | inr e ↦ subst (λ y. Memᴰ y rs) (sym e) m
      ] in
      let gone : Replies rs (continued l (available_at env r w).1) = goes_on h in
      let refused : Replies rs (continued l' w₂) = goes_on within in
      ground (arith, gone, refused, attempt-Replies rs r (record l { any_attempted = true }) w₂ m h)

  and_then-Replies :
      (rs : List ℕ) (f : Flow) (k : Round → World → Flow)
      → Replies rs f
      → ((l : Round) (w : World) → Within rs l → Replies rs (k l w))
      → Replies rs (and_then f k)
  unfolding and_then
  and_then-Replies rs (returned o w) k (replies h) next = replies h
  and_then-Replies rs (continued l w) k (goes_on h) next = next l w h

  -- `rs` is the part of the nodes still to be visited, and `all` the nodes.
  visit_all-Replies :
      (all rs : List ℕ) (l : Round) (w : World)
      → ((r : ℕ) → Memᴰ r rs → Memᴰ r all)
      → Within all l
      → Replies all (visit_all env do_on req rs l w)
  unfolding visit_all
  visit_all-Replies all [] l w sub h = goes_on h
  visit_all-Replies all (r ∷ rs) l w sub h =
      and_then-Replies all (visit env do_on req r l w) (visit_all env do_on req rs)
        (visit-Replies all r l w (sub r (Memᴰ.head refl)) h)
        (λ l₁ w₁. visit_all-Replies all rs l₁ w₁ (λ x m. sub x (Memᴰ.tail m)))

  wait_for-Replies :
      (rs : List ℕ) (r : ℕ) (l : Round) (w : World)
      → Memᴰ r rs
      → Within rs l
      → Replies rs (wait_for env do_on req r l w)
  unfolding wait_for
  wait_for-Replies rs r l w m h = elim (Option-cases (acquire_at env r w).0) [
    | inl ok ↦ rw (ok, wait_for) (attempt-Replies rs r l (acquire_at env r w).1 m h)
    | inr (e, refused) ↦ rw (refused, wait_for) (goes_on h)
  ]

  after_throttled-Replies :
      (s : Conservative) (rs ts : List ℕ) (l : Round) (w : World)
      → ((r : ℕ) → Memᴰ r ts → Memᴰ r rs)
      → Within rs l
      → Replies rs (after_throttled env do_on req s ts l w)
  unfolding after_throttled
  after_throttled-Replies s rs [] l w sub h = goes_on h
  after_throttled-Replies s rs (best ∷ ts) l w sub h =
      let kept : Replies rs (continued l w) = goes_on h in
      let blamed : Replies rs (continued (record l { last_err = some all_throttled }) w) =
        goes_on h in
      ground (arith, kept, blamed, wait_for-Replies rs best l w (sub best (Memᴰ.head refl)) h)

  round-Replies :
      (s : Conservative) (rs : List ℕ) (e : Option Error) (w : World)
      → Replies rs (round env do_on req s rs e w)
  unfolding round after_visits
  round-Replies s rs e w = elim (Option-cases (env.ctx_err w.tick)) [
    | inl live ↦
        rw (live, round)
          (and_then-Replies rs (visit_all env do_on req rs _ (next_tick w))
            (after_visits env do_on req s)
            (visit_all-Replies rs rs _ (next_tick w) (λ r m. m) (λ r m. elim m [ ]))
            (λ l w₁ h. after_throttled-Replies s rs l.throttled l w₁ h h))
    | inr (x, over) ↦ rw (over, round) (replies (inr (refl, refl, refl)))
  ]

  or_else-IsAnswered :
      (rs : List ℕ) (f : Flow) (k : Round → World → Outcome × World)
      → Replies rs f
      → ((l : Round) (w : World) → Within rs l → IsAnswered rs (k l w).0 ⊎ IsFailed (k l w).0)
      → IsAnswered rs (or_else f k).0 ⊎ IsFailed (or_else f k).0
  unfolding or_else
  or_else-IsAnswered rs (returned o w) k (replies h) next = h
  or_else-IsAnswered rs (continued l w) k (goes_on h) next = next l w h

  rounds-IsAnswered :
      (k : ℕ) (s : Conservative) (rs : List ℕ) (e : Option Error) (w : World)
      → let o = (rounds env do_on req k s rs e w).0 in IsAnswered rs o ⊎ IsFailed o
  unfolding rounds
  rounds-IsAnswered zero s rs e w = inr (refl, refl, refl)
  rounds-IsAnswered (suc k) s rs e w =
      or_else-IsAnswered rs (round env do_on req s rs e w)
        (λ l. rounds env do_on req k s rs l.last_err) (round-Replies s rs e w)
        (λ l w₁ _. rounds-IsAnswered k s rs l.last_err w₁)

  -- What the strategy returns is either the answer of an attempt on one of the nodes, whose status
  -- is no node failure, with that attempt's status and response, no error on success and the
  -- attempt's error on a business error; or a failure, with no response and an error.
  pub execute-IsAnswered :
      (s : Conservative) (rs : List ℕ) (w : World)
      → let o = (execute env do_on req s rs w).0 in IsAnswered rs o ⊎ IsFailed o
  unfolding execute
  execute-IsAnswered s [] w = inr (refl, refl, refl)
  execute-IsAnswered s (r ∷ rs) w = rounds-IsAnswered (round_count s.max_retries) s (r ∷ rs) none w
