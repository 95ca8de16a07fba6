-- ===== src/Nodepool/Pool/Many/Ends.antt =====
-- DoUntilComplete ends with its context.
use go_lib.Base.{
  ℕ, zero, suc, ◌+◌, ◌≤◌, ◌<◌, ◌≡◌, refl, true, false, ◌⊎◌, inl, inr, List, [], ◌∷◌, Option, none,
  some, is_some, Option-cases, Bool-cases, ltb, arith, All, if_cases,
}
use go_lib.Nodepool.Types.{Platform, NodeStatus, success, fail, biz_error, external, Request}
use go_lib.Nodepool.World.{World, Env, Outcome, next_tick}
use go_lib.Nodepool.Pool.{Pool}
use go_lib.Nodepool.Pool.Requests.{do_with_status}
use go_lib.Nodepool.Pool.Many.{
  Slot, slots_for, write_slot, any_pending, cancel, backoff, sweep, interrupted, complete_from,
  do_until_complete,
}
use go_lib.Nodepool.Pool.Many.Ticks.{tick-do_with_status}

module _ ⦃p : Platform⦄ where
  open p use {Failure}

  abbrev pub requests : List Slot → List Request
  requests [] = []
  requests (s ∷ ss) = s.request ∷ requests ss

  module _ (env : Env) (q : Pool) where
    -- The slot holds what some round's DoWithStatus of its request returned, and that is no node
    -- failure: its response, and its error if it is a business error.
    abbrev pub IsAnswer : Slot → Type 0
    IsAnswer s =
        (s.pending ≡ false)
        × (w : World) × (let o = (do_with_status env (record q { world = w }) s.request).0 in
            (s.response ≡ o.response)
            × (((o.status ≡ success) × (s.error ≡ none))
                ⊎ ((o.status ≡ biz_error) × (s.error ≡ o.error))))

    -- The slot is as at the start.
    abbrev pub IsOpen : Slot → Type 0
    IsOpen s = (s.pending ≡ true) × (s.response ≡ none) × (s.error ≡ none)

    -- The request was never answered, and the slot has an error of the context alone.
    abbrev pub IsCanceled : Slot → Type 0
    IsCanceled s = (e : Failure) × (s.response ≡ none) × (s.error ≡ some (external e))

    abbrev pub Completes : List Request → Option (List Slot × World × ℕ) → Type 0
    Completes reqs none = ⊥
    Completes reqs (some (ss, w, waited)) =
        (requests ss ≡ reqs) × All (λ s. IsCanceled s ⊎ IsAnswer s) ss

    settled_when :
        (ss : List Slot)
        → any_pending ss ≡ false
        → All (λ s. IsOpen s ⊎ IsAnswer s) ss
        → All (λ s. IsCanceled s ⊎ IsAnswer s) ss
    settled_when [] e h = tt
    settled_when (s ∷ ss) e (inl o, h) = absurd (ground arith)
    settled_when (s ∷ ss) e (inr a, h) = (inr a, settled_when ss (ground arith) h)

    cancel-settled :
        (e : Failure) (ss : List Slot)
        → All (λ s. IsOpen s ⊎ IsAnswer s) ss
        → All (λ s. IsCanceled s ⊎ IsAnswer s) (cancel e ss)
    cancel-settled e [] h = tt
    cancel-settled e (s ∷ ss) (inl (p, r, x), h) = (
      if_cases (λ s. IsCanceled s ⊎ IsAnswer s) s.pending _ _ (λ _. inl (e, r, refl))
          (λ no. absurd (cc)),
      cancel-settled e ss h,
    )
    cancel-settled e (s ∷ ss) (inr a, h) = (
      if_cases (λ s. IsCanceled s ⊎ IsAnswer s) s.pending _ _ (λ yes. absurd (let done = a.0 in cc))
          (λ _. inr a),
      cancel-settled e ss h,
    )

    write_slot-settled :
        (s : Slot) (w : World) (o : Outcome)
        → (do_with_status env (record q { world = w }) s.request).0 ≡ o
        → IsOpen s
        → IsOpen (write_slot o s) ⊎ IsAnswer (write_slot o s)
    unfolding write_slot
    write_slot-settled s w o same (p, r, x) = by_status o.status refl
      where
        by_status :
            (t : NodeStatus) → o.status ≡ t → IsOpen (write_slot o s) ⊎ IsAnswer (write_slot o s)
        by_status success e = rw (e, write_slot) (inr (refl, w, rw same (refl, inl (e, x))))
        by_status biz_error e = rw (e, write_slot) (inr (refl, w, rw same (refl, inr (e, refl))))
        by_status fail e = rw (e, write_slot) (inl (p, r, x))

    sweep-settled :
        (ss : List Slot) (w : World)
        → All (λ s. IsOpen s ⊎ IsAnswer s) ss
        → All (λ s. IsOpen s ⊎ IsAnswer s) (sweep env q ss w).0
    unfolding sweep
    sweep-settled [] w h = tt
    sweep-settled (s ∷ ss) w (inl fresh, h) =
        let r = do_with_status env (record q { world = w }) s.request in
        (
          if_cases (λ s. IsOpen s ⊎ IsAnswer s) s.pending _ _
              (λ _. write_slot-settled s w r.0 refl fresh) (λ _. inl fresh),
          sweep-settled ss _ h,
        )
    sweep-settled (s ∷ ss) w (inr a, h) = (
      if_cases (λ s. IsOpen s ⊎ IsAnswer s) s.pending _ _ (λ yes. absurd (let done = a.0 in cc))
          (λ _. inr a),
      sweep-settled ss _ h,
    )

    start-settled : (reqs : List Request) → All (λ s. IsOpen s ⊎ IsAnswer s) (slots_for env reqs)
    start-settled [] = tt
    start-settled (r ∷ rs) = (inl (refl, refl, refl), start-settled rs)

  requests-cancel : (e : Failure) (ss : List Slot) → requests (cancel e ss) ≡ requests ss
  requests-cancel e [] = refl
  requests-cancel e (s ∷ ss) = ground (arith, requests-cancel e ss)

  request-write_slot : (o : Outcome) (s : Slot) → (write_slot o s).request ≡ s.request
  unfolding write_slot
  request-write_slot o s = ground arith

  requests-slots_for : (env : Env) (reqs : List Request) → requests (slots_for env reqs) ≡ reqs
  requests-slots_for env [] = refl
  requests-slots_for env (r ∷ rs) = ground (arith, requests-slots_for env rs)

  module _ (env : Env) where
    requests-sweep :
        (q : Pool) (ss : List Slot) (w : World) → requests (sweep env q ss w).0 ≡ requests ss
    unfolding sweep
    requests-sweep q [] w = refl
    requests-sweep q (s ∷ ss) w =
        let r = do_with_status env (record q { world = w }) s.request in
        ground (arith, request-write_slot r.0 s, requests-sweep q ss r.1, requests-sweep q ss w)

    tick-sweep : (q : Pool) (ss : List Slot) (w : World) → w.tick ≤ (sweep env q ss w).1.tick
    unfolding sweep
    tick-sweep q [] w = omega arith
    tick-sweep q (s ∷ ss) w =
        let r = do_with_status env (record q { world = w }) s.request in
        ground (
          arith,
          tick-do_with_status env (record q { world = w }) s.request,
          tick-sweep q ss r.1,
          tick-sweep q ss w,
        )

    module _ (t : ℕ) (over : (u : ℕ) → t ≤ u → is_some (env.ctx_err u) ≡ true) where
      not_over : (u : ℕ) → env.ctx_err u ≡ none → u < t
      not_over u e = elim (Bool-cases (ltb u t)) [
        | inl early ↦ ground arith
        | inr late ↦ absurd (ground (arith, over u))
      ]

      complete_from-Completes :
          (fuel : ℕ) (q : Pool) (round waited : ℕ) (ss : List Slot) (w : World)
          → 0 < fuel
          → t < fuel + w.tick
          → All (λ s. IsOpen env q s ⊎ IsAnswer env q s) ss
          → Completes env q (requests ss) (complete_from env fuel q round waited ss w)
      unfolding complete_from
      complete_from-Completes zero q round waited ss w some_fuel enough kept = absurd (omega arith)
      complete_from-Completes (suc fuel) q round waited ss w some_fuel enough kept =
          elim (Bool-cases (any_pending ss)) [
            | inr none_left ↦
                rw (none_left, complete_from) (refl, settled_when env q ss none_left kept)
            | inl left ↦ elim (Option-cases (env.ctx_err w.tick)) [
              | inr (e, done) ↦
                  rw (left, complete_from, done)
                    (requests-cancel e ss, cancel-settled env q e ss kept)
              | inl going ↦ elim (Option-cases (interrupted env round (next_tick w))) [
                | inr (e, done) ↦
                    rw (left, complete_from, going, done)
                      (requests-cancel e ss, cancel-settled env q e ss kept)
                | inl waits ↦
                    rw (left, complete_from, going, waits)
                      (let w₂ = next_tick (next_tick w) in
                        let swept = sweep env q ss w₂ in
                        let early = not_over w.tick going in
                        let ih =
                          complete_from-Completes fuel q (suc round) (waited + backoff round)
                            swept.0 swept.1 (omega arith) (omega (arith, tick-sweep q ss w₂))
                            (sweep-settled env q ss w₂ kept) in
                        rw (requests-sweep q ss w₂) at ih)
              ]
            ]
          ]

    -- If the context is done from the tick `t` on, DoUntilComplete returns, with fuel for more than `t`
    -- rounds, however the nodes behave: it has the requests in their order. Each of them has what some
    -- DoWithStatus of it returned, with the status success and no error or with a business error and
    -- that error; or it has no response and an error of the context.
    pub do_until_complete-Completes :
        (fuel t : ℕ) (q : Pool) (reqs : List Request)
        → ((u : ℕ) → t ≤ u → is_some (env.ctx_err u) ≡ true)
        → t < fuel
        → Completes env q reqs (do_until_complete env fuel q reqs)
    unfolding do_until_complete
    do_until_complete-Completes fuel t q reqs over enough =
        let done =
          complete_from-Completes t over fuel q 0 0 (slots_for env reqs) q.world (omega arith)
            (omega arith) (start-settled env q reqs) in
        rw (requests-slots_for env reqs) at done
