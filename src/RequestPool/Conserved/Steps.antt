-- ===== src/RequestPool/Conserved/Steps.antt =====
-- What each step of a worker does to the requests on their way.
pub mod Handling
use go_lib.Base.{
  ℕ, zero, suc, ◌+◌, ◌-◌, ◌≤◌, ◌<◌, ◌≡◌, refl, String, Bool, true, false, List, [], ◌∷◌, ◌++◌,
  Option, none, some, Map, get, length, get_elem?, set, total, total-append, total-set,
  total-replicate, nat_beq, if◌then◌else◌, comparable_nat, replicate, arith, Option-cases,
  Bool-cases, inl, inr, ap, sym, ◌∙◌, if_cases, is_some,
}
use go_lib.NetHttp.{Response}
use go_lib.RequestPool.{
  PoolError, zero_request, Request, Point, note_success, note_failure, note_error, retries,
}
use go_lib.RequestPool.Answer.{Parsers, Outcome, fails, succeeds, panics, merge_headers}
use go_lib.RequestPool.Work.{
  World, Worker, Phase, starting, idle, gone, holding, calling, set_point, set_worker, enqueue,
  send_to, send_global, send_back, redirect, find_point, adjust_goroutine, save, handle_success,
  handle_error, dispatch, settle, dies, leave, map_option, done, outcome, with_point, register,
  take_from, take_own, take_global, drain_from, drain, quit, Move, starts, takes_own, takes_global,
  drains, quits, handles, answers, move, move_at,
}
use go_lib.RequestPool.Conserved.{held, weight, point_weight, worker_weight, flow}
use go_lib.RequestPool.Conserved.Flows.{
  Flows, Flows-trans, set_point-Flows, set_worker-Flows, recount, Sends, OnSome, OnSome-map,
  send_global-Sends, redirect-Sends, same_queue-Flows, adjust_goroutine-Flows,
}

-- A step keeps all requests on their way, drops one that nobody waits for, takes the zero request
-- out of a closed channel, or saves one.
pub data Effect (w v : World) : Type 0 where
  passes : Flows [] [] w v → Effect w v
  drops : (r : Request) → get r.group_id w.results ≡ none → Flows (r ∷ []) [] w v → Effect w v
  makes_zero : Flows [] (zero_request ∷ []) w v → Effect w v
  saves : (r : Request) → Flows (r ∷ []) [] (save r w) v → Effect w v

module _ (w : World) (n : ℕ) (k : Worker) (at : get_elem? w.workers n ≡ some k) where
  -- A change of the worker and of its point.
  pub both-Flows :
      (lose gain : List Request) (l : Worker) (i : ℕ) (p q : Point)
      → get_elem? w.points i ≡ some p
      → ((j : ℕ) (f : String → ℕ → ℕ)
          → total (weight j f) lose + total (weight j f) q.queue + total (weight j f) (held l.phase)
            ≡ total (weight j f) gain
              + total (weight j f) p.queue
              + total (weight j f) (held k.phase))
      → Flows lose gain w (set_worker n l (set_point i q w))
  both-Flows lose gain l i p q e same =
      recount lose gain
        (λ j f. omega (
          arith,
          same j f,
          total-append (weight j f) p.queue (held k.phase),
          total-append (weight j f) q.queue (held l.phase),
        ))
        (Flows-trans (set_point-Flows w i p q e) (set_worker-Flows _ n k l at))

  pub with_point-cases :
      (P : World → Type 0) (i : ℕ) (f : Point → Option World) (o : Option Point)
      → get_elem? w.points i ≡ o
      → ((p : Point) → get_elem? w.points i ≡ some p → OnSome P (f p))
      → OnSome P (with_point w i f)
  with_point-cases P i f none e h = rw (e, with_point) tt
  with_point-cases P i f (some p) e h = rw (e, with_point) (h p e)

  pub register-Effect : k.phase ≡ starting → OnSome (Effect w) (register n k w)
  register-Effect ph = with_point-cases (Effect w) k.point _ _ refl (λ p e. passes (
      both-Flows [] [] _ k.point p _ e
        (λ j f. omega (arith, ap (λ x. total (weight j f) (held x)) ph))))

  take_from-Effect :
      (p : Point) (rs : List Request)
      → k.phase ≡ idle
      → get_elem? w.points k.point ≡ some p
      → p.queue ≡ rs
      → OnSome (Effect w) (take_from rs n k p w)
  take_from-Effect p [] ph e q =
      if_cases (OnSome (Effect w)) p.queue_closed _ none
        (λ _. makes_zero (
          recount [] (zero_request ∷ [])
            (λ j f. omega (arith, ap (λ x. total (weight j f) (held x)) ph))
            (set_worker-Flows w n k _ at)))
        (λ _. tt)
  take_from-Effect p (r ∷ rs) ph e q = passes (
      both-Flows [] [] _ k.point p _ e
        (λ j f. omega (arith, ap (total (weight j f)) q, ap (λ x. total (weight j f) (held x)) ph)))

  pub take_own-Effect : k.phase ≡ idle → OnSome (Effect w) (take_own n k w)
  take_own-Effect ph =
      with_point-cases (Effect w) k.point _ _ refl (λ p e. take_from-Effect p p.queue ph e refl)

  pub take_global-Effect :
      (rs : List Request) → k.phase ≡ idle → w.queue ≡ rs → OnSome (Effect w) (take_global rs n k w)
  take_global-Effect [] ph q = tt
  take_global-Effect (r ∷ rs) ph q = passes (record {
    results = refl;
    notify = refl;
    groups = refl;
    asked = refl;
    flows = λ g f. omega (
      arith,
      ap (total (weight g f)) q,
      ap (λ x. total (weight g f) (held x)) ph,
      total-set (worker_weight g f) w.workers n k (record k { phase = holding r }) at,
    );
  })

  leave-Effect :
      (p : Point)
      → k.phase ≡ idle
      → get_elem? w.points k.point ≡ some p
      → Effect w (set_worker n (record k { phase = gone }) (set_point k.point (leave n p) w))
  leave-Effect p ph e = passes (
      both-Flows [] [] _ k.point p _ e
        (λ j f. omega (arith, ap (λ x. total (weight j f) (held x)) ph)))

  drain_from-Effect :
      (p : Point) (rs : List Request)
      → k.phase ≡ idle
      → get_elem? w.points k.point ≡ some p
      → p.queue ≡ rs
      → OnSome (Effect w) (drain_from rs n k p w)
  drain_from-Effect p [] ph e q =
      if_cases (OnSome (Effect w)) p.queue_closed _ none (λ _. leave-Effect p ph e) (λ _. tt)
  drain_from-Effect p (r ∷ rs) ph e q =
      let w' = set_point k.point (record p { queue = rs }) w in
      OnSome-map (Sends r w') (Effect w) (send_global r w')
        (λ v s. passes (
          recount [] []
            (λ j f. omega (
              arith,
              ap (total (weight j f)) q,
              total-append (weight j f) p.queue [],
              total-append (weight j f) rs (r ∷ []),
            ))
            (Flows-trans (set_point-Flows w k.point p _ e) s.0)))
        (send_global-Sends r w')

  pub drain-Effect : k.phase ≡ idle → OnSome (Effect w) (drain n k w)
  drain-Effect ph = with_point-cases (Effect w) k.point _ _ refl (λ p e.
      if_cases (OnSome (Effect w)) p.need_close _ none (λ _. drain_from-Effect p p.queue ph e refl)
        (λ _. tt))

  pub quit-Effect : k.phase ≡ idle → OnSome (Effect w) (quit n k w)
  quit-Effect ph =
      if_cases (OnSome (Effect w)) k.stopped _ none
        (λ _. with_point-cases (Effect w) k.point _ _ refl (λ p e. leave-Effect p ph e)) (λ _. tt)
