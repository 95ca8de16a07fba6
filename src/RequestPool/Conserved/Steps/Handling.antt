-- ===== src/RequestPool/Conserved/Steps/Handling.antt =====
-- What the handling of a request by its worker does to the requests on their way.
use go_lib.Base.{
  ℕ, ◌+◌, ◌≡◌, refl, String, Bool, true, false, [], ◌∷◌, Option, none, some, Map, get, get_elem?,
  total, total-append, comparable_nat, arith, Bool-cases, inl, inr, ap, ◌∙◌, if_cases, is_some,
}
use go_lib.NetHttp.{Response}
use go_lib.RequestPool.{
  not, ltb, PoolError, Request, Point, note_success, note_failure, note_error, retries,
}
use go_lib.RequestPool.Answer.{Parsers, Outcome, fails, succeeds, panics, merge_headers}
use go_lib.RequestPool.Work.{
  World, Worker, Phase, starting, idle, gone, holding, calling, set_point, set_worker, redirect,
  adjust_goroutine, save, handle_success, handle_error, dispatch, settle, dies, leave, map_option,
  done, Move, starts, takes_own, takes_global, drains, quits, handles, answers, move, move_at,
}
use go_lib.RequestPool.Conserved.{held, weight}
use go_lib.RequestPool.Conserved.Flows.{
  Flows, Flows-trans, set_worker-Flows, recount, Sends, OnSome, redirect-Sends, same_queue-Flows,
  adjust_goroutine-Flows,
}
use go_lib.RequestPool.Conserved.Steps.{
  Effect, passes, drops, saves, both-Flows, with_point-cases, register-Effect, take_own-Effect,
  take_global-Effect, drain-Effect, quit-Effect,
}

OnSome-map_option :
    (P : World → Type 0) (Q : World → Type 0) (g : World → World) (o : Option World)
    → ((v : World) → P v → Q (g v))
    → OnSome P o
    → OnSome Q (map_option g o)
OnSome-map_option P Q g none h p = tt
OnSome-map_option P Q g (some v) h p = h v p

none_of : {A : Type 0} (o : Option A) → not (is_some o) ≡ true → o ≡ none
none_of none h = refl
none_of (some a) h = cc

module _ (w : World) (n : ℕ) (k : Worker) (r : Request) (at : get_elem? w.workers n ≡ some k)
    (busy : held k.phase ≡ r ∷ []) where
  carried : (j : ℕ) (f : String → ℕ → ℕ) → total (weight j f) (held k.phase) ≡ weight j f r + 0
  carried j f = ap (total (weight j f)) busy

  let_go : (v : World) → Sends r w v → Effect w (set_worker n (done k) v)
  let_go v s = passes (
      recount [] [] (λ j f. omega (arith, carried j f, total-append (weight j f) (r ∷ []) []))
        (Flows-trans s.0 (set_worker-Flows v n k (done k) (ap (λ x. get_elem? x n) s.1 ∙ at))))

  dies-Effect : (p : Point) → get_elem? w.points k.point ≡ some p → Effect w (dies n k p r w)
  dies-Effect p e =
      let a =
        both-Flows w n k at (r ∷ []) [] (record k { phase = gone }) k.point p (leave n p) e
          (λ j f. omega (arith, carried j f)) in
      passes (record {
        results = refl;
        notify = refl;
        groups = refl;
        asked = refl;
        flows = λ g f. omega (arith, a.flows g f);
      })

  merged-Effect :
      (p : Point)
      → get_elem? w.points k.point ≡ some p
      → (o : Option (Option (Map String String)))
      → Effect w (elim o [
        | none ↦ dies n k p r w
        | some h ↦
            set_worker n
              (record k { phase = calling r })
              (set_point k.point (record p { headers = h }) w)
      ])
  merged-Effect p e none = dies-Effect p e
  merged-Effect p e (some h) =
      passes (both-Flows w n k at [] [] _ k.point p _ e (λ j f. omega (arith, carried j f)))

  dispatch-Effect :
      (p : Point) (now : ℕ)
      → get_elem? w.points k.point ≡ some p
      → OnSome (Effect w) (dispatch n k p r now w)
  unfolding dispatch
  dispatch-Effect p now e =
      if_cases (OnSome (Effect w)) (ltb now p.backoff_time) _ _
        (λ _.
          OnSome-map_option (Sends r w) (Effect w) (set_worker n (done k)) (redirect k.point r w)
            let_go (redirect-Sends k.point r w _ refl))
        (λ _.
          if_cases (OnSome (Effect w)) (not (is_some (get r.group_id w.results))) _ _
            (λ closed. drops r (none_of _ closed) (
              recount (r ∷ []) [] (λ j f. omega (arith, carried j f))
                (set_worker-Flows w n k (done k) at)))
            (λ _. merged-Effect p e (merge_headers r.headers p.headers)))

  settled :
      (success : Bool) (r' : Request) (q : Point) (now : ℕ) (p : Point) (v : World)
      → get_elem? v.points k.point ≡ some p
      → get_elem? v.workers n ≡ some k
      → q.queue ≡ p.queue
      → Flows (held k.phase) [] v (adjust_goroutine success n k now (set_point k.point q v))
  settled success r' q now p v e a s =
      Flows-trans (same_queue-Flows v k.point p q e s)
        (adjust_goroutine-Flows success n k k now (set_point k.point q v) _ refl a)

  saved-Effect :
      (success : Bool) (r' : Request) (q : Point) (now : ℕ) (p : Point)
      → get_elem? w.points k.point ≡ some p
      → q.queue ≡ p.queue
      → ((j : ℕ) (f : String → ℕ → ℕ) → weight j f r' ≡ weight j f r)
      → Effect w (adjust_goroutine success n k now (save r' (set_point k.point q w)))
  unfolding save
  saved-Effect success r' q now p e s same = saves r' (
      recount (r' ∷ []) [] (λ j f. omega (arith, carried j f, same j f))
        (settled success r' q now p (save r' w) e at s))

  handle_success-Effect :
      (p : Point) (t : ℕ) (u : Response) (now : ℕ)
      → get_elem? w.points k.point ≡ some p
      → Effect w (handle_success n k p r t u now w)
  unfolding handle_success note_success
  handle_success-Effect p t u now e =
      saved-Effect true (record r { result = some u; error = none }) (note_success t p) now p e refl
        (λ j f. refl)

  note_failure-queue : (now : ℕ) (p : Point) → (note_failure now p).queue ≡ p.queue
  unfolding note_failure
  note_failure-queue now p = ground arith

  note_error-weight :
      (i : ℕ) (x : PoolError) (j : ℕ) (f : String → ℕ → ℕ)
      → weight j f (note_error i x r) ≡ weight j f r
  unfolding note_error
  note_error-weight i x j f = refl

  retried :
      (x : PoolError) (p : Point) (now : ℕ)
      → get_elem? w.points k.point ≡ some p
      → let w' = set_point k.point (note_failure now p) w in
        (v : World)
        → Sends (note_error k.point x r) w' v
        → Effect w (adjust_goroutine false n k now v)
  retried x p now e v s = passes (
      recount [] []
        (λ j f. omega (
          arith,
          carried j f,
          note_error-weight k.point x j f,
          total-append (weight j f) (held k.phase) [],
        ))
        (Flows-trans
          (same_queue-Flows w k.point p (note_failure now p) e (note_failure-queue now p))
          (Flows-trans s.0
            (adjust_goroutine-Flows false n k k now v _ refl (ap (λ y. get_elem? y n) s.1 ∙ at)))))

  handle_error-Effect :
      (p : Point) (x : PoolError) (now : ℕ)
      → get_elem? w.points k.point ≡ some p
      → OnSome (Effect w) (handle_error n k p r x now w)
  unfolding handle_error
  handle_error-Effect p x now e =
      let noted = note_error k.point x r in
      let w' = set_point k.point (note_failure now p) w in
      elim (Bool-cases (retries noted)) [
        | inl again ↦
            rw (again, handle_error)
              (OnSome-map_option (Sends noted w') (Effect w) (adjust_goroutine false n k now)
                (redirect k.point noted w') (retried x p now e)
                (redirect-Sends k.point noted w' _ refl))
        | inr last ↦
            rw (last, handle_error)
              (saved-Effect false noted (note_failure now p) now p e (note_failure-queue now p)
                (note_error-weight k.point x))
      ]

  settle-Effect :
      (parsers : Parsers) (p : Point) (o : Outcome) (now : ℕ)
      → get_elem? w.points k.point ≡ some p
      → OnSome (Effect w) (settle parsers n k p r o now w)
  settle-Effect parsers p (fails x) now e = handle_error-Effect p x now e
  settle-Effect parsers p (succeeds t u) now e = handle_success-Effect p t u now e
  settle-Effect parsers p panics now e = dies-Effect p e

module _ (parsers : Parsers) (w : World) (n : ℕ) (k : Worker)
    (at : get_elem? w.workers n ≡ some k) where
  move-Effect : (ph : Phase) (m : Move) → k.phase ≡ ph → OnSome (Effect w) (move parsers ph m n k w)
  unfolding move
  move-Effect starting starts e = register-Effect w n k at e
  move-Effect idle takes_own e = take_own-Effect w n k at e
  move-Effect idle takes_global e = take_global-Effect w n k at w.queue e refl
  move-Effect idle drains e = drain-Effect w n k at e
  move-Effect idle quits e = quit-Effect w n k at e
  move-Effect (holding r) (handles now) e =
      with_point-cases w n k at (Effect w) k.point _ _ refl
        (λ p h. dispatch-Effect w n k r at (ap held e) p now h)
  move-Effect (calling r) (answers now reply) e =
      with_point-cases w n k at (Effect w) k.point _ _ refl
        (λ p h. settle-Effect w n k r at (ap held e) parsers p _ now h)
  move-Effect _ _ e = tt

pub move_at-Effect :
    (parsers : Parsers) (n : ℕ) (m : Move) (w : World) (o : Option Worker)
    → get_elem? w.workers n ≡ o
    → OnSome (Effect w) (move_at parsers n m w)
unfolding move_at
move_at-Effect parsers n m w none e = rw (e, move_at) tt
move_at-Effect parsers n m w (some k) e =
    rw (e, move_at) (move-Effect parsers w n k e k.phase m refl)
