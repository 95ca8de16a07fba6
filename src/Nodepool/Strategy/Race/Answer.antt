-- ===== src/Nodepool/Strategy/Race/Answer.antt =====
-- What the race answers, from the attempts that it makes.
use go_lib.Base.{
  ℕ, zero, suc, ◌≡◌, ◌≢◌, refl, sym, ap, subst, ◌∙◌, ◌⊎◌, inl, inr, true, List, [], ◌∷◌, ◌++◌,
  Option-cases, All, arith, take, length, drop, occurrences, occurrences_mem, mem_occurrences,
  snoc_cases, if_cases,
}
use mathlib.Core.List.{Memᴰ}
use go_lib.Nodepool.Types.{
  Platform, NodeStatus, success, fail, biz_error, Errors, no_errors, Request,
}
use go_lib.Nodepool.World.{World, error_for, Env, DoFunc, Outcome, acquire_at}
use go_lib.Nodepool.Strategy.Conservative.Answer.{IsAnswered, IsFailed}
use go_lib.Nodepool.Strategy.Race.{
  Race, Sorted, racers, release_all, append_error, collect, sort_node, sort_nodes, attempt, run_all,
  none_acquired, race, launch, execute,
}

mem-take : (n r : ℕ) (xs : List ℕ) → Memᴰ r (take n xs) → Memᴰ r xs
mem-take zero r xs m = elim m [ ]
mem-take (suc n) r [] m = elim m [ ]
mem-take (suc n) r (x ∷ xs) (Memᴰ.head e) = Memᴰ.head e
mem-take (suc n) r (x ∷ xs) (Memᴰ.tail m) = Memᴰ.tail (mem-take n r xs m)

module _ ⦃p : Platform⦄ (env : Env) (do_on : DoFunc) (req : Request) (rs : List ℕ) where
  -- The outcome is that of an attempt on one of the nodes, as it is.
  abbrev pub IsAttempt : Outcome → Type 0
  IsAttempt o = (r : ℕ) × (before : World) × Memᴰ r rs × (o ≡ (do_on before r req).0)

  abbrev Listed : List ℕ → Type 0
  Listed xs = (r : ℕ) → Memᴰ r xs → Memᴰ r rs

  record-IsAnswered :
      (o : Outcome) (s : NodeStatus)
      → o.status ≡ s
      → s ≢ fail
      → IsAttempt o
      → IsAnswered env do_on req rs (record o { error = error_for s o.error })
  record-IsAnswered o s e ok (r, before, m, same) = record {
    node = r;
    before = before;
    listed = m;
    not_fail = λ x. ok (sym e ∙ x);
    same_status = ap (λ a. a.status) same;
    same_response = ap (λ a. a.response) same;
    same_error =
        ap (λ a. error_for s a.error) same
        ∙ sym (ap (λ u. error_for u (do_on before r req).0.error) e);
  }

  collect-IsAnswered :
      (n : ℕ) (errs : Errors) (os : List Outcome)
      → All IsAttempt os
      → let o = collect n errs os in IsAnswered env do_on req rs o ⊎ IsFailed env do_on req o
  unfolding collect
  collect-IsAnswered n errs [] h = inr (refl, refl, refl)
  collect-IsAnswered n errs (o ∷ os) h =
      by_status o.status refl (collect-IsAnswered n (append_error errs o.error) os h.1)
    where
      by_status :
          (s : NodeStatus)
          → o.status ≡ s
          → (let rest = collect n (append_error errs o.error) os in
              IsAnswered env do_on req rs rest ⊎ IsFailed env do_on req rest)
          → let a = collect n errs (o ∷ os) in
            IsAnswered env do_on req rs a ⊎ IsFailed env do_on req a
      by_status success e rest =
          rw (e, collect) (inl (record-IsAnswered o success e (λ x. ground arith) h.0))
      by_status biz_error e rest =
          rw (e, collect) (inl (record-IsAnswered o biz_error e (λ x. ground arith) h.0))
      by_status fail e rest = rw (e, collect) rest

  run_all-IsAttempt :
      (xs : List ℕ) (w : World) → Listed xs → All IsAttempt (run_all env do_on req xs w).0
  unfolding run_all attempt
  run_all-IsAttempt [] w sub = tt
  run_all-IsAttempt (r ∷ xs) w sub =
      let (o, w₁) = attempt env do_on req r w in
      let rest = run_all-IsAttempt xs w₁ (λ x m. sub x (Memᴰ.tail m)) in
      if_cases (All IsAttempt) (env.dropped w₁.tick) _ _ (λ _. rest)
        (λ _. ((r, w, sub r (Memᴰ.head refl), refl), rest))

  abbrev AreListed : Sorted → Type 0
  AreListed s = Listed s.acquired × Listed s.throttled

  snoc-Listed : (r : ℕ) (xs : List ℕ) → Memᴰ r rs → Listed xs → Listed (xs ++ r ∷ [])
  snoc-Listed r xs m sub x mx = elim (snoc_cases x r xs mx) [
    | inl before ↦ sub x before
    | inr e ↦ subst (λ y. Memᴰ y rs) (sym e) m
  ]

  sort_nodes-AreListed :
      (xs : List ℕ) (s : Sorted) (w : World)
      → Listed xs
      → AreListed s
      → AreListed (sort_nodes env do_on req xs s w).0
  unfolding sort_nodes sort_node
  sort_nodes-AreListed [] s w sub h = h
  sort_nodes-AreListed (r ∷ xs) s w sub h =
      let (s₁, w₁) = sort_node env do_on req r s w in
      let m = sub r (Memᴰ.head refl) in
      let got : AreListed (record s { acquired = s.acquired ++ r ∷ [] }) =
        (snoc-Listed r s.acquired m h.0, h.1) in
      let refused : AreListed (record s { throttled = s.throttled ++ r ∷ [] }) =
        (h.0, snoc-Listed r s.throttled m h.1) in
      sort_nodes-AreListed xs s₁ w₁ (λ x mx. sub x (Memᴰ.tail mx)) (ground (arith, got, refused, h))

  -- What a race with these acquired nodes may return: an answer, a failure, or an attempt as it is,
  -- that only if no node was acquired and the strategy waits.
  abbrev pub IsRaced : Race → List ℕ → Outcome → Type 0
  IsRaced s acquired o =
      IsAnswered env do_on req rs o
      ⊎ IsFailed env do_on req o
      ⊎ ((acquired ≡ []) × (s.wait_on_throttle ≡ true) × IsAttempt o)

  none_acquired-IsRaced :
      (s : Race) (ts : List ℕ) (w : World)
      → Listed ts
      → IsRaced s [] (none_acquired env do_on req s ts w).0
  unfolding none_acquired attempt
  none_acquired-IsRaced s [] w sub = inr (inl (refl, refl, refl))
  none_acquired-IsRaced s (best ∷ ts) w sub =
      if_cases (λ (x : Outcome × World). IsRaced s [] x.0) s.wait_on_throttle _ _
        (λ waits. elim (Option-cases (acquire_at env best w).0) [
          | inl ok ↦
              let w₁ = (acquire_at env best w).1 in
              rw ok (inr (inr (refl, waits, (best, w₁, sub best (Memᴰ.head refl), refl))))
          | inr (e, no_slot) ↦ rw no_slot (inr (inl (refl, refl, refl)))
        ])
        (λ _. inr (inl (refl, refl, refl)))

  module _
      (reorders : (us : List ℕ) (j : ℕ)
        → occurrences j (env.finish_order us) ≡ occurrences j us) where
    race-IsRaced :
        (s : Race) (xs : List ℕ) (w : World)
        → Listed xs
        → IsRaced s xs (race env do_on req s xs w).0
    unfolding race
    race-IsRaced s xs w sub =
        let n = racers s.concurrency (length xs) in
        let order = env.finish_order (take n xs) in
        let listed : Listed order = λ r m. sub r (
          mem-take n r xs (
            mem_occurrences r (take n xs)
              (omega (arith, occurrences_mem r order m, reorders (take n xs) r)))) in
        let (os, w₂) = run_all env do_on req order (release_all (drop n xs) w) in
        let all = run_all-IsAttempt order (release_all (drop n xs) w) listed in
        elim (collect-IsAnswered n no_errors os all) [ inl a ↦ inl a | inr f ↦ inr (inl f) ]

    launch-IsRaced :
        (s : Race) (xs ts : List ℕ) (w : World)
        → Listed xs
        → Listed ts
        → IsRaced s xs (launch env do_on req s xs ts w).0
    unfolding launch
    launch-IsRaced s [] ts w sub throttled = none_acquired-IsRaced s ts w throttled
    launch-IsRaced s (x ∷ xs) ts w sub throttled = race-IsRaced s (x ∷ xs) w sub

    -- If the attempts of a race all finish, in any order, and whichever of them lose their result to
    -- the cancelled context, what the strategy returns is one of three. It is the answer of an attempt
    -- on one of the nodes, whose status is no node failure, with that attempt's status and response,
    -- no error on success and the attempt's error on a business error; or a failure, with no response
    -- and an error; or, if no node let the request in at once and the strategy waits, the outcome of
    -- an attempt on one of the nodes as it is.
    pub execute-IsRaced :
        (s : Race) (w : World)
        → let start : Sorted = record { acquired = []; throttled = [] } in
          IsRaced s
            (sort_nodes env do_on req rs start w).0.acquired
            (execute env do_on req s rs w).0
    unfolding execute
    execute-IsRaced s w =
        let start : Sorted = record { acquired = []; throttled = [] } in
        let sorted = sort_nodes env do_on req rs start w in
        let h : AreListed sorted.0 =
          sort_nodes-AreListed rs start w (λ r m. m) ((λ r m. elim m [ ]), (λ r m. elim m [ ])) in
        launch-IsRaced s sorted.0.acquired sorted.0.throttled sorted.1 h.0 h.1
