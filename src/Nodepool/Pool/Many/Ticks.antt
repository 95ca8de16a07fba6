-- ===== src/Nodepool/Pool/Many/Ticks.antt =====
-- No part of a request takes time back.
use go_lib.Base.{
  ℕ, zero, suc, ◌≤◌, List, [], ◌∷◌, Option, none, Option-cases, inl, inr, arith, length, take, drop,
}
use go_lib.Nodepool.Types.{Platform, Error, Request, Classifier}
use go_lib.Nodepool.World.{
  World, Env, DoFunc, available_at, try_acquire_at, acquire_at, release_at, next_tick,
}
use go_lib.Nodepool.Strategy.Conservative
use go_lib.Nodepool.Strategy.Conservative.{
  Conservative, Round, Flow, returned, continued, round_count,
}
use go_lib.Nodepool.Strategy.Conservative.Balance.{world_of, and_then_keeps, or_else_keeps}
use go_lib.Nodepool.Strategy.Race
use go_lib.Nodepool.Strategy.Race.{Race, Sorted, racers}
use go_lib.Nodepool.Pool.{Pool, Strategy, conservative, race}
use go_lib.Nodepool.Pool.Requests.{send, do_on_node, execute_strategy, do_with_status}

module _ ⦃p : Platform⦄ where
  -- From tick `t` on.
  abbrev pub From : ℕ → World → Type 0
  From t w = t ≤ w.tick

  abbrev Advances : DoFunc → Type 0
  Advances do_on = (w : World) (r : ℕ) (req : Request) → w.tick ≤ (do_on w r req).1.tick

  module _ (env : Env) where
    do_on_node-Advances : (c : Classifier) → Advances (do_on_node env c)
    unfolding do_on_node send
    do_on_node-Advances c w r req = ground arith

    module _ (do_on : DoFunc) (req : Request) (adv : Advances do_on) (t : ℕ) where
      visit-From :
          (r : ℕ) (l : Round) (w : World)
          → From t w
          → From t (world_of (Conservative.visit env do_on req r l w))
      unfolding Conservative.visit Conservative.attempt available_at try_acquire_at release_at
          Conservative.settle
      visit-From r l w h =
          ground (arith, adv (try_acquire_at env r (available_at env r w).1).1 r req)

      visit_all-From :
          (rs : List ℕ) (l : Round) (w : World)
          → From t w
          → From t (world_of (Conservative.visit_all env do_on req rs l w))
      unfolding Conservative.visit_all
      visit_all-From [] l w h = h
      visit_all-From (r ∷ rs) l w h =
          and_then_keeps (From t) (Conservative.visit env do_on req r l w)
            (Conservative.visit_all env do_on req rs) (visit-From r l w h) (visit_all-From rs)

      after-From :
          (s : Conservative) (ts : List ℕ) (l : Round) (w : World)
          → From t w
          → From t (world_of (Conservative.after_throttled env do_on req s ts l w))
      unfolding Conservative.after_throttled Conservative.wait_for Conservative.attempt acquire_at
          release_at Conservative.settle
      after-From s [] l w h = h
      after-From s (best ∷ ts) l w h = ground (arith, adv (acquire_at env best w).1 best req)

      round-From :
          (s : Conservative) (rs : List ℕ) (e : Option Error) (w : World)
          → From t w
          → From t (world_of (Conservative.round env do_on req s rs e w))
      unfolding Conservative.round Conservative.after_visits
      round-From s rs e w h = elim (Option-cases (env.ctx_err w.tick)) [
        | inl live ↦
            rw (live, Conservative.round)
              (and_then_keeps (From t) (Conservative.visit_all env do_on req rs _ (next_tick w))
                (Conservative.after_visits env do_on req s)
                (visit_all-From rs _ (next_tick w) (omega arith)) (λ l. after-From s l.throttled l))
        | inr (x, over) ↦ rw (over, Conservative.round) (omega arith)
      ]

      rounds-From :
          (k : ℕ) (s : Conservative) (rs : List ℕ) (e : Option Error) (w : World)
          → From t w
          → From t (Conservative.rounds env do_on req k s rs e w).1
      unfolding Conservative.rounds
      rounds-From zero s rs e w h = h
      rounds-From (suc k) s rs e w h =
          or_else_keeps (From t) (Conservative.round env do_on req s rs e w)
            (λ l. Conservative.rounds env do_on req k s rs l.last_err) (round-From s rs e w h)
            (λ l w₁. rounds-From k s rs l.last_err w₁)

      conservative-From :
          (s : Conservative) (rs : List ℕ) (w : World)
          → From t w
          → From t (Conservative.execute env do_on req s rs w).1
      unfolding Conservative.execute
      conservative-From s [] w h = h
      conservative-From s (r ∷ rs) w h = rounds-From (round_count s.max_retries) s (r ∷ rs) none w h

      sort_nodes-From :
          (rs : List ℕ) (s : Sorted) (w : World)
          → From t w
          → From t (Race.sort_nodes env do_on req rs s w).1
      unfolding Race.sort_nodes Race.sort_node available_at try_acquire_at
      sort_nodes-From [] s w h = h
      sort_nodes-From (r ∷ rs) s w h =
          let (s₁, w₁) = Race.sort_node env do_on req r s w in
          sort_nodes-From rs s₁ w₁ (ground arith)

      release_all-From : (rs : List ℕ) (w : World) → From t w → From t (Race.release_all rs w)
      unfolding Race.release_all release_at
      release_all-From [] w h = h
      release_all-From (r ∷ rs) w h = release_all-From rs (release_at r w) h

      run_all-From :
          (rs : List ℕ) (w : World) → From t w → From t (Race.run_all env do_on req rs w).1
      unfolding Race.run_all Race.attempt release_at
      run_all-From [] w h = h
      run_all-From (r ∷ rs) w h =
          run_all-From rs (Race.attempt env do_on req r w).1 (omega (arith, adv w r req))

      launch-From :
          (s : Race) (rs ts : List ℕ) (w : World)
          → From t w
          → From t (Race.launch env do_on req s rs ts w).1
      unfolding Race.launch Race.none_acquired Race.race Race.attempt acquire_at release_at
      launch-From s [] [] w h = h
      launch-From s [] (best ∷ ts) w h = ground (arith, adv (acquire_at env best w).1 best req)
      launch-From s (r ∷ rs) ts w h =
          let n = racers s.concurrency (length (r ∷ rs)) in
          run_all-From (env.finish_order (take n (r ∷ rs))) (Race.release_all (drop n (r ∷ rs)) w)
            (release_all-From (drop n (r ∷ rs)) w h)

      race-From :
          (s : Race) (rs : List ℕ) (w : World)
          → From t w
          → From t (Race.execute env do_on req s rs w).1
      unfolding Race.execute
      race-From s rs w h =
          let (sorted, w₁) =
            Race.sort_nodes env do_on req rs (record { acquired = []; throttled = [] }) w in
          launch-From s sorted.acquired sorted.throttled w₁ (sort_nodes-From rs _ w h)

    strategy-From :
        (s : Strategy) (c : Classifier) (rs : List ℕ) (req : Request) (w : World)
        → w.tick ≤ (execute_strategy env s (do_on_node env c) rs req w).1.tick
    unfolding execute_strategy
    strategy-From (conservative s) c rs req w =
        conservative-From (do_on_node env c) req (do_on_node-Advances c) w.tick s rs w (omega arith)
    strategy-From (race s) c rs req w =
        race-From (do_on_node env c) req (do_on_node-Advances c) w.tick s rs w (omega arith)

    pub tick-do_with_status :
        (q : Pool) (req : Request) → q.world.tick ≤ (do_with_status env q req).1.tick
    unfolding do_with_status
    tick-do_with_status q req = strategy-From q.strategy q.classifier q.nodes req q.world
