-- ===== src/Nodepool/Strategy/Conservative/Balance.antt =====
-- The slots that are held in the course of the conservative strategy.
use go_lib.Base.{
  Option-cases, ℕ, zero, suc, List, [], ◌∷◌, Option, none, arith, ◌≡◌, refl, Bool-cases, inl, inr,
}
use go_lib.Nodepool.Types.{Platform, Error, Request}
use go_lib.Nodepool.Node.Slots.{SemaphoreLaws, BlockingLaws, slots, share}
use go_lib.Nodepool.World.{
  World, Env, DoFunc, Outcome, available_at, try_acquire_at, acquire_at, next_tick,
}
use go_lib.Nodepool.World.Slots.{
  Holds, KeepsSlots, plus, release_at-Holds, try_acquire_at-Holds, available_at-Holds,
  acquire_at-Holds,
}
use go_lib.Nodepool.Strategy.Conservative.{
  after_throttled, or_else, and_then, Conservative, Round, Flow, returned, continued, settle,
  attempt, visit, visit_all, wait_for, after_visits, round, rounds, execute, round_count,
}

module _ ⦃p : Platform⦄ where
  abbrev pub world_of : Flow → World
  world_of (returned o w) = w
  world_of (continued l w) = w

  pub world_of-settle : (o : Outcome) (l : Round) (w : World) → world_of (settle o l w) ≡ w
  unfolding settle
  world_of-settle o l w = ground arith

  pub and_then_keeps {ℓ} :
      (P : World → Type ℓ) (f : Flow) (k : Round → World → Flow)
      → P (world_of f)
      → ((l : Round) (w : World) → P w → P (world_of (k l w)))
      → P (world_of (and_then f k))
  unfolding and_then
  and_then_keeps P (returned o w) k h step = h
  and_then_keeps P (continued l w) k h step = step l w h

  pub or_else_keeps {ℓ} :
      (P : World → Type ℓ) (f : Flow) (k : Round → World → Outcome × World)
      → P (world_of f)
      → ((l : Round) (w : World) → P w → P (k l w).1)
      → P (or_else f k).1
  unfolding or_else
  or_else_keeps P (returned o w) k h step = h
  or_else_keeps P (continued l w) k h step = step l w h

  module _ (laws : SemaphoreLaws) (env : Env) (do_on : DoFunc) (req : Request)
      (blocks : (tick : ℕ) → BlockingLaws laws (env.blocking tick)) (keeps : KeepsSlots laws do_on)
      (sh base : ℕ → ℕ) where
    attempt-Holds :
        (r : ℕ) (w : World)
        → Holds laws sh (plus laws sh base r) w
        → Holds laws sh base (attempt env do_on req r w).1
    unfolding attempt
    attempt-Holds r w h =
        release_at-Holds laws sh base r (do_on w r req).1 λ j. ground (arith, h j, keeps w r req j)

    visit-Holds :
        (r : ℕ) (l : Round) (w : World)
        → Holds laws sh base w
        → Holds laws sh base (world_of (visit env do_on req r l w))
    unfolding visit
    visit-Holds r l w h =
        let w₁ = (available_at env r w).1 in
        let seen = available_at-Holds laws env sh base r w h in
        let held = try_acquire_at-Holds laws env sh base r w₁ seen in
        let w₂ = (try_acquire_at env r w₁).1 in
        elim (Bool-cases (try_acquire_at env r w₁).0) [
          | inl ok ↦
              let given = attempt-Holds r w₂ (rw ok at held) in λ j. ground (arith, seen j, given j)
          | inr refused ↦
              let kept : Holds laws sh base w₂ = rw refused at held in
              λ j. ground (arith, seen j, kept j)
        ]

    visit_all-Holds :
        (rs : List ℕ) (l : Round) (w : World)
        → Holds laws sh base w
        → Holds laws sh base (world_of (visit_all env do_on req rs l w))
    unfolding visit_all
    visit_all-Holds [] l w h = h
    visit_all-Holds (r ∷ rs) l w h =
        and_then_keeps (Holds laws sh base) (visit env do_on req r l w) (visit_all env do_on req rs)
          (visit-Holds r l w h) (visit_all-Holds rs)

    wait_for-Holds :
        (r : ℕ) (l : Round) (w : World)
        → Holds laws sh base w
        → Holds laws sh base (world_of (wait_for env do_on req r l w))
    unfolding wait_for
    wait_for-Holds r l w h =
        let held = acquire_at-Holds laws env sh base r w h (blocks w.tick) in
        let w₁ = (acquire_at env r w).1 in
        elim (Option-cases (acquire_at env r w).0) [
          | inl ok ↦ let given = attempt-Holds r w₁ (rw ok at held) in λ j. ground (arith, given j)
          | inr (e, refused) ↦
              let kept : Holds laws sh base w₁ = rw refused at held in λ j. ground (arith, kept j)
        ]

    after_throttled-Holds :
        (s : Conservative) (ts : List ℕ) (l : Round) (w : World)
        → Holds laws sh base w
        → Holds laws sh base (world_of (after_throttled env do_on req s ts l w))
    unfolding after_throttled
    after_throttled-Holds s [] l w h = h
    after_throttled-Holds s (best ∷ ts) l w h =
        λ j. ground (arith, h j, wait_for-Holds best l w h j)

    round-Holds :
        (s : Conservative) (rs : List ℕ) (e : Option Error) (w : World)
        → Holds laws sh base w
        → Holds laws sh base (world_of (round env do_on req s rs e w))
    unfolding round after_visits
    round-Holds s rs e w h = elim (Option-cases (env.ctx_err w.tick)) [
      | inl live ↦
          rw (live, round)
            (and_then_keeps (Holds laws sh base) (visit_all env do_on req rs _ (next_tick w))
              (after_visits env do_on req s) (visit_all-Holds rs _ (next_tick w) h)
              (λ l. after_throttled-Holds s l.throttled l))
      | inr (x, over) ↦ rw (over, round) h
    ]

    rounds-Holds :
        (k : ℕ) (s : Conservative) (rs : List ℕ) (e : Option Error) (w : World)
        → Holds laws sh base w
        → Holds laws sh base (rounds env do_on req k s rs e w).1
    unfolding rounds
    rounds-Holds zero s rs e w h = h
    rounds-Holds (suc k) s rs e w h =
        or_else_keeps (Holds laws sh base) (round env do_on req s rs e w)
          (λ l. rounds env do_on req k s rs l.last_err) (round-Holds s rs e w h)
          (λ l w₁. rounds-Holds k s rs l.last_err w₁)

  module _ (laws : SemaphoreLaws) (env : Env) (do_on : DoFunc) (req : Request) where
    -- If the semaphores behave as documented, try or wait, and `do` leaves them alone, then a call
    -- of the conservative strategy on any nodes, in any state and environment, ends with as many
    -- slots held at every node as it began with: on success, error, cancellation and exhaustion.
    pub slots-execute :
        (s : Conservative) (rs : List ℕ) (w : World)
        → ((tick : ℕ) → BlockingLaws laws (env.blocking tick))
        → KeepsSlots laws do_on
        → (j : ℕ) → slots laws ((execute env do_on req s rs w).1.heap j) ≡ slots laws (w.heap j)
    unfolding execute
    slots-execute s [] w blocks keeps j = refl
    slots-execute s (r ∷ rs) w blocks keeps j =
        (rounds-Holds laws env do_on req blocks keeps (λ i. share laws (w.heap i))
          (λ i. slots laws (w.heap i)) (round_count s.max_retries) s (r ∷ rs) none w
          (λ i. (refl, refl)) j).0
