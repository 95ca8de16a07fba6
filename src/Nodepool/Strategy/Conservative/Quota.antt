-- ===== src/Nodepool/Strategy/Conservative/Quota.antt =====
-- How many attempts the conservative strategy makes at most.
use go_lib.Base.{
  zero, [], inr, inl, ◌<◌, ◌*◌, Option-cases, subst, ◌∷◌, ◌+◌, Option, List, arith, false, ◌≡◌, suc,
  ◌≤◌, length, ℕ,
}
use go_lib.Nodepool.Types.{Error, Platform, Request}
use go_lib.Nodepool.World.{
  next_tick, Outcome, acquire_at, World, Env, DoFunc, available_at, try_acquire_at, release_at,
}
use go_lib.Nodepool.Strategy.Conservative.{
  none, round_count, or_else, execute, after_visits, settle, attempt, wait_for, Conservative,
  visit_all, rounds, round, and_then, after_throttled, Round, Flow, returned, continued, visit,
}

module _ ⦃p : Platform⦄ where
  abbrev pub sent_count : World → ℕ
  sent_count w = length w.sent

  -- What a `DoFunc` must do: send one request at most.
  abbrev pub SendsOnce : DoFunc → Request → Type 0
  SendsOnce do_on req = (w : World) (r : ℕ) → sent_count (do_on w r req).1 ≤ suc (sent_count w)

module _ ⦃p : Platform⦄ (env : Env) (do_on : DoFunc) (req : Request) where
  -- At most `n` requests are sent in all, and none if a round goes on with nothing attempted.
  abbrev Sends : ℕ → ℕ → Flow → Type 0
  Sends m n (returned o w) = sent_count w ≤ n
  Sends m n (continued l w) = (sent_count w ≤ n) × (l.any_attempted ≡ false → sent_count w ≤ m)

  module _ (once : SendsOnce do_on req) where
    visit-Sends :
        (m n r : ℕ) (l : Round) (w : World)
        → sent_count w ≤ n
        → (l.any_attempted ≡ false → sent_count w ≤ m)
        → Sends m (suc n) (visit env do_on req r l w)
    unfolding visit available_at try_acquire_at release_at
    visit-Sends m n r l w h i =
        ground (arith, once (try_acquire_at env r (available_at env r w).1).1 r)

    and_then-Sends :
        (m n n' : ℕ) (f : Flow) (k : Round → World → Flow)
        → n ≤ n'
        → Sends m n f
        → ((l : Round) (w : World)
            → sent_count w ≤ n
            → (l.any_attempted ≡ false → sent_count w ≤ m)
            → Sends m n' (k l w))
        → Sends m n' (and_then f k)
    unfolding and_then
    and_then-Sends m n n' (returned o w) k le h next = omega arith
    and_then-Sends m n n' (continued l w) k le h next = next l w h.0 h.1

    and_then-Sends_to :
        (m n : ℕ) (f : Flow) (k : Round → World → Flow)
        → Sends m n f
        → ((l : Round) (w : World)
            → sent_count w ≤ n
            → (l.any_attempted ≡ false → sent_count w ≤ m)
            → Sends n n (k l w))
        → Sends n n (and_then f k)
    unfolding and_then
    and_then-Sends_to m n (returned o w) k h next = h
    and_then-Sends_to m n (continued l w) k h next = next l w h.0 h.1

    or_else-le :
        (n n' : ℕ) (f : Flow) (k : Round → World → Outcome × World)
        → n ≤ n'
        → Sends n n f
        → ((l : Round) (w : World) → sent_count w ≤ n → sent_count (k l w).1 ≤ n')
        → sent_count (or_else f k).1 ≤ n'
    unfolding or_else
    or_else-le n n' (returned o w) k le h next = omega arith
    or_else-le n n' (continued l w) k le h next = next l w h.0

    visit_all-Sends :
        (m n : ℕ) (rs : List ℕ) (l : Round) (w : World)
        → sent_count w ≤ n
        → (l.any_attempted ≡ false → sent_count w ≤ m)
        → Sends m (n + length rs) (visit_all env do_on req rs l w)
    unfolding visit_all
    visit_all-Sends m n [] l w h i = (omega arith, i)
    visit_all-Sends m n (r ∷ rs) l w h i =
        subst (λ k. Sends m k (visit_all env do_on req (r ∷ rs) l w)) (omega arith)
          (and_then-Sends m (suc n) (suc n + length rs) (visit env do_on req r l w)
            (visit_all env do_on req rs) (omega arith) (visit-Sends m n r l w h i)
            (visit_all-Sends m (suc n) rs))

    after_throttled-Sends :
        (m n : ℕ) (s : Conservative) (ts : List ℕ) (l : Round) (w : World)
        → m < n
        → sent_count w ≤ n
        → (l.any_attempted ≡ false → sent_count w ≤ m)
        → Sends n n (after_throttled env do_on req s ts l w)
    unfolding after_throttled wait_for attempt settle acquire_at release_at
    after_throttled-Sends m n s [] l w lt h i = (h, λ _. h)
    after_throttled-Sends m n s (best ∷ ts) l w lt h i =
        ground (arith, once (acquire_at env best w).1 best)

    round-Sends :
        (m : ℕ) (s : Conservative) (r : ℕ) (rs : List ℕ) (e : Option Error) (w : World)
        → sent_count w ≤ m
        → let n = m + suc (length rs) in Sends n n (round env do_on req s (r ∷ rs) e w)
    unfolding round after_visits
    round-Sends m s r rs e w h = elim (Option-cases (env.ctx_err w.tick)) [
      | inl live ↦
          let n = m + suc (length rs) in
          rw (live, round)
            (and_then-Sends_to m n (visit_all env do_on req (r ∷ rs) _ (next_tick w))
              (after_visits env do_on req s)
              (visit_all-Sends m m (r ∷ rs) _ (next_tick w) h (λ _. h))
              (λ l w₁. after_throttled-Sends m n s l.throttled l w₁ (omega arith)))
      | inr (x, over) ↦ rw (over, round) (omega arith)
    ]

    rounds-le :
        (m k : ℕ) (s : Conservative) (r : ℕ) (rs : List ℕ) (e : Option Error) (w : World)
        → sent_count w ≤ m
        → sent_count (rounds env do_on req k s (r ∷ rs) e w).1 ≤ m + k * suc (length rs)
    unfolding rounds
    rounds-le m zero s r rs e w h = omega arith
    rounds-le m (suc k) s r rs e w h =
        let n = m + suc (length rs) in
        or_else-le n (m + suc k * suc (length rs)) (round env do_on req s (r ∷ rs) e w)
          (λ l. rounds env do_on req k s (r ∷ rs) l.last_err) (omega arith)
          (round-Sends m s r rs e w h)
          (λ l w₁ g. let rest = rounds-le n k s r rs l.last_err w₁ g in omega (arith, rest))

  -- If `do` sends one request at most, a call of the conservative strategy sends at most one per
  -- node and round: no more than the rounds, `maxRetries` and one, times the number of nodes.
  pub sent-execute-le :
      (s : Conservative) (rs : List ℕ) (w : World)
      → SendsOnce do_on req
      → sent_count (execute env do_on req s rs w).1
        ≤ sent_count w + round_count s.max_retries * length rs
  unfolding execute
  sent-execute-le s [] w once = omega arith
  sent-execute-le s (r ∷ rs) w once =
      rounds-le once (sent_count w) (round_count s.max_retries) s r rs none w (omega arith)
