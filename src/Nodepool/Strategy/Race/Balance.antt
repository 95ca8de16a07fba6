-- ===== src/Nodepool/Strategy/Race/Balance.antt =====
-- The slots that are held in the course of a race.
use go_lib.Base.{
  occurrences, occurrences-append, refl, Option-cases, inr, inl, take-append-drop, ap, Bool-cases,
  ◌≡◌, ◌*◌, ◌++◌, [], arith, ◌∷◌, ◌+◌, ℕ,
}
use go_lib.Nodepool.Types.{Request, Platform}
use go_lib.Nodepool.Node.Slots.{share, slots, BlockingLaws, SemaphoreLaws}
use go_lib.Nodepool.World.{acquire_at, try_acquire_at, available_at, DoFunc, Env, World, release_at}
use go_lib.Nodepool.World.Slots.{
  acquire_at-Holds, plus, try_acquire_at-Holds, available_at-Holds, KeepsSlots, Holds,
  release_at-Holds,
}
use go_lib.Nodepool.Strategy.Race.{
  none_acquired, launch, execute, drop, take, length, racers, Race, sort_nodes, race, Sorted,
  sort_node, run_all, attempt, release_all, List,
}

module _ ⦃p : Platform⦄ (laws : SemaphoreLaws) (sh base : ℕ → ℕ) where
  -- Beside `base`, the callers at `rs` hold their shares.
  abbrev HoldsFor : List ℕ → World → Type 0
  HoldsFor rs w = Holds laws sh (λ j. base j + occurrences j rs * sh j) w

  release_one :
      (r : ℕ) (rs : List ℕ) (w : World) → HoldsFor (r ∷ rs) w → HoldsFor rs (release_at r w)
  release_one r rs w h =
      release_at-Holds laws sh (λ j. base j + occurrences j rs * sh j) r w
        (λ j. ground (arith, h j))

  release_all-Holds :
      (rs ts : List ℕ) (w : World) → HoldsFor (rs ++ ts) w → HoldsFor ts (release_all rs w)
  unfolding release_all
  release_all-Holds [] ts w h = h
  release_all-Holds (r ∷ rs) ts w h =
      release_all-Holds rs ts (release_at r w) (release_one r (rs ++ ts) w h)

  module _ (env : Env) (do_on : DoFunc) (req : Request) (keeps : KeepsSlots laws do_on) where
    attempt-Holds :
        (r : ℕ) (rs : List ℕ) (w : World)
        → HoldsFor (r ∷ rs) w
        → HoldsFor rs (attempt env do_on req r w).1
    unfolding attempt
    attempt-Holds r rs w h =
        release_one r rs (do_on w r req).1 (λ j. ground (arith, h j, keeps w r req j))

    run_all-Holds :
        (rs : List ℕ) (w : World) → HoldsFor rs w → HoldsFor [] (run_all env do_on req rs w).1
    unfolding run_all
    run_all-Holds [] w h = h
    run_all-Holds (r ∷ rs) w h =
        run_all-Holds rs (attempt env do_on req r w).1 (attempt-Holds r rs w h)

    sort_node-Holds :
        (r : ℕ) (s : Sorted) (w : World)
        → HoldsFor s.acquired w
        → let (s₁, w₁) = sort_node env do_on req r s w in HoldsFor s₁.acquired w₁
    unfolding sort_node
    sort_node-Holds r s w h =
        let base' : ℕ → ℕ = λ j. base j + occurrences j s.acquired * sh j in
        let w₁ = (available_at env r w).1 in
        let seen = available_at-Holds laws env sh base' r w h in
        let held = try_acquire_at-Holds laws env sh base' r w₁ seen in
        elim (Bool-cases (try_acquire_at env r w₁).0) [
          | inl ok ↦
              let given : Holds laws sh (plus laws sh base' r) (try_acquire_at env r w₁).1 =
                rw ok at held in
              λ j. ground (arith, seen j, given j, occurrences-append j s.acquired (r ∷ []))
          | inr refused ↦
              let kept : Holds laws sh base' (try_acquire_at env r w₁).1 = rw refused at held in
              λ j. ground (arith, seen j, kept j)
        ]

    sort_nodes-Holds :
        (rs : List ℕ) (s : Sorted) (w : World)
        → HoldsFor s.acquired w
        → let (s₁, w₁) = sort_nodes env do_on req rs s w in HoldsFor s₁.acquired w₁
    unfolding sort_nodes
    sort_nodes-Holds [] s w h = h
    sort_nodes-Holds (r ∷ rs) s w h =
        let (s₁, w₁) = sort_node env do_on req r s w in
        sort_nodes-Holds rs s₁ w₁ (sort_node-Holds r s w h)

    race-Holds :
        (s : Race) (rs : List ℕ) (w : World)
        → ((ts : List ℕ) (j : ℕ) → occurrences j (env.finish_order ts) ≡ occurrences j ts)
        → HoldsFor rs w
        → HoldsFor [] (race env do_on req s rs w).1
    unfolding race
    race-Holds s rs w perm h =
        let n = racers s.concurrency (length rs) in
        let split : HoldsFor (drop n rs ++ take n rs) w = λ j. ground (
          arith,
          h j,
          ap (occurrences j) (take-append-drop n rs),
          occurrences-append j (take n rs) (drop n rs),
          occurrences-append j (drop n rs) (take n rs),
        ) in
        let spare = release_all-Holds (drop n rs) (take n rs) w split in
        run_all-Holds (env.finish_order (take n rs)) (release_all (drop n rs) w)
          (λ j. ground (arith, spare j, perm (take n rs) j))

    none_acquired-Holds :
        (s : Race) (ts : List ℕ) (w : World)
        → ((tick : ℕ) → BlockingLaws laws (env.blocking tick))
        → HoldsFor [] w
        → HoldsFor [] (none_acquired env do_on req s ts w).1
    unfolding none_acquired
    none_acquired-Holds s [] w blocks h = h
    none_acquired-Holds s (best ∷ ts) w blocks h =
        let base' : ℕ → ℕ = λ j. base j + occurrences j [] * sh j in
        let w₁ = (acquire_at env best w).1 in
        let held = acquire_at-Holds laws env sh base' best w h (blocks w.tick) in
        elim (Option-cases (acquire_at env best w).0) [
          | inl ok ↦
              let given : Holds laws sh (plus laws sh base' best) w₁ = rw ok at held in
              let done = attempt-Holds best [] w₁ (λ j. ground (arith, given j)) in
              λ j. ground (arith, h j, done j)
          | inr (e, refused) ↦
              let kept : Holds laws sh base' w₁ = rw refused at held in
              λ j. ground (arith, h j, kept j)
        ]

    launch-Holds :
        (s : Race) (rs ts : List ℕ) (w : World)
        → ((tick : ℕ) → BlockingLaws laws (env.blocking tick))
        → ((us : List ℕ) (j : ℕ) → occurrences j (env.finish_order us) ≡ occurrences j us)
        → HoldsFor rs w
        → HoldsFor [] (launch env do_on req s rs ts w).1
    unfolding launch
    launch-Holds s [] ts w blocks perm h = none_acquired-Holds s ts w blocks h
    launch-Holds s (r ∷ rs) ts w blocks perm h = race-Holds s (r ∷ rs) w perm h

module _ ⦃p : Platform⦄ (laws : SemaphoreLaws) (env : Env) (do_on : DoFunc) (req : Request) where
  -- If the semaphores behave as documented, `do` leaves them alone, and the attempts of a race all
  -- finish, in any order, then a call of the race strategy ends with as many slots held at every
  -- node as it began with: those of the racers, of the nodes beyond the concurrency limit, and of a
  -- node that was waited for are all given back.
  pub slots-race_execute :
      (s : Race) (rs : List ℕ) (w : World)
      → ((tick : ℕ) → BlockingLaws laws (env.blocking tick))
      → ((us : List ℕ) (j : ℕ) → occurrences j (env.finish_order us) ≡ occurrences j us)
      → KeepsSlots laws do_on
      → (j : ℕ) → slots laws ((execute env do_on req s rs w).1.heap j) ≡ slots laws (w.heap j)
  unfolding execute
  slots-race_execute s rs w blocks perm keeps j =
      let sh = λ (i : ℕ). share laws (w.heap i) in
      let base = λ (i : ℕ). slots laws (w.heap i) in
      let none_yet : Sorted = record { acquired = []; throttled = [] } in
      let (sorted, w₁) = sort_nodes env do_on req rs none_yet w in
      let held =
        sort_nodes-Holds laws sh base env do_on req keeps rs none_yet w
          (λ i. (omega arith, refl)) in
      let done =
        launch-Holds laws sh base env do_on req keeps s sorted.acquired sorted.throttled w₁ blocks
          perm held j in
      omega (arith, done.0)
