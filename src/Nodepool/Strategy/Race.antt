-- ===== src/Nodepool/Strategy/Race.antt =====
-- raceStrategy: the nodes that let the request in get it at once, and the first answer wins. The
-- attempts are followed one by one in the order in which the environment lets them finish, those
-- after the winner too; the final state is the one in which every goroutine has ended.
pub mod Balance
pub mod Winner
pub mod Answer
use go_lib.Base.{
  Option, pos_part, ◌&&◌, take, ◌++◌, pos, drop, ◌∷◌, some, not, ltb_ℤ, length, [], Bool, ℤ, none,
  if◌then◌else◌, List, ℕ, suc,
}
use go_lib.Nodepool.Types.{
  Errors, no_errors, and_error, Platform, NodeStatus, success, fail, biz_error, Error, external,
  all_throttled, no_available, race_failed, Request,
}
use go_lib.Nodepool.World.{
  World, Env, DoFunc, Outcome, available_at, try_acquire_at, acquire_at, release_at,
}

pub record Race : Type 0 where
  pub concurrency : ℤ
  pub wait_on_throttle : Bool

unfoldable pub new_race : ℤ → Bool → Race
new_race concurrency wait = record { concurrency = concurrency; wait_on_throttle = wait }

module _ ⦃p : Platform⦄ where
  pub record Sorted : Type 0 where
    pub acquired : List ℕ
    pub throttled : List ℕ

  abbrev failed : Error → Outcome
  failed e = record { response = none; status = fail; error = some e }

  -- How many of the acquired nodes race.
  unfoldable pub racers : ℤ → ℕ → ℕ
  racers concurrency n =
      if ltb_ℤ (pos 0) concurrency && ltb_ℤ concurrency (pos n) then pos_part concurrency else n

  unfoldable pub release_all : List ℕ → World → World
  release_all [] w = w
  release_all (r ∷ rs) w = release_all rs (release_at r w)

  abbrev pub append_error : Errors → Option Error → Errors
  append_error errs none = errs
  append_error errs (some e) = and_error errs e

  -- The loop that reads the results: the first that is no node failure, or else every message.
  unfoldable pub collect : ℕ → Errors → List Outcome → Outcome
  collect n errs [] = failed (race_failed n errs)
  collect n errs (o ∷ os) =
      let rest = collect n (append_error errs o.error) os in
      elim o.status [ success ↦ record o { error = none } | biz_error ↦ o | fail ↦ rest ]

  module _ (env : Env) (do_on : DoFunc) (req : Request) where
    -- The body of the first loop.
    unfoldable pub sort_node : ℕ → Sorted → World → Sorted × World
    sort_node r s w =
        let (available, w₁) = available_at env r w in
        if not available
        then (s, w₁)
        else let (ok, w₂) = try_acquire_at env r w₁ in
          if not ok
          then (record s { throttled = s.throttled ++ r ∷ [] }, w₂)
          else (record s { acquired = s.acquired ++ r ∷ [] }, w₂)

    unfoldable pub sort_nodes : List ℕ → Sorted → World → Sorted × World
    sort_nodes [] s w = (s, w)
    sort_nodes (r ∷ rs) s w = let (s₁, w₁) = sort_node r s w in sort_nodes rs s₁ w₁

    -- A goroutine: the attempt, and the deferred release.
    unfoldable pub attempt : ℕ → World → Outcome × World
    attempt r w = let (o, w₁) = do_on w r req in (o, release_at r w₁)

    -- The attempts, and the results that reach the channel.
    unfoldable pub run_all : List ℕ → World → List Outcome × World
    unfolding attempt
    run_all [] w = ([], w)
    run_all (r ∷ rs) w =
        let (o, w₁) = attempt r w in
        let (os, w₂) = run_all rs w₁ in (if env.dropped w₁.tick then os else o ∷ os, w₂)

    -- No node let the request in.
    unfoldable pub none_acquired : Race → List ℕ → World → Outcome × World
    unfolding attempt
    none_acquired s [] w = (failed no_available, w)
    none_acquired s (best ∷ _) w =
        let (err, w₁) = acquire_at env best w in
        let answer = attempt best w₁ in
        let waited : Outcome × World = elim err [
          | some e ↦ (failed (external e), w₁)
          | none ↦ answer
        ] in
        if s.wait_on_throttle then waited else (failed all_throttled, w)

    unfoldable pub race : Race → List ℕ → World → Outcome × World
    unfolding racers release_all run_all collect
    race s acquired w =
        let n = racers s.concurrency (length acquired) in
        let w₁ = release_all (drop n acquired) w in
        let (os, w₂) = run_all (env.finish_order (take n acquired)) w₁ in
        (collect n no_errors os, w₂)

    -- The two cases of `len(acquired)`.
    unfoldable pub launch : Race → List ℕ → List ℕ → World → Outcome × World
    unfolding none_acquired race
    launch s [] throttled w = none_acquired s throttled w
    launch s (a ∷ rest) throttled w = race s (a ∷ rest) w

    unfoldable pub execute : Race → List ℕ → World → Outcome × World
    unfolding sort_nodes launch
    execute s nodes w =
        let (sorted, w₁) = sort_nodes nodes (record { acquired = []; throttled = [] }) w in
        launch s sorted.acquired sorted.throttled w₁
