-- ===== src/Nodepool/Strategy/Conservative.antt =====
-- conservativeStrategy: nodes one by one, in order, for some rounds. `do` is taken to return: the
-- release after it is not deferred, and a panic of the transport would leave the slot held.
pub mod Balance
pub mod Answer
pub mod Quota
use go_lib.Base.{
  ℕ, zero, suc, ℤ, pos, negsuc, Bool, true, false, List, [], ◌∷◌, ◌++◌, Option, none, some, is_some,
  leb_ℤ, if◌then◌else◌, not,
}
use go_lib.Nodepool.Types.{
  Platform, NodeStatus, success, fail, biz_error, Error, external, all_throttled, no_available,
  all_attempts_failed, exhausted, Request,
}
use go_lib.Nodepool.World.{
  World, Env, DoFunc, Outcome, available_at, try_acquire_at, acquire_at, release_at, next_tick,
}

pub record Conservative : Type 0 where
  pub max_retries : ℤ
  pub wait_on_throttle : Bool

unfoldable pub new_conservative : ℤ → Bool → Conservative
new_conservative max_retries wait = record {
  max_retries = if leb_ℤ max_retries (pos 0) then pos 1 else max_retries;
  wait_on_throttle = wait;
}

-- How often `for round := 0; round <= maxRetries; round++` runs.
abbrev pub round_count : ℤ → ℕ
round_count (pos n) = suc n
round_count (negsuc n) = 0

module _ ⦃p : Platform⦄ where
  -- The variables of a round.
  pub record Round : Type 0 where
    pub last_err : Option Error
    pub any_attempted : Bool
    pub throttled : List ℕ

  -- A part of the loop returns from `Execute` or goes on.
  pub data Flow : Type 0 where
    returned : Outcome → World → Flow
    continued : Round → World → Flow

  -- What follows a part of the loop runs only if that part goes on.
  unfoldable pub and_then : Flow → (Round → World → Flow) → Flow
  and_then (returned o w) k = returned o w
  and_then (continued l w) k = k l w

  unfoldable pub or_else : Flow → (Round → World → Outcome × World) → Outcome × World
  or_else (returned o w) k = (o, w)
  or_else (continued l w) k = k l w

  abbrev pub failed : Error → Outcome
  failed e = record { response = none; status = fail; error = some e }

  -- The switch on the status of an attempt.
  unfoldable pub settle : Outcome → Round → World → Flow
  settle o l w = elim o.status [
    | success ↦ returned (record o { error = none }) w
    | biz_error ↦ returned o w
    | fail ↦ continued (record l { last_err = o.error }) w
  ]

  module _ (env : Env) (do_on : DoFunc) (req : Request) where
    -- `do` on a node that was acquired, and its release.
    unfoldable pub attempt : ℕ → World → Outcome × World
    attempt r w = let (o, w₁) = do_on w r req in (o, release_at r w₁)

    -- The body of the loop over the nodes.
    unfoldable pub visit : ℕ → Round → World → Flow
    unfolding attempt settle
    visit r l w =
        let (available, w₁) = available_at env r w in
        if not available
        then continued l w₁
        else let (ok, w₂) = try_acquire_at env r w₁ in
          if not ok
          then continued (record l { throttled = l.throttled ++ r ∷ [] }) w₂
          else let (o, w₃) = attempt r w₂ in settle o (record l { any_attempted = true }) w₃

    unfoldable pub visit_all : List ℕ → Round → World → Flow
    unfolding and_then
    visit_all [] l w = continued l w
    visit_all (r ∷ rs) l w = and_then (visit r l w) (visit_all rs)

    -- Waiting for the first throttled node.
    unfoldable pub wait_for : ℕ → Round → World → Flow
    unfolding attempt settle
    wait_for r l w =
        let (err, w₁) = acquire_at env r w in
        let (o, w₂) = attempt r w₁ in
        elim err [
          | some e ↦ continued (record l { last_err = some (external e) }) w₁
          | none ↦ settle o l w₂
        ]

    -- What follows the loop over the nodes, given the throttled ones.
    unfoldable pub after_throttled : Conservative → List ℕ → Round → World → Flow
    after_throttled s [] l w = continued l w
    after_throttled s (best ∷ _) l w =
        if l.any_attempted
        then continued l w
        else if s.wait_on_throttle
        then wait_for best l w
        else if is_some l.last_err
        then continued l w
        else continued (record l { last_err = some all_throttled }) w

    unfoldable pub after_visits : Conservative → Round → World → Flow
    unfolding after_throttled
    after_visits s l w = after_throttled s l.throttled l w

    unfoldable pub round : Conservative → List ℕ → Option Error → World → Flow
    unfolding and_then
    round s nodes last_err w =
        let start : Round = record { last_err = last_err; any_attempted = false; throttled = [] } in
        elim (env.ctx_err w.tick) [
          | some e ↦ returned (failed (external e)) (next_tick w)
          | none ↦ and_then (visit_all nodes start (next_tick w)) (after_visits s)
        ]

    -- The rounds left, and then the error of a loop that ended.
    unfoldable pub rounds : ℕ → Conservative → List ℕ → Option Error → World → Outcome × World
    unfolding or_else
    rounds zero s nodes last_err w =
        (failed (exhausted (elim last_err [ none ↦ all_attempts_failed | some e ↦ e ])), w)
    rounds (suc k) s nodes last_err w =
        or_else (round s nodes last_err w) (λ l. rounds k s nodes l.last_err)

    unfoldable pub execute : Conservative → List ℕ → World → Outcome × World
    execute s [] w = (failed no_available, w)
    execute s (r ∷ rs) w = rounds (round_count s.max_retries) s (r ∷ rs) none w
