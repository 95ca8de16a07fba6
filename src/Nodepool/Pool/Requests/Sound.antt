-- ===== src/Nodepool/Pool/Requests/Sound.antt =====
-- What one request on a pool does to its nodes.
use go_lib.Base.{
  if◌then◌else◌, occurrences, ◌&&◌, inr, sym, ap, ◌∙◌, ◌*◌, inl, ◌+◌, nat_beq, ◌≤◌, nat_beq_iff,
  Bool-cases, ◌∷◌, refl, ◌≡◌, arith, ℕ,
}
use go_lib.Nodepool.Types.{Platform, NodeStatus, success, fail, biz_error, Classifier, Request}
use go_lib.Nodepool.Node.{Node}
use go_lib.Nodepool.Node.Slots.{slots-eq, SemaphoreLaws, BlockingLaws, slots}
use go_lib.Nodepool.Node.Health.{
  is_available, try_transition_to_half_open, record_success, record_failure, record_biz_error,
}
use go_lib.Nodepool.World.{World, Env, store, next_tick}
use go_lib.Nodepool.World.Slots.{KeepsSlots}
use go_lib.Nodepool.Strategy.Conservative.Quota.{SendsOnce, sent_count, sent-execute-le}
use go_lib.Nodepool.Strategy.Conservative.Balance.{slots-execute}
use go_lib.Nodepool.Strategy.Conservative.{Conservative, round_count}
use go_lib.Nodepool.Strategy.Race.Balance.{slots-race_execute}
use go_lib.Nodepool.Pool.{is_some, length, List, Pool, Strategy, conservative, race}
use go_lib.Nodepool.Pool.Requests.{
  ℤ, record_outcome, send, do_on_node, execute_strategy, do_with_status,
}
use mathlib.Core.Option

module _ ⦃p : Platform⦄ where
  -- Recording an outcome leaves the limits of a node alone.
  conc_sem-record_outcome :
      (st : NodeStatus) (now : ℕ) (d : ℤ) (n : Node)
      → (record_outcome st now d n).conc_sem ≡ n.conc_sem
  unfolding record_outcome record_success record_failure record_biz_error
  conc_sem-record_outcome success now d n = ground arith
  conc_sem-record_outcome fail now d n = ground arith
  conc_sem-record_outcome biz_error now d n = refl

  conc_sem-try_transition :
      (now : ℕ) (n : Node) → (try_transition_to_half_open now n).1.conc_sem ≡ n.conc_sem
  unfolding try_transition_to_half_open
  conc_sem-try_transition now n = ground arith

  module _ (env : Env) where
    conc_sem-send :
        (c : Classifier) (w : World) (r : ℕ) (req : Request) (j : ℕ)
        → ((send env c w r req).1.heap j).conc_sem ≡ (w.heap j).conc_sem
    unfolding send
    conc_sem-send c w r req j = elim (Bool-cases (nat_beq j r)) [
      | inl same ↦ rw same (
          conc_sem-record_outcome _ _ _ (w.heap r)
          ∙ ap (λ k. (w.heap k).conc_sem) (sym ((nat_beq_iff j r).0 same)))
      | inr other ↦ rw other
    ]

    conc_sem-do_on_node :
        (c : Classifier) (w : World) (r : ℕ) (req : Request) (j : ℕ)
        → ((do_on_node env c w r req).1.heap j).conc_sem ≡ (w.heap j).conc_sem
    unfolding do_on_node
    conc_sem-do_on_node c w r req j =
        let tried = try_transition_to_half_open (env.now w.tick) (w.heap r) in
        ground (
          arith,
          conc_sem-try_transition (env.now w.tick) (w.heap r),
          conc_sem-send c (store r tried.1 (next_tick w)) r req j,
          nat_beq_iff j r,
        )

    do_on_node-SendsOnce : (c : Classifier) (req : Request) → SendsOnce (do_on_node env c) req
    unfolding do_on_node send
    do_on_node-SendsOnce c req w r = ground arith

    -- An attempt sends its request, to the node's own endpoint, exactly when the node is available
    -- at that instant. Its status is what the node's own classifier, or else the pool's, makes of the
    -- response and the error that it returns, and a node failure if nothing was sent; it has a
    -- response exactly if it was sent and the transport gave one.
    pub sent-do_on_node :
        (c : Classifier) (w : World) (r : ℕ) (req : Request)
        → let a = do_on_node env c w r req in
          let open_now = is_available (env.now w.tick) (w.heap r) in
          (a.1.sent ≡ (if open_now then ((w.heap r).config.endpoint, req) ∷ w.sent else w.sent))
          × (a.0.status ≡ (
              if open_now
              then Option.get_or
                  (w.heap r).config.classifier
                  c
                  (w.heap r).config.endpoint
                  a.0.response
                  a.0.error
              else fail))
          × (is_some a.0.response
              ≡ (open_now && is_some (env.transport (w.tick + 2) (w.heap r).config.endpoint req).0))
    unfolding do_on_node send try_transition_to_half_open is_available
    sent-do_on_node c w r req = ground arith

    module _ (laws : SemaphoreLaws) where
      do_on_node-KeepsSlots : (c : Classifier) → KeepsSlots laws (do_on_node env c)
      do_on_node-KeepsSlots c w r req j =
          slots-eq laws ((do_on_node env c w r req).1.heap j) (w.heap j)
            (conc_sem-do_on_node c w r req j)

      execute_strategy-KeepsSlots :
          (s : Strategy) (c : Classifier) (rs : List ℕ) (w : World) (req : Request)
          → ((tick : ℕ) → BlockingLaws laws (env.blocking tick))
          → ((us : List ℕ) (j : ℕ) → occurrences j (env.finish_order us) ≡ occurrences j us)
          → (j : ℕ)
          → slots laws ((execute_strategy env s (do_on_node env c) rs req w).1.heap j)
            ≡ slots laws (w.heap j)
      unfolding execute_strategy
      execute_strategy-KeepsSlots (conservative s) c rs w req blocks perm =
          slots-execute laws env (do_on_node env c) req s rs w blocks (do_on_node-KeepsSlots c)
      execute_strategy-KeepsSlots (race s) c rs w req blocks perm =
          slots-race_execute laws env (do_on_node env c) req s rs w blocks perm
            (do_on_node-KeepsSlots c)

      -- If the semaphores behave as documented, every call of the transport returns and does not
      -- panic, and the attempts of a race all finish, in any order, then a request on a pool of
      -- either strategy ends with as many slots held at every node as it began with, whether it is
      -- answered or fails.
      pub slots-do_with_status :
          (q : Pool) (req : Request)
          → ((tick : ℕ) → BlockingLaws laws (env.blocking tick))
          → ((us : List ℕ) (j : ℕ) → occurrences j (env.finish_order us) ≡ occurrences j us)
          → (j : ℕ) → slots laws ((do_with_status env q req).1.heap j) ≡ slots laws (q.world.heap j)
      unfolding do_with_status
      slots-do_with_status q req blocks perm =
          execute_strategy-KeepsSlots q.strategy q.classifier q.nodes q.world req blocks perm

    -- A request on a pool with the conservative strategy is sent at most once per node and round:
    -- `maxRetries` and one times the number of nodes.
    pub sent-do_with_status-le :
        (q : Pool) (s : Conservative) (req : Request)
        → q.strategy ≡ conservative s
        → sent_count (do_with_status env q req).1
          ≤ sent_count q.world + round_count s.max_retries * length q.nodes
    unfolding do_with_status execute_strategy
    sent-do_with_status-le q s req e =
        rw (e, do_with_status, execute_strategy)
          (sent-execute-le env (do_on_node env q.classifier) req s q.nodes q.world
            (do_on_node-SendsOnce q.classifier req))
