-- ===== src/Nodepool/Pool/Many.antt =====
-- provider/nodepool/pool.go: DoMulti and DoUntilComplete. The goroutines of a call run one after the
-- other, in the order of the requests.
pub mod Ticks
pub mod Ends
use go_lib.Base.{
  ℕ, zero, suc, ◌+◌, ◌*◌, Bool, true, false, not, ◌&&◌, List, [], ◌∷◌, Option, none, some, ltb,
  if◌then◌else◌,
}
use go_lib.Nodepool.Types.{
  Platform, NodeStatus, success, fail, biz_error, Error, external, Request, Response,
}
use go_lib.Nodepool.World.{World, Env, Outcome, next_tick}
use go_lib.Nodepool.Pool.{Pool}
use go_lib.Nodepool.Pool.Requests.{do_request, do_with_status}

module _ ⦃p : Platform⦄ where
  open p use {Failure}

  -- A request, what the two slices hold for it, and whether it is among the pending ones.
  pub record Slot : Type 0 where
    pub request : Request
    pub response : Option Response
    pub error : Option Error
    pub pending : Bool

  abbrev pub pending_slot : Request → Slot
  pending_slot req = record { request = req; response = none; error = none; pending = true }

  -- What the switch on the status writes.
  unfoldable pub write_slot : Outcome → Slot → Slot
  write_slot o s = elim o.status [
    | success ↦ record s { response = o.response; pending = false }
    | biz_error ↦ record s { response = o.response; error = o.error; pending = false }
    | fail ↦ s
  ]

  abbrev pub any_pending : List Slot → Bool
  any_pending [] = false
  any_pending (s ∷ ss) = if s.pending then true else any_pending ss

  -- `errs[idx] = ctx.Err()` for every pending request.
  abbrev pub cancel : Failure → List Slot → List Slot
  cancel e [] = []
  cancel e (s ∷ ss) =
      (if s.pending then record s { error = some (external e) } else s) ∷ cancel e ss

  -- The wait before a round, in milliseconds.
  unfoldable pub backoff : ℕ → ℕ
  backoff round = if ltb 5000 (round * 500) then 5000 else round * 500

  module _ (env : Env) where
    unfoldable pub do_multi : Pool → List Request → List (Option Response × Option Error) × World
    do_multi q [] = ([], q.world)
    do_multi q (r ∷ rs) =
        let (resp, err, w) = do_request env q r in
        let (answers, w') = do_multi (record q { world = w }) rs in ((resp, err) ∷ answers, w')

    -- One round over the pending requests.
    unfoldable pub sweep : Pool → List Slot → World → List Slot × World
    unfolding write_slot
    sweep q [] w = ([], w)
    sweep q (s ∷ ss) w =
        let (o, w₁) = do_with_status env (record q { world = w }) s.request in
        let after : World = if s.pending then w₁ else w in
        let (rest, w₂) = sweep q ss after in ((if s.pending then write_slot o s else s) ∷ rest, w₂)

    -- The error of the context in the wait before a round, none in the first.
    unfoldable pub interrupted : ℕ → World → Option Failure
    interrupted zero w = none
    interrupted (suc round) w = env.ctx_err w.tick

    -- The loop from a round on: the slots, the world, and the time waited; none if the fuel ran out.
    unfoldable pub complete_from :
        ℕ → Pool → ℕ → ℕ → List Slot → World → Option (List Slot × World × ℕ)
    unfolding sweep interrupted backoff
    complete_from zero q round waited ss w = none
    complete_from (suc fuel) q round waited ss w =
        let w₁ = next_tick w in
        let w₂ = next_tick w₁ in
        let swept = sweep q ss w₂ in
        let rest = complete_from fuel q (suc round) (waited + backoff round) swept.0 swept.1 in
        elim (any_pending ss) [
          | false ↦ some (ss, w, waited)
          | true ↦ elim (env.ctx_err w.tick) [
            | some e ↦ some (cancel e ss, w₁, waited)
            | none ↦ elim (interrupted round w₁) [
              | some e ↦ some (cancel e ss, w₂, waited)
              | none ↦ rest
            ]
          ]
        ]

    abbrev slots_for : List Request → List Slot
    slots_for [] = []
    slots_for (r ∷ rs) = pending_slot r ∷ slots_for rs

    -- `DoUntilComplete`.
    unfoldable pub do_until_complete : ℕ → Pool → List Request → Option (List Slot × World × ℕ)
    unfolding complete_from
    do_until_complete fuel q reqs = complete_from fuel q 0 0 (slots_for reqs) q.world
