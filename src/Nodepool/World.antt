-- ===== src/Nodepool/World.antt =====
-- What a call of the pool sees and changes: the nodes behind their pointers, the requests sent so
-- far, and, tick by tick, what the clock, the context, the transport and the scheduler answer.
pub mod Slots
use go_lib.Base.{ℕ, ◌+◌, ℤ, Bool, Option, none, List, ◌∷◌, String, nat_beq, if◌then◌else◌}
use go_lib.Nodepool.Types.{Platform, NodeStatus, success, fail, biz_error, Error, Request, Response}
use go_lib.Nodepool.Node.{Node, Blocking, try_acquire, acquire, release}
use go_lib.Nodepool.Node.Health.{is_available}

module _ ⦃p : Platform⦄ where
  open p use {Failure}

  -- Every question asked of the environment takes the next tick.
  pub record Env : Type 0 where
    pub now : ℕ → ℕ
    pub ctx_err : ℕ → Option Failure
    pub blocking : ℕ → Blocking
    pub transport : ℕ → String → Request → Option Response × Option Failure
    -- in which order the attempts of a race finish
    pub finish_order : List ℕ → List ℕ
    -- whether an attempt of a race sees the cancelled context instead of handing its result over
    pub dropped : ℕ → Bool

  pub record World : Type 0 where
    pub heap : ℕ → Node
    pub tick : ℕ
    pub sent : List (String × Request)

  -- What `DoFunc` and `Strategy.Execute` return.
  pub record Outcome : Type 0 where
    pub response : Option Response
    pub status : NodeStatus
    pub error : Option Error

  -- The error that goes with a status that decides a request: none on success, and else the
  -- attempt's own.
  abbrev pub error_for : NodeStatus → Option Error → Option Error
  error_for success e = none
  error_for fail e = e
  error_for biz_error e = e

  abbrev pub DoFunc : Type 0
  DoFunc = World → ℕ → Request → Outcome × World

  abbrev pub store : ℕ → Node → World → World
  store r n w = record w { heap = λ j. if nat_beq j r then n else w.heap j }

  abbrev pub next_tick : World → World
  next_tick w = record w { tick = w.tick + 1 }

  module _ (env : Env) where
    -- The methods of the node at a pointer, with their reads of the clock.
    unfoldable pub available_at : ℕ → World → Bool × World
    available_at r w = (is_available (env.now w.tick) (w.heap r), next_tick w)

    unfoldable pub try_acquire_at : ℕ → World → Bool × World
    try_acquire_at r w =
        let (ok, n) = try_acquire (env.now w.tick) (w.heap r) in (ok, store r n (next_tick w))

    unfoldable pub acquire_at : ℕ → World → Option Failure × World
    acquire_at r w =
        let (err, n) = acquire (env.blocking w.tick) (w.heap r) in (err, store r n (next_tick w))

  unfoldable pub release_at : ℕ → World → World
  release_at r w = store r (release (w.heap r)) w
