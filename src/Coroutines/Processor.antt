-- ===== src/Coroutines/Processor.antt =====
-- common/coroutines/coroutines.go: ConcurrentProcessor, one step of one goroutine at a time. The
-- sender sends the items over a channel of capacity `limit` to `limit` workers.
pub mod Sound
use go_lib.Base.{
  ℕ, zero, suc, ◌+◌, ◌-◌, ◌≤◌, ◌<◌, ◌≡◌, ◌≢◌, refl, ◌⊎◌, inl, inr, Bool, true, false, not, ◌&&◌,
  ◌||◌, List, [], ◌∷◌, ◌++◌, Option, none, some, length, length-append, ltb, leb, if◌then◌else◌,
  Bool-cases, arith,
}
use mathlib.Core.List.{append_assoc, append-nil}

-- `left` is what the sender has not sent, `buffer` what is in the channel and `taken` what the
-- workers took, in order. Of the workers `idle` wait, `busy` process an item, `quit` returned and
-- `dead` were ended by a panic. `panicked` is a send on the closed channel or a second close.
pub record Processor {ℓ} (T : Type ℓ) : Type ℓ where
  pub limit : ℕ
  pub left : List T
  pub buffer : List T
  pub taken : List T
  pub ch_closed : Bool
  pub ctx_done : Bool
  pub idle : ℕ
  pub busy : ℕ
  pub quit : ℕ
  pub dead : ℕ
  pub returned : Bool
  pub panicked : Bool

-- What happens next: the context ends; the sender sends, gives up, or closes the channel after the
-- last item, and returns when the workers have; a worker takes an item, returns because the
-- context is done or the channel is closed and empty, finishes an item, or panics.
pub data Event : Type 0 where
  cancels sends gives_up closes joins takes quits_done quits_closed finishes dies : Event

module _ {ℓ} {T : Type ℓ} where
  unfoldable pub start : ℕ → List T → Processor T
  start limit items = record {
    limit = limit;
    left = items;
    buffer = [];
    taken = [];
    ch_closed = false;
    ctx_done = false;
    idle = limit;
    busy = 0;
    quit = 0;
    dead = 0;
    returned = false;
    panicked = false;
  }

  unfoldable pub close_channel : Processor T → Processor T
  close_channel p =
      if p.ch_closed then record p { panicked = true } else record p { ch_closed = true }

  -- An event that cannot happen changes nothing. The sender is at its loop until the channel is
  -- closed.
  abbrev pub sends_one : List T → Processor T → Processor T
  sends_one [] p = p
  sends_one (x ∷ xs) p =
      if not p.ch_closed && ltb (length p.buffer) p.limit
      then record p { left = xs; buffer = p.buffer ++ x ∷ [] }
      else p

  abbrev pub closes_after : List T → Processor T → Processor T
  closes_after [] p = if not p.ch_closed then close_channel p else p
  closes_after (x ∷ xs) p = p

  abbrev pub takes_one : List T → Processor T → Processor T
  takes_one [] p = p
  takes_one (x ∷ xs) p =
      if ltb 0 p.idle
      then record p { buffer = xs; taken = p.taken ++ x ∷ []; idle = p.idle - 1; busy = suc p.busy }
      else p

  abbrev pub quits_empty : List T → Processor T → Processor T
  quits_empty [] p =
      if ltb 0 p.idle && p.ch_closed then record p { idle = p.idle - 1; quit = suc p.quit } else p
  quits_empty (x ∷ xs) p = p

  unfoldable pub step : Event → Processor T → Processor T
  unfolding close_channel
  step cancels p = record p { ctx_done = true }
  step sends p = sends_one p.left p
  step gives_up p = if p.ctx_done && not p.ch_closed then close_channel p else p
  step closes p = closes_after p.left p
  step joins p = if p.ch_closed && leb (p.idle + p.busy) 0 then record p { returned = true } else p
  step takes p = takes_one p.buffer p
  step quits_done p =
      if ltb 0 p.idle && p.ctx_done then record p { idle = p.idle - 1; quit = suc p.quit } else p
  step quits_closed p = quits_empty p.buffer p
  step finishes p = if ltb 0 p.busy then record p { busy = p.busy - 1; idle = suc p.idle } else p
  step dies p = if ltb 0 p.busy then record p { busy = p.busy - 1; dead = suc p.dead } else p

  unfoldable pub steps : List Event → Processor T → Processor T
  unfolding step
  steps [] p = p
  steps (e ∷ es) p = steps es (step e p)

  -- Every item was taken, is in the channel or is left, in order; there are `limit` workers; if one
  -- returned and the context is not done, or the sender is past its loop, nothing is left.
  pub record IsSound (limit : ℕ) (items : List T) (p : Processor T) : Type ℓ where
    pub no_panic : p.panicked ≡ false
    pub in_order : p.taken ++ (p.buffer ++ p.left) ≡ items
    pub same_limit : p.limit ≡ limit
    pub workers : p.idle + p.busy + p.quit + p.dead ≡ limit
    pub bounded : length p.buffer ≤ limit
    pub all_sent : (p.ctx_done ≡ true) ⊎ (p.ch_closed ≡ false) ⊎ (p.left ≡ [])
    pub all_taken : (p.ctx_done ≡ true) ⊎ (p.quit ≡ 0) ⊎ ((p.ch_closed ≡ true) × (p.buffer ≡ []))
    pub all_ended : (p.returned ≡ false) ⊎ ((p.ch_closed ≡ true) × (p.idle + p.busy ≡ 0))
