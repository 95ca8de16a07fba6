-- ===== src/Utils/SafeChan.antt =====
-- common/utils/channel.go: channels that are closed once and never sent to afterwards. `panicked`
-- says that a channel was closed twice or sent to after its closing.
pub mod Safety
use go_lib.Base.{
  ℕ, suc, zero, ◌+◌, ◌-◌, Bool, true, false, not, ◌&&◌, ◌||◌, List, [], ◌∷◌, ◌++◌, Option, none,
  some, length, ltb, leb, if◌then◌else◌,
}

-- `ch` is open or closed, with its buffer, whose capacity is not zero; `waiting` counts the
-- calls of Send that are in their select, each holding the read lock.
pub record SafeChan {ℓ} (T : Type ℓ) : Type ℓ where
  pub capacity : ℕ
  pub buffer : List T
  pub ch_closed : Bool
  pub done_closed : Bool
  pub is_closed : Bool
  pub waiting : ℕ
  pub panicked : Bool

module _ {ℓ} {T : Type ℓ} where
  -- `NewSafeChan`
  unfoldable pub new_safe_chan : ℕ → SafeChan T
  new_safe_chan capacity = record {
    capacity = capacity;
    buffer = [];
    ch_closed = false;
    done_closed = false;
    is_closed = false;
    waiting = 0;
    panicked = false;
  }

  -- The send to `ch`, which a select takes if the buffer has room, and which panics on a closed
  -- channel.
  unfoldable pub push : T → SafeChan T → SafeChan T
  push v s =
      if s.ch_closed then record s { panicked = true } else record s { buffer = s.buffer ++ v ∷ [] }

  abbrev pub has_room : SafeChan T → Bool
  has_room s = s.ch_closed || ltb (length s.buffer) s.capacity

  -- `Send` up to its select: false, or one more call that waits, with the read lock held.
  unfoldable pub send_begin : SafeChan T → Option Bool × SafeChan T
  send_begin s =
      if s.is_closed then (some false, s) else (none, record s { waiting = suc s.waiting })

  -- How a waiting call leaves its select: by the channel, by `done`, or by its timer. None if that
  -- branch is not ready.
  unfoldable pub send_value : T → SafeChan T → Option (Bool × SafeChan T)
  unfolding push
  send_value v s =
      if has_room s then some (true, push v (record s { waiting = s.waiting - 1 })) else none

  unfoldable pub send_done : SafeChan T → Option (Bool × SafeChan T)
  send_done s = if s.done_closed then some (false, record s { waiting = s.waiting - 1 }) else none

  unfoldable pub send_timeout : SafeChan T → Bool × SafeChan T
  send_timeout s = (false, record s { waiting = s.waiting - 1 })

  -- `TrySend`, which takes and leaves the read lock; `picks` is the choice of `select` if both
  -- channels are ready.
  unfoldable pub try_send : Bool → T → SafeChan T → Bool × SafeChan T
  unfolding push
  try_send picks v s =
      if s.is_closed
      then (false, s)
      else if has_room s && (not s.done_closed || picks)
      then (true, push v s)
      else (false, s)

  unfoldable pub close_done : SafeChan T → SafeChan T
  close_done s =
      if s.done_closed then record s { panicked = true } else record s { done_closed = true }

  unfoldable pub close_ch : SafeChan T → SafeChan T
  close_ch s = if s.ch_closed then record s { panicked = true } else record s { ch_closed = true }

  -- `Close`, which waits for the write lock as long as a call holds the read lock.
  unfoldable pub close : SafeChan T → Option (Bool × SafeChan T)
  unfolding close_done close_ch
  close s =
      if ltb 0 s.waiting
      then none
      else some (
          if s.is_closed
          then (false, s)
          else (true, close_ch (close_done (record s { is_closed = true }))))

  -- A receiver takes the oldest value.
  unfoldable pub receive : SafeChan T → Option (T × SafeChan T)
  receive s = elim s.buffer [ [] ↦ none | v ∷ vs ↦ some (v, record s { buffer = vs }) ]
