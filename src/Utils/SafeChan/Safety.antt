-- ===== src/Utils/SafeChan/Safety.antt =====
-- A channel under any interleaving of senders, receivers and closers.
use go_lib.Base.{
  ℕ, ◌≤◌, ◌≡◌, refl, ◌⊎◌, Bool, false, List, [], ◌∷◌, ◌++◌, Option, none, some, length,
  length-append, ltb, if◌then◌else◌, arith,
}
use mathlib.Core.List.{append_assoc, append-nil}
use go_lib.Utils.SafeChan.{
  SafeChan, new_safe_chan, push, send_begin, send_value, send_done, send_timeout, try_send,
  close_done, close_ch, close, receive,
}

-- What one goroutine does next.
pub data Act {ℓ} (T : Type ℓ) : Type ℓ where
  begins gives_up leaves closes receives : Act T
  delivers : T → Act T
  tries : Bool → T → Act T

-- A channel, the values that its sends accepted, and those that were received, in order.
pub record History {ℓ} (T : Type ℓ) : Type ℓ where
  pub chan : SafeChan T
  pub accepted : List T
  pub received : List T

module _ {ℓ} {T : Type ℓ} where
  abbrev after : Option (Bool × SafeChan T) → List T → History T → History T
  after none vs h = h
  after (some (ok, s)) vs h = record h {
    chan = s;
    accepted = if ok then h.accepted ++ vs else h.accepted;
  }

  -- A call that is not in its select does not leave it, and one that is not ready waits.
  unfoldable pub act : Act T → History T → History T
  act begins h = record h { chan = (send_begin h.chan).1 }
  act gives_up h = if ltb 0 h.chan.waiting then record h { chan = (send_timeout h.chan).1 } else h
  act leaves h = if ltb 0 h.chan.waiting then after (send_done h.chan) [] h else h
  act (delivers v) h = if ltb 0 h.chan.waiting then after (send_value v h.chan) (v ∷ []) h else h
  act (tries picks v) h = after (some (try_send picks v h.chan)) (v ∷ []) h
  act closes h = after (close h.chan) [] h
  act receives h = elim (receive h.chan) [
    | none ↦ h
    | some (v, s) ↦ record h { chan = s; received = h.received ++ v ∷ [] }
  ]

  unfoldable pub act_all : List (Act T) → History T → History T
  act_all [] h = h
  act_all (a ∷ later) h = act_all later (act a h)

  unfoldable pub begin : ℕ → History T
  unfolding new_safe_chan
  begin capacity = record { chan = new_safe_chan capacity; accepted = []; received = [] }

  -- Nothing panicked; every accepted value was received or is in the buffer, in order; the buffer
  -- is within its capacity; and while a call waits, `done` is not closed.
  pub record IsSafe (capacity : ℕ) (h : History T) : Type ℓ where
    pub no_panic : h.chan.panicked ≡ false
    pub in_order : h.accepted ≡ h.received ++ h.chan.buffer
    pub same_capacity : h.chan.capacity ≡ capacity
    pub bounded : length h.chan.buffer ≤ capacity
    pub ch_as_flag : h.chan.ch_closed ≡ h.chan.is_closed
    pub done_as_flag : h.chan.done_closed ≡ h.chan.is_closed
    pub none_waiting : (h.chan.waiting ≡ 0) ⊎ (h.chan.is_closed ≡ false)

  receives-IsSafe :
      (n : ℕ) (h : History T) (vs : List T)
      → h.chan.buffer ≡ vs
      → IsSafe n h
      → IsSafe n (act receives h)
  unfolding act receive
  receives-IsSafe n h [] e s = ground arith
  receives-IsSafe n h (v ∷ vs) e s = ground (arith, append_assoc h.received (v ∷ []) vs)

  act-IsSafe : (n : ℕ) (a : Act T) (h : History T) → IsSafe n h → IsSafe n (act a h)
  unfolding act send_begin send_timeout send_done send_value push try_send close close_done close_ch
      receive
  act-IsSafe n begins h s = ground arith
  act-IsSafe n gives_up h s = ground arith
  act-IsSafe n leaves h s = ground arith
  act-IsSafe n (delivers v) h s =
      ground (
        arith,
        length-append h.chan.buffer (v ∷ []),
        append_assoc h.received h.chan.buffer (v ∷ []),
      )
  act-IsSafe n (tries picks v) h s =
      ground (
        arith,
        length-append h.chan.buffer (v ∷ []),
        append_assoc h.received h.chan.buffer (v ∷ []),
      )
  act-IsSafe n closes h s = ground (arith, append-nil h.accepted)
  act-IsSafe n receives h s = receives-IsSafe n h h.chan.buffer refl s

  act_all-IsSafe :
      (n : ℕ) (acts : List (Act T)) (h : History T) → IsSafe n h → IsSafe n (act_all acts h)
  unfolding act_all
  act_all-IsSafe n [] h s = s
  act_all-IsSafe n (a ∷ later) h s = act_all-IsSafe n later (act a h) (act-IsSafe n a h s)

  -- Whatever the senders, receivers and closers of a new channel do, in any order: no channel is
  -- closed twice or sent to after its closing, every value whose send returned true was received or
  -- is in the buffer, all in the order of the sends, the buffer is within its capacity, and the
  -- channel `done` is open as long as a call of Send waits.
  pub begin-IsSafe : (n : ℕ) (acts : List (Act T)) → IsSafe n (act_all acts (begin n))
  unfolding begin
  begin-IsSafe n acts = act_all-IsSafe n acts (begin n) (ground arith)
