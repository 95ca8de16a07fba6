-- ===== src/Utils/SafeCloser.antt =====
-- common/utils/channel.go: SafeCloser, a signal that is given once.
use go_lib.Base.{
  ℕ, zero, suc, ◌≡◌, refl, Bool, true, false, List, [], ◌∷◌, if◌then◌else◌, arith, replicate,
}

-- `done_closed` says that the channel `done` was closed, and `panicked` that it was closed twice.
pub record SafeCloser : Type 0 where
  pub done_closed : Bool
  pub is_closed : Bool
  pub panicked : Bool

unfoldable pub new_safe_closer : SafeCloser
new_safe_closer = record { done_closed = false; is_closed = false; panicked = false }

unfoldable pub close_signal : SafeCloser → SafeCloser
close_signal s =
    if s.done_closed then record s { panicked = true } else record s { done_closed = true }

unfoldable pub close : SafeCloser → Bool × SafeCloser
unfolding close_signal
close s = if s.is_closed then (false, s) else (true, close_signal (record s { is_closed = true }))

-- What the calls of Close answer, one after the other, and what they leave.
unfoldable pub close_times : ℕ → SafeCloser → List Bool × SafeCloser
close_times zero s = ([], s)
close_times (suc n) s = let (ok, t) = close s in let (oks, u) = close_times n t in (ok ∷ oks, u)

closed_again :
    (n : ℕ) (s : SafeCloser)
    → s.is_closed ≡ true
    → ((close_times n s).0 ≡ replicate n false) × ((close_times n s).1 ≡ s)
unfolding close_times close
closed_again zero s h = (refl, refl)
closed_again (suc n) s h = ground (arith, closed_again n s h)

-- However often Close is called, from wherever: the first call, and no other, returns true, `done` is
-- closed after it, and it is never closed twice.
pub close_times-first :
    (n : ℕ)
    → let r = close_times (suc n) new_safe_closer in
      (r.0 ≡ true ∷ replicate n false)
      × (r.1.done_closed ≡ true)
      × (r.1.is_closed ≡ true)
      × (r.1.panicked ≡ false)
unfolding close_times close new_safe_closer
close_times-first n =
    ground (
      arith,
      closed_again n (record { done_closed = true; is_closed = true; panicked = false }) refl,
    )
