-- ===== src/Utils/SingleRun/Exclusion.antt =====
-- The calls of many callers on one manager, in any order.
use go_lib.Base.{
  ℕ, zero, suc, ◌+◌, ◌-◌, ◌≡◌, refl, String, true, false, ◌&&◌, List, [], ◌∷◌, Option, none, some,
  ℤ, pos, negsuc, get, get-put, if◌then◌else◌, comparable_string, ◌==◌, Bool-cases, inl, inr, arith,
}
use go_lib.Utils.SingleRun.{
  fire, blocked, Waiter, Manager, Standing, new_manager, info_of, holds, start, enter, time_out,
  waiter_at, leave, wake, without, finish,
}

-- What some goroutine does next.
pub data Event : Type 0 where
  enters : List String → String → ℤ → ℕ → Event
  times_out : ℕ → Event
  wakes : ℕ → ℕ → Event
  finishes : String → Event

abbrev or_same : Option (Standing × Manager) → Manager → Manager
or_same none m = m
or_same (some (s, m')) m = m'

unfoldable pub act : Event → Manager → Manager
act (enters held key wait_time now) m = (enter held key wait_time now m).1
act (times_out n) m = time_out n m
act (wakes n now) m = or_same (wake n now m) m
act (finishes key) m = or_same (finish key m) m

unfoldable pub act_all : List Event → Manager → Manager
unfolding act
act_all [] m = m
act_all (e ∷ es) m = act_all es (act e m)

abbrev pub times : String → List String → ℕ
times k [] = 0
times k (j ∷ js) = (if j == k then 1 else 0) + times k js

-- For each key: one call runs if the key is marked as running, and none otherwise; and its counter
-- is the number of runs that began.
pub record IsExclusive (m : Manager) : Type 0 where
  pub one : (k : String) → times k m.runs ≡ (if (info_of k m).is_running then 1 else 0)
  pub counted : (k : String) → (info_of k m).run_count ≡ times k m.starts

start-IsExclusive :
    (now : ℕ) (key : String) (m : Manager)
    → (info_of key m).is_running ≡ false
    → IsExclusive m
    → IsExclusive (start now key m)
unfolding start info_of
start-IsExclusive now key m free x = record {
  one = λ k. ground (
    arith,
    x.one k,
    get-put key k
        (record { is_running = true; start_time = now; run_count = suc (info_of key m).run_count })
        m.entries,
    comparable_string.decides key k,
  );
  counted = λ k. ground (
    arith,
    x.counted k,
    get-put key k
        (record { is_running = true; start_time = now; run_count = suc (info_of key m).run_count })
        m.entries,
    comparable_string.decides key k,
  );
}

waits-IsExclusive :
    (m : Manager) (ws : List Waiter) → IsExclusive m → IsExclusive (record m { waits = ws })
unfolding info_of
waits-IsExclusive m ws x = record { one = x.one; counted = x.counted }

blocked-IsExclusive :
    (key : String) (t : ℤ) (m : Manager) → IsExclusive m → IsExclusive (blocked key t m).1
unfolding blocked
blocked-IsExclusive key (pos zero) m x = x
blocked-IsExclusive key (pos (suc n)) m x = waits-IsExclusive m _ x
blocked-IsExclusive key (negsuc n) m x = waits-IsExclusive m _ x

enter-IsExclusive :
    (held : List String) (key : String) (t : ℤ) (now : ℕ) (m : Manager)
    → IsExclusive m
    → IsExclusive (enter held key t now m).1
unfolding enter
enter-IsExclusive held key t now m x = elim (Bool-cases (holds key held)) [
  | inl inner ↦ rw (inner, enter) x
  | inr outer ↦ elim (Bool-cases (info_of key m).is_running) [
    | inl busy ↦ rw (outer, enter, busy) (blocked-IsExclusive key t m x)
    | inr free ↦ rw (outer, enter, free) (start-IsExclusive now key m free x)
  ]
]

still_free :
    (key : String) (m : Manager) (ws : List Waiter)
    → (info_of key m).is_running ≡ false
    → (info_of key (record m { waits = ws })).is_running ≡ false
unfolding info_of
still_free key m ws free = free

wake-IsExclusive :
    (n now : ℕ) (m : Manager) (o : Option Waiter)
    → waiter_at n m.waits ≡ o
    → IsExclusive m
    → IsExclusive (or_same (wake n now m) m)
unfolding wake
wake-IsExclusive n now m none e x = rw (e, wake) x
wake-IsExclusive n now m (some w) e x = elim (Bool-cases (info_of w.key m).is_running) [
  | inl busy ↦ elim (Bool-cases w.timed_out) [
    | inl late ↦ rw (e, wake, busy, late) (waits-IsExclusive m (leave n m.waits) x)
    | inr early ↦ rw (e, wake, busy, early) x
  ]
  | inr free ↦ elim (Bool-cases w.timed_out) [
    | inl late ↦ rw (e, wake, free, late) (waits-IsExclusive m (leave n m.waits) x)
    | inr early ↦
        rw (e, wake, free, early)
          (start-IsExclusive now w.key (record m { waits = leave n m.waits })
            (still_free w.key m (leave n m.waits) free) (waits-IsExclusive m (leave n m.waits) x))
  ]
]

times-without :
    (k key : String) (ks : List String)
    → times k (without key ks) ≡ times k ks - (if (key == k) && holds key ks then 1 else 0)
times-without k key [] = omega arith
times-without k key (j ∷ js) = ground (
  arith,
  times-without k key js,
  comparable_string.decides j key,
  comparable_string.decides j k,
  comparable_string.decides key k,
)

finish-IsExclusive :
    (key : String) (m : Manager) → IsExclusive m → IsExclusive (or_same (finish key m) m)
unfolding finish info_of
finish-IsExclusive key m x = elim (Bool-cases (holds key m.runs)) [
  | inl running ↦
      rw (running, finish)
        (record {
          one = λ k. ground (
            arith,
            x.one k,
            times-without k key m.runs,
            get-put key k (record (info_of key m) { is_running = false }) m.entries,
            comparable_string.decides key k,
          );
          counted = λ k. ground (
            arith,
            x.counted k,
            get-put key k (record (info_of key m) { is_running = false }) m.entries,
            comparable_string.decides key k,
          );
        })
  | inr idle ↦ rw (idle, finish) x
]

act-IsExclusive : (e : Event) (m : Manager) → IsExclusive m → IsExclusive (act e m)
unfolding act time_out
act-IsExclusive (enters held key t now) m x = enter-IsExclusive held key t now m x
act-IsExclusive (times_out n) m x = waits-IsExclusive m (fire n m.waits) x
act-IsExclusive (wakes n now) m x = wake-IsExclusive n now m (waiter_at n m.waits) refl x
act-IsExclusive (finishes key) m x = finish-IsExclusive key m x

act_all-IsExclusive : (es : List Event) (m : Manager) → IsExclusive m → IsExclusive (act_all es m)
unfolding act_all
act_all-IsExclusive [] m x = x
act_all-IsExclusive (e ∷ es) m x = act_all-IsExclusive es (act e m) (act-IsExclusive e m x)

-- Whatever callers do on a new manager, in any order and with any waiting times: of the calls that
-- run their function under a key, there is one if the key is marked as running and none otherwise, a
-- nested call in the context of one aside; and the key's counter is the number of runs that began.
pub new_manager-IsExclusive : (es : List Event) → IsExclusive (act_all es new_manager)
unfolding new_manager info_of get
new_manager-IsExclusive es =
    act_all-IsExclusive es new_manager (record { one = λ k. refl; counted = λ k. refl })
