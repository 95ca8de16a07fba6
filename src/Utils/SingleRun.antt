-- ===== src/Utils/SingleRun.antt =====
-- common/utils/singleRun.go: one run at a time for each key. The code between two points at which the
-- key's lock is free is one step; a call that waits on the condition variable is a waiter.
pub mod Exclusion
use go_lib.Base.{
  ℕ, zero, suc, ◌+◌, ◌-◌, String, Bool, true, false, not, ◌&&◌, ◌||◌, List, [], ◌∷◌, ◌++◌, Option,
  none, some, ℤ, pos, negsuc, Map, get, put, if◌then◌else◌, comparable_string, ◌==◌,
}

pub record RunInfo : Type 0 where
  pub is_running : Bool
  pub start_time : ℕ
  pub run_count : ℕ

-- A call that waits for its key, with a timer or without one.
pub record Waiter : Type 0 where
  pub key : String
  pub has_timer : Bool
  pub timed_out : Bool

-- The manager, the keys of the calls that are running their function under the key's lock, the calls
-- that wait, and the keys of all such runs so far.
pub record Manager : Type 0 where
  pub entries : Map String RunInfo
  pub runs : List String
  pub waits : List Waiter
  pub starts : List String

-- Where a call stands after a step: it runs its function without taking the key, since its context
-- holds it; it returns ErrRunning and what it read; it has the key and runs; it waits; or, with the
-- function done, it returns what it read.
pub data Standing : Type 0 where
  nested started waiting : Standing
  refused finished : RunInfo → Standing

unfoldable pub new_manager : Manager
new_manager = record { entries = []; runs = []; waits = []; starts = [] }

abbrev pub idle_info : RunInfo
idle_info = record { is_running = false; start_time = 0; run_count = 0 }

-- `getEntry`, which makes an entry if there is none.
abbrev pub info_or_idle : Option RunInfo → RunInfo
info_or_idle none = idle_info
info_or_idle (some i) = i

unfoldable pub info_of : String → Manager → RunInfo
info_of key m = info_or_idle (get key m.entries)

-- The keys that the context holds: `getHeldLocks` and `withHeldLock`, as a list.
abbrev pub holds : String → List String → Bool
holds key [] = false
holds key (k ∷ ks) = k == key || holds key ks

unfoldable pub with_held_lock : String → List String → List String
with_held_lock key held = key ∷ held

-- The update of the key's state before the function runs.
unfoldable pub start : ℕ → String → Manager → Manager
unfolding info_of
start now key m = record m {
  entries =
      put key
        (record { is_running = true; start_time = now; run_count = suc (info_of key m).run_count })
        m.entries;
  runs = key ∷ m.runs;
  starts = key ∷ m.starts;
}

abbrev pub wait : String → Bool → Manager → Manager
wait key timed m = record m {
  waits = m.waits ++ record { key = key; has_timer = timed; timed_out = false } ∷ [];
}

-- What a call does while its key is running, by its waiting time.
unfoldable pub blocked : String → ℤ → Manager → Standing × Manager
unfolding info_of
blocked key (pos zero) m = (refused (info_of key m), m)
blocked key (pos (suc n)) m = (waiting, wait key true m)
blocked key (negsuc n) m = (waiting, wait key false m)

-- A call of `SingleRun` up to its function, its return, or its wait.
unfoldable pub enter : List String → String → ℤ → ℕ → Manager → Standing × Manager
unfolding start info_of blocked
enter held key wait_time now m =
    if holds key held
    then (nested, m)
    else if not (info_of key m).is_running
    then (started, start now key m)
    else blocked key wait_time m

-- The timer of the waiter at a place fires.
abbrev pub fire : ℕ → List Waiter → List Waiter
fire n [] = []
fire zero (w ∷ ws) = record w { timed_out = w.has_timer } ∷ ws
fire (suc n) (w ∷ ws) = w ∷ fire n ws

unfoldable pub time_out : ℕ → Manager → Manager
time_out n m = record m { waits = fire n m.waits }

abbrev pub waiter_at : ℕ → List Waiter → Option Waiter
waiter_at n [] = none
waiter_at zero (w ∷ ws) = some w
waiter_at (suc n) (w ∷ ws) = waiter_at n ws

abbrev pub leave : ℕ → List Waiter → List Waiter
leave n [] = []
leave zero (w ∷ ws) = ws
leave (suc n) (w ∷ ws) = w ∷ leave n ws

-- The waiter at a place wakes, for whatever reason, and looks at the key again; none if there is no
-- such waiter.
unfoldable pub wake : ℕ → ℕ → Manager → Option (Standing × Manager)
unfolding start info_of
wake n now m = elim (waiter_at n m.waits) [
  | none ↦ none
  | some w ↦
      let gone : Manager = record m { waits = leave n m.waits } in
      some (
        if (info_of w.key m).is_running && not w.timed_out
        then (waiting, m)
        else if w.timed_out
        then (refused (info_of w.key m), gone)
        else (started, start now w.key gone))
]

abbrev pub without : String → List String → List String
without key [] = []
without key (k ∷ ks) = if k == key then ks else k ∷ without key ks

-- The function of a running call returned, or panicked and was recovered: the call reads the state,
-- and its deferred function frees the key.
unfoldable pub finish : String → Manager → Option (Standing × Manager)
unfolding info_of
finish key m =
    if holds key m.runs
    then some (
      finished (info_of key m),
      record m {
        entries = put key (record (info_of key m) { is_running = false }) m.entries;
        runs = without key m.runs;
      },
    )
    else none
