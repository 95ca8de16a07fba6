-- ===== src/Dlock.antt =====
-- dlock/memory.go: the locks of one process, by key. A memoryLock is found by its key at every call,
-- and only `release`, which no other code calls, takes one out of the map, so that the map holds the
-- locks themselves.
pub mod Exclusion
mod Examples
use go_lib.Base.{
  ℤ, pos, negsuc, ℕ, suc, zero, String, Bool, true, false, not, ◌&&◌, ◌||◌, Option, none, some, Map,
  [], get, put, del, leb_ℤ, if◌then◌else◌, comparable_string,
}

-- Whether the channel of capacity one is full, and how many mutexes refer to the lock.
pub record MemoryLock : Type 0 where
  pub full : Bool
  pub refs : ℤ

pub record Provider : Type 0 where
  pub locks : Map String MemoryLock

-- What `Lock` and `TryLock` return: nil, ErrLockFailed or the error of the context.
pub data LockResult : Type 0 where
  locked lock_failed ctx_error : LockResult

abbrev pub plus_one : ℤ → ℤ
plus_one (pos n) = pos (suc n)
plus_one (negsuc zero) = pos 0
plus_one (negsuc (suc n)) = negsuc n

abbrev minus_one : ℤ → ℤ
minus_one (pos zero) = negsuc 0
minus_one (pos (suc n)) = pos n
minus_one (negsuc n) = negsuc (suc n)

unfoldable pub new_provider : Provider
new_provider = record { locks = [] }

-- The mutex that it returns is bound to the key.
unfoldable pub new_mutex : String → Provider → Provider
new_mutex key p = elim (get key p.locks) [
  | none ↦ record { locks = put key (record { full = false; refs = pos 1 }) p.locks }
  | some lk ↦ record { locks = put key (record lk { refs = plus_one lk.refs }) p.locks }
]

unfoldable pub release : String → Provider → Provider
release key p = elim (get key p.locks) [
  | none ↦ p
  | some lk ↦
      if leb_ℤ (minus_one lk.refs) (pos 0)
      then record { locks = del key p.locks }
      else record { locks = put key (record lk { refs = minus_one lk.refs }) p.locks }
]

-- The send to the channel, and the receive.
abbrev pub set_full : Bool → String → MemoryLock → Provider → Provider
set_full b key lk p = record { locks = put key (record lk { full = b }) p.locks }

-- `Lock`, with whether the context is done, and whether `select` takes the channel if both are
-- ready. None means that the call goes on waiting.
unfoldable pub lock : Bool → Bool → String → Provider → Option (LockResult × Provider)
lock done picks key p = elim (get key p.locks) [
  | none ↦ some (lock_failed, p)
  | some lk ↦
      if not lk.full && (not done || picks)
      then some (locked, set_full true key lk p)
      else if done
      then some (ctx_error, p)
      else none
]

unfoldable pub try_lock : String → Provider → LockResult × Provider
try_lock key p = elim (get key p.locks) [
  | none ↦ (lock_failed, p)
  | some lk ↦ if lk.full then (lock_failed, p) else (locked, set_full true key lk p)
]

-- It returns nil in every case.
unfoldable pub unlock : String → Provider → Provider
unlock key p = elim (get key p.locks) [ none ↦ p | some lk ↦ set_full false key lk p ]
