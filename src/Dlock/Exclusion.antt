-- ===== src/Dlock/Exclusion.antt =====
-- Several callers of the in-memory locks: a step is one call that returns.
use go_lib.Base.{
  get_empty, ◌≤◌, ◌↔◌, is_some, ◌∙◌, pos, ◌⊎◌, ◌≢◌, inl, inr, ◌++◌, ◌++◌, ℕ, ◌+◌, ◌≡◌, String, Bool,
  true, false, List, [], ◌∷◌, none, some, get, put, get-put, if◌then◌else◌, ◌==◌, comparable_string,
  arith, Option-cases,
}
use text.Mathlib.TextEquality.{eq_iff}
use go_lib.Dlock.{
  new_provider, plus_one, MemoryLock, Provider, LockResult, locked, lock_failed, ctx_error,
  new_mutex, lock, try_lock, unlock, set_full,
}

-- Who holds which key: the callers that were told so and have not unlocked since.
abbrev pub Holders : Type 0
Holders = List (ℕ × String)

-- The calls of a caller, by its number. It unlocks only what it holds.
pub data Step : Provider → Holders → Provider → Holders → Type 0 where
  makes : (key : String) {p : Provider} {hs : Holders} → Step p hs (new_mutex key p) hs
  locks :
      (c : ℕ) (key : String) (done picks : Bool) {p q : Provider} {hs : Holders}
      → lock done picks key p ≡ some (locked, q)
      → Step p hs q ((c, key) ∷ hs)
  gives_up :
      (c : ℕ) (key : String) (done picks : Bool) {p q : Provider} {hs : Holders}
      → lock done picks key p ≡ some (ctx_error, q)
      → Step p hs q hs
  tries :
      (c : ℕ) (key : String) {p : Provider} {hs : Holders}
      → (try_lock key p).0 ≡ locked
      → Step p hs (try_lock key p).1 ((c, key) ∷ hs)
  fails :
      (c : ℕ) (key : String) {p : Provider} {hs : Holders}
      → (try_lock key p).0 ≡ lock_failed
      → Step p hs (try_lock key p).1 hs
  unlocks :
      (c : ℕ) (key : String) (before after : Holders) {p : Provider} {hs ks : Holders}
      → hs ≡ before ++ (c, key) ∷ after
      → ks ≡ before ++ after
      → Step p hs (unlock key p) ks

pub data Steps : Provider → Holders → Provider → Holders → Type 0 where
  stays : {p : Provider} {hs : Holders} → Steps p hs p hs
  steps :
      {p q r : Provider} {hs ks ls : Holders} → Step p hs q ks → Steps q ks r ls → Steps p hs r ls

-- How many callers hold a key.
abbrev pub holders : String → Holders → ℕ
holders key [] = 0
holders key (h ∷ hs) = (if h.1 == key then 1 else 0) + holders key hs

holders-append :
    (key : String) (hs ks : Holders) → holders key (hs ++ ks) ≡ holders key hs + holders key ks
holders-append key [] ks = omega arith
holders-append key (h ∷ hs) ks = omega (arith, holders-append key hs ks)

abbrev is_full : String → Provider → Bool
is_full key p = elim (get key p.locks) [ none ↦ false | some lk ↦ lk.full ]

-- A key is held by one caller if its channel is full and by none if not.
abbrev Counted : Provider → Holders → Type 0
Counted p hs = (key : String) → holders key hs ≡ (if is_full key p then 1 else 0)

get_full :
    (key k : String) (lk : MemoryLock) (p : Provider)
    → is_full k (record { locks = put key lk p.locks })
      ≡ (if key == k then lk.full else is_full k p)
get_full key k lk p = ground (arith, get-put key k lk p.locks)

get-set_full :
    (b : Bool) (key k : String) (lk : MemoryLock) (p : Provider)
    → is_full k (set_full b key lk p) ≡ (if key == k then b else is_full k p)
get-set_full b key k lk p = get_full key k (record lk { full = b }) p

-- What a call does to the channels: nothing, or it fills or empties the one of its key.
is_full-new_mutex : (key k : String) (p : Provider) → is_full k (new_mutex key p) ≡ is_full k p
unfolding new_mutex
is_full-new_mutex key k p = elim (Option-cases (get key p.locks)) [
  | inl new ↦
      rw (new, new_mutex)
        (get_full key k (record { full = false; refs = pos 1 }) p ∙ ground (arith, eq_iff key k))
  | inr (lk, old) ↦
      rw (old, new_mutex)
        (get_full key k (record lk { refs = plus_one lk.refs }) p ∙ ground (arith, eq_iff key k))
]

is_full-lock :
    (key k : String) (done picks : Bool) (p q : Provider) (r : LockResult)
    → lock done picks key p ≡ some (r, q)
    → ((r ≡ locked)
        × (is_full key p ≡ false)
        × (is_full k q ≡ (if key == k then true else is_full k p)))
      ⊎ ((r ≢ locked) × (q ≡ p))
unfolding lock
is_full-lock key k done picks p q r e = elim (Option-cases (get key p.locks)) [
  | inl new ↦ ground (arith)
  | inr (lk, old) ↦ ground (arith, get-set_full true key k lk p)
]

is_full-try_lock :
    (key k : String) (p : Provider)
    → let r = try_lock key p in
      ((r.0 ≡ locked)
        × (is_full key p ≡ false)
        × (is_full k r.1 ≡ (if key == k then true else is_full k p)))
      ⊎ ((r.0 ≡ lock_failed) × (r.1 ≡ p))
unfolding try_lock
is_full-try_lock key k p = elim (Option-cases (get key p.locks)) [
  | inl new ↦ ground arith
  | inr (lk, old) ↦ ground (arith, get-set_full true key k lk p)
]

is_full-unlock :
    (key k : String) (p : Provider)
    → is_full k (unlock key p) ≡ (if key == k then false else is_full k p)
unfolding unlock
is_full-unlock key k p = elim (Option-cases (get key p.locks)) [
  | inl new ↦ ground (arith, eq_iff key k)
  | inr (lk, old) ↦ rw (old, unlock) (get-set_full false key k lk p)
]

kept : (p q : Provider) (hs ks : Holders) → Step p hs q ks → Counted p hs → Counted q ks
kept p q hs ks (makes key) inv k = ground (arith, inv k, is_full-new_mutex key k p)
kept p q hs ks (locks c key done picks e) inv k =
    ground (arith, inv k, inv key, eq_iff key k, is_full-lock key k done picks p q locked e)
kept p q hs ks (gives_up c key done picks e) inv k =
    ground (arith, inv k, is_full-lock key k done picks p q ctx_error e)
kept p q hs ks (tries c key e) inv k =
    ground (arith, inv k, inv key, eq_iff key k, is_full-try_lock key k p)
kept p q hs ks (fails c key e) inv k = ground (arith, inv k, is_full-try_lock key k p)
kept p q hs ks (unlocks c key before after e f) inv k = ground (
  arith,
  inv k,
  inv key,
  eq_iff key k,
  is_full-unlock key k p,
  e,
  f,
  holders-append k before after,
  holders-append k before ((c, key) ∷ after),
  holders-append key before ((c, key) ∷ after),
)

kept_all : {p q : Provider} {hs ks : Holders} → Steps p hs q ks → Counted p hs → Counted q ks
kept_all stays inv = inv
kept_all (steps s ss) inv = kept_all ss (kept _ _ _ _ s inv)

-- However the calls of several callers on the locks of one provider interleave, no two of them hold
-- the same key at the same time, if each unlocks only what it holds; and a caller gets a key from
-- `TryLock` exactly when the key has a lock and no caller holds it.
pub steps-holders_le :
    (q : Provider) (hs : Holders) (key : String)
    → Steps new_provider [] q hs
    → (holders key hs ≤ 1)
      × (((try_lock key q).0 ≡ locked)
          ↔ ((is_some (get key q.locks) ≡ true) × (holders key hs ≡ 0)))
unfolding try_lock new_provider
steps-holders_le q hs key ss =
    let inv = kept_all ss (λ k. ground (arith, get_empty {V = MemoryLock} k)) key in
    (ground (arith, inv), ground (arith, inv))
