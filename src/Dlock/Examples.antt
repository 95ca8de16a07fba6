-- ===== src/Dlock/Examples.antt =====
-- Callers of the in-memory locks, at which the theorems are applied.
use go_lib.Base.{put, ◌≤◌, ◌≡◌, ◌↔◌, refl, true, is_some, get, comparable_string, [], ◌∷◌}
use go_lib.Dlock.{Provider, locked, new_provider, new_mutex, try_lock, unlock}
use go_lib.Dlock.Exclusion.{Steps, makes, unlocks, tries, stays, steps, holders, steps-holders_le}

abbrev two_calls : Provider
two_calls = unlock "a" (try_lock "a" (new_mutex "a" new_provider)).1

-- Caller 1 takes and frees the lock, then caller 2 takes it.
run : Steps new_provider [] (try_lock "a" two_calls).1 ((2, "a") ∷ [])
unfolding try_lock unlock new_mutex new_provider get put
run = steps (makes "a") (
    steps (tries 1 "a" {p = new_mutex "a" new_provider} refl)
      (steps (unlocks 1 "a" [] [] refl refl) (steps (tries 2 "a" {p = two_calls} refl) stays)))

steps-holders_le_example :
    let q = (try_lock "a" two_calls).1 in
    (holders "a" ((2, "a") ∷ []) ≤ 1)
    × (((try_lock "a" q).0 ≡ locked)
        ↔ ((is_some (get "a" q.locks) ≡ true) × (holders "a" ((2, "a") ∷ []) ≡ 0)))
steps-holders_le_example = steps-holders_le (try_lock "a" two_calls).1 ((2, "a") ∷ []) "a" run
