-- ===== src/Cmd/Examples.antt =====
-- A scheduler over a list of jobs, at which the theorem on the calls is applied.
use go_lib.Base.{
  ℕ, zero, suc, ◌≡◌, refl, String, false, List, [], ◌∷◌, ◌++◌, Option, none, some, length, is_some,
  if◌then◌else◌, comparable_nat, ◌==◌, arith,
}
use go_lib.Coroutines.{returns}
use go_lib.Cmd.{Handler, Cron, new_scheduler}
use go_lib.Cmd.Jobs.{IsCron, Call, adds, forces, removes, Runs, call_all}
use go_lib.Cmd.Jobs.Kept.{new_scheduler-Runs}

abbrev Jobs : Type 0
Jobs = List (Option (String × Handler))

abbrev at : Jobs → ℕ → Option (String × Handler)
at [] i = none
at (x ∷ xs) zero = x
at (x ∷ xs) (suc i) = at xs i

abbrev clear : Jobs → ℕ → Jobs
clear [] i = []
clear (x ∷ xs) zero = none ∷ xs
clear (x ∷ xs) (suc i) = x ∷ clear xs i

abbrev listed : Cron
listed = record {
  State = Jobs;
  empty = [];
  new_job = λ id h s. (some (length s), s ++ some (id, h) ∷ []);
  remove_job = λ j s. (is_some (at s j), clear s j);
  next_run = λ j s. some 5;
  live = at;
}

at-end : (s : Jobs) → at s (length s) ≡ none
at-end [] = refl
at-end (x ∷ xs) = at-end xs

at-snoc :
    (s : Jobs) (x : String × Handler) (i : ℕ)
    → at (s ++ some x ∷ []) i ≡ (if i == length s then some x else at s i)
at-snoc [] x zero = refl
at-snoc [] x (suc i) = ground arith
at-snoc (y ∷ s) x zero = ground arith
at-snoc (y ∷ s) x (suc i) = ground (arith, at-snoc s x i)

at-clear : (s : Jobs) (j i : ℕ) → at (clear s j) i ≡ (if i == j then none else at s i)
at-clear [] j i = ground arith
at-clear (x ∷ xs) zero zero = ground arith
at-clear (x ∷ xs) zero (suc i) = ground arith
at-clear (x ∷ xs) (suc j) zero = ground arith
at-clear (x ∷ xs) (suc j) (suc i) = ground (arith, at-clear xs j i)

clear-dead : (s : Jobs) (j i : ℕ) → is_some (at s j) ≡ false → at (clear s j) i ≡ at s i
clear-dead s j i e = ground (arith, at-clear s j i)

listed_laws : IsCron listed
listed_laws = record {
  none_live = λ i. refl;
  new_fresh = λ id h s j e. ground (arith, at-end s);
  new_live = λ id h s j i e. ground (arith, at-snoc s (id, h) i);
  new_failed = λ id h s i e. absurd (cc);
  removed = λ j s i e. at-clear s j i;
  not_removed = λ j s i e. clear-dead s j i e;
  removes = λ j s x e. rw e refl;
}

abbrev sync : ℕ → Handler
sync limit = record { spec = "* * * * *"; max_execute_time = limit; do_job = (returns none, 3) }

abbrev calls : List Call
calls =
    adds "a" (sync 1)
    ∷ forces "a" (sync 2)
    ∷ adds "b" (sync 3)
    ∷ adds "a" (sync 4)
    ∷ removes "b"
    ∷ []

new_scheduler-Runs_example :
    let p = call_all listed calls (new_scheduler listed, []) in Runs listed p.0 p.1
new_scheduler-Runs_example = new_scheduler-Runs listed calls listed_laws
