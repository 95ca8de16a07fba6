-- ===== src/Cmd/Jobs.antt =====
-- The jobs that run are those that were asked for.
pub mod Entries
pub mod Branches
pub mod Kept
use go_lib.Base.{
  refl, get-del, get_empty, nat_beq_iff, ℕ, ◌≡◌, inl, inr, String, Bool, true, false, List, [], ◌∷◌,
  Option, none, some, Map, get, put, del, get-put, is_some, if◌then◌else◌, Bool-cases, Option-cases,
  comparable_string, comparable_nat, ◌==◌, arith,
}
use go_lib.Cmd.{
  new_scheduler, add_job_locked, remove_old, add_failed, no_job, Handler, Cron, Error, Scheduler,
  add_job, force_add_job, remove_job,
}

-- What gocron documents: a new job gets a number that no job has, and runs; a removal ends the job;
-- a call that fails changes nothing; and the removal of a job that runs does not fail.
pub record IsCron (cron : Cron) : Type 0 where
  pub none_live : (i : ℕ) → cron.live cron.empty i ≡ none
  pub new_fresh :
      (id : String) (h : Handler) (s : cron.State) (j : ℕ)
      → (cron.new_job id h s).0 ≡ some j
      → cron.live s j ≡ none
  pub new_live :
      (id : String) (h : Handler) (s : cron.State) (j i : ℕ)
      → (cron.new_job id h s).0 ≡ some j
      → cron.live (cron.new_job id h s).1 i ≡ (if i == j then some (id, h) else cron.live s i)
  pub new_failed :
      (id : String) (h : Handler) (s : cron.State) (i : ℕ)
      → (cron.new_job id h s).0 ≡ none
      → cron.live (cron.new_job id h s).1 i ≡ cron.live s i
  pub removed :
      (j : ℕ) (s : cron.State) (i : ℕ)
      → (cron.remove_job j s).0 ≡ true
      → cron.live (cron.remove_job j s).1 i ≡ (if i == j then none else cron.live s i)
  pub not_removed :
      (j : ℕ) (s : cron.State) (i : ℕ)
      → (cron.remove_job j s).0 ≡ false
      → cron.live (cron.remove_job j s).1 i ≡ cron.live s i
  pub removes :
      (j : ℕ) (s : cron.State) (x : String × Handler)
      → cron.live s j ≡ some x
      → (cron.remove_job j s).0 ≡ true

-- What a caller asks for.
pub data Call : Type 0 where
  adds forces : String → Handler → Call
  removes : String → Call

-- The jobs that should run after a call, by what it returned: an id keeps its first handler under
-- AddJob and takes the new one under ForceAddJob; a call that fails changes nothing.
abbrev pub wanted : Call → Option Error → Map String Handler → Map String Handler
wanted c (some e) m = m
wanted (adds id h) none m = if is_some (get id m) then m else put id h m
wanted (forces id h) none m = put id h m
wanted (removes id) none m = del id m

module _ (cron : Cron) where
  -- A job runs under an id with a handler exactly if it is wanted, and each id has one job at most,
  -- which is its entry.
  pub record Runs (c : Scheduler cron) (m : Map String Handler) : Type 0 where
    pub listed :
        (k : String) (j : ℕ)
        → get k c.entries ≡ some j
        → (h : Handler) × (cron.live c.s j ≡ some (k, h)) × (get k m ≡ some h)
    pub known : (k : String) (h : Handler) → get k m ≡ some h → (j : ℕ) × (get k c.entries ≡ some j)
    pub only :
        (j : ℕ) (k : String) (h : Handler)
        → cron.live c.s j ≡ some (k, h)
        → get k c.entries ≡ some j

  unfoldable pub call : Call → Scheduler cron → Option Error × Scheduler cron
  call (adds id h) c = add_job cron id h c
  call (forces id h) c = force_add_job cron id h c
  call (removes id) c = remove_job cron id c

  unfoldable pub call_all :
      List Call → Scheduler cron × Map String Handler → Scheduler cron × Map String Handler
  call_all [] p = p
  call_all (a ∷ later) (c, m) = call_all later ((call a c).1, wanted a (call a c).0 m)
