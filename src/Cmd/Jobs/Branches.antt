-- ===== src/Cmd/Jobs/Branches.antt =====
-- Each call of the scheduler on each of its branches.
use go_lib.Base.{
  refl, ℕ, ◌≡◌, String, true, none, some, get, put, del, comparable_string, comparable_nat,
}
use go_lib.Cmd.{
  add_job_locked, remove_old, add_failed, no_job, Handler, Cron, Scheduler, add_job, force_add_job,
  remove_job,
}

module _ (cron : Cron) where
  pub add_job_locked-none :
      (id : String) (h : Handler) (c : Scheduler cron)
      → (cron.new_job id h c.s).0 ≡ none
      → add_job_locked cron id h c
        ≡ (some (add_failed id), record c { s = (cron.new_job id h c.s).1 })
  unfolding add_job_locked
  add_job_locked-none id h c e = rw (e, add_job_locked) refl

  pub add_job_locked-some :
      (id : String) (h : Handler) (c : Scheduler cron) (j : ℕ)
      → (cron.new_job id h c.s).0 ≡ some j
      → add_job_locked cron id h c
        ≡ (none, record { s = (cron.new_job id h c.s).1; entries = put id j c.entries })
  unfolding add_job_locked
  add_job_locked-some id h c j e = rw (e, add_job_locked) refl

  pub force_add_job-none :
      (id : String) (h : Handler) (c : Scheduler cron)
      → (cron.new_job id h c.s).0 ≡ none
      → force_add_job cron id h c
        ≡ (some (add_failed id), record c { s = (cron.new_job id h c.s).1 })
  unfolding force_add_job
  force_add_job-none id h c e = rw (add_job_locked-none id h c e) refl

  pub force_add_job-some :
      (id : String) (h : Handler) (c : Scheduler cron) (j : ℕ)
      → (cron.new_job id h c.s).0 ≡ some j
      → force_add_job cron id h c ≡ (
        none,
        remove_old cron
            (get id c.entries)
            (record { s = (cron.new_job id h c.s).1; entries = put id j c.entries }),
      )
  unfolding force_add_job
  force_add_job-some id h c j e = rw (add_job_locked-some id h c j e) refl

  pub add_job-some :
      (id : String) (h : Handler) (c : Scheduler cron) (j : ℕ)
      → get id c.entries ≡ some j
      → add_job cron id h c ≡ (none, c)
  unfolding add_job
  add_job-some id h c j g = rw (g, add_job) refl

  pub add_job-none :
      (id : String) (h : Handler) (c : Scheduler cron)
      → get id c.entries ≡ none
      → add_job cron id h c ≡ add_job_locked cron id h c
  unfolding add_job
  add_job-none id h c g = rw (g, add_job) refl

  pub remove_job-none :
      (id : String) (c : Scheduler cron)
      → get id c.entries ≡ none
      → remove_job cron id c ≡ (some (no_job id), c)
  unfolding remove_job
  remove_job-none id c g = rw (g, remove_job) refl

  pub remove_job-some :
      (id : String) (c : Scheduler cron) (j : ℕ)
      → get id c.entries ≡ some j
      → (cron.remove_job j c.s).0 ≡ true
      → remove_job cron id c
        ≡ (none, record { s = (cron.remove_job j c.s).1; entries = del id c.entries })
  unfolding remove_job
  remove_job-some id c j g e = rw (g, remove_job, e) refl
