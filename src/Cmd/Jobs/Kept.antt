-- ===== src/Cmd/Jobs/Kept.antt =====
-- Each call keeps the jobs that run to those that are wanted.
use go_lib.Base.{
  refl, get-del, get_empty, nat_beq_iff, ℕ, ◌≡◌, inl, inr, String, true, false, List, [], ◌∷◌,
  Option, none, some, Map, get, put, del, if◌then◌else◌, Option-cases, comparable_string,
  comparable_nat, ◌==◌, arith,
}
use go_lib.Cmd.{
  new_scheduler, add_job_locked, remove_old, Handler, Cron, Scheduler, add_job, force_add_job,
  remove_job,
}
use go_lib.Cmd.Jobs.{IsCron, Call, adds, forces, removes, wanted, Runs, call, call_all}
use go_lib.Cmd.Jobs.Entries.{same-Runs, retires, put-Runs}
use go_lib.Cmd.Jobs.Branches.{
  add_job_locked-none, add_job_locked-some, force_add_job-none, force_add_job-some, add_job-some,
  add_job-none, remove_job-none, remove_job-some,
}

module _ (cron : Cron) where
  module _ (ok : IsCron cron) where
    -- What a successful registration makes of the jobs that run, before and after the removal of the
    -- old one.
    removed-live :
        (id : String) (h : Handler) (j : ℕ) (c : Scheduler cron) (m : Map String Handler)
        → (cron.new_job id h c.s).0 ≡ some j
        → Runs cron c m
        → (o : Option ℕ) → get id c.entries ≡ o
        → (i : ℕ)
        → cron.live
            (remove_old cron o
              (record { s = (cron.new_job id h c.s).1; entries = put id j c.entries })).s
            i
          ≡ (if i == j then some (id, h) else if retires cron o i then none else cron.live c.s i)
    removed-live id h j c m e r none g i = ok.new_live id h c.s j i e
    removed-live id h j c m e r (some o) g i =
        let (ho, b, w) = r.listed id o g in
        let s1 = (cron.new_job id h c.s).1 in
        let still : cron.live s1 o ≡ some (id, ho) =
          ground (arith, ok.new_live id h c.s j o e, ok.new_fresh id h c.s j e, nat_beq_iff o j) in
        ground (
          arith,
          ok.removed o s1 i (ok.removes o s1 (id, ho) still),
          ok.new_live id h c.s j i e,
          ok.new_fresh id h c.s j e,
          nat_beq_iff i j,
          nat_beq_iff i o,
        )

    not_wanted :
        (id : String) (c : Scheduler cron) (m : Map String Handler)
        → get id c.entries ≡ none
        → Runs cron c m
        → get id m ≡ none
    not_wanted id c m g r = elim (Option-cases (get id m)) [
      | inl e ↦ e
      | inr (h, e) ↦ let (j, a) = r.known id h e in absurd (cc)
    ]

    -- The entry and the job of `id` go.
    del-Runs :
        (id : String) (h : Handler) (j : ℕ) (c : Scheduler cron) (m : Map String Handler)
        → get id c.entries ≡ some j
        → cron.live c.s j ≡ some (id, h)
        → (cron.remove_job j c.s).0 ≡ true
        → Runs cron c m
        → Runs cron
            (record { s = (cron.remove_job j c.s).1; entries = del id c.entries })
            (del id m)
    del-Runs id h j c m g a done r = record {
      listed = λ k i e.
          let f : (id == k) ≡ false = ground (arith, get-del id k c.entries) in
          let e' : get k c.entries ≡ some i = ground (arith, get-del id k c.entries) in
          let (h', b, w) = r.listed k i e' in
          (
            h',
            ground
                (arith, ok.removed j c.s i done, nat_beq_iff i j, comparable_string.decides id k),
            ground (arith, get-del id k m),
          );
      known = λ k h' e.
          let f : (id == k) ≡ false = ground (arith, get-del id k m) in
          let (i, b) = r.known k h' (ground (arith, get-del id k m)) in
          (i, ground (arith, get-del id k c.entries));
      only = λ i k h' e. ground (
        arith,
        ok.removed j c.s i done,
        nat_beq_iff i j,
        r.only i k h',
        get-del id k c.entries,
        comparable_string.decides id k,
      );
    }

    locked-Runs :
        (id : String) (h : Handler) (c : Scheduler cron) (m : Map String Handler) (n : Option ℕ)
        → (cron.new_job id h c.s).0 ≡ n
        → get id c.entries ≡ none
        → get id m ≡ none
        → Runs cron c m
        → Runs cron
            (add_job_locked cron id h c).1
            (wanted (adds id h) (add_job_locked cron id h c).0 m)
    locked-Runs id h c m none e g a r = rw (add_job_locked-none cron id h c e) (
        same-Runs cron c (record c { s = (cron.new_job id h c.s).1 }) m refl
          (λ i. ok.new_failed id h c.s i e) r)
    locked-Runs id h c m (some j) e g a r =
        rw (add_job_locked-some cron id h c j e, a)
          (put-Runs cron id h j c (cron.new_job id h c.s).1 m (ok.new_fresh id h c.s j e)
            (λ i. rw g (removed-live id h j c m e r none g i)) r)

    old-Runs :
        (id : String) (h : Handler) (j : ℕ) (c : Scheduler cron) (m : Map String Handler)
        → (cron.new_job id h c.s).0 ≡ some j
        → Runs cron c m
        → (o : Option ℕ) → get id c.entries ≡ o
        → Runs cron
            (remove_old cron o
              (record { s = (cron.new_job id h c.s).1; entries = put id j c.entries }))
            (put id h m)
    old-Runs id h j c m e r none g =
        put-Runs cron id h j c (cron.new_job id h c.s).1 m (ok.new_fresh id h c.s j e)
          (λ i. rw g (removed-live id h j c m e r none g i)) r
    old-Runs id h j c m e r (some o) g =
        put-Runs cron id h j c (cron.remove_job o (cron.new_job id h c.s).1).1 m
          (ok.new_fresh id h c.s j e) (λ i. rw g (removed-live id h j c m e r (some o) g i)) r

    force-Runs :
        (id : String) (h : Handler) (c : Scheduler cron) (m : Map String Handler) (n : Option ℕ)
        → (cron.new_job id h c.s).0 ≡ n
        → Runs cron c m
        → Runs cron
            (force_add_job cron id h c).1
            (wanted (forces id h) (force_add_job cron id h c).0 m)
    force-Runs id h c m none e r = rw (force_add_job-none cron id h c e) (
        same-Runs cron c (record c { s = (cron.new_job id h c.s).1 }) m refl
          (λ i. ok.new_failed id h c.s i e) r)
    force-Runs id h c m (some j) e r =
        rw (force_add_job-some cron id h c j e) (old-Runs id h j c m e r (get id c.entries) refl)

    add-Runs :
        (id : String) (h : Handler) (c : Scheduler cron) (m : Map String Handler) (o : Option ℕ)
        → get id c.entries ≡ o
        → Runs cron c m
        → Runs cron (add_job cron id h c).1 (wanted (adds id h) (add_job cron id h c).0 m)
    add-Runs id h c m (some j) g r =
        let (h', a, b) = r.listed id j g in rw (add_job-some cron id h c j g, b) r
    add-Runs id h c m none g r =
        rw (add_job-none cron id h c g)
          (locked-Runs id h c m (cron.new_job id h c.s).0 refl g (not_wanted id c m g r) r)

    remove-Runs :
        (id : String) (c : Scheduler cron) (m : Map String Handler) (o : Option ℕ)
        → get id c.entries ≡ o
        → Runs cron c m
        → Runs cron (remove_job cron id c).1 (wanted (removes id) (remove_job cron id c).0 m)
    remove-Runs id c m none g r = rw (remove_job-none cron id c g) r
    remove-Runs id c m (some j) g r =
        let (h, a, b) = r.listed id j g in
        let done = ok.removes j c.s (id, h) a in
        rw (remove_job-some cron id c j g done) (del-Runs id h j c m g a done r)

    call-Runs :
        (a : Call) (c : Scheduler cron) (m : Map String Handler)
        → Runs cron c m
        → Runs cron (call cron a c).1 (wanted a (call cron a c).0 m)
    unfolding call
    call-Runs (adds id h) c m r = add-Runs id h c m (get id c.entries) refl r
    call-Runs (forces id h) c m r = force-Runs id h c m (cron.new_job id h c.s).0 refl r
    call-Runs (removes id) c m r = remove-Runs id c m (get id c.entries) refl r

    call_all-Runs :
        (calls : List Call) (c : Scheduler cron) (m : Map String Handler)
        → Runs cron c m
        → let p = call_all cron calls (c, m) in Runs cron p.0 p.1
    unfolding call_all
    call_all-Runs [] c m r = r
    call_all-Runs (a ∷ later) c m r =
        call_all-Runs later (call cron a c).1 (wanted a (call cron a c).0 m) (call-Runs a c m r)

  -- If gocron behaves as documented, then after any sequence of AddJob, ForceAddJob and RemoveJob on
  -- a new scheduler a job runs under an id with a handler exactly if that handler is wanted for the
  -- id, and each id has at most one job, which is its entry. An id keeps its handler under AddJob and
  -- gets the new one under ForceAddJob, and a call that returns an error changes nothing.
  pub new_scheduler-Runs :
      (calls : List Call)
      → IsCron cron
      → let p = call_all cron calls (new_scheduler cron, []) in Runs cron p.0 p.1
  unfolding new_scheduler
  new_scheduler-Runs calls ok = call_all-Runs ok calls (new_scheduler cron) [] (record {
    listed = λ k j g. absurd (ground (arith, get_empty {V = ℕ} k));
    known = λ k h g. absurd (ground (arith, get_empty {V = Handler} k));
    only = λ j k h g. absurd (ground (arith, ok.none_live j));
  })
