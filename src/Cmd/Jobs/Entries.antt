-- ===== src/Cmd/Jobs/Entries.antt =====
-- A scheduler's entries and jobs when one is put or goes.
use go_lib.Base.{
  nat_beq_iff, ℕ, ◌≡◌, inl, inr, String, Bool, false, Option, none, some, Map, get, put, get-put,
  if◌then◌else◌, Bool-cases, Option-cases, comparable_string, comparable_nat, ◌==◌, arith,
}
use go_lib.Cmd.{Handler, Cron, Scheduler}
use go_lib.Cmd.Jobs.{Runs}

module _ (cron : Cron) where
  pub same-Runs :
      (c d : Scheduler cron) (m : Map String Handler)
      → d.entries ≡ c.entries
      → ((i : ℕ) → cron.live d.s i ≡ cron.live c.s i)
      → Runs cron c m
      → Runs cron d m
  same-Runs c d m e l r = record {
    listed = λ k j g. let (h, a, b) = r.listed k j (rw (← e) g) in (h, rw (l j) a, b);
    known = λ k h g. let (j, a) = r.known k h g in (j, rw e a);
    only = λ j k h g. rw e (r.only j k h (rw (← l j) g));
  }

  -- The job that an entry gives up.
  abbrev pub retires : Option ℕ → ℕ → Bool
  retires none i = false
  retires (some j) i = i == j

  -- A new job `j` under `id`, in the place of the old one.
  module _ (id : String) (h : Handler) (j : ℕ) (c : Scheduler cron) (s : cron.State)
      (m : Map String Handler) (fresh : cron.live c.s j ≡ none)
      (live : (i : ℕ)
        → cron.live s i ≡ (
            if i == j
            then some (id, h)
            else if retires (get id c.entries) i
            then none
            else cron.live c.s i))
      (r : Runs cron c m) where
    kept :
        (k : String) (i : ℕ) (h' : Handler)
        → (id == k) ≡ false
        → get k c.entries ≡ some i
        → cron.live c.s i ≡ some (k, h')
        → cron.live s i ≡ some (k, h')
    kept k i h' other g a = elim (Option-cases (get id c.entries)) [
      | inl none_old ↦ ground (arith, live i, nat_beq_iff i j)
      | inr (o, old) ↦
          let (ho, b, w) = r.listed id o old in
          ground (arith, live i, nat_beq_iff i j, nat_beq_iff i o, comparable_string.decides id k)
    ]

    put-listed :
        (k : String) (i : ℕ)
        → get k (put id j c.entries) ≡ some i
        → (h' : Handler) × (cron.live s i ≡ some (k, h')) × (get k (put id h m) ≡ some h')
    put-listed k i g = elim (Bool-cases (id == k)) [
      | inl same ↦ (
        h,
        ground (
          arith,
          live i,
          nat_beq_iff i j,
          get-put id k j c.entries,
          comparable_string.decides id k,
        ),
        ground (arith, get-put id k h m),
      )
      | inr other ↦
          let g' : get k c.entries ≡ some i = ground (arith, get-put id k j c.entries) in
          let (h', a, b) = r.listed k i g' in
          (h', kept k i h' other g' a, ground (arith, get-put id k h m))
    ]

    put-known :
        (k : String) (h' : Handler)
        → get k (put id h m) ≡ some h'
        → (i : ℕ) × (get k (put id j c.entries) ≡ some i)
    put-known k h' g = elim (Bool-cases (id == k)) [
      | inl same ↦ (j, ground (arith, get-put id k j c.entries))
      | inr other ↦
          let g' : get k m ≡ some h' = ground (arith, get-put id k h m) in
          let (i, a) = r.known k h' g' in (i, ground (arith, get-put id k j c.entries))
    ]

    put-only :
        (i : ℕ) (k : String) (h' : Handler)
        → cron.live s i ≡ some (k, h')
        → get k (put id j c.entries) ≡ some i
    put-only i k h' g = elim (Bool-cases (i == j)) [
      | inl same ↦
          ground (
            arith,
            live i,
            nat_beq_iff i j,
            get-put id k j c.entries,
            comparable_string.decides id k,
          )
      | inr other ↦ ground (
        arith,
        live i,
        nat_beq_iff i j,
        r.only i k h',
        get-put id k j c.entries,
        comparable_string.decides id k,
      )
    ]

    pub put-Runs : Runs cron (record { s = s; entries = put id j c.entries }) (put id h m)
    put-Runs = record { listed = put-listed; known = put-known; only = put-only }
