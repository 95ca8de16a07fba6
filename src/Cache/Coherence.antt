-- ===== src/Cache/Coherence.antt =====
-- The two levels do not contradict each other at a key: what each call does to that.
use text.Mathlib.TextEquality.{eq_iff}
use go_lib.Base.{
  String, List, [], Option, none, some, ◌≡◌, ◌∙◌, sym, subst, inl, inr, ◌==◌, true, false, refl,
  arith, comparable_string, Bool-cases,
}
use go_lib.Cache.{
  Found, found, not_found, failed, CacheOption, Cache, TwoLevel, fill, get_remote, get, set, delete,
}

-- What a cache in memory may do: forget entries at any time, but never make one up. `view` is what
-- it has.
pub record NearLaws {S F T : Type 0} (c : Cache S F T) : Type 0 where
  pub view : S → String → Option T
  pub get_found : (k : String) (s : S) (v : T) → (c.get k s).0 ≡ found v → view s k ≡ some v
  pub get_keeps : (k j : String) (s : S) (v : T) → view (c.get k s).1 j ≡ some v → view s j ≡ some v
  pub set_puts :
      (k : String) (v u : T) (os : List CacheOption) (s : S)
      → view (c.set k v os s).1 k ≡ some u
      → u ≡ v
  pub set_keeps :
      (k j : String) (v u : T) (os : List CacheOption) (s : S)
      → (k == j) ≡ false
      → view (c.set k v os s).1 j ≡ some u
      → view s j ≡ some u
  pub delete_keeps :
      (k j : String) (s : S) (u : T) → view (c.delete k s).1 j ≡ some u → view s j ≡ some u

-- What a remote cache with expiring entries may do, while no other process writes to it: forget
-- entries at any time, but never make one up; a Set or Delete that returns an error may have been
-- done or not.
pub record FarLaws {S F T : Type 0} (c : Cache S F T) : Type 0 where
  pub view : S → String → Option T
  pub get_found : (k : String) (s : S) (v : T) → (c.get k s).0 ≡ found v → view s k ≡ some v
  pub get_keeps : (k j : String) (s : S) (v : T) → view (c.get k s).1 j ≡ some v → view s j ≡ some v
  pub set_puts :
      (k : String) (v u : T) (os : List CacheOption) (s : S)
      → (c.set k v os s).0 ≡ none
      → view (c.set k v os s).1 k ≡ some u
      → u ≡ v
  pub set_keeps :
      (k j : String) (v u : T) (os : List CacheOption) (s : S)
      → (k == j) ≡ false
      → view (c.set k v os s).1 j ≡ some u
      → view s j ≡ some u
  pub delete_keeps :
      (k j : String) (s : S) (u : T) → view (c.delete k s).1 j ≡ some u → view s j ≡ some u

module _ {L R F T : Type 0} (near : Cache L F T) (far : Cache R F T) (nl : NearLaws near)
    (fl : FarLaws far) (j : String) where
  -- If both levels have an entry for the key, it is the same.
  abbrev pub AgreesAt : TwoLevel L R → Type 0
  AgreesAt t = (v u : T) → nl.view t.local j ≡ some v → fl.view t.remote j ≡ some u → u ≡ v

  -- A level that forgets entries contradicts nothing.
  pub shrink-AgreesAt :
      (t : TwoLevel L R) (l : L) (s : R)
      → ((v : T) → nl.view l j ≡ some v → nl.view t.local j ≡ some v)
      → ((u : T) → fl.view s j ≡ some u → fl.view t.remote j ≡ some u)
      → AgreesAt t
      → AgreesAt (record { local = l; remote = s })
  shrink-AgreesAt t l s less fewer inv v u h g = inv v u (less v h) (fewer u g)

  pub fill-AgreesAt :
      (k : String) (v : T) (os : List CacheOption) (t : TwoLevel L R)
      → ((u : T) → fl.view t.remote k ≡ some u → u ≡ v)
      → ((k == j) ≡ false → AgreesAt t)
      → AgreesAt (fill near far k v os t)
  unfolding fill
  fill-AgreesAt k v os t said inv w u h g = elim (Bool-cases (k == j)) [
    | inl same ↦
        let e : k ≡ j = (eq_iff k j).0 same in
        ground (
          arith,
          said u (subst (λ i. fl.view t.remote i ≡ some u) (sym e) g),
          nl.set_puts k v w os t.local
              (subst (λ i. nl.view (near.set k v os t.local).1 i ≡ some w) (sym e) h),
        )
    | inr other ↦ inv other w u (nl.set_keeps k j v w os t.local other h) g
  ]

  pub near_read-AgreesAt :
      (k : String) (t : TwoLevel L R)
      → AgreesAt t
      → AgreesAt (record t { local = (near.get k t.local).1 })
  near_read-AgreesAt k t inv v u h g = inv v u (nl.get_keeps k j t.local v h) g

  far_read-AgreesAt :
      (k : String) (t : TwoLevel L R)
      → AgreesAt t
      → AgreesAt (record t { remote = (far.get k t.remote).1 })
  far_read-AgreesAt k t inv v u h g = inv v u h (fl.get_keeps k j t.remote u g)

  -- What Get found in the remote cache is what that has afterwards, if it has it still.
  pub said_by_get :
      (k : String) (s : R) (v u : T)
      → (far.get k s).0 ≡ found v
      → fl.view (far.get k s).1 k ≡ some u
      → u ≡ v
  said_by_get k s v u e g =
      let was = fl.get_found k s v e in
      let is = fl.get_keeps k k s u g in let both : some u ≡ some v = sym is ∙ was in cc

  get_remote-AgreesAt_of :
      (k : String) (t : TwoLevel L R) (r : Found F T)
      → (far.get k t.remote).0 ≡ r
      → AgreesAt t
      → AgreesAt (get_remote near far k t).1
  unfolding get_remote
  get_remote-AgreesAt_of k t (found v) e inv =
      rw (e, get_remote)
        (fill-AgreesAt k v [] (record t { remote = (far.get k t.remote).1 })
          (λ u g. said_by_get k t.remote v u e g) (λ _. far_read-AgreesAt k t inv))
  get_remote-AgreesAt_of k t not_found e inv = rw (e, get_remote) (far_read-AgreesAt k t inv)
  get_remote-AgreesAt_of k t (failed x) e inv = rw (e, get_remote) (far_read-AgreesAt k t inv)

  pub get-AgreesAt_of :
      (k : String) (t : TwoLevel L R) (r : Found F T)
      → (near.get k t.local).0 ≡ r
      → AgreesAt t
      → AgreesAt (get near far k t).1
  unfolding get
  get-AgreesAt_of k t (found v) e inv = rw (e, get) (near_read-AgreesAt k t inv)
  get-AgreesAt_of k t not_found e inv =
      rw (e, get)
        (get_remote-AgreesAt_of k (record t { local = (near.get k t.local).1 })
          (far.get k t.remote).0 refl (near_read-AgreesAt k t inv))
  get-AgreesAt_of k t (failed x) e inv = rw (e, get) (near_read-AgreesAt k t inv)

  pub set-AgreesAt_of :
      (k : String) (v : T) (os : List CacheOption) (t : TwoLevel L R) (r : Option F)
      → (far.set k v os t.remote).0 ≡ r
      → ((k == j) ≡ true → (set near far k v os t).0 ≡ none)
      → AgreesAt t
      → AgreesAt (set near far k v os t).1
  unfolding set
  set-AgreesAt_of k v os t (some x) e fine inv = elim (Bool-cases (k == j)) [
    | inl same ↦ absurd (let done : some x ≡ none = rw (e, set) at (fine same) in cc)
    | inr other ↦ rw (e, set) (λ w u h g. inv w u h (fl.set_keeps k j v u os t.remote other g))
  ]
  set-AgreesAt_of k v os t none e fine inv =
      rw (e, set)
        (fill-AgreesAt k v os (record t { remote = (far.set k v os t.remote).1 })
          (λ u g. fl.set_puts k v u os t.remote e g)
          (λ other w u h g. inv w u h (fl.set_keeps k j v u os t.remote other g)))

  pub delete-AgreesAt :
      (k : String) (t : TwoLevel L R) → AgreesAt t → AgreesAt (delete near far k t).1
  unfolding delete
  delete-AgreesAt k t inv v u h g =
      inv v u (nl.delete_keeps k j t.local v h) (fl.delete_keeps k j t.remote u g)
