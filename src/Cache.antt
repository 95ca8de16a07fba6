-- ===== src/Cache.antt =====
-- cache/cache.go and cache/twolevel.go: a cache of two levels over any two caches. Calls that share a
-- flight of `singleflight` are one call.
pub mod Coherence
pub mod Answers
pub mod Calls
mod Examples
use go_lib.Base.{
  ℕ, ℤ, pos, String, Bool, true, false, List, [], ◌∷◌, Option, ◌⊎◌, inl, inr, none, some,
  if◌then◌else◌,
}

-- What `Get` returns: a value, ErrNotFound, or another error.
pub data Found {ℓ} (F : Type 0) (T : Type ℓ) : Type ℓ where
  found : T → Found F T
  not_found : Found F T
  failed : F → Found F T

-- What `GetOrLoad` of the two levels returns: a value, an error of the remote cache or the loader,
-- or that the loaded value could not be set.
pub data LoadResult {ℓ} (F : Type 0) (T : Type ℓ) : Type ℓ where
  loaded : T → LoadResult F T
  load_failed set_failed : F → LoadResult F T

-- An `Option` only sets the time to live.
pub record CacheOptions : Type 0 where
  pub ttl : ℤ

-- One constructor for `WithTTL`.
pub data CacheOption : Type 0 where
  with_ttl : ℤ → CacheOption

unfoldable pub apply_cache_options : List CacheOption → CacheOptions → CacheOptions
apply_cache_options [] o = o
apply_cache_options (with_ttl d ∷ os) o = apply_cache_options os (record o { ttl = d })

-- The interface `Cache`, on a state of the implementation's own. GetOrLoad of the two levels does
-- not use theirs.
pub record Cache (S F : Type 0) (T : Type 0) : Type 0 where
  pub get : String → S → Found F T × S
  pub set : String → T → List CacheOption → S → Option F × S
  pub delete : String → S → Option F × S

pub record TwoLevel (L R : Type 0) : Type 0 where
  pub local : L
  pub remote : R

module _ {L R F T : Type 0} (near : Cache L F T) (far : Cache R F T) where
  -- `_ = t.local.Set(ctx, key, v)`
  unfoldable pub fill : String → T → List CacheOption → TwoLevel L R → TwoLevel L R
  fill key v opts t = record t { local = (near.set key v opts t.local).1 }

  -- What follows a miss of the local cache.
  unfoldable pub get_remote : String → TwoLevel L R → Found F T × TwoLevel L R
  unfolding fill
  get_remote key t =
      let (r, s) = far.get key t.remote in
      let u : TwoLevel L R = record t { remote = s } in
      elim r [
        | found v ↦ (found v, fill key v [] u)
        | not_found ↦ (not_found, u)
        | failed e ↦ (failed e, u)
      ]

  unfoldable pub get : String → TwoLevel L R → Found F T × TwoLevel L R
  unfolding get_remote
  get key t =
      let (r, s) = near.get key t.local in
      let u : TwoLevel L R = record t { local = s } in
      let missed = get_remote key u in
      elim r [ found v ↦ (found v, u) | not_found ↦ missed | failed e ↦ (failed e, u) ]

  unfoldable pub set : String → T → List CacheOption → TwoLevel L R → Option F × TwoLevel L R
  unfolding fill
  set key v opts t =
      let (err, s) = far.set key v opts t.remote in
      let u : TwoLevel L R = record t { remote = s } in
      elim err [ some e ↦ (some e, u) | none ↦ (none, fill key v opts u) ]

  unfoldable pub delete : String → TwoLevel L R → Option F × TwoLevel L R
  delete key t =
      let (err, s) = far.delete key t.remote in
      (err, record { local = (near.delete key t.local).1; remote = s })

  -- The call that the single flight makes once: the remote cache, and then the loader.
  unfoldable pub load_remote : (String → F ⊎ T) → String → R → LoadResult F T × R
  load_remote loader key s =
      let (r, s₁) = far.get key s in
      elim r [
        | found v ↦ (loaded v, s₁)
        | failed e ↦ (load_failed e, s₁)
        | not_found ↦ elim (loader key) [
          | inl e ↦ (load_failed e, s₁)
          | inr v ↦
              let (err, s₂) = far.set key v [] s₁ in
              elim err [ some e ↦ (set_failed e, s₂) | none ↦ (loaded v, s₂) ]
        ]
      ]

  -- Every error of the local cache is a miss here.
  unfoldable pub get_or_load :
      (String → F ⊎ T) → String → TwoLevel L R → LoadResult F T × TwoLevel L R
  unfolding load_remote fill
  get_or_load loader key t =
      let (hit, l) = near.get key t.local in
      let (r, s) = load_remote loader key t.remote in
      let u : TwoLevel L R = record { local = l; remote = s } in
      let missed : LoadResult F T × TwoLevel L R = elim r [
        | loaded v ↦ (loaded v, fill key v [] u)
        | load_failed e ↦ (load_failed e, u)
        | set_failed e ↦ (set_failed e, u)
      ] in
      elim hit [
        | found v ↦ (loaded v, record t { local = l })
        | not_found ↦ missed
        | failed e ↦ missed
      ]
