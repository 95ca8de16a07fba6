-- ===== src/Cache/Calls.antt =====
-- A two-level cache under any sequence of calls.
use go_lib.Base.{String, List, [], ◌∷◌, none, ◌≡◌, ◌≢◌, ◌⊎◌, true, ◌==◌, comparable_string}
use go_lib.Cache.{set_failed, CacheOption, Cache, TwoLevel, get, set, delete, get_or_load}
use go_lib.Cache.Coherence.{NearLaws, FarLaws, AgreesAt}

-- A call, and what it may write.
pub data Call (T : Type 0) : Type 0 where
  gets deletes loads : String → Call T
  sets : String → T → List CacheOption → Call T

module _ {L R F T : Type 0} (near : Cache L F T) (far : Cache R F T) where
  unfoldable pub call : (String → F ⊎ T) → Call T → TwoLevel L R → TwoLevel L R
  call loader (gets k) t = (get near far k t).1
  call loader (deletes k) t = (delete near far k t).1
  call loader (loads k) t = (get_or_load near far loader k t).1
  call loader (sets k v os) t = (set near far k v os t).1

  unfoldable pub call_all : (String → F ⊎ T) → List (Call T) → TwoLevel L R → TwoLevel L R
  call_all loader [] t = t
  call_all loader (c ∷ cs) t = call_all loader cs (call loader c t)

  -- No Set of the key returned an error, and no load of it could not set its value.
  abbrev pub IsFine : (String → F ⊎ T) → String → Call T → TwoLevel L R → Type 0
  IsFine loader j (sets k v os) t = (k == j) ≡ true → (set near far k v os t).0 ≡ none
  IsFine loader j (loads k) t =
      (k == j) ≡ true → (e : F) → (get_or_load near far loader k t).0 ≢ set_failed e
  IsFine loader j _ t = Unit {0}

  abbrev pub AllFine : (String → F ⊎ T) → String → List (Call T) → TwoLevel L R → Type 0
  AllFine loader j [] t = Unit {0}
  AllFine loader j (c ∷ cs) t = IsFine loader j c t × AllFine loader j cs (call loader c t)

  module _ (nl : NearLaws near) (fl : FarLaws far) (loader : String → F ⊎ T) (j : String) where
    abbrev At : TwoLevel L R → Type 0
    At t = AgreesAt near far nl fl j t
