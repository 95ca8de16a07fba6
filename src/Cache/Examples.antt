-- ===== src/Cache/Examples.antt =====
-- Two levels of maps, at which the theorems on the caches are applied.
use text.Mathlib.TextEquality.{eq_iff}
use go_lib.Base.{
  ℕ, String, List, [], ◌∷◌, Option, none, some, ◌≡◌, ◌⊎◌, inl, inr, arith, Map, get as map_get,
  put as map_put, del as map_del, get-put, get-del, comparable_string, ◌==◌, if◌then◌else◌,
}
use go_lib.Cache.{Found, found, not_found, Cache, TwoLevel, get, set}
use go_lib.Cache.Coherence.{NearLaws}
use go_lib.Cache.Calls.{Call, gets, sets, deletes, loads}

abbrev read : Option ℕ → Found String ℕ
read none = not_found
read (some v) = found v

abbrev table : Cache (Map String ℕ) String ℕ
table = record {
  get = λ k s. (read (map_get k s), s);
  set = λ k v _ s. (none, map_put k v s);
  delete = λ k s. (none, map_del k s);
}

read_found : (o : Option ℕ) (v : ℕ) → read o ≡ found v → o ≡ some v
read_found none v h = ground arith
read_found (some x) v h = ground arith

near_laws : NearLaws table
near_laws = record {
  view = λ s k. map_get k s;
  get_found = λ k s v h. read_found (map_get k s) v h;
  get_keeps = λ k j s v h. h;
  set_puts = λ k v u os s h. ground (arith, get-put k k v s, eq_iff k k);
  set_keeps = λ k j v u os s other h. ground (arith, get-put k j v s, eq_iff k j);
  delete_keeps = λ k j s u h. ground (arith, get-del k j s, eq_iff k j);
}

abbrev start : TwoLevel (Map String ℕ) (Map String ℕ)
start = record { local = []; remote = ("a", 1) ∷ [] }

abbrev loader : String → String ⊎ ℕ
loader k = if k == "b" then inr 2 else inl "no origin"

abbrev calls : List (Call ℕ)
calls = gets "a" ∷ loads "b" ∷ sets "a" 3 [] ∷ deletes "b" ∷ loads "c" ∷ gets "a" ∷ []
