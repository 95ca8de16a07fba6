-- ===== src/Cache/Answers.antt =====
-- What loading does to the remote cache.
use mathlib.Core.Sum.{inr-injective}
use go_lib.Base.{
  String, [], Option, none, some, ◌≡◌, ◌⊎◌, inl, inr, ◌==◌, false, refl, ◌∙◌, ap, sym,
  comparable_string,
}
use go_lib.Cache.{
  Found, found, not_found, failed, LoadResult, loaded, load_failed, Cache, load_remote,
}
use go_lib.Cache.Coherence.{NearLaws, FarLaws}

Sum-cases : {A B : Type 0} (s : A ⊎ B) → ((a : A) × (s ≡ inl a)) ⊎ ((b : B) × (s ≡ inr b))
Sum-cases (inl a) = inl (a, refl)
Sum-cases (inr b) = inr (b, refl)

module _ {L R F T : Type 0} (near : Cache L F T) (far : Cache R F T) (nl : NearLaws near)
    (fl : FarLaws far) (loader : String → F ⊎ T) (k : String) (s : R) where
  -- A value that is loaded is what the remote cache has for its key, if it has it still; loading
  -- adds nothing at other keys, and nothing at all if the load failed.
  pub record IsLoad (x : LoadResult F T × R) : Type 0 where
    pub said : (v u : T) → x.0 ≡ loaded v → fl.view x.1 k ≡ some u → u ≡ v
    pub others :
        (j : String) (u : T) → (k == j) ≡ false → fl.view x.1 j ≡ some u → fl.view s j ≡ some u
    pub nothing :
        (j : String) (u : T) (e : F)
        → x.0 ≡ load_failed e
        → fl.view x.1 j ≡ some u
        → fl.view s j ≡ some u

  abbrev after : R
  after = (far.get k s).1

  said_of : (v x u : T) → v ≡ x → u ≡ v → u ≡ x
  said_of v x u same e = e ∙ same

  found_said : (v : T) → (far.get k s).0 ≡ found v → (u : T) → fl.view after k ≡ some u → u ≡ v
  found_said v e u g =
      let was = fl.get_found k s v e in
      let still = fl.get_keeps k k s u g in let both : some u ≡ some v = sym still ∙ was in cc

  read-IsLoad :
      (r : LoadResult F T)
      → ((v u : T) → r ≡ loaded v → fl.view after k ≡ some u → u ≡ v)
      → IsLoad (r, after)
  read-IsLoad r said = record {
    said = said;
    others = λ j u _ g. fl.get_keeps k j s u g;
    nothing = λ j u e _ g. fl.get_keeps k j s u g;
  }

  load_remote-IsLoad_of :
      (r : Found F T) (l : F ⊎ T) (w : Option F)
      → (far.get k s).0 ≡ r
      → loader k ≡ l
      → ((v : T) → l ≡ inr v → (far.set k v [] after).0 ≡ w)
      → IsLoad (load_remote near far loader k s)
  unfolding load_remote
  load_remote-IsLoad_of (found v) l w e le we =
      rw (e, load_remote)
        (read-IsLoad (loaded v)
          (λ x u h g. let same : v ≡ x = cc in said_of v x u same (found_said v e u g)))
  load_remote-IsLoad_of (failed x) l w e le we =
      rw (e, load_remote) (read-IsLoad (load_failed x) (λ v u h g. absurd (cc)))
  load_remote-IsLoad_of not_found (inl x) w e le we =
      rw (e, le, load_remote) (read-IsLoad (load_failed x) (λ v u h g. absurd (cc)))
  load_remote-IsLoad_of not_found (inr v) (some x) e le we =
      rw (e, le, we v refl, load_remote)
        (record {
          said = λ y u h g. absurd (cc);
          others = λ j u other g. fl.get_keeps k j s u (fl.set_keeps k j v u [] after other g);
          nothing = λ j u y h g. absurd (cc);
        })
  load_remote-IsLoad_of not_found (inr v) none e le we =
      rw (e, le, we v refl, load_remote)
        (record {
          said = λ y u h g.
              let same : v ≡ y = cc in
              said_of v y u same (fl.set_puts k v u [] after (we v refl) g);
          others = λ j u other g. fl.get_keeps k j s u (fl.set_keeps k j v u [] after other g);
          nothing = λ j u y h g. absurd (cc);
        })

  pub load_remote-IsLoad : IsLoad (load_remote near far loader k s)
  load_remote-IsLoad = elim (Sum-cases (loader k)) [
    | inl (x, le) ↦
        load_remote-IsLoad_of (far.get k s).0 (loader k) none refl refl
          (λ v e. absurd (let no_value : inl x ≡ inr v = sym le ∙ e in cc))
    | inr (x, le) ↦
        load_remote-IsLoad_of (far.get k s).0 (loader k) (far.set k x [] after).0 refl refl
          (λ v e. ap (λ y. (far.set k y [] after).0) (inr-injective v x (sym e ∙ le)))
  ]
