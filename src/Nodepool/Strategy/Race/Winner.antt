-- ===== src/Nodepool/Strategy/Race/Winner.antt =====
-- Which attempt of a race decides its result.
use go_lib.Base.{refl, arith, [], ◌∷◌, true, ◌++◌, is_some, ◌≢◌, All, ◌≡◌, ℕ}
use go_lib.Nodepool.Types.{Platform, Errors, fail}
use go_lib.Nodepool.World.{Outcome, error_for}
use go_lib.Nodepool.Strategy.Race.{append_error, none, List, collect}

module _ ⦃p : Platform⦄ where
  abbrev pub IsFail : Outcome → Type 0
  IsFail o = o.status ≡ fail

  -- If every attempt of a race failed, so does the race, with no response and an error.
  pub collect_fails :
      (n : ℕ) (errs : Errors) (os : List Outcome)
      → All IsFail os
      → let r = collect n errs os in
        (r.status ≡ fail) × (r.response ≡ none) × (is_some r.error ≡ true)
  unfolding collect
  collect_fails n errs [] h = (refl, refl, refl)
  collect_fails n errs (o ∷ os) h =
      ground (arith, collect_fails n (append_error errs o.error) os h.1)

  -- The first attempt to finish without a node failure decides: its status and response
  -- are the result's, whatever came before and comes after, with no error on success and its own
  -- error on a business error.
  pub collect_first :
      (n : ℕ) (errs : Errors) (before after : List Outcome) (o : Outcome)
      → All IsFail before
      → o.status ≢ fail
      → let r = collect n errs (before ++ o ∷ after) in
        (r.status ≡ o.status) × (r.response ≡ o.response) × (r.error ≡ error_for o.status o.error)
  unfolding collect
  collect_first n errs [] after o h ok = ground arith
  collect_first n errs (b ∷ before) after o h ok =
      ground (arith, collect_first n (append_error errs b.error) before after o h.1 ok)
