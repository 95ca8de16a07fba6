-- ===== src/RequestPool/Examples.antt =====
-- A pool of two endpoints, at which the theorems on the request pool are applied.
use go_lib.Base.{
  ℕ, zero, suc, ◌+◌, ◌≡◌, ◌↔◌, refl, String, Bool, true, false, List, [], ◌∷◌, ◌++◌, Option, none,
  some, Map, get, pos, arith, Distinct, cons_cases, inl, inr, comparable_nat, comparable_string,
  is_some,
}
use go_lib.NetHttp.{Response}
use go_lib.RequestPool.{Request, zero_request, PointConfig, PoolError}
use go_lib.RequestPool.Answer.{Parsers}
use go_lib.RequestPool.Work.{
  World, starts, takes_own, takes_global, handles, answers, response, error,
}
use go_lib.RequestPool.Calls.{
  Scores, new_pool, add_points, empty_pool, act_all, collect, Event, moves, submits, sends, sorts,
}
use go_lib.RequestPool.Conserved.{asked_of}
use go_lib.RequestPool.Conserved.Complete.{waiting, copies, has, NoErrors, collect-Complete}

abbrev parsers : Parsers
parsers = record {
  is_json = λ b. true;
  rpc = λ b. record {
    has_result = true;
    null = false;
    has_error = false;
    error_code = none;
    error_message = "";
  };
  contains = λ s t. false;
  to_lower = λ s. s;
}

-- The points in the order of their numbers.
abbrev scores : Scores
scores = record {
  Float = ℕ;
  float = λ n. n;
  plus = λ a b. a + b;
  minus = λ a b. a;
  over = λ a b. a;
  gt = λ a b. false;
  sort_slice = λ before is. is;
}

abbrev configs : List PointConfig
configs =
    record { url = "https://a"; headers = some [] }
    ∷ record { url = "https://b"; headers = some [] }
    ∷ []

abbrev pool : World
pool = add_points configs (empty_pool true [])

abbrev call : Request
call = record zero_request { method = "POST"; body = "{}" }

abbrev fine : Response
fine = record {
  status_code = 200;
  header = [];
  body = [];
  stats = some (record { total_time = 30; start_time = 0; end_time = 30 });
}

-- Two requests: the first is answered, and the second fails at one endpoint and goes on its way to
-- the other.
abbrev events : List Event
events =
    submits (("x", call) ∷ ("y", call) ∷ [])
    ∷ sorts
    ∷ moves 0 starts
    ∷ moves 10 starts
    ∷ sends 0
    ∷ sends 0
    ∷ moves 0 takes_global
    ∷ moves 0 (handles 5)
    ∷ moves 0 (answers 40 (response fine))
    ∷ moves 0 takes_global
    ∷ moves 0 (handles 50)
    ∷ moves 0 (answers 60 (error "refused" false))
    ∷ []

abbrev more : List Event
more = moves 10 takes_own ∷ moves 10 (handles 70) ∷ moves 10 (answers 90 (response fine)) ∷ []

two_names : Distinct {A = String} ("x" ∷ "y" ∷ [])
two_names = (
  λ m. elim (cons_cases m) [
    | inl e ↦ let h : false ≡ true = (comparable_string.decides "x" "y").1 e in cc
    | inr n ↦ elim n [ ]
  ],
  (λ m. elim m [ ], tt),
)

abbrev or_nothing : Option (Map String Request) → Map String Request
or_nothing none = []
or_nothing (some rs) = rs

abbrev half : Map String Request
half = or_nothing (get 1 (act_all parsers scores events pool).results)

-- The second request is on its way, once, and has no result yet.
half_way : waiting 1 "y" (act_all parsers scores events pool) ≡ 1
unfolding act_all new_pool get go_lib.Base.put
half_way = refl

abbrev no_error : Option PoolError
no_error = none

abbrev whole : Map String Request
whole = or_nothing (get 1 (act_all parsers scores (events ++ more) pool).results)

collect-Complete_example :
    ((id : String)
      → is_some (get id whole)
        ≡ has id (asked_of 1 (act_all parsers scores (events ++ more) pool).asked))
    × ((id : String) (r : Request) → get id whole ≡ some r → r.request_id ≡ id)
    × ((id : String) → copies 1 id (act_all parsers scores (events ++ more) pool) ≡ 0)
    × ((no_error ≡ none) ↔ NoErrors whole)
unfolding act_all new_pool collect get go_lib.Base.put
collect-Complete_example =
    collect-Complete parsers scores true [] configs (events ++ more) pool refl
      (two_names, omega arith) 1 whole no_error refl
