-- ===== src/RequestPool/Conserved/Places.antt =====
-- Where the requests of a group are in every state that the pool can reach.
use go_lib.Base.{
  ℕ, zero, suc, ◌≡◌, refl, String, Bool, List, [], ◌∷◌, Option, none, some, Map, get,
  comparable_nat, comparable_string, subst, Distinct, All,
}
use go_lib.RequestPool.{Request, PointConfig, PoolError}
use go_lib.RequestPool.Answer.{Parsers, RetryFunc}
use go_lib.RequestPool.Work.{World}
use go_lib.RequestPool.Calls.{
  Scores, add_points, empty_pool, new_pool, ids, submit, forget, collect, Event, moves, submits,
  sends, completes, gives_up, updates, sorts, or_same, act, act_all,
}
use go_lib.RequestPool.Conserved.{asked_of, IsConserved}
use go_lib.RequestPool.Conserved.Flows.{OnSome}
use go_lib.RequestPool.Conserved.Steps.{Effect, passes}
use go_lib.RequestPool.Conserved.Steps.Handling.{move_at-Effect}
use go_lib.RequestPool.Conserved.Groups.Saved.{Effect-IsConserved}
use go_lib.RequestPool.Conserved.Runs.{
  add_points-Quiet, update_points-Quiet, sort_points-Quiet, send_one-Effect,
}
use go_lib.RequestPool.Conserved.Runs.Submit.{submit-IsConserved, forget-IsConserved}

-- The identifiers of the map of a call are distinct, as the keys of a Go map are.
abbrev pub IsMap : Event → Type 0
IsMap (submits rs) = Distinct (ids rs)
IsMap _ = Unit {0}

module _ (parsers : Parsers) (scores : Scores) where
  OnSome-IsConserved :
      (w : World) (o : Option World)
      → OnSome (Effect w) o
      → IsConserved w
      → IsConserved (or_same o w)
  OnSome-IsConserved w none e c = c
  OnSome-IsConserved w (some v) e c = Effect-IsConserved w v e c

  submits-IsConserved :
      (rs : Map String Request) (w : World)
      → Distinct (ids rs)
      → IsConserved w
      → IsConserved (submit rs w)
  unfolding submit
  submits-IsConserved [] w d c = c
  submits-IsConserved ((id, r) ∷ rs) w d c = submit-IsConserved id r rs w c d

  completes-IsConserved :
      (g : ℕ) (w : World) (o : Option (Map String Request × Option PoolError))
      → IsConserved w
      → IsConserved (elim o [ none ↦ w | some r ↦ forget g w ])
  completes-IsConserved g w none c = c
  completes-IsConserved g w (some r) c = forget-IsConserved g w c

  act-IsConserved :
      (e : Event) (w : World) → IsMap e → IsConserved w → IsConserved (act parsers scores e w)
  unfolding act
  act-IsConserved (moves n m) w d c = OnSome-IsConserved w _ (move_at-Effect parsers n m w _ refl) c
  act-IsConserved (submits rs) w d c = submits-IsConserved rs w d c
  act-IsConserved (sends n) w d c = OnSome-IsConserved w _ (send_one-Effect n w _ refl) c
  act-IsConserved (completes g) w d c = completes-IsConserved g w (collect g w) c
  act-IsConserved (gives_up g) w d c = forget-IsConserved g w c
  act-IsConserved (updates cs) w d c = Effect-IsConserved w _ (passes (update_points-Quiet cs w)) c
  act-IsConserved sorts w d c = Effect-IsConserved w _ (passes (sort_points-Quiet scores w)) c

  act_all-IsConserved :
      (es : List Event) (w : World)
      → All IsMap es
      → IsConserved w
      → IsConserved (act_all parsers scores es w)
  unfolding act_all
  act_all-IsConserved [] w d c = c
  act_all-IsConserved (e ∷ es) w d c =
      act_all-IsConserved es (act parsers scores e w) d.1 (act-IsConserved e w d.0 c)

empty-IsConserved : (is_rpc : Bool) (fs : List RetryFunc) → IsConserved (empty_pool is_rpc fs)
unfolding get
empty-IsConserved is_rpc fs = record {
  counted = refl;
  numbered = λ g rs e. cc;
  fresh = λ g f h. refl;
  conserved = λ g f rs e. cc;
  keyed = λ g rs e. cc;
  once = λ g. none_asked g;
  notified = λ g rs e n. cc;
}
  where
    none_asked : (g : ℕ) → Distinct (asked_of g [])
    none_asked zero = tt
    none_asked (suc g) = tt

new_pool-IsConserved :
    (is_rpc : Bool) (fs : List RetryFunc) (cs : List PointConfig) {w : World}
    → new_pool is_rpc fs cs ≡ some w
    → IsConserved w
unfolding new_pool
new_pool-IsConserved is_rpc fs [] e = cc
new_pool-IsConserved is_rpc fs (c ∷ cs) e =
    let w' = add_points (c ∷ cs) (empty_pool is_rpc fs) in
    subst IsConserved (cc) (
      Effect-IsConserved (empty_pool is_rpc fs) w'
        (passes (add_points-Quiet (c ∷ cs) (empty_pool is_rpc fs))) (empty-IsConserved is_rpc fs))

-- What every run of a new pool keeps.
pub run-IsConserved :
    (parsers : Parsers) (scores : Scores) (is_rpc : Bool) (fs : List RetryFunc)
    (cs : List PointConfig) (es : List Event) {w : World}
    → new_pool is_rpc fs cs ≡ some w
    → All IsMap es
    → IsConserved (act_all parsers scores es w)
run-IsConserved parsers scores is_rpc fs cs es {w} made maps =
    act_all-IsConserved parsers scores es w maps (new_pool-IsConserved is_rpc fs cs made)
