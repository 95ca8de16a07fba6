-- ===== src/RequestPool/Calls.antt =====
-- provider/requestPool/server.go: what callers do with the pool, its sorting, and the steps of all
-- goroutines in any order.
use go_lib.Base.{
  ℕ, zero, suc, ◌*◌, String, Bool, true, false, not, List, [], ◌∷◌, ◌++◌, Option, none, some, pos,
  Map, put, get, del, length, get_elem?, if◌then◌else◌, comparable_nat, comparable_string, int_beq,
  ltb,
}
use go_lib.RequestPool.{
  PoolError, Request, Point, PointConfig, new_point, close, default_concurrency, max_concurrency,
  max_retry_attempts, remove,
}
use go_lib.RequestPool.Answer.{Parsers, RetryFunc}
use go_lib.RequestPool.Work.{
  World, Move, set_point, add_goroutines, send_global, move_at, map_option,
}

-- The float64 of a score, and `sort.Slice`.
pub record Scores : Type 1 where
  pub Float : Type 0
  pub float : ℕ → Float
  pub plus : Float → Float → Float
  pub minus : Float → Float → Float
  pub over : Float → Float → Float
  pub gt : Float → Float → Bool
  pub sort_slice : (ℕ → ℕ → Bool) → List ℕ → List ℕ

module _ (scores : Scores) where
  open scores use {Float, float, plus, minus, over, gt, sort_slice}

  unfoldable pub calculate_score : Point → Float
  calculate_score p =
      let n = length p.routines in
      let routines_score =
        if ltb default_concurrency n then over (float n) (float max_concurrency) else float 0 in
      let success_rate_score =
        if ltb 0 p.request_num then over (float p.success_num) (float p.request_num) else float 0 in
      minus (plus routines_score success_rate_score) (over (float p.failure_streak) (float n))

  abbrev pub score_at : World → ℕ → Float
  score_at w i = elim (get_elem? w.points i) [ none ↦ float 0 | some p ↦ calculate_score p ]

  abbrev pub is_open : World → ℕ → Bool
  is_open w i = elim (get_elem? w.points i) [ none ↦ false | some p ↦ not p.need_close ]

  abbrev pub keep : (ℕ → Bool) → List ℕ → List ℕ
  keep f [] = []
  keep f (i ∷ is) = if f i then i ∷ keep f is else keep f is

  -- What `CheckStatus` does at each tick of its first timer.
  unfoldable pub sort_points : World → World
  unfolding calculate_score
  sort_points w = record w {
    sorted = sort_slice (λ i j. gt (score_at w i) (score_at w j)) (keep (is_open w) w.managed);
  }

-- A point with its first workers: part of `NewPool`, with `run`, and of `UpdatePoints`.
unfoldable pub add_point : PointConfig → World → World
unfolding new_point
add_point c w =
    let i = length w.points in
    add_goroutines default_concurrency i
      (record w { points = w.points ++ new_point c ∷ []; managed = w.managed ++ i ∷ [] })

abbrev pub add_points : List PointConfig → World → World
add_points [] w = w
add_points (c ∷ cs) w = add_points cs (add_point c w)

abbrev pub empty_pool : Bool → List RetryFunc → World
empty_pool is_rpc fs = record {
  is_rpc = is_rpc;
  retry_funcs = fs;
  points = [];
  managed = [];
  sorted = [];
  workers = [];
  queue = [];
  notify = [];
  results = [];
  unsent = [];
  lost = [];
  groups = 0;
  asked = [];
}

-- `NewPool`, or `NewRPCPool`, with the functions that `AddRetryFunc` adds; none is its error.
unfoldable pub new_pool : Bool → List RetryFunc → List PointConfig → Option World
unfolding add_point
new_pool is_rpc fs [] = none
new_pool is_rpc fs (c ∷ cs) = some (add_points (c ∷ cs) (empty_pool is_rpc fs))

-- `newConfigs` and `oldConfigs` of `UpdatePoints`: by URL, the last one.
abbrev pub by_url : List PointConfig → Map String PointConfig → Map String PointConfig
by_url [] m = m
by_url (c ∷ cs) m = by_url cs (put c.url c m)

abbrev pub old_by_url : List ℕ → World → Map String ℕ → Map String ℕ
old_by_url [] w m = m
old_by_url (i ∷ is) w m =
    old_by_url is w (elim (get_elem? w.points i) [ none ↦ m | some p ↦ put p.url i m ])

abbrev pub edit : PointConfig → Point → Point
edit c p = record p { headers = c.headers; need_close = false }

abbrev pub edit_at : ℕ → PointConfig → World → World
edit_at i c w = elim (get_elem? w.points i) [ none ↦ w | some p ↦ set_point i (edit c p) w ]

abbrev pub merge_configs : Map String PointConfig → Map String ℕ → World → World
merge_configs [] old w = w
merge_configs ((u, c) ∷ cs) old w =
    merge_configs cs old (elim (get c.url old) [ some i ↦ edit_at i c w | none ↦ add_point c w ])

abbrev pub close_at : ℕ → World → World
close_at i w = elim (get_elem? w.points i) [ none ↦ w | some p ↦ set_point i (close p) w ]

abbrev pub drop_point : ℕ → World → World
drop_point i w = let v = close_at i w in record v { managed = remove i v.managed }

abbrev pub drop_points : Map String ℕ → Map String PointConfig → World → World
drop_points [] fresh w = w
drop_points ((u, i) ∷ old) fresh w =
    drop_points old fresh (elim (get u fresh) [ some c ↦ w | none ↦ drop_point i w ])

abbrev pub update_with : Map String PointConfig → Map String ℕ → World → World
update_with fresh old w = drop_points old fresh (merge_configs fresh old w)

unfoldable pub update_points : List PointConfig → World → World
unfolding add_point close
update_points [] w = w
update_points (c ∷ cs) w = update_with (by_url (c ∷ cs) []) (old_by_url w.managed w []) w

-- The message of a request in its group.
abbrev pub message : ℕ → ℕ → ℕ → String → Request → Request
message g count point_count id r = record r {
  request_id = id;
  group_id = g;
  group_num = count;
  error_urls = [];
  retry_num =
      if int_beq r.retry_num (pos 0) then pos (point_count * max_retry_attempts) else r.retry_num;
}

abbrev pub messages : ℕ → ℕ → ℕ → Map String Request → List Request
messages g count point_count [] = []
messages g count point_count ((id, r) ∷ rs) =
    message g count point_count id r ∷ messages g count point_count rs

abbrev pub ids : Map String Request → List String
ids [] = []
ids ((id, r) ∷ rs) = id ∷ ids rs

-- `RequestMulti` up to its sends, for a map with requests.
unfoldable pub submit : Map String Request → World → World
submit [] w = w
submit (e ∷ rs) w =
    let g = suc w.groups in
    record w {
      groups = g;
      results = put g [] w.results;
      notify = put g false w.notify;
      unsent = w.unsent ++ messages g (length (e ∷ rs)) (length w.managed) (e ∷ rs);
      asked = w.asked ++ ids (e ∷ rs) ∷ [];
    }

-- Each call sends its messages by itself, in the order of a Go map, which is any; so the next one
-- that is sent may be any that is not sent.
abbrev pub without : {A : Type 0} → ℕ → List A → List A
without n [] = []
without zero (x ∷ xs) = xs
without (suc n) (x ∷ xs) = x ∷ without n xs

abbrev pub send_one : ℕ → Option Request → World → Option World
send_one n none w = none
send_one n (some r) w = send_global r (record w { unsent = without n w.unsent })

abbrev pub forget : ℕ → World → World
forget g w = record w { notify = del g w.notify; results = del g w.results }

abbrev pub first_error : Map String Request → Option PoolError
first_error [] = none
first_error ((id, r) ∷ rs) = elim r.error [ some e ↦ some e | none ↦ first_error rs ]

-- What RequestMulti returns when its channel is closed: the results, and the error of one of them.
unfoldable pub collect : ℕ → World → Option (Map String Request × Option PoolError)
collect g w = elim (get g w.notify) [
  | none ↦ none
  | some false ↦ none
  | some true ↦ map_option (λ rs. (rs, first_error rs)) (get g w.results)
]

-- What some goroutine does next. A call whose context is done gives up.
pub data Event : Type 0 where
  moves : ℕ → Move → Event
  submits : Map String Request → Event
  sends : ℕ → Event
  completes gives_up : ℕ → Event
  updates : List PointConfig → Event
  sorts : Event

abbrev pub or_same : Option World → World → World
or_same none w = w
or_same (some v) w = v

module _ (parsers : Parsers) (scores : Scores) where
  -- An event that cannot happen changes nothing.
  unfoldable pub act : Event → World → World
  unfolding move_at submit collect update_points sort_points send_global
  act (moves n m) w = or_same (move_at parsers n m w) w
  act (submits rs) w = submit rs w
  act (sends n) w = or_same (send_one n (get_elem? w.unsent n) w) w
  act (completes g) w = elim (collect g w) [ none ↦ w | some r ↦ forget g w ]
  act (gives_up g) w = forget g w
  act (updates cs) w = update_points cs w
  act sorts w = sort_points scores w

  unfoldable pub act_all : List Event → World → World
  unfolding act
  act_all [] w = w
  act_all (e ∷ es) w = act_all es (act e w)
