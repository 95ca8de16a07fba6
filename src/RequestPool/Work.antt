-- ===== src/RequestPool/Work.antt =====
-- provider/requestPool/server.go: the pool, and what one worker does next. Between two steps other
-- goroutines may run; the updates that follow an answer are one step.
use go_lib.Base.{
  ℕ, String, Bool, true, false, not, ◌&&◌, ◌||◌, List, [], ◌∷◌, ◌++◌, Option, none, some, Map, put,
  get, length, get_elem?, set, ltb, nat_beq, if◌then◌else◌, comparable_nat, comparable_string,
  is_some, replicate,
}
use go_lib.NetHttp.{Response}
use go_lib.RequestPool.{
  PoolError, transport, Request, zero_request, Point, note_success, note_failure, Change, keeps,
  grows, stops, adjust, note_error, retries, remove, channel_capacity,
}
use go_lib.RequestPool.Answer.{
  Parsers, RetryFunc, Outcome, fails, succeeds, panics, judge, merge_headers,
}

-- A worker that AddGoroutine started and that has not registered itself; one in its loop; one that
-- took a request from a channel, or sent it to the node; and one that ended.
pub data Phase : Type 0 where
  starting idle gone : Phase
  holding calling : Request → Phase

-- `stopped` says that its `closeChan` is closed.
pub record Worker : Type 0 where
  pub point : ℕ
  pub phase : Phase
  pub stopped : Bool

-- The pool with its goroutines. A point is its place in `points`, a worker its place in `workers`,
-- and the groups are numbered as they come. `notify` says of the channel of a group whether it is
-- closed. `unsent` is what calls of RequestMulti have not sent, and `lost` what a worker held that
-- panicked. `asked` is a record of the calls: the identifiers of each group's requests.
pub record World : Type 0 where
  pub is_rpc : Bool
  pub retry_funcs : List RetryFunc
  pub points : List Point
  pub managed : List ℕ
  pub sorted : List ℕ
  pub workers : List Worker
  pub queue : List Request
  pub notify : Map ℕ Bool
  pub results : Map ℕ (Map String Request)
  pub unsent : List Request
  pub lost : List Request
  pub groups : ℕ
  pub asked : List (List String)

abbrev pub set_point : ℕ → Point → World → World
set_point i p w = record w { points = set w.points i p }

abbrev pub set_worker : ℕ → Worker → World → World
set_worker n k w = record w { workers = set w.workers n k }

-- `point.AddGoroutine()`, some times.
abbrev pub add_goroutines : ℕ → ℕ → World → World
add_goroutines count i w = record w {
  workers = w.workers ++ replicate count (record { point = i; phase = starting; stopped = false });
}

abbrev pub has_room : List Request → Bool
has_room rs = ltb (length rs) channel_capacity

-- The tests of `redirectRequest` on another point, and that of its `select`.
abbrev pub accepts : ℕ → Request → ℕ → Point → Bool
accepts cur r i p =
    not (nat_beq i cur)
    && (not (is_some (get i r.error_urls))
        && (ltb (length p.queue) (length p.routines) && (not p.need_close && has_room p.queue)))

abbrev pub accepts_at : ℕ → Request → ℕ → Option Point → Bool
accepts_at cur r i none = false
accepts_at cur r i (some p) = accepts cur r i p

unfoldable pub find_point : ℕ → Request → List ℕ → World → Option ℕ
find_point cur r [] w = none
find_point cur r (i ∷ is) w =
    let rest = find_point cur r is w in
    if accepts_at cur r i (get_elem? w.points i) then some i else rest

abbrev pub enqueue : Request → Point → Point
enqueue r p = record p { queue = p.queue ++ r ∷ [] }

-- A send to the channel of a point or of the pool; none if it has to wait.
unfoldable pub send_to : ℕ → Request → World → Option World
send_to i r w = elim (get_elem? w.points i) [
  | none ↦ none
  | some p ↦ if has_room p.queue then some (set_point i (enqueue r p) w) else none
]

unfoldable pub send_global : Request → World → Option World
send_global r w = if has_room w.queue then some (record w { queue = w.queue ++ r ∷ [] }) else none

abbrev pub need_close_at : ℕ → World → Bool
need_close_at i w = elim (get_elem? w.points i) [ none ↦ false | some p ↦ p.need_close ]

-- The end of `redirectRequest`, where no point takes the request.
unfoldable pub send_back : ℕ → Request → World → Option World
unfolding send_to send_global
send_back cur r w =
    let clean : Request = record r { error_urls = [] } in
    if need_close_at cur w then send_global clean w else send_to cur clean w

unfoldable pub redirect : ℕ → Request → World → Option World
unfolding find_point send_to send_back
redirect cur r w = elim (find_point cur r w.sorted w) [
  | some i ↦ send_to i r w
  | none ↦ send_back cur r w
]

-- `saveAndNotify`. Closing the channel again changes nothing, by `safeCloseChan`.
abbrev pub notify_if : Bool → ℕ → Map ℕ Bool → Map ℕ Bool
notify_if complete g m = elim (get g m) [ none ↦ m | some closed ↦ put g (closed || complete) m ]

abbrev pub save_results : Request → Map ℕ (Map String Request) → Map ℕ (Map String Request)
save_results r m = elim (get r.group_id m) [
  | none ↦ m
  | some rs ↦ put r.group_id (put r.request_id r rs) m
]

abbrev pub save_notify : Request → Map ℕ (Map String Request) → Map ℕ Bool → Map ℕ Bool
save_notify r m notify = elim (get r.group_id m) [
  | none ↦ notify
  | some rs ↦ notify_if (nat_beq (length (put r.request_id r rs)) r.group_num) r.group_id notify
]

unfoldable pub save : Request → World → World
save r w = record w {
  results = save_results r w.results;
  notify = save_notify r w.results w.notify;
}

abbrev pub done : Worker → Worker
done k = record k { phase = idle }

-- `adjustGoroutine` of the worker `n`, `k`, which then goes back to its loop.
abbrev pub apply_change : Change → ℕ → Worker → World → World
apply_change keeps n k w = set_worker n (done k) w
apply_change grows n k w = add_goroutines 1 k.point (set_worker n (done k) w)
apply_change stops n k w = set_worker n (record k { phase = idle; stopped = true }) w

abbrev pub adjust_at : Bool → ℕ → Worker → ℕ → Option Point → World → World
adjust_at success n k now none w = set_worker n (done k) w
adjust_at success n k now (some p) w =
    let (c, q) = adjust success n now p in apply_change c n k (set_point k.point q w)

unfoldable pub adjust_goroutine : Bool → ℕ → Worker → ℕ → World → World
unfolding adjust
adjust_goroutine success n k now w = adjust_at success n k now (get_elem? w.points k.point) w

abbrev pub map_option {ℓ κ} : {A : Type ℓ} {B : Type κ} → (A → B) → Option A → Option B
map_option f none = none
map_option f (some a) = some (f a)

-- `handleSuccessRequest`
unfoldable pub handle_success : ℕ → Worker → Point → Request → ℕ → Response → ℕ → World → World
unfolding save adjust_goroutine note_success
handle_success n k p r exec_time t now w = adjust_goroutine true n k now (
    save (record r { result = some t; error = none })
      (set_point k.point (note_success exec_time p) w))

-- `handleErrorRequest`; none while its send has to wait.
unfoldable pub handle_error : ℕ → Worker → Point → Request → PoolError → ℕ → World → Option World
unfolding save adjust_goroutine note_failure note_error retries redirect
handle_error n k p r e now w =
    let noted = note_error k.point e r in
    let w' = set_point k.point (note_failure now p) w in
    map_option (adjust_goroutine false n k now)
      (if retries noted then redirect k.point noted w' else some (save noted w'))

-- The panic of a worker ends it, after its deferred function.
abbrev pub leave : ℕ → Point → Point
leave n p = record p { routines = remove n p.routines }

abbrev pub dies : ℕ → Worker → Point → Request → World → World
dies n k p r w =
    record (set_worker n (record k { phase = gone }) (set_point k.point (leave n p) w)) {
      lost = r ∷ w.lost;
    }

-- What the worker does with a request that it took: it hands it on while its point backs off, drops
-- it if nobody waits for it, or sends it with the headers of both.
unfoldable pub dispatch : ℕ → Worker → Point → Request → ℕ → World → Option World
unfolding redirect merge_headers
dispatch n k p r now w =
    if ltb now p.backoff_time
    then map_option (set_worker n (done k)) (redirect k.point r w)
    else if not (is_some (get r.group_id w.results))
    then some (set_worker n (done k) w)
    else some (elim (merge_headers r.headers p.headers) [
      | none ↦ dies n k p r w
      | some h ↦
          set_worker n (record k { phase = calling r })
            (set_point k.point (record p { headers = h }) w)
    ])

-- The client's answer: an error, which may be an exceeded deadline, or a response.
pub data Reply : Type 0 where
  error : String → Bool → Reply
  response : Response → Reply

module _ (parsers : Parsers) where
  abbrev pub outcome : World → Point → Request → Reply → Outcome
  outcome w p r (error m late) = fails (transport m late)
  outcome w p r (response t) = judge parsers w.is_rpc w.retry_funcs p r t

  -- `handleRequest` after the answer.
  abbrev pub settle : ℕ → Worker → Point → Request → Outcome → ℕ → World → Option World
  settle n k p r (fails e) now w = handle_error n k p r e now w
  settle n k p r (succeeds t u) now w = some (handle_success n k p r t u now w)
  settle n k p r panics now w = some (dies n k p r w)

-- The steps of a worker. Each is none if it cannot happen now.
abbrev pub with_point : World → ℕ → (Point → Option World) → Option World
with_point w i f = elim (get_elem? w.points i) [ none ↦ none | some p ↦ f p ]

-- The first part of `startWorker`.
abbrev pub register : ℕ → Worker → World → Option World
register n k w = with_point w k.point (λ p. some (
    set_worker n (record k { phase = idle })
      (set_point k.point (record p { routines = p.routines ++ n ∷ [] }) w)))

abbrev pub take_from : List Request → ℕ → Worker → Point → World → Option World
take_from [] n k p w =
    if p.queue_closed
    then some (set_worker n (record k { phase = holding zero_request }) w)
    else none
take_from (r ∷ rs) n k p w =
    some (
      set_worker n (record k { phase = holding r }) (set_point k.point (record p { queue = rs }) w))

abbrev pub take_own : ℕ → Worker → World → Option World
take_own n k w = with_point w k.point (λ p. take_from p.queue n k p w)

abbrev pub take_global : List Request → ℕ → Worker → World → Option World
take_global [] n k w = none
take_global (r ∷ rs) n k w =
    some (set_worker n (record k { phase = holding r }) (record w { queue = rs }))

-- A worker of a point that is to be closed gives the requests of its channel back to the pool, and
-- ends when the channel is empty.
abbrev pub drain_from : List Request → ℕ → Worker → Point → World → Option World
drain_from [] n k p w =
    if p.queue_closed
    then some (set_worker n (record k { phase = gone }) (set_point k.point (leave n p) w))
    else none
drain_from (r ∷ rs) n k p w = send_global r (set_point k.point (record p { queue = rs }) w)

abbrev pub drain : ℕ → Worker → World → Option World
drain n k w = with_point w k.point (λ p. if p.need_close then drain_from p.queue n k p w else none)

abbrev pub quit : ℕ → Worker → World → Option World
quit n k w =
    if k.stopped
    then with_point w k.point
        (λ p. some (set_worker n (record k { phase = gone }) (set_point k.point (leave n p) w)))
    else none

pub data Move : Type 0 where
  starts takes_own takes_global drains quits : Move
  handles : ℕ → Move
  answers : ℕ → Reply → Move

module _ (parsers : Parsers) where
  -- The loop of `startWorker`, and the two halves of `handleRequestWithBackoff`.
  unfoldable pub move : Phase → Move → ℕ → Worker → World → Option World
  unfolding send_global dispatch handle_success handle_error judge
  move starting starts n k w = register n k w
  move idle takes_own n k w = take_own n k w
  move idle takes_global n k w = take_global w.queue n k w
  move idle drains n k w = drain n k w
  move idle quits n k w = quit n k w
  move (holding r) (handles now) n k w = with_point w k.point (λ p. dispatch n k p r now w)
  move (calling r) (answers now reply) n k w =
      with_point w k.point (λ p. settle parsers n k p r (outcome parsers w p r reply) now w)
  move _ _ n k w = none

  unfoldable pub move_at : ℕ → Move → World → Option World
  unfolding move
  move_at n m w = elim (get_elem? w.workers n) [ none ↦ none | some k ↦ move k.phase m n k w ]
