-- ===== src/Nodepool/Examples.antt =====
-- Concrete pools, nodes and environments, at which the theorems on the node pool are applied.
use go_lib.Nodepool.HttpTransport.{
  HttpResponse, ClassifierOption, with_biz_err_codes, with_fail_codes, new_classifier, classify,
  read_answer, apply_options,
}
use go_lib.Nodepool.HttpTransport.Codes.{classify-new_classifier}
use mathlib.Core.Option
use go_lib.Nodepool.Types.{
  Platform, Request, Response, NodeConfig, RateLimitConfig, default_classify, fail,
}
use go_lib.Base.{◌⊎◌, ◌≢◌, length, ◌≤◌, is_some, cons_cases, Distinct, inl}
use text.Mathlib.TextEquality.{eq_iff}
use go_lib.Nodepool.Pool.Many.{do_until_complete}
use go_lib.Nodepool.Pool.Many.Ends.{Completes, do_until_complete-Completes}
use go_lib.Nodepool.Strategy.Conservative
use go_lib.Nodepool.Options.{default_options, configure, configure_default-IsValid}
use go_lib.Nodepool.Node.{
  circuit_open, circuit_half_open, circuit_closed, Node, Blocking, new_node, try_acquire,
}
use go_lib.Nodepool.Node.Slots.{SemaphoreLaws, BlockingLaws, slots, share, slots-try_acquire}
use go_lib.Nodepool.Node.Circuit.{
  IsSound, handle_all, succeeds, fails, tries, node-IsSound, fail_all, fail_all_opens, succeed_all,
  succeed_all_closes, is_available-try_transition,
}
use go_lib.Nodepool.Node.Health.{try_transition_to_half_open, is_available}
use go_lib.Nodepool.World.{World, Env}
use go_lib.Nodepool.Strategy.Conservative.{Conservative, new_conservative, round_count}
use go_lib.Nodepool.Strategy.Conservative.Answer.{IsAnswered, IsFailed, execute-IsAnswered}
use go_lib.Nodepool.Strategy.Conservative.Quota.{sent_count}
use go_lib.Nodepool.Strategy.Race.{new_race, sort_nodes}
use go_lib.Nodepool.Strategy.Race
use go_lib.Nodepool.Strategy.Race.Answer.{IsRaced, execute-IsRaced}
use go_lib.Nodepool.Pool.{insert_node, Pool, conservative, insert_nodes, new_pool, update_nodes}
use go_lib.Nodepool.Pool.Requests.{do_on_node, do_with_status}
use go_lib.Nodepool.Pool.Requests.Sound.{slots-do_with_status, sent-do_with_status-le}
use go_lib.Nodepool.Pool.Nodes.{Agrees}
use go_lib.Nodepool.Pool.Fresh.{new_pool-Agrees}
use go_lib.Nodepool.Pool.Sync.{config_at, latest, config_at-update_nodes}
use go_lib.Nodepool.Pool.Order.{change_all, change_all-Agrees, adds, removes, updates, resorts}
use go_lib.Base.{
  ◌+◌, ◌-◌, ◌*◌, ◌/◌, ◌^◌, ◌≡◌, ltb, leb, pos_part, true, false, ◌==◌, ◌++◌, if◌then◌else◌,
  comparable_string, occurrences, occurrences-append, inr, inl, ℕ, pos, String, List, [], ◌∷◌,
  Option, none, some, refl, arith,
}

-- Fixed-point numbers with three decimals, counting semaphores, and limiters of a few tokens.
instance abbrev demo : Platform
demo = record {
  Float = ℕ;
  decimal = λ m k. m * 1000 / 10 ^ k;
  of_int = λ z. pos_part z * 1000;
  fadd = λ a b. a + b;
  fsub = λ a b. a - b;
  fmul = λ a b. a * b / 1000;
  fdiv = λ a b. a * 1000 / b;
  flt = ltb;
  fle = leb;
  truncate = λ a. pos (a / 1000);
  Semaphore = ℕ × ℕ;
  new_weighted = λ z. (pos_part z, 0);
  sem_try_acquire = λ s. if ltb s.1 s.0 then (true, (s.0, s.1 + 1)) else (false, s);
  sem_release = λ s. (s.0, s.1 - 1);
  Limiter = ℕ;
  new_limiter = λ _ b. pos_part b;
  allow = λ _ l. (ltb 0 l, l - 1);
  Payload = ℕ;
  Failure = String;
}

abbrev no_wait : Blocking
no_wait = record {
  sem_acquire = λ s. if ltb s.1 s.0 then (none, (s.0, s.1 + 1)) else (some "deadline", s);
  limiter_wait = λ l. (none, l);
}

-- Node "a" refuses, the others answer.
abbrev answer : ℕ → String → Request → Option Response × Option String
answer tick endpoint req =
    if endpoint == "a"
    then (none, some "refused")
    else (some (record { payload = tick; latency = pos 0 }), none)

abbrev rotate : List ℕ → List ℕ
rotate [] = []
rotate (u ∷ us) = us ++ u ∷ []

abbrev env : Env
env = record {
  now = λ t. t * 1_000_000_000;
  ctx_err = λ _. none;
  blocking = λ _. no_wait;
  transport = answer;
  finish_order = rotate;
  dropped = λ _. false;
}

abbrev laws : SemaphoreLaws
laws = record {
  held = λ s. s.1;
  acquired = λ s h. ground arith;
  refused = λ s h. ground arith;
  released = λ s h. ground arith;
}

blocks : (tick : ℕ) → BlockingLaws laws (env.blocking tick)
blocks tick = record { acquired = λ s h. ground arith; refused = λ s h. ground arith }

reorders : (us : List ℕ) (j : ℕ) → occurrences j (env.finish_order us) ≡ occurrences j us
reorders [] j = refl
reorders (u ∷ us) j = omega (arith, occurrences-append j us (u ∷ []))

abbrev limits : RateLimitConfig
limits = record { max_concurrent = pos 1; per_second = 2000; per_minute = 0; burst = pos 0 }

abbrev config : String → ℕ → NodeConfig
config endpoint weight = record {
  endpoint = endpoint;
  weight = pos weight;
  classifier = none;
  rate_limit = some limits;
}

abbrev request : Request
request = record { payload = 7 }

abbrev node : Node
node = new_node (config "a" 1) default_options

abbrev empty_world : World
empty_world = record { heap = λ _. node; tick = 0; sent = [] }

abbrev no_nodes : Pool
no_nodes = record {
  opts = configure default_options [];
  classifier = default_classify;
  strategy = conservative (new_conservative (pos 3) false);
  nodes = [];
  node_map = [];
  world = empty_world;
  fresh = 0;
}

abbrev pool : Pool
pool = insert_nodes (config "a" 1 ∷ config "b" 2 ∷ []) no_nodes

apart : Distinct {A = String} ("a" ∷ "b" ∷ [])
apart = (
  λ m. elim (cons_cases m) [
    | inl e ↦ absurd (ground (arith, (eq_iff "a" "b").1 e))
    | inr later ↦ elim later [ ]
  ],
  (λ m. elim m [ ], tt),
)

pool-Agrees : Agrees pool
unfolding new_pool configure default_options
pool-Agrees =
    new_pool-Agrees true none (config "a" 1 ∷ config "b" 2 ∷ []) [] empty_world pool apart refl

config_at-update_nodes_example :
    config_at "b" (update_nodes (config "b" 5 ∷ config "c" 1 ∷ []) pool)
    ≡ latest "b" (config "b" 5 ∷ config "c" 1 ∷ []) none
config_at-update_nodes_example =
    config_at-update_nodes "b" (config "b" 5 ∷ config "c" 1 ∷ []) pool pool-Agrees

change_all-Agrees_example :
    Agrees (change_all (adds (config "c" 1) ∷ resorts ∷ removes "a" ∷ updates [] ∷ []) pool)
change_all-Agrees_example =
    change_all-Agrees (adds (config "c" 1) ∷ resorts ∷ removes "a" ∷ updates [] ∷ []) pool
      pool-Agrees

slots-do_with_status_example :
    slots laws ((do_with_status env pool request).1.heap 1) ≡ slots laws (pool.world.heap 1)
slots-do_with_status_example = slots-do_with_status env laws pool request blocks reorders 1

execute-IsAnswered_example :
    let o =
      (Conservative.execute env
        (do_on_node env default_classify)
        request
        (new_conservative (pos 3) false)
        (0 ∷ 1 ∷ [])
        pool.world).0 in
    IsAnswered env (do_on_node env default_classify) request (0 ∷ 1 ∷ []) o
    ⊎ IsFailed env (do_on_node env default_classify) request o
execute-IsAnswered_example =
    execute-IsAnswered env (do_on_node env default_classify) request
      (new_conservative (pos 3) false) (0 ∷ 1 ∷ []) pool.world

sent-do_with_status-le_example :
    sent_count (do_with_status env pool request).1
    ≤ sent_count pool.world + round_count (pos 3) * length pool.nodes
unfolding insert_nodes insert_node new_conservative
sent-do_with_status-le_example =
    sent-do_with_status-le env pool (new_conservative (pos 3) false) request refl

node-IsSound_example : IsSound default_options (
    handle_all
      (new_node (config "a" 1) default_options)
      (fails 3 (pos 2) ∷ succeeds (pos 9) ∷ fails 4 (pos 2) ∷ tries 5 ∷ []))
unfolding configure
node-IsSound_example =
    node-IsSound (config "a" 1) default_options
      (fails 3 (pos 2) ∷ succeeds (pos 9) ∷ fails 4 (pos 2) ∷ tries 5 ∷ [])
      (configure_default-IsValid [] refl refl)

fail_all_opens_example :
    (fail_all node ((1, pos 1) ∷ (2, pos 1) ∷ (3, pos 1) ∷ (4, pos 1) ∷ (5, pos 1) ∷ [])).state
    ≡ circuit_open
unfolding new_node default_options
fail_all_opens_example =
    fail_all_opens node 5 ((1, pos 1) ∷ (2, pos 1) ∷ (3, pos 1) ∷ (4, pos 1) ∷ (5, pos 1) ∷ [])
      (λ e. ground arith) refl (omega arith) (omega arith)

abbrev half_open : Node
half_open = record node { state = circuit_half_open }

succeed_all_closes_example :
    (succeed_all half_open (pos 4 ∷ pos 5 ∷ pos 6 ∷ [])).state ≡ circuit_closed
unfolding new_node default_options
succeed_all_closes_example =
    succeed_all_closes half_open 3 (pos 4 ∷ pos 5 ∷ pos 6 ∷ []) refl refl (omega arith)
      (omega arith)

is_available-try_transition_example :
    let r = try_transition_to_half_open 7 half_open in
    (is_available 7 half_open ≡ r.0)
    × ((r.1.state ≢ circuit_open) ⊎ ((r.0 ≡ false) × (r.1 ≡ half_open)))
is_available-try_transition_example = is_available-try_transition 7 half_open

slots-try_acquire_example :
    let r = try_acquire 3 node in
    (slots laws r.1 ≡ slots laws node + (if r.0 then share laws node else 0))
    × (share laws r.1 ≡ share laws node)
slots-try_acquire_example = slots-try_acquire laws 3 node

execute-IsRaced_example :
    IsRaced env
      (do_on_node env default_classify)
      request
      (0 ∷ 1 ∷ [])
      (new_race (pos 2) true)
      (sort_nodes env
        (do_on_node env default_classify)
        request
        (0 ∷ 1 ∷ [])
        (record { acquired = []; throttled = [] })
        pool.world).0.acquired
      (Race.execute env
        (do_on_node env default_classify)
        request
        (new_race (pos 2) true)
        (0 ∷ 1 ∷ [])
        pool.world).0
execute-IsRaced_example =
    execute-IsRaced env (do_on_node env default_classify) request (0 ∷ 1 ∷ []) reorders
      (new_race (pos 2) true) pool.world

abbrev statuses : List (ClassifierOption ℕ)
statuses = with_biz_err_codes (pos 429 ∷ []) ∷ with_fail_codes (pos 403 ∷ pos 404 ∷ []) ∷ []

abbrev forbidden : Option Response
forbidden = some (record { payload = 403; latency = pos 2 })

abbrev as_answer : ℕ → Option (HttpResponse ℕ)
as_answer code = some (record { status_code = pos code; body = 0 })

classify-new_classifier_example :
    classify 0 as_answer (new_classifier statuses) "a" forbidden none ≡ fail
unfolding new_classifier read_answer apply_options Option.bind
classify-new_classifier_example =
    classify-new_classifier 0 as_answer statuses "a" forbidden none refl

-- A context that is done after a while.
abbrev ending : Env
ending = record env { ctx_err = λ t. if ltb t 41 then none else some "deadline" }

ending_over : (u : ℕ) → 41 ≤ u → is_some (ending.ctx_err u) ≡ true
ending_over u le = ground arith

do_until_complete-Completes_example :
    Completes ending pool
      (request ∷ request ∷ [])
      (do_until_complete ending 50 pool (request ∷ request ∷ []))
do_until_complete-Completes_example =
    do_until_complete-Completes ending 50 41 pool (request ∷ request ∷ []) ending_over (omega arith)
