-- ===== src/RequestPool/Conserved.antt =====
-- Where the requests of a group are: each weighs the same before and after every step.
pub mod Flows
pub mod Steps
pub mod Groups
pub mod Runs
pub mod Places
pub mod Complete
use go_lib.Base.{
  ℕ, zero, suc, ◌+◌, ◌-◌, ◌≤◌, ◌<◌, ◌≡◌, String, Bool, true, false, List, [], ◌∷◌, Option, none,
  some, Map, get, length, get_elem?, total, nat_beq, if◌then◌else◌, comparable_nat, Distinct,
}
use go_lib.RequestPool.{Request, Point}
use go_lib.RequestPool.Work.{World, Worker, Phase, holding, calling}

abbrev pub held : Phase → List Request
held (holding r) = r ∷ []
held (calling r) = r ∷ []
held _ = []

abbrev pub or_empty : Option (List String) → List String
or_empty none = []
or_empty (some ids) = ids

abbrev pub asked_of : ℕ → List (List String) → List String
asked_of zero asked = []
asked_of (suc i) asked = or_empty (get_elem? asked i)

-- A weight of the requests of the group `g` that an identifier and the size of the group determine.
module _ (g : ℕ) (f : String → ℕ → ℕ) where
  abbrev pub weight : Request → ℕ
  weight r = if nat_beq r.group_id g then f r.request_id r.group_num else 0

  abbrev pub point_weight : Point → ℕ
  point_weight p = total weight p.queue

  abbrev pub worker_weight : Worker → ℕ
  worker_weight k = total weight (held k.phase)

  -- The weight of all requests without a result, wherever they are, the lost ones included.
  abbrev pub flow : World → ℕ
  flow w =
      total weight w.unsent
      + (total weight w.queue
          + (total point_weight w.points + (total worker_weight w.workers + total weight w.lost)))

  abbrev pub saved : Map String Request → ℕ
  saved [] = 0
  saved ((k, r) ∷ m) = weight r + saved m

abbrev pub asked_weight : (String → ℕ → ℕ) → ℕ → List String → ℕ
asked_weight f n [] = 0
asked_weight f n (id ∷ ids) = f id n + asked_weight f n ids

-- Every result stands under its own identifier, in its own group.
abbrev pub Keyed : ℕ → Map String Request → Type 0
Keyed g [] = Unit {0}
Keyed g ((k, r) ∷ m) = (r.request_id ≡ k) × (r.group_id ≡ g) × Keyed g m

-- In every group that is open: the requests on their way and the results are those that were asked
-- for, each of them once; and the channel of the group is closed only when all are results.
pub record IsConserved (w : World) : Type 0 where
  pub counted : length w.asked ≡ w.groups
  pub numbered :
      (g : ℕ) (rs : Map String Request) → get g w.results ≡ some rs → (0 < g) × (g ≤ w.groups)
  pub fresh : (g : ℕ) (f : String → ℕ → ℕ) → w.groups < g → flow g f w ≡ 0
  pub conserved :
      (g : ℕ) (f : String → ℕ → ℕ) (rs : Map String Request)
      → get g w.results ≡ some rs
      → flow g f w + saved g f rs
        ≡ asked_weight f (length (asked_of g w.asked)) (asked_of g w.asked)
  pub keyed : (g : ℕ) (rs : Map String Request) → get g w.results ≡ some rs → Keyed g rs
  pub once : (g : ℕ) → Distinct (asked_of g w.asked)
  pub notified :
      (g : ℕ) (rs : Map String Request)
      → get g w.results ≡ some rs
      → get g w.notify ≡ some true
      → length rs ≡ length (asked_of g w.asked)
