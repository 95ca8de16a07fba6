-- ===== src/RequestPool/Conserved/Complete.antt =====
-- What a call of RequestMulti returns, and where each request of a group is.
use go_lib.Base.{
  ℕ, ◌+◌, ◌≤◌, ◌≡◌, ◌↔◌, refl, String, Bool, true, false, List, [], ◌∷◌, Option, none, some, Map,
  get, length, if◌then◌else◌, comparable_nat, comparable_string, arith, Option-cases, Bool-cases,
  inl, inr, subst, ◌∙◌, ◌==◌, ◌||◌, total, total-le, Distinct, is_some, All,
}
use go_lib.RequestPool.{Request, PointConfig, PoolError}
use go_lib.RequestPool.Answer.{Parsers, RetryFunc}
use go_lib.RequestPool.Work.{World}
use go_lib.RequestPool.Calls.{Scores, new_pool, collect, first_error, Event, act_all}
use go_lib.RequestPool.Conserved.{
  weight, point_weight, worker_weight, flow, held, saved, asked_weight, asked_of, Keyed,
  IsConserved,
}
use go_lib.RequestPool.Conserved.Groups.{
  is_id, asked_weight-le, asked_weight-one, saved-one, saved-is_id,
}
use go_lib.RequestPool.Conserved.Places.{IsMap, run-IsConserved}

abbrev pub has : String → List String → Bool
has id [] = false
has id (j ∷ js) = j == id || has id js

abbrev pub one_if : Bool → ℕ
one_if b = if b then 1 else 0

-- How many requests of the group with that identifier a worker may still handle: not sent, in a
-- channel, or with a worker.
abbrev pub waiting : ℕ → String → World → ℕ
waiting g id w =
    let weigh = weight g (is_id id) in
    total weigh w.unsent
    + (total weigh w.queue
        + (total (point_weight g (is_id id)) w.points
            + total (worker_weight g (is_id id)) w.workers))

-- How many are lost: a worker panicked while it held them, and nobody will handle them.
abbrev pub lost_of : ℕ → String → World → ℕ
lost_of g id w = total (weight g (is_id id)) w.lost

-- How many have no result: those that a worker may still handle, and those that are lost.
abbrev pub copies : ℕ → String → World → ℕ
copies g id w = flow g (is_id id) w

asked_weight-has :
    (id : String) (n : ℕ) (js : List String)
    → Distinct js
    → asked_weight (is_id id) n js ≡ one_if (has id js)
asked_weight-has id n [] d = refl
asked_weight-has id n (j ∷ js) d =
    ground (arith, asked_weight-has id n js d.1, asked_weight-le id n (j ∷ js) d)

saved-none :
    (g : ℕ) (id : String) (rs : Map String Request)
    → Keyed g rs
    → get id rs ≡ none
    → saved g (is_id id) rs ≡ 0
unfolding get
saved-none g id [] h e = refl
saved-none g id ((k, r) ∷ rs) h e = elim (Bool-cases (k == id)) [
  | inl same ↦ absurd (let e' : some r ≡ none = rw (same, get) at e in cc)
  | inr other ↦
      let e' : (r.request_id == id) ≡ false = rw h.0 other in
      ground (arith, saved-none g id rs h.2 (rw (other, get) at e))
]

module _ (w : World) (c : IsConserved w) (g : ℕ) (rs : Map String Request)
    (opened : get g w.results ≡ some rs) where
  total_of :
      (id : String) → copies g id w + saved g (is_id id) rs ≡ one_if (has id (asked_of g w.asked))
  total_of id =
      c.conserved g (is_id id) rs opened
      ∙ asked_weight-has id (length (asked_of g w.asked)) (asked_of g w.asked) (c.once g)

  one-le : (b : Bool) → one_if b ≤ 1
  one-le b = ground arith

  saved_once : (id : String) → saved g (is_id id) rs ≡ one_if (is_some (get id rs))
  saved_once id = elim (Option-cases (get id rs)) [
    | inl e ↦ rw e (saved-none g id rs (c.keyed g rs opened) e)
    | inr (r, e) ↦ rw e (
        omega (
          arith,
          saved-is_id g id rs r (c.keyed g rs opened) e,
          total_of id,
          one-le (has id (asked_of g w.asked)),
        ))
  ]

  one_place :
      (id : String)
      → copies g id w + one_if (is_some (get id rs)) ≡ one_if (has id (asked_of g w.asked))
  one_place id = omega (arith, total_of id, saved_once id)

  weight-le : (id : String) (r : Request) → weight g (is_id id) r ≤ weight g (λ j m. 1) r
  weight-le id r = ground arith

  copies-le : (id : String) → copies g id w ≤ flow g (λ j m. 1) w
  copies-le id =
      let f = is_id id in
      omega (
        arith,
        total-le (weight g f) (weight g (λ j m. 1)) w.unsent (weight-le id),
        total-le (weight g f) (weight g (λ j m. 1)) w.queue (weight-le id),
        total-le (weight g f) (weight g (λ j m. 1)) w.lost (weight-le id),
        total-le (point_weight g f) (point_weight g (λ j m. 1)) w.points
            (λ p. total-le (weight g f) (weight g (λ j m. 1)) p.queue (weight-le id)),
        total-le (worker_weight g f) (worker_weight g (λ j m. 1)) w.workers
            (λ k. total-le (weight g f) (weight g (λ j m. 1)) (held k.phase) (weight-le id)),
      )

  none_left : get g w.notify ≡ some true → (id : String) → copies g id w ≡ 0
  none_left closed id = omega (
    arith,
    copies-le id,
    c.conserved g (λ j m. 1) rs opened,
    asked_weight-one (length (asked_of g w.asked)) (asked_of g w.asked),
    saved-one g rs (c.keyed g rs opened),
    c.notified g rs opened closed,
  )

  same_test : (a b : Bool) → one_if a ≡ one_if b → a ≡ b
  same_test a b h = ground arith

  complete :
      get g w.notify ≡ some true → (id : String) → is_some (get id rs) ≡ has id (asked_of g w.asked)
  complete closed id = same_test _ _ (omega (arith, one_place id, none_left closed id))

-- The results under an identifier carry it.
Keyed-get :
    (g : ℕ) (id : String) (rs : Map String Request) (r : Request)
    → Keyed g rs
    → get id rs ≡ some r
    → r.request_id ≡ id
unfolding get
Keyed-get g id [] r h e = cc
Keyed-get g id ((k, q) ∷ rs) r h e = elim (Bool-cases (k == id)) [
  | inl same ↦
      let e' : some q ≡ some r = rw (same, get) at e in
      let s : q ≡ r = cc in
      subst (λ x. x.request_id ≡ id) s (h.0 ∙ (comparable_string.decides k id).0 same)
  | inr other ↦ Keyed-get g id rs r h.2 (rw (other, get) at e)
]

-- RequestMulti returns an error exactly if one of the results has one.
abbrev pub NoErrors : Map String Request → Type 0
NoErrors [] = Unit {0}
NoErrors ((id, r) ∷ rs) = (r.error ≡ none) × NoErrors rs

first_error-none : (rs : Map String Request) → (first_error rs ≡ none) ↔ NoErrors rs
first_error-none [] = (λ e. tt, λ e. refl)
first_error-none ((id, r) ∷ rs) = elim (Option-cases r.error) [
  | inl e ↦
      rw (e, first_error) (λ h. (refl, (first_error-none rs).0 h), λ h. (first_error-none rs).1 h.1)
  | inr (x, e) ↦ rw (e, first_error) (λ h. absurd (cc), λ h. absurd (cc))
]

collected :
    (g : ℕ) (w : World) (rs : Map String Request) (x : Option PoolError)
    → collect g w ≡ some (rs, x)
    → (get g w.notify ≡ some true) × (get g w.results ≡ some rs) × (first_error rs ≡ x)
unfolding collect
collected g w rs x h = ground arith

module _ (parsers : Parsers) (scores : Scores) (is_rpc : Bool) (fs : List RetryFunc)
    (cs : List PointConfig) (es : List Event) (w₀ : World) (made : new_pool is_rpc fs cs ≡ some w₀)
    (maps : All IsMap es) where
  -- When RequestMulti returns the results of a group of a new pool, after whatever steps, it has
  -- a result for each identifier that was asked for and for no other, each carries its
  -- identifier, and no request of the group may still be handled or is lost. It returns an error
  -- exactly if a result has one.
  pub collect-Complete :
      (g : ℕ) (rs : Map String Request) (x : Option PoolError)
      → collect g (act_all parsers scores es w₀) ≡ some (rs, x)
      → ((id : String)
          → is_some (get id rs) ≡ has id (asked_of g (act_all parsers scores es w₀).asked))
        × ((id : String) (r : Request) → get id rs ≡ some r → r.request_id ≡ id)
        × ((id : String) → copies g id (act_all parsers scores es w₀) ≡ 0)
        × ((x ≡ none) ↔ NoErrors rs)
  collect-Complete g rs x h =
      let w = act_all parsers scores es w₀ in
      let c = run-IsConserved parsers scores is_rpc fs cs es made maps in
      let (closed, opened, first) = collected g w rs x h in
      (
        complete w c g rs opened closed,
        λ id r. Keyed-get g id rs r (c.keyed g rs opened),
        none_left w c g rs opened closed,
        subst (λ y. (y ≡ none) ↔ NoErrors rs) first (first_error-none rs),
      )
