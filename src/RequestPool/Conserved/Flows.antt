-- ===== src/RequestPool/Conserved/Flows.antt =====
-- How each part of a step moves requests.
use go_lib.Base.{
  if_cases, ℕ, ◌+◌, ◌≡◌, refl, String, Bool, false, List, [], ◌∷◌, ◌++◌, Option, none, some,
  get_elem?, total, total-append, total-set, total-replicate, comparable_nat, replicate, arith, ap,
  ◌∙◌,
}
use go_lib.RequestPool.{Request, Point, adjust, Change, keeps, grows, stops}
use go_lib.RequestPool.Work.{
  World, Worker, starting, set_point, set_worker, enqueue, send_to, send_global, send_back,
  redirect, find_point, adjust_goroutine, apply_change, add_goroutines, done,
}
use go_lib.RequestPool.Conserved.{held, weight, point_weight, worker_weight, flow}

-- A step that takes `lose` from the requests on their way and adds `gain`, and leaves the groups.
pub record Flows (lose gain : List Request) (w v : World) : Type 0 where
  pub results : v.results ≡ w.results
  pub notify : v.notify ≡ w.notify
  pub groups : v.groups ≡ w.groups
  pub asked : v.asked ≡ w.asked
  pub flows :
      (g : ℕ) (f : String → ℕ → ℕ)
      → flow g f v + total (weight g f) lose ≡ flow g f w + total (weight g f) gain

pub Flows-refl : (w : World) → Flows [] [] w w
Flows-refl w = record {
  results = refl;
  notify = refl;
  groups = refl;
  asked = refl;
  flows = λ g f. refl;
}

pub Flows-trans :
    {l m g h : List Request} {w v u : World}
    → Flows l g w v
    → Flows m h v u
    → Flows (l ++ m) (g ++ h) w u
Flows-trans {l} {m} {g} {h} a b = record {
  results = b.results ∙ a.results;
  notify = b.notify ∙ a.notify;
  groups = b.groups ∙ a.groups;
  asked = b.asked ∙ a.asked;
  flows = λ i f. omega (
    arith,
    a.flows i f,
    b.flows i f,
    total-append (weight i f) l m,
    total-append (weight i f) g h,
  );
}

module _ (w : World) where
  pub set_point-Flows :
      (i : ℕ) (p q : Point)
      → get_elem? w.points i ≡ some p
      → Flows p.queue q.queue w (set_point i q w)
  set_point-Flows i p q h = record {
    results = refl;
    notify = refl;
    groups = refl;
    asked = refl;
    flows = λ g f. omega (arith, total-set (point_weight g f) w.points i p q h);
  }

  pub set_worker-Flows :
      (n : ℕ) (k l : Worker)
      → get_elem? w.workers n ≡ some k
      → Flows (held k.phase) (held l.phase) w (set_worker n l w)
  set_worker-Flows n k l h = record {
    results = refl;
    notify = refl;
    groups = refl;
    asked = refl;
    flows = λ g f. omega (arith, total-set (worker_weight g f) w.workers n k l h);
  }

  pub add_goroutines-Flows : (count i : ℕ) → Flows [] [] w (add_goroutines count i w)
  add_goroutines-Flows count i = record {
    results = refl;
    notify = refl;
    groups = refl;
    asked = refl;
    flows = λ g f.
        let k : Worker = record { point = i; phase = starting; stopped = false } in
        omega (
          arith,
          total-append (worker_weight g f) w.workers (replicate count k),
          total-replicate (worker_weight g f) count k refl,
        );
  }

-- Other lists of the same weight.
pub recount :
    {l g : List Request} (l' g' : List Request) {w v : World}
    → ((i : ℕ) (f : String → ℕ → ℕ)
        → total (weight i f) l' + total (weight i f) g
          ≡ total (weight i f) g' + total (weight i f) l)
    → Flows l g w v
    → Flows l' g' w v
recount l' g' same a = record {
  results = a.results;
  notify = a.notify;
  groups = a.groups;
  asked = a.asked;
  flows = λ i f. omega (arith, a.flows i f, same i f);
}

-- A send, which leaves the workers.
abbrev pub Sends : Request → World → World → Type 0
Sends r w v = Flows [] (r ∷ []) w v × (v.workers ≡ w.workers)

-- What holds of the state that a step leads to, if it can happen.
abbrev pub OnSome {ℓ κ} : {A : Type ℓ} → (A → Type κ) → Option A → Type κ
OnSome P none = Unit
OnSome P (some a) = P a

enqueue-Sends :
    (i : ℕ) (p : Point) (r : Request) (w : World)
    → get_elem? w.points i ≡ some p
    → Sends r w (set_point i (enqueue r p) w)
enqueue-Sends i p r w e = (
  recount [] (r ∷ []) (λ j f. omega (arith, total-append (weight j f) p.queue (r ∷ [])))
      (set_point-Flows w i p (enqueue r p) e),
  refl,
)

send_to-Sends :
    (i : ℕ) (r : Request) (w : World) (o : Option Point)
    → get_elem? w.points i ≡ o
    → OnSome (Sends r w) (send_to i r w)
unfolding send_to
send_to-Sends i r w none e = rw (e, send_to) tt
send_to-Sends i r w (some p) e =
    rw (e, send_to)
      (if_cases (OnSome (Sends r w)) _ (some (set_point i (enqueue r p) w)) none
        (λ _. enqueue-Sends i p r w e) (λ _. tt))

pub send_global-Sends : (r : Request) (w : World) → OnSome (Sends r w) (send_global r w)
unfolding send_global
send_global-Sends r w =
    if_cases (OnSome (Sends r w)) _ (some (record w { queue = w.queue ++ r ∷ [] })) none
      (λ _. (
        record {
          results = refl;
          notify = refl;
          groups = refl;
          asked = refl;
          flows = λ g f. omega (arith, total-append (weight g f) w.queue (r ∷ []));
        },
        refl,
      ))
      (λ _. tt)

-- The errors by point do not count.
abbrev clean : Request → Request
clean r = record r { error_urls = [] }

send_back-Sends :
    (cur : ℕ) (r : Request) (w : World) → OnSome (Sends (clean r) w) (send_back cur r w)
unfolding send_back
send_back-Sends cur r w =
    if_cases (OnSome (Sends (clean r) w)) _ (send_global (clean r) w) (send_to cur (clean r) w)
      (λ _. send_global-Sends (clean r) w) (λ _. send_to-Sends cur (clean r) w _ refl)

clean-Sends : (r : Request) (w v : World) → Sends (clean r) w v → Sends r w v
clean-Sends r w v (a, b) =
    (recount {l = []} {g = clean r ∷ []} [] (r ∷ []) (λ i f. omega arith) a, b)

pub OnSome-map {ℓ κ μ} :
    {A : Type ℓ} (P : A → Type κ) (Q : A → Type μ) (o : Option A)
    → ((a : A) → P a → Q a)
    → OnSome P o
    → OnSome Q o
OnSome-map P Q none h p = tt
OnSome-map P Q (some a) h p = h a p

pub redirect-Sends :
    (cur : ℕ) (r : Request) (w : World) (o : Option ℕ)
    → find_point cur r w.sorted w ≡ o
    → OnSome (Sends r w) (redirect cur r w)
unfolding redirect
redirect-Sends cur r w none e =
    rw (e, redirect)
      (OnSome-map (Sends (clean r) w) (Sends r w) (send_back cur r w) (clean-Sends r w)
        (send_back-Sends cur r w))
redirect-Sends cur r w (some i) e = rw (e, redirect) (send_to-Sends i r w _ refl)

-- `adjustGoroutine` at the end of a step takes what its worker held.
adjust-queue : (success : Bool) (n now : ℕ) (p : Point) → (adjust success n now p).1.queue ≡ p.queue
unfolding adjust
adjust-queue success n now p = ground arith

pub same_queue-Flows :
    (w : World) (i : ℕ) (p q : Point)
    → get_elem? w.points i ≡ some p
    → q.queue ≡ p.queue
    → Flows [] [] w (set_point i q w)
same_queue-Flows w i p q e s =
    recount [] [] (λ j f. omega (arith, ap (total (weight j f)) s)) (set_point-Flows w i p q e)

apply_change-Flows :
    (c : Change) (n : ℕ) (k l : Worker) (w : World)
    → get_elem? w.workers n ≡ some l
    → Flows (held l.phase) [] w (apply_change c n k w)
apply_change-Flows keeps n k l w e = set_worker-Flows w n l (done k) e
apply_change-Flows stops n k l w e = set_worker-Flows w n l _ e
apply_change-Flows grows n k l w e =
    recount (held l.phase) [] (λ i f. omega (arith, total-append (weight i f) (held l.phase) []))
      (Flows-trans (set_worker-Flows w n l (done k) e) (add_goroutines-Flows _ 1 k.point))

pub adjust_goroutine-Flows :
    (success : Bool) (n : ℕ) (k l : Worker) (now : ℕ) (w : World) (o : Option Point)
    → get_elem? w.points k.point ≡ o
    → get_elem? w.workers n ≡ some l
    → Flows (held l.phase) [] w (adjust_goroutine success n k now w)
unfolding adjust_goroutine
adjust_goroutine-Flows success n k l now w none at e =
    rw (at, adjust_goroutine) (set_worker-Flows w n l (done k) e)
adjust_goroutine-Flows success n k l now w (some p) at e =
    rw (at, adjust_goroutine)
      (Flows-trans (same_queue-Flows w k.point p _ at (adjust-queue success n now p))
        (apply_change-Flows (adjust success n now p).0 n k l _ e))
