-- ===== src/RequestPool/Conserved/Runs.antt =====
-- What a new pool, an update of its points and a send do to the requests on their way.
pub mod Submit
use go_lib.Base.{
  ℕ, zero, suc, ◌+◌, ◌-◌, ◌≤◌, ◌<◌, ◌≡◌, ◌↔◌, refl, String, Bool, true, false, List, [], ◌∷◌, ◌++◌,
  Option, none, some, Map, get, put, del, length, length-append, get-put, get-del, get_elem?,
  nat_beq, nat_beq_iff, if◌then◌else◌, comparable_nat, comparable_string, arith, Option-cases,
  Bool-cases, inl, inr, ap, sym, subst, ◌∙◌, ◌==◌, total, total-append, Distinct, is_some, All,
}
use go_lib.RequestPool.{Request, Point, PointConfig, new_point, close, PoolError}
use go_lib.RequestPool.Answer.{Parsers, RetryFunc}
use go_lib.RequestPool.Work.{World, Worker, set_point, add_goroutines, send_global, move_at}
use go_lib.RequestPool.Calls.{
  Scores, sort_points, add_point, add_points, empty_pool, new_pool, by_url, old_by_url, edit_at,
  merge_configs, close_at, drop_point, drop_points, update_points, message, messages, ids, submit,
  without, send_one, forget, collect, first_error, Event, moves, submits, sends, completes,
  gives_up, updates, sorts, or_same, act, act_all,
}
use go_lib.RequestPool.Conserved.{
  weight, point_weight, worker_weight, flow, saved, asked_weight, asked_of, Keyed, IsConserved,
}
use go_lib.RequestPool.Conserved.Flows.{
  Flows, Flows-refl, Flows-trans, recount, same_queue-Flows, add_goroutines-Flows,
  send_global-Sends, OnSome, OnSome-map, Sends,
}
use go_lib.RequestPool.Conserved.Steps.{Effect, passes}
use go_lib.RequestPool.Conserved.Steps.Handling.{move_at-Effect}
use go_lib.RequestPool.Conserved.Groups.{asked_of-snoc}
use go_lib.RequestPool.Conserved.Groups.Saved.{Effect-IsConserved}

abbrev pub Quiet : World → World → Type 0
Quiet w v = Flows [] [] w v

add_point-Quiet : (c : PointConfig) (w : World) → Quiet w (add_point c w)
unfolding add_point new_point
add_point-Quiet c w =
    Flows-trans {l = []} {g = []}
      {v = record w {
        points = w.points ++ new_point c ∷ [];
        managed = w.managed ++ length w.points ∷ [];
      }}
      (record {
        results = refl;
        notify = refl;
        groups = refl;
        asked = refl;
        flows = λ g f. omega (arith, total-append (point_weight g f) w.points (new_point c ∷ []));
      })
      (add_goroutines-Flows _ 10 (length w.points))

pub add_points-Quiet : (cs : List PointConfig) (w : World) → Quiet w (add_points cs w)
add_points-Quiet [] w = Flows-refl w
add_points-Quiet (c ∷ cs) w =
    Flows-trans (add_point-Quiet c w) (add_points-Quiet cs (add_point c w))

edit_at-Quiet :
    (i : ℕ) (c : PointConfig) (w : World) (o : Option Point)
    → get_elem? w.points i ≡ o
    → Quiet w (edit_at i c w)
edit_at-Quiet i c w none e = rw (e, edit_at) (Flows-refl w)
edit_at-Quiet i c w (some p) e = rw (e, edit_at) (same_queue-Flows w i p _ e refl)

close-queue : (p : Point) → (close p).queue ≡ p.queue
unfolding close
close-queue p = ground arith

close_at-Quiet :
    (i : ℕ) (w : World) (o : Option Point) → get_elem? w.points i ≡ o → Quiet w (close_at i w)
close_at-Quiet i w none e = rw (e, close_at) (Flows-refl w)
close_at-Quiet i w (some p) e =
    rw (e, close_at) (same_queue-Flows w i p (close p) e (close-queue p))

managed-Quiet : (w : World) (is : List ℕ) → Quiet w (record w { managed = is })
managed-Quiet w is = record {
  results = refl;
  notify = refl;
  groups = refl;
  asked = refl;
  flows = λ g f. refl;
}

merge_one-Quiet :
    (c : PointConfig) (w : World) (o : Option ℕ)
    → Quiet w (elim o [ some i ↦ edit_at i c w | none ↦ add_point c w ])
merge_one-Quiet c w none = add_point-Quiet c w
merge_one-Quiet c w (some i) = edit_at-Quiet i c w _ refl

merge_configs-Quiet :
    (fresh : Map String PointConfig) (old : Map String ℕ) (w : World)
    → Quiet w (merge_configs fresh old w)
merge_configs-Quiet [] old w = Flows-refl w
merge_configs-Quiet ((u, c) ∷ cs) old w =
    Flows-trans (merge_one-Quiet c w (get c.url old)) (merge_configs-Quiet cs old _)

drop_one-Quiet :
    (i : ℕ) (w : World) (o : Option PointConfig)
    → Quiet w (elim o [ some c ↦ w | none ↦ drop_point i w ])
drop_one-Quiet i w none = Flows-trans (close_at-Quiet i w _ refl) (managed-Quiet _ _)
drop_one-Quiet i w (some c) = Flows-refl w

drop_points-Quiet :
    (old : Map String ℕ) (fresh : Map String PointConfig) (w : World)
    → Quiet w (drop_points old fresh w)
drop_points-Quiet [] fresh w = Flows-refl w
drop_points-Quiet ((u, i) ∷ old) fresh w =
    Flows-trans (drop_one-Quiet i w (get u fresh)) (drop_points-Quiet old fresh _)

pub update_points-Quiet : (cs : List PointConfig) (w : World) → Quiet w (update_points cs w)
unfolding update_points
update_points-Quiet [] w = Flows-refl w
update_points-Quiet (c ∷ cs) w =
    let fresh = by_url (c ∷ cs) [] in
    let old = old_by_url w.managed w [] in
    Flows-trans (merge_configs-Quiet fresh old w) (drop_points-Quiet old fresh _)

pub sort_points-Quiet : (scores : Scores) (w : World) → Quiet w (sort_points scores w)
unfolding sort_points
sort_points-Quiet scores w = record {
  results = refl;
  notify = refl;
  groups = refl;
  asked = refl;
  flows = λ g f. refl;
}

total-without :
    (f : Request → ℕ) (n : ℕ) (rs : List Request) (r : Request)
    → get_elem? rs n ≡ some r
    → total f (without n rs) + f r ≡ total f rs
total-without f n [] r e = ground arith
total-without f zero (x ∷ rs) r e = ground arith
total-without f (suc n) (x ∷ rs) r e = omega (arith, total-without f n rs r e)

pub send_one-Effect :
    (n : ℕ) (w : World) (o : Option Request)
    → get_elem? w.unsent n ≡ o
    → OnSome (Effect w) (send_one n o w)
send_one-Effect n w none e = tt
send_one-Effect n w (some r) e =
    let w' : World = record w { unsent = without n w.unsent } in
    OnSome-map (Sends r w') (Effect w) (send_global r w')
      (λ v s. passes (record {
        results = s.0.results;
        notify = s.0.notify;
        groups = s.0.groups;
        asked = s.0.asked;
        flows = λ g f. omega (arith, s.0.flows g f, total-without (weight g f) n w.unsent r e);
      }))
      (send_global-Sends r w')
