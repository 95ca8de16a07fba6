-- ===== src/RequestPool/Conserved/Groups/Saved.antt =====
-- Every effect of a worker's step keeps the requests of each group together.
use go_lib.Base.{
  ℕ, suc, ◌+◌, ◌≤◌, ◌<◌, ◌≡◌, refl, String, Bool, true, false, [], ◌∷◌, none, some, Map, get, put,
  length, get-put, nat_beq, nat_beq_iff, if◌then◌else◌, comparable_nat, comparable_string, arith,
  Option-cases, Bool-cases, inl, inr, ap, sym, subst, ◌∙◌,
}
use go_lib.RequestPool.{Request, zero_request}
use go_lib.RequestPool.Work.{World, save, save_results, save_notify, notify_if}
use go_lib.RequestPool.Conserved.{weight, flow, saved, asked_weight, asked_of, Keyed, IsConserved}
use go_lib.RequestPool.Conserved.Flows.{Flows}
use go_lib.RequestPool.Conserved.Steps.{Effect, passes, drops, makes_zero, saves}
use go_lib.RequestPool.Conserved.Groups.{
  is_id, is_off, asked_weight-le, asked_weight-one, asked_weight-off, saved-one, saved-is_id,
  saved-put, Keyed-put,
}

-- A step that leaves the groups alone, and of the open ones every request on its way.
record Kept (w v : World) : Type 0 where
  results : v.results ≡ w.results
  notify : v.notify ≡ w.notify
  groups : v.groups ≡ w.groups
  asked : v.asked ≡ w.asked
  less : (g : ℕ) (f : String → ℕ → ℕ) → 0 < g → flow g f v ≤ flow g f w
  same :
      (g : ℕ) (f : String → ℕ → ℕ) (rs : Map String Request)
      → 0 < g
      → get g w.results ≡ some rs
      → flow g f v ≡ flow g f w

Kept-IsConserved : (w v : World) → Kept w v → IsConserved w → IsConserved v
Kept-IsConserved w v k c = record {
  counted = ap length k.asked ∙ (c.counted ∙ sym k.groups);
  numbered =
      λ g rs e. let n = c.numbered g rs (open_before g rs e) in (n.0, omega (arith, n.1, k.groups));
  fresh = λ g f h.
      omega (arith, k.less g f (omega (arith, k.groups)), c.fresh g f (omega (arith, k.groups)));
  conserved = λ g f rs e.
      let e' = open_before g rs e in
      rw k.asked (omega (arith, k.same g f rs (c.numbered g rs e').0 e', c.conserved g f rs e'));
  keyed = λ g rs e. c.keyed g rs (open_before g rs e);
  once = λ g. rw k.asked (c.once g);
  notified = λ g rs e n.
      rw k.asked
        (c.notified g rs (open_before g rs e) (subst (λ m. get g m ≡ some true) k.notify n));
}
  where
    open_before :
        (g : ℕ) (rs : Map String Request) → get g v.results ≡ some rs → get g w.results ≡ some rs
    open_before g rs e = subst (λ m. get g m ≡ some rs) k.results e

-- A request whose group is not open weighs nothing in those that are.
weightless :
    (w : World) (r : Request) (g : ℕ) (f : String → ℕ → ℕ) (rs : Map String Request)
    → get r.group_id w.results ≡ none
    → get g w.results ≡ some rs
    → weight g f r ≡ 0
weightless w r g f rs a b = elim (Bool-cases (nat_beq r.group_id g)) [
  | inl same ↦ absurd (
      let e : none ≡ some rs =
        sym a ∙ (ap (λ i. get i w.results) ((nat_beq_iff r.group_id g).0 same) ∙ b) in
      cc)
  | inr other ↦ rw other refl
]

passes-Kept : (w v : World) → Flows [] [] w v → Kept w v
passes-Kept w v a = record {
  results = a.results;
  notify = a.notify;
  groups = a.groups;
  asked = a.asked;
  less = λ g f h. omega (arith, a.flows g f);
  same = λ g f rs h e. omega (arith, a.flows g f);
}

drops-Kept :
    (w v : World) (r : Request) → get r.group_id w.results ≡ none → Flows (r ∷ []) [] w v → Kept w v
drops-Kept w v r closed a = record {
  results = a.results;
  notify = a.notify;
  groups = a.groups;
  asked = a.asked;
  less = λ g f h. omega (arith, a.flows g f);
  same = λ g f rs h e. omega (arith, a.flows g f, weightless w r g f rs closed e);
}

zero_weight : (g : ℕ) (f : String → ℕ → ℕ) → 0 < g → weight g f zero_request ≡ 0
zero_weight g f h = ground arith

makes_zero-Kept : (w v : World) → Flows [] (zero_request ∷ []) w v → Kept w v
makes_zero-Kept w v a = record {
  results = a.results;
  notify = a.notify;
  groups = a.groups;
  asked = a.asked;
  less = λ g f h. omega (arith, a.flows g f, zero_weight g f h);
  same = λ g f rs h e. omega (arith, a.flows g f, zero_weight g f h);
}

-- The request that a worker saves in a group that is open.
module _ (w v : World) (r : Request) (rs : Map String Request) (c : IsConserved w)
    (opened : get r.group_id w.results ≡ some rs) (a : Flows (r ∷ []) [] (save r w) v) where
  same_group : (f : String → ℕ → ℕ) → weight r.group_id f r ≡ f r.request_id r.group_num
  same_group f = ground (arith, nat_beq_iff r.group_id r.group_id)

  before : (g : ℕ) (f : String → ℕ → ℕ) → flow g f w ≡ flow g f v + weight g f r
  unfolding save
  before g f = omega (arith, a.flows g f)

  own_weight : is_id r.request_id r.request_id r.group_num ≡ 1
  own_weight = ground (arith, comparable_string.decides r.request_id r.request_id)

  -- It is not among the results: it would be there twice.
  unsaved : get r.request_id rs ≡ none
  unsaved = elim (Option-cases (get r.request_id rs)) [
    | inl e ↦ e
    | inr (q, e) ↦ absurd (
        omega (
          arith,
          c.conserved r.group_id (is_id r.request_id) rs opened,
          asked_weight-le r.request_id (length (asked_of r.group_id w.asked))
              (asked_of r.group_id w.asked) (c.once r.group_id),
          saved-is_id r.group_id r.request_id rs q (c.keyed r.group_id rs opened) e,
          before r.group_id (is_id r.request_id),
          same_group (is_id r.request_id),
          own_weight,
        ))
  ]

  -- It knows the size of its group.
  sized : r.group_num ≡ length (asked_of r.group_id w.asked)
  sized =
      let n = length (asked_of r.group_id w.asked) in
      ground (
        arith,
        c.conserved r.group_id (is_off n) rs opened,
        asked_weight-off n (asked_of r.group_id w.asked),
        before r.group_id (is_off n),
        same_group (is_off n),
      )

  -- The group is not complete.
  incomplete : suc (length rs) ≤ length (asked_of r.group_id w.asked)
  incomplete = omega (
    arith,
    c.conserved r.group_id (λ j m. 1) rs opened,
    asked_weight-one (length (asked_of r.group_id w.asked)) (asked_of r.group_id w.asked),
    saved-one r.group_id rs (c.keyed r.group_id rs opened),
    before r.group_id (λ j m. 1),
    same_group (λ j m. 1),
  )

  abbrev all_saved : Map String Request
  all_saved = put r.request_id r rs

  looked_up :
      (g : ℕ) → get g v.results ≡ (if nat_beq r.group_id g then some all_saved else get g w.results)
  unfolding save
  looked_up g =
      ap (get g) (a.results ∙ rw (opened, save_results) refl)
      ∙ get-put r.group_id g all_saved w.results

  by_group :
      (P : ℕ → Map String Request → Type 0)
      → P r.group_id all_saved
      → ((g : ℕ) (ss : Map String Request)
          → nat_beq r.group_id g ≡ false
          → get g w.results ≡ some ss
          → P g ss)
      → (g : ℕ) (ss : Map String Request) → get g v.results ≡ some ss
      → P g ss
  by_group P own others g ss e = elim (Bool-cases (nat_beq r.group_id g)) [
    | inl same ↦
        let e' : some all_saved ≡ some ss = sym (looked_up g ∙ rw same refl) ∙ e in
        let s : all_saved ≡ ss = cc in
        subst (λ j. P j ss) ((nat_beq_iff r.group_id g).0 same) (subst (P r.group_id) s own)
    | inr other ↦ others g ss other (sym (looked_up g ∙ rw other refl) ∙ e)
  ]

  same_asked : v.asked ≡ w.asked
  unfolding save
  same_asked = a.asked

  same_groups : v.groups ≡ w.groups
  unfolding save
  same_groups = a.groups

  told :
      (g : ℕ)
      → get g v.notify
        ≡ get g (notify_if (nat_beq (length all_saved) r.group_num) r.group_id w.notify)
  unfolding save
  told g = ap (get g) (a.notify ∙ rw (opened, save_notify) refl)

  told_other :
      (g : ℕ) (b : Bool)
      → nat_beq r.group_id g ≡ false
      → get g (notify_if b r.group_id w.notify) ≡ get g w.notify
  told_other g b other = elim (Option-cases (get r.group_id w.notify)) [
    | inl e ↦ rw (e, notify_if) refl
    | inr (closed, e) ↦ rw (e, notify_if) (get-put r.group_id g _ w.notify ∙ rw other refl)
  ]

  told_own :
      get r.group_id v.notify ≡ some true → length all_saved ≡ length (asked_of r.group_id w.asked)
  told_own n = elim (Option-cases (get r.group_id w.notify)) [
    | inl e ↦
        absurd (let n' : none ≡ some true = sym (told r.group_id ∙ rw (e, notify_if) e) ∙ n in cc)
    | inr (true, e) ↦ absurd (omega (arith, c.notified r.group_id rs opened e, incomplete))
    | inr (false, e) ↦
        let n' : some (nat_beq (length all_saved) r.group_num) ≡ some true =
          sym (
            told r.group_id
            ∙ rw (e, notify_if)
                (get-put r.group_id r.group_id (nat_beq (length all_saved) r.group_num) w.notify
                  ∙ rw ((nat_beq_iff r.group_id r.group_id).1 refl) refl))
          ∙ n in
        let b : nat_beq (length all_saved) r.group_num ≡ true = cc in
        (nat_beq_iff (length all_saved) r.group_num).0 b ∙ sized
  ]

  saved-IsConserved : IsConserved v
  saved-IsConserved = record {
    counted = ap length same_asked ∙ (c.counted ∙ sym same_groups);
    numbered =
        by_group (λ g ss. (0 < g) × (g ≤ v.groups))
          (let n = c.numbered r.group_id rs opened in (n.0, omega (arith, n.1, same_groups)))
          (λ g ss other e. let n = c.numbered g ss e in (n.0, omega (arith, n.1, same_groups)));
    fresh = λ g f h. omega (arith, before g f, c.fresh g f (omega (arith, same_groups)));
    conserved = λ g f.
        by_group
          (λ j ss.
            flow j f v + saved j f ss
            ≡ asked_weight f (length (asked_of j v.asked)) (asked_of j v.asked))
          (rw same_asked (
            omega (
              arith,
              saved-put r.group_id r.request_id r f rs unsaved,
              before r.group_id f,
              c.conserved r.group_id f rs opened,
            )))
          (λ j ss other e. rw same_asked (ground (arith, before j f, c.conserved j f ss e))) g;
    keyed =
        by_group Keyed
          (Keyed-put r.group_id r.request_id r rs refl refl (c.keyed r.group_id rs opened))
          (λ g ss other e. c.keyed g ss e);
    once = λ g. rw same_asked (c.once g);
    notified =
        by_group (λ g ss. get g v.notify ≡ some true → length ss ≡ length (asked_of g v.asked))
          (λ n. rw same_asked (told_own n))
          (λ g ss other e n.
            rw same_asked (c.notified g ss e (sym (told g ∙ told_other g _ other) ∙ n)));
  }

none_saved : (w : World) (r : Request) → get r.group_id w.results ≡ none → save r w ≡ w
unfolding save
none_saved w r e = rw (e, save_results, save_notify) refl

pub Effect-IsConserved : (w v : World) → Effect w v → IsConserved w → IsConserved v
Effect-IsConserved w v (passes a) c = Kept-IsConserved w v (passes-Kept w v a) c
Effect-IsConserved w v (drops r closed a) c = Kept-IsConserved w v (drops-Kept w v r closed a) c
Effect-IsConserved w v (makes_zero a) c = Kept-IsConserved w v (makes_zero-Kept w v a) c
Effect-IsConserved w v (saves r a) c = elim (Option-cases (get r.group_id w.results)) [
  | inl closed ↦
      Kept-IsConserved w v
        (drops-Kept w v r closed (subst (λ u. Flows (r ∷ []) [] u v) (none_saved w r closed) a)) c
  | inr (rs, opened) ↦ saved-IsConserved w v r rs c opened a
]
