-- ===== src/RequestPool/Conserved/Runs/Submit.antt =====
-- The begin and the end of a call of RequestMulti.
use go_lib.Base.{
  ℕ, suc, ◌+◌, ◌≤◌, ◌<◌, ◌≡◌, refl, String, true, false, [], ◌∷◌, ◌++◌, some, Map, get, put, del,
  length, length-append, get-put, get-del, nat_beq, nat_beq_iff, if◌then◌else◌, comparable_nat,
  comparable_string, arith, Bool-cases, inl, inr, ap, sym, subst, ◌∙◌, total, total-append,
  Distinct,
}
use go_lib.RequestPool.{Request}
use go_lib.RequestPool.Work.{World}
use go_lib.RequestPool.Calls.{messages, ids, submit, forget}
use go_lib.RequestPool.Conserved.{weight, flow, saved, asked_weight, asked_of, Keyed, IsConserved}
use go_lib.RequestPool.Conserved.Groups.{asked_of-snoc}

pub forget-IsConserved : (g : ℕ) (w : World) → IsConserved w → IsConserved (forget g w)
forget-IsConserved g w c = record {
  counted = c.counted;
  numbered = λ j rs e. c.numbered j rs (kept j rs e);
  fresh = λ j f h. c.fresh j f h;
  conserved = λ j f rs e. c.conserved j f rs (kept j rs e);
  keyed = λ j rs e. c.keyed j rs (kept j rs e);
  once = c.once;
  notified = λ j rs e n. c.notified j rs (kept j rs e) (told j n);
}
  where
    kept :
        (j : ℕ) (rs : Map String Request)
        → get j (del g w.results) ≡ some rs
        → get j w.results ≡ some rs
    kept j rs e = ground (arith, get-del g j w.results)

    told : (j : ℕ) → get j (del g w.notify) ≡ some true → get j w.notify ≡ some true
    told j n = ground (arith, get-del g j w.notify)

total-messages :
    (g n m j : ℕ) (f : String → ℕ → ℕ) (rs : Map String Request)
    → total (weight j f) (messages g n m rs)
      ≡ (if nat_beq g j then asked_weight f n (ids rs) else 0)
total-messages g n m j f [] = ground arith
total-messages g n m j f ((id, r) ∷ rs) = ground (arith, total-messages g n m j f rs)

length-ids : (rs : Map String Request) → length (ids rs) ≡ length rs
length-ids [] = refl
length-ids ((id, r) ∷ rs) = omega (arith, length-ids rs)

module _ (id : String) (r : Request) (es : Map String Request) (w : World) (c : IsConserved w) where
  abbrev rs : Map String Request
  rs = (id, r) ∷ es

  abbrev g : ℕ
  g = suc w.groups

  abbrev v : World
  v = submit rs w

  new_asked :
      (j : ℕ)
      → asked_of j (w.asked ++ ids rs ∷ []) ≡ (if nat_beq j g then ids rs else asked_of j w.asked)
  new_asked j =
      asked_of-snoc j w.asked (ids rs)
      ∙ ap (λ n. if nat_beq j (suc n) then ids rs else asked_of j w.asked) c.counted

  new_flow :
      (j : ℕ) (f : String → ℕ → ℕ)
      → flow j f v ≡ flow j f w + (if nat_beq g j then asked_weight f (length rs) (ids rs) else 0)
  unfolding submit
  new_flow j f = omega (
    arith,
    total-append (weight j f) w.unsent (messages g (length rs) (length w.managed) rs),
    total-messages g (length rs) (length w.managed) j f rs,
  )

  by_group :
      (P : ℕ → Map String Request → Type 0)
      → P g []
      → ((j : ℕ) (ss : Map String Request)
          → nat_beq j g ≡ false
          → get j w.results ≡ some ss
          → P j ss)
      → (j : ℕ) (ss : Map String Request) → get j (put g [] w.results) ≡ some ss
      → P j ss
  by_group P own others j ss e = elim (Bool-cases (nat_beq g j)) [
    | inl same ↦
        let e' : some [] ≡ some ss = sym (get-put g j [] w.results ∙ rw same refl) ∙ e in
        let s : [] ≡ ss = cc in subst (λ i. P i ss) ((nat_beq_iff g j).0 same) (subst (P g) s own)
    | inr other ↦
        others j ss (ground (arith, nat_beq_iff j g))
          (sym (get-put g j [] w.results ∙ rw other refl) ∙ e)
  ]

  asked_self : asked_of g (w.asked ++ ids rs ∷ []) ≡ ids rs
  asked_self = new_asked g ∙ rw ((nat_beq_iff g g).1 refl) refl

  asked_other :
      (j : ℕ) → nat_beq j g ≡ false → asked_of j (w.asked ++ ids rs ∷ []) ≡ asked_of j w.asked
  asked_other j other = new_asked j ∙ rw other refl

  asked_same : (j : ℕ) → nat_beq j g ≡ true → asked_of j (w.asked ++ ids rs ∷ []) ≡ ids rs
  asked_same j same = new_asked j ∙ rw same refl

  pub submit-IsConserved : Distinct (ids rs) → IsConserved v
  unfolding submit
  submit-IsConserved d = record {
    counted = omega (arith, length-append w.asked (ids rs ∷ []), c.counted);
    numbered =
        by_group (λ j ss. (0 < j) × (j ≤ g)) (omega arith, omega arith)
          (λ j ss other e. let n = c.numbered j ss e in (n.0, omega (arith, n.1)));
    fresh = λ j f h. ground (arith, new_flow j f, c.fresh j f);
    conserved = λ j f.
        by_group
          (λ i ss.
            flow i f v + saved i f ss
            ≡ asked_weight f (length (asked_of i (w.asked ++ ids rs ∷ [])))
                (asked_of i (w.asked ++ ids rs ∷ [])))
          (rw asked_self
            (ground (arith, new_flow g f, c.fresh g f, length-ids rs, nat_beq_iff g g)))
          (λ i ss other e.
            rw (asked_other i other)
              (ground (arith, new_flow i f, nat_beq_iff g i, c.conserved i f ss e)))
          j;
    keyed = by_group Keyed tt (λ j ss other e. c.keyed j ss e);
    once = λ j. elim (Bool-cases (nat_beq j g)) [
      | inl same ↦ rw (asked_same j same) d
      | inr other ↦ rw (asked_other j other) (c.once j)
    ];
    notified =
        by_group
          (λ j ss.
            get j (put g false w.notify) ≡ some true
            → length ss ≡ length (asked_of j (w.asked ++ ids rs ∷ [])))
          (λ n. absurd (ground (arith, get-put g g false w.notify, nat_beq_iff g g)))
          (λ j ss other e n.
            rw (asked_other j other)
              (c.notified j ss e (ground (arith, get-put g j false w.notify, nat_beq_iff g j))));
  }
