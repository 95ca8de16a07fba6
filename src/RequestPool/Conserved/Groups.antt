-- ===== src/RequestPool/Conserved/Groups.antt =====
-- The results of a group, and what a saved request does to them.
pub mod Saved
use go_lib.Base.{
  subst, nat_beq_iff, ℕ, zero, suc, ◌+◌, ◌-◌, ◌≤◌, ◌<◌, ◌≡◌, refl, String, Bool, true, false, List,
  [], ◌∷◌, ◌++◌, Option, none, some, Map, get, put, length, get_elem?, nat_beq, if◌then◌else◌,
  comparable_nat, comparable_string, arith, Option-cases, Bool-cases, inl, inr, ap, sym, ◌∙◌,
  is_some, ◌==◌, Distinct, Memᴰ,
}
use go_lib.RequestPool.{Request}
use go_lib.RequestPool.Conserved.{weight, saved, asked_weight, asked_of, or_empty, Keyed}

-- One for the identifier, and zero for the others.
abbrev pub is_id : String → String → ℕ → ℕ
is_id id j n = if j == id then 1 else 0

asked_weight-zero :
    (id : String) (n : ℕ) (js : List String) → ¬ Memᴰ id js → asked_weight (is_id id) n js ≡ 0
asked_weight-zero id n [] h = refl
asked_weight-zero id n (j ∷ js) h = elim (Bool-cases (j == id)) [
  | inl same ↦ absurd (h (Memᴰ.head (sym ((comparable_string.decides j id).0 same))))
  | inr other ↦ ground (arith, asked_weight-zero id n js (λ m. h (Memᴰ.tail m)))
]

pub asked_weight-le :
    (id : String) (n : ℕ) (js : List String) → Distinct js → asked_weight (is_id id) n js ≤ 1
asked_weight-le id n [] d = omega arith
asked_weight-le id n (j ∷ js) d = elim (Bool-cases (j == id)) [
  | inl same ↦
      let e : j ≡ id = (comparable_string.decides j id).0 same in
      ground (arith, asked_weight-zero id n js (subst (λ x. ¬ Memᴰ x js) e d.0))
  | inr other ↦ ground (arith, asked_weight-le id n js d.1)
]

pub asked_weight-one : (n : ℕ) (js : List String) → asked_weight (λ j m. 1) n js ≡ length js
asked_weight-one n [] = refl
asked_weight-one n (j ∷ js) = omega (arith, asked_weight-one n js)

-- One for a request with another size of its group.
abbrev pub is_off : ℕ → String → ℕ → ℕ
is_off n j m = if nat_beq m n then 0 else 1

pub asked_weight-off : (n : ℕ) (js : List String) → asked_weight (is_off n) n js ≡ 0
asked_weight-off n [] = refl
asked_weight-off n (j ∷ js) = ground (arith, asked_weight-off n js)

pub saved-one : (g : ℕ) (rs : Map String Request) → Keyed g rs → saved g (λ j m. 1) rs ≡ length rs
saved-one g [] h = refl
saved-one g ((k, r) ∷ rs) h = ground (arith, h.1, saved-one g rs h.2)

-- A result under an identifier weighs what the identifier does.
pub saved-is_id :
    (g : ℕ) (id : String) (rs : Map String Request) (r : Request)
    → Keyed g rs
    → get id rs ≡ some r
    → 0 < saved g (is_id id) rs
unfolding get
saved-is_id g id [] r h e = cc
saved-is_id g id ((k, q) ∷ rs) r h e = elim (Bool-cases (k == id)) [
  | inl same ↦
      let e' : (q.request_id == id) ≡ true =
        (comparable_string.decides q.request_id id).1
          (h.0 ∙ (comparable_string.decides k id).0 same) in
      ground (arith, h.1, nat_beq_iff q.group_id g)
  | inr other ↦ let rest = saved-is_id g id rs r h.2 (rw (other, get) at e) in omega arith
]

module _ (g : ℕ) (k : String) (r : Request) where
  pub saved-put :
      (f : String → ℕ → ℕ) (rs : Map String Request)
      → get k rs ≡ none
      → saved g f (put k r rs) ≡ saved g f rs + weight g f r
  unfolding get put
  saved-put f [] e = omega arith
  saved-put f ((j, q) ∷ rs) e = elim (Bool-cases (j == k)) [
    | inl same ↦ absurd (let e' : some q ≡ none = rw (same, get) at e in cc)
    | inr other ↦ rw (other, put) (omega (arith, saved-put f rs (rw (other, get) at e)))
  ]

  pub length-put :
      (rs : Map String Request) → get k rs ≡ none → length (put k r rs) ≡ suc (length rs)
  unfolding get put
  length-put [] e = refl
  length-put ((j, q) ∷ rs) e = elim (Bool-cases (j == k)) [
    | inl same ↦ absurd (let e' : some q ≡ none = rw (same, get) at e in cc)
    | inr other ↦ rw (other, put) (omega (arith, length-put rs (rw (other, get) at e)))
  ]

  pub Keyed-put :
      (rs : Map String Request)
      → r.request_id ≡ k
      → r.group_id ≡ g
      → Keyed g rs
      → Keyed g (put k r rs)
  unfolding put
  Keyed-put [] a b h = (a, b, tt)
  Keyed-put ((j, q) ∷ rs) a b h = elim (Bool-cases (j == k)) [
    | inl same ↦ rw (same, put) (a, b, h.2)
    | inr other ↦ rw (other, put) (h.0, h.1, Keyed-put rs a b h.2)
  ]

-- The record of the calls, with one more call.
pub asked_of-snoc :
    (g : ℕ) (asked : List (List String)) (x : List String)
    → asked_of g (asked ++ x ∷ [])
      ≡ (if nat_beq g (suc (length asked)) then x else asked_of g asked)
asked_of-snoc zero asked x = ground arith
asked_of-snoc (suc zero) [] x = refl
asked_of-snoc (suc (suc i)) [] x = ground arith
asked_of-snoc (suc zero) (y ∷ asked) x = ground arith
asked_of-snoc (suc (suc i)) (y ∷ asked) x = ground (arith, asked_of-snoc (suc i) asked x)
