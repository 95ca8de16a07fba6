-- ===== src/Utils/OrderedMap/Members.antt =====
-- Which entries an association list has after a change.
use go_lib.Base.{
  get, is_some, true, refl, sym, arith, ◌∙◌, ◌∙◌, false, ℕ, [], ◌∷◌, ◌≡◌, ◌⊎◌, inl, inr, ap, Memᴰ,
  Map, put, del, ◌==◌, Bool-cases, cons_cases, comparable_nat,
}

module _ {κ} {A : Type κ} where
  pub mem-put :
      (i j : ℕ) (a b : A) (m : Map ℕ A)
      → Memᴰ (j, b) (put i a m)
      → ((j ≡ i) × (b ≡ a)) ⊎ Memᴰ (j, b) m
  unfolding put
  mem-put i j a b [] mem = elim (cons_cases mem) [
    | inl e ↦ inl (ap (λ k. k.0) e, ap (λ k. k.1) e)
    | inr none_left ↦ elim none_left [ ]
  ]
  mem-put i j a b ((x, c) ∷ m) mem = elim (Bool-cases (x == i)) [
    | inl same ↦ elim (cons_cases (rw same at mem)) [
      | inl e ↦ inl (ap (λ k. k.0) e, ap (λ k. k.1) e)
      | inr later ↦ inr (Memᴰ.tail later)
    ]
    | inr other ↦ elim (cons_cases (rw other at mem)) [
      | inl e ↦ inr (Memᴰ.head e)
      | inr later ↦ elim (mem-put i j a b m later) [ inl e ↦ inl e | inr old ↦ inr (Memᴰ.tail old) ]
    ]
  ]

  pub put-mem :
      (i j : ℕ) (a b : A) (m : Map ℕ A) → Memᴰ (j, b) m → (c : A) × Memᴰ (j, c) (put i a m)
  unfolding put
  put-mem i j a b [] mem = elim mem [ ]
  put-mem i j a b ((x, c) ∷ m) mem = elim (Bool-cases (x == i)) [
    | inl same ↦ elim (cons_cases mem) [
      | inl e ↦ (
        a,
        rw same
            (Memᴰ.head (ap (λ k. (k, a)) (ap (λ k. k.0) e ∙ (comparable_nat.decides x i).0 same))),
      )
      | inr later ↦ (b, rw same (Memᴰ.tail later))
    ]
    | inr other ↦ elim (cons_cases mem) [
      | inl e ↦ (b, rw other (Memᴰ.head e))
      | inr later ↦ let (d, found) = put-mem i j a b m later in (d, rw other (Memᴰ.tail found))
    ]
  ]

  pub mem-del :
      (i j : ℕ) (b : A) (m : Map ℕ A) → Memᴰ (j, b) (del i m) → Memᴰ (j, b) m × ((j == i) ≡ false)
  unfolding del
  mem-del i j b [] mem = elim mem [ ]
  mem-del i j b ((x, c) ∷ m) mem = elim (Bool-cases (x == i)) [
    | inl same ↦ let old = mem-del i j b m (rw same at mem) in (Memᴰ.tail old.0, old.1)
    | inr other ↦ elim (cons_cases (rw other at mem)) [
      | inl e ↦ (Memᴰ.head e, ap (λ k. k.0 == i) e ∙ other)
      | inr later ↦ let old = mem-del i j b m later in (Memᴰ.tail old.0, old.1)
    ]
  ]

  pub del-mem :
      (i j : ℕ) (b : A) (m : Map ℕ A) → Memᴰ (j, b) m → (j == i) ≡ false → Memᴰ (j, b) (del i m)
  unfolding del
  del-mem i j b [] mem h = elim mem [ ]
  del-mem i j b ((x, c) ∷ m) mem h = elim (Bool-cases (x == i)) [
    | inl same ↦ elim (cons_cases mem) [
      | inl e ↦ absurd (ground (arith, ap (λ k. k.0 == i) e))
      | inr later ↦ rw same (del-mem i j b m later h)
    ]
    | inr other ↦ elim (cons_cases mem) [
      | inl e ↦ rw other (Memᴰ.head e)
      | inr later ↦ rw other (Memᴰ.tail (del-mem i j b m later h))
    ]
  ]

  pub get-mem : (i : ℕ) (b : A) (m : Map ℕ A) → Memᴰ (i, b) m → is_some (get i m) ≡ true
  unfolding get
  get-mem i b [] mem = elim mem [ ]
  get-mem i b ((x, c) ∷ m) mem = elim (Bool-cases (x == i)) [
    | inl same ↦ rw same refl
    | inr other ↦ elim (cons_cases mem) [
      | inl e ↦ absurd (ground (arith, (comparable_nat.decides x i).1 (sym (ap (λ k. k.0) e))))
      | inr later ↦ rw other (get-mem i b m later)
    ]
  ]
