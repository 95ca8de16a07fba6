-- ===== src/Base/Lists.antt =====
-- Lists measured and indexed by native numbers, under the library's names.
use Prim.Native.Nat.{ℕ, zero, suc, ◌+◌}
use mathlib.Core.Path.{sym, refl, ap, ◌≡◌}
use mathlib.Core.Logic.{◌⊎◌, inl, inr}
use mathlib.Core.List.{Memᴰ, List, [], ◌∷◌, ◌++◌}
use mathlib.Core.Option.{Option, none, some}
use native.Mathlib.Omega.{arith}

module _ {ℓ} {A : Type ℓ} where
  abbrev pub length : List A → ℕ
  length [] = 0
  length (x ∷ xs) = suc (length xs)

  abbrev pub get_elem? : List A → ℕ → Option A
  get_elem? [] i = none
  get_elem? (x ∷ xs) zero = some x
  get_elem? (x ∷ xs) (suc i) = get_elem? xs i

  -- A write out of bounds changes nothing.
  abbrev pub set : List A → ℕ → A → List A
  set [] i v = []
  set (x ∷ xs) zero v = v ∷ xs
  set (x ∷ xs) (suc i) v = x ∷ set xs i v

  abbrev pub take : ℕ → List A → List A
  take zero xs = []
  take (suc n) [] = []
  take (suc n) (x ∷ xs) = x ∷ take n xs

  abbrev pub drop : ℕ → List A → List A
  drop zero xs = xs
  drop (suc n) [] = []
  drop (suc n) (x ∷ xs) = drop n xs

  abbrev pub replicate : ℕ → A → List A
  replicate zero a = []
  replicate (suc n) a = a ∷ replicate n a

  -- A predicate on every element, as a tuple.
  abbrev pub All {κ} : (A → Type κ) → List A → Type κ
  All P [] = Unit
  All P (x ∷ xs) = P x × All P xs

  pub length-append : (xs ys : List A) → length (xs ++ ys) ≡ length xs + length ys
  length-append [] ys = omega arith
  length-append (x ∷ xs) ys = omega (arith, length-append xs ys)

  pub take-append-drop : (n : ℕ) (xs : List A) → take n xs ++ drop n xs ≡ xs
  take-append-drop zero xs = refl
  take-append-drop (suc n) [] = refl
  take-append-drop (suc n) (x ∷ xs) = ap (λ ys. x ∷ ys) (take-append-drop n xs)

-- Membership as a position, which a proof can match.
module _ {ℓ} {A : Type ℓ} where
  pub snoc_cases : (x r : A) (ts : List A) → Memᴰ x (ts ++ r ∷ []) → Memᴰ x ts ⊎ (x ≡ r)
  snoc_cases x r [] (Memᴰ.head e) = inr e
  snoc_cases x r [] (Memᴰ.tail m) = elim m [ ]
  snoc_cases x r (t ∷ ts) (Memᴰ.head e) = inl (Memᴰ.head e)
  snoc_cases x r (t ∷ ts) (Memᴰ.tail m) = elim (snoc_cases x r ts m) [
    | inl before ↦ inl (Memᴰ.tail before)
    | inr e ↦ inr e
  ]

  pub cons_cases : {x r : A} {ts : List A} → Memᴰ x (r ∷ ts) → (x ≡ r) ⊎ Memᴰ x ts
  cons_cases (Memᴰ.head e) = inl e
  cons_cases (Memᴰ.tail m) = inr m

  pub mem-snoc_left : (x r : A) (ts : List A) → Memᴰ x ts → Memᴰ x (ts ++ r ∷ [])
  mem-snoc_left x r [] m = elim m [ ]
  mem-snoc_left x r (t ∷ ts) (Memᴰ.head e) = Memᴰ.head e
  mem-snoc_left x r (t ∷ ts) (Memᴰ.tail m) = Memᴰ.tail (mem-snoc_left x r ts m)

  pub mem-snoc_self : (r : A) (ts : List A) → Memᴰ r (ts ++ r ∷ [])
  mem-snoc_self r [] = Memᴰ.head refl
  mem-snoc_self r (t ∷ ts) = Memᴰ.tail (mem-snoc_self r ts)

  -- No element stands twice.
  abbrev pub Distinct : List A → Type ℓ
  Distinct [] = Unit
  Distinct (x ∷ xs) = (¬ Memᴰ x xs) × Distinct xs

  pub Distinct-snoc : (r : A) (ts : List A) → ¬ Memᴰ r ts → Distinct ts → Distinct (ts ++ r ∷ [])
  Distinct-snoc r [] h d = ((λ m. elim m [ ]), tt)
  Distinct-snoc r (t ∷ ts) h d = (
    λ m. elim (snoc_cases t r ts m) [ inl before ↦ d.0 before | inr e ↦ h (Memᴰ.head (sym e)) ],
    Distinct-snoc r ts (λ m. h (Memᴰ.tail m)) d.1,
  )
