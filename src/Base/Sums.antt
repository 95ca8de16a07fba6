-- ===== src/Base/Sums.antt =====
-- Sums of a weight over a list.
use Prim.Native.Nat.{ℕ, zero, suc, ◌+◌, ◌≤◌}
use mathlib.Core.Path.{refl, ◌≡◌}
use mathlib.Core.List.{List, [], ◌∷◌, ◌++◌}
use mathlib.Core.Option.{some}
use native.Mathlib.Omega.{arith}
use go_lib.Base.Lists.{get_elem?, set, replicate}

abbrev pub total {ℓ} : {A : Type ℓ} → (A → ℕ) → List A → ℕ
total f [] = 0
total f (x ∷ xs) = f x + total f xs

module _ {ℓ} {A : Type ℓ} (f : A → ℕ) where
  pub total-append : (xs ys : List A) → total f (xs ++ ys) ≡ total f xs + total f ys
  total-append [] ys = omega arith
  total-append (x ∷ xs) ys = omega (arith, total-append xs ys)

  pub total-set :
      (xs : List A) (i : ℕ) (x y : A)
      → get_elem? xs i ≡ some x
      → total f (set xs i y) + f x ≡ total f xs + f y
  total-set [] i x y h = ground arith
  total-set (z ∷ zs) zero x y h = ground arith
  total-set (z ∷ zs) (suc i) x y h = omega (arith, total-set zs i x y h)

  pub total-replicate : (n : ℕ) (x : A) → f x ≡ 0 → total f (replicate n x) ≡ 0
  total-replicate zero x h = refl
  total-replicate (suc n) x h = omega (arith, total-replicate n x h)

  pub total-le : (h : A → ℕ) (xs : List A) → ((x : A) → f x ≤ h x) → total f xs ≤ total h xs
  total-le h [] le = omega arith
  total-le h (x ∷ xs) le = omega (arith, le x, total-le h xs le)
