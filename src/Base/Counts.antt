-- ===== src/Base/Counts.antt =====
-- How often a number stands in a list: what a change of order keeps.
use Prim.Native.Nat.{ℕ, ◌+◌, ◌<◌, ◌≤◌}
use mathlib.Core.Path.{subst, sym, ◌≡◌}
use mathlib.Core.Logic.{inl, inr}
use mathlib.Core.List.{Memᴰ, List, [], ◌∷◌, ◌++◌}
use native.Mathlib.Omega.{arith}
use go_lib.Base.Tests.{if◌then◌else◌, nat_beq, nat_beq_iff, Bool-cases}
use go_lib.Base.Lists.{Distinct}

abbrev pub occurrences : ℕ → List ℕ → ℕ
occurrences j [] = 0
occurrences j (r ∷ rs) = (if nat_beq j r then 1 else 0) + occurrences j rs

pub occurrences-append :
    (j : ℕ) (rs ts : List ℕ) → occurrences j (rs ++ ts) ≡ occurrences j rs + occurrences j ts
occurrences-append j [] ts = omega arith
occurrences-append j (r ∷ rs) ts = omega (arith, occurrences-append j rs ts)

pub occurrences_mem : (j : ℕ) (rs : List ℕ) → Memᴰ j rs → 0 < occurrences j rs
occurrences_mem j [] m = elim m [ ]
occurrences_mem j (r ∷ rs) (Memᴰ.head e) = ground (arith, nat_beq_iff j r)
occurrences_mem j (r ∷ rs) (Memᴰ.tail m) = omega (arith, occurrences_mem j rs m)

pub mem_occurrences : (j : ℕ) (rs : List ℕ) → 0 < occurrences j rs → Memᴰ j rs
mem_occurrences j [] h = absurd (omega arith)
mem_occurrences j (r ∷ rs) h = elim (Bool-cases (nat_beq j r)) [
  | inl same ↦ Memᴰ.head ((nat_beq_iff j r).0 same)
  | inr other ↦ Memᴰ.tail (mem_occurrences j rs (ground arith))
]

occurrences-le : (j : ℕ) (rs : List ℕ) → Distinct rs → occurrences j rs ≤ 1
occurrences-le j [] d = omega arith
occurrences-le j (r ∷ rs) d = elim (Bool-cases (nat_beq j r)) [
  | inl same ↦
      let unseen : occurrences j rs ≡ 0 = elim (Bool-cases (nat_beq 0 (occurrences j rs))) [
        | inl z ↦ sym ((nat_beq_iff 0 (occurrences j rs)).0 z)
        | inr seen ↦ absurd (
            d.0 (
              subst (λ k. Memᴰ k rs) ((nat_beq_iff j r).0 same)
                (mem_occurrences j rs (ground (arith, nat_beq_iff 0 (occurrences j rs))))))
      ] in
      ground arith
  | inr other ↦ ground (arith, occurrences-le j rs d.1)
]

Distinct-of_counts : (rs : List ℕ) → ((j : ℕ) → occurrences j rs ≤ 1) → Distinct rs
Distinct-of_counts [] h = tt
Distinct-of_counts (r ∷ rs) h = (
  λ m. let seen = occurrences_mem r rs m in absurd (ground (arith, h r, nat_beq_iff r r)),
  Distinct-of_counts rs (λ j. ground (arith, h j)),
)

-- Lists with the same counts have the same elements, and are without repetitions together.
module _ (rs ts : List ℕ) (same : (j : ℕ) → occurrences j ts ≡ occurrences j rs) where
  pub mem_reordered : (j : ℕ) → Memᴰ j ts → Memᴰ j rs
  mem_reordered j m = mem_occurrences j rs (omega (arith, same j, occurrences_mem j ts m))

  pub Distinct-reordered : Distinct rs → Distinct ts
  Distinct-reordered d = Distinct-of_counts ts (λ j. omega (arith, same j, occurrences-le j rs d))
