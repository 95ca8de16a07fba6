-- ===== src/RabbitMq/Backoff.antt =====
-- dao/rabbitMQ/connect.go: backoff, with the wrap-around of int64.
use go_lib.Base.{
  nat_beq_iff, ℕ, zero, suc, ◌+◌, ◌-◌, ◌*◌, ◌%◌, ◌≤◌, ◌<◌, ◌≡◌, refl, Bool, true, ◌&&◌, ℤ, pos, ltb,
  ◌||◌, Bool-cases, inl, inr, ltb_ℤ, nat_beq, if◌then◌else◌, int_beq, int_beq_iff, arith, word,
  to_int64,
}

-- `1 << n`: one doubling for each place, on 64 bits.
unfoldable pub shift_one : ℕ → ℕ
shift_one zero = 1
shift_one (suc n) = (shift_one n * 2) % word

-- Nanoseconds.
abbrev pub second : ℕ
second = 1000000000

abbrev pub max_backoff : ℤ
max_backoff = pos (60 * second)

unfoldable pub backoff : ℕ → ℤ
unfolding shift_one
backoff attempt =
    let d = to_int64 ((shift_one attempt * second) % word) in
    if ltb_ℤ max_backoff d then max_backoff else d

-- A test that every attempt before the n-th passes.
every_before : (ℕ → Bool) → ℕ → Bool
every_before test zero = true
every_before test (suc n) = every_before test n && test n

passes :
    (test : ℕ → Bool) (n attempt : ℕ)
    → attempt < n
    → every_before test n ≡ true
    → test attempt ≡ true
unfolding every_before
passes test zero attempt early h = absurd (omega arith)
passes test (suc n) attempt early h = elim (Bool-cases (nat_beq attempt n)) [
  | inl last ↦ rw ((nat_beq_iff attempt n).0 last) (ground arith)
  | inr before ↦ passes test n attempt (ground arith) (ground arith)
]

-- The delay that the code means: one second, doubled at each attempt, and at most a minute.
abbrev pub capped : ℕ → ℕ
capped zero = 1
capped (suc n) = let d = 2 * capped n in if ltb 60 d then 60 else d

early_table : every_before (λ n. int_beq (backoff n) (pos (capped n * second))) 34 ≡ true
unfolding every_before backoff
early_table = refl

late_table : every_before (λ n. ltb n 55 || nat_beq ((shift_one n * second) % word) 0) 64 ≡ true
unfolding every_before shift_one
late_table = refl

shifted_out : (n k : ℕ) → n ≡ 64 + k → shift_one n ≡ 0
unfolding shift_one
shifted_out zero k e = absurd (omega arith)
shifted_out (suc n) zero e = let h : n ≡ 63 = omega arith in rw h refl
shifted_out (suc n) (suc k) e = omega (arith, shifted_out n k (omega arith))

product_zero : (n : ℕ) → 55 ≤ n → (shift_one n * second) % word ≡ 0
product_zero n h = elim (Bool-cases (ltb n 64)) [
  | inl below ↦ let t = passes _ 64 n (ground arith) late_table in ground arith
  | inr above ↦ rw (shifted_out n (n - 64) (ground arith)) refl
]

-- Up to the attempt 33 the delay is one second, doubled at each attempt and cut at a minute; from the
-- attempt 55 on the product wraps around to zero, and there is no delay at all.
pub backoff_wraps :
    (n : ℕ) → (n < 34 → backoff n ≡ pos (capped n * second)) × (55 ≤ n → backoff n ≡ pos 0)
unfolding backoff
backoff_wraps n = (
  λ h. (int_beq_iff (backoff n) (pos (capped n * second))).0 (passes _ 34 n h early_table),
  λ h. rw (product_zero n h) refl,
)
