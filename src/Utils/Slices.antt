-- ===== src/Utils/Slices.antt =====
-- common/utils/list.go: `SafeSet` and `EnsureLen` on slices with a capacity.
pub mod Elements
use go_lib.Base.{ℕ, ◌+◌, ◌-◌, List, ◌++◌, length, take, replicate, set, ltb, if◌then◌else◌}

-- A backing array, which reaches to the capacity of the slice, and a length.
pub record Slice {ℓ} (T : Type ℓ) : Type ℓ where
  pub backing : List T
  pub len : ℕ

module _ {ℓ} {T : Type ℓ} where
  -- `zero_value` fills what `make` allocates.
  unfoldable pub ensure_len : T → ℕ → Slice T → Slice T
  ensure_len zero_value n s =
      if ltb (length s.backing) n
      then record { backing = take s.len s.backing ++ replicate (n - s.len) zero_value; len = n }
      else record s { len = n }

  unfoldable pub safe_set : T → ℕ → T → Slice T → Slice T
  unfolding ensure_len
  safe_set zero_value index value s =
      let t = ensure_len zero_value (index + 1) s in
      record t { backing = set t.backing index value }
