-- ===== src/Utils/Slices/Elements.antt =====
-- The elements of a slice after an assignment.
use go_lib.Base.{
  ℕ, zero, suc, ◌+◌, ◌-◌, ◌≤◌, ◌<◌, ◌≡◌, refl, List, [], ◌∷◌, ◌++◌, some, length, length-append,
  take, replicate, set, get_elem?, arith, ap,
}
use go_lib.Utils.Slices.{Slice, ensure_len, safe_set}

module _ {ℓ} {T : Type ℓ} where
  length-set : (xs : List T) (i : ℕ) (v : T) → length (set xs i v) ≡ length xs
  length-set [] i v = refl
  length-set (x ∷ xs) zero v = refl
  length-set (x ∷ xs) (suc i) v = ap suc (length-set xs i v)

  length-take : (n : ℕ) (xs : List T) → n ≤ length xs → length (take n xs) ≡ n
  length-take zero xs h = refl
  length-take (suc n) [] h = omega arith
  length-take (suc n) (x ∷ xs) h = ap suc (length-take n xs (omega arith))

  length-replicate : (n : ℕ) (v : T) → length (replicate n v) ≡ n
  length-replicate zero v = refl
  length-replicate (suc n) v = ap suc (length-replicate n v)

  get-set_same : (xs : List T) (i : ℕ) (v : T) → i < length xs → get_elem? (set xs i v) i ≡ some v
  get-set_same [] i v h = absurd (omega arith)
  get-set_same (x ∷ xs) zero v h = refl
  get-set_same (x ∷ xs) (suc i) v h = get-set_same xs i v (omega arith)

  get-set_other :
      (xs : List T) (i j : ℕ) (v : T) → j < i → get_elem? (set xs i v) j ≡ get_elem? xs j
  get-set_other [] i j v h = refl
  get-set_other (x ∷ xs) zero j v h = absurd (omega arith)
  get-set_other (x ∷ xs) (suc i) zero v h = refl
  get-set_other (x ∷ xs) (suc i) (suc j) v h = get-set_other xs i j v (omega arith)

  get-take : (n j : ℕ) (xs : List T) → j < n → get_elem? (take n xs) j ≡ get_elem? xs j
  get-take zero j xs h = absurd (omega arith)
  get-take (suc n) j [] h = refl
  get-take (suc n) zero (x ∷ xs) h = refl
  get-take (suc n) (suc j) (x ∷ xs) h = get-take n j xs (omega arith)

  get-append : (xs ys : List T) (j : ℕ) → j < length xs → get_elem? (xs ++ ys) j ≡ get_elem? xs j
  get-append [] ys j h = absurd (omega arith)
  get-append (x ∷ xs) ys zero h = refl
  get-append (x ∷ xs) ys (suc j) h = get-append xs ys j (omega arith)

  -- What the slice shows of its array.
  abbrev pub elements : Slice T → List T
  elements s = take s.len s.backing

  ensure_len-len :
      (zero_value : T) (n : ℕ) (s : Slice T)
      → s.len ≤ length s.backing
      → let t = ensure_len zero_value n s in (t.len ≡ n) × (n ≤ length t.backing)
  unfolding ensure_len
  ensure_len-len zero_value n s wf =
      let shown = take s.len s.backing in
      let more = replicate (n - s.len) zero_value in
      ground (
        arith,
        length-append shown more,
        length-take s.len s.backing wf,
        length-replicate (n - s.len) zero_value,
      )

  ensure_len-elements :
      (zero_value : T) (n j : ℕ) (s : Slice T)
      → s.len ≤ length s.backing
      → j < s.len
      → get_elem? (ensure_len zero_value n s).backing j ≡ get_elem? s.backing j
  unfolding ensure_len
  ensure_len-elements zero_value n j s wf l =
      let shown = take s.len s.backing in
      let more = replicate (n - s.len) zero_value in
      ground (
        arith,
        length-take s.len s.backing wf,
        get-append shown more j,
        get-take s.len j s.backing l,
      )

  -- `SafeSet` leaves a slice of exactly `index + 1` elements, whatever it had before, and the last
  -- of them is the value.
  pub safe_set-elements :
      (zero_value value : T) (index : ℕ) (s : Slice T)
      → s.len ≤ length s.backing
      → let r = elements (safe_set zero_value index value s) in
        (length r ≡ index + 1) × (get_elem? r index ≡ some value)
  unfolding safe_set
  safe_set-elements zero_value value index s wf =
      let t = ensure_len zero_value (index + 1) s in
      let assigned = set t.backing index value in
      ground (
        arith,
        ensure_len-len zero_value (index + 1) s wf,
        length-set t.backing index value,
        length-take (index + 1) assigned,
        get-set_same t.backing index value,
        get-take (index + 1) index assigned,
      )

  -- `SafeSet` leaves every element as it was whose position is below both the index and the old
  -- length.
  pub get-safe_set :
      (zero_value value : T) (index j : ℕ) (s : Slice T)
      → s.len ≤ length s.backing
      → j < index
      → j < s.len
      → get_elem? (elements (safe_set zero_value index value s)) j ≡ get_elem? (elements s) j
  unfolding safe_set
  get-safe_set zero_value value index j s wf h l =
      let t = ensure_len zero_value (index + 1) s in
      let assigned = set t.backing index value in
      ground (
        arith,
        ensure_len-len zero_value (index + 1) s wf,
        ensure_len-elements zero_value (index + 1) j s wf l,
        get-set_other t.backing index j value h,
        get-take (index + 1) j assigned,
        get-take s.len j s.backing l,
      )
