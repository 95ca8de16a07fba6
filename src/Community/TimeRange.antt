-- ===== src/Community/TimeRange.antt =====
-- common/community/time_range.go: a range of times in one of four notations. Go's package `time` is a
-- parameter, and the int64 that its functions take and return are integers: what `UnixMilli` returns
-- where the milliseconds do not fit is left to the parameter.
pub mod Roundtrips
use go_lib.Base.{
  ℕ, ◌+◌, String, Bool, true, false, not, Option, none, some, ◌⊎◌, inl, inr, ℤ, if◌then◌else◌,
  comparable_string, ◌==◌,
}

abbrev pub timestamp : String
timestamp = "timestamp"

abbrev pub timestamp_ms : String
timestamp_ms = "timestamp_ms"

abbrev pub year_month : String
year_month = "year_month"

abbrev pub date : String
date = "date"

pub record TimeRange : Type 0 where
  pub start_time : ℤ
  pub end_time : ℤ
  pub time_range_type : String

-- `time.Time`, `*time.Location`, and the functions of `time` and `strconv` that are called.
-- `civil` normalizes its month and day as `time.Date` does, and `just_before` is `Add(-1)`.
pub record Time : Type 1 where
  pub Moment : Type 0
  pub Location : Type 0
  pub local_zone : Location
  pub load_location : String → String ⊎ Location
  pub of_unix : ℤ → Location → Moment
  pub of_unix_milli : ℤ → Location → Moment
  pub unix : Moment → ℤ
  pub unix_milli : Moment → ℤ
  pub parse_in_location : String → String → Location → String ⊎ Moment
  pub format : String → Moment → String
  pub format_int : ℤ → String
  pub date_of : Moment → ℤ × ℕ × ℕ
  pub location_of : Moment → Location
  pub civil : ℤ → ℕ → ℕ → Location → Moment
  pub just_before : Moment → Moment

-- Why a range is refused.
pub data Refusal : Type 0 where
  unknown_zone bad_month bad_date unsupported_type : String → Refusal
  overflowing_date : ℤ → Refusal
  unsupported_zone : Refusal

-- The optional time zone argument: none or nil, a pointer that may be nil, a name, or another type.
pub data Zone (L : Type 0) : Type 0 where
  absent other_type : Zone L
  location : Option L → Zone L
  name : String → Zone L

-- To go on after a step that may refuse.
infixl 5 ◌>>=◌
abbrev pub ◌>>=◌ {ℓ κ} : {A : Type ℓ} {B : Type κ} → Refusal ⊎ A → (A → Refusal ⊎ B) → Refusal ⊎ B
inl e >>= f = inl e
inr a >>= f = f a

abbrev pub refused_as {ℓ} : {A : Type ℓ} → (String → Refusal) → String ⊎ A → Refusal ⊎ A
refused_as why (inl e) = inl (why e)
refused_as why (inr a) = inr a

unfoldable pub effective_type : TimeRange → String
effective_type t = if t.time_range_type == "" then timestamp else t.time_range_type

module _ (time : Time) where
  open time use {Moment, Location}

  unfoldable pub resolve_location : Zone Location → Refusal ⊎ Location
  resolve_location absent = inr time.local_zone
  resolve_location (location none) = inr time.local_zone
  resolve_location (location (some l)) = inr l
  resolve_location (name n) =
      if n == "" then inr time.local_zone else refused_as unknown_zone (time.load_location n)
  resolve_location other_type = inl unsupported_zone

  unfoldable pub parse_year_month : ℤ → Location → Refusal ⊎ Moment
  parse_year_month v loc =
      refused_as bad_month (time.parse_in_location "200601" (time.format_int v) loc)

  -- Go's parser may accept a day that the month does not have; the result is printed and compared.
  unfoldable pub parse_date : ℤ → Location → Refusal ⊎ Moment
  parse_date v loc = do
    t ← refused_as bad_date (time.parse_in_location "20060102" (time.format_int v) loc)
    if not (time.format "20060102" t == time.format_int v) then inl (overflowing_date v) else inr t

  unfoldable pub end_of_month : Moment → Moment
  end_of_month t =
      let (year, month, day) = time.date_of t in
      time.just_before (time.civil year (month + 1) 1 (time.location_of t))

  unfoldable pub end_of_day : Moment → Moment
  end_of_day t =
      let (year, month, day) = time.date_of t in
      time.just_before (time.civil year month (day + 1) (time.location_of t))

  abbrev range_of :
      (ℤ → Location → Refusal ⊎ Moment)
      → (Moment → Moment)
      → TimeRange
      → Location
      → Refusal ⊎ (Moment × Moment)
  range_of parse last t loc = do
    start ← parse t.start_time loc
    end ← parse t.end_time loc
    inr (start, last end)

  -- `parseRange` after the zone is known.
  unfoldable pub range_in : TimeRange → Location → Refusal ⊎ (Moment × Moment)
  unfolding parse_year_month parse_date end_of_month end_of_day effective_type
  range_in t loc =
      if effective_type t == timestamp
      then inr (time.of_unix t.start_time loc, time.of_unix t.end_time loc)
      else if effective_type t == timestamp_ms
      then inr (time.of_unix_milli t.start_time loc, time.of_unix_milli t.end_time loc)
      else if effective_type t == year_month
      then range_of parse_year_month end_of_month t loc
      else if effective_type t == date
      then range_of parse_date end_of_day t loc
      else inl (unsupported_type t.time_range_type)

  -- `parseRange`, and `Parse`.
  unfoldable pub parse_range : Zone Location → TimeRange → Refusal ⊎ (Moment × Moment)
  unfolding resolve_location range_in
  parse_range tz t = resolve_location tz >>= range_in t

  unfoldable pub to_sec : Zone Location → TimeRange → Refusal ⊎ TimeRange
  unfolding parse_range effective_type
  to_sec tz t =
      if effective_type t == timestamp
      then inr (record t { time_range_type = timestamp })
      else (parse_range tz t >>= λ r. inr (record {
        start_time = time.unix r.0;
        end_time = time.unix r.1;
        time_range_type = timestamp;
      }))

  unfoldable pub to_ms : Zone Location → TimeRange → Refusal ⊎ TimeRange
  unfolding parse_range effective_type
  to_ms tz t =
      if effective_type t == timestamp_ms
      then inr (record t { time_range_type = timestamp_ms })
      else (parse_range tz t >>= λ r. inr (record {
        start_time = time.unix_milli r.0;
        end_time = time.unix_milli r.1;
        time_range_type = timestamp_ms;
      }))
