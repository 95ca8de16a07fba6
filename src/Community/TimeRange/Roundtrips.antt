-- ===== src/Community/TimeRange/Roundtrips.antt =====
-- A range in seconds, by way of milliseconds.
use go_lib.Base.{
  pos, negsuc, ◌≤◌, IsInt64, ◌∙◌, sym, ◌≡◌, refl, ◌⊎◌, inl, inr, String, true, false, ℤ, Bool-cases,
  comparable_string, ◌==◌,
}
use go_lib.Community.TimeRange.{
  TimeRange, Time, Zone, Refusal, timestamp, timestamp_ms, effective_type, resolve_location,
  parse_range, range_in, to_sec, to_ms, ◌>>=◌,
}

-- Seconds whose milliseconds, up to the end of the last second, fit an int64: from
-- -9223372036854775 to 9223372036854774.
abbrev pub MillisFit : ℤ → Type 0
MillisFit (pos n) = n ≤ 9223372036854774
MillisFit (negsuc n) = n ≤ 9223372036854774

-- What `time` documents of the two kinds of timestamp: seconds are read back as they were given; and
-- if the milliseconds of a moment fit an int64, they give a moment with the same seconds. Where they do
-- not fit, the result of UnixMilli is undefined.
pub record IsTime (time : Time) : Type 0 where
  pub unix-of_unix : (s : ℤ) (l : time.Location) → IsInt64 s → time.unix (time.of_unix s l) ≡ s
  pub unix-of_unix_milli :
      (t : time.Moment) (l : time.Location)
      → MillisFit (time.unix t)
      → time.unix (time.of_unix_milli (time.unix_milli t) l) ≡ time.unix t

-- The fields of a range are int64.
abbrev pub IsRange : TimeRange → Type 0
IsRange t = IsInt64 t.start_time × IsInt64 t.end_time

module _ (time : Time) where
  open time use {Moment, Location}

  -- The milliseconds of both ends of the range, if it has any, fit an int64.
  abbrev pub EndsFit : Zone Location → TimeRange → Type 0
  EndsFit tz t =
      (start end : Moment)
      → parse_range time tz t ≡ inr (start, end)
      → MillisFit (time.unix start) × MillisFit (time.unix end)

  abbrev seconds : Moment × Moment → Refusal ⊎ TimeRange
  seconds (start, end) = inr (record {
    start_time = time.unix start;
    end_time = time.unix end;
    time_range_type = timestamp;
  })

  abbrev millis : Moment × Moment → TimeRange
  millis (start, end) = record {
    start_time = time.unix_milli start;
    end_time = time.unix_milli end;
    time_range_type = timestamp_ms;
  }

  abbrev of_millis : TimeRange → Location → Moment × Moment
  of_millis t l = (time.of_unix_milli t.start_time l, time.of_unix_milli t.end_time l)

  -- The notations are different texts.
  other_notation : (s : String) → (s == timestamp_ms) ≡ true → (s == timestamp) ≡ false
  other_notation s e =
      let same : s ≡ timestamp_ms = (comparable_string.decides s timestamp_ms).0 e in rw same refl

  range_in-millis :
      (t : TimeRange) (l : Location)
      → (effective_type t == timestamp_ms) ≡ true
      → range_in time t l ≡ inr (of_millis t l)
  unfolding range_in
  range_in-millis t l e = rw (other_notation (effective_type t) e, e) refl

  to_sec-millis :
      (tz : Zone Location) (t : TimeRange) (z : Refusal ⊎ Location)
      → (effective_type t == timestamp_ms) ≡ true
      → resolve_location time tz ≡ z
      → to_sec time tz t ≡ (z >>= λ l. seconds (of_millis t l))
  unfolding to_sec parse_range
  to_sec-millis tz t (inl r) e z = rw (other_notation (effective_type t) e, z) refl
  to_sec-millis tz t (inr l) e z =
      rw (other_notation (effective_type t) e, z, range_in-millis t l e) refl

  to_sec-range :
      (tz : Zone Location) (t : TimeRange) (r : Moment × Moment)
      → (effective_type t == timestamp) ≡ false
      → parse_range time tz t ≡ inr r
      → to_sec time tz t ≡ seconds r
  unfolding to_sec
  to_sec-range tz t r e p = rw (e, p) refl

  to_sec-seconds :
      (tz : Zone Location) (t : TimeRange)
      → (effective_type t == timestamp) ≡ true
      → to_sec time tz t ≡ inr (record t { time_range_type = timestamp })
  unfolding to_sec
  to_sec-seconds tz t e = rw e refl

  to_ms-millis :
      (tz : Zone Location) (t : TimeRange)
      → (effective_type t == timestamp_ms) ≡ true
      → to_ms time tz t ≡ inr (record t { time_range_type = timestamp_ms })
  unfolding to_ms
  to_ms-millis tz t e = rw e refl

  to_ms-range :
      (tz : Zone Location) (t : TimeRange)
      → (effective_type t == timestamp_ms) ≡ false
      → to_ms time tz t ≡ (parse_range time tz t >>= λ r. inr (millis r))
  unfolding to_ms
  to_ms-range tz t e = rw e refl

  parse_range-seconds :
      (tz : Zone Location) (t : TimeRange) (l : Location)
      → (effective_type t == timestamp) ≡ true
      → resolve_location time tz ≡ inr l
      → parse_range time tz t ≡ inr (time.of_unix t.start_time l, time.of_unix t.end_time l)
  unfolding parse_range range_in
  parse_range-seconds tz t l e z = rw (z, e) refl

  parse_range-refused :
      (tz : Zone Location) (t : TimeRange) (e : Refusal)
      → resolve_location time tz ≡ inl e
      → parse_range time tz t ≡ inl e
  unfolding parse_range
  parse_range-refused tz t e z = rw z refl

  module _ (ok : IsTime time) where
    -- What `to_ms` made is read back as the moments that it was made from.
    back :
        (tz : Zone Location) (l : Location) (r : Moment × Moment)
        → resolve_location time tz ≡ inr l
        → MillisFit (time.unix r.0) × MillisFit (time.unix r.1)
        → to_sec time tz (millis r) ≡ seconds r
    unfolding effective_type
    back tz l (start, end) z (fits, fit) =
        to_sec-millis tz (millis (start, end)) (inr l) refl z
        ∙ rw (ok.unix-of_unix_milli start l fits, ok.unix-of_unix_milli end l fit) refl

    range-back :
        (tz : Zone Location) (t : TimeRange) (l : Location) (r : Moment × Moment)
        → IsRange t
        → resolve_location time tz ≡ inr l
        → parse_range time tz t ≡ inr r
        → seconds r ≡ to_sec time tz t
    range-back tz t l r whole_range z p = elim (Bool-cases (effective_type t == timestamp)) [
      | inr other ↦ sym (to_sec-range tz t r other p)
      | inl sec ↦
          let whole : parse_range time tz t
              ≡ inr (time.of_unix t.start_time l, time.of_unix t.end_time l) =
            parse_range-seconds tz t l sec z in
          let same : r ≡ (time.of_unix t.start_time l, time.of_unix t.end_time l) = cc in
          rw
            (
              same,
              ok.unix-of_unix t.start_time l whole_range.0,
              ok.unix-of_unix t.end_time l whole_range.1,
            )
            (sym (to_sec-seconds tz t sec))
    ]

    of_parts :
        (tz : Zone Location) (t u : TimeRange) (z : Refusal ⊎ Location)
        (r : Refusal ⊎ (Moment × Moment))
        → IsRange t
        → EndsFit tz t
        → (effective_type t == timestamp_ms) ≡ false
        → resolve_location time tz ≡ z
        → parse_range time tz t ≡ r
        → to_ms time tz t ≡ inr u
        → to_sec time tz u ≡ to_sec time tz t
    of_parts tz t u z (inl e) ends fit other y p h =
        let made : to_ms time tz t ≡ inl e = to_ms-range tz t other ∙ rw p refl in absurd (cc)
    of_parts tz t u (inl e) (inr r) ends fit other y p h =
        let none : parse_range time tz t ≡ inl e = parse_range-refused tz t e y in absurd (cc)
    of_parts tz t u (inr l) (inr r) ends fit other y p h =
        let whole : to_ms time tz t ≡ inr (millis r) = to_ms-range tz t other ∙ rw p refl in
        let made : millis r ≡ u = cc in
        rw (← made) (back tz l r y (fit r.0 r.1 p) ∙ range-back tz t l r ends y p)

  -- If `time` reads timestamps back as it documents, and the milliseconds of both ends of a range fit
  -- an int64, then where ToMs succeeds, for each of the four notations, ToSec of its result is ToSec of
  -- the range itself, in the same time zone.
  pub to_sec-to_ms :
      (tz : Zone Location) (t u : TimeRange)
      → IsTime time
      → IsRange t
      → EndsFit tz t
      → to_ms time tz t ≡ inr u
      → to_sec time tz u ≡ to_sec time tz t
  unfolding effective_type
  to_sec-to_ms tz t u ok ends fit h = elim (Bool-cases (effective_type t == timestamp_ms)) [
    | inr other ↦
        of_parts ok tz t u (resolve_location time tz) (parse_range time tz t) ends fit other refl
          refl h
    | inl milli ↦
        let whole : to_ms time tz t ≡ inr (record t { time_range_type = timestamp_ms }) =
          to_ms-millis tz t milli in
        let same : record t { time_range_type = timestamp_ms } ≡ u = cc in
        rw (← same) (
          to_sec-millis tz (record t { time_range_type = timestamp_ms }) (resolve_location time tz)
            refl refl
          ∙ sym (to_sec-millis tz t (resolve_location time tz) milli refl))
  ]
