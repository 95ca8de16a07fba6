-- ===== src/Community/Examples.antt =====
-- Moments as milliseconds, at which the theorem on time ranges is applied.
use go_lib.Base.{◌-◌, ℕ, ◌+◌, ◌*◌, ◌/◌, ◌≡◌, refl, ap, inr, ℤ, pos, negsuc, arith}
use go_lib.Community.TimeRange.{
  TimeRange, Time, absent, timestamp_ms, effective_type, resolve_location, range_in, parse_range,
  to_sec, to_ms,
}
use go_lib.Community.TimeRange.Roundtrips.{IsTime, EndsFit, to_sec-to_ms}

abbrev in_millis : ℤ → ℤ
in_millis (pos n) = pos (n * 1000)
in_millis (negsuc n) = negsuc (n * 1000 + 999)

abbrev in_seconds : ℤ → ℤ
in_seconds (pos n) = pos (n / 1000)
in_seconds (negsuc n) = negsuc (n / 1000)

in_seconds-in_millis : (s : ℤ) → in_seconds (in_millis s) ≡ s
in_seconds-in_millis (pos n) = ap pos (omega arith)
in_seconds-in_millis (negsuc n) = ap negsuc (omega arith)

abbrev millis : Time
millis = record {
  Moment = ℤ;
  Location = ℕ;
  local_zone = 0;
  load_location = λ s. inr 8;
  of_unix = λ s l. in_millis s;
  of_unix_milli = λ m l. m;
  unix = in_seconds;
  unix_milli = λ m. m;
  parse_in_location = λ layout s l. inr (pos 0);
  format = λ layout t. "19700101";
  format_int = λ v. "19700101";
  date_of = λ t. (pos 1970, 1, 1);
  location_of = λ t. 0;
  civil = λ y m d l. pos (86400000 * (d - 1));
  just_before = λ t. t;
}

millis_laws : IsTime millis
millis_laws = record {
  unix-of_unix = λ s l _. in_seconds-in_millis s;
  unix-of_unix_milli = λ t l _. refl;
}

abbrev week : TimeRange
week = record { start_time = pos 1700000000; end_time = pos 1700604800; time_range_type = "" }

abbrev week_ms : TimeRange
week_ms = record {
  start_time = pos 1700000000000;
  end_time = pos 1700604800000;
  time_range_type = timestamp_ms;
}

week_fits : EndsFit millis absent week
unfolding parse_range range_in effective_type resolve_location
week_fits start end e =
    let first : start ≡ pos 1700000000000 = cc in
    let last : end ≡ pos 1700604800000 = cc in rw (first, last) (omega arith, omega arith)

to_sec-to_ms_example : to_sec millis absent week_ms ≡ to_sec millis absent week
unfolding to_ms parse_range range_in effective_type resolve_location
to_sec-to_ms_example =
    to_sec-to_ms millis absent week week_ms millis_laws (omega arith, omega arith) week_fits refl
