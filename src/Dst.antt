-- ===== src/Dst.antt =====
-- Daylight saving time of src/clock.c: `get_dst_bounds`, `time_is_dst`, `calculate_local_time` and
-- `time_as_string`.
pub mod Bounds
pub mod Season
mod Examples
use picow_day_clock.Base.{
  ℕ, zero, suc, ◌+◌, ◌-◌, ◌*◌, ◌/◌, ◌%◌, Bool, true, false, ◌&&◌, ◌||◌, List, [], ◌∷◌, ◌++◌, codes,
  if◌then◌else◌,
}
use picow_day_clock.Base.Int.{ℤ, pos, negsuc, ◌+ℤ◌, scale, ltb_ℤ, leb_ℤ}
use picow_day_clock.Calendar.{Tm, nth_weekday, timegm, gmtime}

-- `dst_rule_t`, in the order of its values.
pub data Rule : Type 0 where
  none na eu au nz cl il : Rule

-- A `struct tm` that was set to zeros, with the fields that `get_dst_bounds` assigns.
abbrev at : ℕ → ℕ → ℕ → ℕ → ℕ → Tm
at year mon mday hour minute = record {
  tm_sec = 0;
  tm_min = minute;
  tm_hour = hour;
  tm_mday = mday;
  tm_mon = mon;
  tm_year = year - 1900;
  tm_wday = 0;
}

-- What is stored through `start` and `end`, after the two calls of `tm_to_epoch`.
unfoldable pub get_dst_bounds : Rule → ℕ → ℤ × ℤ
get_dst_bounds na year = (
  timegm (at year 2 (nth_weekday (pos 2) 0 3 year) 2 0),
  timegm (at year 10 (nth_weekday (pos 1) 0 11 year) 2 0),
)
get_dst_bounds eu year = (
  timegm (at year 2 (nth_weekday (negsuc 0) 0 3 year) 1 0),
  timegm (at year 9 (nth_weekday (negsuc 0) 0 10 year) 1 0),
)
get_dst_bounds au year = (
  timegm (at year 9 (nth_weekday (pos 1) 0 10 year) 2 0),
  timegm (at year 3 (nth_weekday (pos 1) 0 4 year) 3 0),
)
get_dst_bounds nz year = (
  timegm (at year 8 (nth_weekday (negsuc 0) 0 9 year) 2 0),
  timegm (at year 3 (nth_weekday (pos 1) 0 4 year) 3 0),
)
get_dst_bounds cl year = (
  timegm (at year 8 (nth_weekday (pos 1) 6 9 year) 23 59),
  timegm (at year 3 (nth_weekday (pos 1) 6 4 year) 23 59),
)
get_dst_bounds il year = (
  timegm (at year 2 (nth_weekday (negsuc 0) 0 3 year - 2) 2 0),
  timegm (at year 9 (nth_weekday (negsuc 0) 0 10 year) 2 0),
)
get_dst_bounds none year = (pos 0, pos 0)

-- The test at the end of `time_is_dst`.
unfoldable pub in_window : ℤ → ℤ → ℤ → Bool
in_window utc_now start_time end_time =
    if ltb_ℤ start_time end_time
    then leb_ℤ start_time utc_now && ltb_ℤ utc_now end_time
    else leb_ℤ start_time utc_now || ltb_ℤ utc_now end_time

-- The rule is the field of `state->flash_config`.
unfoldable pub time_is_dst : ℤ → Rule → Bool
time_is_dst utc_now none = false
time_is_dst utc_now rule =
    let (start_time, end_time) = get_dst_bounds rule ((gmtime utc_now).tm_year + 1900) in
    in_window utc_now start_time end_time

-- The offset is `tz_offset_mins` of the configuration.
unfoldable pub calculate_local_time : ℤ → ℤ → Rule → ℤ
calculate_local_time utc_now tz_offset_mins rule =
    let local_time = utc_now +ℤ scale 60 tz_offset_mins in
    if time_is_dst utc_now rule then local_time +ℤ pos 3600 else local_time

-- `%02d` of a number below 100.
abbrev pub two_digits : ℕ → List ℕ
two_digits n = (b'0' + n / 10) ∷ (b'0' + n % 10) ∷ []

unfoldable pub time_as_string : ℤ → ℤ → Rule → List ℕ
time_as_string t tz_offset_mins rule =
    let tm_local = gmtime (calculate_local_time t tz_offset_mins rule) in
    let suffix = if time_is_dst t rule then codes " (DST)" else [] in
    two_digits tm_local.tm_hour
    ++ (b':' ∷ (two_digits tm_local.tm_min ++ (b':' ∷ (two_digits tm_local.tm_sec ++ suffix))))
