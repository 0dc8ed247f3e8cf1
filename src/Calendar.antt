-- ===== src/Calendar.antt =====
-- Weekday arithmetic of src/clock.c (`day_of_week`, `nth_weekday`), and the C library's `timegm`
-- and `gmtime_r` as the firmware uses them. Years, months and days are natural numbers: every call
-- passes a year from 1900 on. `struct tm` values passed to `timegm` have their fields in range.
pub mod Civil
pub mod Weekday
pub mod Gmtime
mod Examples
use picow_day_clock.Base.{
  ℕ, zero, suc, ◌+◌, ◌-◌, ◌*◌, ◌/◌, ◌%◌, Bool, not, ◌&&◌, ◌||◌, List, [], ◌∷◌, ltb, ◌==◌, get_or,
  if◌then◌else◌,
}
use picow_day_clock.Base.Int.{ℤ, pos, pos_part, ◌+ℤ◌, ◌-ℤ◌, ltb_ℤ}

-- 0 is Sunday. `h` is Zeller's congruence.
unfoldable pub day_of_week : ℕ → ℕ → ℕ → ℕ
day_of_week day month year =
    let m = if ltb month 3 then month + 12 else month in
    let y = if ltb month 3 then year - 1 else year in
    let k = y % 100 in
    let j = y / 100 in
    let h = (day + 13 * (m + 1) / 5 + k + k / 4 + j / 4 + 5 * j) % 7 in (h + 6) % 7

unfoldable pub is_leap : ℕ → Bool
is_leap year = year % 4 == 0 && (not (year % 100 == 0) || year % 400 == 0)

abbrev month_table : List ℕ
month_table = 0 ∷ 31 ∷ 28 ∷ 31 ∷ 30 ∷ 31 ∷ 30 ∷ 31 ∷ 31 ∷ 30 ∷ 31 ∷ 30 ∷ 31 ∷ []

-- The array `days_in_month` once February is set for the year.
unfoldable pub days_in_month : ℕ → ℕ → ℕ
days_in_month month year =
    if month == 2 then (if is_leap year then 29 else 28) else get_or month_table month 0

-- `target_wday - dow_first + 7` is not negative, both weekdays being below 7.
unfoldable pub nth_weekday : ℤ → ℕ → ℕ → ℕ → ℕ
nth_weekday n target_wday month year =
    let dow_first = day_of_week 1 month year in
    let first_occurrence = 1 + (target_wday + 7 - dow_first) % 7 in
    if ltb_ℤ (pos 0) n
    then first_occurrence + (pos_part n - 1) * 7
    else (let last = first_occurrence + 28 in
        if ltb (days_in_month month year) last then last - 7 else last)

-- The fields of `struct tm` that the firmware reads or writes.
pub record Tm : Type 0 where
  pub tm_sec : ℕ
  pub tm_min : ℕ
  pub tm_hour : ℕ
  pub tm_mday : ℕ
  pub tm_mon : ℕ
  pub tm_year : ℕ
  pub tm_wday : ℕ

unfoldable pub days_in_year : ℕ → ℕ
days_in_year year = if is_leap year then 366 else 365

-- Days from 1 January 1900 to 1 January of a year that many years later.
unfoldable pub days_before_year : ℕ → ℕ
days_before_year zero = 0
days_before_year (suc y) = days_before_year y + days_in_year (1900 + y)

-- Days of the year before the first of the month, counted from 0.
unfoldable pub days_before_month : ℕ → ℕ → ℕ
days_before_month year zero = 0
days_before_month year (suc mon) = days_before_month year mon + days_in_month (suc mon) year

-- Seconds from 1 January 1900 to 1 January 1970.
abbrev pub epoch_1900 : ℕ
epoch_1900 = 2208988800

-- Days from 1 January 1900 to a date.
unfoldable pub day_number : ℕ → ℕ → ℕ → ℕ
day_number tm_year tm_mon tm_mday =
    days_before_year tm_year + days_before_month (1900 + tm_year) tm_mon + tm_mday - 1

unfoldable pub timegm : Tm → ℤ
timegm t =
    pos (
      day_number t.tm_year t.tm_mon t.tm_mday * 86400 + t.tm_hour * 3600 + t.tm_min * 60 + t.tm_sec)
    -ℤ pos epoch_1900

-- The year of the day `n` days after the first of year `y`, and the days left in it.
unfoldable pub find_year : ℕ → ℕ → ℕ → ℕ × ℕ
find_year zero y n = (y, n)
find_year (suc fuel) y n =
    let later = find_year fuel (y + 1) (n - days_in_year (1900 + y)) in
    if ltb n (days_in_year (1900 + y)) then (y, n) else later

-- The month of the day `n` days after the first of month `m`, and the days left in it.
unfoldable pub find_month : ℕ → ℕ → ℕ → ℕ → ℕ × ℕ
find_month zero year m n = (m, n)
find_month (suc fuel) year m n =
    let later = find_month fuel year (m + 1) (n - days_in_month (m + 1) year) in
    if ltb n (days_in_month (m + 1) year) then (m, n) else later

abbrev of_seconds : ℕ → Tm
of_seconds n =
    let (y, yday) = find_year (n / 86400 / 365 + 1) 0 (n / 86400) in
    let (m, mday) = find_month 11 (1900 + y) 0 yday in
    record {
      tm_sec = n % 60;
      tm_min = n / 60 % 60;
      tm_hour = n / 3600 % 24;
      tm_mday = mday + 1;
      tm_mon = m;
      tm_year = y;
      tm_wday = (n / 86400 + 1) % 7;
    }

-- `gmtime_r`, at times from 1900 on.
unfoldable pub gmtime : ℤ → Tm
gmtime t = of_seconds (pos_part (t +ℤ pos epoch_1900))
