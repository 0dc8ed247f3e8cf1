-- ===== src/Calendar/Gmtime.antt =====
-- The C library's `gmtime_r` and `timegm` as modelled in `Calendar`: the year found is the year of
-- the day, and the two functions undo each other.
use picow_day_clock.Base.{ℕ, zero, suc, ◌+◌, ◌-◌, ◌*◌, ◌/◌, ◌≤◌, ◌<◌, ◌≡◌, refl, arith}
use picow_day_clock.Base.Int.{ℤ, pos, negsuc, pos_part, neg_part, ◌+ℤ◌, ◌-ℤ◌, ◌≤ℤ◌}
use picow_day_clock.Calendar.{
  days_in_year, days_before_year, days_before_month, day_number, days_in_month, find_year,
  find_month, gmtime, timegm, of_seconds, epoch_1900,
}
use picow_day_clock.Calendar.Civil.{days_before_year_mono}

pub days_in_year_range : (y : ℕ) → (365 ≤ days_in_year y) × (days_in_year y ≤ 366)
unfolding days_in_year
days_in_year_range y = ground arith

pub days_before_year-suc :
    (y : ℕ) → days_before_year (y + 1) ≡ days_before_year y + days_in_year (1900 + y)
unfolding days_before_year
days_before_year-suc y = ground arith

-- With enough fuel the search for the year ends in the year that holds the day.
pub find_year_lem :
    (fuel y n : ℕ)
    → n < 365 * fuel
    → (days_before_year (find_year fuel y n).0 + (find_year fuel y n).1 ≡ days_before_year y + n)
      × ((find_year fuel y n).1 < days_in_year (1900 + (find_year fuel y n).0))
unfolding find_year
find_year_lem zero y n h = absurd (omega arith)
find_year_lem (suc fuel) y n h = ground (
  arith,
  days_before_year-suc y,
  days_in_year_range (1900 + y),
  find_year_lem fuel (y + 1) (n - days_in_year (1900 + y)),
)

pub days_before_month-suc :
    (y m : ℕ) → days_before_month y (m + 1) ≡ days_before_month y m + days_in_month (m + 1) y
unfolding days_before_month
days_before_month-suc y m = ground arith

pub find_month_lem :
    (fuel year m n : ℕ)
    → days_before_month year (find_month fuel year m n).0 + (find_month fuel year m n).1
      ≡ days_before_month year m + n
unfolding find_month
find_month_lem zero year m n = refl
find_month_lem (suc fuel) year m n = ground (
  arith,
  days_before_month-suc year m,
  find_month_lem fuel year (m + 1) (n - days_in_month (m + 1) year),
)

-- Two days of different years are in the order of the years.
pub year_unique :
    (y z : ℕ) (a b : ℕ)
    → days_before_year y + a ≡ days_before_year z + b
    → a < days_in_year (1900 + y)
    → b < days_in_year (1900 + z)
    → y ≡ z
year_unique y z a b e ha hb = ground (
  arith,
  days_before_year-suc y,
  days_before_year-suc z,
  days_before_year_mono (y + 1) z,
  days_before_year_mono (z + 1) y,
)

-- The seconds of a time since 1 January 1900.
abbrev pub seconds : ℤ → ℕ
seconds t = pos_part (t +ℤ pos epoch_1900)

-- `gmtime` returns the year whose days hold the time.
pub tm_year-gmtime :
    (t : ℤ) (y r : ℕ)
    → seconds t / 86400 ≡ days_before_year y + r
    → r < days_in_year (1900 + y)
    → (gmtime t).tm_year ≡ y
unfolding gmtime
tm_year-gmtime t y r e h =
    let n = seconds t / 86400 in
    let f = find_year_lem (n / 365 + 1) 0 n (omega arith) in
    year_unique (find_year (n / 365 + 1) 0 n).0 y (find_year (n / 365 + 1) 0 n).1 r
      (unfold days_before_year in omega arith) f.1 h

-- The fields that `gmtime` computes count the days and seconds that it was given.
of_seconds_lem :
    (n : ℕ)
    → let t = of_seconds n in
      day_number t.tm_year t.tm_mon t.tm_mday * 86400 + t.tm_hour * 3600 + t.tm_min * 60 + t.tm_sec
      ≡ n
unfolding day_number days_before_year days_before_month
of_seconds_lem n =
    let d = n / 86400 in
    let (y, yday) = find_year (d / 365 + 1) 0 d in
    omega (
      arith,
      (find_year_lem (d / 365 + 1) 0 d (omega arith)).0,
      find_month_lem 11 (1900 + y) 0 yday,
    )

pub seconds_parts :
    (t : ℤ) → negsuc (epoch_1900 - 1) ≤ℤ t → seconds t + neg_part t ≡ pos_part t + epoch_1900
unfolding ◌+ℤ◌
seconds_parts t h = ground arith

seconds_lem : (t : ℤ) → negsuc (epoch_1900 - 1) ≤ℤ t → pos (seconds t) -ℤ pos epoch_1900 ≡ t
unfolding ◌+ℤ◌ ◌-ℤ◌
seconds_lem t h = ground arith

-- `timegm` undoes `gmtime`, from 1900 on.
pub timegm-gmtime : (t : ℤ) → negsuc (epoch_1900 - 1) ≤ℤ t → timegm (gmtime t) ≡ t
unfolding gmtime timegm
timegm-gmtime t h = rw (of_seconds_lem (seconds t)) (seconds_lem t h)
