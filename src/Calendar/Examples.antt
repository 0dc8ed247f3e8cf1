-- ===== src/Calendar/Examples.antt =====
-- The theorems on the calendar of src/clock.c at concrete dates.
use picow_day_clock.Base.{◌+◌, ◌-◌, ◌%◌, ◌≡◌, refl, arith}
use picow_day_clock.Base.Int.{negsuc}
use picow_day_clock.Calendar.{day_of_week, days_in_month, nth_weekday, day_number}
use picow_day_clock.Calendar.Weekday.{day_of_week-day_number}

-- 29 February 2024 was a Thursday.
leap_day : day_of_week 29 2 2024 ≡ 4
unfolding day_of_week
leap_day = refl

-- The last Sunday of October 2025 was the 26th.
last_sunday : nth_weekday (negsuc 0) 0 10 2025 ≡ 26
unfolding nth_weekday day_of_week days_in_month
last_sunday = refl

day_of_week-day_number_example : day_of_week 29 2 (1900 + 124) ≡ (day_number 124 (2 - 1) 29 + 1) % 7
day_of_week-day_number_example =
    day_of_week-day_number 124 2 29 (omega arith) (omega arith) (omega arith)
