-- ===== src/Calendar/Weekday.antt =====
-- `day_of_week` and `nth_weekday` of src/clock.c, against counting days.
use picow_day_clock.Base.{ℕ, ◌+◌, ◌-◌, ◌*◌, ◌%◌, ◌≤◌, ◌<◌, ◌≡◌, arith}
use picow_day_clock.Base.Int.{pos, negsuc}
use picow_day_clock.Calendar.{
  is_leap, days_in_month, days_before_month, day_number, day_of_week, nth_weekday,
}
use picow_day_clock.Calendar.Civil.{by_month, days_before_year_closed}

-- For every date from 1 January 1900 on, Zeller's congruence in `day_of_week` gives the weekday
-- that counting days gives, 1 January 1900 being a Monday (0 is Sunday).
pub day_of_week-day_number :
    (y m d : ℕ)
    → 1 ≤ m
    → m ≤ 12
    → 1 ≤ d
    → day_of_week d m (1900 + y) ≡ (day_number y (m - 1) d + 1) % 7
unfolding day_of_week day_number days_before_month days_in_month is_leap
day_of_week-day_number y m d l u h =
    by_month (λ m. day_of_week d m (1900 + y) ≡ (day_number y (m - 1) d + 1) % 7)
      (ground (arith, days_before_year_closed y)) m l u

pub day_of_week-lt : (d m y : ℕ) → day_of_week d m y < 7
unfolding day_of_week
day_of_week-lt d m y = omega arith

pub day_of_week-add : (d k m y : ℕ) → day_of_week (d + k) m y ≡ (day_of_week d m y + k) % 7
unfolding day_of_week
day_of_week-add d k m y = ground arith

pub days_in_month_range :
    (m y : ℕ) → 1 ≤ m → m ≤ 12 → (28 ≤ days_in_month m y) × (days_in_month m y ≤ 31)
unfolding days_in_month
days_in_month_range m y l u =
    by_month (λ m. (28 ≤ days_in_month m y) × (days_in_month m y ≤ 31)) (ground arith) m l u

-- For a positive n, `nth_weekday` returns a day of the wanted weekday which lies in the n-th week
-- of seven days of its month, in any month and year.
pub nth_weekday-pos :
    (n w m y : ℕ)
    → 1 ≤ n
    → w < 7
    → (day_of_week (nth_weekday (pos n) w m y) m y ≡ w)
      × (n * 7 ≤ nth_weekday (pos n) w m y + 6)
      × (nth_weekday (pos n) w m y ≤ n * 7)
unfolding nth_weekday
nth_weekday-pos n w m y h k =
    let first = (w + 7 - day_of_week 1 m y) % 7 in
    ground (arith, day_of_week-lt 1 m y, day_of_week-add 1 (first + (n - 1) * 7) m y)

-- For a negative n, `nth_weekday` returns the last day of the wanted weekday in its month.
pub nth_weekday-negsuc :
    (n w m y : ℕ)
    → w < 7
    → 1 ≤ m
    → m ≤ 12
    → (day_of_week (nth_weekday (negsuc n) w m y) m y ≡ w)
      × (1 ≤ nth_weekday (negsuc n) w m y)
      × (nth_weekday (negsuc n) w m y ≤ days_in_month m y)
      × (days_in_month m y < nth_weekday (negsuc n) w m y + 7)
unfolding nth_weekday
nth_weekday-negsuc n w m y k l u =
    let first = (w + 7 - day_of_week 1 m y) % 7 in
    ground (
      arith,
      day_of_week-lt 1 m y,
      day_of_week-add 1 (first + 28) m y,
      day_of_week-add 1 (first + 21) m y,
      days_in_month_range m y l u,
    )
