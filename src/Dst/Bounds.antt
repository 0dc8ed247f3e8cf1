-- ===== src/Dst/Bounds.antt =====
-- The two changes of a year lie in the right order, and `time_is_dst` is decided by them.
use picow_day_clock.Base.{
  ℕ, ◌+◌, ◌-◌, ◌*◌, ◌/◌, ◌≤◌, ◌<◌, ◌≡◌, ◌≢◌, ◌↔◌, refl, ap, Bool, true, false, arith,
}
use native.Mathlib.Nat.{add_comm}
use picow_day_clock.Base.Int.{ℤ, pos, pos_part, neg_part, negsuc, ◌≤ℤ◌, ◌<ℤ◌, int_laws}
use picow_day_clock.Calendar.{
  timegm, gmtime, nth_weekday, day_number, days_before_year, days_before_month, days_in_month,
  days_in_year, epoch_1900,
}
use picow_day_clock.Calendar.Civil.{twelve_months}
use picow_day_clock.Calendar.Weekday.{days_in_month_range, nth_weekday-pos, nth_weekday-negsuc}
use picow_day_clock.Calendar.Gmtime.{seconds, seconds_parts, tm_year-gmtime}
use picow_day_clock.Dst.{
  Rule, none, na, eu, au, nz, cl, il, at, get_dst_bounds, in_window, time_is_dst,
}

-- The rules of the northern hemisphere, where daylight saving time lies inside the year.
abbrev pub north : Rule → Bool
north none = false
north na = true
north eu = true
north au = false
north nz = false
north cl = false
north il = true

abbrev pub south : Rule → Bool
south none = false
south na = false
south eu = false
south au = true
south nz = true
south cl = true
south il = false

-- The first second of a month, in UTC; month 12 begins the next year.
abbrev pub month_start : ℕ → ℕ → ℤ
month_start y mon = timegm (at (1900 + y) mon 1 0 0)

-- The start and end of daylight saving time in a year.
abbrev pub dst_start : Rule → ℕ → ℤ
dst_start rule year = (get_dst_bounds rule year).0

abbrev pub dst_end : Rule → ℕ → ℤ
dst_end rule year = (get_dst_bounds rule year).1

-- Days that `nth_weekday` can return for the weeks that the rules ask for.
first_week : (w m y : ℕ) → w < 7 → (1 ≤ nth_weekday (pos 1) w m y) × (nth_weekday (pos 1) w m y ≤ 7)
first_week w m y h = let r = nth_weekday-pos 1 w m y (omega arith) h in omega (arith, r.1, r.2)

second_week :
    (w m y : ℕ) → w < 7 → (8 ≤ nth_weekday (pos 2) w m y) × (nth_weekday (pos 2) w m y ≤ 14)
second_week w m y h = let r = nth_weekday-pos 2 w m y (omega arith) h in omega (arith, r.1, r.2)

last_week :
    (w m y : ℕ)
    → w < 7
    → 1 ≤ m
    → m ≤ 12
    → (22 ≤ nth_weekday (negsuc 0) w m y) × (nth_weekday (negsuc 0) w m y ≤ days_in_month m y)
last_week w m y h l u =
    let r = nth_weekday-negsuc 0 w m y h l u in omega (arith, r.2, r.3, days_in_month_range m y l u)

-- A northern rule puts its start between 1 March and 1 April, and its end between 1 October and
-- 1 December.
pub dst_bounds_north :
    (rule : Rule) (y : ℕ)
    → north rule ≡ true
    → (month_start y 2 ≤ℤ dst_start rule (1900 + y))
      × (dst_start rule (1900 + y) <ℤ month_start y 3)
      × (month_start y 9 ≤ℤ dst_end rule (1900 + y))
      × (dst_end rule (1900 + y) <ℤ month_start y 11)
unfolding get_dst_bounds timegm day_number days_before_month days_in_month
dst_bounds_north na y h = omega (int_laws, second_week 0 3 (1900 + y), first_week 0 11 (1900 + y))
dst_bounds_north eu y h = omega (
  int_laws,
  last_week 0 3 (1900 + y) (omega arith) (omega arith) (omega arith),
  last_week 0 10 (1900 + y) (omega arith) (omega arith) (omega arith),
)
dst_bounds_north il y h = omega (
  int_laws,
  last_week 0 3 (1900 + y) (omega arith) (omega arith) (omega arith),
  last_week 0 10 (1900 + y) (omega arith) (omega arith) (omega arith),
)
dst_bounds_north _ y h = cc

-- A southern rule puts its end in April, and its start in September or October.
pub dst_bounds_south :
    (rule : Rule) (y : ℕ)
    → south rule ≡ true
    → (month_start y 3 ≤ℤ dst_end rule (1900 + y))
      × (dst_end rule (1900 + y) <ℤ month_start y 4)
      × (month_start y 8 ≤ℤ dst_start rule (1900 + y))
      × (dst_start rule (1900 + y) <ℤ month_start y 10)
unfolding get_dst_bounds timegm day_number days_before_month days_in_month
dst_bounds_south au y h = omega (int_laws, first_week 0 4 (1900 + y), first_week 0 10 (1900 + y))
dst_bounds_south nz y h = omega (
  int_laws,
  first_week 0 4 (1900 + y),
  last_week 0 9 (1900 + y) (omega arith) (omega arith) (omega arith),
)
dst_bounds_south cl y h = omega (int_laws, first_week 6 4 (1900 + y), first_week 6 9 (1900 + y))
dst_bounds_south _ y h = cc

-- The first of a month, in seconds.
month_start_parts :
    (y mon : ℕ)
    → pos_part (month_start y mon) + epoch_1900
      ≡ neg_part (month_start y mon)
        + (days_before_year y + days_before_month (1900 + y) mon) * 86400
unfolding timegm day_number
month_start_parts y mon = let e : 1900 + y - 1900 ≡ y = omega arith in rw e (omega int_laws)

-- The months of a year begin in order.
pub months_in_order :
    (y : ℕ)
    → (month_start y 0 ≤ℤ month_start y 1)
      × (month_start y 1 ≤ℤ month_start y 2)
      × (month_start y 2 ≤ℤ month_start y 3)
      × (month_start y 3 ≤ℤ month_start y 4)
      × (month_start y 4 ≤ℤ month_start y 5)
      × (month_start y 5 ≤ℤ month_start y 6)
      × (month_start y 6 ≤ℤ month_start y 7)
      × (month_start y 7 ≤ℤ month_start y 8)
      × (month_start y 8 ≤ℤ month_start y 9)
      × (month_start y 9 ≤ℤ month_start y 10)
      × (month_start y 10 ≤ℤ month_start y 11)
      × (month_start y 11 ≤ℤ month_start y 12)
unfolding timegm day_number days_before_month days_in_month days_in_year
months_in_order y = omega int_laws

-- A time of the year has that year's fields.
pub tm_year_of_time :
    (t : ℤ) (y : ℕ) → month_start y 0 ≤ℤ t → t <ℤ month_start y 12 → (gmtime t).tm_year ≡ y
unfolding timegm day_number days_before_month days_in_month days_in_year
tm_year_of_time t y l u =
    let e = seconds_parts t (omega (arith, month_start_parts y 0)) in
    tm_year-gmtime t y (seconds t / 86400 - days_before_year y)
      (omega (arith, month_start_parts y 0))
      (omega (arith, month_start_parts y 0, month_start_parts y 12, twelve_months (1900 + y)))

-- Inside a year the test of `time_is_dst` is about that year's bounds.
time_is_dst-in_window :
    (rule : Rule) (t : ℤ) (y : ℕ)
    → rule ≢ none
    → month_start y 0 ≤ℤ t
    → t <ℤ month_start y 12
    → time_is_dst t rule ≡ in_window t (dst_start rule (1900 + y)) (dst_end rule (1900 + y))
unfolding time_is_dst
time_is_dst-in_window none t y n l u = absurd (n refl)
time_is_dst-in_window _ t y n l u = rw (tm_year_of_time t y l u, add_comm y 1900) refl

in_window_inside : (t a b : ℤ) → a <ℤ b → (in_window t a b ≡ true) ↔ ((a ≤ℤ t) × (t <ℤ b))
unfolding in_window
in_window_inside t a b h = ground arith

in_window_outside : (t a b : ℤ) → b <ℤ a → (in_window t a b ≡ false) ↔ ((b ≤ℤ t) × (t <ℤ a))
unfolding in_window
in_window_outside t a b h = ground arith

north-ne-none : (rule : Rule) → north rule ≡ true → rule ≢ none
north-ne-none rule h e = cc (ap north e)

south-ne-none : (rule : Rule) → south rule ≡ true → rule ≢ none
south-ne-none rule h e = cc (ap south e)

-- With a northern rule, a time of year 1900 + y has daylight saving time just when it lies from
-- the start on and before the end.
pub time_is_dst-north :
    (rule : Rule) (t : ℤ) (y : ℕ)
    → north rule ≡ true
    → month_start y 0 ≤ℤ t
    → t <ℤ month_start y 12
    → (time_is_dst t rule ≡ true)
      ↔ ((dst_start rule (1900 + y) ≤ℤ t) × (t <ℤ dst_end rule (1900 + y)))
time_is_dst-north rule t y n l u =
    rw (time_is_dst-in_window rule t y (north-ne-none rule n) l u)
      (in_window_inside t _ _ (omega (arith, dst_bounds_north rule y n, months_in_order y)))

-- With a southern rule, a time of year 1900 + y has no daylight saving time just when it lies from
-- the end on and before the start.
pub time_is_dst-south :
    (rule : Rule) (t : ℤ) (y : ℕ)
    → south rule ≡ true
    → month_start y 0 ≤ℤ t
    → t <ℤ month_start y 12
    → (time_is_dst t rule ≡ false)
      ↔ ((dst_end rule (1900 + y) ≤ℤ t) × (t <ℤ dst_start rule (1900 + y)))
time_is_dst-south rule t y n l u =
    rw (time_is_dst-in_window rule t y (south-ne-none rule n) l u)
      (in_window_outside t _ _ (omega (arith, dst_bounds_south rule y n, months_in_order y)))
