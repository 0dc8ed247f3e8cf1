-- ===== src/Dst/Season.antt =====
-- What the bounds mean for the clock: the season of daylight saving time, and the moment at which
-- it begins.
use picow_day_clock.Base.{
  ℕ, ◌+◌, ◌-◌, ◌*◌, ◌≤◌, ◌≡◌, inl, inr, refl, Bool-cases, true, false, arith,
}
use picow_day_clock.Base.Int.{ℤ, pos, negsuc, pos_part, neg_part, ◌+ℤ◌, scale, ◌≤ℤ◌, ◌<ℤ◌, int_laws}
use picow_day_clock.Calendar.{
  Tm, days_before_month, days_in_month, timegm, gmtime, nth_weekday, day_number, epoch_1900,
}
use picow_day_clock.Calendar.Weekday.{nth_weekday-pos, day_of_week-day_number}
use picow_day_clock.Calendar.Gmtime.{seconds}
use picow_day_clock.Dst.{
  Rule, none, na, eu, au, nz, cl, il, get_dst_bounds, time_is_dst, calculate_local_time,
}
use picow_day_clock.Dst.Bounds.{
  north, south, month_start, dst_start, dst_bounds_north, dst_bounds_south, months_in_order,
  time_is_dst-north, time_is_dst-south,
}

module _ (rule : Rule) (t : ℤ) (y : ℕ) where
  july_north :
      north rule ≡ true → month_start y 6 ≤ℤ t → t <ℤ month_start y 7 → time_is_dst t rule ≡ true
  july_north n l u =
      let m = months_in_order y in
      let b = dst_bounds_north rule y n in
      (time_is_dst-north rule t y n (omega arith) (omega arith)).1 (omega arith)

  july_south :
      south rule ≡ true → month_start y 6 ≤ℤ t → t <ℤ month_start y 7 → time_is_dst t rule ≡ false
  july_south n l u =
      let m = months_in_order y in
      let b = dst_bounds_south rule y n in
      (time_is_dst-south rule t y n (omega arith) (omega arith)).1 (omega arith)

  january_north :
      north rule ≡ true → month_start y 0 ≤ℤ t → t <ℤ month_start y 1 → time_is_dst t rule ≡ false
  january_north n l u =
      let m = months_in_order y in
      let b = dst_bounds_north rule y n in
      let d = time_is_dst-north rule t y n l (omega arith) in
      elim (Bool-cases (time_is_dst t rule)) [ inl e ↦ absurd (omega (arith, d.0 e)) | inr e ↦ e ]

  january_south :
      south rule ≡ true → month_start y 0 ≤ℤ t → t <ℤ month_start y 1 → time_is_dst t rule ≡ true
  january_south n l u =
      let m = months_in_order y in
      let b = dst_bounds_south rule y n in
      let d = time_is_dst-south rule t y n l (omega arith) in
      elim (Bool-cases (time_is_dst t rule)) [ inl e ↦ e | inr e ↦ absurd (omega (arith, d.0 e)) ]

-- Throughout July (UTC) of any year from 1900 on, daylight saving time is on under exactly the
-- northern rules.
pub time_is_dst_july :
    (rule : Rule) (t : ℤ) (y : ℕ)
    → month_start y 6 ≤ℤ t
    → t <ℤ month_start y 7
    → time_is_dst t rule ≡ north rule
unfolding time_is_dst
time_is_dst_july none t y l u = refl
time_is_dst_july na t y l u = july_north na t y refl l u
time_is_dst_july eu t y l u = july_north eu t y refl l u
time_is_dst_july au t y l u = july_south au t y refl l u
time_is_dst_july nz t y l u = july_south nz t y refl l u
time_is_dst_july cl t y l u = july_south cl t y refl l u
time_is_dst_july il t y l u = july_north il t y refl l u

-- Throughout January (UTC) of any year from 1900 on, daylight saving time is on under exactly the
-- southern rules.
pub time_is_dst_january :
    (rule : Rule) (t : ℤ) (y : ℕ)
    → month_start y 0 ≤ℤ t
    → t <ℤ month_start y 1
    → time_is_dst t rule ≡ south rule
unfolding time_is_dst
time_is_dst_january none t y l u = refl
time_is_dst_january na t y l u = january_north na t y refl l u
time_is_dst_january eu t y l u = january_north eu t y refl l u
time_is_dst_january au t y l u = january_south au t y refl l u
time_is_dst_january nz t y l u = january_south nz t y refl l u
time_is_dst_january cl t y l u = january_south cl t y refl l u
time_is_dst_january il t y l u = january_north il t y refl l u

-- The seconds since 1900 of the moment at which the North American rule begins.
na_start_parts :
    (y : ℕ)
    → let d = nth_weekday (pos 2) 0 3 (1900 + y) in
      pos_part (dst_start na (1900 + y)) + epoch_1900
      ≡ neg_part (dst_start na (1900 + y)) + day_number y 2 d * 86400 + 7200
unfolding timegm get_dst_bounds
na_start_parts y = let e : 1900 + y - 1900 ≡ y = omega arith in rw e (omega int_laws)

calculate_local_time_dst :
    (t tz : ℤ) (rule : Rule)
    → time_is_dst t rule ≡ true
    → calculate_local_time t tz rule ≡ t +ℤ scale 60 tz +ℤ pos 3600
unfolding calculate_local_time
calculate_local_time_dst t tz rule e = rw e

seconds_shift :
    (t : ℤ) (n : ℕ)
    → pos_part t + epoch_1900 ≡ neg_part t + n
    → 14400 ≤ n
    → seconds (t +ℤ scale 60 (negsuc 299) +ℤ pos 3600) ≡ n - 14400
unfolding ◌+ℤ◌ scale
seconds_shift t n e h = ground arith

na_start_dst : (y : ℕ) → time_is_dst (dst_start na (1900 + y)) na ≡ true
na_start_dst y =
    let m = months_in_order y in
    let b = dst_bounds_north na y refl in
    (time_is_dst-north na (dst_start na (1900 + y)) y refl (omega arith) (omega arith)).1
      (omega arith)

calculate_local_time_standard :
    (t tz : ℤ) (rule : Rule)
    → time_is_dst t rule ≡ false
    → calculate_local_time t tz rule ≡ t +ℤ scale 60 tz
unfolding calculate_local_time
calculate_local_time_standard t tz rule e = rw e

march_after_january : (y : ℕ) → month_start y 0 <ℤ month_start y 2
unfolding timegm day_number days_before_month days_in_month
march_after_january y = omega int_laws

-- The second before the moment at which the North American rule begins.
abbrev pub na_before : ℕ → ℤ
na_before y = dst_start na (1900 + y) +ℤ negsuc 0

na_before_standard : (y : ℕ) → time_is_dst (na_before y) na ≡ false
na_before_standard y =
    let m = months_in_order y in
    let j = march_after_january y in
    let b = dst_bounds_north na y refl in
    let t = na_before y in
    let d = time_is_dst-north na t y refl (omega (int_laws, m, j, b)) (omega (int_laws, m, j, b)) in
    elim (Bool-cases (time_is_dst t na)) [ inl e ↦ absurd (omega (int_laws, d.0 e)) | inr e ↦ e ]

seconds_utc : (t : ℤ) (n : ℕ) → pos_part t + epoch_1900 ≡ neg_part t + n → seconds t ≡ n
unfolding ◌+ℤ◌
seconds_utc t n e = ground arith

seconds_before :
    (t : ℤ) (n : ℕ)
    → pos_part t + epoch_1900 ≡ neg_part t + n
    → 18001 ≤ n
    → seconds (t +ℤ negsuc 0 +ℤ scale 60 (negsuc 299)) ≡ n - 18001
unfolding ◌+ℤ◌ scale
seconds_before t n e h = ground arith

abbrev pub ShowsAt : Tm → ℕ → ℕ → ℕ → ℕ → Type 0
ShowsAt t day hour min sec =
    (t.tm_wday ≡ day) × (t.tm_hour ≡ hour) × (t.tm_min ≡ min) × (t.tm_sec ≡ sec)

-- The North American rule begins daylight saving time at 02:00 UTC, whatever the time zone: in any
-- year from 1900 on it begins on a Sunday at 02:00:00 UTC, with any offset the local time of the second
-- before is without the hour and that of the moment itself with it, so that a clock five hours west of
-- UTC (`tz_offset_mins` is -300) goes from 20:59:59 to 22:00:00 on Saturday.
pub na_start_local :
    (y : ℕ)
    → let t = dst_start na (1900 + y) in
      ShowsAt (gmtime t) 0 2 0 0
      × ((tz : ℤ)
          → (calculate_local_time (na_before y) tz na ≡ na_before y +ℤ scale 60 tz)
            × (calculate_local_time t tz na ≡ t +ℤ scale 60 tz +ℤ pos 3600))
      × ShowsAt (gmtime (calculate_local_time (na_before y) (negsuc 299) na)) 6 20 59 59
      × ShowsAt (gmtime (calculate_local_time t (negsuc 299) na)) 6 22 0 0
unfolding gmtime
na_start_local y =
    let t = dst_start na (1900 + y) in
    let d = nth_weekday (pos 2) 0 3 (1900 + y) in
    let n = day_number y 2 d * 86400 + 7200 in
    let sunday = nth_weekday-pos 2 0 3 (1900 + y) (omega arith) (omega arith) in
    let counted =
      day_of_week-day_number y 3 d (omega arith) (omega arith) (omega (arith, sunday.1)) in
    let saturday : 6 ≤ day_number y 2 d = omega (arith, sunday.0) in
    let parts : pos_part t + epoch_1900 ≡ neg_part t + n = omega (arith, na_start_parts y) in
    let off = calculate_local_time_standard (na_before y) (negsuc 299) na (na_before_standard y) in
    let on = calculate_local_time_dst t (negsuc 299) na (na_start_dst y) in
    (
      rw (seconds_utc t n parts) (omega (arith, sunday.0, counted)),
      λ tz. (
        calculate_local_time_standard (na_before y) tz na (na_before_standard y),
        calculate_local_time_dst t tz na (na_start_dst y),
      ),
      rw off (rw (seconds_before t n parts (omega arith)) (omega (arith, sunday.0, counted))),
      rw on (rw (seconds_shift t n parts (omega arith)) (omega (arith, sunday.0, counted))),
    )
