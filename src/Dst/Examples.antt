-- ===== src/Dst/Examples.antt =====
-- The theorems on daylight saving time of src/clock.c at concrete times.
use picow_day_clock.Base.{◌+◌, ◌≡◌, ◌↔◌, true, false, refl, arith}
use picow_day_clock.Base.Int.{ℤ, pos, negsuc, ◌+ℤ◌, scale, ◌-ℤ◌, ◌≤ℤ◌, ◌<ℤ◌}
use picow_day_clock.Calendar.{
  gmtime, days_in_month, timegm, day_number, days_before_year, days_before_month, days_in_year,
  is_leap,
}
use picow_day_clock.Dst.{na, eu, au, time_is_dst, calculate_local_time}
use picow_day_clock.Dst.Bounds.{
  dst_start, dst_end, month_start, time_is_dst-north, time_is_dst-south,
}
use picow_day_clock.Dst.Season.{ShowsAt, na_before, na_start_local}

-- 15 July 2025, 00:00 UTC.
abbrev july : ℤ
july = pos 1752537600

-- 15 January 2025, 00:00 UTC.
abbrev january : ℤ
january = pos 1736899200

in_2025 :
    (month_start 125 0 ≤ℤ january)
    × (month_start 125 0 ≤ℤ july)
    × (january <ℤ month_start 125 12)
    × (july <ℤ month_start 125 12)
unfolding timegm day_number days_before_year days_before_month days_in_year days_in_month is_leap
    ◌-ℤ◌
in_2025 = (omega arith, omega arith, omega arith, omega arith)

time_is_dst-north_example :
    (time_is_dst july eu ≡ true)
    ↔ ((dst_start eu (1900 + 125) ≤ℤ july) × (july <ℤ dst_end eu (1900 + 125)))
time_is_dst-north_example = time_is_dst-north eu july 125 refl in_2025.1 in_2025.3

time_is_dst-south_example :
    (time_is_dst january au ≡ false)
    ↔ ((dst_end au (1900 + 125) ≤ℤ january) × (january <ℤ dst_start au (1900 + 125)))
time_is_dst-south_example = time_is_dst-south au january 125 refl in_2025.0 in_2025.2

na_start_local_example :
    let t = dst_start na (1900 + 125) in
    ShowsAt (gmtime t) 0 2 0 0
    × ((tz : ℤ)
        → (calculate_local_time (na_before 125) tz na ≡ na_before 125 +ℤ scale 60 tz)
          × (calculate_local_time t tz na ≡ t +ℤ scale 60 tz +ℤ pos 3600))
    × ShowsAt (gmtime (calculate_local_time (na_before 125) (negsuc 299) na)) 6 20 59 59
    × ShowsAt (gmtime (calculate_local_time t (negsuc 299) na)) 6 22 0 0
na_start_local_example = na_start_local 125
