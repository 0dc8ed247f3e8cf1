-- ===== src/Calendar/Civil.antt =====
-- Facts about months and years: the closed form of the days before a year, and the months.
use picow_day_clock.Base.{ℕ, zero, suc, ◌+◌, ◌*◌, ◌/◌, ◌≤◌, ◌≡◌, refl, arith}
use picow_day_clock.Calendar.{
  is_leap, days_in_month, days_in_year, days_before_year, days_before_month,
}

-- To prove a fact of each month, prove it of the twelve.
pub by_month {ℓ} :
    (P : ℕ → Type ℓ)
    → P 1 × P 2 × P 3 × P 4 × P 5 × P 6 × P 7 × P 8 × P 9 × P 10 × P 11 × P 12
    → (m : ℕ) → 1 ≤ m
    → m ≤ 12
    → P m
by_month P h zero l u = absurd (omega arith)
by_month P h (suc zero) l u = h.0
by_month P h (suc (suc zero)) l u = h.1
by_month P h (suc (suc (suc zero))) l u = h.2
by_month P h (suc (suc (suc (suc zero)))) l u = h.3
by_month P h (suc (suc (suc (suc (suc zero))))) l u = h.4
by_month P h (suc (suc (suc (suc (suc (suc zero)))))) l u = h.5
by_month P h (suc (suc (suc (suc (suc (suc (suc zero))))))) l u = h.6
by_month P h (suc (suc (suc (suc (suc (suc (suc (suc zero)))))))) l u = h.7
by_month P h (suc (suc (suc (suc (suc (suc (suc (suc (suc zero))))))))) l u = h.8
by_month P h (suc (suc (suc (suc (suc (suc (suc (suc (suc (suc zero)))))))))) l u = h.9
by_month P h (suc (suc (suc (suc (suc (suc (suc (suc (suc (suc (suc zero))))))))))) l u = h.10
by_month P h (suc (suc (suc (suc (suc (suc (suc (suc (suc (suc (suc (suc zero)))))))))))) l u = h.11
by_month P h (suc (suc (suc (suc (suc (suc (suc (suc (suc (suc (suc (suc (suc m))))))))))))) l u =
    absurd (omega arith)

-- The closed formula for the days before a year, from the leap rule.
pub days_before_year_closed :
    (y : ℕ)
    → days_before_year y + 461 + (y + 1899) / 100 ≡ y * 365 + (y + 1899) / 4 + (y + 1899) / 400 + 1
unfolding days_before_year days_in_year is_leap
days_before_year_closed zero = refl
days_before_year_closed (suc y) = ground (arith, days_before_year_closed y)

pub days_before_year_mono : (y z : ℕ) → y ≤ z → days_before_year y ≤ days_before_year z
days_before_year_mono y z h = omega (arith, days_before_year_closed y, days_before_year_closed z)

-- The twelve months make up the year.
pub twelve_months : (y : ℕ) → days_before_month y 12 ≡ days_in_year y
unfolding days_before_month days_in_month days_in_year
twelve_months y = ground arith
