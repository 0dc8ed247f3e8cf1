-- ===== src/Lcd/Backlight.antt =====
-- The backlight: `backlight_timer_callback` of src/clock.c, which runs five times a second. The
-- perception correction, `(uint8_t)(sqrtf(n / d) * 100.0f)`, is an argument.
pub mod Settle
use picow_day_clock.Base.{
  ℕ, zero, suc, ◌+◌, ◌-◌, ◌*◌, ◌/◌, ◌%◌, ◌^◌, ◌≤◌, ◌<◌, ◌≡◌, refl, ◌∙◌, List, [], ◌∷◌, Bool, arith,
  leb, ltb, ◌==◌, min, if◌then◌else◌, false, Bool-cases, inl, inr,
}
use Prim.Native.Nat.{max}
use picow_day_clock.Lcd.{LcdState, Effect, pwm_set_chan_level, lcd_set_backlight}

abbrev pub ambient_light_dark : ℕ
ambient_light_dark = 0x40

abbrev pub ambient_light_bright : ℕ
ambient_light_bright = 0x180

-- The blend of a reading with the old value, in 32 bits.
unfoldable pub smooth : ℕ → ℕ → ℕ
smooth smoothed_adc raw_adc =
    if smoothed_adc == 0 then raw_adc else (smoothed_adc * 7 + raw_adc) % 2 ^ 32 / 8

unfoldable pub backlight_percent : (ℕ → ℕ → ℕ) → ℕ → ℕ
backlight_percent corrected smoothed_adc =
    if leb smoothed_adc ambient_light_dark
    then 5
    else if leb ambient_light_bright smoothed_adc
    then 100
    else corrected (smoothed_adc - ambient_light_dark) (ambient_light_bright - ambient_light_dark)

unfoldable pub backlight_timer_callback : (ℕ → ℕ → ℕ) → LcdState → ℕ → LcdState × List Effect
backlight_timer_callback corrected state raw_adc =
    let smoothed = smooth state.smoothed_adc raw_adc in
    (
      record state { smoothed_adc = smoothed },
      lcd_set_backlight (backlight_percent corrected smoothed),
    )

-- The square root in hundredths, cut to a whole number.
pub record IsRoot (corrected : ℕ → ℕ → ℕ) : Type 0 where
  pub below : (n d : ℕ) → 0 < n → n < d → corrected n d * corrected n d * d ≤ 10000 * n
  pub above : (n d : ℕ) → 0 < n → n < d → 10000 * n < suc (corrected n d) * suc (corrected n d) * d

root_bound : (j n : ℕ) → n < 320 → (101 + j) * (101 + j) * 320 ≤ 10000 * n → ⊥
root_bound j n h k = omega (arith, h, k)

root_small : (c n : ℕ) → 0 < n → 10000 * n < suc c * suc c * 320 → 5 ≤ c
root_small zero n h k = absurd (omega (arith, h, k))
root_small (suc zero) n h k = absurd (omega (arith, h, k))
root_small (suc (suc zero)) n h k = absurd (omega (arith, h, k))
root_small (suc (suc (suc zero))) n h k = absurd (omega (arith, h, k))
root_small (suc (suc (suc (suc zero)))) n h k = absurd (omega (arith, h, k))
root_small (suc (suc (suc (suc (suc c))))) n h k = omega arith

root_large : (c n : ℕ) → n < 320 → c * c * 320 ≤ 10000 * n → c ≤ 100
root_large c n h k = elim (Bool-cases (leb c 100)) [
  | inl e ↦ ground (arith, e)
  | inr e ↦
      let over : 101 + (c - 101) ≡ c = ground (arith, e) in
      absurd (root_bound (c - 101) n h (rw over k))
]

-- The level is in range, and 100 or less needs no cut.
backlight_percent_range :
    (corrected : ℕ → ℕ → ℕ) (s : ℕ)
    → IsRoot corrected
    → (5 ≤ backlight_percent corrected s) × (backlight_percent corrected s ≤ 100)
unfolding backlight_percent
backlight_percent_range corrected s root = elim (Bool-cases (leb s 0x40)) [
  | inl e ↦ rw e (omega arith, omega arith)
  | inr e ↦ elim (Bool-cases (leb 0x180 s)) [
    | inl f ↦ rw (e, f) (omega arith, omega arith)
    | inr f ↦
        let positive : 0 < s - 0x40 = ground (arith, e) in
        let less : s - 0x40 < 320 = ground (arith, f) in
        rw (e, f)
          (
            root_small (corrected (s - 0x40) 320) (s - 0x40) positive
                (root.above (s - 0x40) 320 positive less),
            root_large (corrected (s - 0x40) 320) (s - 0x40) less
                (root.below (s - 0x40) 320 positive less),
          )
  ]
]

lcd_set_backlight_lem :
    (level : ℕ) → level ≤ 100 → lcd_set_backlight level ≡ pwm_set_chan_level level ∷ []
unfolding lcd_set_backlight
lcd_set_backlight_lem level h = let fits : ltb 100 level ≡ false = ground (arith, h) in rw fits refl

pub smooth_range :
    (s r : ℕ) → s < 2 ^ 12 → r < 2 ^ 12 → (smooth s r ≤ max s r) × (min s r ≤ smooth s r)
unfolding smooth
smooth_range s r old new = ground (arith, old, new)

-- A callback sets a level from 5 to 100, and the smoothed value lies between the old one and the
-- reading, or is the reading if there was none; the correction being the square root, and the values
-- those of the 12-bit converter.
backlight_timer_callback_range :
    (corrected : ℕ → ℕ → ℕ) (state : LcdState) (raw_adc : ℕ)
    → IsRoot corrected
    → state.smoothed_adc < 2 ^ 12
    → raw_adc < 2 ^ 12
    → let r = backlight_timer_callback corrected state raw_adc in
      let level = backlight_percent corrected r.0.smoothed_adc in
      (r.1 ≡ pwm_set_chan_level level ∷ [])
      × (5 ≤ level)
      × (level ≤ 100)
      × (r.0.smoothed_adc < 2 ^ 12)
      × (r.0.smoothed_adc ≤ max state.smoothed_adc raw_adc)
      × (min state.smoothed_adc raw_adc ≤ r.0.smoothed_adc)
unfolding backlight_timer_callback
backlight_timer_callback_range corrected state raw_adc root old new =
    let s = smooth state.smoothed_adc raw_adc in
    let level = backlight_percent_range corrected s root in
    let range = smooth_range state.smoothed_adc raw_adc old new in
    (
      lcd_set_backlight_lem (backlight_percent corrected s) level.1,
      level.0,
      level.1,
      omega (arith, range.0, old, new),
      range.0,
      range.1,
    )
