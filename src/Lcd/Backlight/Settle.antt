-- ===== src/Lcd/Backlight/Settle.antt =====
-- The backlight of src/clock.c's `backlight_timer_callback` in steady light.
use picow_day_clock.Base.{ℕ, zero, suc}
use picow_day_clock.Lcd.{LcdState}
use picow_day_clock.Lcd.Backlight.{backlight_timer_callback}

-- The state after callbacks that all have the same reading.
pub run_backlight : (ℕ → ℕ → ℕ) → ℕ → ℕ → LcdState → LcdState
run_backlight corrected zero raw_adc state = state
run_backlight corrected (suc n) raw_adc state =
    run_backlight corrected n raw_adc (backlight_timer_callback corrected state raw_adc).0
