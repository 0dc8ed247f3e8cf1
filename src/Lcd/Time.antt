-- ===== src/Lcd/Time.antt =====
-- From the time to the pixels: what the seven displays show after src/clock.c's `clock_task` has
-- drawn through src/lcd.c.
use picow_day_clock.Base.{
  ℕ, ◌*◌, ◌≤◌, ◌<◌, ◌≡◌, refl, ap, ◌∙◌, false, List, arith, length, get_or, Bool-cases, inl, inr,
}
use picow_day_clock.Base.Int.{ℤ}
use picow_day_clock.Calendar.{gmtime}
use picow_day_clock.Dst.{calculate_local_time}
use picow_day_clock.Ntp.{NtpError}
use picow_day_clock.Config.{WifiError}
use picow_day_clock.Clock.{ClockState, lcd_digits, digits_differ, update_display}
use picow_day_clock.Clock.Display.{show_all-update_display, length-lcd_digits, digits_differ-false}
use picow_day_clock.Lcd.{Driver, lcd_width}
use picow_day_clock.Lcd.Image.{Font}
use picow_day_clock.Lcd.Panel.{Panel, pixel}
use picow_day_clock.Lcd.Frame.{
  Bitmaps, draw_effects, FontFits, Pictures, repaint_all, AllDrawable, Shows, watch_all,
}
use picow_day_clock.Lcd.Simulate.{draw_effects-Follows}
use picow_day_clock.Lcd.Digits.{clock_face, draw_digits_at}
use picow_day_clock.Lcd.Printable.{draw_digits-Drawable, gmtime-Printable}

-- What the displays show of seven characters: every pixel, but for those of display 0 in the rows of
-- the icons.
pub record ShowsText (font : Font) (panels : ℕ → Panel) (text : List ℕ) : Type 0 where
  pub idle : (m : ℕ) → m < 7 → (panels m).selected ≡ false
  pub at :
      (m c r : ℕ)
      → m < 7
      → c < 172
      → r < 320
      → (m ≡ 0 → 36 ≤ r)
      → pixel (panels m) c r ≡ clock_face font m (get_or text m 0) c r

update_display-Drawable :
    (s : ClockState) (ntp : NtpError) (utc_now : ℤ) → AllDrawable (update_display s ntp utc_now).1
unfolding update_display
update_display-Drawable s ntp utc_now =
    let config = s.flash_config in
    let local = calculate_local_time utc_now config.tz_offset_mins config.dst_rule in
    let size = length-lcd_digits (gmtime local) in
    elim (Bool-cases
      (digits_differ s.first_clock_tick s.current_lcd_digits (lcd_digits (gmtime local)))) [
        | inl e ↦ rw e (
            draw_digits-Drawable s.first_clock_tick _ ntp WifiError.ok 0 s.current_lcd_digits
              (lcd_digits (gmtime local)) (omega (arith, size)) (gmtime-Printable local))
        | inr e ↦ rw e tt
      ]

-- The pictures that the drawing amounts to.
update_display-pictures :
    (b : Bitmaps) (s : ClockState) (ntp : NtpError) (utc_now : ℤ) (pics : Pictures) (m c r : ℕ)
    → m < 7
    → c < 172
    → r < 320
    → (m ≡ 0 → 36 ≤ r)
    → length s.current_lcd_digits ≡ 7
    → (s.first_clock_tick ≡ false
        → pics m c r ≡ clock_face b.clock_digit_font m (get_or s.current_lcd_digits m 0) c r)
    → repaint_all b (update_display s ntp utc_now).1 pics m c r
      ≡ clock_face b.clock_digit_font m
          (get_or (update_display s ntp utc_now).0.current_lcd_digits m 0)
          c
          r
unfolding update_display
update_display-pictures b s ntp utc_now pics m c r lcd column row below size h =
    let config = s.flash_config in
    let local = calculate_local_time utc_now config.tz_offset_mins config.dst_rule in
    let digits = lcd_digits (gmtime local) in
    let size' = length-lcd_digits (gmtime local) in
    elim (Bool-cases (digits_differ s.first_clock_tick s.current_lcd_digits digits)) [
      | inl e ↦ rw e (
          draw_digits_at b m c r column row below s.first_clock_tick _ ntp WifiError.ok 0 m
            s.current_lcd_digits digits pics (omega arith) (omega (arith, size', lcd))
            (omega (arith, size, size')) h)
      | inr e ↦
          let same =
            digits_differ-false s.first_clock_tick s.current_lcd_digits digits
              (omega (arith, size, size')) e in
          rw e (h (same.1 (omega (arith, size'))))
    ]

-- The state remembers the characters of the local time.
update_display-remembers :
    (s : ClockState) (ntp : NtpError) (utc_now : ℤ)
    → length s.current_lcd_digits ≡ 7
    → let config = s.flash_config in
      let local = gmtime (calculate_local_time utc_now config.tz_offset_mins config.dst_rule) in
      (update_display s ntp utc_now).0.current_lcd_digits ≡ lcd_digits local
update_display-remembers s ntp utc_now size =
    (show_all-update_display s ntp utc_now s.current_lcd_digits size size (λ first. refl)).1

-- The drawing of a tick, from the time to the pixels: if the font fits on a display and `linebuf` has
-- a line, no display is selected, and at any tick but the first the displays show the seven remembered
-- characters, then through the driver's transfers they come to show the weekday, hour and minute of
-- the local time, each character in the middle of its display on black, at every pixel but those of
-- display 0 in the rows of the icons; the state remembers these characters, and `linebuf` still has a
-- line.
pub update_display-ShowsText :
    (b : Bitmaps) (d : Driver) (s : ClockState) (ntp : NtpError) (utc_now : ℤ) (panels : ℕ → Panel)
    → FontFits b.clock_digit_font
    → lcd_width * 2 ≤ length d.linebuf
    → length s.current_lcd_digits ≡ 7
    → ((m : ℕ) → m < 7 → (panels m).selected ≡ false)
    → (s.first_clock_tick ≡ false → ShowsText b.clock_digit_font panels s.current_lcd_digits)
    → let config = s.flash_config in
      let local = gmtime (calculate_local_time utc_now config.tz_offset_mins config.dst_rule) in
      let drawn = draw_effects b d (update_display s ntp utc_now).1 in
      ShowsText b.clock_digit_font (watch_all drawn.1 panels) (lcd_digits local)
      × ((update_display s ntp utc_now).0.current_lcd_digits ≡ lcd_digits local)
      × (lcd_width * 2 ≤ length drawn.0.linebuf)
update_display-ShowsText b d s ntp utc_now panels font buf size idle h =
    let pics : Pictures = λ m. pixel (panels m) in
    let shown : Shows panels pics = record { idle = idle; picture = λ m c r lt. refl } in
    let es = (update_display s ntp utc_now).1 in
    let f =
      draw_effects-Follows b d es panels pics font (update_display-Drawable s ntp utc_now) buf
        shown in
    let kept = update_display-remembers s ntp utc_now size in
    (
      record {
        idle = f.shows.idle;
        at = λ m c r lcd column row below.
            f.shows.picture m c r lcd
            ∙ update_display-pictures b s ntp utc_now pics m c r lcd column row below size
                (λ old. (h old).at m c r lcd column row below)
            ∙ ap (λ text. clock_face b.clock_digit_font m (get_or text m 0) c r) kept;
      },
      kept,
      f.buffer,
    )
