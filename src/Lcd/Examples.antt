-- ===== src/Lcd/Examples.antt =====
-- The theorems on the displays of src/lcd.c at concrete bitmaps.
use picow_day_clock.Base.{
  ℕ, suc, ◌+◌, ◌*◌, ◌%◌, ◌≤◌, ◌<◌, ◌≡◌, refl, false, true, List, [], ◌∷◌, length, replicate, arith,
  none, leb, inl, inr, Bool-cases, zero, if◌then◌else◌,
}
use picow_day_clock.Base.Int.{pos}
use picow_day_clock.Dst.{Rule}
use picow_day_clock.Ntp.{NtpError}
use picow_day_clock.Config.{FlashConfig, WatchdogError, WifiError, config_magic}
use picow_day_clock.Clock
use picow_day_clock.Clock.{ClockState, green, lcd_digits, update_display}
use picow_day_clock.Lcd.Backlight.{IsRoot}
use picow_day_clock.Lcd.{LcdState, Driver}
use picow_day_clock.Lcd.Setup.{lcd_pins}
use picow_day_clock.Lcd.Image.{Font, Icons, lcd_write_image}
use picow_day_clock.Lcd.Panel.{Panel}
use picow_day_clock.Lcd.Bitmap.{image_mark}
use picow_day_clock.Lcd.Pixels.{Paints, lcd_write_image-Paints}
use picow_day_clock.Lcd.Frame.{Bitmaps, draw_effects, FontFits, repaint_all}
use picow_day_clock.Lcd.Simulate.{Follows, draw_effects-Follows}
use picow_day_clock.Lcd.Power.{Power}
use picow_day_clock.Lcd.Text.{message_text, lcd_print_line}
use picow_day_clock.Lcd.Line.{Widths, Placed, lcd_print_line-Placed}
use picow_day_clock.Clock.{init_ok_message}

-- Glyphs of 9 columns and 2 rows, two bytes to a row.
abbrev stripes : Font
stripes = record {
  table = λ i. record { table = λ byte. 0xA5; width = 9 };
  byte_width = 2;
  height = 2;
}

abbrev blank : ℕ → ℕ
blank byte = 0

abbrev icons : Icons
icons = record {
  watchdog_icon = blank;
  watchdog_ntp_icon = blank;
  watchdog_wifi_icon = blank;
  ntp_icon = blank;
  ntp_init_icon = blank;
  ntp_dns_icon = blank;
  ntp_memory_icon = blank;
  ntp_error_icon = blank;
  ntp_timeout_icon = blank;
  wifi_icon = blank;
  wifi_init_icon = blank;
  wifi_timeout_icon = blank;
  wifi_password_icon = blank;
  wifi_connect_icon = blank;
  wifi_error_icon = blank;
}

abbrev bitmaps : Bitmaps
bitmaps = record { text_font = stripes; clock_digit_font = stripes; icons = icons }

abbrev driver : Driver
driver = record { line_number = 0; linebuf = replicate 344 0 }

-- A display after power-on, with a picture of one colour.
abbrev panel : Panel
panel = record {
  selected = false;
  data_mode = false;
  register = 0;
  params = [];
  first_column = 0;
  last_column = 0;
  first_row = 0;
  last_row = 0;
  column = 0;
  row = 0;
  half = none;
  memory = λ column row. 0xFFFF;
}

abbrev config : FlashConfig
config = record {
  magic_marker = config_magic;
  wifi_ssid = replicate 33 0;
  wifi_password = replicate 64 0;
  ntp_server = replicate 65 0;
  tz_offset_mins = pos 60;
  dst_rule = Rule.eu;
  ntp_timeout = 10000;
  ntp_port = 123;
  led_always_on = false;
}

stripes_fit : FontFits stripes
stripes_fit = record {
  some_width = λ i. omega arith;
  width = λ i. omega arith;
  some_height = omega arith;
  height = omega arith;
}

abbrev calls : List Clock.Effect
calls =
    Clock.lcd_clear_screen 3
    ∷ Clock.lcd_print_clock_digit 3 green b'7'
    ∷ Clock.lcd_update_icons WatchdogError.ntp NtpError.timeout_error WifiError.ok
    ∷ []

draw_effects-Follows_example :
    Follows
      (draw_effects bitmaps driver calls)
      (λ m. panel)
      (repaint_all bitmaps calls (λ m column row. 0xFFFF))
draw_effects-Follows_example =
    draw_effects-Follows bitmaps driver calls (λ m. panel) (λ m column row. 0xFFFF) stripes_fit
      (omega arith, ((omega arith, refl), (tt, tt))) (omega arith)
      (record { idle = λ m lt. refl; picture = λ m column row lcd. refl })

lcd_write_image-Paints_example :
    let r = lcd_write_image driver (lcd_pins 0) (λ byte. byte) 131 0 36 36 1 in
    Paints 0 (image_mark (λ byte. byte) 131 0 36 36 1) r.1 × (length r.0.linebuf ≡ 344)
lcd_write_image-Paints_example =
    lcd_write_image-Paints 0 driver (λ byte. byte) 131 0 36 36 1 (omega arith) (omega arith)
      (record {
        some_width = omega arith;
        some_height = omega arith;
        columns = omega arith;
        rows = omega arith;
      })

abbrev unknown : Power
unknown = record {
  spi = false;
  clk = false;
  mosi = false;
  dc_out = false;
  cs_out = false;
  rst_out = false;
  selected = false;
  data_mode = true;
  awake = true;
  display_on = true;
  pwm_pin = false;
  pwm_on = false;
  level = 0;
}

-- Every second glyph has a column more.
abbrev uneven : Font
uneven = record {
  table = λ i. record { table = λ byte. 0xA5; width = 9 + i % 2 };
  byte_width = 2;
  height = 20;
}

uneven-Widths : Widths uneven 9 10
uneven-Widths = record {
  least = λ i. omega arith;
  most = λ i. omega arith;
  columns = omega arith;
  rows = omega arith;
}

lcd_print_line-Placed_example :
    let r = lcd_print_line uneven driver (lcd_pins 0) 1 init_ok_message in
    Placed uneven 0 1 173 0 60 (message_text init_ok_message) r.1 × (length r.0.linebuf ≡ 344)
lcd_print_line-Placed_example =
    lcd_print_line-Placed uneven 9 10 0 1 driver init_ok_message uneven-Widths (omega arith)

-- The square root in hundredths, by search.
root_from : ℕ → ℕ → ℕ → ℕ
root_from zero n d = 0
root_from (suc c) n d =
    let smaller = root_from c n d in if leb (suc c * suc c * d) (10000 * n) then suc c else smaller

root_from_lem :
    (c n d : ℕ)
    → 10000 * n < suc c * suc c * d
    → (root_from c n d * root_from c n d * d ≤ 10000 * n)
      × (10000 * n < suc (root_from c n d) * suc (root_from c n d) * d)
unfolding root_from
root_from_lem zero n d h = (omega arith, h)
root_from_lem (suc c) n d h = elim (Bool-cases (leb (suc c * suc c * d) (10000 * n))) [
  | inl e ↦ rw e (ground (arith, e), h)
  | inr e ↦ rw e (root_from_lem c n d (ground (arith, e)))
]

root_from-IsRoot : IsRoot (root_from 100)
root_from-IsRoot = record {
  below = λ n d some less. (root_from_lem 100 n d (omega (arith, less))).0;
  above = λ n d some less. (root_from_lem 100 n d (omega (arith, less))).1;
}

abbrev dim : LcdState
dim = record (lcd_pins 0) { smoothed_adc = 100 }
