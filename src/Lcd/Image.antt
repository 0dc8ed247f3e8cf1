-- ===== src/Lcd/Image.antt =====
-- Glyphs and images of src/lcd.c: `lcd_write_char`, `lcd_print_clock_digit`, `lcd_write_image` and
-- `lcd_update_icons`. The build generates the fonts and icons: they are parameters, and a table of
-- bytes is the function of its index.
use picow_day_clock.Base.{
  ℕ, zero, suc, ◌+◌, ◌-◌, ◌*◌, ◌/◌, ◌%◌, ◌^◌, Bool, List, [], ◌∷◌, ◌++◌, get_or, take, ltb, ◌==◌,
  ◌||◌, Option, none, some, if◌then◌else◌,
}
use picow_day_clock.Ntp.{NtpError}
use picow_day_clock.Config.{WatchdogError, WifiError}
use picow_day_clock.Lcd.{
  LcdState, Effect, spi_write_blocking, Driver, lcd_width, color_table, color_value, put_pixel,
  fill_line, st7789_set_command_windows, begin_data, end_data,
}

-- `font_glyph_t`
pub record Glyph : Type 0 where
  pub table : ℕ → ℕ
  pub width : ℕ

-- `font_t`
pub record Font : Type 0 where
  pub table : ℕ → Glyph
  pub byte_width : ℕ
  pub height : ℕ

-- Whether a bit of a byte is set, bit 0 being the most significant.
abbrev pub bit_set : ℕ → ℕ → Bool
bit_set byte bit = byte / 2 ^ (7 - bit) % 2 == 1

-- The colour of a column of the glyph row at `ptr`.
abbrev pub glyph_color : Glyph → ℕ → ℕ → ℕ → ℕ → ℕ
glyph_color entry fg_color bg_color ptr glyph_column =
    if bit_set (entry.table (ptr + glyph_column / 8)) (glyph_column % 8)
    then color_value fg_color
    else color_value bg_color

-- The loop over the rows of a glyph, with the line buffer that it leaves.
unfoldable pub glyph_lines : ℕ → ℕ → Glyph → ℕ → ℕ → ℕ → List ℕ → List ℕ × List Effect
glyph_lines zero byte_width entry fg_color bg_color ptr buf = (buf, [])
glyph_lines (suc rounds) byte_width entry fg_color bg_color ptr buf =
    let line = fill_line entry.width 0 (glyph_color entry fg_color bg_color ptr) buf in
    let rest = glyph_lines rounds byte_width entry fg_color bg_color (ptr + byte_width) line in
    (rest.0, spi_write_blocking (take (entry.width * 2) line) ∷ rest.1)

-- `ascii_char < ' ' || ascii_char > '~'`
abbrev pub unprintable : ℕ → Bool
unprintable ascii_char = ltb ascii_char b' ' || ltb b'~' ascii_char

-- The result is the width that was drawn.
unfoldable pub lcd_write_char :
    Driver → LcdState → ℕ → ℕ → ℕ → Font → ℕ → ℕ → ℕ × Driver × List Effect
lcd_write_char d state x_point y_point ascii_char font fg_color bg_color =
    if unprintable ascii_char
    then (0, d, [])
    else let entry = font.table (ascii_char - b' ') in
      let lines = glyph_lines font.height font.byte_width entry fg_color bg_color 0 d.linebuf in
      (
        entry.width,
        record d { linebuf = lines.0 },
        st7789_set_command_windows state x_point y_point entry.width font.height
            ++ (begin_data state ++ (lines.1 ++ end_data state)),
      )

-- The position is an `int` and wraps to 16 bits, should a glyph be wider than the display.
unfoldable pub lcd_print_clock_digit : Font → Driver → LcdState → ℕ → ℕ → Driver × List Effect
lcd_print_clock_digit clock_digit_font d state color ascii_char =
    if unprintable ascii_char
    then (d, [])
    else let entry = clock_digit_font.table (ascii_char - b' ') in
      let x_point =
        if ltb lcd_width entry.width
        then (2 ^ 16 - (entry.width - lcd_width) / 2) % 2 ^ 16
        else (lcd_width - entry.width) / 2 in
      let written = lcd_write_char d state x_point 0 ascii_char clock_digit_font color 0 in
      (written.1, written.2)

-- The loop over the bits of a byte, from `bit` on.
unfoldable pub image_bits : ℕ → ℕ → ℕ → ℕ → ℕ → ℕ → ℕ → List ℕ → List ℕ
image_bits zero bit byte byte_idx x_start image_width fg_color buf = buf
image_bits (suc rounds) bit byte byte_idx x_start image_width fg_color buf =
    let x = x_start + byte_idx * 8 + bit in
    let color = get_or color_table (if bit_set byte bit then fg_color else 0) 0 in
    let here = if ltb x (x_start + image_width) then put_pixel buf (x - x_start) color else buf in
    image_bits rounds (suc bit) byte byte_idx x_start image_width fg_color here

-- The loop over the bytes of a row, the first of which is at `ptr`.
unfoldable pub image_bytes : ℕ → ℕ → (ℕ → ℕ) → ℕ → ℕ → ℕ → ℕ → List ℕ → List ℕ
image_bytes zero byte_idx image ptr x_start image_width fg_color buf = buf
image_bytes (suc rounds) byte_idx image ptr x_start image_width fg_color buf =
    image_bytes rounds (suc byte_idx) image (suc ptr) x_start image_width fg_color
      (image_bits 8 0 (image ptr) byte_idx x_start image_width fg_color buf)

-- The loop over the rows. A row takes `bytes_per_row` bytes.
unfoldable pub image_lines : ℕ → ℕ → (ℕ → ℕ) → ℕ → ℕ → ℕ → ℕ → List ℕ → List ℕ × List Effect
image_lines zero bytes_per_row image ptr x_start image_width fg_color buf = (buf, [])
image_lines (suc rounds) bytes_per_row image ptr x_start image_width fg_color buf =
    let line = image_bytes bytes_per_row 0 image ptr x_start image_width fg_color buf in
    let rest =
      image_lines rounds bytes_per_row image (ptr + bytes_per_row) x_start image_width fg_color
        line in
    (rest.0, spi_write_blocking (take (image_width * 2) line) ∷ rest.1)

unfoldable pub lcd_write_image :
    Driver → LcdState → (ℕ → ℕ) → ℕ → ℕ → ℕ → ℕ → ℕ → Driver × List Effect
lcd_write_image d state image x_start y_start image_width image_height fg_color =
    let bytes_per_row = (image_width + 7) / 8 in
    let lines =
      image_lines image_height bytes_per_row image 0 x_start image_width fg_color d.linebuf in
    (
      record d { linebuf = lines.0 },
      st7789_set_command_windows state x_start y_start image_width image_height
          ++ (begin_data state ++ (lines.1 ++ end_data state)),
    )

abbrev pub icon_size : ℕ
icon_size = 36

abbrev pub watchdog_icon_x_offset : ℕ
watchdog_icon_x_offset = lcd_width - 5 - icon_size * 3

abbrev pub ntp_icon_x_offset : ℕ
ntp_icon_x_offset = lcd_width - 5 - icon_size * 2

abbrev pub wifi_icon_x_offset : ℕ
wifi_icon_x_offset = lcd_width - 5 - icon_size * 1

-- The bitmaps that `lcd_update_icons` uses.
pub record Icons : Type 0 where
  pub watchdog_icon : ℕ → ℕ
  pub watchdog_ntp_icon : ℕ → ℕ
  pub watchdog_wifi_icon : ℕ → ℕ
  pub ntp_icon : ℕ → ℕ
  pub ntp_init_icon : ℕ → ℕ
  pub ntp_dns_icon : ℕ → ℕ
  pub ntp_memory_icon : ℕ → ℕ
  pub ntp_error_icon : ℕ → ℕ
  pub ntp_timeout_icon : ℕ → ℕ
  pub wifi_icon : ℕ → ℕ
  pub wifi_init_icon : ℕ → ℕ
  pub wifi_timeout_icon : ℕ → ℕ
  pub wifi_password_icon : ℕ → ℕ
  pub wifi_connect_icon : ℕ → ℕ
  pub wifi_error_icon : ℕ → ℕ

-- What a case of `lcd_update_icons` draws: a bitmap with its colour (1 is red, 2 green), or nothing.
abbrev pub watchdog_case : Icons → WatchdogError → Option ((ℕ → ℕ) × ℕ)
watchdog_case icons WatchdogError.reset = some (icons.watchdog_icon, 1)
watchdog_case icons WatchdogError.ntp = some (icons.watchdog_ntp_icon, 1)
watchdog_case icons WatchdogError.wifi = some (icons.watchdog_wifi_icon, 1)
watchdog_case icons WatchdogError.ok = none

abbrev pub ntp_case : Icons → NtpError → Option ((ℕ → ℕ) × ℕ)
ntp_case icons NtpError.ok = some (icons.ntp_icon, 2)
ntp_case icons NtpError.init_error = some (icons.ntp_init_icon, 1)
ntp_case icons NtpError.dns_error = some (icons.ntp_dns_icon, 1)
ntp_case icons NtpError.memory_error = some (icons.ntp_memory_icon, 1)
ntp_case icons NtpError.protocol_error = some (icons.ntp_error_icon, 1)
ntp_case icons NtpError.timeout_error = some (icons.ntp_timeout_icon, 1)
ntp_case icons NtpError.null_error = none

abbrev pub wifi_case : Icons → WifiError → Option ((ℕ → ℕ) × ℕ)
wifi_case icons WifiError.ok = some (icons.wifi_icon, 2)
wifi_case icons WifiError.init_error = some (icons.wifi_init_icon, 1)
wifi_case icons WifiError.timeout_error = some (icons.wifi_timeout_icon, 1)
wifi_case icons WifiError.auth_error = some (icons.wifi_password_icon, 1)
wifi_case icons WifiError.connect_error = some (icons.wifi_connect_icon, 1)
wifi_case icons WifiError.unknown_error = some (icons.wifi_error_icon, 1)

unfoldable pub draw_icon : Driver → LcdState → Option ((ℕ → ℕ) × ℕ) → ℕ → Driver × List Effect
draw_icon d state none offset = (d, [])
draw_icon d state (some (icon, color)) offset =
    lcd_write_image d state icon offset 0 icon_size icon_size color

unfoldable pub lcd_update_icons :
    Icons → Driver → LcdState → WatchdogError → NtpError → WifiError → Driver × List Effect
lcd_update_icons icons d state watchdog_error ntp_error wifi_error =
    let first = draw_icon d state (watchdog_case icons watchdog_error) watchdog_icon_x_offset in
    let second = draw_icon first.0 state (ntp_case icons ntp_error) ntp_icon_x_offset in
    let third = draw_icon second.0 state (wifi_case icons wifi_error) wifi_icon_x_offset in
    (third.0, first.1 ++ (second.1 ++ third.1))
