-- ===== src/Lcd/Text.antt =====
-- The status lines of src/lcd.c: `lcd_print_line`. The build generates the text font.
use picow_day_clock.Base.{ℕ, ◌+◌, ◌*◌, ◌%◌, ◌^◌, List, [], ◌∷◌, ◌++◌, codes, ltb, if◌then◌else◌}
use picow_day_clock.Clock.{
  Message, init_ok_message, flash_error_message, wifi_error_message, wifi_ok_message,
}
use picow_day_clock.Lcd.{LcdState, Effect, Driver, lcd_width, lcd_height}
use picow_day_clock.Lcd.Image.{Font, lcd_write_char}

abbrev pub message_text : Message → List ℕ
message_text init_ok_message = codes "LCD init successful"
message_text flash_error_message = codes "Flash config corrupt"
message_text wifi_error_message = codes "Config mode started"
message_text wifi_ok_message = codes "Connected to WiFi"

-- The loop over the characters. `width` is that of the character before.
unfoldable pub print_chars :
    Font → LcdState → ℕ → Driver → ℕ → ℕ → ℕ → List ℕ → Driver × List Effect
print_chars text_font state color d x_point y_point width [] = (d, [])
print_chars text_font state color d x_point y_point width (c ∷ cs) =
    let wraps = ltb lcd_width (x_point + width) in
    let x₁ = if wraps then 0 else x_point in
    let y₁ = if wraps then (y_point + text_font.height) % 2 ^ 16 else y_point in
    let past = ltb lcd_height (y₁ + text_font.height) in
    let x₂ = if past then 0 else x₁ in
    let y₂ = if past then 0 else y₁ in
    let written = lcd_write_char d state x₂ y₂ c text_font color 0 in
    let drawn = written.0 in
    let rest = print_chars text_font state color written.1 ((x₂ + drawn) % 2 ^ 16) y₂ drawn cs in
    (rest.0, written.2 ++ rest.1)

unfoldable pub lcd_print_line : Font → Driver → LcdState → ℕ → Message → Driver × List Effect
lcd_print_line text_font d state color msg =
    let y_start = (d.line_number + 3) * text_font.height % 2 ^ 16 in
    let printed = print_chars text_font state color d 0 y_start 0 (message_text msg) in
    (record printed.0 { line_number = (d.line_number + 1) % 2 ^ 8 }, printed.1)
