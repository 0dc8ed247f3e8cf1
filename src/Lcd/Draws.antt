-- ===== src/Lcd/Draws.antt =====
-- The drawing functions of src/lcd.c as rectangles: their loops over `linebuf` send a line for each
-- row, and keep the size of the buffer.
use picow_day_clock.Base.{
  ℕ, zero, suc, ◌+◌, ◌-◌, ◌*◌, ◌/◌, ◌≤◌, ◌≡◌, refl, ap, ap₂, ◌∙◌, false, List, ◌∷◌, arith, ltb,
  length, take,
}
use picow_day_clock.Lcd.{
  Effect, spi_write_blocking, Driver, lcd_width, color_value, fill_line, send_lines,
  lcd_draw_rectangle, lcd_clear_screen, lcd_height,
}
use picow_day_clock.Lcd.Setup.{lcd_pins}
use picow_day_clock.Lcd.Image.{
  Glyph, Font, glyph_color, glyph_lines, unprintable, lcd_write_char, lcd_print_clock_digit,
}
use picow_day_clock.Lcd.Rows.{line_bytes, length-fill_line, line_sent, send_rows}
use picow_day_clock.Lcd.Paint.{Mark, drawing}

-- A call that draws one rectangle on display `n`, which its lines in `linebuf` fill.
pub record Draws (n : ℕ) (d : Driver) (k : Mark) (r : Driver × List Effect) : Type 0 where
  pub sent : r.1 ≡ drawing n k
  pub buffer : length r.0.linebuf ≡ length d.linebuf

send_lines_lem :
    (rounds y w v : ℕ) (buf : List ℕ)
    → take (w * 2) buf ≡ line_bytes w 0 (λ x. v)
    → send_lines rounds w buf ≡ send_rows rounds y w (λ r x. v)
unfolding send_lines send_rows
send_lines_lem zero y w v buf h = refl
send_lines_lem (suc n) y w v buf h =
    ap₂ (λ l ls. spi_write_blocking l ∷ ls) h (send_lines_lem n (suc y) w v buf h)

abbrev pub rectangle : ℕ → ℕ → ℕ → ℕ → ℕ → Mark
rectangle x y w h color = record {
  x = x;
  y = y;
  width = w;
  height = h;
  value = λ row column. color_value color;
}

pub lcd_draw_rectangle-Draws :
    (n : ℕ) (d : Driver) (x y w h color : ℕ)
    → w * 2 ≤ length d.linebuf
    → Draws n d (rectangle x y w h color) (lcd_draw_rectangle d (lcd_pins n) x y w h color)
unfolding lcd_draw_rectangle drawing
lcd_draw_rectangle-Draws n d x y w h color fits = record {
  sent =
      rw
        (send_lines_lem h 0 w (color_value color) (fill_line w 0 (λ c. color_value color) d.linebuf)
          (line_sent w (λ c. color_value color) d.linebuf fits))
        refl;
  buffer = length-fill_line w 0 (λ c. color_value color) d.linebuf;
}

pub lcd_clear_screen-Draws :
    (n : ℕ) (d : Driver) (color : ℕ)
    → lcd_width * 2 ≤ length d.linebuf
    → Draws n d (rectangle 0 0 lcd_width lcd_height color) (lcd_clear_screen d (lcd_pins n) color)
unfolding lcd_clear_screen
lcd_clear_screen-Draws n d color fits =
    let drawn =
      lcd_draw_rectangle-Draws n (record d { line_number = 0 }) 0 0 lcd_width lcd_height color
        fits in
    record { sent = drawn.sent; buffer = drawn.buffer }

-- The rows of a glyph, each `byte_width` bytes after the one before.
glyph_lines_lem :
    (rounds y bw : ℕ) (entry : Glyph) (fg bg ptr : ℕ) (buf : List ℕ)
    → ptr ≡ y * bw
    → entry.width * 2 ≤ length buf
    → let r = glyph_lines rounds bw entry fg bg ptr buf in
      (r.1 ≡ send_rows rounds y entry.width (λ row. glyph_color entry fg bg (row * bw)))
      × (length r.0 ≡ length buf)
unfolding glyph_lines send_rows
glyph_lines_lem zero y bw entry fg bg ptr buf e fits = (refl, refl)
glyph_lines_lem (suc rounds) y bw entry fg bg ptr buf e fits =
    let line = fill_line entry.width 0 (glyph_color entry fg bg ptr) buf in
    let same : length line ≡ length buf =
      length-fill_line entry.width 0 (glyph_color entry fg bg ptr) buf in
    let rest =
      glyph_lines_lem rounds (suc y) bw entry fg bg (ptr + bw) line (omega (arith, e))
        (omega (arith, same)) in
    let one = line_sent entry.width (glyph_color entry fg bg ptr) buf fits in
    (
      ap₂ (λ l ls. spi_write_blocking l ∷ ls)
          (one ∙ ap (λ q. line_bytes entry.width 0 (glyph_color entry fg bg q)) e) rest.0,
      rest.1 ∙ same,
    )

abbrev pub glyph_mark : Font → ℕ → ℕ → ℕ → ℕ → ℕ → Mark
glyph_mark font x y ascii_char fg bg =
    let entry = font.table (ascii_char - b' ') in
    record {
      x = x;
      y = y;
      width = entry.width;
      height = font.height;
      value = λ row. glyph_color entry fg bg (row * font.byte_width);
    }

pub lcd_write_char-Draws :
    (n : ℕ) (d : Driver) (x y c : ℕ) (font : Font) (fg bg : ℕ)
    → unprintable c ≡ false
    → (font.table (c - b' ')).width * 2 ≤ length d.linebuf
    → let r = lcd_write_char d (lcd_pins n) x y c font fg bg in
      (r.0 ≡ (font.table (c - b' ')).width) × Draws n d (glyph_mark font x y c fg bg) (r.1, r.2)
unfolding lcd_write_char drawing
lcd_write_char-Draws n d x y c font fg bg p fits =
    let lines =
      glyph_lines_lem font.height 0 font.byte_width (font.table (c - b' ')) fg bg 0 d.linebuf
        (omega arith) fits in
    rw p (refl, record { sent = rw lines.0 refl; buffer = lines.1 })

-- A glyph in the middle, if it is not wider than the display.
abbrev pub digit_mark : Font → ℕ → ℕ → Mark
digit_mark font color c =
    glyph_mark font ((lcd_width - (font.table (c - b' ')).width) / 2) 0 c color 0

pub lcd_print_clock_digit-Draws :
    (n : ℕ) (d : Driver) (font : Font) (color c : ℕ)
    → unprintable c ≡ false
    → (font.table (c - b' ')).width ≤ lcd_width
    → lcd_width * 2 ≤ length d.linebuf
    → Draws n d (digit_mark font color c) (lcd_print_clock_digit font d (lcd_pins n) color c)
unfolding lcd_print_clock_digit
lcd_print_clock_digit-Draws n d font color c p w fits =
    let width = (font.table (c - b' ')).width in
    let narrow : ltb lcd_width width ≡ false = ground arith in
    let drawn =
      lcd_write_char-Draws n d ((lcd_width - width) / 2) 0 c font color 0 p (omega arith) in
    rw (p, narrow) (record { sent = drawn.1.sent; buffer = drawn.1.buffer })
