-- ===== src/Lcd/Pixels.antt =====
-- The pixels of the three ways to draw in src/lcd.c: a rectangle, a character and an image.
use picow_day_clock.Base.{ℕ, ◌+◌, ◌-◌, ◌*◌, ◌≤◌, ◌<◌, ◌≡◌, ◌≢◌, ap, false, List, length, arith}
use picow_day_clock.Lcd.{Effect, Driver, lcd_width, lcd_draw_rectangle}
use picow_day_clock.Lcd.Setup.{lcd_pins}
use picow_day_clock.Lcd.Image.{Font, unprintable, lcd_write_char, lcd_write_image}
use picow_day_clock.Lcd.Panel.{Panel, watch, pixel}
use picow_day_clock.Lcd.Paint.{Mark, Fits, over, pixel-drawing, watch-passes, all_pass-drawing}
use picow_day_clock.Lcd.Draws.{
  Draws, rectangle, lcd_draw_rectangle-Draws, glyph_mark, lcd_write_char-Draws,
}
use picow_day_clock.Lcd.Bitmap.{image_mark, lcd_write_image-Draws}

-- Transfers that draw one rectangle on display `n`: it shows it over its picture, and any other that
-- is not selected keeps its own.
pub record Paints (n : ℕ) (k : Mark) (es : List Effect) : Type 0 where
  pub on :
      (p : Panel)
      → let q = watch (2 + n) es p in
        (q.selected ≡ false) × ((c r : ℕ) → pixel q c r ≡ over k (pixel p) c r)
  pub off :
      (m : ℕ) (p : Panel)
      → m ≢ n
      → p.selected ≡ false
      → let q = watch (2 + m) es p in (q.selected ≡ false) × ((c r : ℕ) → pixel q c r ≡ pixel p c r)

Draws-Paints :
    (n : ℕ) (d : Driver) (k : Mark) (r : Driver × List Effect)
    → n < 7
    → Fits k
    → Draws n d k r
    → Paints n k r.1
Draws-Paints n d k r lcd fits w = record {
  on = λ p. rw w.sent (pixel-drawing n k p lcd fits);
  off = λ m p apart idle.
      let kept = watch-passes (2 + m) _ p (all_pass-drawing m n k lcd apart) idle in
      rw w.sent (kept.0, λ c r. ap (λ f. f (c + 34) r) kept.1);
}

-- On each of the seven displays, `lcd_draw_rectangle` paints a rectangle that fits in the colour of
-- its number modulo 4, changes no other pixel and no other display, and keeps the size of `linebuf`.
pub lcd_draw_rectangle-Paints :
    (n : ℕ) (d : Driver) (x y w h color : ℕ)
    → n < 7
    → lcd_width * 2 ≤ length d.linebuf
    → Fits (rectangle x y w h color)
    → let r = lcd_draw_rectangle d (lcd_pins n) x y w h color in
      Paints n (rectangle x y w h color) r.1 × (length r.0.linebuf ≡ length d.linebuf)
lcd_draw_rectangle-Paints n d x y w h color lcd buf fits =
    let w' = fits.columns in
    let s = lcd_draw_rectangle-Draws n d x y w h color (omega (arith, buf, w')) in
    (Draws-Paints n d _ _ lcd fits s, s.buffer)

-- On each of the seven displays, `lcd_write_char` returns the width of a printable character whose
-- glyph fits and paints it: bit `column % 8` (from the top) of byte `column / 8` of a row, the rows
-- `byte_width` bytes apart, chooses between the two colours. It changes no other pixel and no other
-- display, and keeps the size of `linebuf`.
pub lcd_write_char-Paints :
    (n : ℕ) (d : Driver) (x y c : ℕ) (font : Font) (fg bg : ℕ)
    → n < 7
    → lcd_width * 2 ≤ length d.linebuf
    → unprintable c ≡ false
    → Fits (glyph_mark font x y c fg bg)
    → let r = lcd_write_char d (lcd_pins n) x y c font fg bg in
      (r.0 ≡ (font.table (c - b' ')).width)
      × Paints n (glyph_mark font x y c fg bg) r.2
      × (length r.1.linebuf ≡ length d.linebuf)
lcd_write_char-Paints n d x y c font fg bg lcd buf p fits =
    let w' = fits.columns in
    let s = lcd_write_char-Draws n d x y c font fg bg p (omega (arith, buf, w')) in
    (s.0, Draws-Paints n d _ _ lcd fits s.1, s.1.buffer)

-- On each of the seven displays, `lcd_write_image` paints an image that fits: bit `column % 8` (from
-- the top) of byte `column / 8` of a row, the rows `(width + 7) / 8` bytes apart, chooses between the
-- foreground and black. It changes no other pixel and no other display, and keeps the size of
-- `linebuf`.
pub lcd_write_image-Paints :
    (n : ℕ) (d : Driver) (image : ℕ → ℕ) (x y w h fg : ℕ)
    → n < 7
    → lcd_width * 2 ≤ length d.linebuf
    → Fits (image_mark image x y w h fg)
    → let r = lcd_write_image d (lcd_pins n) image x y w h fg in
      Paints n (image_mark image x y w h fg) r.1 × (length r.0.linebuf ≡ length d.linebuf)
lcd_write_image-Paints n d image x y w h fg lcd buf fits =
    let w' = fits.columns in
    let s = lcd_write_image-Draws n d image x y w h fg (omega (arith, buf, w')) in
    (Draws-Paints n d _ _ lcd fits s, s.buffer)
