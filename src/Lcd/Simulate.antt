-- ===== src/Lcd/Simulate.antt =====
-- The driver of src/lcd.c implements the pictures: each display call of src/clock.c changes what the
-- seven displays show as its rectangles say, whatever is drawn on the others.
use picow_day_clock.Base.{
  ℕ, ◌+◌, ◌-◌, ◌*◌, ◌≤◌, ◌<◌, List, [], ◌∷◌, ◌++◌, Option, none, some, arith, length,
}
use picow_day_clock.Clock
use picow_day_clock.Clock.{Color, black, red, green, cyan}
use picow_day_clock.Lcd
use picow_day_clock.Lcd.{Driver, lcd_width, lcd_height, lcd_clear_screen}
use picow_day_clock.Lcd.Setup.{lcd_pins}
use picow_day_clock.Lcd.Image.{
  watchdog_icon_x_offset, ntp_icon_x_offset, wifi_icon_x_offset, watchdog_case, ntp_case, wifi_case,
  draw_icon, lcd_update_icons,
}
use picow_day_clock.Lcd.Panel.{Panel, watch, watch-append}
use picow_day_clock.Lcd.Paint.{Mark, Fits}
use picow_day_clock.Lcd.Draws.{
  Draws, rectangle, lcd_clear_screen-Draws, digit_mark, lcd_print_clock_digit-Draws,
}
use picow_day_clock.Lcd.Bitmap.{image_mark, lcd_write_image-Draws}
use picow_day_clock.Lcd.Frame.{
  color_code, Bitmaps, draw, draw_effects, FontFits, Pictures, paint, icon_case_mark, repaint,
  repaint_all, Drawable, AllDrawable, Shows, watch_all, Shows-drawing,
}

-- After a call, the displays show the pictures, and `linebuf` still has a line.
pub record Follows (r : Driver × List Lcd.Effect) (panels : ℕ → Panel) (pics : Pictures)
    : Type 0 where
  pub shows : Shows (watch_all r.1 panels) pics
  pub buffer : lcd_width * 2 ≤ length r.0.linebuf

Follows-Draws :
    (n : ℕ) (d : Driver) (k : Mark) (r : Driver × List Lcd.Effect) (panels : ℕ → Panel)
    (pics : Pictures)
    → n < 7
    → Fits k
    → lcd_width * 2 ≤ length d.linebuf
    → Shows panels pics
    → Draws n d k r
    → Follows r panels (paint n k pics)
Follows-Draws n d k r panels pics lcd fits buf s w = record {
  shows = rw (w.sent) (Shows-drawing n k panels pics lcd fits s);
  buffer = rw w.buffer buf;
}

Follows-append :
    (d : Driver) (es fs : List Lcd.Effect) (panels : ℕ → Panel) (pics : Pictures)
    → Follows (d, fs) (watch_all es panels) pics
    → Follows (d, es ++ fs) panels pics
Follows-append d es fs panels pics f = record {
  shows = record {
    idle = λ m lt. rw (watch-append (2 + m) es fs (panels m)) (f.shows.idle m lt);
    picture = λ m c r lt. rw (watch-append (2 + m) es fs (panels m)) (f.shows.picture m c r lt);
  };
  buffer = f.buffer;
}

draw_icon-Follows :
    (d : Driver) (bitmap : Option ((ℕ → ℕ) × ℕ)) (x : ℕ) (panels : ℕ → Panel) (pics : Pictures)
    → x + 36 ≤ 172
    → lcd_width * 2 ≤ length d.linebuf
    → Shows panels pics
    → Follows (draw_icon d (lcd_pins 0) bitmap x) panels (icon_case_mark bitmap x pics)
unfolding draw_icon watch
draw_icon-Follows d none x panels pics fits buf s = record { shows = s; buffer = buf }
draw_icon-Follows d (some (icon, color)) x panels pics fits buf s =
    let k = image_mark icon x 0 36 36 color in
    let room : Fits k = record {
      some_width = omega arith;
      some_height = omega arith;
      columns = fits;
      rows = omega arith;
    } in
    Follows-Draws 0 d k _ panels pics (omega arith) room buf s
      (lcd_write_image-Draws 0 d icon x 0 36 36 color (omega (arith, buf)))

pub draw-Follows :
    (b : Bitmaps) (d : Driver) (e : Clock.Effect) (panels : ℕ → Panel) (pics : Pictures)
    → FontFits b.clock_digit_font
    → Drawable e
    → lcd_width * 2 ≤ length d.linebuf
    → Shows panels pics
    → Follows (draw b d e) panels (repaint b e pics)
unfolding draw watch lcd_update_icons
draw-Follows b d (Clock.lcd_clear_screen n) panels pics font can buf s =
    Follows-Draws n d (rectangle 0 0 lcd_width lcd_height 0) _ panels pics can
      (record {
        some_width = omega arith;
        some_height = omega arith;
        columns = omega arith;
        rows = omega arith;
      })
      buf s (lcd_clear_screen-Draws n d 0 buf)
draw-Follows b d (Clock.lcd_print_clock_digit n color c) panels pics font can buf s =
    let f = b.clock_digit_font in
    let width = font.width (c - b' ') in
    Follows-Draws n d (digit_mark f (color_code color) c) _ panels pics can.0
      (record {
        some_width = font.some_width (c - b' ');
        some_height = font.some_height;
        columns = omega (arith, width);
        rows = omega (arith, font.height);
      })
      buf s (lcd_print_clock_digit-Draws n d f (color_code color) c can.1 width buf)
draw-Follows b d (Clock.lcd_update_icons watchdog ntp wifi) panels pics font can buf s =
    let icons = b.icons in
    let r₁ = draw_icon d (lcd_pins 0) (watchdog_case icons watchdog) watchdog_icon_x_offset in
    let f₁ =
      draw_icon-Follows d (watchdog_case icons watchdog) watchdog_icon_x_offset panels pics
        (omega arith) buf s in
    let r₂ = draw_icon r₁.0 (lcd_pins 0) (ntp_case icons ntp) ntp_icon_x_offset in
    let f₂ =
      draw_icon-Follows r₁.0 (ntp_case icons ntp) ntp_icon_x_offset _ _ (omega arith) f₁.buffer
        f₁.shows in
    let f₃ =
      draw_icon-Follows r₂.0 (wifi_case icons wifi) wifi_icon_x_offset _ _ (omega arith) f₂.buffer
        f₂.shows in
    Follows-append _ r₁.1 _ panels _ (Follows-append _ r₂.1 _ _ _ f₃)
draw-Follows b d (Clock.lcd_print_line color msg) panels pics font can buf s = absurd can
draw-Follows b d _ panels pics font can buf s = record { shows = s; buffer = buf }

-- The driver implements the pictures. Any sequence of clears of the seven displays, printable digits on
-- them and icons, drawn through the driver with a font that fits a display and a `linebuf` that has a
-- line, leaves what the seven displays show as its rectangles painted in order say: each display its
-- own, at every pixel, from any pictures they showed before, none of them being selected.
pub draw_effects-Follows :
    (b : Bitmaps) (d : Driver) (es : List Clock.Effect) (panels : ℕ → Panel) (pics : Pictures)
    → FontFits b.clock_digit_font
    → AllDrawable es
    → lcd_width * 2 ≤ length d.linebuf
    → Shows panels pics
    → Follows (draw_effects b d es) panels (repaint_all b es pics)
unfolding draw_effects watch
draw_effects-Follows b d [] panels pics font can buf s = record { shows = s; buffer = buf }
draw_effects-Follows b d (e ∷ es) panels pics font can buf s =
    let f = draw-Follows b d e panels pics font can.0 buf s in
    Follows-append _ (draw b d e).1 _ panels _
      (draw_effects-Follows b (draw b d e).0 es _ _ font can.1 f.buffer f.shows)
