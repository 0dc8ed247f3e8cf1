-- ===== src/Lcd/Idle.antt =====
-- What every drawing call of src/lcd.c keeps, whatever it draws and wherever: the displays that are not
-- selected stay so, and `linebuf` keeps its size.
use picow_day_clock.Base.{
  ℕ, ◌+◌, ◌*◌, ◌≤◌, ◌<◌, ◌≡◌, ◌≢◌, refl, ◌∙◌, true, false, List, ◌++◌, arith, ◌==◌, length,
  Bool-cases, inl, inr,
}
use picow_day_clock.Clock
use picow_day_clock.Lcd
use picow_day_clock.Lcd.{Driver, lcd_width, begin_data, end_data, st7789_set_command_windows}
use picow_day_clock.Lcd.Setup.{lcd_pins}
use picow_day_clock.Lcd.Image.{Font, unprintable}
use picow_day_clock.Lcd.Rows.{send_rows}
use picow_day_clock.Lcd.Draws.{glyph_mark}
use picow_day_clock.Lcd.Panel.{Panel, watch, watch-append, pixel}
use picow_day_clock.Lcd.Paint.{Mark, drawing, watch-passes, all_pass-drawing}
use picow_day_clock.Lcd.Frame.{color_code, Bitmaps, draw, FontFits, Drawable, watch_all}
use picow_day_clock.Lcd.Simulate.{draw-Follows}
use picow_day_clock.Lcd.Line.{Widths, Placed, done, place, lcd_print_line-Placed}

watch-end_data :
    (n : ℕ) (p : Panel) → n < 7 → (watch (2 + n) (end_data (lcd_pins n)) p).selected ≡ false
unfolding watch
watch-end_data n p lcd =
    let pin : (2 + n == 14) ≡ false = ground arith in
    let this : (2 + n == 2 + n) ≡ true = ground arith in rw (pin, this) refl

watch-four :
    (cs : ℕ) (es fs gs hs : List Lcd.Effect) (p : Panel)
    → watch cs (es ++ (fs ++ (gs ++ hs))) p
      ≡ watch cs hs (watch cs gs (watch cs fs (watch cs es p)))
watch-four cs es fs gs hs p =
    watch-append cs es (fs ++ (gs ++ hs)) p
    ∙ watch-append cs fs (gs ++ hs) _
    ∙ watch-append cs gs hs _

own-drawing_idle :
    (n : ℕ) (k : Mark) (p : Panel) → n < 7 → (watch (2 + n) (drawing n k) p).selected ≡ false
unfolding drawing
own-drawing_idle n k p lcd =
    let pins = lcd_pins n in
    rw
      (watch-four (2 + n) (st7789_set_command_windows pins k.x k.y k.width k.height)
        (begin_data pins) (send_rows k.height 0 k.width k.value) (end_data pins) p)
      (watch-end_data n _ lcd)

-- A rectangle, inside the display or not, leaves no display selected.
pub watch-drawing_idle :
    (m n : ℕ) (k : Mark) (p : Panel)
    → n < 7
    → p.selected ≡ false
    → (watch (2 + m) (drawing n k) p).selected ≡ false
watch-drawing_idle m n k p lcd idle = elim (Bool-cases (m == n)) [
  | inl e ↦ let here : m ≡ n = ground (arith, e) in rw here (own-drawing_idle n k p lcd)
  | inr e ↦
      let apart : m ≢ n = ground (arith, e) in
      (watch-passes (2 + m) (drawing n k) p (all_pass-drawing m n k lcd apart) idle).0
]

abbrev pub AllIdle : (ℕ → Panel) → Type 0
AllIdle panels = (m : ℕ) → m < 7 → (panels m).selected ≡ false

AllIdle-Placed :
    {font : Font} {n color limit x y : ℕ} {cs : List ℕ} {es : List Lcd.Effect} (panels : ℕ → Panel)
    → n < 7
    → Placed font n color limit x y cs es
    → AllIdle panels
    → AllIdle (watch_all es panels)
unfolding watch
AllIdle-Placed panels lcd done idle = idle
AllIdle-Placed {font} {n} {color} panels lcd (place x' y' c {cs} {es} next right low rest) idle =
    let k = glyph_mark font x' y' c color 0 in
    λ m lt. rw (watch-append (2 + m) (drawing n k) es (panels m)) (
      AllIdle-Placed (watch_all (drawing n k) panels) lcd rest
        (λ i small. watch-drawing_idle i n k (panels i) lcd (idle i small)) m lt)

-- Whoever draws next finds no display selected and room for a line in `linebuf`.
pub record Ready (d : Driver) (panels : ℕ → Panel) : Type 0 where
  pub idle : AllIdle panels
  pub buffer : lcd_width * 2 ≤ length d.linebuf

-- Calls on displays that there are, with digits that the font has.
abbrev pub Plain : Clock.Effect → Type 0
Plain (Clock.lcd_clear_screen n) = n < 7
Plain (Clock.lcd_print_clock_digit n color c) = (n < 7) × (unprintable c ≡ false)
Plain _ = Unit

-- Fonts that the driver can draw.
pub record FontsFit (b : Bitmaps) : Type 0 where
  pub narrow : ℕ
  pub wide : ℕ
  pub clock_font : FontFits b.clock_digit_font
  pub text_widths : Widths b.text_font narrow wide

draw-Ready_if :
    (b : Bitmaps) (d : Driver) (e : Clock.Effect) (panels : ℕ → Panel)
    → FontsFit b
    → Drawable e
    → Ready d panels
    → Ready (draw b d e).0 (watch_all (draw b d e).1 panels)
draw-Ready_if b d e panels fonts can r =
    let f =
      draw-Follows b d e panels (λ m. pixel (panels m)) fonts.clock_font can r.buffer
        (record { idle = r.idle; picture = λ m c row lt. refl }) in
    record { idle = f.shows.idle; buffer = f.buffer }

pub draw-Ready :
    (b : Bitmaps) (d : Driver) (e : Clock.Effect) (panels : ℕ → Panel)
    → FontsFit b
    → Plain e
    → Ready d panels
    → Ready (draw b d e).0 (watch_all (draw b d e).1 panels)
unfolding draw watch
draw-Ready b d (Clock.lcd_print_line color msg) panels fonts can r =
    let printed =
      lcd_print_line-Placed b.text_font fonts.narrow fonts.wide 0 (color_code color) d msg
        fonts.text_widths r.buffer in
    record {
      idle = AllIdle-Placed panels (omega arith) printed.0 r.idle;
      buffer = rw printed.1 (r.buffer);
    }
draw-Ready b d (Clock.lcd_clear_screen n) panels fonts can r =
    draw-Ready_if b d (Clock.lcd_clear_screen n) panels fonts can r
draw-Ready b d (Clock.lcd_print_clock_digit n color c) panels fonts can r =
    draw-Ready_if b d (Clock.lcd_print_clock_digit n color c) panels fonts can r
draw-Ready b d (Clock.lcd_update_icons watchdog ntp wifi) panels fonts can r =
    draw-Ready_if b d (Clock.lcd_update_icons watchdog ntp wifi) panels fonts can r
draw-Ready b d _ panels fonts can r = record { idle = r.idle; buffer = r.buffer }
