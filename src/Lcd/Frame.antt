-- ===== src/Lcd/Frame.antt =====
-- The seven displays together: the display calls of src/clock.c, made through src/lcd.c's driver, and
-- the pictures that they amount to.
use picow_day_clock.Base.{
  ℕ, ◌+◌, ◌≤◌, ◌<◌, ◌≡◌, ◌≢◌, refl, ap, ◌∙◌, false, List, [], ◌∷◌, ◌++◌, Option, none, some, arith,
  ◌==◌, if◌then◌else◌, Bool-cases, inl, inr,
}
use picow_day_clock.Clock
use picow_day_clock.Clock.{Color, black, red, green, cyan}
use picow_day_clock.Lcd
use picow_day_clock.Lcd.{Driver, lcd_width, lcd_height, lcd_clear_screen}
use picow_day_clock.Lcd.Setup.{lcd_pins}
use picow_day_clock.Lcd.Image.{
  Font, Icons, unprintable, lcd_print_clock_digit, icon_size, watchdog_icon_x_offset,
  ntp_icon_x_offset, wifi_icon_x_offset, watchdog_case, ntp_case, wifi_case, lcd_update_icons,
}
use picow_day_clock.Lcd.Text.{lcd_print_line}
use picow_day_clock.Lcd.Panel.{Panel, watch, pixel}
use picow_day_clock.Lcd.Paint.{
  Mark, Fits, over, drawing, pixel-drawing, watch-passes, all_pass-drawing,
}
use picow_day_clock.Lcd.Draws.{rectangle, digit_mark}
use picow_day_clock.Lcd.Bitmap.{image_mark}

-- `color_t` as a number.
abbrev pub color_code : Color → ℕ
color_code black = 0
color_code red = 1
color_code green = 2
color_code cyan = 3

-- The bitmaps that the build generates.
pub record Bitmaps : Type 0 where
  pub text_font : Font
  pub clock_digit_font : Font
  pub icons : Icons

-- A display call of src/clock.c. The clock clears to black, and its icons and lines are on display 0.
unfoldable pub draw : Bitmaps → Driver → Clock.Effect → Driver × List Lcd.Effect
draw b d (Clock.lcd_clear_screen n) = lcd_clear_screen d (lcd_pins n) 0
draw b d (Clock.lcd_print_clock_digit n color c) =
    lcd_print_clock_digit b.clock_digit_font d (lcd_pins n) (color_code color) c
draw b d (Clock.lcd_update_icons watchdog ntp wifi) =
    lcd_update_icons b.icons d (lcd_pins 0) watchdog ntp wifi
draw b d (Clock.lcd_print_line color msg) =
    lcd_print_line b.text_font d (lcd_pins 0) (color_code color) msg
draw b d _ = (d, [])

unfoldable pub draw_effects : Bitmaps → Driver → List Clock.Effect → Driver × List Lcd.Effect
draw_effects b d [] = (d, [])
draw_effects b d (e ∷ es) =
    let here = draw b d e in let rest = draw_effects b here.0 es in (rest.0, here.1 ++ rest.1)

-- The fonts have room on a display: no glyph is empty, wider than it or higher.
pub record FontFits (f : Font) : Type 0 where
  pub some_width : (i : ℕ) → 0 < (f.table i).width
  pub width : (i : ℕ) → (f.table i).width ≤ lcd_width
  pub some_height : 0 < f.height
  pub height : f.height ≤ lcd_height

-- A picture for each display.
abbrev pub Pictures : Type 0
Pictures = ℕ → ℕ → ℕ → ℕ

abbrev pub paint : ℕ → Mark → Pictures → Pictures
paint n k pics m = if m == n then over k (pics m) else pics m

abbrev pub icon_case_mark : Option ((ℕ → ℕ) × ℕ) → ℕ → Pictures → Pictures
icon_case_mark none x pics = pics
icon_case_mark (some (icon, color)) x pics =
    paint 0 (image_mark icon x 0 icon_size icon_size color) pics

-- What a call does to the pictures.
abbrev pub repaint : Bitmaps → Clock.Effect → Pictures → Pictures
repaint b (Clock.lcd_clear_screen n) pics = paint n (rectangle 0 0 lcd_width lcd_height 0) pics
repaint b (Clock.lcd_print_clock_digit n color c) pics =
    paint n (digit_mark b.clock_digit_font (color_code color) c) pics
repaint b (Clock.lcd_update_icons watchdog ntp wifi) pics =
    icon_case_mark (wifi_case b.icons wifi) wifi_icon_x_offset (
      icon_case_mark (ntp_case b.icons ntp) ntp_icon_x_offset
        (icon_case_mark (watchdog_case b.icons watchdog) watchdog_icon_x_offset pics))
repaint b _ pics = pics

abbrev pub repaint_all : Bitmaps → List Clock.Effect → Pictures → Pictures
repaint_all b [] pics = pics
repaint_all b (e ∷ es) pics = repaint_all b es (repaint b e pics)

-- Calls that this covers: digits that the font has, on displays that there are, and no status line.
abbrev pub Drawable : Clock.Effect → Type 0
Drawable (Clock.lcd_clear_screen n) = n < 7
Drawable (Clock.lcd_print_clock_digit n color c) = (n < 7) × (unprintable c ≡ false)
Drawable (Clock.lcd_print_line color msg) = ⊥
Drawable _ = Unit

abbrev pub AllDrawable : List Clock.Effect → Type 0
AllDrawable [] = Unit
AllDrawable (e ∷ es) = Drawable e × AllDrawable es

-- The seven displays, none of them selected, show the pictures.
pub record Shows (panels : ℕ → Panel) (pics : Pictures) : Type 0 where
  pub idle : (m : ℕ) → m < 7 → (panels m).selected ≡ false
  pub picture : (m c r : ℕ) → m < 7 → pixel (panels m) c r ≡ pics m c r

-- All displays see all transfers.
abbrev pub watch_all : List Lcd.Effect → (ℕ → Panel) → ℕ → Panel
watch_all es panels m = watch (2 + m) es (panels m)

module _ (n : ℕ) (k : Mark) (p : Panel) (lcd : n < 7) where
  -- One rectangle on display `n`, as display `m` sees it.
  watch-drawing_of :
      (m : ℕ) (pic : ℕ → ℕ → ℕ)
      → Fits k
      → p.selected ≡ false
      → (m < 7 → (c r : ℕ) → pixel p c r ≡ pic c r)
      → let q = watch (2 + m) (drawing n k) p in
        (q.selected ≡ false)
        × (m < 7 → (c r : ℕ) → pixel q c r ≡ (if m == n then over k pic else pic) c r)
  watch-drawing_of m pic fits idle same = elim (Bool-cases (m == n)) [
    | inl e ↦
        let here : m ≡ n = ground (arith, e) in
        let one = pixel-drawing n k p lcd fits in
        rw (e, here) (one.0, λ lt c r. one.1 c r ∙ rw (same (omega (arith, lt, here)) c r) refl)
    | inr e ↦
        let apart : m ≢ n = ground (arith, e) in
        let kept = watch-passes (2 + m) (drawing n k) p (all_pass-drawing m n k lcd apart) idle in
        rw e (kept.0, λ lt c r. ap (λ f. f (c + 34) r) kept.1 ∙ same lt c r)
  ]

pub Shows-drawing :
    (n : ℕ) (k : Mark) (panels : ℕ → Panel) (pics : Pictures)
    → n < 7
    → Fits k
    → Shows panels pics
    → Shows (watch_all (drawing n k) panels) (paint n k pics)
Shows-drawing n k panels pics lcd fits s =
    let of : (m : ℕ) → m < 7 → _ = λ m small.
      watch-drawing_of n k (panels m) lcd m (pics m) fits (s.idle m small)
        (λ lt c r. s.picture m c r lt) in
    record { idle = λ m lt. (of m lt).0; picture = λ m c r lt. (of m lt).1 lt c r }
