-- ===== src/Lcd/Paint.antt =====
-- Pictures painted rectangle by rectangle, and what a display makes of the transfers of
-- src/lcd.c's drawing functions, whether they go to it or to another one.
use picow_day_clock.Base.{
  ℕ, zero, suc, ◌+◌, ◌-◌, ◌≤◌, ◌<◌, ◌≡◌, ◌≢◌, refl, ap, ◌∙◌, Bool, true, false, List, [], ◌∷◌, ◌++◌,
  arith, ◌==◌, ◌&&◌, not, if◌then◌else◌,
}
use picow_day_clock.Lcd.{
  Effect, gpio_put, spi_write_blocking, st7789_command, st7789_data_byte, send_range,
  st7789_set_command_windows, begin_data, end_data,
}
use picow_day_clock.Lcd.Setup.{lcd_pins}
use picow_day_clock.Lcd.Panel.{Panel, see, watch, pixel}
use picow_day_clock.Lcd.Rows.{inside, lines_on_at, send_rows}
use picow_day_clock.Lcd.Window.{watch-drawing}

-- A rectangle with a colour for each of its rows and columns.
pub record Mark : Type 0 where
  pub x : ℕ
  pub y : ℕ
  pub width : ℕ
  pub height : ℕ
  pub value : ℕ → ℕ → ℕ

-- It has pixels, and the display has them all.
pub record Fits (k : Mark) : Type 0 where
  pub some_width : 0 < k.width
  pub some_height : 0 < k.height
  pub columns : k.x + k.width ≤ 172
  pub rows : k.y + k.height ≤ 320

abbrev pub over : Mark → (ℕ → ℕ → ℕ) → ℕ → ℕ → ℕ
over k pic c r =
    if inside k.y k.height r && inside k.x k.width c then k.value (r - k.y) (c - k.x) else pic c r

-- The transfers that draw a rectangle on a display.
unfoldable pub drawing : ℕ → Mark → List Effect
drawing n k =
    st7789_set_command_windows (lcd_pins n) k.x k.y k.width k.height
    ++ (begin_data (lcd_pins n) ++ (send_rows k.height 0 k.width k.value ++ end_data (lcd_pins n)))

-- The display shows the rectangle over what it showed, and is not selected.
pixel-over :
    (n x y w h : ℕ) (value : ℕ → ℕ → ℕ) (p : Panel)
    → n < 7
    → let k : Mark = record { x = x; y = y; width = w; height = h; value = value } in
      let q = watch (2 + n) (drawing n k) p in
      Fits k → (q.selected ≡ false) × ((c r : ℕ) → pixel q c r ≡ over k (pixel p) c r)
unfolding drawing
pixel-over n x y zero h value p lcd fits = absurd (omega (arith, fits.some_width))
pixel-over n x y (suc w) zero value p lcd fits = absurd (omega (arith, fits.some_height))
pixel-over n x y (suc w) (suc h) value p lcd fits =
    let hx = fits.columns in
    let hy = fits.rows in
    let e = watch-drawing n lcd x y w h value p (omega arith) (omega arith) in
    (
      ap (λ (q : Panel). q.selected) e,
      λ c r.
          let at = lines_on_at (suc h) (x + 34) y 0 (suc w) value p.memory (c + 34) r in
          let shift : c + 34 - (x + 34) ≡ c - x = omega arith in
          let start : 0 + (r - y) ≡ r - y = omega arith in
          let columns : inside (x + 34) (suc w) (c + 34) ≡ inside x (suc w) c = ground arith in
          ap (λ (q : Panel). q.memory (c + 34) r) e ∙ at ∙ rw (shift, columns, start) refl,
    )

pub pixel-drawing :
    (n : ℕ) (k : Mark) (p : Panel)
    → n < 7
    → Fits k
    → let q = watch (2 + n) (drawing n k) p in
      (q.selected ≡ false) × ((c r : ℕ) → pixel q c r ≡ over k (pixel p) c r)
pixel-drawing n k p lcd fits = pixel-over n k.x k.y k.width k.height k.value p lcd fits

-- Nothing in a transfer selects the display at `cs`.
abbrev pub passes : ℕ → Effect → Bool
passes cs (gpio_put pin level) = if pin == 14 then true else not (pin == cs)
passes cs _ = true

abbrev pub all_pass : ℕ → List Effect → Bool
all_pass cs [] = true
all_pass cs (e ∷ es) = passes cs e && all_pass cs es

pub all_pass-append :
    (cs : ℕ) (es fs : List Effect) → all_pass cs (es ++ fs) ≡ (all_pass cs es && all_pass cs fs)
all_pass-append cs [] fs = refl
all_pass-append cs (e ∷ es) fs = ground (arith, all_pass-append cs es fs)

all_pass-send_rows : (cs n y w : ℕ) (value : ℕ → ℕ → ℕ) → all_pass cs (send_rows n y w value) ≡ true
unfolding send_rows
all_pass-send_rows cs zero y w value = refl
all_pass-send_rows cs (suc n) y w value = all_pass-send_rows cs n (suc y) w value

pub all_pass-drawing : (m n : ℕ) (k : Mark) → n < 7 → m ≢ n → all_pass (2 + m) (drawing n k) ≡ true
unfolding drawing st7789_set_command_windows st7789_command st7789_data_byte send_range
all_pass-drawing m n k lcd apart =
    let pin : (2 + n == 14) ≡ false = ground arith in
    let other : (2 + n == 2 + m) ≡ false = ground arith in
    simp (all_pass-append, all_pass-send_rows) (rw (pin, other) refl)

see-passes :
    (cs : ℕ) (e : Effect) (p : Panel)
    → passes cs e ≡ true
    → p.selected ≡ false
    → ((see cs e p).selected ≡ false) × ((see cs e p).memory ≡ p.memory)
see-passes cs (gpio_put pin level) p h u = ground arith
see-passes cs (spi_write_blocking bytes) p h u = rw u (refl, refl)
see-passes cs _ p h u = (u, refl)

and_left : (a b : Bool) → (a && b) ≡ true → a ≡ true
and_left a b h = ground arith

and_right : (a b : Bool) → (a && b) ≡ true → b ≡ true
and_right a b h = ground arith

-- A display that is not selected keeps its picture.
pub watch-passes :
    (cs : ℕ) (es : List Effect) (p : Panel)
    → all_pass cs es ≡ true
    → p.selected ≡ false
    → ((watch cs es p).selected ≡ false) × ((watch cs es p).memory ≡ p.memory)
unfolding watch
watch-passes cs [] p h u = (u, refl)
watch-passes cs (e ∷ es) p h u =
    let one = see-passes cs e p (and_left (passes cs e) (all_pass cs es) h) u in
    let rest = watch-passes cs es (see cs e p) (and_right (passes cs e) (all_pass cs es) h) one.0 in
    (rest.0, rest.1 ∙ one.1)
