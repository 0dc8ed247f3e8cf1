-- ===== src/Lcd/Window.antt =====
-- What a display makes of src/lcd.c's `st7789_set_command_windows`.
use picow_day_clock.Base.{
  suc, ℕ, ◌+◌, ◌*◌, ◌/◌, ◌%◌, ◌^◌, ◌<◌, ◌≡◌, refl, sym, ap, ◌∙◌, Bool, true, false, List, [], ◌++◌,
  Option, none, arith, ◌==◌,
}
use picow_day_clock.Lcd.{
  st7789_command, st7789_data_byte, send_range, before, st7789_set_command_windows, begin_data,
  end_data,
}
use picow_day_clock.Lcd.Setup.{lcd_pins}
use picow_day_clock.Lcd.Panel.{watch-append, Panel, command_byte, feed, watch}
use picow_day_clock.Lcd.Rows.{writing, send_rows, watch-send_rows, lines_on}

-- A display that is not selected.
abbrev waiting :
    (reg : ℕ) (ps : List ℕ) (c₀ c₁ r₀ r₁ c r : ℕ) → Option ℕ → Bool → (ℕ → ℕ → ℕ) → Panel
waiting reg ps c₀ c₁ r₀ r₁ c r half mode m = record {
  selected = false;
  data_mode = mode;
  register = reg;
  params = ps;
  first_column = c₀;
  last_column = c₁;
  first_row = r₀;
  last_row = r₁;
  column = c;
  row = r;
  half = half;
  memory = m;
}

module _ (n : ℕ) (lcd : n < 7) where
  pub watch-st7789_command :
      (b : ℕ) (p : Panel)
      → watch (2 + n) (st7789_command (lcd_pins n) b) p
        ≡ (record (command_byte p b) { selected = false; data_mode = false })
  unfolding watch st7789_command feed
  watch-st7789_command b p =
      let other : (2 + n == 14) ≡ false = ground arith in
      let same : (2 + n == 2 + n) ≡ true = ground arith in rw (other, same)

  -- The four bytes of a column range.
  watch-send_range_columns :
      (first last c₀ c₁ r₀ r₁ c r : ℕ) (half : Option ℕ) (mode : Bool) (m : ℕ → ℕ → ℕ)
      → watch
          (2 + n)
          (send_range (lcd_pins n) first last)
          (waiting 0x2A [] c₀ c₁ r₀ r₁ c r half mode m)
        ≡ (waiting 0x2A []
            (first / 2 ^ 8 % 2 ^ 8 * 256 + first % 2 ^ 8)
            (last / 2 ^ 8 % 2 ^ 8 * 256 + last % 2 ^ 8)
            r₀
            r₁
            c
            r
            half
            true
            m)
  unfolding send_range watch st7789_data_byte feed
  watch-send_range_columns first last c₀ c₁ r₀ r₁ c r half mode m =
      let other : (2 + n == 14) ≡ false = ground arith in
      let same : (2 + n == 2 + n) ≡ true = ground arith in rw (other, same)

  watch-send_range_rows :
      (first last c₀ c₁ r₀ r₁ c r : ℕ) (half : Option ℕ) (mode : Bool) (m : ℕ → ℕ → ℕ)
      → watch
          (2 + n)
          (send_range (lcd_pins n) first last)
          (waiting 0x2B [] c₀ c₁ r₀ r₁ c r half mode m)
        ≡ (waiting 0x2B [] c₀ c₁
            (first / 2 ^ 8 % 2 ^ 8 * 256 + first % 2 ^ 8)
            (last / 2 ^ 8 % 2 ^ 8 * 256 + last % 2 ^ 8)
            c
            r
            half
            true
            m)
  unfolding send_range watch st7789_data_byte feed
  watch-send_range_rows first last c₀ c₁ r₀ r₁ c r half mode m =
      let other : (2 + n == 14) ≡ false = ground arith in
      let same : (2 + n == 2 + n) ≡ true = ground arith in rw (other, same)

  watch-begin_data :
      (c₀ c₁ r₀ r₁ c r : ℕ) (mode : Bool) (m : ℕ → ℕ → ℕ)
      → watch (2 + n) (begin_data (lcd_pins n)) (waiting 0x2C [] c₀ c₁ r₀ r₁ c r none mode m)
        ≡ (writing c₀ c₁ r₀ r₁ c r m)
  unfolding watch
  watch-begin_data c₀ c₁ r₀ r₁ c r mode m =
      let other : (2 + n == 14) ≡ false = ground arith in
      let same : (2 + n == 2 + n) ≡ true = ground arith in rw (other, same)

  pub watch-end_data :
      (c₀ c₁ r₀ r₁ c r : ℕ) (m : ℕ → ℕ → ℕ)
      → watch (2 + n) (end_data (lcd_pins n)) (writing c₀ c₁ r₀ r₁ c r m)
        ≡ record (writing c₀ c₁ r₀ r₁ c r m) { selected = false }
  unfolding watch
  watch-end_data c₀ c₁ r₀ r₁ c r m =
      let other : (2 + n == 14) ≡ false = ground arith in
      let same : (2 + n == 2 + n) ≡ true = ground arith in rw (other, same)

  -- The window of a drawing: columns `x` to `x + w`, rows `y` to `y + h`, and the data after it.
  pub watch-window :
      (x y w h : ℕ) (p : Panel)
      → x + w + 35 < 2 ^ 16
      → y + h + 1 < 2 ^ 16
      → watch
          (2 + n)
          (st7789_set_command_windows (lcd_pins n) x y (suc w) (suc h) ++ begin_data (lcd_pins n))
          p
        ≡ writing (x + 34) (x + 34 + w) y (y + h) (x + 34) y p.memory
  unfolding st7789_set_command_windows
  watch-window x y w h p hx hy =
      let e₁ : (x + 34) / 2 ^ 8 % 2 ^ 8 * 256 + (x + 34) % 2 ^ 8 ≡ x + 34 = omega arith in
      let last₁ = before (x + suc w + 34) in
      let e₂ : last₁ / 2 ^ 8 % 2 ^ 8 * 256 + last₁ % 2 ^ 8 ≡ x + 34 + w = omega arith in
      let e₃ : y / 2 ^ 8 % 2 ^ 8 * 256 + y % 2 ^ 8 ≡ y = omega arith in
      let last₂ = before (y + suc h) in
      let e₄ : last₂ / 2 ^ 8 % 2 ^ 8 * 256 + last₂ % 2 ^ 8 ≡ y + h = omega arith in
      simp
        (
          watch-append, watch-st7789_command, watch-send_range_columns, watch-send_range_rows,
          watch-begin_data,
        )
        (rw (e₁, e₂, e₃, e₄))

-- After the drawing the display is not selected.
abbrev pub drawn : (x y w h : ℕ) → (ℕ → ℕ → ℕ) → Panel
drawn x y w h m = record (writing (x + 34) (x + 34 + w) y (y + h) (x + 34) y m) { selected = false }

module _ (n : ℕ) (lcd : n < 7) where
  -- A window, filled line by line.
  pub watch-drawing :
      (x y w h : ℕ) (value : ℕ → ℕ → ℕ) (p : Panel)
      → x + w + 35 < 2 ^ 16
      → y + h + 1 < 2 ^ 16
      → watch
          (2 + n)
          (st7789_set_command_windows (lcd_pins n) x y (suc w) (suc h)
            ++ (begin_data (lcd_pins n)
                ++ (send_rows (suc h) 0 (suc w) value ++ end_data (lcd_pins n))))
          p
        ≡ drawn x y w h (lines_on (suc h) (x + 34) y 0 (suc w) value p.memory)
  watch-drawing x y w h value p hx hy =
      let window = st7789_set_command_windows (lcd_pins n) x y (suc w) (suc h) in
      let start = begin_data (lcd_pins n) in
      let lines = send_rows (suc h) 0 (suc w) value in
      let finish = end_data (lcd_pins n) in
      let ready = writing (x + 34) (x + 34 + w) y (y + h) (x + 34) y p.memory in
      watch-append (2 + n) window (start ++ (lines ++ finish)) p
      ∙ watch-append (2 + n) start (lines ++ finish) (watch (2 + n) window p)
      ∙ ap (watch (2 + n) (lines ++ finish))
          (sym (watch-append (2 + n) window start p) ∙ watch-window n lcd x y w h p hx hy)
      ∙ watch-append (2 + n) lines finish ready
      ∙ ap (watch (2 + n) finish)
          (watch-send_rows (2 + n) (x + 34) (x + 34 + w) y (y + h) h y 0 w value p.memory refl refl)
      ∙ watch-end_data n lcd (x + 34) (x + 34 + w) y (y + h) (x + 34) y
          (lines_on (suc h) (x + 34) y 0 (suc w) value p.memory)
