-- ===== src/Lcd/Bitmap.antt =====
-- Images: the nested loops of src/lcd.c's `lcd_write_image` over bytes and bits fill a line as one loop
-- over its columns does.
use picow_day_clock.Base.{
  ℕ, zero, suc, ◌+◌, ◌-◌, ◌*◌, ◌/◌, ◌%◌, ◌≤◌, ◌≡◌, refl, sym, ap, ap₂, ◌∙◌, true, false, List, ◌∷◌,
  arith, ltb, length, get_or, min, if◌then◌else◌, Bool-cases, ◌⊎◌, inl, inr, leb,
}
use picow_day_clock.Lcd.{spi_write_blocking, Driver, color_table, put_pixel, fill_line}
use picow_day_clock.Lcd.Setup.{lcd_pins}
use picow_day_clock.Lcd.Image.{bit_set, image_bits, image_bytes, image_lines, lcd_write_image}
use picow_day_clock.Lcd.Rows.{line_bytes, length-fill_line, line_sent, send_rows}
use picow_day_clock.Lcd.Paint.{Mark, drawing}
use picow_day_clock.Lcd.Draws.{Draws}

-- The colour of a column of the image row at `ptr`.
abbrev pub image_color : (ℕ → ℕ) → ℕ → ℕ → ℕ → ℕ
image_color image fg ptr column =
    get_or color_table (if bit_set (image (ptr + column / 8)) (column % 8) then fg else 0) 0

-- The bits of a byte, from `bit` on: the columns of the line that the byte has.
image_bits_lem :
    (rounds bit idx : ℕ) (image : ℕ → ℕ) (ptr xs w fg : ℕ) (buf : List ℕ)
    → rounds + bit ≡ 8
    → image_bits rounds bit (image (ptr + idx)) idx xs w fg buf
      ≡ fill_line (min rounds (w - (idx * 8 + bit))) (idx * 8 + bit) (image_color image fg ptr) buf
unfolding image_bits fill_line
image_bits_lem zero bit idx image ptr xs w fg buf h =
    let e : min 0 (w - (idx * 8 + bit)) ≡ 0 = omega arith in rw e refl
image_bits_lem (suc rounds) bit idx image ptr xs w fg buf h =
    let x = idx * 8 + bit in
    let next : idx * 8 + suc bit ≡ suc x = omega arith in
    let back : xs + idx * 8 + bit - xs ≡ x = omega arith in
    let byte : x / 8 ≡ idx = omega arith in
    let place : x % 8 ≡ bit = omega arith in
    let color : image_color image fg ptr x
        ≡ get_or color_table (if bit_set (image (ptr + idx)) bit then fg else 0) 0 =
      rw (byte, place) refl in
    let rest = rw next at (image_bits_lem rounds (suc bit) idx image ptr xs w fg) in
    elim (Bool-cases (ltb x w)) [
      | inl e ↦
          let inside : ltb (xs + idx * 8 + bit) (xs + w) ≡ true = ground (arith, e) in
          let more : min (suc rounds) (w - x) ≡ suc (min rounds (w - suc x)) = ground (arith, e) in
          rw (inside, more, back)
            (rest _ (omega arith)
              ∙ ap
                  (λ v.
                    fill_line (min rounds (w - suc x)) (suc x) (image_color image fg ptr)
                      (put_pixel buf x v))
                  (sym color))
      | inr e ↦
          let outside : ltb (xs + idx * 8 + bit) (xs + w) ≡ false = ground (arith, e) in
          let none_here : min (suc rounds) (w - x) ≡ 0 = ground (arith, e) in
          let none_after : min rounds (w - suc x) ≡ 0 = ground (arith, e) in
          rw (outside, none_here) (rw none_after at (rest buf (omega arith)))
    ]

fill_line-append :
    (m n x : ℕ) (value : ℕ → ℕ) (buf : List ℕ)
    → fill_line n (x + m) value (fill_line m x value buf) ≡ fill_line (m + n) x value buf
unfolding fill_line
fill_line-append zero n x value buf =
    let e : x + 0 ≡ x = omega arith in let e' : 0 + n ≡ n = omega arith in rw (e, e') refl
fill_line-append (suc m) n x value buf =
    let e : x + suc m ≡ suc x + m = omega arith in
    let e' : suc m + n ≡ suc (m + n) = omega arith in
    rw (e, e') (fill_line-append m n (suc x) value (put_pixel buf x (value x)))

-- A line of no columns starts anywhere.
fill_line_from :
    (n x x' : ℕ) (value : ℕ → ℕ) (buf : List ℕ)
    → (n ≡ 0) ⊎ (x ≡ x')
    → fill_line n x value buf ≡ fill_line n x' value buf
unfolding fill_line
fill_line_from n x x' value buf (inl e) = rw e refl
fill_line_from n x x' value buf (inr e) = rw e refl

move_or_none :
    (rounds idx w : ℕ)
    → (min (rounds * 8) (w - suc idx * 8) ≡ 0) ⊎ (suc idx * 8 ≡ idx * 8 + min 8 (w - idx * 8))
move_or_none rounds idx w = elim (Bool-cases (leb (suc idx * 8) w)) [
  | inl e ↦ inr (ground (arith, e))
  | inr e ↦ inl (ground (arith, e))
]

-- The bytes of a row from one on: the columns that they have.
image_bytes_lem :
    (rounds idx : ℕ) (image : ℕ → ℕ) (ptr xs w fg : ℕ) (buf : List ℕ)
    → image_bytes rounds idx image (ptr + idx) xs w fg buf
      ≡ fill_line (min (rounds * 8) (w - idx * 8)) (idx * 8) (image_color image fg ptr) buf
unfolding image_bytes fill_line
image_bytes_lem zero idx image ptr xs w fg buf =
    let e : min (0 * 8) (w - idx * 8) ≡ 0 = omega arith in rw e refl
image_bytes_lem (suc rounds) idx image ptr xs w fg buf =
    let x = idx * 8 in
    let value = image_color image fg ptr in
    let start : x + 0 ≡ x = omega arith in
    let bits = rw start at (image_bits_lem 8 0 idx image ptr xs w fg buf (omega arith)) in
    let at : ptr + suc idx ≡ suc (ptr + idx) = omega arith in
    let here = fill_line (min 8 (w - x)) x value buf in
    let rest = rw at at (image_bytes_lem rounds (suc idx) image ptr xs w fg here) in
    let join = fill_line-append (min 8 (w - x)) (min (rounds * 8) (w - suc idx * 8)) x value buf in
    let total : min 8 (w - x) + min (rounds * 8) (w - suc idx * 8) ≡ min (suc rounds * 8) (w - x) =
      omega arith in
    let move =
      fill_line_from (min (rounds * 8) (w - suc idx * 8)) (suc idx * 8) (x + min 8 (w - x)) value
        here (move_or_none rounds idx w) in
    rw bits (rest ∙ move ∙ rw total at join)

-- The line of an image.
image_line :
    (image : ℕ → ℕ) (ptr xs w fg : ℕ) (buf : List ℕ)
    → image_bytes ((w + 7) / 8) 0 image ptr xs w fg buf
      ≡ fill_line w 0 (image_color image fg ptr) buf
image_line image ptr xs w fg buf =
    let at : ptr + 0 ≡ ptr = omega arith in
    let all : min ((w + 7) / 8 * 8) (w - 0) ≡ w = omega arith in
    rw (at, all) at (image_bytes_lem ((w + 7) / 8) 0 image ptr xs w fg buf)

image_lines_lem :
    (rounds y : ℕ) (image : ℕ → ℕ) (ptr xs w fg : ℕ) (buf : List ℕ)
    → ptr ≡ y * ((w + 7) / 8)
    → w * 2 ≤ length buf
    → let r = image_lines rounds ((w + 7) / 8) image ptr xs w fg buf in
      (r.1 ≡ send_rows rounds y w (λ row. image_color image fg (row * ((w + 7) / 8))))
      × (length r.0 ≡ length buf)
unfolding image_lines send_rows
image_lines_lem zero y image ptr xs w fg buf e fits = (refl, refl)
image_lines_lem (suc rounds) y image ptr xs w fg buf e fits =
    let per_row = (w + 7) / 8 in
    let line = fill_line w 0 (image_color image fg ptr) buf in
    let same : length line ≡ length buf = length-fill_line w 0 (image_color image fg ptr) buf in
    let rest =
      image_lines_lem rounds (suc y) image (ptr + per_row) xs w fg line (omega (arith, e))
        (omega (arith, same)) in
    let one = line_sent w (image_color image fg ptr) buf fits in
    rw (image_line image ptr xs w fg buf) (
      ap₂ (λ l ls. spi_write_blocking l ∷ ls)
          (one ∙ ap (λ q. line_bytes w 0 (image_color image fg q)) e) rest.0,
      rest.1 ∙ same,
    )

abbrev pub image_mark : (ℕ → ℕ) → ℕ → ℕ → ℕ → ℕ → ℕ → Mark
image_mark image x y w h fg = record {
  x = x;
  y = y;
  width = w;
  height = h;
  value = λ row. image_color image fg (row * ((w + 7) / 8));
}

pub lcd_write_image-Draws :
    (n : ℕ) (d : Driver) (image : ℕ → ℕ) (x y w h fg : ℕ)
    → w * 2 ≤ length d.linebuf
    → Draws n d (image_mark image x y w h fg) (lcd_write_image d (lcd_pins n) image x y w h fg)
unfolding lcd_write_image drawing
lcd_write_image-Draws n d image x y w h fg fits =
    let lines = image_lines_lem h 0 image 0 x w fg d.linebuf (omega arith) fits in
    record { sent = rw lines.0 refl; buffer = lines.1 }
