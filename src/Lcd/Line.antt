-- ===== src/Lcd/Line.antt =====
-- Where the status lines of src/lcd.c stand: the characters that `lcd_print_line` draws.
use picow_day_clock.Base.{
  ℕ, ◌+◌, ◌-◌, ◌*◌, ◌%◌, ◌^◌, ◌≤◌, ◌≡◌, refl, ◌∙◌, Bool, true, false, List, [], ◌∷◌, ◌++◌, arith,
  ltb, length, ◌⊎◌, inl, inr, Bool-cases, ◌||◌, if◌then◌else◌,
}
use picow_day_clock.Clock.{
  Message, init_ok_message, flash_error_message, wifi_error_message, wifi_ok_message,
}
use picow_day_clock.Lcd.{Effect, Driver, lcd_width, lcd_height}
use picow_day_clock.Lcd.Setup.{lcd_pins}
use picow_day_clock.Lcd.Image.{Font, unprintable, lcd_write_char}
use picow_day_clock.Lcd.Text.{message_text, print_chars, lcd_print_line}
use picow_day_clock.Lcd.Printable.{Printable}
use picow_day_clock.Lcd.Paint.{drawing}
use picow_day_clock.Lcd.Draws.{glyph_mark, lcd_write_char-Draws}

-- A font that is no larger than a display, with glyphs of `narrow` to `wide` columns.
pub record Widths (font : Font) (narrow wide : ℕ) : Type 0 where
  pub least : (i : ℕ) → narrow ≤ (font.table i).width
  pub most : (i : ℕ) → (font.table i).width ≤ wide
  pub columns : wide ≤ lcd_width
  pub rows : font.height ≤ lcd_height

-- A character stands at a place, on the next line, or in the first column of the first one.
abbrev pub Next : ℕ → ℕ → ℕ → ℕ → ℕ → Type 0
Next height x y x' y' =
    ((x' ≡ x) × (y' ≡ y)) ⊎ (((x' ≡ 0) × (y' ≡ y + height)) ⊎ ((x' ≡ 0) × (y' ≡ 0)))

-- A text that is drawn on display `n` from a place on, each character beside the one before or on a
-- new line, no further right than `limit` columns and no lower than the display.
pub data Placed (font : Font) (n color limit : ℕ) : ℕ → ℕ → List ℕ → List Effect → Type 0 where
  done : {x y : ℕ} → Placed font n color limit x y [] []
  place :
      {x y : ℕ} (x' y' c : ℕ) {cs : List ℕ} {es : List Effect}
      → Next font.height x y x' y'
      → x' + (font.table (c - b' ')).width ≤ limit
      → y' + font.height ≤ lcd_height
      → Placed font n color limit (x' + (font.table (c - b' ')).width) y' cs es
      → Placed font n color limit x y (c ∷ cs) (drawing n (glyph_mark font x' y' c color 0) ++ es)

-- Before the first character nothing was drawn; before the others, the line fits.
abbrev Before : Font → ℕ → ℕ → ℕ → ℕ → Type 0
Before font narrow x y prev =
    ((x ≡ 0) × (prev ≡ 0)) ⊎ ((narrow ≤ prev) × (y + font.height ≤ lcd_height))

-- The place of the next character, from the two tests of the loop.
abbrev column : Font → ℕ → ℕ → ℕ → ℕ
column font x y prev =
    let wraps = ltb lcd_width (x + prev) in
    let y₁ = if wraps then (y + font.height) % 2 ^ 16 else y in
    if ltb lcd_height (y₁ + font.height) then 0 else (if wraps then 0 else x)

abbrev row : Font → ℕ → ℕ → ℕ → ℕ
row font x y prev =
    let y₁ = if ltb lcd_width (x + prev) then (y + font.height) % 2 ^ 16 else y in
    if ltb lcd_height (y₁ + font.height) then 0 else y₁

row_fits :
    (font : Font) (x y prev : ℕ)
    → font.height ≤ lcd_height
    → row font x y prev + font.height ≤ lcd_height
row_fits font x y prev h = ground arith

column_fits :
    (font : Font) (narrow wide x y prev : ℕ)
    → Widths font narrow wide
    → Before font narrow x y prev
    → column font x y prev + wide ≤ lcd_width + (wide - narrow)
column_fits font narrow wide x y prev f (inl first) =
    let columns = f.columns in
    let least = f.least 0 in let most = f.most 0 in let start = first.0 in ground arith
column_fits font narrow wide x y prev f (inr (before, fits)) =
    let columns = f.columns in let least = f.least 0 in let most = f.most 0 in ground arith

-- A line that wraps is on the display.
wrap_fits :
    (font : Font) (narrow x y prev : ℕ)
    → font.height ≤ lcd_height
    → Before font narrow x y prev
    → ltb lcd_width (x + prev) ≡ true
    → (y + font.height) % 2 ^ 16 ≡ y + font.height
wrap_fits font narrow x y prev h (inl first) wraps =
    let e = first.0 in let e' = first.1 in absurd (ground arith)
wrap_fits font narrow x y prev h (inr (before, fits)) wraps = omega (arith, fits)

column-row-Next :
    (font : Font) (narrow x y prev : ℕ)
    → font.height ≤ lcd_height
    → Before font narrow x y prev
    → Next font.height x y (column font x y prev) (row font x y prev)
column-row-Next font narrow x y prev h before = elim (Bool-cases (ltb lcd_width (x + prev))) [
  | inl wraps ↦
      let same = wrap_fits font narrow x y prev h before wraps in
      elim (Bool-cases (ltb lcd_height (y + font.height + font.height))) [
        | inl past ↦ rw (wraps, same, past) (inr (inr (refl, refl)))
        | inr past ↦ rw (wraps, same, past) (inr (inl (refl, refl)))
      ]
  | inr wraps ↦ elim (Bool-cases (ltb lcd_height (y + font.height))) [
    | inl past ↦ rw (wraps, past) (inr (inr (refl, refl)))
    | inr past ↦ rw (wraps, past) (inl (refl, refl))
  ]
]

print_chars-Placed :
    (font : Font) (narrow wide n color : ℕ) (d : Driver) (x y prev : ℕ) (cs : List ℕ)
    → Widths font narrow wide
    → Printable cs
    → lcd_width * 2 ≤ length d.linebuf
    → Before font narrow x y prev
    → let r = print_chars font (lcd_pins n) color d x y prev cs in
      Placed font n color (lcd_width + (wide - narrow)) x y cs r.1
      × (length r.0.linebuf ≡ length d.linebuf)
unfolding print_chars
print_chars-Placed font narrow wide n color d x y prev [] f p buf before = (done, refl)
print_chars-Placed font narrow wide n color d x y prev (c ∷ cs) f p buf before =
    let w = (font.table (c - b' ')).width in
    let least = f.least (c - b' ') in
    let most = f.most (c - b' ') in
    let columns = f.columns in
    let x' = column font x y prev in
    let y' = row font x y prev in
    let right = column_fits font narrow wide x y prev f before in
    let low = row_fits font x y prev f.rows in
    let written = lcd_write_char d (lcd_pins n) x' y' c font color 0 in
    let drawn =
      lcd_write_char-Draws n d x' y' c font color 0 p.0 (omega (arith, most, columns, buf)) in
    let small : (x' + w) % 2 ^ 16 ≡ x' + w = omega (arith, right, most, columns) in
    let rest =
      print_chars-Placed font narrow wide n color written.1 (x' + w) y' w cs f p.1
        (omega (arith, buf, drawn.1.buffer)) (inr (least, low)) in
    let next = column-row-Next font narrow x y prev f.rows before in
    rw (drawn.0, small, drawn.1.sent)
      (place x' y' c next (omega (arith, right, most)) low rest.0, rest.1 ∙ drawn.1.buffer)

abbrev any_unprintable : List ℕ → Bool
any_unprintable [] = false
any_unprintable (c ∷ cs) = unprintable c || any_unprintable cs

any_unprintable-false : (cs : List ℕ) → any_unprintable cs ≡ false → Printable cs
any_unprintable-false [] h = tt
any_unprintable-false (c ∷ cs) h =
    let here : unprintable c ≡ false = ground arith in
    let later : any_unprintable cs ≡ false = ground arith in (here, any_unprintable-false cs later)

message_text-Printable : (msg : Message) → Printable (message_text msg)
message_text-Printable init_ok_message = any_unprintable-false (message_text init_ok_message) refl
message_text-Printable flash_error_message =
    any_unprintable-false (message_text flash_error_message) refl
message_text-Printable wifi_error_message =
    any_unprintable-false (message_text wifi_error_message) refl
message_text-Printable wifi_ok_message = any_unprintable-false (message_text wifi_ok_message) refl

-- A status line stands on the display. With a font that is no larger than a display, the driver's
-- transfers for a message are rectangles with its characters in order, from the first column of its
-- line on: each beside the one before, or at the start of the next line, or of the display. If
-- `linebuf` has a line, none reaches below the display, and none past its right edge by more columns
-- than `wide` exceeds `narrow`, so that a font of one width stays on the display; `linebuf` keeps its
-- size.
pub lcd_print_line-Placed :
    (font : Font) (narrow wide n color : ℕ) (d : Driver) (msg : Message)
    → Widths font narrow wide
    → lcd_width * 2 ≤ length d.linebuf
    → let r = lcd_print_line font d (lcd_pins n) color msg in
      Placed font n color
        (lcd_width + (wide - narrow))
        0
        ((d.line_number + 3) * font.height % 2 ^ 16)
        (message_text msg)
        r.1
      × (length r.0.linebuf ≡ length d.linebuf)
unfolding lcd_print_line
lcd_print_line-Placed font narrow wide n color d msg f buf =
    let printed =
      print_chars-Placed font narrow wide n color d 0 ((d.line_number + 3) * font.height % 2 ^ 16) 0
        (message_text msg) f (message_text-Printable msg) buf (inl (refl, refl)) in
    (printed.0, printed.1)
