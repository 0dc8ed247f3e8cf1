-- ===== src/Lcd/Rows.antt =====
-- Lines of pixels: what `fill_line` of src/lcd.c leaves in `linebuf`, and what a display makes of it.
use picow_day_clock.Base.{
  ltb, leb, ◌&&◌, ℕ, zero, suc, ◌+◌, ◌-◌, ◌*◌, ◌/◌, ◌%◌, ◌^◌, ◌≤◌, ◌<◌, ◌≡◌, refl, sym, ap, ◌∙◌,
  Bool, true, false, List, [], ◌∷◌, ◌++◌, none, arith, ◌==◌, length, take, set, length-set,
  if◌then◌else◌,
}
use mathlib.Core.List.{append-nil, append_assoc}
use picow_day_clock.Lcd.{Effect, spi_write_blocking, put_pixel, fill_line}
use picow_day_clock.Lcd.Panel.{watch, Panel, update, advance, feed}

-- The bytes of a line.
pub line_bytes : ℕ → ℕ → (ℕ → ℕ) → List ℕ
line_bytes zero x value = []
line_bytes (suc n) x value = value x / 2 ^ 8 ∷ value x % 2 ^ 8 ∷ line_bytes n (suc x) value

take-set-set :
    (n : ℕ) (buf : List ℕ) (a b : ℕ)
    → suc n < length buf
    → take (suc (suc n)) (set (set buf n a) (n + 1) b) ≡ take n buf ++ (a ∷ b ∷ [])
take-set-set n [] a b h = absurd (omega arith)
take-set-set n (c ∷ []) a b h = absurd (omega arith)
take-set-set zero (c ∷ d ∷ buf) a b h = refl
take-set-set (suc n) (c ∷ d ∷ buf) a b h =
    let e : suc n + 1 ≡ suc (n + 1) = omega arith in
    rw e (ap (λ l. c ∷ l) (take-set-set n (d ∷ buf) a b (omega arith)))

length-put_pixel : (buf : List ℕ) (x v : ℕ) → length (put_pixel buf x v) ≡ length buf
length-put_pixel buf x v =
    length-set (set buf (x * 2) (v / 2 ^ 8)) (x * 2 + 1) (v % 2 ^ 8)
    ∙ length-set buf (x * 2) (v / 2 ^ 8)

pub length-fill_line :
    (n x : ℕ) (value : ℕ → ℕ) (buf : List ℕ) → length (fill_line n x value buf) ≡ length buf
unfolding fill_line
length-fill_line zero x value buf = refl
length-fill_line (suc n) x value buf =
    length-fill_line n (suc x) value (put_pixel buf x (value x)) ∙ length-put_pixel buf x (value x)

-- The line from column `x` on follows what stood before it.
take-fill_line :
    (n x : ℕ) (value : ℕ → ℕ) (buf : List ℕ)
    → (x + n) * 2 ≤ length buf
    → take ((x + n) * 2) (fill_line n x value buf) ≡ take (x * 2) buf ++ line_bytes n x value
unfolding fill_line line_bytes
take-fill_line zero x value buf h =
    let e : (x + 0) * 2 ≡ x * 2 = omega arith in rw e (sym (append-nil (take (x * 2) buf)))
take-fill_line (suc n) x value buf h =
    let here = put_pixel buf x (value x) in
    let e : (x + suc n) * 2 ≡ (suc x + n) * 2 = omega arith in
    let next : suc x * 2 ≡ suc (suc (x * 2)) = omega arith in
    let same : length here ≡ length buf = length-put_pixel buf x (value x) in
    let line = line_bytes n (suc x) value in
    let rest : take ((suc x + n) * 2) (fill_line n (suc x) value here)
        ≡ take (suc x * 2) here ++ line =
      take-fill_line n (suc x) value here (omega (arith, same)) in
    let two : take (suc x * 2) here ≡ take (x * 2) buf ++ (value x / 2 ^ 8 ∷ value x % 2 ^ 8 ∷ []) =
      rw next (take-set-set (x * 2) buf (value x / 2 ^ 8) (value x % 2 ^ 8) (omega arith)) in
    rw e (
      rest
      ∙ ap (λ l. l ++ line) two
      ∙ append_assoc (take (x * 2) buf) (value x / 2 ^ 8 ∷ value x % 2 ^ 8 ∷ []) line)

-- From column 0 on: what `spi_write_blocking` sends.
pub line_sent :
    (width : ℕ) (value : ℕ → ℕ) (buf : List ℕ)
    → width * 2 ≤ length buf
    → take (width * 2) (fill_line width 0 value buf) ≡ line_bytes width 0 value
line_sent width value buf h =
    let e : (0 + width) * 2 ≡ width * 2 = omega arith in
    rw e at (take-fill_line width 0 value buf (omega arith))

-- The picture after a line of `n` pixels, from column `c` of row `r` on.
pub line_on : ℕ → ℕ → ℕ → ℕ → (ℕ → ℕ) → (ℕ → ℕ → ℕ) → ℕ → ℕ → ℕ
line_on zero c r x value m = m
line_on (suc n) c r x value m = line_on n (suc c) r (suc x) value (update m c r (value x))

-- A display that is ready for the pixels of a window.
abbrev pub writing : (c₀ c₁ r₀ r₁ column row : ℕ) → (ℕ → ℕ → ℕ) → Panel
writing c₀ c₁ r₀ r₁ column row m = record {
  selected = true;
  data_mode = true;
  register = 0x2C;
  params = [];
  first_column = c₀;
  last_column = c₁;
  first_row = r₀;
  last_row = r₁;
  column = column;
  row = row;
  half = none;
  memory = m;
}

module _ (c₀ c₁ r₀ r₁ : ℕ) where
  feed_pixel :
      (c r v : ℕ) (m : ℕ → ℕ → ℕ) (bs : List ℕ)
      → feed (writing c₀ c₁ r₀ r₁ c r m) (v / 2 ^ 8 ∷ v % 2 ^ 8 ∷ bs)
        ≡ feed (advance (writing c₀ c₁ r₀ r₁ c r (update m c r v))) bs
  unfolding feed
  feed_pixel c r v m bs =
      ap (λ k. feed (advance (writing c₀ c₁ r₀ r₁ c r (update m c r k))) bs) (omega arith)

  -- The pixels of a line up to its end, and the start of the next line.
  pub feed-line_bytes :
      (n c r x : ℕ) (value : ℕ → ℕ) (m : ℕ → ℕ → ℕ)
      → c + n ≡ c₁
      → feed (writing c₀ c₁ r₀ r₁ c r m) (line_bytes (suc n) x value)
        ≡ writing c₀ c₁ r₀ r₁ c₀ (if r == r₁ then r₀ else r + 1) (line_on (suc n) c r x value m)
  unfolding line_bytes line_on feed
  feed-line_bytes zero c r x value m h =
      let last : (c == c₁) ≡ true = ground arith in feed_pixel c r (value x) m [] ∙ rw last refl
  feed-line_bytes (suc n) c r x value m h =
      let more : (c == c₁) ≡ false = ground arith in
      let e : c + 1 ≡ suc c = omega arith in
      feed_pixel c r (value x) m (line_bytes (suc n) (suc x) value)
      ∙ rw (more, e)
          (feed-line_bytes n (suc c) r (suc x) value (update m c r (value x)) (omega arith))

-- The picture after `n` lines, from row `r` on, that start at column `c`. Line `y` has the colours
-- `value y`.
pub lines_on : ℕ → ℕ → ℕ → ℕ → ℕ → (ℕ → ℕ → ℕ) → (ℕ → ℕ → ℕ) → ℕ → ℕ → ℕ
lines_on zero c r y width value m = m
lines_on (suc n) c r y width value m =
    lines_on n c (suc r) (suc y) width value (line_on width c r 0 (value y) m)

abbrev pub inside : ℕ → ℕ → ℕ → Bool
inside first n k = leb first k && ltb k (first + n)

line_on_at :
    (n c r x : ℕ) (value : ℕ → ℕ) (m : ℕ → ℕ → ℕ) (c' r' : ℕ)
    → line_on n c r x value m c' r'
      ≡ (if r' == r && inside c n c' then value (x + (c' - c)) else m c' r')
unfolding line_on
line_on_at zero c r x value m c' r' = ground arith
line_on_at (suc n) c r x value m c' r' =
    ground (arith, line_on_at n (suc c) r (suc x) value (update m c r (value x)) c' r')

pub lines_on_at :
    (n c r y width : ℕ) (value : ℕ → ℕ → ℕ) (m : ℕ → ℕ → ℕ) (c' r' : ℕ)
    → lines_on n c r y width value m c' r'
      ≡ (if inside r n r' && inside c width c' then value (y + (r' - r)) (c' - c) else m c' r')
unfolding lines_on
lines_on_at zero c r y width value m c' r' = ground arith
lines_on_at (suc n) c r y width value m c' r' = ground (
  arith,
  lines_on_at n c (suc r) (suc y) width value (line_on width c r 0 (value y) m) c' r',
  line_on_at width c r 0 (value y) m c' r',
)

-- The transfers of `n` lines.
unfoldable pub send_rows : ℕ → ℕ → ℕ → (ℕ → ℕ → ℕ) → List Effect
send_rows zero y width value = []
send_rows (suc n) y width value =
    spi_write_blocking (line_bytes width 0 (value y)) ∷ send_rows n (suc y) width value

pub watch-send_rows :
    (cs c₀ c₁ r₀ r₁ n r y w : ℕ) (value : ℕ → ℕ → ℕ) (m : ℕ → ℕ → ℕ)
    → c₀ + w ≡ c₁
    → r + n ≡ r₁
    → watch cs (send_rows (suc n) y (suc w) value) (writing c₀ c₁ r₀ r₁ c₀ r m)
      ≡ writing c₀ c₁ r₀ r₁ c₀ r₀ (lines_on (suc n) c₀ r y (suc w) value m)
unfolding send_rows watch lines_on
watch-send_rows cs c₀ c₁ r₀ r₁ zero r y w value m hc hr =
    let last : (r == r₁) ≡ true = ground arith in
    rw (feed-line_bytes c₀ c₁ r₀ r₁ w c₀ r 0 (value y) m hc, last)
watch-send_rows cs c₀ c₁ r₀ r₁ (suc n) r y w value m hc hr =
    let more : (r == r₁) ≡ false = ground arith in
    let e : r + 1 ≡ suc r = omega arith in
    ap (watch cs (send_rows (suc n) (suc y) (suc w) value))
      (feed-line_bytes c₀ c₁ r₀ r₁ w c₀ r 0 (value y) m hc)
    ∙ rw (more, e)
        (watch-send_rows cs c₀ c₁ r₀ r₁ n (suc r) (suc y) w value
          (line_on (suc w) c₀ r 0 (value y) m) hc (omega arith))
