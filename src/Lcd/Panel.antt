-- ===== src/Lcd/Panel.antt =====
-- What a display makes of the bus, as far as src/lcd.c relies on it: chip select, the data/command
-- pin, the column and row ranges (CASET, RASET), and memory writes (RAMWR) that fill the window that
-- the ranges span, line by line, two bytes to a pixel. This is the view against which the driver is
-- specified; it models no code of the repository.
use picow_day_clock.Base.{
  ℕ, ◌+◌, ◌*◌, Bool, not, List, [], ◌∷◌, ◌++◌, Option, none, some, ◌==◌, if◌then◌else◌, ◌≡◌, refl,
}
use picow_day_clock.Lcd.{Effect, gpio_put, spi_write_blocking}

-- `memory` is the picture: a colour for each column and row. `half` is the first byte of a pixel
-- whose second has not come.
pub record Panel : Type 0 where
  pub selected : Bool
  pub data_mode : Bool
  pub register : ℕ
  pub params : List ℕ
  pub first_column : ℕ
  pub last_column : ℕ
  pub first_row : ℕ
  pub last_row : ℕ
  pub column : ℕ
  pub row : ℕ
  pub half : Option ℕ
  pub memory : ℕ → ℕ → ℕ

abbrev pub update : (ℕ → ℕ → ℕ) → ℕ → ℕ → ℕ → ℕ → ℕ → ℕ
update m c r v c' r' = if c' == c then (if r' == r then v else m c' r') else m c' r'

-- Past the last column comes the next row, and past the last row the first.
abbrev pub advance : Panel → Panel
advance p =
    if p.column == p.last_column
    then record p {
      column = p.first_column;
      row = if p.row == p.last_row then p.first_row else p.row + 1;
    }
    else record p { column = p.column + 1 }

abbrev pub write_byte : Panel → ℕ → Panel
write_byte p b = elim p.half [
  | none ↦ record p { half = some b }
  | some a ↦
      advance (record p { half = none; memory = update p.memory p.column p.row (a * 256 + b) })
]

-- The fourth parameter of a range sets it.
abbrev pub columns : Panel → List ℕ → ℕ → Panel
columns p (a ∷ b ∷ c ∷ []) d = record p {
  first_column = a * 256 + b;
  last_column = c * 256 + d;
  params = [];
}
columns p ps d = record p { params = ps ++ (d ∷ []) }

abbrev pub rows : Panel → List ℕ → ℕ → Panel
rows p (a ∷ b ∷ c ∷ []) d = record p {
  first_row = a * 256 + b;
  last_row = c * 256 + d;
  params = [];
}
rows p ps d = record p { params = ps ++ (d ∷ []) }

abbrev pub data_byte : Panel → ℕ → Panel
data_byte p b =
    if p.register == 0x2C
    then write_byte p b
    else if p.register == 0x2A
    then columns p p.params b
    else if p.register == 0x2B
    then rows p p.params b
    else p

abbrev pub command_byte : Panel → ℕ → Panel
command_byte p b = record p {
  register = b;
  params = [];
  half = none;
  column = if b == 0x2C then p.first_column else p.column;
  row = if b == 0x2C then p.first_row else p.row;
}

unfoldable pub feed : Panel → List ℕ → Panel
feed p [] = p
feed p (b ∷ bs) = feed (if p.data_mode then data_byte p b else command_byte p b) bs

-- The display whose chip select is `cs`. The data/command pin is 14.
abbrev pub see : ℕ → Effect → Panel → Panel
see cs (gpio_put pin level) p =
    if pin == 14
    then record p { data_mode = level }
    else if pin == cs
    then record p { selected = not level }
    else p
see cs (spi_write_blocking bytes) p = if p.selected then feed p bytes else p
see cs _ p = p

unfoldable pub watch : ℕ → List Effect → Panel → Panel
watch cs [] p = p
watch cs (e ∷ es) p = watch cs es (see cs e p)

pub watch-append :
    (cs : ℕ) (es fs : List Effect) (p : Panel) → watch cs (es ++ fs) p ≡ watch cs fs (watch cs es p)
unfolding watch
watch-append cs [] fs p = refl
watch-append cs (e ∷ es) fs p = watch-append cs es fs (see cs e p)

-- The pixel of the display at a column and row of its own 172 x 320.
abbrev pub pixel : Panel → ℕ → ℕ → ℕ
pixel p x y = p.memory (x + 34) y
