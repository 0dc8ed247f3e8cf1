-- ===== src/Lcd.antt =====
-- The display driver of src/lcd.c: the calls on the SPI bus and the pins, and what draws.
-- `linebuf` and `line_number` are the file's variables. Widths and heights are 16-bit numbers, and
-- sums of them are `int`: they do not wrap.
pub mod Setup
pub mod Image
pub mod Text
pub mod Line
pub mod Idle
pub mod Panel
pub mod Rows
pub mod Window
pub mod Paint
pub mod Frame
pub mod Simulate
pub mod Digits
pub mod Printable
pub mod Time
pub mod Pixels
pub mod Power
pub mod Init
pub mod Backlight
pub mod Draws
pub mod Bitmap
mod Examples
use picow_day_clock.Base.{
  ℕ, zero, suc, ◌+◌, ◌-◌, ◌*◌, ◌/◌, ◌%◌, ◌^◌, Bool, true, false, List, [], ◌∷◌, ◌++◌, get_or, set,
  take, replicate, ltb, leb, ◌==◌, ◌||◌, if◌then◌else◌,
}

-- The pins of `lcd_state_t`, and the state of the backlight sensor. Its `width` and `height` are not
-- used.
pub record LcdState : Type 0 where
  pub rst_n_gpio : ℕ
  pub dc_gpio : ℕ
  pub bl_gpio : ℕ
  pub cs_n_gpio : ℕ
  pub clk_gpio : ℕ
  pub mosi_gpio : ℕ
  pub smoothed_adc : ℕ

pub data GpioFunction : Type 0 where
  spi_function pwm_function : GpioFunction

-- Calls of the SDK.
pub data Effect : Type 0 where
  gpio_init gpio_set_dir_out : (pin : ℕ) → Effect
  gpio_set_function : (pin : ℕ) → GpioFunction → Effect
  gpio_put : (pin : ℕ) → Bool → Effect
  spi_init : (baud : ℕ) → Effect
  spi_write_blocking : List ℕ → Effect
  sleep_ms : ℕ → Effect
  pwm_set_wrap pwm_set_chan_level pwm_set_clkdiv : ℕ → Effect
  pwm_set_enabled : Effect

-- The variables of the file. `linebuf` has two bytes for each of 172 pixels.
pub record Driver : Type 0 where
  pub line_number : ℕ
  pub linebuf : List ℕ

abbrev pub lcd_width : ℕ
lcd_width = 172

abbrev pub lcd_height : ℕ
lcd_height = 320

abbrev pub lcd_row_start : ℕ
lcd_row_start = 34

abbrev pub color_table : List ℕ
color_table = 0x0000 ∷ 0xF800 ∷ 0x07E0 ∷ 0x07FF ∷ []

-- `color_table[color % 4]`
abbrev pub color_value : ℕ → ℕ
color_value color = get_or color_table (color % 4) 0

unfoldable pub st7789_command : LcdState → ℕ → List Effect
st7789_command state reg =
    gpio_put state.dc_gpio false
    ∷ gpio_put state.cs_n_gpio false
    ∷ spi_write_blocking (reg ∷ [])
    ∷ gpio_put state.cs_n_gpio true
    ∷ []

unfoldable pub st7789_data_byte : LcdState → ℕ → List Effect
st7789_data_byte state byte =
    gpio_put state.dc_gpio true
    ∷ gpio_put state.cs_n_gpio false
    ∷ spi_write_blocking (byte ∷ [])
    ∷ gpio_put state.cs_n_gpio true
    ∷ []

-- The four bytes of an address range: `first` and `last`, the high byte of each before the low one.
unfoldable pub send_range : LcdState → ℕ → ℕ → List Effect
send_range state first last =
    st7789_data_byte state (first / 2 ^ 8 % 2 ^ 8)
    ++ (st7789_data_byte state (first % 2 ^ 8)
        ++ (st7789_data_byte state (last / 2 ^ 8 % 2 ^ 8) ++ st7789_data_byte state (last % 2 ^ 8)))

-- `n - 1` of an `int`, as far as its two low bytes go.
abbrev pub before : ℕ → ℕ
before n = n + 2 ^ 16 - 1

unfoldable pub st7789_set_command_windows : LcdState → ℕ → ℕ → ℕ → ℕ → List Effect
st7789_set_command_windows state x_start y_start width height =
    st7789_command state 0x2A
    ++ (send_range state (x_start + lcd_row_start) (before (x_start + width + lcd_row_start))
        ++ (st7789_command state 0x2B
            ++ (send_range state y_start (before (y_start + height)) ++ st7789_command state 0x2C)))

-- The two bytes of a pixel in `linebuf`.
abbrev pub put_pixel : List ℕ → ℕ → ℕ → List ℕ
put_pixel buf x value = set (set buf (x * 2) (value / 2 ^ 8)) (x * 2 + 1) (value % 2 ^ 8)

-- The loop over the columns of a line: `rounds` of them, from `x` on, with a colour for each.
unfoldable pub fill_line : ℕ → ℕ → (ℕ → ℕ) → List ℕ → List ℕ
fill_line zero x value buf = buf
fill_line (suc rounds) x value buf = fill_line rounds (suc x) value (put_pixel buf x (value x))

abbrev pub begin_data : LcdState → List Effect
begin_data state = gpio_put state.dc_gpio true ∷ gpio_put state.cs_n_gpio false ∷ []

abbrev pub end_data : LcdState → List Effect
end_data state = gpio_put state.cs_n_gpio true ∷ []

-- The loop that sends one line for each row.
unfoldable pub send_lines : ℕ → ℕ → List ℕ → List Effect
send_lines zero width buf = []
send_lines (suc rounds) width buf =
    spi_write_blocking (take (width * 2) buf) ∷ send_lines rounds width buf

unfoldable pub lcd_draw_rectangle : Driver → LcdState → ℕ → ℕ → ℕ → ℕ → ℕ → Driver × List Effect
lcd_draw_rectangle d state x_start y_start width height fg_color =
    let buf = fill_line width 0 (λ x. color_value fg_color) d.linebuf in
    (
      record d { linebuf = buf },
      st7789_set_command_windows state x_start y_start width height
          ++ (begin_data state ++ (send_lines height width buf ++ end_data state)),
    )

unfoldable pub lcd_clear_screen : Driver → LcdState → ℕ → Driver × List Effect
lcd_clear_screen d state color =
    lcd_draw_rectangle (record d { line_number = 0 }) state 0 0 lcd_width lcd_height color

-- `level` is a byte.
unfoldable pub lcd_set_backlight : ℕ → List Effect
lcd_set_backlight level = pwm_set_chan_level (if ltb 100 level then 100 else level) ∷ []
