-- ===== src/Lcd/Setup.antt =====
-- The set-up of a display in src/lcd.c: `lcd_init` with the peripherals, the reset and the registers.
use picow_day_clock.Base.{ℕ, ◌+◌, ◌*◌, Bool, true, false, List, [], ◌∷◌, ◌++◌, if◌then◌else◌}
use picow_day_clock.Lcd.{
  LcdState, spi_function, pwm_function, Effect, gpio_init, gpio_set_dir_out, gpio_set_function,
  gpio_put, spi_init, sleep_ms, pwm_set_wrap, pwm_set_chan_level, pwm_set_clkdiv, pwm_set_enabled,
  Driver, st7789_command, st7789_data_byte, lcd_clear_screen, lcd_set_backlight,
}

-- The state that `lcd_init` fills in for display `lcd_num`.
abbrev pub lcd_pins : ℕ → LcdState
lcd_pins lcd_num = record {
  rst_n_gpio = 12;
  dc_gpio = 14;
  bl_gpio = 13;
  cs_n_gpio = 2 + lcd_num;
  clk_gpio = 10;
  mosi_gpio = 11;
  smoothed_adc = 0;
}

unfoldable pub lcd_init_peripherals : LcdState → Bool → List Effect
lcd_init_peripherals state reset =
    (spi_init (10000 * 1000)
      ∷ gpio_set_function state.clk_gpio spi_function
      ∷ gpio_set_function state.mosi_gpio spi_function
      ∷ [])
    ++ ((if reset then gpio_init state.rst_n_gpio ∷ gpio_set_dir_out state.rst_n_gpio ∷ [] else [])
        ++ (gpio_init state.dc_gpio
            ∷ gpio_set_dir_out state.dc_gpio
            ∷ gpio_init state.cs_n_gpio
            ∷ gpio_set_dir_out state.cs_n_gpio
            ∷ gpio_init state.bl_gpio
            ∷ gpio_set_dir_out state.bl_gpio
            ∷ gpio_put state.cs_n_gpio true
            ∷ gpio_put state.dc_gpio false
            ∷ gpio_put state.bl_gpio true
            ∷ gpio_set_function state.bl_gpio pwm_function
            ∷ pwm_set_wrap 100
            ∷ pwm_set_chan_level 1
            ∷ pwm_set_clkdiv 50
            ∷ pwm_set_enabled
            ∷ []))

unfoldable pub lcd_reset : LcdState → List Effect
lcd_reset state =
    gpio_put state.rst_n_gpio true
    ∷ sleep_ms 100
    ∷ gpio_put state.rst_n_gpio false
    ∷ sleep_ms 100
    ∷ gpio_put state.rst_n_gpio true
    ∷ sleep_ms 100
    ∷ []

-- A command with its data bytes.
unfoldable pub send_data : LcdState → List ℕ → List Effect
send_data state [] = []
send_data state (b ∷ bs) = st7789_data_byte state b ++ send_data state bs

unfoldable pub send : LcdState → ℕ → List ℕ → List Effect
send state reg bytes = st7789_command state reg ++ send_data state bytes

abbrev positive_gamma : List ℕ
positive_gamma =
    0xF0 ∷ 0x00 ∷ 0x04 ∷ 0x04 ∷ 0x04 ∷ 0x05 ∷ 0x33 ∷ 0x3E ∷ 0x38 ∷ 0x12 ∷ 0x12 ∷ 0x28 ∷ 0x30 ∷ []

abbrev negative_gamma : List ℕ
negative_gamma =
    0xF0 ∷ 0x07 ∷ 0x0A ∷ 0x0D ∷ 0x0B ∷ 0x07 ∷ 0x28 ∷ 0x33 ∷ 0x3E ∷ 0x36 ∷ 0x14 ∷ 0x14 ∷ 0x32 ∷ []

-- The commands between the two waits, in their order.
abbrev pub registers : List (ℕ × List ℕ)
registers =
    (0x36, 0x00 ∷ [])
    ∷ (0x3A, 0x05 ∷ [])
    ∷ (0xB2, 0x0C ∷ 0x0C ∷ 0x00 ∷ 0x33 ∷ 0x33 ∷ [])
    ∷ (0xB7, 0x35 ∷ [])
    ∷ (0xBB, 0x35 ∷ [])
    ∷ (0xC0, 0x2C ∷ [])
    ∷ (0xC2, 0x01 ∷ [])
    ∷ (0xC3, 0x13 ∷ [])
    ∷ (0xC4, 0x20 ∷ [])
    ∷ (0xC6, 0x0F ∷ [])
    ∷ (0xD0, 0xA4 ∷ 0xA1 ∷ [])
    ∷ (0xD6, 0xA1 ∷ [])
    ∷ (0xE0, positive_gamma)
    ∷ (0xE1, negative_gamma)
    ∷ (0x21, [])
    ∷ (0x11, [])
    ∷ []

unfoldable pub send_all : LcdState → List (ℕ × List ℕ) → List Effect
send_all state [] = []
send_all state ((reg, bytes) ∷ rest) = send state reg bytes ++ send_all state rest

unfoldable pub st7789_init : LcdState → List Effect
st7789_init state =
    send state 0x11 []
    ++ (sleep_ms 120 ∷ (send_all state registers ++ (sleep_ms 120 ∷ send state 0x29 [])))

-- The driver after the call, the state that is filled in, and the calls. The clear is to black.
unfoldable pub lcd_init : Driver → ℕ → Bool → Driver × LcdState × List Effect
lcd_init d lcd_num reset =
    let state = lcd_pins lcd_num in
    let (d', clearing) = lcd_clear_screen d state 0 in
    (
      d',
      state,
      lcd_init_peripherals state reset
          ++ (lcd_set_backlight 90
              ++ ((if reset then lcd_reset state else []) ++ (st7789_init state ++ clearing))),
    )
