-- ===== src/Lcd/Power.antt =====
-- Whether a display is awake, on and lit, as far as src/lcd.c relies on it: the bus and the pins must
-- be set up before they do anything, the reset line that all share puts a display to sleep, SLPIN,
-- SLPOUT, DISPOFF, DISPON and SWRESET are the commands that count, and a PWM channel drives the
-- backlight. This is the view against which the driver is specified; it models no code of the
-- repository.
use picow_day_clock.Base.{
  ℕ, zero, suc, ◌+◌, ◌<◌, ◌≡◌, refl, ap, ◌∙◌, Bool, true, false, ◌&&◌, ◌||◌, not, List, [], ◌∷◌,
  ◌++◌, ◌==◌, if◌then◌else◌, arith,
}
use picow_day_clock.Lcd.{
  GpioFunction, spi_function, pwm_function, Effect, gpio_init, gpio_set_dir_out, gpio_set_function,
  gpio_put, spi_init, spi_write_blocking, pwm_set_chan_level, pwm_set_enabled, st7789_command,
  st7789_data_byte, send_range, st7789_set_command_windows,
}
use picow_day_clock.Lcd.Setup.{lcd_pins, send_data, send, send_all}
use picow_day_clock.Lcd.Rows.{send_rows}
use picow_day_clock.Lcd.Paint.{Mark, drawing, passes, all_pass}

pub record Power : Type 0 where
  pub spi : Bool
  pub clk : Bool
  pub mosi : Bool
  pub dc_out : Bool
  pub cs_out : Bool
  pub rst_out : Bool
  pub selected : Bool
  pub data_mode : Bool
  pub awake : Bool
  pub display_on : Bool
  pub pwm_pin : Bool
  pub pwm_on : Bool
  pub level : ℕ

abbrev pub is_spi : GpioFunction → Bool
is_spi spi_function = true
is_spi pwm_function = false

abbrev pub awake_after : ℕ → Bool → Bool
awake_after b awake = if b == 0x11 then true else if b == 0x10 || b == 0x01 then false else awake

abbrev pub on_after : ℕ → Bool → Bool
on_after b on = if b == 0x29 then true else if b == 0x28 || b == 0x01 then false else on

abbrev pub commands : List ℕ → Power → Power
commands [] p = p
commands (b ∷ bs) p =
    commands bs (record p { awake = awake_after b p.awake; display_on = on_after b p.display_on })

-- The pins are 10 and 11 for the bus, 12 for the reset line, 13 for the light, 14 for data and commands,
-- and `cs`.
abbrev pub see_power : ℕ → Effect → Power → Power
see_power cs (gpio_init pin) p =
    if pin == 14
    then record p { dc_out = false }
    else if pin == 13
    then record p { pwm_pin = false }
    else if pin == 12
    then record p { rst_out = false }
    else if pin == cs
    then record p { cs_out = false }
    else p
see_power cs (gpio_set_dir_out pin) p =
    if pin == 14
    then record p { dc_out = true }
    else if pin == 13
    then p
    else if pin == 12
    then record p { rst_out = true }
    else if pin == cs
    then record p { cs_out = true }
    else p
see_power cs (gpio_set_function pin f) p =
    if pin == 10
    then record p { clk = is_spi f }
    else if pin == 11
    then record p { mosi = is_spi f }
    else if pin == 13
    then record p { pwm_pin = not (is_spi f) }
    else p
see_power cs (gpio_put pin level) p =
    if pin == 14
    then (if p.dc_out then record p { data_mode = level } else p)
    else if pin == 13
    then p
    else if pin == 12
    then (if p.rst_out && not level then record p { awake = false; display_on = false } else p)
    else if pin == cs
    then (if p.cs_out then record p { selected = not level } else p)
    else p
see_power cs (spi_init baud) p = record p { spi = true }
see_power cs (spi_write_blocking bytes) p =
    if p.spi && p.clk && p.mosi && p.selected && not p.data_mode then commands bytes p else p
see_power cs (pwm_set_chan_level level) p = record p { level = level }
see_power cs pwm_set_enabled p = record p { pwm_on = true }
see_power cs _ p = p

unfoldable pub power : ℕ → List Effect → Power → Power
power cs [] p = p
power cs (e ∷ es) p = power cs es (see_power cs e p)

pub power-append :
    (cs : ℕ) (es fs : List Effect) (p : Power) → power cs (es ++ fs) p ≡ power cs fs (power cs es p)
unfolding power
power-append cs [] fs p = refl
power-append cs (e ∷ es) fs p = power-append cs es fs (see_power cs e p)

-- A display whose bus and pins are set up, with the light on, and that is not selected.
abbrev pub ready : Bool → Bool → Bool → Bool → ℕ → Power
ready rst_out awake on data_mode level = record {
  spi = true;
  clk = true;
  mosi = true;
  dc_out = true;
  cs_out = true;
  rst_out = rst_out;
  selected = false;
  data_mode = data_mode;
  awake = awake;
  display_on = on;
  pwm_pin = true;
  pwm_on = true;
  level = level;
}

abbrev pub awake_all : List (ℕ × List ℕ) → Bool → Bool
awake_all [] awake = awake
awake_all ((reg, bs) ∷ rs) awake = awake_all rs (awake_after reg awake)

abbrev pub on_all : List (ℕ × List ℕ) → Bool → Bool
on_all [] on = on
on_all ((reg, bs) ∷ rs) on = on_all rs (on_after reg on)

abbrev pub data_mode_after : List ℕ → Bool
data_mode_after [] = false
data_mode_after (b ∷ bs) = true

abbrev pub data_mode_all : List (ℕ × List ℕ) → Bool → Bool
data_mode_all [] mode = mode
data_mode_all ((reg, bs) ∷ rs) mode = data_mode_all rs (data_mode_after bs)

module _ (n : ℕ) (lcd : n < 7) (r : Bool) (v : ℕ) where
  power-send_data :
      (bs : List ℕ) (a on : Bool)
      → power (2 + n) (send_data (lcd_pins n) bs) (ready r a on true v) ≡ ready r a on true v
  unfolding power send_data st7789_data_byte
  power-send_data [] a on = refl
  power-send_data (b ∷ bs) a on =
      let dc : (2 + n == 14) ≡ false = ground arith in
      let bl : (2 + n == 13) ≡ false = ground arith in
      let rst : (2 + n == 12) ≡ false = ground arith in
      let cs : (2 + n == 2 + n) ≡ true = ground arith in
      rw (dc, bl, rst, cs) (power-send_data bs a on)

  pub power-send :
      (reg : ℕ) (bs : List ℕ) (a on mode : Bool)
      → power (2 + n) (send (lcd_pins n) reg bs) (ready r a on mode v)
        ≡ ready r (awake_after reg a) (on_after reg on) (data_mode_after bs) v
  unfolding power send send_data st7789_command st7789_data_byte
  power-send reg [] a on mode =
      let dc : (2 + n == 14) ≡ false = ground arith in
      let bl : (2 + n == 13) ≡ false = ground arith in
      let rst : (2 + n == 12) ≡ false = ground arith in
      let cs : (2 + n == 2 + n) ≡ true = ground arith in rw (dc, bl, rst, cs) refl
  power-send reg (b ∷ bs) a on mode =
      let dc : (2 + n == 14) ≡ false = ground arith in
      let bl : (2 + n == 13) ≡ false = ground arith in
      let rst : (2 + n == 12) ≡ false = ground arith in
      let cs : (2 + n == 2 + n) ≡ true = ground arith in
      rw (dc, bl, rst, cs) (power-send_data bs (awake_after reg a) (on_after reg on))

  pub power-send_all :
      (rs : List (ℕ × List ℕ)) (a on mode : Bool)
      → power (2 + n) (send_all (lcd_pins n) rs) (ready r a on mode v)
        ≡ ready r (awake_all rs a) (on_all rs on) (data_mode_all rs mode) v
  unfolding send_all power
  power-send_all [] a on mode = refl
  power-send_all ((reg, bs) ∷ rs) a on mode =
      power-append (2 + n) (send (lcd_pins n) reg bs) (send_all (lcd_pins n) rs)
        (ready r a on mode v)
      ∙ ap (power (2 + n) (send_all (lcd_pins n) rs)) (power-send reg bs a on mode)
      ∙ power-send_all rs (awake_after reg a) (on_after reg on) (data_mode_after bs)

  power-send_rows :
      (h y w : ℕ) (value : ℕ → ℕ → ℕ) (a on : Bool)
      → let p = record (ready r a on true v) { selected = true } in
        power (2 + n) (send_rows h y w value) p ≡ p
  unfolding power send_rows
  power-send_rows zero y w value a on = refl
  power-send_rows (suc h) y w value a on = power-send_rows h (suc y) w value a on

  -- A drawing sends no command that counts.
  pub power-drawing :
      (k : Mark) (a on mode : Bool)
      → power (2 + n) (drawing n k) (ready r a on mode v) ≡ ready r a on true v
  unfolding power drawing st7789_set_command_windows st7789_command st7789_data_byte send_range
  power-drawing k a on mode =
      let dc : (2 + n == 14) ≡ false = ground arith in
      let bl : (2 + n == 13) ≡ false = ground arith in
      let rst : (2 + n == 12) ≡ false = ground arith in
      let cs : (2 + n == 2 + n) ≡ true = ground arith in
      simp (power-append)
        (rw (dc, bl, rst, cs, power-send_rows k.height 0 k.width k.value a on) refl)

see_power-passes :
    (cs : ℕ) (e : Effect) (p : Power)
    → passes cs e ≡ true
    → passes 12 e ≡ true
    → p.selected ≡ false
    → let q = see_power cs e p in
      (q.selected ≡ false) × (q.awake ≡ p.awake) × (q.display_on ≡ p.display_on)
see_power-passes cs (gpio_init pin) p h k u = ground arith
see_power-passes cs (gpio_set_dir_out pin) p h k u = ground arith
see_power-passes cs (gpio_set_function pin f) p h k u = ground arith
see_power-passes cs (gpio_put pin level) p h k u = ground arith
see_power-passes cs (spi_write_blocking bytes) p h k u = ground arith
see_power-passes cs _ p h k u = (u, refl, refl)

-- Transfers to another display change nothing in one that is not selected, if they leave the reset line.
pub power-passes :
    (cs : ℕ) (es : List Effect) (p : Power)
    → all_pass cs es ≡ true
    → all_pass 12 es ≡ true
    → p.selected ≡ false
    → let q = power cs es p in
      (q.selected ≡ false) × (q.awake ≡ p.awake) × (q.display_on ≡ p.display_on)
unfolding power
power-passes cs [] p h k u = (u, refl, refl)
power-passes cs (e ∷ es) p h k u =
    let here : passes cs e ≡ true = ground (arith, h) in
    let later : all_pass cs es ≡ true = ground (arith, h) in
    let line : passes 12 e ≡ true = ground (arith, k) in
    let lines : all_pass 12 es ≡ true = ground (arith, k) in
    let one = see_power-passes cs e p here line u in
    let rest = power-passes cs es (see_power cs e p) later lines one.0 in
    (rest.0, rest.1 ∙ one.1, rest.2 ∙ one.2)
