-- ===== src/Lcd/Init/Wake.antt =====
-- What src/lcd.c's `lcd_init` does to the pins, the sleep and the light of displays.
use picow_day_clock.Base.{
  ℕ, zero, suc, ◌+◌, ◌*◌, ◌≤◌, ◌<◌, ◌≡◌, ◌≢◌, refl, ◌∙◌, Bool, true, false, List, [], ◌∷◌, ◌++◌,
  ◌==◌, ◌||◌, ap, arith, length, if◌then◌else◌,
}
use picow_day_clock.Lcd.{
  Effect, sleep_ms, Driver, lcd_set_backlight, lcd_width, lcd_height, lcd_clear_screen,
}
use picow_day_clock.Lcd.Setup.{
  lcd_pins, lcd_init_peripherals, lcd_reset, send, send_all, registers, st7789_init, lcd_init,
}
use picow_day_clock.Lcd.Power.{
  Power, power, power-append, ready, power-send, power-send_all, power-drawing,
}
use picow_day_clock.Lcd.Draws.{rectangle, lcd_clear_screen-Draws}

-- The pins, the bus and the light of a display are set up, from any state.
power-lcd_init_peripherals :
    (n : ℕ) (reset : Bool) (u : Power)
    → n < 7
    → power (2 + n) (lcd_init_peripherals (lcd_pins n) reset) u
      ≡ ready (reset || u.rst_out) u.awake u.display_on false 1
unfolding power lcd_init_peripherals
power-lcd_init_peripherals zero true u lcd = refl
power-lcd_init_peripherals (suc zero) true u lcd = refl
power-lcd_init_peripherals (suc (suc zero)) true u lcd = refl
power-lcd_init_peripherals (suc (suc (suc zero))) true u lcd = refl
power-lcd_init_peripherals (suc (suc (suc (suc zero)))) true u lcd = refl
power-lcd_init_peripherals (suc (suc (suc (suc (suc zero))))) true u lcd = refl
power-lcd_init_peripherals (suc (suc (suc (suc (suc (suc zero)))))) true u lcd = refl
power-lcd_init_peripherals (suc (suc (suc (suc (suc (suc (suc more))))))) true u lcd =
    absurd (omega (arith, lcd))
power-lcd_init_peripherals zero false u lcd = refl
power-lcd_init_peripherals (suc zero) false u lcd = refl
power-lcd_init_peripherals (suc (suc zero)) false u lcd = refl
power-lcd_init_peripherals (suc (suc (suc zero))) false u lcd = refl
power-lcd_init_peripherals (suc (suc (suc (suc zero)))) false u lcd = refl
power-lcd_init_peripherals (suc (suc (suc (suc (suc zero))))) false u lcd = refl
power-lcd_init_peripherals (suc (suc (suc (suc (suc (suc zero)))))) false u lcd = refl
power-lcd_init_peripherals (suc (suc (suc (suc (suc (suc (suc more))))))) false u lcd =
    absurd (omega (arith, lcd))

power-st7789_init :
    (n : ℕ) (r a on mode : Bool) (v : ℕ)
    → n < 7
    → power (2 + n) (st7789_init (lcd_pins n)) (ready r a on mode v) ≡ ready r true true false v
unfolding st7789_init power
power-st7789_init n r a on mode v lcd =
    let cs = 2 + n in
    let all = send_all (lcd_pins n) registers in
    let finish = sleep_ms 120 ∷ send (lcd_pins n) 0x29 [] in
    power-append cs (send (lcd_pins n) 0x11 []) (sleep_ms 120 ∷ (all ++ finish))
      (ready r a on mode v)
    ∙ ap (power cs (sleep_ms 120 ∷ (all ++ finish))) (power-send n lcd r v 0x11 [] a on mode)
    ∙ power-append cs all finish (ready r true on false v)
    ∙ ap (power cs finish) (power-send_all n lcd r v registers true on false)
    ∙ power-send n lcd r v 0x29 [] true on false

-- The light, and the reset line.
power-cycle :
    (n : ℕ) (reset : Bool) (rst_out a on : Bool) (rest : List Effect)
    → (a' : Bool) × (on' : Bool) × (power
          (2 + n)
          (lcd_set_backlight 90 ++ ((if reset then lcd_reset (lcd_pins n) else []) ++ rest))
          (ready (reset || rst_out) a on false 1)
        ≡ power (2 + n) rest (ready (reset || rst_out) a' on' false 90))
unfolding power lcd_set_backlight lcd_reset
power-cycle n true rst_out a on rest = (false, false, refl)
power-cycle n false rst_out a on rest = (a, on, refl)

-- The display that is set up.
pub power-lcd_init :
    (d : Driver) (n : ℕ) (reset : Bool) (u : Power)
    → n < 7
    → lcd_width * 2 ≤ length d.linebuf
    → (rst_out : Bool) × (power (2 + n) (lcd_init d n reset).2 u ≡ ready rst_out true true true 90)
unfolding lcd_init
power-lcd_init d n reset u lcd buf =
    let pins = lcd_pins n in
    let cs = 2 + n in
    let periph = lcd_init_peripherals pins reset in
    let light = lcd_set_backlight 90 in
    let cycle = if reset then lcd_reset pins else [] in
    let start = st7789_init pins in
    let clearing = (lcd_clear_screen d pins 0).1 in
    let rest = start ++ clearing in
    let out = reset || u.rst_out in
    let (a, on, cycled) = power-cycle n reset u.rst_out u.awake u.display_on rest in
    let clear = lcd_clear_screen-Draws n d 0 buf in
    let cleared =
      power-drawing n lcd out 90 (rectangle 0 0 lcd_width lcd_height 0) true true false in
    (
      out,
      power-append cs periph (light ++ (cycle ++ rest)) u
          ∙ ap (power cs (light ++ (cycle ++ rest))) (power-lcd_init_peripherals n reset u lcd)
          ∙ cycled
          ∙ power-append cs start clearing (ready out a on false 90)
          ∙ ap (power cs clearing) (power-st7789_init n out a on false 90 lcd)
          ∙ rw clear.sent cleared,
    )

module _ (m n : ℕ) (other : m < 7) (lcd : n < 7) (apart : m ≢ n) where
  pub shared_reset :
      (v : Power) → (power (2 + m) (lcd_init_peripherals (lcd_pins n) true) v).rst_out ≡ true
  unfolding power lcd_init_peripherals
  shared_reset v =
      let dc : (2 + n == 14) ≡ false = ground arith in
      let bl : (2 + n == 13) ≡ false = ground arith in
      let rst : (2 + n == 12) ≡ false = ground arith in
      let not_this : (2 + n == 2 + m) ≡ false = ground arith in rw (dc, bl, rst, not_this) refl

  pub cycled :
      (v : Power)
      → v.rst_out ≡ true
      → v.selected ≡ false
      → let q = power (2 + m) (lcd_reset (lcd_pins n)) v in
        (q.selected ≡ false) × (q.awake ≡ false) × (q.display_on ≡ false)
  unfolding power lcd_reset
  cycled v out u = simp out (u, refl, refl)
