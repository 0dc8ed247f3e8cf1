-- ===== src/Lcd/Init.antt =====
-- What the displays show after src/lcd.c's `lcd_init`.
pub mod Passes
pub mod Wake
use picow_day_clock.Base.{
  ℕ, zero, suc, ◌+◌, ◌*◌, ◌≤◌, ◌<◌, ◌≡◌, ◌≢◌, refl, ◌∙◌, Bool, true, false, List, [], ◌∷◌, ◌++◌,
  ◌==◌, ◌&&◌, ◌||◌, ap, arith, length, Bool-cases, inl, inr, if◌then◌else◌,
}
use picow_day_clock.Lcd.{
  LcdState, Effect, sleep_ms, Driver, st7789_command, st7789_data_byte, lcd_set_backlight,
  lcd_width, lcd_height, lcd_clear_screen, lcd_draw_rectangle,
}
use picow_day_clock.Lcd.Setup.{
  lcd_pins, lcd_init_peripherals, lcd_reset, send_data, send, send_all, registers, st7789_init,
  lcd_init,
}
use picow_day_clock.Lcd.Rows.{inside}
use picow_day_clock.Lcd.Panel.{Panel, watch, watch-append, pixel}
use picow_day_clock.Lcd.Paint.{
  Fits, pixel-drawing, all_pass, all_pass-append, all_pass-drawing, watch-passes,
}
use picow_day_clock.Lcd.Power.{Power, power-send, power-send_all, power-drawing}
use picow_day_clock.Lcd.Draws.{rectangle, lcd_clear_screen-Draws}
use picow_day_clock.Lcd.Init.Passes.{
  all_pass-st7789_init, all_pass-lcd_init_peripherals, all_pass-lcd_reset, all_pass-join,
  all_pass-lcd_set_backlight,
}
use picow_day_clock.Lcd.Init.Wake.{cycled}

watch-five :
    (cs : ℕ) (es fs gs hs ks : List Effect) (p : Panel)
    → watch cs (es ++ (fs ++ (gs ++ (hs ++ ks)))) p
      ≡ watch cs ks (watch cs hs (watch cs gs (watch cs fs (watch cs es p))))
watch-five cs es fs gs hs ks p =
    watch-append cs es (fs ++ (gs ++ (hs ++ ks))) p
    ∙ watch-append cs fs (gs ++ (hs ++ ks)) _
    ∙ watch-append cs gs (hs ++ ks) _
    ∙ watch-append cs hs ks _

lcd_clear_screen-line_number :
    (d : Driver) (state : LcdState) → (lcd_clear_screen d state 0).0.line_number ≡ 0
unfolding lcd_clear_screen lcd_draw_rectangle
lcd_clear_screen-line_number d state = refl

whole : Fits (rectangle 0 0 lcd_width lcd_height 0)
whole = record {
  some_width = omega arith;
  some_height = omega arith;
  columns = omega arith;
  rows = omega arith;
}

module _ (n : ℕ) (lcd : n < 7) (d : Driver) (buf : lcd_width * 2 ≤ length d.linebuf) where
  abbrev clearing : List Effect
  clearing = (lcd_clear_screen d (lcd_pins n) 0).1

  rest-passes :
      (k : ℕ) → k < 11 → k ≢ n → all_pass (2 + k) (st7789_init (lcd_pins n) ++ clearing) ≡ true
  rest-passes k other apart =
      let clear = lcd_clear_screen-Draws n d 0 buf in
      all_pass-join (2 + k) (st7789_init (lcd_pins n)) clearing
        (all_pass-st7789_init k n other lcd apart)
        (rw clear.sent (all_pass-drawing k n (rectangle 0 0 lcd_width lcd_height 0) lcd apart))

-- What the bus alone does to the displays, selected or not, whatever the reset line does.
pub lcd_init-picture :
    (d : Driver) (n : ℕ) (reset : Bool)
    → n < 7
    → lcd_width * 2 ≤ length d.linebuf
    → let r = lcd_init d n reset in
      ((p : Panel)
        → let q = watch (2 + n) r.2 p in
          (q.selected ≡ false)
          × ((column row : ℕ) → column < lcd_width → row < lcd_height → pixel q column row ≡ 0))
      × ((m : ℕ) (p : Panel)
          → m < 7
          → m ≢ n
          → p.selected ≡ false
          → let q = watch (2 + m) r.2 p in (q.selected ≡ false) × (q.memory ≡ p.memory))
      × (r.0.line_number ≡ 0)
      × (length r.0.linebuf ≡ length d.linebuf)
unfolding lcd_init
lcd_init-picture d n reset lcd buf =
    let pins = lcd_pins n in
    let periph = lcd_init_peripherals pins reset in
    let light = lcd_set_backlight 90 in
    let cycle = if reset then lcd_reset pins else [] in
    let start = st7789_init pins in
    let clear = lcd_clear_screen-Draws n d 0 buf in
    let clearing = (lcd_clear_screen d pins 0).1 in
    (
      λ p.
          let shown = pixel-drawing n (rectangle 0 0 lcd_width lcd_height 0) _ lcd whole in
          let e = watch-five (2 + n) periph light cycle start clearing p in
          rw (e, clear.sent)
            (
              shown.0,
              λ column row lc lr.
                  let columns : inside 0 172 column ≡ true = ground (arith, lc) in
                  let rows : inside 0 320 row ≡ true = ground (arith, lr) in
                  shown.1 column row ∙ rw (columns, rows) refl,
            ),
      λ m p other apart idle.
          let wide : m < 11 = omega (arith, other) in
          let cycled = all_pass-lcd_reset m n reset other in
          let pins_set = all_pass-lcd_init_peripherals m n wide lcd apart reset in
          watch-passes (2 + m) _ p
            (all_pass-join (2 + m) periph _ pins_set (
              all_pass-join (2 + m) light _ (all_pass-lcd_set_backlight (2 + m) 90)
                (all_pass-join (2 + m) cycle _ cycled (rest-passes n lcd d buf m wide apart))))
            idle,
      lcd_clear_screen-line_number d pins,
      clear.buffer,
    )

-- The picture, if the displays are not reset.
abbrev pub Keeps : Bool → Panel → Panel → Type 0
Keeps true p q = Unit
Keeps false p q = q.memory ≡ p.memory
