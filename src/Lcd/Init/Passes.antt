-- ===== src/Lcd/Init/Passes.antt =====
-- What src/lcd.c's `lcd_init` of a display sends to another one: nothing that selects it.
use picow_day_clock.Base.{
  ℕ, ◌+◌, ◌<◌, ◌≡◌, ◌≢◌, refl, ◌∙◌, Bool, true, false, List, [], ◌∷◌, ◌++◌, ◌==◌, ◌&&◌, arith,
  Bool-cases, inl, inr, if◌then◌else◌,
}
use picow_day_clock.Lcd.{Effect, sleep_ms, st7789_command, st7789_data_byte, lcd_set_backlight}
use picow_day_clock.Lcd.Setup.{
  lcd_pins, lcd_init_peripherals, lcd_reset, send_data, send, send_all, registers, st7789_init,
}
use picow_day_clock.Lcd.Paint.{all_pass, all_pass-append}

and_true : {a b : Bool} → a ≡ true → b ≡ true → (a && b) ≡ true
and_true h k = ground (arith, h, k)

module _ (m n : ℕ) (other : m < 11) (lcd : n < 7) (apart : m ≢ n) where
  all_pass-send_data : (bs : List ℕ) → all_pass (2 + m) (send_data (lcd_pins n) bs) ≡ true
  unfolding send_data st7789_data_byte
  all_pass-send_data [] = refl
  all_pass-send_data (b ∷ bs) =
      let pin : (2 + n == 14) ≡ false = ground arith in
      let not_this : (2 + n == 2 + m) ≡ false = ground arith in
      rw (pin, not_this) (all_pass-send_data bs)

  all_pass-send : (reg : ℕ) (bs : List ℕ) → all_pass (2 + m) (send (lcd_pins n) reg bs) ≡ true
  unfolding send st7789_command
  all_pass-send reg bs =
      let pin : (2 + n == 14) ≡ false = ground arith in
      let not_this : (2 + n == 2 + m) ≡ false = ground arith in
      rw (pin, not_this) (all_pass-send_data bs)

  all_pass-send_all : (rs : List (ℕ × List ℕ)) → all_pass (2 + m) (send_all (lcd_pins n) rs) ≡ true
  unfolding send_all
  all_pass-send_all [] = refl
  all_pass-send_all ((reg, bs) ∷ rs) =
      all_pass-append (2 + m) (send (lcd_pins n) reg bs) (send_all (lcd_pins n) rs)
      ∙ rw (all_pass-send reg bs) (all_pass-send_all rs)

  pub all_pass-st7789_init : all_pass (2 + m) (st7789_init (lcd_pins n)) ≡ true
  unfolding st7789_init
  all_pass-st7789_init =
      let finish = sleep_ms 120 ∷ send (lcd_pins n) 0x29 [] in
      let all = send_all (lcd_pins n) registers in
      all_pass-append (2 + m) (send (lcd_pins n) 0x11 []) (sleep_ms 120 ∷ (all ++ finish))
      ∙ and_true (all_pass-send 0x11 []) (
          all_pass-append (2 + m) all finish
          ∙ and_true (all_pass-send_all registers) (all_pass-send 0x29 []))

  pub all_pass-lcd_init_peripherals :
      (reset : Bool) → all_pass (2 + m) (lcd_init_peripherals (lcd_pins n) reset) ≡ true
  unfolding lcd_init_peripherals
  all_pass-lcd_init_peripherals reset =
      let pin : (2 + n == 14) ≡ false = ground arith in
      let not_this : (2 + n == 2 + m) ≡ false = ground arith in
      let not_light : (13 == 2 + m) ≡ false = ground arith in
      elim (Bool-cases reset) [
        | inl e ↦ rw (e, pin, not_this, not_light) refl
        | inr e ↦ rw (e, pin, not_this, not_light) refl
      ]

pub all_pass-lcd_reset :
    (m n : ℕ) (reset : Bool)
    → m < 7
    → all_pass (2 + m) (if reset then lcd_reset (lcd_pins n) else []) ≡ true
unfolding lcd_reset
all_pass-lcd_reset m n false other = refl
all_pass-lcd_reset m n true other =
    let not_reset : (12 == 2 + m) ≡ false = ground arith in rw not_reset refl

pub all_pass-join :
    (cs : ℕ) (es fs : List Effect)
    → all_pass cs es ≡ true
    → all_pass cs fs ≡ true
    → all_pass cs (es ++ fs) ≡ true
all_pass-join cs es fs h k = all_pass-append cs es fs ∙ and_true h k

pub all_pass-lcd_set_backlight : (cs level : ℕ) → all_pass cs (lcd_set_backlight level) ≡ true
unfolding lcd_set_backlight
all_pass-lcd_set_backlight cs level = refl
