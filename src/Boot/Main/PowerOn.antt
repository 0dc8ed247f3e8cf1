-- ===== src/Boot/Main/PowerOn.antt =====
-- From power-on to the main loop of src/pico_main.c: what `clock_init` and `clock_start` leave of the
-- displays and of the state.
use picow_day_clock.Base.{
  ℕ, zero, suc, ◌+◌, ◌*◌, ◌≤◌, ◌<◌, ◌≡◌, ◌≢◌, refl, Bool, true, false, List, [], ◌∷◌, ◌++◌, map,
  arith, ◌==◌, length, Bool-cases, inl, inr,
}
use picow_day_clock.Config.{FlashConfig, PersistentState, config_magic}
use picow_day_clock.Clock
use picow_day_clock.Clock.{ClockState, Color, init_ok_message}
use picow_day_clock.Lcd.{lcd_width, lcd_height}
use picow_day_clock.Lcd.Init.{lcd_init-picture}
use picow_day_clock.Lcd.Draws.{rectangle, lcd_clear_screen-Draws}
use picow_day_clock.Lcd.Frame.{Bitmaps, draw}
use picow_day_clock.Lcd.Idle.{Plain, FontsFit, watch-drawing_idle}
use picow_day_clock.Boot
use picow_day_clock.Boot.{
  clock, init_displays, num_lcds, clock_init, set_up_pins, reading_sleeps, factory_reset_readings,
  held_low, check_flash, preceded, ready, rebooted, Result, End,
}
use picow_day_clock.Boot.Main.{boot}
use picow_day_clock.Boot.Main.View.{View, perform, perform_all, ReadyView, ReadyView-plain}

-- The displays before `k` are not selected.
record ReadyTo (k : ℕ) (v : View) : Type 0 where
  idle : (m : ℕ) → m < k → (v.1 m).selected ≡ false
  buffer : lcd_width * 2 ≤ length v.0.linebuf

ReadyTo-lcd_init :
    (b : Bitmaps) (v : View) (k : ℕ) (reset : Bool)
    → k < 7
    → ReadyTo k v
    → ReadyTo (suc k) (perform b v (boot (Boot.lcd_init k reset)))
unfolding perform
ReadyTo-lcd_init b v k reset lcd r =
    let black = lcd_init-picture v.0 k reset lcd r.buffer in
    record {
      idle = λ m lt. elim (Bool-cases (m == k)) [
        | inl e ↦ let here : m ≡ k = ground (arith, e) in rw here ((black.0 (v.1 k)).0)
        | inr e ↦
            let apart : m ≢ k = ground (arith, e) in
            let less : m < k = ground (arith, e, lt) in
            (black.1 m (v.1 m) (omega (arith, less, lcd)) apart (r.idle m less)).0
      ];
      buffer = omega (arith, r.buffer, black.3);
    }

ReadyTo-clear :
    (b : Bitmaps) (v : View) (k n : ℕ)
    → n < 7
    → ReadyTo k v
    → ReadyTo k (perform b v (boot (clock (Clock.lcd_clear_screen n))))
unfolding perform draw
ReadyTo-clear b v k n lcd r =
    let clear = lcd_clear_screen-Draws n v.0 0 r.buffer in
    record {
      idle = λ m lt.
          rw clear.sent (
            watch-drawing_idle m n (rectangle 0 0 lcd_width lcd_height 0) (v.1 m) lcd
              (r.idle m lt));
      buffer = omega (arith, r.buffer, clear.buffer);
    }

-- The displays come up one after the other, whatever they were before.
init_displays-Ready :
    (b : Bitmaps) (n k : ℕ) (v : View)
    → k + n ≡ 7
    → ReadyTo k v
    → ReadyView (perform_all b v (map boot (init_displays n k)))
unfolding perform_all init_displays
init_displays-Ready b zero k v e r = record {
  idle = λ m lt. r.idle m (omega (arith, lt, e));
  buffer = r.buffer;
}
init_displays-Ready b (suc n) k v e r =
    let set_up = ReadyTo-lcd_init b v k (k == 0) (omega (arith, e)) r in
    let v₁ = perform b v (boot (Boot.lcd_init k (k == 0))) in
    let cleared = ReadyTo-clear b v₁ (suc k) k (omega (arith, e)) set_up in
    init_displays-Ready b n (suc k) (perform b v₁ (boot (clock (Clock.lcd_clear_screen k))))
      (omega (arith, e)) cleared

map_boot-append :
    (b : Bitmaps) (v : View) (es fs : List Boot.Effect)
    → perform_all b v (map boot (es ++ fs))
      ≡ perform_all b (perform_all b v (map boot es)) (map boot fs)
unfolding perform_all
map_boot-append b v [] fs = refl
map_boot-append b v (e ∷ es) fs = map_boot-append b (perform b v (boot e)) es fs

reading_sleeps-silent :
    (b : Bitmaps) (v : View) (n i : ℕ) (low : ℕ → Bool)
    → perform_all b v (map boot (reading_sleeps n i low)) ≡ v
unfolding perform_all perform reading_sleeps
reading_sleeps-silent b v zero i low = refl
reading_sleeps-silent b v (suc n) i low = elim (Bool-cases (low i)) [
  | inl e ↦ rw e (reading_sleeps-silent b v n (suc i) low)
  | inr e ↦ rw e refl
]

-- A state that waits for its first tick, with the configuration of the flash.
pub record Fresh (flash : FlashConfig) (s : ClockState) : Type 0 where
  pub first : s.first_clock_tick ≡ true
  pub size : length s.current_lcd_digits ≡ 7
  pub config : s.flash_config ≡ flash

abbrev pub OnReady : (ClockState → Type 0) → End → Type 0
OnReady P (ready s) = P s
OnReady P rebooted = Unit

-- A boot that goes on has such a state, and the displays are ready.
abbrev pub BootReady : Bitmaps → View → FlashConfig → Result → Type 0
BootReady b v flash r =
    OnReady (λ s. Fresh flash s × ReadyView (perform_all b v (map boot r.3))) r.0

BootReady-preceded :
    (b : Bitmaps) (v : View) (flash : FlashConfig) (es : List Boot.Effect) (r : Result)
    → BootReady b (perform_all b v (map boot es)) flash r
    → BootReady b v flash (preceded es r)
BootReady-preceded b v flash es (ready s, p, f, fs) h = rw (map_boot-append b v es fs) h
BootReady-preceded b v flash es (rebooted, p, f, fs) h = tt

check_flash-BootReady :
    (b : Bitmaps) (v : View) (s : ClockState) (p : PersistentState) (flash : FlashConfig)
    → length s.current_lcd_digits ≡ 7
    → ReadyView v
    → BootReady b v flash (check_flash s p flash)
unfolding check_flash perform_all
check_flash-BootReady b v s p flash size r =
    elim (Bool-cases (flash.magic_marker == config_magic)) [
      | inl e ↦ rw e (record { first = refl; size = size; config = refl }, r)
      | inr e ↦ rw e tt
    ]

displays_up :
    (b : Bitmaps) (v : View) (low : ℕ → Bool)
    → lcd_width * 2 ≤ length v.0.linebuf
    → ReadyView (
        perform_all b v (
          map boot (
            set_up_pins
            ++ (init_displays num_lcds 0 ++ reading_sleeps factory_reset_readings 0 low))))
unfolding perform_all perform
displays_up b v low buf =
    let start : ReadyTo 0 v = record { idle = λ m lt. absurd (omega (arith, lt)); buffer = buf } in
    rw
      (
        map_boot-append b v (init_displays num_lcds 0)
            (reading_sleeps factory_reset_readings 0 low),
        reading_sleeps-silent b (perform_all b v (map boot (init_displays num_lcds 0)))
            factory_reset_readings 0 low,
      )
      (init_displays-Ready b 7 0 v refl start)

-- A call on the displays, and then the flash.
call-BootReady :
    (b : Bitmaps) (v : View) (es : List Boot.Effect) (e : Clock.Effect) (s : ClockState)
    (p : PersistentState) (flash : FlashConfig)
    → FontsFit b
    → Plain e
    → length s.current_lcd_digits ≡ 7
    → ReadyView (perform_all b v (map boot es))
    → BootReady b v flash (preceded es (preceded (clock e ∷ []) (check_flash s p flash)))
unfolding perform_all
call-BootReady b v es e s p flash fonts can size r =
    let v₁ = perform_all b v (map boot es) in
    let checked = check_flash s p flash in
    BootReady-preceded b v flash es (preceded (clock e ∷ []) checked) (
      BootReady-preceded b v₁ flash (clock e ∷ []) checked (
        check_flash-BootReady b (perform b v₁ (boot (clock e))) s p flash size
          (ReadyView-plain b v₁ (e ∷ []) fonts (can, tt) r)))

-- A boot that goes on has initialised all displays, whatever they were before, and has loaded the flash.
pub clock_init-BootReady :
    (b : Bitmaps) (v : View) (low : ℕ → Bool) (by_watchdog : Bool) (p : PersistentState)
    (flash : FlashConfig)
    → FontsFit b
    → lcd_width * 2 ≤ length v.0.linebuf
    → BootReady b v flash (clock_init low by_watchdog p flash)
unfolding clock_init
clock_init-BootReady b v low by_watchdog p flash fonts buf =
    let up = displays_up b v low buf in
    let set_up =
      set_up_pins ++ (init_displays num_lcds 0 ++ reading_sleeps factory_reset_readings 0 low) in
    elim (Bool-cases (held_low factory_reset_readings 0 low)) [
      | inl held ↦ rw held tt
      | inr released ↦ elim (Bool-cases by_watchdog) [
        | inl warm ↦
            rw (released, warm)
              (call-BootReady b v set_up (Clock.lcd_update_icons _ p.ntp_error p.wifi_error) _ _
                flash fonts tt refl up)
        | inr cold ↦
            rw (released, cold)
              (call-BootReady b v set_up (Clock.lcd_print_line Color.green init_ok_message) _ _
                flash fonts tt refl up)
      ]
    ]
