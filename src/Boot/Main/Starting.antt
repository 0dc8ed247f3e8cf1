-- ===== src/Boot/Main/Starting.antt =====
-- What src/clock.c's `clock_start` draws and keeps.
use picow_day_clock.Base.{
  ◌≡◌, refl, Bool, true, false, not, List, [], ◌∷◌, map, Bool-cases, inl, inr, if◌then◌else◌,
}
use picow_day_clock.Ntp.{NtpError, ntp_init, ntp_request_async}
use picow_day_clock.Config.{WifiError, PersistentState}
use picow_day_clock.Clock.{ClockState, Effect, running, lwip, watchdog_enable, fatal_reset}
use picow_day_clock.Clock.Task.{Result, after}
use picow_day_clock.Clock.Shows.{Returns}
use picow_day_clock.Boot.Start.{
  StartInput, start_timers, check_request, start_ntp, check_wifi, clock_start, wifi_effects,
}
use picow_day_clock.Boot.Main.View.{AllPlain, AllPlain-append, AllPlain-lwip}

-- What the display shows, and by which configuration, is the same in two states.
pub record Keeps (s t : ClockState) : Type 0 where
  pub first : t.first_clock_tick ≡ s.first_clock_tick
  pub digits : t.current_lcd_digits ≡ s.current_lcd_digits
  pub config : t.flash_config ≡ s.flash_config

pub Keeps-refl : (s : ClockState) → Keeps s s
Keeps-refl s = record { first = refl; digits = refl; config = refl }

-- Calls that leave a display selected by none, and a state that is kept, if there is one.
abbrev pub Starts : ClockState → Result → Type 0
Starts s r = AllPlain r.1 × Returns (Keeps s) r.0

Starts-fatal_reset :
    (s : ClockState) (p : PersistentState) (e : NtpError) (w : WifiError)
    → Starts s (fatal_reset p e w)
unfolding fatal_reset
Starts-fatal_reset s p e w = ((tt, (tt, tt)), tt)

Starts-after :
    (s : ClockState) (es : List Effect) (r : Result)
    → AllPlain es
    → Starts s r
    → Starts s (after es r)
Starts-after s es (o, more) can h = (AllPlain-append es more can h.0, h.1)

Starts-if :
    (s : ClockState) (b : Bool) (q r : Result)
    → Starts s q
    → Starts s r
    → Starts s (if b then q else r)
Starts-if s true q r h k = h
Starts-if s false q r h k = k

module _ (p : PersistentState) (input : StartInput) (s : ClockState) where
  Starts-start_timers : (t : ClockState) → Keeps s t → Starts s (start_timers p t input)
  unfolding start_timers
  Starts-start_timers t h =
      let failed = Starts-fatal_reset s p NtpError.init_error WifiError.ok in
      Starts-after s (watchdog_enable ∷ []) _ (tt, tt)
        (Starts-if s (not input.clock_timer) _ _ failed
          (Starts-if s (not input.backlight_timer) _ (running t, []) failed (tt, h)))

  Starts-check_request :
      (t : ClockState) (e : NtpError) → Keeps s t → Starts s (check_request e p t input)
  unfolding check_request
  Starts-check_request t NtpError.ok h = Starts-start_timers t h
  Starts-check_request t e h = Starts-fatal_reset s p e WifiError.ok

  Starts-start_ntp :
      (t : ClockState)
      → t.first_clock_tick ≡ s.first_clock_tick
      → t.current_lcd_digits ≡ s.current_lcd_digits
      → t.flash_config ≡ s.flash_config
      → Starts s (start_ntp p t input)
  unfolding start_ntp
  Starts-start_ntp t first digits config =
      let client = record (ntp_init input.has_pcb).1 { ntp_port = t.flash_config.ntp_port } in
      let asked =
        ntp_request_async client t.flash_config.ntp_server input.now_ms input.dns input.net in
      Starts-if s (not (ntp_init input.has_pcb).0) _ _
        (Starts-fatal_reset s p NtpError.init_error WifiError.ok)
        (Starts-after s (map lwip asked.2) _ (AllPlain-lwip asked.2) (
          Starts-check_request (record t { ntp_state = asked.1 }) asked.0
            (record { first = first; digits = digits; config = config })))

wifi_effects-AllPlain : (s : ClockState) → AllPlain (wifi_effects s)
wifi_effects-AllPlain s = elim (Bool-cases s.cold_boot) [
  | inl e ↦ rw e (tt, (tt, tt))
  | inr e ↦ rw e (tt, tt)
]

Starts-check_wifi :
    (p : PersistentState) (input : StartInput) (s t : ClockState) (w : WifiError)
    → t.first_clock_tick ≡ s.first_clock_tick
    → t.current_lcd_digits ≡ s.current_lcd_digits
    → t.flash_config ≡ s.flash_config
    → Starts s (check_wifi w p t input)
unfolding check_wifi
Starts-check_wifi p input s t WifiError.ok first digits config =
    Starts-after s (wifi_effects t) _ (wifi_effects-AllPlain t)
      (Starts-start_ntp p input s t first digits config)
Starts-check_wifi p input s t w first digits config = Starts-fatal_reset s p NtpError.ok w

-- Whatever the start does, it keeps the displays ready, and if it returns, what is to be shown.
pub clock_start-Starts :
    (p : PersistentState) (s : ClockState) (input : StartInput) → Starts s (clock_start p s input)
unfolding clock_start
clock_start-Starts p s input =
    Starts-check_wifi p input s (record s { wifi_initialized = input.wifi_initialized })
      input.wifi_status refl refl refl
