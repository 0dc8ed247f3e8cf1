-- ===== src/Boot/Main/Healthy/PowerOn.antt =====
-- From power-on to the time on the displays, in a world in which nothing goes wrong for
-- src/pico_main.c's `main`.
use picow_day_clock.Base.{
  ℕ, ◌*◌, ◌≤◌, ◌≡◌, ◌≢◌, refl, subst, Bool, true, false, ◌==◌, List, [], ◌∷◌, ◌++◌, none, not,
  length, map, if◌then◌else◌, Bool-cases, inl, inr, arith,
}
use picow_day_clock.Ntp.{NtpState, NtpStatus, NtpError, ntp_init, ntp_request_async}
use picow_day_clock.Config.{PersistentState, FlashConfig, WifiError, config_magic}
use picow_day_clock.Clock.{ClockState, running, fatal_reset, lwip}
use picow_day_clock.Clock.Shows.{Returns}
use picow_day_clock.Clock.Task.{Result, after}
use picow_day_clock.Lcd.{Driver, lcd_width}
use picow_day_clock.Lcd.Panel.{Panel}
use picow_day_clock.Lcd.Frame.{Bitmaps}
use picow_day_clock.Lcd.Idle.{FontsFit}
use picow_day_clock.Boot
use picow_day_clock.Boot.{held_low, factory_reset_readings, check_flash, clock_init}
use picow_day_clock.Boot.Start.{
  StartInput, start_error, clock_start, check_wifi, start_ntp, check_request, start_timers,
}
use picow_day_clock.Boot.Main
use picow_day_clock.Boot.Main.{going, rebooted, Round, main}
use picow_day_clock.Boot.Main.View.{View, perform_all}
use picow_day_clock.Boot.Main.Run.{has_timer, Runs}
use picow_day_clock.Boot.Main.PowerOn.{OnReady}
use picow_day_clock.Boot.Main.Faces.{ShowsTime, main-ShowsText}
use picow_day_clock.Boot.Main.Kept.{Of}
use picow_day_clock.Boot.Main.Reboot.{Just}
use picow_day_clock.Boot.Main.Reboot.PowerOn.{
  PowerOnReason, button, no_configuration, not_started, in_loop, main-Just,
}
use picow_day_clock.Boot.Main.Healthy.{
  Sends, Healthy, Works, ntp_request_async-Works, Healthy-Reason,
}

-- `clock_init` asks for no access point.
clock_init-asks :
    (low : ℕ → Bool) (by_watchdog : Bool) (p : PersistentState) (flash : FlashConfig)
    → OnReady (λ s. s.ap_mode_triggered ≡ false) (clock_init low by_watchdog p flash).0
unfolding clock_init check_flash
clock_init-asks low by_watchdog p flash =
    elim (Bool-cases (held_low factory_reset_readings 0 low)) [
      | inl held ↦ rw held tt
      | inr free ↦ elim (Bool-cases by_watchdog) [
        | inl warm ↦ elim (Bool-cases (flash.magic_marker == config_magic)) [
          | inl valid ↦ rw (free, warm, valid) refl
          | inr invalid ↦ rw (free, warm, invalid) tt
        ]
        | inr cold ↦ elim (Bool-cases (flash.magic_marker == config_magic)) [
          | inl valid ↦ rw (free, cold, valid) refl
          | inr invalid ↦ rw (free, cold, invalid) tt
        ]
      ]
    ]

Works-if :
    (b : Bool) (q r : Result)
    → Returns (Of Works) q.0
    → Returns (Of Works) r.0
    → Returns (Of Works) (if b then q else r).0
Works-if true q r h k = h
Works-if false q r h k = k

start_timers-Works :
    (p : PersistentState) (s : ClockState) (input : StartInput)
    → Of Works s
    → Returns (Of Works) (start_timers p s input).0
unfolding start_timers fatal_reset
start_timers-Works p s input h =
    let stop = fatal_reset p NtpError.init_error WifiError.ok in
    Works-if (not input.clock_timer) stop
      (if not input.backlight_timer then stop else (running s, [])) tt
      (Works-if (not input.backlight_timer) stop (running s, []) tt h)

check_request-Works :
    (e : NtpError) (p : PersistentState) (s : ClockState) (input : StartInput)
    → Of Works s
    → Returns (Of Works) (check_request e p s input).0
unfolding check_request fatal_reset
check_request-Works NtpError.ok p s input h = start_timers-Works p s input h
check_request-Works _ p s input h = tt

start_ntp-Works :
    (p : PersistentState) (s : ClockState) (input : StartInput)
    → Sends input.net
    → s.ap_mode_triggered ≡ false
    → Returns (Of Works) (start_ntp p s input).0
unfolding start_ntp ntp_init fatal_reset
start_ntp-Works p s input sends h =
    let client : NtpState = record (ntp_init input.has_pcb).1 {
      ntp_port = s.flash_config.ntp_port;
    } in
    let idle : client.status ≢ NtpStatus.failed = ground arith in
    let r = ntp_request_async client s.flash_config.ntp_server input.now_ms input.dns input.net in
    let works =
      ntp_request_async-Works s.ap_mode_triggered client s.flash_config.ntp_server input.now_ms
        input.dns input.net sends (h, idle) in
    Works-if (not input.has_pcb) (fatal_reset p NtpError.init_error WifiError.ok)
      (after (map lwip r.2) (check_request r.0 p (record s { ntp_state = r.1 }) input)) tt
      (check_request-Works r.0 p (record s { ntp_state = r.1 }) input works)

clock_start-Works :
    (p : PersistentState) (s : ClockState) (input : StartInput)
    → Sends input.net
    → s.ap_mode_triggered ≡ false
    → Returns (Of Works) (clock_start p s input).0
unfolding clock_start fatal_reset
clock_start-Works p s input sends h = by_status input.wifi_status
  where
    by_status :
        (w : WifiError)
        → Returns
            (Of Works)
            (check_wifi w p (record s { wifi_initialized = input.wifi_initialized }) input).0
    by_status WifiError.ok =
        start_ntp-Works p (record s { wifi_initialized = input.wifi_initialized }) input sends h
    by_status _ = tt

-- A run that goes on, with this of what it leaves.
abbrev pub Goes : (View → ClockState → Type 0) → Bitmaps → View → Boot.Main.Result → Type 0
Goes P b v (going s active, es) = P (perform_all b v es) s
Goes P b v (rebooted, es) = ⊥

Runs-Goes :
    (P : View → ClockState → Type 0) (b : Bitmaps) (v : View) (R : Type 0) (r : Boot.Main.Result)
    → Runs P b v r
    → Just R r.0
    → ¬ R
    → Goes P b v r
Runs-Goes P b v R (going s active, es) h why absent = h
Runs-Goes P b v R (rebooted, es) h why absent = absent why

-- The rounds go well after a boot and a start that succeed.
abbrev pub GoesWell :
    (ℕ → Bool) → Bool → PersistentState → FlashConfig → StartInput → List Round → Type 0
GoesWell low by_watchdog p flash input rounds =
    let r = clock_init low by_watchdog p flash in
    OnReady (λ s. Returns (λ t. Healthy r.1 rounds t 0) (clock_start r.1 s input).0) r.0

module _ (low : ℕ → Bool) (by_watchdog : Bool) (p : PersistentState) (flash : FlashConfig)
    (input : StartInput) (rounds : List Round)
    (free : held_low factory_reset_readings 0 low ≡ false)
    (valid : flash.magic_marker ≡ config_magic) (starts : start_error input ≡ none)
    (sends : Sends input.net) (well : GoesWell low by_watchdog p flash input rounds) where
  no_PowerOnReason : ¬ PowerOnReason low by_watchdog p flash input rounds
  no_PowerOnReason (button held) = absurd (cc)
  no_PowerOnReason (no_configuration h) = h valid
  no_PowerOnReason (not_started n w h) = absurd (cc)
  no_PowerOnReason (in_loop s t ready returns reason) =
      let r = clock_init low by_watchdog p flash in
      let asks : s.ap_mode_triggered ≡ false =
        subst (OnReady (λ x. x.ap_mode_triggered ≡ false)) ready
          (clock_init-asks low by_watchdog p flash) in
      let works : Of Works t =
        subst (Returns (Of Works)) returns (clock_start-Works r.1 s input sends asks) in
      let healthy : Healthy r.1 rounds t 0 = subst (Returns (λ x. Healthy r.1 rounds x 0)) returns (
        subst (OnReady (λ x. Returns (λ y. Healthy r.1 rounds y 0) (clock_start r.1 x input).0))
          ready well) in
      Healthy-Reason r.1 rounds t 0 healthy works reason

-- From power-on to the time on the displays, for certain. If the button is not held at boot nor pressed
-- at a callback of the clock's timer, the flash has a configuration, the start has no error, every
-- name is found and every packet sent, what arrives is a reply of the server that was asked, with the
-- time or a kiss of death, and no request waits longer than the configured timeout, then `main` does
-- not reboot, and after a round before which the timer has fired the seven displays show the weekday,
-- hour and minute of the local time that the task of that round read. The fonts must fit on a display,
-- and `linebuf` have a line.
pub main-Goes :
    (b : Bitmaps) (d : Driver) (panels : ℕ → Panel) (low : ℕ → Bool) (by_watchdog : Bool)
    (p : PersistentState) (flash : FlashConfig) (added : Bool) (input : StartInput)
    (rs : List Round) (r : Round)
    → FontsFit b
    → lcd_width * 2 ≤ length d.linebuf
    → has_timer r.before ≡ true
    → held_low factory_reset_readings 0 low ≡ false
    → flash.magic_marker ≡ config_magic
    → start_error input ≡ none
    → Sends input.net
    → GoesWell low by_watchdog p flash input (rs ++ (r ∷ []))
    → Goes
        (ShowsTime b flash r)
        b
        (d, panels)
        (main low by_watchdog p flash added input (rs ++ (r ∷ [])))
main-Goes b d panels low by_watchdog p flash added input rs r fonts buf timer free valid starts
      sends well =
    let rounds = rs ++ (r ∷ []) in
    Runs-Goes (ShowsTime b flash r) b (d, panels)
      (PowerOnReason low by_watchdog p flash input rounds)
      (main low by_watchdog p flash added input rounds)
      (main-ShowsText b d panels low by_watchdog p flash added input rs r fonts buf timer)
      (main-Just low by_watchdog p flash added input rounds)
      (no_PowerOnReason low by_watchdog p flash input rounds free valid starts sends well)
