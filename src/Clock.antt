-- ===== src/Clock.antt =====
-- The clock of src/clock.c while it runs: `clock_state_t` of src/clock.h, the callbacks, and
-- `clock_task`. The SDK and the drivers of src/lcd.c are reached through effects, which a function
-- returns in the order of the calls. The callbacks of lwIP and the timers run between two calls
-- of `clock_task`, not inside one. What the SDK answers (the time of day, the milliseconds since boot, DNS)
-- is a `TaskInput`.
pub mod Task
pub mod Display
pub mod Shows
pub mod Supervise
pub mod Icons
pub mod Button
mod Examples
use picow_day_clock.Base.{
  ℕ, ◌+◌, ◌-◌, ◌*◌, ◌/◌, ◌%◌, ◌^◌, Bool, true, false, not, ◌||◌, List, [], ◌∷◌, ◌++◌, codes, ltb,
  leb, ◌==◌, get_or, if◌then◌else◌,
}
use picow_day_clock.Base.Int.{ℤ, pos, ◌+ℤ◌, ◌-ℤ◌, ltb_ℤ, leb_ℤ}
use picow_day_clock.Calendar.{gmtime, Tm}
use picow_day_clock.Dst.{calculate_local_time}
use picow_day_clock.Ntp
use picow_day_clock.Ntp.{
  NtpState, NtpError, NtpStatus, Lwip, DnsStatus, ntp_atomic_status, ntp_atomic_read,
  ntp_request_async,
}
use picow_day_clock.Config.{
  WatchdogError, WifiError, FlashConfig, PersistentState, watchdog_icon_interval,
  factory_reset_hold_time_ms,
}

-- `clock_state_t`, without the timers and the pins of the displays. `ap_mode_triggered` and the two
-- flags that interrupts set are Booleans.
pub record ClockState : Type 0 where
  pub ntp_time : ℤ
  pub clock_tick_updated : Bool
  pub ntp_time_updated : Bool
  pub ap_mode_triggered : Bool
  pub ntp_state : NtpState
  pub ntp_last_sync : ℤ
  pub ntp_interval : ℕ
  pub current_lcd_digits : List ℕ
  pub flash_config : FlashConfig
  pub cold_boot : Bool
  pub last_watchdog_error_time : ℤ
  pub watchdog_reset_error : WatchdogError
  pub ntp_reset_error : NtpError
  pub wifi_reset_error : WifiError
  pub first_clock_tick : Bool
  pub wifi_initialized : Bool

-- `color_t`
pub data Color : Type 0 where
  black red green cyan : Color

-- `lcd_status_message_t`
pub data Message : Type 0 where
  init_ok_message flash_error_message wifi_error_message wifi_ok_message : Message

-- Calls on the displays and the SDK. A number is the index of a display.
pub data Effect : Type 0 where
  lcd_clear_screen : ℕ → Effect
  lcd_print_clock_digit : ℕ → Color → ℕ → Effect
  lcd_update_icons : WatchdogError → NtpError → WifiError → Effect
  lcd_print_line : Color → Message → Effect
  watchdog_update watchdog_enable watchdog_reboot : Effect
  settimeofday : ℤ → Effect
  lwip : Ntp.Effect → Effect

-- A call either returns with a state, or the Pico reboots and only the persistent state is left.
pub data Outcome : Type 0 where
  running : ClockState → Outcome
  reboot : PersistentState → Outcome

-- `ntp_timer_callback`
unfoldable pub ntp_timer_callback : ClockState → ℤ → ClockState
ntp_timer_callback s time = record s { ntp_time = time; ntp_time_updated = true }

-- `clock_timer_callback`, with its static `button_hold_seconds` (a `uint8_t`). The argument is whether
-- the factory reset pin reads 0.
unfoldable pub clock_timer_callback : ClockState → ℕ → Bool → ClockState × ℕ
clock_timer_callback s button_hold_seconds pressed =
    let held = (button_hold_seconds + 1) % 2 ^ 8 in
    let ticked = record s { clock_tick_updated = true } in
    if pressed
    then (if leb (factory_reset_hold_time_ms / 1000) held
        then (record ticked { ap_mode_triggered = true }, 0)
        else (ticked, held))
    else (ticked, 0)

-- `fatal_reset` of src/pico_main.c.
unfoldable pub fatal_reset : PersistentState → NtpError → WifiError → Outcome × List Effect
fatal_reset persistent ntp_error wifi_error = (
  reboot (record persistent { ntp_error = ntp_error; wifi_error = wifi_error }),
  lcd_update_icons WatchdogError.reset ntp_error wifi_error ∷ watchdog_reboot ∷ [],
)

-- What `clock_task` reads from the SDK: `time(NULL)` after a sync and at the tick, the 32-bit
-- milliseconds since boot, and the answers to a new NTP request.
pub record TaskInput : Type 0 where
  pub sync_now : ℤ
  pub utc_now : ℤ
  pub now_ms : ℕ
  pub dns : DnsStatus
  pub net : Lwip

abbrev pub day_of_week_str : ℕ → List ℕ
day_of_week_str n =
    if n == 0
    then codes "Sun"
    else if n == 1
    then codes "Mon"
    else if n == 2
    then codes "Tue"
    else if n == 3
    then codes "Wed"
    else if n == 4
    then codes "Thu"
    else if n == 5
    then codes "Fri"
    else codes "Sat"

-- `lcd_digits` without its final NUL.
unfoldable pub lcd_digits : Tm → List ℕ
lcd_digits t =
    day_of_week_str t.tm_wday
    ++ ((b'0' + t.tm_hour / 10)
        ∷ (b'0' + t.tm_hour % 10)
        ∷ (b'0' + t.tm_min / 10)
        ∷ (b'0' + t.tm_min % 10)
        ∷ [])

-- The loop that sets `digits_changed`, over the digits shown and the new ones.
unfoldable pub digits_differ : Bool → List ℕ → List ℕ → Bool
digits_differ first (c ∷ cs) (d ∷ ds) = not (c == d) || first || digits_differ first cs ds
digits_differ first _ _ = false

-- What the loop that draws does for display `ii`, at which the icons are drawn once.
abbrev pub draw_digit : Bool → Effect → ℕ → ℕ → ℕ → List Effect
draw_digit first icons ii c d =
    (if not (c == d) || first
      then lcd_clear_screen ii ∷ lcd_print_clock_digit ii (if ltb ii 3 then cyan else green) d ∷ []
      else [])
    ++ (if ii == 0 then icons ∷ [] else [])

unfoldable pub draw_digits : Bool → Effect → ℕ → List ℕ → List ℕ → List Effect
draw_digits first icons ii (c ∷ cs) (d ∷ ds) =
    draw_digit first icons ii c d ++ draw_digits first icons (ii + 1) cs ds
draw_digits first icons ii _ _ = []

-- The part of `clock_task` that follows new NTP data.
unfoldable pub process_ntp_time : ClockState → ℤ → ClockState × List Effect
process_ntp_time s sync_now =
    if s.ntp_time_updated
    then (
      record s { ntp_time_updated = false; ntp_last_sync = sync_now },
      settimeofday s.ntp_time ∷ [],
    )
    else (s, [])

-- The part from `calculate_local_time` to the end of the drawing loop. `ntp_error` is the error that
-- was read at the start of the task.
unfoldable pub update_display : ClockState → NtpError → ℤ → ClockState × List Effect
update_display s ntp_error utc_now =
    let local_epoch =
      calculate_local_time utc_now s.flash_config.tz_offset_mins s.flash_config.dst_rule in
    let digits = lcd_digits (gmtime local_epoch) in
    let shown_long = ltb_ℤ (s.last_watchdog_error_time +ℤ pos watchdog_icon_interval) local_epoch in
    let watchdog = if shown_long then WatchdogError.ok else s.watchdog_reset_error in
    let s' = record s { watchdog_reset_error = watchdog } in
    let icons = lcd_update_icons watchdog ntp_error WifiError.ok in
    if digits_differ s.first_clock_tick s.current_lcd_digits digits
    then (
      record s' { current_lcd_digits = digits },
      draw_digits s.first_clock_tick icons 0 s.current_lcd_digits digits,
    )
    else (s', [])
