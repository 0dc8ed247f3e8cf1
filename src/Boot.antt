-- ===== src/Boot.antt =====
-- The boot of the clock: `config_store_handler`, `clock_init` and `clock_start` of src/clock.c. The
-- start of the access point is one effect. The flash is the struct that is read at `FLASH_CONFIG_ADDR`: it fits in one page, and
-- the rest of the page is not read.
pub mod Init
pub mod Start
pub mod Main
mod Examples
use picow_day_clock.Base.{
  ℕ, zero, suc, ◌+◌, ◌*◌, ◌/◌, ◌%◌, ◌^◌, Bool, true, false, not, List, [], ◌∷◌, ◌++◌, map,
  replicate, ◌==◌, if◌then◌else◌,
}
use picow_day_clock.Base.Int.{pos}
use picow_day_clock.Dst.{Rule}
use picow_day_clock.Ntp
use picow_day_clock.Ntp.{
  NtpState, NtpStatus, NtpError, DnsStatus, Lwip, ntp_init, ntp_request_async,
}
use picow_day_clock.Config.{
  WatchdogError, WifiError, FlashConfig, PersistentState, config_magic, ntp_sync_interval_sec,
  factory_reset_hold_time_ms,
}
use picow_day_clock.Clock
use picow_day_clock.Clock.{
  ClockState, Outcome, running, reboot, lcd_clear_screen, lcd_print_line, lcd_update_icons,
  watchdog_enable, lwip, Color, init_ok_message, flash_error_message, wifi_error_message,
  wifi_ok_message, fatal_reset,
}

pub data Effect : Type 0 where
  clock : Clock.Effect → Effect
  flash_range_program : FlashConfig → Effect
  start_wifi_access_point system_reboot : Effect
  stdio_init_all adc_init : Effect
  gpio_init gpio_set_dir_in gpio_pull_up adc_gpio_init : (pin : ℕ) → Effect
  lcd_init : (lcd_num : ℕ) (reset : Bool) → Effect
  sleep_ms : ℕ → Effect

abbrev pub factory_reset_gpio : ℕ
factory_reset_gpio = 9

abbrev pub ambient_light_gpio : ℕ
ambient_light_gpio = 26

abbrev pub num_lcds : ℕ
num_lcds = 7

-- The flash after the call, whether it returns, and its effects.
unfoldable pub config_store_handler : FlashConfig → Bool → FlashConfig × Bool × List Effect
config_store_handler config invalidate =
    let stored = record config { magic_marker = if invalidate then 0xffffffff else config_magic } in
    (
      stored,
      not invalidate,
      flash_range_program stored ∷ (if invalidate then system_reboot ∷ [] else []),
    )

-- How `clock_init` ends.
pub data End : Type 0 where
  ready : ClockState → End
  rebooted : End

abbrev pub Result : Type 0
Result = End × PersistentState × FlashConfig × List Effect

abbrev pub empty_config : FlashConfig
empty_config = record {
  magic_marker = 0;
  wifi_ssid = replicate 33 0;
  wifi_password = replicate 64 0;
  ntp_server = replicate 65 0;
  tz_offset_mins = pos 0;
  dst_rule = Rule.none;
  ntp_timeout = 0;
  ntp_port = 0;
  led_always_on = false;
}

-- `memset(state, 0, …)`
abbrev pub empty_state : ClockState
empty_state = record {
  ntp_time = pos 0;
  clock_tick_updated = false;
  ntp_time_updated = false;
  ap_mode_triggered = false;
  ntp_state = record {
    ntp_port = 0;
    ntp_server_address = 0;
    ntp_pcb = false;
    request_start_ms = 0;
    error = NtpError.ok;
    status = NtpStatus.idle;
  };
  ntp_last_sync = pos 0;
  ntp_interval = 0;
  current_lcd_digits = replicate 7 0;
  flash_config = empty_config;
  cold_boot = false;
  last_watchdog_error_time = pos 0;
  watchdog_reset_error = WatchdogError.ok;
  ntp_reset_error = NtpError.ok;
  wifi_reset_error = WifiError.ok;
  first_clock_tick = false;
  wifi_initialized = false;
}

-- The loop over the factory reset pin: whether it is low at each of `n` readings from the `i`-th on.
unfoldable pub held_low : ℕ → ℕ → (ℕ → Bool) → Bool
held_low zero i low = true
held_low (suc n) i low = let rest = held_low n (suc i) low in if low i then rest else false

-- The sleeps of that loop, one after each reading that finds the pin low.
unfoldable pub reading_sleeps : ℕ → ℕ → (ℕ → Bool) → List Effect
reading_sleeps zero i low = []
reading_sleeps (suc n) i low =
    let rest = reading_sleeps n (suc i) low in if low i then sleep_ms 100 ∷ rest else []

abbrev pub factory_reset_readings : ℕ
factory_reset_readings = factory_reset_hold_time_ms / 100

-- The error that is shown for the reset before this boot.
unfoldable pub reset_reason : NtpError → WifiError → WatchdogError
reset_reason NtpError.ok WifiError.ok = WatchdogError.reset
reset_reason NtpError.ok wifi_error = WatchdogError.wifi
reset_reason ntp_error wifi_error = WatchdogError.ntp

-- The part of `clock_init` from the test of the flash on. The flash of the result is the one with which
-- the access point starts.
unfoldable pub check_flash : ClockState → PersistentState → FlashConfig → Result
check_flash s persistent flash =
    if flash.magic_marker == config_magic
    then (
      ready (record s {
        flash_config = flash;
        ntp_last_sync = s.ntp_time;
        ntp_interval = ntp_sync_interval_sec;
        first_clock_tick = true;
      }),
      persistent,
      flash,
      [],
    )
    else (
      rebooted,
      persistent,
      flash,
      clock (lcd_print_line Color.red flash_error_message)
          ∷ clock (lcd_print_line Color.red wifi_error_message)
          ∷ start_wifi_access_point
          ∷ system_reboot
          ∷ [],
    )

abbrev pub preceded : List Effect → Result → Result
preceded es (o, persistent, flash, fs) = (o, persistent, flash, es ++ fs)

abbrev cold_persistent_state : PersistentState
cold_persistent_state = record {
  magic_marker = config_magic;
  boot_count = 0;
  watchdog_error = WatchdogError.ok;
  ntp_error = NtpError.ok;
  wifi_error = WifiError.ok;
}

-- The pins of the button and the light sensor.
abbrev pub set_up_pins : List Effect
set_up_pins =
    stdio_init_all
    ∷ gpio_init factory_reset_gpio
    ∷ gpio_set_dir_in factory_reset_gpio
    ∷ gpio_pull_up factory_reset_gpio
    ∷ adc_init
    ∷ adc_gpio_init ambient_light_gpio
    ∷ []

-- The loop over the displays, from display `ii` on.
unfoldable pub init_displays : ℕ → ℕ → List Effect
init_displays zero ii = []
init_displays (suc n) ii =
    lcd_init ii (ii == 0) ∷ clock (lcd_clear_screen ii) ∷ init_displays n (suc ii)

-- `low` are the readings of the factory reset pin, `by_watchdog` is `watchdog_caused_reboot`.
unfoldable pub clock_init : (ℕ → Bool) → Bool → PersistentState → FlashConfig → Result
unfolding config_store_handler
clock_init low by_watchdog persistent flash =
    let (erased, _, erasing) = config_store_handler empty_config true in
    let reason = reset_reason persistent.ntp_error persistent.wifi_error in
    let counted = record persistent {
      boot_count = (persistent.boot_count + 1) % 2 ^ 32;
      ntp_error = NtpError.ok;
      wifi_error = WifiError.ok;
    } in
    let cold =
      preceded (clock (lcd_print_line Color.green init_ok_message) ∷ [])
        (check_flash (record empty_state { cold_boot = true }) cold_persistent_state flash) in
    let warm =
      preceded (clock (lcd_update_icons reason persistent.ntp_error persistent.wifi_error) ∷ []) (
        check_flash
          (record empty_state {
            watchdog_reset_error = reason;
            ntp_reset_error = persistent.ntp_error;
            wifi_reset_error = persistent.wifi_error;
          })
          counted flash) in
    let sleeps = reading_sleeps factory_reset_readings 0 low in
    preceded (set_up_pins ++ (init_displays num_lcds 0 ++ sleeps)) (
      if held_low factory_reset_readings 0 low
      then (rebooted, persistent, erased, erasing)
      else if not by_watchdog
      then cold
      else warm)
