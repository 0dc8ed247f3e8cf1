-- ===== src/Clock/Examples.antt =====
-- The theorems on the clock task of src/clock.c at concrete states.
use picow_day_clock.Base.{◌-◌, ◌≡◌, ◌||◌, refl, arith, some, [], ◌∷◌, true, false, codes, replicate}
use picow_day_clock.Base.Int.{pos}
use picow_day_clock.Dst.{Rule}
use picow_day_clock.Ntp.{NtpState, NtpStatus, NtpError, ntp_atomic_read, in_progress}
use picow_day_clock.Config.{FlashConfig, PersistentState, WatchdogError, WifiError, config_magic}
use picow_day_clock.Clock.{ClockState, TaskInput}
use picow_day_clock.Clock.Task.{clock_task}
use picow_day_clock.Clock.Display.{show_all}
use picow_day_clock.Clock.Shows.{Returns, digits_at, clock_task_shows}
use picow_day_clock.Clock.Supervise.{reset_error, Ends, after_sync, clock_task-Ends}
use picow_day_clock.Clock.Button.{run_timer, pressed_for, three_pressed, run_timer_lem}

-- A clock in Berlin.
abbrev home : FlashConfig
home = record {
  magic_marker = config_magic;
  wifi_ssid = replicate 33 0;
  wifi_password = replicate 64 0;
  ntp_server = replicate 65 0;
  tz_offset_mins = pos 60;
  dst_rule = Rule.eu;
  ntp_timeout = 10000;
  ntp_port = 123;
  led_always_on = false;
}

-- A request that began 11 seconds ago and has no answer.
abbrev waiting : NtpState
waiting = record {
  ntp_port = 123;
  ntp_server_address = 0x0a000001;
  ntp_pcb = true;
  request_start_ms = 5000;
  error = NtpError.ok;
  status = NtpStatus.pending;
}

abbrev ticking : ClockState
ticking = record {
  ntp_time = pos 0;
  clock_tick_updated = true;
  ntp_time_updated = false;
  ap_mode_triggered = false;
  ntp_state = waiting;
  ntp_last_sync = pos 1752537600;
  ntp_interval = 86400;
  current_lcd_digits = codes "Tue0159";
  flash_config = home;
  cold_boot = false;
  last_watchdog_error_time = pos 0;
  watchdog_reset_error = WatchdogError.reset;
  ntp_reset_error = NtpError.ok;
  wifi_reset_error = WifiError.ok;
  first_clock_tick = false;
  wifi_initialized = true;
}

abbrev booted : PersistentState
booted = record {
  magic_marker = config_magic;
  boot_count = 1;
  watchdog_error = WatchdogError.ok;
  ntp_error = NtpError.ok;
  wifi_error = WifiError.ok;
}

-- A tick at 15 July 2025, 00:00:00 UTC.
abbrev midnight : TaskInput
midnight = record {
  sync_now = pos 1752537600;
  utc_now = pos 1752537600;
  now_ms = 16000;
  dns = in_progress;
  net = record { has_pbuf = true; send_err = 0 };
}

clock_task_shows_example :
    let r = clock_task booted ticking midnight in
    (show_all (codes "Tue0159") r.1 ≡ digits_at ticking (pos 1752537600))
    × Returns
        (λ t.
          (t.current_lcd_digits ≡ digits_at ticking (pos 1752537600))
          × (t.first_clock_tick ≡ false))
        r.0
clock_task_shows_example =
    clock_task_shows booted ticking midnight (codes "Tue0159") refl refl refl (λ _. refl)

clock_task-Ends_example :
    Ends booted
      (reset_error NtpStatus.pending
        (ntp_atomic_read waiting)
        (after_sync ticking (pos 1752537600))
        midnight)
      (clock_task booted ticking midnight).0
clock_task-Ends_example = clock_task-Ends booted ticking midnight refl

-- The request has waited too long.
timeout_due :
    reset_error NtpStatus.pending
      (ntp_atomic_read waiting)
      (after_sync ticking (pos 1752537600))
      midnight
    ≡ some NtpError.timeout_error
timeout_due = refl

run_timer_lem_example :
    let ps = true ∷ true ∷ false ∷ true ∷ true ∷ true ∷ [] in
    (run_timer ticking 0 ps).0.ap_mode_triggered
    ≡ (false || pressed_for (3 - 0) ps || three_pressed ps)
run_timer_lem_example =
    run_timer_lem ticking 0 (true ∷ true ∷ false ∷ true ∷ true ∷ true ∷ []) (omega arith)
