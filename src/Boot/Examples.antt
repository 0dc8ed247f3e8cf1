-- ===== src/Boot/Examples.antt =====
-- The theorems on the boot of src/clock.c at concrete runs.
use picow_day_clock.Base.{
  zero, suc, ℕ, ◌+◌, ◌%◌, ◌^◌, ◌≡◌, refl, Bool, true, false, none, arith, List, [], ◌∷◌, ◌++◌,
}
use picow_day_clock.Base.Int.{pos}
use picow_day_clock.Ntp.{NtpError, NtpStatus, in_progress}
use picow_day_clock.Config.{FlashConfig, PersistentState, WatchdogError, WifiError, config_magic}
use picow_day_clock.Clock.{ClockState, TaskInput, reboot, lcd_update_icons}
use picow_day_clock.Clock.Task.{clock_task}
use picow_day_clock.Boot.{
  Effect, clock, ready, rebooted, empty_config, empty_state, config_store_handler, clock_init,
  held_low, factory_reset_readings,
}
use picow_day_clock.Boot.Init.{clock_init-config_store_handler, clock_init-clock_task}
use picow_day_clock.Boot.Start.{StartInput, StartEnds, clock_start, clock_start-StartEnds}

abbrev home : FlashConfig
home = record empty_config { magic_marker = config_magic; ntp_timeout = 10000; ntp_port = 123 }

abbrev booted : PersistentState
booted = record {
  magic_marker = config_magic;
  boot_count = 1;
  watchdog_error = WatchdogError.ok;
  ntp_error = NtpError.ok;
  wifi_error = WifiError.ok;
}

-- A pin that is let go after a second, and one that is held.
abbrev let_go : ℕ → Bool
let_go n = elim n [ zero ↦ true | suc m ↦ false ]

abbrev held : ℕ → Bool
held n = true

let_go_in_time : held_low factory_reset_readings 0 let_go ≡ false
unfolding held_low
let_go_in_time = refl

held_throughout : held_low factory_reset_readings 0 held ≡ true
unfolding held_low
held_throughout = refl

clock_init-config_store_handler_example :
    ((s : ClockState) × ((clock_init let_go true booted
          (config_store_handler empty_config false).0).0
        ≡ ready s)
      × (s.flash_config ≡ record empty_config { magic_marker = config_magic }))
    × ((clock_init let_go true booted (config_store_handler empty_config true).0).0 ≡ rebooted)
clock_init-config_store_handler_example =
    clock_init-config_store_handler empty_config let_go true booted let_go_in_time

-- A tick with a request that failed in DNS.
abbrev failing : ClockState
failing = record empty_state {
  clock_tick_updated = true;
  flash_config = home;
  ntp_state = record {
    ntp_port = 123;
    ntp_server_address = 0;
    ntp_pcb = true;
    request_start_ms = 1000;
    error = NtpError.dns_error;
    status = NtpStatus.failed;
  };
}

abbrev tick : TaskInput
tick = record {
  sync_now = pos 0;
  utc_now = pos 5;
  now_ms = 2000;
  dns = in_progress;
  net = record { has_pbuf = true; send_err = 0 };
}

clock_init-clock_task_example :
    (p' : PersistentState) × ((clock_task booted failing tick).0 ≡ reboot p')
    × (es : List Effect) × ((clock_init let_go true p' home).3
        ≡ es ++ (clock (lcd_update_icons WatchdogError.ntp NtpError.dns_error WifiError.ok) ∷ []))
    × (t : ClockState) × ((clock_init let_go true p' home).0 ≡ ready t)
    × (t.ntp_reset_error ≡ NtpError.dns_error)
    × (t.watchdog_reset_error ≡ WatchdogError.ntp)
    × ((clock_init let_go true p' home).1.ntp_error ≡ NtpError.ok)
    × ((clock_init let_go true p' home).1.boot_count ≡ (1 + 1) % 2 ^ 32)
clock_init-clock_task_example =
    clock_init-clock_task booted failing tick NtpError.dns_error let_go home refl refl
      (ground arith) let_go_in_time refl

abbrev answers : StartInput
answers = record {
  wifi_status = WifiError.ok;
  wifi_initialized = true;
  has_pcb = true;
  now_ms = 3000;
  dns = in_progress;
  net = record { has_pbuf = true; send_err = 0 };
  clock_timer = true;
  backlight_timer = true;
}

clock_start-StartEnds_example :
    StartEnds booted
      (record empty_state { flash_config = home })
      none
      (clock_start booted (record empty_state { flash_config = home }) answers).0
clock_start-StartEnds_example =
    clock_start-StartEnds booted (record empty_state { flash_config = home }) answers
