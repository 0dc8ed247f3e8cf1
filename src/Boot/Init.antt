-- ===== src/Boot/Init.antt =====
-- What src/clock.c's `clock_init` makes of the flash and of the errors of the run before.
use picow_day_clock.Base.{
  ℕ, Bool-cases, inl, inr, subst, ap, ◌+◌, ◌%◌, ◌^◌, ◌≡◌, ◌≢◌, refl, List, [], ◌∷◌, ◌++◌, Bool,
  true, false, ◌==◌, some, arith,
}
use picow_day_clock.Ntp.{NtpError, ntp_atomic_read}
use picow_day_clock.Config.{
  WatchdogError, WifiError, FlashConfig, PersistentState, config_magic, ntp_sync_interval_sec,
}
use picow_day_clock.Clock.{ClockState, reboot, TaskInput, lcd_update_icons}
use picow_day_clock.Clock.Task.{clock_task}
use picow_day_clock.Clock.Supervise.{reset_error, after_sync, clock_task-Ends, Ends}
use picow_day_clock.Boot.{
  Effect, clock, num_lcds, set_up_pins, init_displays, reading_sleeps, empty_state, empty_config,
  ready, rebooted, config_store_handler, held_low, factory_reset_readings, reset_reason,
  check_flash, clock_init,
}

-- The boot after a reset, the button not being held: its calls end with the icons of the errors.
clock_init_icons :
    (low : ℕ → Bool) (p : PersistentState) (flash : FlashConfig)
    → held_low factory_reset_readings 0 low ≡ false
    → flash.magic_marker ≡ config_magic
    → (es : List Effect) × ((clock_init low true p flash).3
        ≡ es
          ++ (clock
                (lcd_update_icons (reset_reason p.ntp_error p.wifi_error) p.ntp_error p.wifi_error)
              ∷ []))
unfolding clock_init check_flash
clock_init_icons low p flash released valid =
    let known : (flash.magic_marker == config_magic) ≡ true = ground arith in
    let es =
      set_up_pins ++ (init_displays num_lcds 0 ++ reading_sleeps factory_reset_readings 0 low) in
    rw (released, known) (es, refl)

-- The state that a boot after a reset returns.
abbrev warm_state : PersistentState → FlashConfig → ClockState
warm_state p flash = record empty_state {
  watchdog_reset_error = reset_reason p.ntp_error p.wifi_error;
  ntp_reset_error = p.ntp_error;
  wifi_reset_error = p.wifi_error;
  flash_config = flash;
  ntp_interval = ntp_sync_interval_sec;
  first_clock_tick = true;
}

abbrev warm_persistent : PersistentState → PersistentState
warm_persistent p = record p {
  boot_count = (p.boot_count + 1) % 2 ^ 32;
  ntp_error = NtpError.ok;
  wifi_error = WifiError.ok;
}

clock_init_warm :
    (low : ℕ → Bool) (p : PersistentState) (flash : FlashConfig)
    → held_low factory_reset_readings 0 low ≡ false
    → flash.magic_marker ≡ config_magic
    → ((clock_init low true p flash).0 ≡ ready (warm_state p flash))
      × ((clock_init low true p flash).1 ≡ warm_persistent p)
unfolding clock_init check_flash
clock_init_warm low p flash released valid =
    let known : (flash.magic_marker == config_magic) ≡ true = ground arith in
    rw (released, known) (refl, refl)

pub clock_init_invalid :
    (low : ℕ → Bool) (by_watchdog : Bool) (p : PersistentState) (flash : FlashConfig)
    → (flash.magic_marker == config_magic) ≡ false
    → (clock_init low by_watchdog p flash).0 ≡ rebooted
unfolding clock_init check_flash
clock_init_invalid low by_watchdog p flash invalid =
    elim (Bool-cases (held_low factory_reset_readings 0 low)) [
      | inl held ↦ rw held refl
      | inr released ↦ elim (Bool-cases by_watchdog) [
        | inl warm ↦ rw (released, warm, invalid) refl
        | inr cold ↦ rw (released, cold, invalid) refl
      ]
    ]

reset_reason_ntp :
    (e : NtpError) (w : WifiError) → e ≢ NtpError.ok → reset_reason e w ≡ WatchdogError.ntp
unfolding reset_reason
reset_reason_ntp e w h = ground arith

-- A configuration that was stored is the one that the next boot loads, unless the factory reset
-- button is held. After an invalidation no boot gets to run the clock.
pub clock_init-config_store_handler :
    (config : FlashConfig) (low : ℕ → Bool) (by_watchdog : Bool) (p : PersistentState)
    → held_low factory_reset_readings 0 low ≡ false
    → ((s : ClockState) × ((clock_init low by_watchdog p (config_store_handler config false).0).0
          ≡ ready s)
        × (s.flash_config ≡ record config { magic_marker = config_magic }))
      × ((clock_init low by_watchdog p (config_store_handler config true).0).0 ≡ rebooted)
unfolding clock_init check_flash config_store_handler
clock_init-config_store_handler config low true p released = rw released ((_, refl, refl), refl)
clock_init-config_store_handler config low false p released = rw released ((_, refl, refl), refl)

-- The factory reset: if the button is held at boot, the Pico reboots, and no later boot gets to run
-- the clock on that flash.
clock_init_factory_reset :
    (low later_low : ℕ → Bool) (by_watchdog later_by_watchdog : Bool) (p later_p : PersistentState)
    (flash : FlashConfig)
    → held_low factory_reset_readings 0 low ≡ true
    → let r = clock_init low by_watchdog p flash in
      (r.0 ≡ rebooted) × ((clock_init later_low later_by_watchdog later_p r.2).0 ≡ rebooted)
unfolding clock_init check_flash config_store_handler
clock_init_factory_reset low later_low by_watchdog later_by_watchdog p later_p flash held =
    rw held (
      refl,
      clock_init_invalid later_low later_by_watchdog later_p
          (config_store_handler empty_config true).0 refl,
    )

-- The error for which `clock_task` resets the Pico is the one that the next boot shows: the calls of
-- that boot end with the drawing of the NTP watchdog icon and the icon of that NTP error, its state
-- remembers both, it has counted one more boot, and it has cleared the error for the boot after it. The
-- flash must hold a configuration and the button must not be held.
pub clock_init-clock_task :
    (p : PersistentState) (s : ClockState) (input : TaskInput) (e : NtpError) (low : ℕ → Bool)
    (flash : FlashConfig)
    → s.clock_tick_updated ≡ true
    → reset_error s.ntp_state.status
        (ntp_atomic_read s.ntp_state)
        (after_sync s input.sync_now)
        input
      ≡ some e
    → e ≢ NtpError.ok
    → held_low factory_reset_readings 0 low ≡ false
    → flash.magic_marker ≡ config_magic
    → (p' : PersistentState) × ((clock_task p s input).0 ≡ reboot p')
      × (es : List Effect) × ((clock_init low true p' flash).3
          ≡ es ++ (clock (lcd_update_icons WatchdogError.ntp e WifiError.ok) ∷ []))
      × (t : ClockState) × ((clock_init low true p' flash).0 ≡ ready t)
      × (t.ntp_reset_error ≡ e)
      × (t.watchdog_reset_error ≡ WatchdogError.ntp)
      × ((clock_init low true p' flash).1.ntp_error ≡ NtpError.ok)
      × ((clock_init low true p' flash).1.boot_count ≡ (p.boot_count + 1) % 2 ^ 32)
clock_init-clock_task p s input e low flash tick due real released valid =
    let saved : PersistentState = record p { ntp_error = e; wifi_error = WifiError.ok } in
    let warm = clock_init_warm low saved flash released valid in
    let icons = clock_init_icons low saved flash released valid in
    (
      saved,
      subst (λ x. Ends p x (clock_task p s input).0) due (clock_task-Ends p s input tick),
      icons.0,
      subst
          (λ w.
            (clock_init low true saved flash).3
            ≡ icons.0 ++ (clock (lcd_update_icons w e WifiError.ok) ∷ []))
          (reset_reason_ntp e WifiError.ok real) icons.1,
      warm_state saved flash,
      warm.0,
      refl,
      reset_reason_ntp e WifiError.ok real,
      ap (λ x. x.ntp_error) warm.1,
      ap (λ x. x.boot_count) warm.1,
    )
