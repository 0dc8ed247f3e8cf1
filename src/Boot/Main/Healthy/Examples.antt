-- ===== src/Boot/Main/Healthy/Examples.antt =====
-- A run of src/pico_main.c's `main` in which nothing goes wrong, and its reasons for a reboot.
use picow_day_clock.Base.{refl, true, false, [], ◌∷◌, inr, arith}
use picow_day_clock.Base.Int.{◌+ℤ◌, scale}
use picow_day_clock.Calendar.{gmtime}
use picow_day_clock.Dst.{calculate_local_time, time_is_dst}
use picow_day_clock.Ntp.{
  ntp_init, ntp_request_async, ntp_atomic_status, ntp_dns_callback, ntp_recv_callback,
  ntp_start_udp_request, seconds_since_1900, seconds_since_1970,
}
use picow_day_clock.Clock.{
  lcd_digits, digits_differ, process_ntp_time, clock_timer_callback, ntp_timer_callback,
  fatal_reset, update_display,
}
use picow_day_clock.Clock.Task.{
  clock_task, tick_task, supervise_ntp, supervise_status, check_interval, check_status,
  start_ntp_check,
}
use picow_day_clock.Boot.{
  clock_init, held_low, check_flash, config_store_handler, init_displays, reading_sleeps,
  reset_reason,
}
use picow_day_clock.Boot.Start.{clock_start, check_request, check_wifi, start_ntp, start_timers}
use picow_day_clock.Boot.Main.{interrupts, interrupt, main, startup_led_callback}
use picow_day_clock.Boot.Main.Sample.{
  booted, bitmaps, bitmaps_fit, driver, power_on, home, connected, found, fired,
}
use picow_day_clock.Boot.Main.Faces.{ShowsTime}
use picow_day_clock.Boot.Main.Reboot.{Just}
use picow_day_clock.Boot.Main.Reboot.PowerOn.{PowerOnReason, main-Just}
use picow_day_clock.Boot.Main.Healthy.PowerOn.{GoesWell, Goes, main-Goes}

run_well : GoesWell (λ n. false) false booted home connected (found ∷ fired ∷ [])
unfolding clock_init held_low check_flash config_store_handler init_displays reading_sleeps
    reset_reason clock_start check_request check_wifi start_ntp start_timers ntp_init
    ntp_request_async ntp_atomic_status ntp_dns_callback ntp_recv_callback ntp_start_udp_request
    seconds_since_1900 seconds_since_1970 process_ntp_time clock_timer_callback ntp_timer_callback
    fatal_reset update_display digits_differ clock_task tick_task supervise_ntp supervise_status
    check_interval check_status start_ntp_check lcd_digits gmtime ◌+ℤ◌ calculate_local_time
    time_is_dst scale interrupts interrupt startup_led_callback
run_well = (
  ((omega arith, (refl, refl)), (tt, tt)),
  ((λ e. omega arith), refl, (refl, refl)),
  (
    (
      (
        record { from_server = refl; from_port = refl; size = refl; mode = refl },
        inr (omega arith),
      ),
      (refl, tt),
    ),
    ((λ e. omega arith), refl, (refl, refl)),
    tt,
  ),
)

main-Goes_example :
    Goes
      (ShowsTime bitmaps home fired)
      bitmaps
      (driver, power_on)
      (main (λ n. false) false booted home true connected (found ∷ fired ∷ []))
unfolding held_low
main-Goes_example =
    main-Goes bitmaps driver power_on (λ n. false) false booted home true connected (found ∷ [])
      fired bitmaps_fit (omega arith) refl refl refl refl (refl, refl) run_well

main-Just_example :
    Just
      (PowerOnReason (λ n. false) false booted home connected (found ∷ fired ∷ []))
      (main (λ n. false) false booted home true connected (found ∷ fired ∷ [])).0
main-Just_example = main-Just (λ n. false) false booted home true connected (found ∷ fired ∷ [])
