-- ===== src/Boot/Main/Examples.antt =====
-- The theorems on the main loop of src/pico_main.c at concrete states.
use picow_day_clock.Base.{ℕ, ◌≡◌, refl, true, false, List, [], replicate, ◌∷◌, ◌++◌, map, arith}
use picow_day_clock.Base.Int.{pos}
use picow_day_clock.Ntp.{NtpStatus, NtpError}
use picow_day_clock.Clock.{
  settimeofday, lcd_digits, digits_differ, ClockState, TaskInput, process_ntp_time,
  clock_timer_callback, ntp_timer_callback, fatal_reset, update_display,
}
use picow_day_clock.Clock.Task.{clock_task}
use picow_day_clock.Boot.{clock, empty_state}
use picow_day_clock.Boot.Main.{boot, rebooted, main_round, received, main, interrupt}
use picow_day_clock.Boot.Main.Run.{Runs}
use picow_day_clock.Boot.Main.Display.{Displayed}
use picow_day_clock.Ntp.Timestamp.{ntp_timestamp, timestamp_bytes, IsStamped}
use picow_day_clock.Ntp.Receive.{IsTime}
use picow_day_clock.Clock
use picow_day_clock.Boot.Main.Sync.{received-settimeofday}
use picow_day_clock.Boot.Main.Faces.{ShowsTime, main-ShowsText, main-Displayed}
use picow_day_clock.Boot.Main.Button.{access_point, main_round-access_point}
use picow_day_clock.Boot.Main.Sample.{
  booted, tick, bitmaps, bitmaps_fit, driver, power_on, home, connected, found, fired,
}

abbrev pressed : ClockState
pressed = record empty_state { ap_mode_triggered = true }

main_round-access_point_example :
    let (outcome, effects) = clock_task booted pressed tick in
    main_round booted pressed tick true
    ≡ (rebooted, map (λ e. boot (clock e)) effects ++ access_point outcome)
main_round-access_point_example = main_round-access_point booted pressed tick true refl

main-ShowsText_example :
    Runs
      (ShowsTime bitmaps home fired)
      bitmaps
      (driver, power_on)
      (main (λ n. false) false booted home true connected (found ∷ fired ∷ []))
main-ShowsText_example =
    main-ShowsText bitmaps driver power_on (λ n. false) false booted home true connected
      (found ∷ []) fired bitmaps_fit (omega arith) refl

main-Displayed_example :
    Runs
      (Displayed bitmaps home)
      bitmaps
      (driver, power_on)
      (main (λ n. false) false booted home true connected (found ∷ fired ∷ []))
main-Displayed_example =
    main-Displayed bitmaps driver power_on (λ n. false) false booted home true connected
      (found ∷ fired ∷ []) bitmaps_fit (omega arith)

-- A client that waits for 10.0.0.1, and its reply.
abbrev waiting : ClockState
waiting = record empty_state {
  ntp_state = record {
    ntp_port = 123;
    ntp_server_address = 0x0a000001;
    ntp_pcb = true;
    request_start_ms = 1000;
    error = NtpError.ok;
    status = NtpStatus.pending;
  };
}

abbrev reply : List ℕ
reply =
    0x24
    ∷ 2
    ∷ (replicate 38 0xE9
        ++ (timestamp_bytes (ntp_timestamp 2085978496) ++ (0x12 ∷ 0x34 ∷ 0x56 ∷ 0x78 ∷ [])))

reply-IsStamped : IsStamped reply 2085978496
reply-IsStamped = record { first = refl; second = refl; third = refl; fourth = refl }

reply-IsTime : IsTime waiting.ntp_state reply 0x0a000001 123
reply-IsTime = ground arith

received-settimeofday_example :
    let t = (interrupt (received reply 0x0a000001 123) waiting 0).0 in
    (t.ntp_state ≡ record waiting.ntp_state { status = NtpStatus.success; error = NtpError.ok })
    × (es : List Clock.Effect) × ((clock_task booted t tick).1 ≡ settimeofday (pos 2085978496) ∷ es)
received-settimeofday_example =
    received-settimeofday booted waiting 0 tick reply 2085978496 0x0a000001 123 (omega arith)
      reply-IsStamped reply-IsTime
