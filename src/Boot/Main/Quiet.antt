-- ===== src/Boot/Main/Quiet.antt =====
-- What a `clock_task` of src/clock.c that returns does to the displays: only its drawing loop draws.
use picow_day_clock.Base.{
  ◌+◌, ◌-◌, ◌%◌, ◌^◌, ◌≡◌, refl, ap, Bool, true, false, List, [], ◌∷◌, ◌++◌, map, ltb,
  if◌then◌else◌,
}
use picow_day_clock.Base.Int.{pos, leb_ℤ, ◌-ℤ◌}
use picow_day_clock.Ntp
use picow_day_clock.Ntp.{NtpError, NtpStatus, NtpAtomicState, ntp_atomic_read, ntp_request_async}
use picow_day_clock.Config.{WifiError, PersistentState}
use picow_day_clock.Clock
use picow_day_clock.Clock.{
  ClockState, Outcome, running, reboot, TaskInput, lwip, fatal_reset, process_ntp_time,
  update_display, lcd_digits, digits_differ,
}
use picow_day_clock.Clock.Shows.{Returns}
use picow_day_clock.Clock.Task.{
  Result, check_status, start_ntp_check, check_interval, supervise_status, after,
}
use picow_day_clock.Boot.{clock}
use picow_day_clock.Boot.Main.{Effect, boot}
use picow_day_clock.Lcd.Panel.{watch}
use picow_day_clock.Lcd.Frame.{draw}
use picow_day_clock.Boot.Main.View.{perform, perform_all, Silent, Silent-append}

-- The calls of a task in the main loop.
abbrev pub called : List Clock.Effect → List Effect
called es = map (λ e. boot (clock e)) es

pub called-append : (es fs : List Clock.Effect) → called (es ++ fs) ≡ called es ++ called fs
called-append [] fs = refl
called-append (e ∷ es) fs = ap (λ l. boot (clock e) ∷ l) (called-append es fs)

-- A state after the first tick, with the digits and the configuration of another, and calls that draw
-- nothing, if the task returns.
abbrev pub Quiet : ClockState → Result → Type 0
Quiet s r =
    Returns
      (λ t.
        (t.first_clock_tick ≡ false)
        × (t.current_lcd_digits ≡ s.current_lcd_digits)
        × (t.flash_config ≡ s.flash_config)
        × Silent (called r.1))
      r.0

called-lwip : (es : List Ntp.Effect) → Silent (called (map lwip es))
unfolding perform_all perform draw watch
called-lwip [] b v = refl
called-lwip (e ∷ es) b v = called-lwip es b v

Quiet-if :
    (s : ClockState) (b : Bool) (q r : Result)
    → Quiet s q
    → Quiet s r
    → Quiet s (if b then q else r)
Quiet-if s true q r h k = h
Quiet-if s false q r h k = k

Quiet-after :
    (s : ClockState) (es : List Clock.Effect) (r : Result)
    → Silent (called es)
    → Quiet s r
    → Quiet s (after es r)
Quiet-after s es (running t, more) h k =
    (k.0, k.1, k.2, rw (called-append es more) (Silent-append (called es) (called more) h k.3))
Quiet-after s es (reboot p, more) h k = tt

no_calls : Silent []
unfolding perform_all
no_calls b v = refl

module _ (p : PersistentState) (ntp : NtpAtomicState) (input : TaskInput) where
  Quiet-still : (s : ClockState) → Quiet s (running (record s { first_clock_tick = false }), [])
  Quiet-still s = (refl, refl, refl, no_calls)

  Quiet-check_status : (s : ClockState) (e : NtpError) → Quiet s (check_status p s e)
  unfolding check_status fatal_reset
  Quiet-check_status s NtpError.ok = (refl, refl, refl, no_calls)
  Quiet-check_status s _ = tt

  Quiet-check_interval : (s : ClockState) → Quiet s (check_interval p s input)
  unfolding check_interval start_ntp_check
  Quiet-check_interval s =
      let r =
        ntp_request_async s.ntp_state s.flash_config.ntp_server input.now_ms input.dns input.net in
      let s' = record s { ntp_last_sync = input.utc_now; ntp_state = r.1 } in
      Quiet-if s (leb_ℤ (pos s.ntp_interval) (input.utc_now -ℤ s.ntp_last_sync))
        (start_ntp_check p (record s { ntp_last_sync = input.utc_now }) input)
        (running (record s { first_clock_tick = false }), [])
        (Quiet-after s (map lwip r.2) (check_status p s' r.0) (called-lwip r.2)
          (Quiet-check_status s' r.0))
        (Quiet-still s)

  pub Quiet-supervise_status :
      (st : NtpStatus) (s : ClockState) → Quiet s (supervise_status st p ntp s input)
  unfolding supervise_status fatal_reset
  Quiet-supervise_status NtpStatus.pending s =
      Quiet-if s
        (ltb s.flash_config.ntp_timeout ((input.now_ms + 2 ^ 32 - ntp.request_start_ms) % 2 ^ 32))
        (fatal_reset p NtpError.timeout_error WifiError.ok)
        (running (record s { first_clock_tick = false }), []) tt (Quiet-still s)
  Quiet-supervise_status NtpStatus.failed s = tt
  Quiet-supervise_status NtpStatus.idle s = Quiet-check_interval s
  Quiet-supervise_status _ s = (refl, refl, refl, no_calls)
