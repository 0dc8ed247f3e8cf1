-- ===== src/Clock/Shows.antt =====
-- The displays after a whole `clock_task` of src/clock.c.
use picow_day_clock.Base.{
  ℕ, Bool, if◌then◌else◌, Bool-cases, inl, inr, ◌≡◌, refl, ◌∙◌, ap, true, false, List, [], ◌∷◌, map,
  length,
}
use picow_day_clock.Base.Int.{ℤ}
use picow_day_clock.Calendar.{gmtime}
use picow_day_clock.Dst.{calculate_local_time}
use picow_day_clock.Ntp
use picow_day_clock.Ntp.{NtpError, NtpStatus, NtpAtomicState, ntp_atomic_read, ntp_request_async}
use picow_day_clock.Config.{WifiError, PersistentState}
use picow_day_clock.Clock.{
  ClockState, Effect, lwip, Outcome, running, reboot, TaskInput, lcd_digits, fatal_reset,
  process_ntp_time, update_display,
}
use picow_day_clock.Clock.Task.{
  tick_task, supervise_status, check_status, start_ntp_check, check_interval, supervise_ntp,
  clock_task, after, Result,
}
use picow_day_clock.Clock.Display.{Screen, show_all, show_all-append, show_all-update_display}

-- What holds of the state that a call returns, if it returns.
abbrev pub Returns {ℓ} : (ClockState → Type ℓ) → Outcome → Type ℓ
Returns P (running s) = P s
Returns P (reboot persistent) = Unit

show_all-lwip : (screen : Screen) (es : List Ntp.Effect) → show_all screen (map lwip es) ≡ screen
show_all-lwip screen [] = refl
show_all-lwip screen (e ∷ es) = show_all-lwip screen es

-- The NTP part of the task leaves the displays and the digits alone, and ends the first tick.
record Kept (screen : Screen) (digits : List ℕ) (r : Result) : Type 0 where
  screen_kept : show_all screen r.1 ≡ screen
  digits_kept : Returns (λ t. (t.current_lcd_digits ≡ digits) × (t.first_clock_tick ≡ false)) r.0

module _ (p : PersistentState) (screen : Screen) where
  Kept-fatal_reset :
      (digits : List ℕ) (e : NtpError) → Kept screen digits (fatal_reset p e WifiError.ok)
  unfolding fatal_reset
  Kept-fatal_reset digits e = record { screen_kept = refl; digits_kept = tt }

  Kept-after :
      (digits : List ℕ) (es : List Effect) (r : Result)
      → show_all screen es ≡ screen
      → Kept screen digits r
      → Kept screen digits (after es r)
  Kept-after digits es (o, more) e k = record {
    screen_kept = show_all-append screen es more ∙ (ap (λ s. show_all s more) e ∙ k.screen_kept);
    digits_kept = k.digits_kept;
  }

  Kept-check_status :
      (s : ClockState) (e : NtpError) → Kept screen s.current_lcd_digits (check_status p s e)
  unfolding check_status
  Kept-check_status s NtpError.ok = record { screen_kept = refl; digits_kept = (refl, refl) }
  Kept-check_status s _ = Kept-fatal_reset s.current_lcd_digits _

  Kept-if :
      (digits : List ℕ) (b : Bool) (q r : Result)
      → Kept screen digits q
      → Kept screen digits r
      → Kept screen digits (if b then q else r)
  Kept-if digits true q r h k = h
  Kept-if digits false q r h k = k

  Kept-still :
      (s : ClockState)
      → Kept screen s.current_lcd_digits (running (record s { first_clock_tick = false }), [])
  Kept-still s = record { screen_kept = refl; digits_kept = (refl, refl) }

  Kept-check_interval :
      (s : ClockState) (input : TaskInput)
      → Kept screen s.current_lcd_digits (check_interval p s input)
  unfolding check_interval start_ntp_check
  Kept-check_interval s input =
      let r =
        ntp_request_async s.ntp_state s.flash_config.ntp_server input.now_ms input.dns input.net in
      let s' = record s { ntp_last_sync = input.utc_now; ntp_state = r.1 } in
      Kept-if s.current_lcd_digits _ _ _
        (Kept-after s.current_lcd_digits (map lwip r.2) (check_status p s' r.0)
          (show_all-lwip screen r.2) (Kept-check_status s' r.0))
        (Kept-still s)

  Kept-supervise_status :
      (st : NtpStatus) (ntp : NtpAtomicState) (s : ClockState) (input : TaskInput)
      → Kept screen s.current_lcd_digits (supervise_status st p ntp s input)
  unfolding supervise_status
  Kept-supervise_status NtpStatus.pending ntp s input =
      Kept-if s.current_lcd_digits _ _ _ (Kept-fatal_reset s.current_lcd_digits _) (Kept-still s)
  Kept-supervise_status NtpStatus.failed ntp s input =
      Kept-fatal_reset s.current_lcd_digits ntp.error
  Kept-supervise_status NtpStatus.kod ntp s input = record {
    screen_kept = refl;
    digits_kept = (refl, refl);
  }
  Kept-supervise_status NtpStatus.success ntp s input = record {
    screen_kept = refl;
    digits_kept = (refl, refl);
  }
  Kept-supervise_status NtpStatus.idle ntp s input = Kept-check_interval s input
  Kept-supervise_status NtpStatus.null_status ntp s input = Kept-still s

  Kept-supervise_ntp :
      (ntp : NtpAtomicState) (s : ClockState) (input : TaskInput)
      → Kept screen s.current_lcd_digits (supervise_ntp p ntp s input)
  unfolding supervise_ntp
  Kept-supervise_ntp ntp s input = Kept-supervise_status ntp.status ntp s input

-- The digits that the clock has to show at a UTC time.
abbrev pub digits_at : ClockState → ℤ → List ℕ
digits_at s utc_now =
    lcd_digits
      (gmtime (calculate_local_time utc_now s.flash_config.tz_offset_mins s.flash_config.dst_rule))

tick_task_shows :
    (p : PersistentState) (ntp : NtpAtomicState) (s : ClockState) (input : TaskInput)
    (screen : Screen)
    → length s.current_lcd_digits ≡ 7
    → length screen ≡ 7
    → (s.first_clock_tick ≡ false → screen ≡ s.current_lcd_digits)
    → let r = tick_task p ntp s input in
      (show_all screen r.1 ≡ digits_at s input.utc_now)
      × Returns
          (λ t. (t.current_lcd_digits ≡ digits_at s input.utc_now) × (t.first_clock_tick ≡ false))
          r.0
unfolding tick_task
tick_task_shows p ntp s input screen lc ls h =
    let drawn = show_all-update_display s ntp.error input.utc_now screen lc ls h in
    let (shown, draw) = update_display s ntp.error input.utc_now in
    let kept = Kept-supervise_ntp p (digits_at s input.utc_now) ntp shown input in
    let r = supervise_ntp p ntp shown input in
    (
      show_all-append screen draw r.1 ∙ (ap (λ sc. show_all sc r.1) drawn.0 ∙ kept.screen_kept),
      rw drawn.1 at kept.digits_kept,
    )

-- When a tick is due, the displays show the weekday, hour and minute of the local time after the
-- task, whether or not the task ends in a reset. If the task returns, the state remembers the digits
-- that are shown, and the first tick is over. Before the task the displays must show the digits that
-- the state remembers, unless this is the first tick.
pub clock_task_shows :
    (p : PersistentState) (s : ClockState) (input : TaskInput) (screen : Screen)
    → s.clock_tick_updated ≡ true
    → length s.current_lcd_digits ≡ 7
    → length screen ≡ 7
    → (s.first_clock_tick ≡ false → screen ≡ s.current_lcd_digits)
    → let r = clock_task p s input in
      (show_all screen r.1 ≡ digits_at s input.utc_now)
      × Returns
          (λ t. (t.current_lcd_digits ≡ digits_at s input.utc_now) × (t.first_clock_tick ≡ false))
          r.0
unfolding clock_task process_ntp_time
clock_task_shows p s input screen tick lc ls h = elim (Bool-cases s.ntp_time_updated) [
  | inl e ↦ rw (e, tick) (tick_task_shows p _ _ input screen lc ls h)
  | inr e ↦ rw (e, tick) (tick_task_shows p _ _ input screen lc ls h)
]
