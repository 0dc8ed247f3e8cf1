-- ===== src/Clock/Supervise.antt =====
-- How `clock_task` of src/clock.c watches over the NTP client, and when it resets the Pico.
use picow_day_clock.Base.{
  ℕ, ◌+◌, ◌-◌, ◌%◌, ◌^◌, ◌≡◌, refl, subst, inl, inr, Bool, true, false, ◌&&◌, List, Option, none,
  some, ltb, if◌then◌else◌, Bool-cases,
}
use picow_day_clock.Base.Int.{ℤ, pos, ◌-ℤ◌, leb_ℤ}
use picow_day_clock.Calendar.{gmtime}
use picow_day_clock.Dst.{calculate_local_time}
use picow_day_clock.Ntp
use picow_day_clock.Ntp.{
  NtpState, NtpError, NtpStatus, NtpAtomicState, DnsStatus, Lwip, ntp_atomic_status,
  ntp_atomic_read, ntp_request_async,
}
use picow_day_clock.Config.{WatchdogError, WifiError, PersistentState}
use picow_day_clock.Clock.{
  lcd_digits, digits_differ, ClockState, Outcome, running, reboot, TaskInput, fatal_reset,
  process_ntp_time, update_display,
}
use picow_day_clock.Clock.Task.{
  check_status, start_ntp_check, check_interval, supervise_status, supervise_ntp, tick_task,
  clock_task,
}

abbrev pub dns_refuses : DnsStatus → Bool
dns_refuses Ntp.dns_failed = true
dns_refuses _ = false

-- The error for which a tick must reset the Pico, if there is one: a request that waits longer than
-- the configured time, a request that failed, or a new request, due after the sync interval, for
-- which DNS refuses the name.
abbrev pub reset_error : NtpStatus → NtpAtomicState → ClockState → TaskInput → Option NtpError
reset_error NtpStatus.pending ntp s input =
    if ltb s.flash_config.ntp_timeout ((input.now_ms + 2 ^ 32 - ntp.request_start_ms) % 2 ^ 32)
    then some NtpError.timeout_error
    else none
reset_error NtpStatus.failed ntp s input = some ntp.error
reset_error NtpStatus.idle ntp s input =
    if leb_ℤ (pos s.ntp_interval) (input.utc_now -ℤ s.ntp_last_sync) && dns_refuses input.dns
    then some NtpError.dns_error
    else none
reset_error _ ntp s input = none

-- A reset with an error that the next boot finds, or a return.
abbrev pub Ends : PersistentState → Option NtpError → Outcome → Type 0
Ends p (some e) o = o ≡ reboot (record p { ntp_error = e; wifi_error = WifiError.ok })
Ends p none o = (t : ClockState) × (o ≡ running t)

pub ntp_request_async-dns_refuses :
    (n : NtpState) (server : List ℕ) (now_ms : ℕ) (dns : DnsStatus) (net : Lwip)
    → (ntp_request_async n server now_ms dns net).0
      ≡ (if dns_refuses dns then NtpError.dns_error else NtpError.ok)
unfolding ntp_request_async
ntp_request_async-dns_refuses n server now_ms (Ntp.resolved addr) net = refl
ntp_request_async-dns_refuses n server now_ms Ntp.in_progress net = refl
ntp_request_async-dns_refuses n server now_ms Ntp.dns_failed net = refl

start_ntp_check-Ends :
    (p : PersistentState) (s : ClockState) (input : TaskInput)
    → Ends p
        (if dns_refuses input.dns then some NtpError.dns_error else none)
        (start_ntp_check p s input).0
unfolding start_ntp_check check_status fatal_reset
start_ntp_check-Ends p s input =
    let q =
      ntp_request_async-dns_refuses s.ntp_state s.flash_config.ntp_server input.now_ms input.dns
        input.net in
    elim (Bool-cases (dns_refuses input.dns)) [
      | inl e ↦ rw (q, e) refl
      | inr e ↦ rw (q, e) (_, refl)
    ]

module _ (p : PersistentState) (ntp : NtpAtomicState) where
  check_interval-Ends :
      (s : ClockState) (input : TaskInput)
      → Ends p (reset_error NtpStatus.idle ntp s input) (check_interval p s input).0
  unfolding check_interval
  check_interval-Ends s input =
      elim (Bool-cases (leb_ℤ (pos s.ntp_interval) (input.utc_now -ℤ s.ntp_last_sync))) [
        | inl e ↦ rw e (start_ntp_check-Ends p (record s { ntp_last_sync = input.utc_now }) input)
        | inr e ↦ rw e (_, refl)
      ]

  supervise_status-Ends :
      (st : NtpStatus) (s : ClockState) (input : TaskInput)
      → Ends p (reset_error st ntp s input) (supervise_status st p ntp s input).0
  unfolding supervise_status fatal_reset
  supervise_status-Ends NtpStatus.pending s input =
      let elapsed = (input.now_ms + 2 ^ 32 - ntp.request_start_ms) % 2 ^ 32 in
      elim (Bool-cases (ltb s.flash_config.ntp_timeout elapsed)) [
        | inl e ↦ rw e refl
        | inr e ↦ rw e (_, refl)
      ]
  supervise_status-Ends NtpStatus.failed s input = refl
  supervise_status-Ends NtpStatus.kod s input = (_, refl)
  supervise_status-Ends NtpStatus.success s input = (_, refl)
  supervise_status-Ends NtpStatus.idle s input = check_interval-Ends s input
  supervise_status-Ends NtpStatus.null_status s input = (_, refl)

-- The fields that a drawing changes decide nothing about a reset.
reset_error_drawn :
    (st : NtpStatus) (ntp : NtpAtomicState) (s : ClockState) (w : WatchdogError) (ds : List ℕ)
    (input : TaskInput)
    → reset_error st ntp (record s { watchdog_reset_error = w; current_lcd_digits = ds }) input
      ≡ reset_error st ntp s input
reset_error_drawn NtpStatus.pending ntp s w ds input = refl
reset_error_drawn NtpStatus.idle ntp s w ds input = refl
reset_error_drawn _ ntp s w ds input = refl

reset_error-update_display :
    (st : NtpStatus) (ntp : NtpAtomicState) (s : ClockState) (e : NtpError) (utc : ℤ)
    (input : TaskInput)
    → reset_error st ntp (update_display s e utc).0 input ≡ reset_error st ntp s input
unfolding update_display
reset_error-update_display st ntp s e utc input =
    let config = s.flash_config in
    let digits =
      lcd_digits (gmtime (calculate_local_time utc config.tz_offset_mins config.dst_rule)) in
    elim (Bool-cases (digits_differ s.first_clock_tick s.current_lcd_digits digits)) [
      | inl d ↦ rw d (reset_error_drawn st ntp s _ digits input)
      | inr d ↦ rw d (reset_error_drawn st ntp s _ s.current_lcd_digits input)
    ]

tick_task-Ends :
    (p : PersistentState) (ntp : NtpAtomicState) (s : ClockState) (input : TaskInput)
    → Ends p (reset_error ntp.status ntp s input) (tick_task p ntp s input).0
unfolding tick_task supervise_ntp
tick_task-Ends p ntp s input =
    subst (λ o. Ends p o (tick_task p ntp s input).0)
      (reset_error-update_display ntp.status ntp s ntp.error input.utc_now input)
      (supervise_status-Ends p ntp ntp.status (update_display s ntp.error input.utc_now).0 input)

-- The state after the first part of the task: a sync sets the time of the last sync.
abbrev pub after_sync : ClockState → ℤ → ClockState
after_sync s sync_now = record s {
  ntp_last_sync = if s.ntp_time_updated then sync_now else s.ntp_last_sync;
}

-- Neither do the two flags.
reset_error_flags :
    (st : NtpStatus) (ntp : NtpAtomicState) (s : ClockState) (sync_now : ℤ) (f g h k : Bool)
    (input : TaskInput)
    → reset_error st ntp
        (record s { clock_tick_updated = f; ntp_time_updated = g; ntp_last_sync = sync_now })
        input
      ≡ reset_error st ntp
          (record s { clock_tick_updated = h; ntp_time_updated = k; ntp_last_sync = sync_now })
          input
reset_error_flags NtpStatus.pending ntp s l f g h k input = refl
reset_error_flags NtpStatus.idle ntp s l f g h k input = refl
reset_error_flags _ ntp s l f g h k input = refl

-- When a tick is due, the task resets the Pico exactly for the errors of `reset_error`, and the reset
-- leaves that NTP error, and no Wi-Fi error, for the next boot. In every other case it returns.
pub clock_task-Ends :
    (p : PersistentState) (s : ClockState) (input : TaskInput)
    → s.clock_tick_updated ≡ true
    → Ends p
        (reset_error s.ntp_state.status
          (ntp_atomic_read s.ntp_state)
          (after_sync s input.sync_now)
          input)
        (clock_task p s input).0
unfolding clock_task process_ntp_time
clock_task-Ends p s input tick =
    let ntp = ntp_atomic_read s.ntp_state in
    let st = ntp.status in
    elim (Bool-cases s.ntp_time_updated) [
      | inl e ↦
          let t = record s {
            clock_tick_updated = false;
            ntp_time_updated = false;
            ntp_last_sync = input.sync_now;
          } in
          rw (e, tick)
            (rw (reset_error_flags st ntp s input.sync_now false false true true input) at
              (tick_task-Ends p ntp t input))
      | inr e ↦
          let t = record s { clock_tick_updated = false; ntp_time_updated = false } in
          rw (e, tick)
            (rw (reset_error_flags st ntp s s.ntp_last_sync false false true false input) at
              (tick_task-Ends p ntp t input))
    ]
