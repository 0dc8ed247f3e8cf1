-- ===== src/Boot/Main/Kept.antt =====
-- What `clock_task` of src/clock.c keeps of the access point's flag and the NTP client: it never sets
-- the flag, and it changes the client only by a request or an acknowledgement.
use picow_day_clock.Base.{
  ℕ, ltb, ◌+◌, ◌-◌, ◌%◌, ◌^◌, not, Bool, true, false, List, [], if◌then◌else◌, Bool-cases, inl, inr,
}
use picow_day_clock.Base.Int.{ℤ, pos, leb_ℤ, ◌-ℤ◌}
use picow_day_clock.Calendar.{gmtime}
use picow_day_clock.Dst.{calculate_local_time}
use picow_day_clock.Ntp.{
  NtpState, NtpStatus, NtpError, NtpAtomicState, ntp_atomic_status, ntp_atomic_read,
  ntp_request_async,
}
use picow_day_clock.Config.{WifiError, PersistentState}
use picow_day_clock.Clock.{
  ClockState, running, TaskInput, fatal_reset, process_ntp_time, update_display, lcd_digits,
  digits_differ,
}
use picow_day_clock.Clock.Shows.{Returns}
use picow_day_clock.Clock.Task.{
  Result, check_status, start_ntp_check, check_interval, supervise_status, supervise_ntp, tick_task,
  clock_task, after,
}

module _ (P : Bool → NtpState → Type 0) where
  -- Of a state.
  abbrev pub Of : ClockState → Type 0
  Of s = P s.ap_mode_triggered s.ntp_state

  Of-if :
      (b : Bool) (q r : Result)
      → Returns Of q.0
      → Returns Of r.0
      → Returns Of (if b then q else r).0
  Of-if true q r h k = h
  Of-if false q r h k = k

  update_display-Of :
      (s : ClockState) (e : NtpError) (utc_now : ℤ) → Of s → Of (update_display s e utc_now).0
  unfolding update_display
  update_display-Of s e utc_now h =
      let config = s.flash_config in
      let local = calculate_local_time utc_now config.tz_offset_mins config.dst_rule in
      elim (Bool-cases
        (digits_differ s.first_clock_tick s.current_lcd_digits (lcd_digits (gmtime local)))) [
          | inl d ↦ rw d h
          | inr d ↦ rw d h
        ]

  process_ntp_time-Of : (s : ClockState) (sync_now : ℤ) → Of s → Of (process_ntp_time s sync_now).0
  unfolding process_ntp_time
  process_ntp_time-Of s sync_now h = elim (Bool-cases s.ntp_time_updated) [
    | inl d ↦ simp d h
    | inr d ↦ simp d h
  ]

  check_status-Of :
      (p : PersistentState) (s : ClockState) (e : NtpError)
      → Of s
      → Returns Of (check_status p s e).0
  unfolding check_status fatal_reset
  check_status-Of p s NtpError.ok h = h
  check_status-Of p s _ h = tt

  module _ (p : PersistentState) (ntp : NtpAtomicState) (input : TaskInput)
      (requested : (a : Bool) (n : NtpState) (server : List ℕ)
        → P a n
        → P a (ntp_request_async n server input.now_ms input.dns input.net).1)
      (acknowledged : (a : Bool) (n : NtpState)
        → P a n
        → P a (ntp_atomic_status n NtpStatus.idle NtpError.null_error 0)) where
    check_interval-Of : (s : ClockState) → Of s → Returns Of (check_interval p s input).0
    unfolding check_interval start_ntp_check
    check_interval-Of s h =
        let r =
          ntp_request_async s.ntp_state s.flash_config.ntp_server input.now_ms input.dns
            input.net in
        Of-if (leb_ℤ (pos s.ntp_interval) (input.utc_now -ℤ s.ntp_last_sync))
          (start_ntp_check p (record s { ntp_last_sync = input.utc_now }) input)
          (running (record s { first_clock_tick = false }), [])
          (check_status-Of p (record s { ntp_last_sync = input.utc_now; ntp_state = r.1 }) r.0
            (requested s.ap_mode_triggered s.ntp_state s.flash_config.ntp_server h))
          h

    supervise_status-Of :
        (st : NtpStatus) (s : ClockState) → Of s → Returns Of (supervise_status st p ntp s input).0
    unfolding supervise_status fatal_reset
    supervise_status-Of NtpStatus.pending s h =
        Of-if
          (ltb s.flash_config.ntp_timeout ((input.now_ms + 2 ^ 32 - ntp.request_start_ms) % 2 ^ 32))
          (fatal_reset p NtpError.timeout_error WifiError.ok)
          (running (record s { first_clock_tick = false }), []) tt h
    supervise_status-Of NtpStatus.failed s h = tt
    supervise_status-Of NtpStatus.kod s h = acknowledged s.ap_mode_triggered s.ntp_state h
    supervise_status-Of NtpStatus.success s h = acknowledged s.ap_mode_triggered s.ntp_state h
    supervise_status-Of NtpStatus.idle s h = check_interval-Of s h
    supervise_status-Of NtpStatus.null_status s h = h

pub clock_task-Of :
    (P : Bool → NtpState → Type 0) (p : PersistentState) (s : ClockState) (input : TaskInput)
    → ((a : Bool) (n : NtpState) (server : List ℕ)
        → P a n
        → P a (ntp_request_async n server input.now_ms input.dns input.net).1)
    → ((a : Bool) (n : NtpState)
        → P a n
        → P a (ntp_atomic_status n NtpStatus.idle NtpError.null_error 0))
    → Of P s
    → Returns (Of P) (clock_task p s input).0
unfolding clock_task tick_task supervise_ntp
clock_task-Of P p s input requested acknowledged h =
    let ntp = ntp_atomic_read s.ntp_state in
    let synced = (process_ntp_time s input.sync_now).0 in
    let set_time = (process_ntp_time s input.sync_now).1 in
    let due : ClockState = record synced { clock_tick_updated = false } in
    let kept : Of P synced = process_ntp_time-Of P s input.sync_now h in
    let shown = (update_display due ntp.error input.utc_now).0 in
    Of-if P (not synced.clock_tick_updated) (running synced, set_time)
      (after set_time (tick_task p ntp due input)) kept
      (supervise_status-Of P p ntp input requested acknowledged ntp.status shown
        (update_display-Of P due ntp.error input.utc_now kept))
