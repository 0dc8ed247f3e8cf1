-- ===== src/Clock/Task.antt =====
-- The NTP part of `clock_task` of src/clock.c, and the whole of it.
use picow_day_clock.Base.{
  ◌+◌, ◌-◌, ◌*◌, ◌%◌, ◌^◌, false, not, List, [], ◌∷◌, ◌++◌, map, ltb, if◌then◌else◌,
}
use picow_day_clock.Base.Int.{pos, ◌-ℤ◌, leb_ℤ}
use picow_day_clock.Ntp.{
  NtpError, NtpStatus, NtpAtomicState, ntp_atomic_status, ntp_atomic_read, ntp_request_async,
}
use picow_day_clock.Config.{WifiError, PersistentState}
use picow_day_clock.Clock.{
  ClockState, Effect, watchdog_update, lwip, Outcome, running, TaskInput, fatal_reset,
  process_ntp_time, update_display,
}

-- What a call that may reset the Pico leaves, and the calls it made.
abbrev pub Result : Type 0
Result = Outcome × List Effect

-- Calls made before.
abbrev pub after : List Effect → Result → Result
after effects (o, more) = (o, effects ++ more)

-- What follows a request, by what it returned.
unfoldable pub check_status : PersistentState → ClockState → NtpError → Result
check_status persistent s NtpError.ok = (running (record s { first_clock_tick = false }), [])
check_status persistent s e = fatal_reset persistent e WifiError.ok

-- From `ntp_request_async` to the end of the task.
unfoldable pub start_ntp_check : PersistentState → ClockState → TaskInput → Result
unfolding check_status
start_ntp_check persistent s input =
    let (ntp_status, ntp_state, sent) =
      ntp_request_async s.ntp_state s.flash_config.ntp_server input.now_ms input.dns input.net in
    after (map lwip sent) (check_status persistent (record s { ntp_state = ntp_state }) ntp_status)

-- The last `if` of the task, for a client that was idle at its start.
unfoldable pub check_interval : PersistentState → ClockState → TaskInput → Result
unfolding start_ntp_check
check_interval persistent s input =
    if leb_ℤ (pos s.ntp_interval) (input.utc_now -ℤ s.ntp_last_sync)
    then start_ntp_check persistent (record s { ntp_last_sync = input.utc_now }) input
    else (running (record s { first_clock_tick = false }), [])

-- `ntp_atomic_status(&state->ntp_state, NTP_IDLE, NTP_NULL_ERROR, 0, NULL)`
abbrev pub acknowledge : ClockState → ClockState
acknowledge s = record s {
  ntp_state = ntp_atomic_status s.ntp_state NtpStatus.idle NtpError.null_error 0;
  first_clock_tick = false;
}

-- The tests of the status that was read at the start of the task, with the rest of what was read
-- (`ntp`). The milliseconds and the interval are 32-bit numbers.
unfoldable pub supervise_status :
    NtpStatus → PersistentState → NtpAtomicState → ClockState → TaskInput → Result
unfolding check_interval
supervise_status NtpStatus.pending persistent ntp s input =
    if ltb s.flash_config.ntp_timeout ((input.now_ms + 2 ^ 32 - ntp.request_start_ms) % 2 ^ 32)
    then fatal_reset persistent NtpError.timeout_error WifiError.ok
    else (running (record s { first_clock_tick = false }), [])
supervise_status NtpStatus.failed persistent ntp s input =
    fatal_reset persistent ntp.error WifiError.ok
supervise_status NtpStatus.kod persistent ntp s input =
    (running (record (acknowledge s) { ntp_interval = s.ntp_interval * 2 % 2 ^ 32 }), [])
supervise_status NtpStatus.success persistent ntp s input = (running (acknowledge s), [])
supervise_status NtpStatus.idle persistent ntp s input = check_interval persistent s input
supervise_status NtpStatus.null_status persistent ntp s input =
    (running (record s { first_clock_tick = false }), [])

-- The part of the task after the display.
unfoldable pub supervise_ntp : PersistentState → NtpAtomicState → ClockState → TaskInput → Result
unfolding supervise_status
supervise_ntp persistent ntp s input = supervise_status ntp.status persistent ntp s input

-- The task from `watchdog_update` on, when a tick is due.
unfoldable pub tick_task : PersistentState → NtpAtomicState → ClockState → TaskInput → Result
tick_task persistent ntp s input =
    let (shown, draw) = update_display s ntp.error input.utc_now in
    after (watchdog_update ∷ draw) (supervise_ntp persistent ntp shown input)

unfoldable pub clock_task : PersistentState → ClockState → TaskInput → Result
clock_task persistent s input =
    let ntp = ntp_atomic_read s.ntp_state in
    let (synced, set_time) = process_ntp_time s input.sync_now in
    if not synced.clock_tick_updated
    then (running synced, set_time)
    else after set_time
        (tick_task persistent ntp (record synced { clock_tick_updated = false }) input)
