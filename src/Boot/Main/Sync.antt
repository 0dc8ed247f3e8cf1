-- ===== src/Boot/Main/Sync.antt =====
-- From the NTP server's reply to the clock: src/ntp.c's `ntp_recv_callback`, and the `clock_task` of
-- src/clock.c that follows it in src/pico_main.c's main loop.
use picow_day_clock.Base.{ℕ, ◌<◌, ◌^◌, ◌≡◌, refl, sym, true, List, ◌∷◌, some, Bool-cases, inl, inr}
use picow_day_clock.Base.Int.{pos}
use picow_day_clock.Ntp.{NtpStatus, NtpError, ntp_recv_callback}
use picow_day_clock.Ntp.Timestamp.{IsStamped, seconds_since_1970-IsStamped}
use picow_day_clock.Ntp.Receive.{IsTime, ntp_recv_callback-IsTime, ntp_recv_callback-success}
use picow_day_clock.Config.{PersistentState}
use picow_day_clock.Clock
use picow_day_clock.Clock.{
  ClockState, TaskInput, settimeofday, process_ntp_time, ntp_timer_callback,
}
use picow_day_clock.Clock.Task.{clock_task}
use picow_day_clock.Boot.Main.{received, interrupt}

-- A task with new NTP data sets the time first.
clock_task-settimeofday :
    (p : PersistentState) (s : ClockState) (input : TaskInput)
    → s.ntp_time_updated ≡ true
    → (es : List Clock.Effect) × ((clock_task p s input).1 ≡ settimeofday s.ntp_time ∷ es)
unfolding clock_task process_ntp_time
clock_task-settimeofday p s input new = elim (Bool-cases s.clock_tick_updated) [
  | inl due ↦ rw (new, due) (_, refl)
  | inr quiet ↦ rw (new, quiet) (_, refl)
]

-- The server's time becomes the time of day. A packet with the timestamp of a Unix time in its bytes 40
-- to 43, from 1970 to 2106 and so over the change of era in 2036, which the client accepts, whatever its
-- other bytes, is recorded as a success with no error, and the next task sets the time of day to that
-- Unix time before it does anything else.
pub received-settimeofday :
    (p : PersistentState) (s : ClockState) (held : ℕ) (input : TaskInput) (bytes : List ℕ)
    (unix addr port : ℕ)
    → unix < 2 ^ 32
    → IsStamped bytes unix
    → IsTime s.ntp_state bytes addr port
    → let t = (interrupt (received bytes addr port) s held).0 in
      (t.ntp_state ≡ record s.ntp_state { status = NtpStatus.success; error = NtpError.ok })
      × (es : List Clock.Effect) × ((clock_task p t input).1 ≡ settimeofday (pos unix) ∷ es)
unfolding interrupt ntp_timer_callback
received-settimeofday p s held input bytes unix addr port era stamp accepted =
    let time : (ntp_recv_callback s.ntp_state bytes addr port).1 ≡ some unix =
      (ntp_recv_callback-IsTime s.ntp_state bytes addr port unix).1
        (accepted, sym (seconds_since_1970-IsStamped bytes unix era stamp)) in
    let state = ntp_recv_callback-success s.ntp_state bytes addr port accepted in
    let s' = record s { ntp_state = (ntp_recv_callback s.ntp_state bytes addr port).0 } in
    let set = clock_task-settimeofday p (ntp_timer_callback s' (pos unix)) input refl in
    rw time (state, set.0, set.1)
