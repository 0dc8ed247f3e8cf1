-- ===== src/Clock/Icons.antt =====
-- The watchdog icon and the sync interval over the ticks of src/clock.c's `clock_task`.
use picow_day_clock.Base.{ℕ, ◌*◌, ◌%◌, ◌^◌, ◌≡◌, if◌then◌else◌}
use picow_day_clock.Base.Int.{ℤ, pos, ◌+ℤ◌, ltb_ℤ}
use picow_day_clock.Dst.{calculate_local_time}
use picow_day_clock.Ntp.{NtpStatus}
use picow_day_clock.Config.{WatchdogError, watchdog_icon_interval}
use picow_day_clock.Clock.{ClockState}

-- The interval after a task that found the client in a status: a kiss of death doubles it.
abbrev pub next_interval : NtpStatus → ℕ → ℕ
next_interval NtpStatus.kod n = n * 2 % 2 ^ 32
next_interval _ n = n

-- What a task keeps of a state, in a client status.
pub record Carries (st : NtpStatus) (s t : ClockState) : Type 0 where
  pub interval : t.ntp_interval ≡ next_interval st s.ntp_interval
  pub error_time : t.last_watchdog_error_time ≡ s.last_watchdog_error_time
  pub shown_error : t.watchdog_reset_error ≡ s.watchdog_reset_error
  pub config : t.flash_config ≡ s.flash_config

-- The local time of a tick.
abbrev pub local_time : ClockState → ℤ → ℤ
local_time s utc_now =
    calculate_local_time utc_now s.flash_config.tz_offset_mins s.flash_config.dst_rule

-- The icon to show after a tick.
abbrev pub next_watchdog_error : ClockState → ℤ → WatchdogError
next_watchdog_error s utc_now =
    if ltb_ℤ (s.last_watchdog_error_time +ℤ pos watchdog_icon_interval) (local_time s utc_now)
    then WatchdogError.ok
    else s.watchdog_reset_error

-- What a whole task changes when a tick is due.
pub record Ticked (s : ClockState) (utc_now : ℤ) (t : ClockState) : Type 0 where
  pub interval : t.ntp_interval ≡ next_interval s.ntp_state.status s.ntp_interval
  pub error_time : t.last_watchdog_error_time ≡ s.last_watchdog_error_time
  pub shown_error : t.watchdog_reset_error ≡ next_watchdog_error s utc_now
  pub config : t.flash_config ≡ s.flash_config

-- What the first part of the task keeps.
record Synced (s t : ClockState) : Type 0 where
  tick : t.clock_tick_updated ≡ s.clock_tick_updated
  ntp : t.ntp_state ≡ s.ntp_state
  interval : t.ntp_interval ≡ s.ntp_interval
  error_time : t.last_watchdog_error_time ≡ s.last_watchdog_error_time
  shown_error : t.watchdog_reset_error ≡ s.watchdog_reset_error
  config : t.flash_config ≡ s.flash_config
