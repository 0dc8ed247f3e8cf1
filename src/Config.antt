-- ===== src/Config.antt =====
-- The types that the firmware's modules share: src/flash_config.h, src/watchdog.h, src/wifi.h, and
-- the constants of src/config.h. A `char` array is the list of its bytes, always as long as declared.
use picow_day_clock.Base.{ℕ, ◌+◌, ◌*◌, ◌^◌, Bool, List}
use picow_day_clock.Base.Int.{ℤ}
use picow_day_clock.Dst.{Rule}
use picow_day_clock.Ntp.{NtpError}

-- `watchdog_error_t`
pub data WatchdogError : Type 0 where
  ok reset ntp wifi : WatchdogError

-- `wifi_error_t`
pub data WifiError : Type 0 where
  ok init_error timeout_error auth_error connect_error unknown_error : WifiError

-- `flash_config_t`
pub record FlashConfig : Type 0 where
  pub magic_marker : ℕ
  pub wifi_ssid : List ℕ
  pub wifi_password : List ℕ
  pub ntp_server : List ℕ
  pub tz_offset_mins : ℤ
  pub dst_rule : Rule
  pub ntp_timeout : ℕ
  pub ntp_port : ℕ
  pub led_always_on : Bool

-- `persistent_state_t`, which survives a reboot.
pub record PersistentState : Type 0 where
  pub magic_marker : ℕ
  pub boot_count : ℕ
  pub watchdog_error : WatchdogError
  pub ntp_error : NtpError
  pub wifi_error : WifiError

-- 'C' << 24 | 'L' << 16 | 'O' << 8 | 'K'
abbrev pub config_magic : ℕ
config_magic = b'C' * 2 ^ 24 + b'L' * 2 ^ 16 + b'O' * 2 ^ 8 + b'K'

abbrev pub wifi_ssid_max_len : ℕ
wifi_ssid_max_len = 32

abbrev pub wifi_password_max_len : ℕ
wifi_password_max_len = 63

abbrev pub hostname_max_len : ℕ
hostname_max_len = 64

abbrev pub ntp_sync_interval_sec : ℕ
ntp_sync_interval_sec = 60 * 60 * 24

abbrev pub watchdog_icon_interval : ℕ
watchdog_icon_interval = 60 * 60 * 24

abbrev pub factory_reset_hold_time_ms : ℕ
factory_reset_hold_time_ms = 3000
