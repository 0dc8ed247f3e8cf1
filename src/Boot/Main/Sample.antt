-- ===== src/Boot/Main/Sample.antt =====
-- A concrete run of src/pico_main.c's `main`: its flash, displays, answers and rounds.
use picow_day_clock.Base.{ℕ, true, false, [], ◌∷◌, replicate, none, some, arith}
use picow_day_clock.Base.Int.{pos}
use picow_day_clock.Ntp.{NtpError, in_progress}
use picow_day_clock.Config.{PersistentState, FlashConfig, WatchdogError, WifiError, config_magic}
use picow_day_clock.Clock.{TaskInput}
use picow_day_clock.Lcd.{Driver}
use picow_day_clock.Lcd.Image.{Font}
use picow_day_clock.Lcd.Panel.{Panel}
use picow_day_clock.Lcd.Frame.{Bitmaps}
use picow_day_clock.Lcd.Idle.{FontsFit}
use picow_day_clock.Boot.{empty_config}
use picow_day_clock.Boot.Start.{StartInput}
use picow_day_clock.Boot.Main.{clock_timer, startup_led, dns_found, received, Round}

abbrev pub booted : PersistentState
booted = record {
  magic_marker = 1;
  boot_count = 1;
  watchdog_error = WatchdogError.ok;
  ntp_error = NtpError.ok;
  wifi_error = WifiError.ok;
}

abbrev pub tick : TaskInput
tick = record {
  sync_now = pos 0;
  utc_now = pos 5;
  now_ms = 2000;
  dns = in_progress;
  net = record { has_pbuf = true; send_err = 0 };
}

-- A run: all displays are selected at power-on, the button is not pressed, and the flash has a
-- configuration.
abbrev pub glyphs : Font
glyphs = record {
  table = λ i. record { table = λ byte. 0xA5; width = 9 };
  byte_width = 2;
  height = 20;
}

abbrev pub blank : ℕ → ℕ
blank byte = 0

abbrev pub bitmaps : Bitmaps
bitmaps = record {
  text_font = glyphs;
  clock_digit_font = glyphs;
  icons = record {
    watchdog_icon = blank;
    watchdog_ntp_icon = blank;
    watchdog_wifi_icon = blank;
    ntp_icon = blank;
    ntp_init_icon = blank;
    ntp_dns_icon = blank;
    ntp_memory_icon = blank;
    ntp_error_icon = blank;
    ntp_timeout_icon = blank;
    wifi_icon = blank;
    wifi_init_icon = blank;
    wifi_timeout_icon = blank;
    wifi_password_icon = blank;
    wifi_connect_icon = blank;
    wifi_error_icon = blank;
  };
}

pub bitmaps_fit : FontsFit bitmaps
bitmaps_fit = record {
  narrow = 9;
  wide = 9;
  clock_font = record {
    some_width = λ i. omega arith;
    width = λ i. omega arith;
    some_height = omega arith;
    height = omega arith;
  };
  text_widths = record {
    least = λ i. omega arith;
    most = λ i. omega arith;
    columns = omega arith;
    rows = omega arith;
  };
}

abbrev pub driver : Driver
driver = record { linebuf = replicate 344 0; line_number = 0 }

abbrev pub power_on : ℕ → Panel
power_on m = record {
  selected = true;
  data_mode = false;
  register = 0;
  params = [];
  first_column = 0;
  last_column = 0;
  first_row = 0;
  last_row = 0;
  column = 0;
  row = 0;
  half = none;
  memory = λ column row. 0x1234;
}

abbrev pub home : FlashConfig
home = record empty_config { magic_marker = config_magic; ntp_timeout = 10000; ntp_port = 123 }

abbrev pub connected : StartInput
connected = record {
  wifi_status = WifiError.ok;
  wifi_initialized = true;
  has_pcb = true;
  now_ms = 1000;
  dns = in_progress;
  net = record { has_pbuf = true; send_err = 0 };
  clock_timer = true;
  backlight_timer = true;
}

-- The server is found and answers, and then the timer fires.
abbrev pub found : Round
found = record {
  before = dns_found (some 5) (record { has_pbuf = true; send_err = 0 }) ∷ startup_led ∷ [];
  input = tick;
}

abbrev pub fired : Round
fired = record {
  before = received (0x24 ∷ 1 ∷ replicate 46 255) 5 123 ∷ clock_timer false ∷ [];
  input = tick;
}
