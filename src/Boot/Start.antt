-- ===== src/Boot/Start.antt =====
-- `clock_start` of src/clock.c: from `clock_init` to the first `clock_task`, and which step of it
-- resets the Pico.
use picow_day_clock.Base.{
  ℕ, ◌≡◌, refl, Bool, true, false, not, ◌||◌, List, [], ◌∷◌, ◌++◌, map, Option, none, some,
  if◌then◌else◌, Bool-cases, inl, inr, arith,
}
use picow_day_clock.Ntp.{NtpState, NtpError, DnsStatus, Lwip, ntp_init, ntp_request_async}
use picow_day_clock.Config.{WifiError, PersistentState}
use picow_day_clock.Clock.{
  ClockState, Effect, Outcome, running, reboot, lcd_print_line, lcd_update_icons, watchdog_enable,
  lwip, Color, wifi_ok_message, fatal_reset,
}
use picow_day_clock.Clock.Task.{Result, after}
use picow_day_clock.Clock.Supervise.{dns_refuses, ntp_request_async-dns_refuses}

-- What the calls of `clock_start` answer: `connect_to_wifi` with `wifi_initialized`, whether
-- `ntp_init` gets a PCB, the milliseconds, DNS and lwIP for the first request, and whether the two
-- timers could be added.
pub record StartInput : Type 0 where
  pub wifi_status : WifiError
  pub wifi_initialized : Bool
  pub has_pcb : Bool
  pub now_ms : ℕ
  pub dns : DnsStatus
  pub net : Lwip
  pub clock_timer : Bool
  pub backlight_timer : Bool

-- From `watchdog_enable` on.
unfoldable pub start_timers : PersistentState → ClockState → StartInput → Result
unfolding fatal_reset
start_timers persistent s input = after (watchdog_enable ∷ []) (
    if not input.clock_timer
    then fatal_reset persistent NtpError.init_error WifiError.ok
    else if not input.backlight_timer
    then fatal_reset persistent NtpError.init_error WifiError.ok
    else (running s, []))

-- What follows the first request.
unfoldable pub check_request : NtpError → PersistentState → ClockState → StartInput → Result
unfolding start_timers
check_request NtpError.ok persistent s input = start_timers persistent s input
check_request e persistent s input = fatal_reset persistent e WifiError.ok

-- From `ntp_init` on.
unfoldable pub start_ntp : PersistentState → ClockState → StartInput → Result
unfolding check_request
start_ntp persistent s input =
    let (has_pcb, fresh) = ntp_init input.has_pcb in
    let client = record fresh { ntp_port = s.flash_config.ntp_port } in
    let (e, asked, sent) =
      ntp_request_async client s.flash_config.ntp_server input.now_ms input.dns input.net in
    if not has_pcb
    then fatal_reset persistent NtpError.init_error WifiError.ok
    else after (map lwip sent) (check_request e persistent (record s { ntp_state = asked }) input)

abbrev pub wifi_effects : ClockState → List Effect
wifi_effects s =
    (if s.cold_boot then lcd_print_line Color.green wifi_ok_message ∷ [] else [])
    ++ (lcd_update_icons s.watchdog_reset_error NtpError.ok WifiError.ok ∷ [])

-- What follows `connect_to_wifi`, by its status.
unfoldable pub check_wifi : WifiError → PersistentState → ClockState → StartInput → Result
unfolding start_ntp
check_wifi WifiError.ok persistent s input = after (wifi_effects s) (start_ntp persistent s input)
check_wifi e persistent s input = fatal_reset persistent NtpError.ok e

unfoldable pub clock_start : PersistentState → ClockState → StartInput → Result
unfolding check_wifi
clock_start persistent s input =
    check_wifi input.wifi_status persistent (record s { wifi_initialized = input.wifi_initialized })
      input

abbrev is_ok : WifiError → Bool
is_ok WifiError.ok = true
is_ok _ = false

-- The errors for which the start must reset the Pico, if there are any: the status of the Wi-Fi
-- connection, a client without a PCB, a server name that DNS refuses, or a timer that is not added.
abbrev pub start_error : StartInput → Option (NtpError × WifiError)
start_error input =
    if not (is_ok input.wifi_status)
    then some (NtpError.ok, input.wifi_status)
    else if not input.has_pcb
    then some (NtpError.init_error, WifiError.ok)
    else if dns_refuses input.dns
    then some (NtpError.dns_error, WifiError.ok)
    else if not input.clock_timer || not input.backlight_timer
    then some (NtpError.init_error, WifiError.ok)
    else none

-- The state that a start returns.
pub record Started (s t : ClockState) : Type 0 where
  pub port : t.ntp_state.ntp_port ≡ s.flash_config.ntp_port
  pub config : t.flash_config ≡ s.flash_config
  pub interval : t.ntp_interval ≡ s.ntp_interval
  pub first : t.first_clock_tick ≡ s.first_clock_tick

abbrev pub StartEnds :
    PersistentState → ClockState → Option (NtpError × WifiError) → Outcome → Type 0
StartEnds p s (some (n, w)) o = o ≡ reboot (record p { ntp_error = n; wifi_error = w })
StartEnds p s none o = (t : ClockState) × (o ≡ running t) × Started s t

timers_error : StartInput → Option (NtpError × WifiError)
timers_error input =
    if not input.clock_timer || not input.backlight_timer
    then some (NtpError.init_error, WifiError.ok)
    else none

start_timers-StartEnds :
    (p : PersistentState) (s t : ClockState) (input : StartInput)
    → Started s t
    → StartEnds p s (timers_error input) (start_timers p t input).0
unfolding start_timers timers_error
start_timers-StartEnds p s t input same = elim (Bool-cases input.clock_timer) [
  | inr none_added ↦ rw none_added refl
  | inl first_added ↦ elim (Bool-cases input.backlight_timer) [
    | inl both ↦ rw (first_added, both) (t, refl, same)
    | inr one ↦ rw (first_added, one) refl
  ]
]

ntp_port-ntp_request_async :
    (n : NtpState) (server : List ℕ) (now_ms : ℕ) (dns : DnsStatus) (net : Lwip)
    → (ntp_request_async n server now_ms dns net).1.ntp_port ≡ n.ntp_port
unfolding ntp_request_async
ntp_port-ntp_request_async n server now_ms dns net = ground arith

ntp_error : StartInput → Option (NtpError × WifiError)
ntp_error input =
    if not input.has_pcb
    then some (NtpError.init_error, WifiError.ok)
    else if dns_refuses input.dns
    then some (NtpError.dns_error, WifiError.ok)
    else timers_error input

check_request-StartEnds :
    (p : PersistentState) (s t : ClockState) (input : StartInput) (e : NtpError) (refused : Bool)
    → e ≡ (if refused then NtpError.dns_error else NtpError.ok)
    → Started s t
    → StartEnds p s
        (if refused then some (NtpError.dns_error, WifiError.ok) else timers_error input)
        (check_request e p t input).0
unfolding check_request fatal_reset
check_request-StartEnds p s t input e true h same = rw h refl
check_request-StartEnds p s t input e false h same = rw h (start_timers-StartEnds p s t input same)

start_ntp-StartEnds :
    (p : PersistentState) (s t : ClockState) (input : StartInput)
    → ((n : NtpState)
        → n.ntp_port ≡ t.flash_config.ntp_port
        → Started s (record t { ntp_state = n }))
    → StartEnds p s (ntp_error input) (start_ntp p t input).0
unfolding start_ntp ntp_init ntp_error fatal_reset
start_ntp-StartEnds p s t input same =
    let client : NtpState = record (ntp_init input.has_pcb).1 {
      ntp_port = t.flash_config.ntp_port;
    } in
    let request =
      ntp_request_async client t.flash_config.ntp_server input.now_ms input.dns input.net in
    let ends =
      check_request-StartEnds p s (record t { ntp_state = request.1 }) input request.0
        (dns_refuses input.dns)
        (ntp_request_async-dns_refuses client t.flash_config.ntp_server input.now_ms input.dns
          input.net)
        (same request.1 (
          ntp_port-ntp_request_async client t.flash_config.ntp_server input.now_ms input.dns
            input.net)) in
    pick input.has_pcb _ _ ends
  where
    pick :
        (b : Bool) (x : Option (NtpError × WifiError)) (r : Result)
        → StartEnds p s x r.0
        → StartEnds p s
            (if not b then some (NtpError.init_error, WifiError.ok) else x)
            (if not b then fatal_reset p NtpError.init_error WifiError.ok else r).0
    pick true x r h = h
    pick false x r h = refl

-- The start resets the Pico exactly for the errors of `start_error`, and leaves them for the next boot.
-- Otherwise it returns, with the configured NTP port in the client and the configuration as it was.
pub clock_start-StartEnds :
    (p : PersistentState) (s : ClockState) (input : StartInput)
    → StartEnds p s (start_error input) (clock_start p s input).0
unfolding clock_start fatal_reset timers_error ntp_error
clock_start-StartEnds p s input = by_status input.wifi_status
  where
    by_status :
        (w : WifiError)
        → StartEnds p s
            (if not (is_ok w) then some (NtpError.ok, w) else ntp_error input)
            (check_wifi w p (record s { wifi_initialized = input.wifi_initialized }) input).0
    by_status WifiError.ok =
        start_ntp-StartEnds p s (record s { wifi_initialized = input.wifi_initialized }) input
          (λ n port. record { port = port; config = refl; interval = refl; first = refl })
    by_status WifiError.init_error = refl
    by_status WifiError.timeout_error = refl
    by_status WifiError.auth_error = refl
    by_status WifiError.connect_error = refl
    by_status WifiError.unknown_error = refl
