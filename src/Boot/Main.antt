-- ===== src/Boot/Main.antt =====
-- The `main` of src/pico_main.c and the diagnostic LED. Interrupts come between two rounds of its
-- loop: a round has the callbacks that ran before it. That of the backlight timer changes nothing
-- here and is left out. The access point is one call here;
-- the state that it and the cleared `ap_mode_triggered` leave is lost in the reboot that follows.
pub mod Led
pub mod Kept
pub mod Button
pub mod View
pub mod PowerOn
pub mod Starting
pub mod Quiet
pub mod Run
pub mod Faces
pub mod Settings
pub mod Sync
pub mod Reboot
pub mod Healthy
pub mod Display
mod Sample
mod Examples
use picow_day_clock.Base.{
  ℕ, Bool, true, false, ◌&&◌, List, [], ◌∷◌, ◌++◌, map, Option, none, some, if◌then◌else◌,
}
use picow_day_clock.Base.Int.{pos}
use picow_day_clock.Ntp.{NtpStatus, Lwip, ntp_dns_callback, ntp_recv_callback}
use picow_day_clock.Config.{PersistentState, FlashConfig}
use picow_day_clock.Clock.{
  ClockState, Outcome, running, reboot, TaskInput, lwip, ntp_timer_callback, clock_timer_callback,
}
use picow_day_clock.Clock.Task.{clock_task}
use picow_day_clock.Boot
use picow_day_clock.Boot.{clock, start_wifi_access_point, system_reboot, clock_init}
use picow_day_clock.Boot.Start.{StartInput, clock_start}

pub data Effect : Type 0 where
  boot : Boot.Effect → Effect
  add_repeating_timer cancel_repeating_timer : Effect
  gpio_init gpio_set_dir_out gpio_xor : (pin : ℕ) → Effect
  gpio_put : (pin : ℕ) → Bool → Effect
  sleep_ms : ℕ → Effect

abbrev pub diag_green_led_gpio : ℕ
diag_green_led_gpio = 15

abbrev pub diag_red_led_gpio : ℕ
diag_red_led_gpio = 16

-- Every call keeps the timer running.
unfoldable pub startup_led_callback : Bool × List Effect
startup_led_callback = (true, gpio_xor diag_green_led_gpio ∷ [])

-- `added` is whether the timer can be added.
unfoldable pub init_diagnostic_led : Bool → Bool × List Effect
init_diagnostic_led added = (
  added,
  gpio_init diag_green_led_gpio
      ∷ gpio_set_dir_out diag_green_led_gpio
      ∷ gpio_put diag_green_led_gpio false
      ∷ gpio_init diag_red_led_gpio
      ∷ gpio_set_dir_out diag_red_led_gpio
      ∷ gpio_put diag_red_led_gpio false
      ∷ add_repeating_timer
      ∷ [],
)

-- Whether the loop goes on, with the state and `startup_led_active`.
pub data End : Type 0 where
  going : ClockState → Bool → End
  rebooted : End

abbrev pub Result : Type 0
Result = End × List Effect

abbrev pub is_idle : NtpStatus → Bool
is_idle NtpStatus.idle = true
is_idle _ = false

-- The end of a round: the LED, and the sleep.
unfoldable pub update_led : ClockState → Bool → Result
update_led s startup_led_active =
    if startup_led_active && is_idle s.ntp_state.status
    then (
      going s false,
      cancel_repeating_timer
          ∷ gpio_put diag_red_led_gpio false
          ∷ gpio_put diag_green_led_gpio s.flash_config.led_always_on
          ∷ sleep_ms 10
          ∷ [],
    )
    else (going s startup_led_active, sleep_ms 10 ∷ [])

-- What follows `clock_task`.
unfoldable pub after_task : Outcome → Bool → Result
after_task (reboot persistent) startup_led_active = (rebooted, [])
after_task (running s) startup_led_active =
    if s.ap_mode_triggered
    then (rebooted, boot start_wifi_access_point ∷ boot system_reboot ∷ [])
    else update_led s startup_led_active

abbrev pub prefixed : List Effect → Result → Result
prefixed es (end, fs) = (end, es ++ fs)

-- One round of the loop.
unfoldable pub main_round : PersistentState → ClockState → TaskInput → Bool → Result
main_round persistent s input startup_led_active =
    let (outcome, effects) = clock_task persistent s input in
    prefixed (map (λ e. boot (clock e)) effects) (after_task outcome startup_led_active)

-- The callbacks that run between two rounds: of the timers and of lwIP.
pub data Interrupt : Type 0 where
  clock_timer : (pressed : Bool) → Interrupt
  startup_led : Interrupt
  dns_found : Option ℕ → Lwip → Interrupt
  received : (packet : List ℕ) (addr port : ℕ) → Interrupt

-- `time_handler`, where it is called.
abbrev pub with_time : Option ℕ → ClockState → ClockState
with_time none s = s
with_time (some time) s = ntp_timer_callback s (pos time)

-- A callback; `held` is its `button_hold_seconds`.
unfoldable pub interrupt : Interrupt → ClockState → ℕ → ClockState × ℕ × List Effect
interrupt (clock_timer pressed) s held =
    let (s', held') = clock_timer_callback s held pressed in (s', held', [])
interrupt startup_led s held = (s, held, startup_led_callback.1)
interrupt (dns_found addr net) s held =
    let (ntp_state, effects) = ntp_dns_callback s.ntp_state addr net in
    (record s { ntp_state = ntp_state }, held, map (λ e. boot (clock (lwip e))) effects)
interrupt (received packet addr port) s held =
    let (ntp_state, time) = ntp_recv_callback s.ntp_state packet addr port in
    (with_time time (record s { ntp_state = ntp_state }), held, [])

unfoldable pub interrupts : List Interrupt → ClockState → ℕ → ClockState × ℕ × List Effect
interrupts [] s held = (s, held, [])
interrupts (i ∷ is) s held =
    let (s₁, held₁, es) = interrupt i s held in
    let (s₂, held₂, fs) = interrupts is s₁ held₁ in (s₂, held₂, es ++ fs)

-- What comes before a round, and what its task reads.
pub record Round : Type 0 where
  pub before : List Interrupt
  pub input : TaskInput

-- What follows a round; `rest` is the loop after it.
abbrev pub main_next : (ClockState → ℕ → Bool → Result) → ℕ → End → Result
main_next rest held (going s startup_led_active) = rest s held startup_led_active
main_next rest held rebooted = (rebooted, [])

-- The loop, for some rounds.
unfoldable pub main_loop : PersistentState → List Round → ClockState → ℕ → Bool → Result
main_loop persistent [] s held startup_led_active = (going s startup_led_active, [])
main_loop persistent (r ∷ rs) s held startup_led_active =
    let called = interrupts r.before s held in
    let done = main_round persistent called.0 r.input startup_led_active in
    prefixed called.2 (prefixed done.1 (main_next (main_loop persistent rs) called.1 done.0))

-- What follows `clock_start`.
abbrev pub main_started : PersistentState → List Round → Bool → Outcome → Result
main_started persistent rounds startup_led_active (running s) =
    main_loop persistent rounds s 0 startup_led_active
main_started persistent rounds startup_led_active (reboot persistent') = (rebooted, [])

-- What follows `clock_init`.
unfoldable pub main_booted : PersistentState → Bool → StartInput → List Round → Boot.End → Result
main_booted persistent added input rounds Boot.rebooted = (rebooted, [])
main_booted persistent added input rounds (Boot.ready s) =
    let (active, led) = init_diagnostic_led added in
    let (outcome, effects) = clock_start persistent s input in
    prefixed (led ++ map (λ e. boot (clock e)) effects)
      (main_started persistent rounds active outcome)

-- `main`, for some rounds of its loop: `low` and `by_watchdog` are what `clock_init` reads, `added` is
-- whether the timer of the LED can be added.
unfoldable pub main :
    (ℕ → Bool) → Bool → PersistentState → FlashConfig → Bool → StartInput → List Round → Result
main low by_watchdog persistent flash added input rounds =
    let r = clock_init low by_watchdog persistent flash in
    prefixed (map boot r.3) (main_booted r.1 added input rounds r.0)
