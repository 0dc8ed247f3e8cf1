-- ===== src/Boot/Main/Led.antt =====
-- The status LED over the rounds of src/pico_main.c's main loop.
use picow_day_clock.Base.{
  ℕ, suc, ◌+◌, ◌≤◌, ◌≡◌, refl, Bool, true, false, List, [], ◌∷◌, ◌++◌, map, arith, Bool-cases, inl,
  inr,
}
use picow_day_clock.Ntp
use picow_day_clock.Ntp.{ntp_dns_callback}
use picow_day_clock.Config.{PersistentState}
use picow_day_clock.Clock
use picow_day_clock.Clock.{ClockState, Outcome, running, reboot, TaskInput, lwip}
use picow_day_clock.Clock.Task.{clock_task}
use picow_day_clock.Boot.{clock}
use picow_day_clock.Boot.Main.{
  Effect, boot, cancel_repeating_timer, gpio_put, End, going, rebooted, Result, is_idle, update_led,
  after_task, main_round, Round, main_loop, main_next, Interrupt, clock_timer, startup_led,
  dns_found, received, interrupt, interrupts, startup_led_callback,
}

-- How often a LED is set: each write of the green or the red one, and each end of the timer.
abbrev led_calls : List Effect → ℕ
led_calls [] = 0
led_calls (gpio_put pin level ∷ es) = suc (led_calls es)
led_calls (cancel_repeating_timer ∷ es) = suc (led_calls es)
led_calls (_ ∷ es) = led_calls es

led_calls-append : (es fs : List Effect) → led_calls (es ++ fs) ≡ led_calls es + led_calls fs
led_calls-append [] fs = omega arith
led_calls-append (gpio_put pin level ∷ es) fs = omega (arith, led_calls-append es fs)
led_calls-append (cancel_repeating_timer ∷ es) fs = omega (arith, led_calls-append es fs)
led_calls-append (_ ∷ es) fs = led_calls-append es fs

led_calls-map : (es : List Clock.Effect) → led_calls (map (λ e. boot (clock e)) es) ≡ 0
led_calls-map [] = refl
led_calls-map (e ∷ es) = led_calls-map es

led_calls-lwip : (es : List Ntp.Effect) → led_calls (map (λ e. boot (clock (lwip e))) es) ≡ 0
led_calls-lwip [] = refl
led_calls-lwip (e ∷ es) = led_calls-lwip es

-- The calls that a timer which runs may still take.
abbrev allowance : Bool → ℕ
allowance true = 3
allowance false = 0

abbrev left : End → ℕ
left (going s startup_led_active) = allowance startup_led_active
left rebooted = 0

update_led-allowance :
    (s : ClockState) (active : Bool)
    → led_calls (update_led s active).1 + left (update_led s active).0 ≤ allowance active
unfolding update_led
update_led-allowance s false = omega arith
update_led-allowance s true = elim (Bool-cases (is_idle s.ntp_state.status)) [
  | inl e ↦ rw e (omega arith)
  | inr e ↦ rw e (omega arith)
]

after_task-allowance :
    (o : Outcome) (active : Bool)
    → led_calls (after_task o active).1 + left (after_task o active).0 ≤ allowance active
unfolding after_task
after_task-allowance (reboot persistent) active = omega arith
after_task-allowance (running s) active = elim (Bool-cases s.ap_mode_triggered) [
  | inl e ↦ rw e (omega arith)
  | inr e ↦ simp e (update_led-allowance s active)
]

main_round-allowance :
    (p : PersistentState) (s : ClockState) (input : TaskInput) (active : Bool)
    → led_calls (main_round p s input active).1 + left (main_round p s input active).0
      ≤ allowance active
unfolding main_round
main_round-allowance p s input active =
    let task = clock_task p s input in
    let effects = map (λ e. boot (clock e)) task.1 in
    let done = after_task task.0 active in
    omega (
      arith,
      led_calls-append effects done.1,
      led_calls-map task.1,
      after_task-allowance task.0 active,
    )

led_calls-interrupt :
    (i : Interrupt) (s : ClockState) (held : ℕ) → led_calls (interrupt i s held).2 ≡ 0
unfolding interrupt startup_led_callback
led_calls-interrupt (clock_timer pressed) s held = refl
led_calls-interrupt startup_led s held = refl
led_calls-interrupt (dns_found addr net) s held =
    led_calls-lwip (ntp_dns_callback s.ntp_state addr net).1
led_calls-interrupt (received packet addr port) s held = refl

led_calls-interrupts :
    (is : List Interrupt) (s : ClockState) (held : ℕ) → led_calls (interrupts is s held).2 ≡ 0
unfolding interrupts
led_calls-interrupts [] s held = refl
led_calls-interrupts (i ∷ is) s held =
    let one = interrupt i s held in
    let rest = interrupts is one.0 one.1 in
    omega (
      arith,
      led_calls-append one.2 rest.2,
      led_calls-interrupt i s held,
      led_calls-interrupts is one.0 one.1,
    )

main_next-allowance :
    (rest : ClockState → ℕ → Bool → Result) (held : ℕ) (e : End)
    → ((s : ClockState) (active : Bool) → led_calls (rest s held active).1 ≤ allowance active)
    → led_calls (main_next rest held e).1 ≤ left e
main_next-allowance rest held (going s active) h = h s active
main_next-allowance rest held rebooted h = omega arith

-- However many rounds the main loop makes, whatever callbacks run between them and whatever the tasks
-- read, the timer that blinks the LED is stopped at most once and each LED set at most once more, at
-- that moment; and not at all if the timer does not run.
main_loop-allowance :
    (p : PersistentState) (rs : List Round) (s : ClockState) (held : ℕ) (active : Bool)
    → led_calls (main_loop p rs s held active).1 ≤ allowance active
unfolding main_loop
main_loop-allowance p [] s held active = omega arith
main_loop-allowance p (r ∷ rs) s held active =
    let called = interrupts r.before s held in
    let done = main_round p called.0 r.input active in
    let rest = main_next (main_loop p rs) called.1 done.0 in
    omega (
      arith,
      led_calls-append called.2 (done.1 ++ rest.1),
      led_calls-append done.1 rest.1,
      led_calls-interrupts r.before s held,
      main_round-allowance p called.0 r.input active,
      main_next-allowance (main_loop p rs) called.1 done.0
          (λ t b. main_loop-allowance p rs t called.1 b),
    )
