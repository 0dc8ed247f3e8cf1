-- ===== src/Boot/Main/Run.antt =====
-- A round of the main loop of src/pico_main.c: what it leaves on the displays.
use picow_day_clock.Base.{
  ℕ, ◌≡◌, refl, ◌∙◌, ap, Bool, true, false, ◌||◌, List, [], ◌∷◌, Bool-cases, inl, inr, arith,
  Option, none, some, ◌&&◌,
}
use picow_day_clock.Ntp.{ntp_dns_callback, ntp_recv_callback}
use picow_day_clock.Config.{FlashConfig, PersistentState}
use picow_day_clock.Clock.{
  ClockState, Outcome, running, reboot, TaskInput, clock_timer_callback, ntp_timer_callback,
}
use picow_day_clock.Clock.Shows.{Returns}
use picow_day_clock.Clock.Task.{clock_task}
use picow_day_clock.Lcd.Frame.{Bitmaps}
use picow_day_clock.Lcd.Idle.{FontsFit}
use picow_day_clock.Boot.Main.{
  Effect, going, rebooted, Result, prefixed, is_idle, update_led, after_task, main_round, Interrupt,
  clock_timer, startup_led, dns_found, received, with_time, interrupt, interrupts, main_next,
  startup_led_callback,
}
use picow_day_clock.Boot.Main.View.{
  View, perform, perform_all, perform_all-append, Silent, Silent-lwip,
}
use picow_day_clock.Boot.Main.Starting.{Keeps, Keeps-refl}
use picow_day_clock.Boot.Main.Quiet.{called}
use picow_day_clock.Boot.Main.Display.{Displayed, Shown, Displayed-Keeps, clock_task-Shown}

with_time-Keeps : (s t : ClockState) (time : Option ℕ) → Keeps s t → Keeps s (with_time time t)
unfolding ntp_timer_callback
with_time-Keeps s t none k = k
with_time-Keeps s t (some time) k = record { first = k.first; digits = k.digits; config = k.config }

interrupt-Keeps : (i : Interrupt) (s : ClockState) (held : ℕ) → Keeps s (interrupt i s held).0
unfolding interrupt clock_timer_callback
interrupt-Keeps (clock_timer pressed) s held = record {
  first = ground arith;
  digits = ground arith;
  config = ground arith;
}
interrupt-Keeps startup_led s held = Keeps-refl s
interrupt-Keeps (dns_found addr net) s held = record { first = refl; digits = refl; config = refl }
interrupt-Keeps (received packet addr port) s held =
    let r = ntp_recv_callback s.ntp_state packet addr port in
    with_time-Keeps s (record s { ntp_state = r.0 }) r.1
      (record { first = refl; digits = refl; config = refl })

interrupt-Silent : (i : Interrupt) (s : ClockState) (held : ℕ) → Silent (interrupt i s held).2
unfolding interrupt startup_led_callback perform_all perform
interrupt-Silent (clock_timer pressed) s held b v = refl
interrupt-Silent startup_led s held b v = refl
interrupt-Silent (dns_found addr net) s held b v =
    Silent-lwip (ntp_dns_callback s.ntp_state addr net).1 b v
interrupt-Silent (received packet addr port) s held b v = refl

-- Whether the clock's timer is among the callbacks.
abbrev pub has_timer : List Interrupt → Bool
has_timer [] = false
has_timer (clock_timer pressed ∷ is) = true
has_timer (i ∷ is) = has_timer is

with_time_due :
    (time : Option ℕ) (s : ClockState)
    → (with_time time s).clock_tick_updated ≡ s.clock_tick_updated
unfolding ntp_timer_callback
with_time_due none s = refl
with_time_due (some time) s = refl

-- A tick is due after callbacks if it was, or the timer was among them.
pub interrupts_due :
    (is : List Interrupt) (s : ClockState) (held : ℕ)
    → (interrupts is s held).0.clock_tick_updated ≡ (s.clock_tick_updated || has_timer is)
unfolding interrupts interrupt clock_timer_callback
interrupts_due [] s held = ground arith
interrupts_due (clock_timer pressed ∷ is) s held =
    let r = clock_timer_callback s held pressed in
    let set : r.0.clock_tick_updated ≡ true = ground arith in
    interrupts_due is r.0 r.1 ∙ rw set (ground arith)
interrupts_due (startup_led ∷ is) s held = interrupts_due is s held
interrupts_due (dns_found addr net ∷ is) s held =
    interrupts_due is (record s { ntp_state = (ntp_dns_callback s.ntp_state addr net).0 }) held
interrupts_due (received packet addr port ∷ is) s held =
    let r = ntp_recv_callback s.ntp_state packet addr port in
    let s' = with_time r.1 (record s { ntp_state = r.0 }) in
    interrupts_due is s' held
    ∙ ap (λ due. due || has_timer is) (with_time_due r.1 (record s { ntp_state = r.0 }))

-- What holds of the displays and the state when a run has not ended in a reboot.
abbrev pub Runs : (View → ClockState → Type 0) → Bitmaps → View → Result → Type 0
Runs P b v (going s active, es) = P (perform_all b v es) s
Runs P b v (rebooted, es) = Unit

pub Runs-prefixed :
    (P : View → ClockState → Type 0) (b : Bitmaps) (v : View) (es : List Effect) (r : Result)
    → Runs P b (perform_all b v es) r
    → Runs P b v (prefixed es r)
Runs-prefixed P b v es (going s active, fs) h = rw (perform_all-append b v es fs) h
Runs-prefixed P b v es (rebooted, fs) h = tt

module _ (b : Bitmaps) (flash : FlashConfig) (fonts : FontsFit b) (p : PersistentState) where
  pub interrupts-Displayed :
      (is : List Interrupt) (s : ClockState) (held : ℕ) (v : View)
      → Displayed b flash v s
      → let r = interrupts is s held in Displayed b flash (perform_all b v r.2) r.0
  unfolding interrupts perform_all
  interrupts-Displayed [] s held v h = h
  interrupts-Displayed (i ∷ is) s held v h =
      let one = interrupt i s held in
      let rest = interrupts is one.0 one.1 in
      let after =
        interrupts-Displayed is one.0 one.1 v
          (Displayed-Keeps b flash fonts p v s one.0 (interrupt-Keeps i s held) h) in
      rw (perform_all-append b v one.2 rest.2, interrupt-Silent i s held b v) after

  abbrev pub Due : Bool → TaskInput → View → ClockState → Type 0
  Due due input v t = Shown b flash fonts p due input v t

  update_led-Runs :
      (due : Bool) (input : TaskInput) (v : View) (s : ClockState) (active : Bool)
      → Due due input v s
      → Runs (Due due input) b v (update_led s active)
  unfolding update_led perform_all perform
  update_led-Runs due input v s active h =
      elim (Bool-cases (active && is_idle s.ntp_state.status)) [ inl e ↦ rw e h | inr e ↦ rw e h ]

  after_task-Runs :
      (due : Bool) (input : TaskInput) (v : View) (o : Outcome) (active : Bool)
      → Returns (Due due input v) o
      → Runs (Due due input) b v (after_task o active)
  unfolding after_task
  after_task-Runs due input v (running s) active h = elim (Bool-cases s.ap_mode_triggered) [
    | inl e ↦ rw e tt
    | inr e ↦ simp e (update_led-Runs due input v s active h)
  ]
  after_task-Runs due input v (reboot q) active h = tt

  pub main_round-Runs :
      (s : ClockState) (input : TaskInput) (active : Bool) (v : View)
      → Displayed b flash v s
      → Runs (Due s.clock_tick_updated input) b v (main_round p s input active)
  unfolding main_round
  main_round-Runs s input active v h =
      let task = clock_task p s input in
      Runs-prefixed (Due s.clock_tick_updated input) b v (called task.1) (after_task task.0 active)
        (after_task-Runs s.clock_tick_updated input (perform_all b v (called task.1)) task.0 active
          (clock_task-Shown b flash fonts p s input v h))

  pub main_next-Runs :
      (P Q : View → ClockState → Type 0) (rest : ClockState → ℕ → Bool → Result) (held : ℕ)
      (v : View) (r : Result)
      → ((t : ClockState) (active : Bool) (w : View) → P w t → Runs Q b w (rest t held active))
      → Runs P b v r
      → Runs Q b v (prefixed r.1 (main_next rest held r.0))
  main_next-Runs P Q rest held v (going t active, es) go h =
      Runs-prefixed Q b v es (rest t held active) (go t active (perform_all b v es) h)
  main_next-Runs P Q rest held v (rebooted, es) go h = tt
