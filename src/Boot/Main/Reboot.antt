-- ===== src/Boot/Main/Reboot.antt =====
-- Why src/pico_main.c's `main` ends in a reboot.
pub mod PowerOn
use picow_day_clock.Base.{
  ℕ, ◌≡◌, ◌≢◌, refl, sym, ◌∙◌, subst, ap, Bool, true, false, ◌&&◌, not, ◌==◌, List, [], ◌∷◌, Option,
  none, some, if◌then◌else◌, Bool-cases, inl, inr, arith,
}
use picow_day_clock.Ntp.{NtpError, NtpStatus, ntp_atomic_read}
use picow_day_clock.Config.{PersistentState, FlashConfig, WifiError, config_magic}
use picow_day_clock.Clock.{ClockState, Outcome, running, reboot, TaskInput, process_ntp_time}
use picow_day_clock.Clock.Shows.{Returns}
use picow_day_clock.Clock.Task.{clock_task}
use picow_day_clock.Clock.Supervise.{reset_error, after_sync, Ends, clock_task-Ends}
use picow_day_clock.Boot.Main.{
  End, going, rebooted, Result, is_idle, update_led, after_task, main_round, interrupts, Round,
  main_next, main_loop,
}
use picow_day_clock.Boot.Main.Button.{Asks, clock_task-Asks}

-- The error for which the task of a round must reset the Pico, if there is one.
abbrev pub round_error : ClockState → TaskInput → Option NtpError
round_error s input =
    if s.clock_tick_updated
    then reset_error s.ntp_state.status (ntp_atomic_read s.ntp_state) (after_sync s input.sync_now)
        input
    else none

-- Why some rounds of the loop end in a reboot: after rounds whose tasks return there is one whose task
-- finds an error, or one that begins with the access point asked for.
pub data Reason (p : PersistentState) : List Round → ClockState → ℕ → Type 0 where
  error :
      {r : Round} {rs : List Round} {s : ClockState} {held : ℕ} (e : NtpError)
      → round_error (interrupts r.before s held).0 r.input ≡ some e
      → Reason p (r ∷ rs) s held
  asked :
      {r : Round} {rs : List Round} {s : ClockState} {held : ℕ}
      → (interrupts r.before s held).0.ap_mode_triggered ≡ true
      → Reason p (r ∷ rs) s held
  later :
      {r : Round} {rs : List Round} {s : ClockState} {held : ℕ} (t : ClockState)
      → (clock_task p (interrupts r.before s held).0 r.input).0 ≡ running t
      → Reason p rs t (interrupts r.before s held).1
      → Reason p (r ∷ rs) s held

-- A reboot for a reason, or none of either.
abbrev pub Just : Type 0 → End → Type 0
Just R rebooted = R
Just R (going s active) = ¬ R

Ends-if :
    (p : PersistentState) (due : Bool) (x : Option NtpError) (o : Outcome)
    → (due ≡ true → Ends p x o)
    → (due ≡ false → Ends p none o)
    → Ends p (if due then x else none) o
Ends-if p true x o h k = h refl
Ends-if p false x o h k = k refl

clock_task_early :
    (p : PersistentState) (s : ClockState) (input : TaskInput)
    → s.clock_tick_updated ≡ false
    → Ends p none (clock_task p s input).0
unfolding clock_task process_ntp_time
clock_task_early p s input early = elim (Bool-cases s.ntp_time_updated) [
  | inl e ↦ rw (e, early) (_, refl)
  | inr e ↦ rw (e, early) (_, refl)
]

clock_task-round_error :
    (p : PersistentState) (s : ClockState) (input : TaskInput)
    → Ends p (round_error s input) (clock_task p s input).0
clock_task-round_error p s input =
    Ends-if p s.clock_tick_updated
      (reset_error s.ntp_state.status (ntp_atomic_read s.ntp_state) (after_sync s input.sync_now)
        input)
      (clock_task p s input).0 (clock_task-Ends p s input) (clock_task_early p s input)

update_led-going :
    (s : ClockState) (active : Bool) → (b : Bool) × ((update_led s active).0 ≡ going s b)
unfolding update_led
update_led-going s active = elim (Bool-cases (active && is_idle s.ntp_state.status)) [
  | inl e ↦ rw e (_, refl)
  | inr e ↦ rw e (_, refl)
]

-- The state of a return.
state_or : ClockState → Outcome → ClockState
state_or s (running t) = t
state_or s (reboot p) = s

pub running_injective : (t u : ClockState) → running t ≡ running u → t ≡ u
unfolding state_or
running_injective t u e = ap (state_or t) e

-- There is no reason in a round that has none, if there is none in the rounds after it.
module _ (p : PersistentState) (r : Round) (rs : List Round) (s t : ClockState) (held : ℕ) where
  abbrev before : ClockState
  before = (interrupts r.before s held).0

  no_reason :
      round_error before r.input ≡ none
      → before.ap_mode_triggered ≡ false
      → (clock_task p before r.input).0 ≡ running t
      → ¬ Reason p rs t (interrupts r.before s held).1
      → ¬ Reason p (r ∷ rs) s held
  no_reason fine unasked returns rest (error e h) = absurd (cc)
  no_reason fine unasked returns rest (asked h) = absurd (cc)
  no_reason fine unasked returns rest (later u h k) =
      let same : t ≡ u = running_injective t u (sym returns ∙ h) in
      rest (subst (λ x. Reason p rs x (interrupts r.before s held).1) (sym same) k)

pub Just-map : (R S : Type 0) (e : End) → (R → S) → (¬ R → ¬ S) → Just R e → Just S e
Just-map R S rebooted f g h = f h
Just-map R S (going s active) f g h = g h

module _ (p : PersistentState) (r : Round) (rs : List Round) (s : ClockState) (held : ℕ) where
  abbrev called : ClockState
  called = (interrupts r.before s held).0

  abbrev held_after : ℕ
  held_after = (interrupts r.before s held).1

  -- A round that is followed by others, by what its task comes to.
  round-Just :
      (x : Option NtpError) (o : Outcome) (b active : Bool)
      → round_error called r.input ≡ x
      → (clock_task p called r.input).0 ≡ o
      → called.ap_mode_triggered ≡ b
      → Ends p x o
      → Returns (Asks b) o
      → ((t : ClockState) (active' : Bool)
          → Just (Reason p rs t held_after) (main_loop p rs t held_after active').0)
      → Just
          (Reason p (r ∷ rs) s held)
          (main_next (main_loop p rs) held_after (after_task o active).0).0
  unfolding after_task
  round-Just (some e) (reboot q) b active found returns asks ends kept rest = error e found
  round-Just (some e) (running t) b active found returns asks ends kept rest = absurd (cc)
  round-Just none (reboot q) b active found returns asks (t, ends) kept rest = absurd (cc)
  round-Just none (running t) true active found returns asks ends kept rest = rw kept (asked asks)
  round-Just none (running t) false active found returns asks ends kept rest =
      let (active', goes) = update_led-going t active in
      simp (kept, goes)
        (Just-map (Reason p rs t held_after) (Reason p (r ∷ rs) s held)
          (main_loop p rs t held_after active').0 (later t returns)
          (no_reason p r rs s t held found asks returns) (rest t active'))

-- Some rounds of the loop end in a reboot just if there is a reason.
pub main_loop-Just :
    (p : PersistentState) (rs : List Round) (s : ClockState) (held : ℕ) (active : Bool)
    → Just (Reason p rs s held) (main_loop p rs s held active).0
unfolding main_loop main_round
main_loop-Just p [] s held active = nothing
  where
    nothing : ¬ Reason p [] s held
    nothing h = elim h [ ]
main_loop-Just p (r ∷ rs) s held active =
    let before = (interrupts r.before s held).0 in
    let task = (clock_task p before r.input).0 in
    round-Just p r rs s held (round_error before r.input) task before.ap_mode_triggered active refl
      refl refl (clock_task-round_error p before r.input)
      (clock_task-Asks before.ap_mode_triggered p before r.input refl)
      (λ t active'. main_loop-Just p rs t (interrupts r.before s held).1 active')
