-- ===== src/Boot/Main/Button.antt =====
-- The access point in src/pico_main.c's main loop.
use picow_day_clock.Base.{ap, ◌≡◌, refl, Bool, true, List, [], ◌∷◌, ◌++◌, map}
use picow_day_clock.Config.{PersistentState}
use picow_day_clock.Clock.{ClockState, Outcome, running, reboot, TaskInput}
use picow_day_clock.Clock.Shows.{Returns}
use picow_day_clock.Clock.Task.{clock_task}
use picow_day_clock.Boot.{clock, start_wifi_access_point, system_reboot}
use picow_day_clock.Boot.Main.{prefixed, Effect, boot, rebooted, after_task, main_round}
use picow_day_clock.Boot.Main.Kept.{clock_task-Of}

-- Whether a state asks for the access point.
abbrev pub Asks : Bool → ClockState → Type 0
Asks b s = s.ap_mode_triggered ≡ b

pub clock_task-Asks :
    (b : Bool) (p : PersistentState) (s : ClockState) (input : TaskInput)
    → Asks b s
    → Returns (Asks b) (clock_task p s input).0
clock_task-Asks b p s input h =
    clock_task-Of (λ a n. a ≡ b) p s input (λ a n server k. k) (λ a n k. k) h

-- The calls that end a round whose task returned.
abbrev pub access_point : Outcome → List Effect
access_point (running s) = boot start_wifi_access_point ∷ boot system_reboot ∷ []
access_point (reboot persistent) = []

after_task-Asks :
    (o : Outcome) (active : Bool)
    → Returns (Asks true) o
    → after_task o active ≡ (rebooted, access_point o)
unfolding after_task
after_task-Asks (running s) active h = rw h refl
after_task-Asks (reboot persistent) active h = refl

-- A round of the main loop that begins with the access point asked for ends in a reboot, whatever its
-- task reads: after the calls of the task the access point is started and the Pico rebooted, unless
-- the task has reset it already. The LED is left alone.
pub main_round-access_point :
    (p : PersistentState) (s : ClockState) (input : TaskInput) (active : Bool)
    → s.ap_mode_triggered ≡ true
    → let (outcome, effects) = clock_task p s input in
      main_round p s input active
      ≡ (rebooted, map (λ e. boot (clock e)) effects ++ access_point outcome)
unfolding main_round
main_round-access_point p s input active h =
    let task = clock_task p s input in
    ap (prefixed (map (λ e. boot (clock e)) task.1))
      (after_task-Asks task.0 active (clock_task-Asks true p s input h))
