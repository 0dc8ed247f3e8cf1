-- ===== src/Boot/Main/Reboot/PowerOn.antt =====
-- Every reason for which a run of src/pico_main.c's `main` ends in a reboot, from power-on.
use picow_day_clock.Base.{
  ℕ, ◌≡◌, ◌≢◌, refl, sym, ◌∙◌, subst, ap, Bool, true, false, ◌==◌, List, Option, none, some,
  Bool-cases, inl, inr, arith,
}
use picow_day_clock.Ntp.{NtpError}
use picow_day_clock.Config.{PersistentState, FlashConfig, WifiError, config_magic}
use picow_day_clock.Clock.{ClockState, Outcome, running, reboot}
use picow_day_clock.Boot
use picow_day_clock.Boot.{
  factory_reset_readings, held_low, check_flash, clock_init, config_store_handler, empty_config,
}
use picow_day_clock.Boot.Init.{clock_init_invalid}
use picow_day_clock.Boot.Start.{
  StartInput, start_error, clock_start, StartEnds, clock_start-StartEnds,
}
use picow_day_clock.Boot.Main.{
  Round, main_loop, main_started, main_booted, main, init_diagnostic_led,
}
use picow_day_clock.Boot.Main.Reboot.{Reason, Just, Just-map, running_injective, main_loop-Just}

-- The button held at boot, no configuration in flash, an error of the start, or a reason in a round.
pub data PowerOnReason (low : ℕ → Bool) (by_watchdog : Bool) (p : PersistentState)
    (flash : FlashConfig) (input : StartInput) (rounds : List Round) : Type 0 where
  button :
      held_low factory_reset_readings 0 low ≡ true
      → PowerOnReason low by_watchdog p flash input rounds
  no_configuration :
      flash.magic_marker ≢ config_magic → PowerOnReason low by_watchdog p flash input rounds
  not_started :
      (n : NtpError) (w : WifiError)
      → start_error input ≡ some (n, w)
      → PowerOnReason low by_watchdog p flash input rounds
  in_loop :
      (s t : ClockState)
      → (clock_init low by_watchdog p flash).0 ≡ Boot.ready s
      → (clock_start (clock_init low by_watchdog p flash).1 s input).0 ≡ running t
      → Reason (clock_init low by_watchdog p flash).1 rounds t 0
      → PowerOnReason low by_watchdog p flash input rounds

module _ (low : ℕ → Bool) (by_watchdog : Bool) (p : PersistentState) (flash : FlashConfig) where
  abbrev booted : Boot.Result
  booted = clock_init low by_watchdog p flash

  clock_init_held : held_low factory_reset_readings 0 low ≡ true → booted.0 ≡ Boot.rebooted
  unfolding clock_init
  clock_init_held h = rw h refl

  clock_init_ready :
      held_low factory_reset_readings 0 low ≡ false
      → (flash.magic_marker == config_magic) ≡ true
      → (s : ClockState) × (booted.0 ≡ Boot.ready s)
  unfolding clock_init check_flash
  clock_init_ready h k = elim (Bool-cases by_watchdog) [
    | inl e ↦ rw (h, e, k) (_, refl)
    | inr e ↦ rw (h, e, k) (_, refl)
  ]

module _ (low : ℕ → Bool) (by_watchdog : Bool) (p : PersistentState) (flash : FlashConfig)
    (input : StartInput) (rounds : List Round) where
  abbrev Why : Type 0
  Why = PowerOnReason low by_watchdog p flash input rounds

  abbrev first : Boot.Result
  first = booted low by_watchdog p flash

  -- There is no reason if there is none in the loop.
  no_reason :
      (s t : ClockState)
      → held_low factory_reset_readings 0 low ≡ false
      → flash.magic_marker ≡ config_magic
      → first.0 ≡ Boot.ready s
      → start_error input ≡ none
      → (clock_start first.1 s input).0 ≡ running t
      → ¬ Reason first.1 rounds t 0
      → ¬ Why
  no_reason s t free valid ready started returns quiet (button h) = absurd (cc)
  no_reason s t free valid ready started returns quiet (no_configuration h) = h valid
  no_reason s t free valid ready started returns quiet (not_started n w h) = absurd (cc)
  no_reason s t free valid ready started returns quiet (in_loop s' t' h k reason) =
      let same : s ≡ s' = ready_injective s s' (sym ready ∙ h) in
      let ends : running t ≡ running t' =
        sym returns ∙ ap (λ x. (clock_start first.1 x input).0) same ∙ k in
      quiet (subst (λ x. Reason first.1 rounds x 0) (sym (running_injective t t' ends)) reason)
    where
      ready_or : ClockState → Boot.End → ClockState
      ready_or x (Boot.ready y) = y
      ready_or x Boot.rebooted = x

      ready_injective : (x y : ClockState) → Boot.ready x ≡ Boot.ready y → x ≡ y
      ready_injective x y e = ap (ready_or x) e

  main_started-Just :
      (s : ClockState) (active : Bool) (x : Option (NtpError × WifiError)) (o : Outcome)
      → held_low factory_reset_readings 0 low ≡ false
      → flash.magic_marker ≡ config_magic
      → first.0 ≡ Boot.ready s
      → start_error input ≡ x
      → (clock_start first.1 s input).0 ≡ o
      → StartEnds first.1 s x o
      → Just Why (main_started first.1 rounds active o).0
  main_started-Just s active (some (n, w)) (reboot q) free valid ready start returns ends =
      not_started n w start
  main_started-Just s active (some (n, w)) (running t) free valid ready start returns ends =
      absurd (cc)
  main_started-Just s active none (reboot q) free valid ready start returns (t, ends, same) =
      absurd (cc)
  main_started-Just s active none (running t) free valid ready start returns ends =
      Just-map (Reason first.1 rounds t 0) Why (main_loop first.1 rounds t 0 active).0
        (in_loop s t ready returns) (no_reason s t free valid ready start returns)
        (main_loop-Just first.1 rounds t 0 active)

  main_booted-Just :
      (added : Bool) (e : Boot.End)
      → held_low factory_reset_readings 0 low ≡ false
      → (flash.magic_marker == config_magic) ≡ true
      → first.0 ≡ e
      → Just Why (main_booted first.1 added input rounds e).0
  unfolding main_booted init_diagnostic_led
  main_booted-Just added Boot.rebooted free valid ends =
      let (s, ready) = clock_init_ready low by_watchdog p flash free valid in absurd (cc)
  main_booted-Just added (Boot.ready s) free valid ends =
      let marked : flash.magic_marker ≡ config_magic = ground arith in
      main_started-Just s added (start_error input) (clock_start first.1 s input).0 free marked ends
        refl refl (clock_start-StartEnds first.1 s input)

-- Why the Pico reboots: a run of `main` from power-on ends in a reboot just if the button was held at
-- boot, the flash has no configuration, the start finds an error, or, after rounds whose tasks return,
-- a task finds an error at a tick that is due or the access point is asked for. If none of this is so,
-- the run goes on. It holds for any answers, callbacks and readings.
pub main-Just :
    (low : ℕ → Bool) (by_watchdog : Bool) (p : PersistentState) (flash : FlashConfig) (added : Bool)
    (input : StartInput) (rounds : List Round)
    → Just
        (PowerOnReason low by_watchdog p flash input rounds)
        (main low by_watchdog p flash added input rounds).0
unfolding main main_booted
main-Just low by_watchdog p flash added input rounds =
    elim (Bool-cases (held_low factory_reset_readings 0 low)) [
      | inl held ↦ rw (clock_init_held low by_watchdog p flash held) (button held)
      | inr free ↦ elim (Bool-cases (flash.magic_marker == config_magic)) [
        | inl valid ↦
            main_booted-Just low by_watchdog p flash input rounds added
              (booted low by_watchdog p flash).0 free valid refl
        | inr invalid ↦
            rw (clock_init_invalid low by_watchdog p flash invalid)
              (no_configuration (ground arith))
      ]
    ]
