-- ===== src/Clock/Button.antt =====
-- The factory reset button of src/clock.c's `clock_timer_callback`, over many seconds.
use picow_day_clock.Base.{
  ℕ, zero, suc, ◌-◌, ◌<◌, ◌≡◌, Bool, true, false, ◌&&◌, ◌||◌, List, [], ◌∷◌, refl, arith,
}
use picow_day_clock.Clock.{ClockState, clock_timer_callback}

-- One callback each second, with the state of the pin.
pub run_timer : ClockState → ℕ → List Bool → ClockState × ℕ
run_timer s held [] = (s, held)
run_timer s held (p ∷ ps) = let (s', held') = clock_timer_callback s held p in run_timer s' held' ps

-- The pin was low for `n` seconds in a row at the start of a list.
abbrev pub pressed_for : ℕ → List Bool → Bool
pressed_for zero ps = true
pressed_for (suc n) [] = false
pressed_for (suc n) (p ∷ ps) = p && pressed_for n ps

-- Somewhere in a list the pin was low for three seconds in a row.
abbrev pub three_pressed : List Bool → Bool
three_pressed [] = false
three_pressed (p ∷ ps) = pressed_for 3 (p ∷ ps) || three_pressed ps

pressed_for_mono :
    (n : ℕ) (ps : List Bool) → pressed_for (suc n) ps ≡ true → pressed_for n ps ≡ true
pressed_for_mono zero ps h = refl
pressed_for_mono (suc n) [] h = cc
pressed_for_mono (suc n) (p ∷ ps) h = ground (arith, pressed_for_mono n ps)

three_pressed-pressed_for : (ps : List Bool) → pressed_for 3 ps ≡ true → three_pressed ps ≡ true
three_pressed-pressed_for [] h = h
three_pressed-pressed_for (p ∷ ps) h = ground arith

-- After any sequence of timer callbacks, one each second, the access point is asked for just if it
-- was already, or the button was held for three seconds in a row, of which `held` seconds, fewer
-- than three, may lie before the sequence.
pub run_timer_lem :
    (s : ClockState) (held : ℕ) (ps : List Bool)
    → held < 3
    → (run_timer s held ps).0.ap_mode_triggered
      ≡ (s.ap_mode_triggered || pressed_for (3 - held) ps || three_pressed ps)
unfolding run_timer clock_timer_callback
run_timer_lem s zero [] h = ground arith
run_timer_lem s (suc zero) [] h = ground arith
run_timer_lem s (suc (suc zero)) [] h = ground arith
run_timer_lem s (suc (suc (suc n))) ps h = absurd (omega arith)
run_timer_lem s zero (p ∷ ps) h =
    let (s', held) = clock_timer_callback s 0 p in
    ground (arith, run_timer_lem s' held ps, three_pressed-pressed_for ps)
run_timer_lem s (suc zero) (p ∷ ps) h =
    let (s', held) = clock_timer_callback s 1 p in
    ground (arith, run_timer_lem s' held ps, three_pressed-pressed_for ps, pressed_for_mono 1 ps)
run_timer_lem s (suc (suc zero)) (p ∷ ps) h =
    let (s', held) = clock_timer_callback s 2 p in
    ground (arith, run_timer_lem s' held ps, three_pressed-pressed_for ps, pressed_for_mono 1 ps)
