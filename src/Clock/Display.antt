-- ===== src/Clock/Display.antt =====
-- What the displays show after `clock_task` of src/clock.c has drawn.
use picow_day_clock.Base.{
  ℕ, ◌+◌, ◌<◌, ◌≡◌, inl, inr, refl, sym, ap, ◌∙◌, Bool, false, List, [], ◌∷◌, ◌++◌, arith, length,
  set, Bool-cases, length-append,
}
use mathlib.Core.List.{append_assoc}
use picow_day_clock.Base.Int.{ℤ}
use picow_day_clock.Calendar.{Tm, gmtime}
use picow_day_clock.Dst.{calculate_local_time}
use picow_day_clock.Ntp.{NtpError}
use picow_day_clock.Config.{WatchdogError, WifiError}
use picow_day_clock.Clock.{
  ClockState, Effect, lcd_clear_screen, lcd_print_clock_digit, lcd_update_icons, lcd_digits,
  digits_differ, draw_digit, draw_digits, update_display,
}

-- The seven displays as characters; a cleared one shows a space. Icons leave the digits alone.
abbrev pub Screen : Type 0
Screen = List ℕ

abbrev pub show : Screen → Effect → Screen
show screen (lcd_clear_screen n) = set screen n b' '
show screen (lcd_print_clock_digit n color c) = set screen n c
show screen _ = screen

abbrev pub show_all : Screen → List Effect → Screen
show_all screen [] = screen
show_all screen (e ∷ es) = show_all (show screen e) es

pub show_all-append :
    (screen : Screen) (es fs : List Effect)
    → show_all screen (es ++ fs) ≡ show_all (show_all screen es) fs
show_all-append screen [] fs = refl
show_all-append screen (e ∷ es) fs = show_all-append (show screen e) es fs

set-append :
    (pre rest : List ℕ) (w v : ℕ) → set (pre ++ (w ∷ rest)) (length pre) v ≡ pre ++ (v ∷ rest)
set-append [] rest w v = refl
set-append (p ∷ pre) rest w v = ap (λ l. p ∷ l) (set-append pre rest w v)

-- One display: it ends with the new digit, if it showed the old one or this is the first tick.
show_all-draw_digit :
    (first : Bool) (watchdog : WatchdogError) (ntp : NtpError) (wifi : WifiError) (ii : ℕ)
    (pre rest : List ℕ) (w c d : ℕ)
    → ii ≡ length pre
    → (first ≡ false → w ≡ c)
    → show_all (pre ++ (w ∷ rest)) (draw_digit first (lcd_update_icons watchdog ntp wifi) ii c d)
      ≡ pre ++ (d ∷ rest)
show_all-draw_digit first watchdog ntp wifi ii pre rest w c d e h =
    ground (arith, set-append pre rest w b' ', set-append pre rest b' ' d)

head_eq : {a b : ℕ} {xs ys : List ℕ} → a ∷ xs ≡ b ∷ ys → a ≡ b
head_eq e = cc

tail_eq : {a b : ℕ} {xs ys : List ℕ} → a ∷ xs ≡ b ∷ ys → xs ≡ ys
tail_eq e = cc

-- All displays from one on.
show_all-draw_digits :
    (first : Bool) (watchdog : WatchdogError) (ntp : NtpError) (wifi : WifiError) (ii : ℕ)
    (pre ws cs ds : List ℕ)
    → ii ≡ length pre
    → length ws ≡ length ds
    → length cs ≡ length ds
    → (first ≡ false → ws ≡ cs)
    → show_all (pre ++ ws) (draw_digits first (lcd_update_icons watchdog ntp wifi) ii cs ds)
      ≡ pre ++ ds
unfolding draw_digits
show_all-draw_digits first wd ntp wifi ii pre [] [] [] e lw lc h = refl
show_all-draw_digits first wd ntp wifi ii pre (w ∷ ws) (c ∷ cs) (d ∷ ds) e lw lc h =
    let icons = lcd_update_icons wd ntp wifi in
    let rest = draw_digits first icons (ii + 1) cs ds in
    let one = show_all-draw_digit first wd ntp wifi ii pre ws w c d e (λ f. head_eq (h f)) in
    let more =
      show_all-draw_digits first wd ntp wifi (ii + 1) (pre ++ (d ∷ [])) ws cs ds
        (omega (arith, e, length-append pre (d ∷ []))) (omega arith) (omega arith)
        (λ f. tail_eq (h f)) in
    show_all-append (pre ++ (w ∷ ws)) (draw_digit first icons ii c d) rest
    ∙ (ap (λ s. show_all s rest) (one ∙ sym (append_assoc pre (d ∷ []) ws))
        ∙ (more ∙ append_assoc pre (d ∷ []) ds))
show_all-draw_digits first wd ntp wifi ii pre (w ∷ ws) cs [] e lw lc h = absurd (omega arith)
show_all-draw_digits first wd ntp wifi ii pre ws (c ∷ cs) [] e lw lc h = absurd (omega arith)
show_all-draw_digits first wd ntp wifi ii pre [] cs (d ∷ ds) e lw lc h = absurd (omega arith)
show_all-draw_digits first wd ntp wifi ii pre ws [] (d ∷ ds) e lw lc h = absurd (omega arith)

-- If no digit differs, the digits are the new ones, and this is not the first tick.
pub digits_differ-false :
    (first : Bool) (cs ds : List ℕ)
    → length cs ≡ length ds
    → digits_differ first cs ds ≡ false
    → (cs ≡ ds) × (0 < length ds → first ≡ false)
unfolding digits_differ
digits_differ-false first [] [] l e = (refl, λ h. absurd (omega arith))
digits_differ-false first (c ∷ cs) (d ∷ ds) l e = ground (arith, digits_differ-false first cs ds)
digits_differ-false first (c ∷ cs) [] l e = absurd (omega arith)
digits_differ-false first [] (d ∷ ds) l e = absurd (omega arith)

-- The seven characters for a time: three letters of the weekday, two digits of the hour and two of
-- the minute.
pub length-lcd_digits : (t : Tm) → length (lcd_digits t) ≡ 7
unfolding lcd_digits
length-lcd_digits t = ground arith

-- After the display part of a tick, the displays show the weekday, hour and minute of the local
-- time: whatever they showed before if it is the first tick, and otherwise if they showed the digits
-- that the state remembers. The state remembers what they show now.
pub show_all-update_display :
    (s : ClockState) (ntp : NtpError) (utc_now : ℤ) (screen : Screen)
    → length s.current_lcd_digits ≡ 7
    → length screen ≡ 7
    → (s.first_clock_tick ≡ false → screen ≡ s.current_lcd_digits)
    → let config = s.flash_config in
      let local = gmtime (calculate_local_time utc_now config.tz_offset_mins config.dst_rule) in
      (show_all screen (update_display s ntp utc_now).1 ≡ lcd_digits local)
      × ((update_display s ntp utc_now).0.current_lcd_digits ≡ lcd_digits local)
unfolding update_display
show_all-update_display s ntp utc_now screen lc ls h =
    let config = s.flash_config in
    let local = gmtime (calculate_local_time utc_now config.tz_offset_mins config.dst_rule) in
    let size = length-lcd_digits local in
    elim (Bool-cases (digits_differ s.first_clock_tick s.current_lcd_digits (lcd_digits local))) [
      | inl e ↦ rw e (
        show_all-draw_digits s.first_clock_tick _ ntp WifiError.ok 0 [] screen s.current_lcd_digits
            (lcd_digits local) refl (omega arith) (omega arith) h,
        refl,
      )
      | inr e ↦
          let same =
            digits_differ-false s.first_clock_tick s.current_lcd_digits (lcd_digits local)
              (omega arith) e in
          rw e (h (same.1 (omega arith)) ∙ same.0, same.0)
    ]
