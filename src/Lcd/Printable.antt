-- ===== src/Lcd/Printable.antt =====
-- The characters of a time have glyphs, and the drawing loop of src/clock.c's `clock_task` only draws
-- those.
use picow_day_clock.Base.{
  codes, ℕ, ◌+◌, ◌/◌, ◌%◌, ◌≤◌, ◌<◌, ◌≡◌, refl, Bool, true, false, List, [], ◌∷◌, ◌++◌, arith, ltb,
  ◌==◌, ◌||◌, not, length, if◌then◌else◌, All,
}
use picow_day_clock.Base.Int.{ℤ}
use picow_day_clock.Calendar.{Tm, gmtime}
use picow_day_clock.Ntp.{NtpError}
use picow_day_clock.Config.{WatchdogError, WifiError}
use picow_day_clock.Clock
use picow_day_clock.Clock.{
  day_of_week_str, ClockState, cyan, green, lcd_digits, digits_differ, draw_digit, draw_digits,
  update_display,
}
use picow_day_clock.Lcd.Image.{unprintable}
use picow_day_clock.Lcd.Frame.{AllDrawable}

AllDrawable-append :
    (es fs : List Clock.Effect) → AllDrawable es → AllDrawable fs → AllDrawable (es ++ fs)
AllDrawable-append [] fs h k = k
AllDrawable-append (e ∷ es) fs h k = (h.0, AllDrawable-append es fs h.1 k)

draw_digit-Drawable :
    (first here : Bool) (wd : WatchdogError) (ntp : NtpError) (wifi : WifiError) (ii d d' : ℕ)
    → ii < 7
    → unprintable d' ≡ false
    → AllDrawable (
        (if first
          then Clock.lcd_clear_screen ii
            ∷ Clock.lcd_print_clock_digit ii (if ltb ii 3 then cyan else green) d'
            ∷ []
          else [])
        ++ (if here then Clock.lcd_update_icons wd ntp wifi ∷ [] else []))
draw_digit-Drawable true true wd ntp wifi ii d d' lcd p = (lcd, ((lcd, p), (tt, tt)))
draw_digit-Drawable true false wd ntp wifi ii d d' lcd p = (lcd, ((lcd, p), tt))
draw_digit-Drawable false true wd ntp wifi ii d d' lcd p = (tt, tt)
draw_digit-Drawable false false wd ntp wifi ii d d' lcd p = tt

pub draw_digits-Drawable :
    (first : Bool) (wd : WatchdogError) (ntp : NtpError) (wifi : WifiError) (ii : ℕ)
    (cs ds : List ℕ)
    → ii + length ds ≤ 7
    → All (λ c. unprintable c ≡ false) ds
    → AllDrawable (draw_digits first (Clock.lcd_update_icons wd ntp wifi) ii cs ds)
unfolding draw_digits
draw_digits-Drawable first wd ntp wifi ii [] ds room p = tt
draw_digits-Drawable first wd ntp wifi ii (d ∷ cs) [] room p = tt
draw_digits-Drawable first wd ntp wifi ii (d ∷ cs) (d' ∷ ds) room p =
    AllDrawable-append _ _
      (draw_digit-Drawable (not (d == d') || first) (ii == 0) wd ntp wifi ii d d' (omega arith) p.0)
      (draw_digits-Drawable first wd ntp wifi (ii + 1) cs ds (omega arith) p.1)

abbrev pub Printable : List ℕ → Type 0
Printable = All (λ c. unprintable c ≡ false)

Printable-if :
    (b : Bool) (cs ds : List ℕ) → Printable cs → Printable ds → Printable (if b then cs else ds)
Printable-if true cs ds h k = h
Printable-if false cs ds h k = k

Printable-append : (cs ds : List ℕ) → Printable cs → Printable ds → Printable (cs ++ ds)
Printable-append [] ds h k = k
Printable-append (c ∷ cs) ds h k = (h.0, Printable-append cs ds h.1 k)

digit-printable : (n : ℕ) → n < 10 → unprintable (b'0' + n) ≡ false
digit-printable n h = ground arith

day_of_week_str-Printable : (n : ℕ) → Printable (day_of_week_str n)
day_of_week_str-Printable n =
    let sun : Printable (codes "Sun") = (refl, (refl, (refl, tt))) in
    let mon : Printable (codes "Mon") = (refl, (refl, (refl, tt))) in
    let tue : Printable (codes "Tue") = (refl, (refl, (refl, tt))) in
    let wed : Printable (codes "Wed") = (refl, (refl, (refl, tt))) in
    let thu : Printable (codes "Thu") = (refl, (refl, (refl, tt))) in
    let fri : Printable (codes "Fri") = (refl, (refl, (refl, tt))) in
    let sat : Printable (codes "Sat") = (refl, (refl, (refl, tt))) in
    let from₅ = Printable-if (n == 5) (codes "Fri") (codes "Sat") fri sat in
    let from₄ = Printable-if (n == 4) (codes "Thu") _ thu from₅ in
    let from₃ = Printable-if (n == 3) (codes "Wed") _ wed from₄ in
    let from₂ = Printable-if (n == 2) (codes "Tue") _ tue from₃ in
    Printable-if (n == 0) (codes "Sun") _ sun (Printable-if (n == 1) (codes "Mon") _ mon from₂)

-- The letters and digits of a time have glyphs.
lcd_digits-Printable : (t : Tm) → t.tm_hour < 24 → t.tm_min < 60 → Printable (lcd_digits t)
unfolding lcd_digits
lcd_digits-Printable t hour minute =
    let clock : Printable (
        (b'0' + t.tm_hour / 10)
        ∷ (b'0' + t.tm_hour % 10)
        ∷ (b'0' + t.tm_min / 10)
        ∷ (b'0' + t.tm_min % 10)
        ∷ []) =
      (
        digit-printable (t.tm_hour / 10) (omega (arith, hour)),
        (
          digit-printable (t.tm_hour % 10) (omega arith),
          (
            digit-printable (t.tm_min / 10) (omega (arith, minute)),
            (digit-printable (t.tm_min % 10) (omega arith), tt),
          ),
        ),
      ) in
    Printable-append (day_of_week_str t.tm_wday) _ (day_of_week_str-Printable t.tm_wday) clock

pub gmtime-Printable : (t : ℤ) → Printable (lcd_digits (gmtime t))
unfolding gmtime
gmtime-Printable t = lcd_digits-Printable (gmtime t) (omega arith) (omega arith)
