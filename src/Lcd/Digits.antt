-- ===== src/Lcd/Digits.antt =====
-- What the pictures of the displays are after the drawing loop of src/clock.c's `clock_task`.
use picow_day_clock.Base.{
  ℕ, zero, suc, ◌+◌, ◌≤◌, ◌<◌, ◌≡◌, refl, ap, ◌∙◌, Bool, true, false, List, [], ◌∷◌, ◌++◌, arith,
  ltb, leb, ◌==◌, ◌&&◌, ◌||◌, not, Option, none, some, length, get_or, if◌then◌else◌, Bool-cases,
  inl, inr,
}
use picow_day_clock.Ntp.{NtpError}
use picow_day_clock.Config.{WatchdogError, WifiError}
use picow_day_clock.Clock
use picow_day_clock.Clock.{
  ClockState, cyan, green, lcd_digits, digits_differ, draw_digit, draw_digits, update_display,
}
use picow_day_clock.Lcd.Image.{
  Font, watchdog_case, watchdog_icon_x_offset, ntp_case, ntp_icon_x_offset, wifi_case,
  wifi_icon_x_offset,
}
use picow_day_clock.Lcd.Rows.{inside}
use picow_day_clock.Lcd.Paint.{Mark, over}
use picow_day_clock.Lcd.Draws.{digit_mark}
use picow_day_clock.Lcd.Frame.{
  color_code, Bitmaps, Pictures, paint, icon_case_mark, repaint, repaint_all,
}

-- The character in the middle of display `m`, on black.
abbrev pub clock_face : Font → ℕ → ℕ → ℕ → ℕ → ℕ
clock_face font m c =
    over (digit_mark font (color_code (if ltb m 3 then cyan else green)) c) (λ column row. 0)

repaint_all-append :
    (b : Bitmaps) (es fs : List Clock.Effect) (pics : Pictures)
    → repaint_all b (es ++ fs) pics ≡ repaint_all b fs (repaint_all b es pics)
repaint_all-append b [] fs pics = refl
repaint_all-append b (e ∷ es) fs pics = repaint_all-append b es fs (repaint b e pics)

-- A pixel of display `m`, and on display 0 one below the icons.
module _ (b : Bitmaps) (m c r : ℕ) (column : c < 172) (row : r < 320) (below : m ≡ 0 → 36 ≤ r) where
  paint_apart :
      (n : ℕ) (k : Mark) (pics : Pictures) → (m == n) ≡ false → paint n k pics m c r ≡ pics m c r
  paint_apart n k pics e = rw e refl

  -- The icons do not touch it.
  icon_at :
      (bitmap : Option ((ℕ → ℕ) × ℕ)) (x : ℕ) (pics : Pictures)
      → icon_case_mark bitmap x pics m c r ≡ pics m c r
  icon_at none x pics = refl
  icon_at (some (icon, color)) x pics = elim (Bool-cases (m == 0)) [
    | inl e ↦
        let high : leb 36 r ≡ true = ground (arith, e, below) in
        let low : inside 0 36 r ≡ false = ground (arith, high) in rw (e, low) refl
    | inr e ↦ rw e refl
  ]

  icons_at :
      (watchdog : WatchdogError) (ntp : NtpError) (wifi : WifiError) (pics : Pictures)
      → repaint b (Clock.lcd_update_icons watchdog ntp wifi) pics m c r ≡ pics m c r
  icons_at watchdog ntp wifi pics =
      let p₁ = icon_case_mark (watchdog_case b.icons watchdog) watchdog_icon_x_offset pics in
      let p₂ = icon_case_mark (ntp_case b.icons ntp) ntp_icon_x_offset p₁ in
      icon_at (wifi_case b.icons wifi) wifi_icon_x_offset p₂
      ∙ icon_at (ntp_case b.icons ntp) ntp_icon_x_offset p₁
      ∙ icon_at (watchdog_case b.icons watchdog) watchdog_icon_x_offset pics

  -- A display that is cleared and gets a character, and no other, shows it.
  printed_at :
      (n d : ℕ) (pics : Pictures)
      → repaint_all b
          (Clock.lcd_clear_screen n
            ∷ Clock.lcd_print_clock_digit n (if ltb n 3 then cyan else green) d
            ∷ [])
          pics
          m
          c
          r
        ≡ (if m == n then clock_face b.clock_digit_font n d c r else pics m c r)
  printed_at n d pics = elim (Bool-cases (m == n)) [
    | inl e ↦
        let rows : inside 0 320 r ≡ true = ground arith in
        let columns : inside 0 172 c ≡ true = ground arith in rw (e, rows, columns) refl
    | inr e ↦ rw e refl
  ]

  icons_if :
      (here : Bool) (wd : WatchdogError) (ntp : NtpError) (wifi : WifiError) (pics : Pictures)
      → repaint_all b (if here then Clock.lcd_update_icons wd ntp wifi ∷ [] else []) pics m c r
        ≡ pics m c r
  icons_if true wd ntp wifi pics = icons_at wd ntp wifi pics
  icons_if false wd ntp wifi pics = refl

  draw_digit_at :
      (first : Bool) (wd : WatchdogError) (ntp : NtpError) (wifi : WifiError) (ii d d' : ℕ)
      (pics : Pictures)
      → repaint_all b (draw_digit first (Clock.lcd_update_icons wd ntp wifi) ii d d') pics m c r ≡ (
          if (not (d == d') || first) && m == ii
          then clock_face b.clock_digit_font ii d' c r
          else pics m c r)
  draw_digit_at first wd ntp wifi ii d d' pics =
      let icons = Clock.lcd_update_icons wd ntp wifi in
      let char = Clock.lcd_print_clock_digit ii (if ltb ii 3 then cyan else green) d' in
      let digit = if not (d == d') || first then Clock.lcd_clear_screen ii ∷ char ∷ [] else [] in
      ap (λ (q : Pictures). q m c r)
        (repaint_all-append b digit (if ii == 0 then icons ∷ [] else []) pics)
      ∙ icons_if (ii == 0) wd ntp wifi (repaint_all b digit pics)
      ∙ elim (Bool-cases (not (d == d') || first)) [
        | inl e ↦ rw e (printed_at ii d' pics)
        | inr e ↦ rw e refl
      ]

  module _ (first : Bool) (wd : WatchdogError) (ntp : NtpError) (wifi : WifiError) where
    -- The displays before `ii`.
    draw_digits_before :
        (ii : ℕ) (cs ds : List ℕ) (pics : Pictures)
        → m < ii
        → repaint_all b (draw_digits first (Clock.lcd_update_icons wd ntp wifi) ii cs ds) pics m c r
          ≡ pics m c r
    unfolding draw_digits
    draw_digits_before ii (d ∷ cs) (d' ∷ ds) pics lt =
        let icons = Clock.lcd_update_icons wd ntp wifi in
        let here = draw_digit first icons ii d d' in
        let other : ((not (d == d') || first) && m == ii) ≡ false = ground (arith, lt) in
        ap (λ (q : Pictures). q m c r)
          (repaint_all-append b here (draw_digits first icons (ii + 1) cs ds) pics)
        ∙ draw_digits_before (ii + 1) cs ds (repaint_all b here pics) (omega arith)
        ∙ draw_digit_at first wd ntp wifi ii d d' pics
        ∙ rw other refl
    draw_digits_before ii [] ds pics lt = refl
    draw_digits_before ii (d ∷ cs) [] pics lt = refl

    -- Display `ii + j` shows character `j`, if this is the first tick or it showed the old one.
    pub draw_digits_at :
        (ii j : ℕ) (cs ds : List ℕ) (pics : Pictures)
        → m ≡ ii + j
        → j < length ds
        → length cs ≡ length ds
        → (first ≡ false → pics m c r ≡ clock_face b.clock_digit_font m (get_or cs j 0) c r)
        → repaint_all b (draw_digits first (Clock.lcd_update_icons wd ntp wifi) ii cs ds) pics m c r
          ≡ clock_face b.clock_digit_font m (get_or ds j 0) c r
    unfolding draw_digits
    draw_digits_at ii j cs [] pics e lt same h = absurd (omega arith)
    draw_digits_at ii j [] (d' ∷ ds) pics e lt same h = absurd (omega arith)
    draw_digits_at ii zero (d ∷ cs) (d' ∷ ds) pics e lt same h =
        let this : (m == ii) ≡ true = ground (arith, e) in
        let at_ii : ii ≡ m = omega (arith, e) in
        let icons = Clock.lcd_update_icons wd ntp wifi in
        let here = draw_digit first icons ii d d' in
        ap (λ (q : Pictures). q m c r)
          (repaint_all-append b here (draw_digits first icons (ii + 1) cs ds) pics)
        ∙ draw_digits_before (ii + 1) cs ds (repaint_all b here pics) (omega arith)
        ∙ draw_digit_at first wd ntp wifi ii d d' pics
        ∙ elim (Bool-cases (not (d == d') || first)) [
          | inl changed ↦ rw (changed, this) (rw at_ii refl)
          | inr kept ↦
              let old : first ≡ false = ground (arith, kept) in
              let equal : d ≡ d' = ground (arith, kept) in
              rw kept (h old ∙ ap (λ v. clock_face b.clock_digit_font m v c r) equal)
        ]
    draw_digits_at ii (suc j) (d ∷ cs) (d' ∷ ds) pics e lt same h =
        let icons = Clock.lcd_update_icons wd ntp wifi in
        let here = draw_digit first icons ii d d' in
        let other : ((not (d == d') || first) && m == ii) ≡ false = ground (arith, e) in
        let kept : repaint_all b here pics m c r ≡ pics m c r =
          draw_digit_at first wd ntp wifi ii d d' pics ∙ rw other refl in
        ap (λ (q : Pictures). q m c r)
          (repaint_all-append b here (draw_digits first icons (ii + 1) cs ds) pics)
        ∙ draw_digits_at (ii + 1) j cs ds (repaint_all b here pics) (omega arith) (omega arith)
            (omega arith) (λ f. kept ∙ h f)
