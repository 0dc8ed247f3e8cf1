-- ===== src/Boot/Main/Display.antt =====
-- What the seven displays show while src/pico_main.c's `main` runs.
use picow_day_clock.Base.{
  ℕ, ◌≡◌, refl, sym, subst, ◌∙◌, ap, Bool, true, false, List, length, Bool-cases, inl, inr,
}
use picow_day_clock.Base.Int.{ℤ}
use picow_day_clock.Calendar.{gmtime}
use picow_day_clock.Dst.{calculate_local_time}
use picow_day_clock.Ntp.{NtpError, NtpAtomicState, ntp_atomic_read}
use picow_day_clock.Config.{FlashConfig, PersistentState}
use picow_day_clock.Clock
use picow_day_clock.Clock.{
  ClockState, Outcome, running, reboot, TaskInput, process_ntp_time, update_display, lcd_digits,
  digits_differ, watchdog_update,
}
use picow_day_clock.Clock.Shows.{Returns}
use picow_day_clock.Clock.Task.{Result, supervise_ntp, tick_task, clock_task, after}
use picow_day_clock.Clock.Display.{length-lcd_digits}
use picow_day_clock.Lcd.Time.{ShowsText, update_display-ShowsText}
use picow_day_clock.Lcd.Panel.{watch}
use picow_day_clock.Lcd.Frame.{Bitmaps, draw, draw_effects}
use picow_day_clock.Lcd.Idle.{FontsFit}
use picow_day_clock.Boot.Main.View.{
  View, perform, perform_all, perform_all-append, perform_all-draw_effects, seen, ReadyView,
}
use picow_day_clock.Boot.Main.Starting.{Keeps, Keeps-refl}
use picow_day_clock.Boot.Main.Quiet.{called, called-append, Quiet, Quiet-supervise_status}

-- The displays have no one selected, and from the first tick on they show the digits that the state
-- remembers; the configuration is that of the flash.
pub record Displayed (b : Bitmaps) (flash : FlashConfig) (v : View) (s : ClockState) : Type 0 where
  pub ready : ReadyView v
  pub size : length s.current_lcd_digits ≡ 7
  pub config : s.flash_config ≡ flash
  pub shown : s.first_clock_tick ≡ false → ShowsText b.clock_digit_font v.1 s.current_lcd_digits

-- The seven characters of the local time, by a configuration.
abbrev pub digits_of : FlashConfig → ℤ → List ℕ
digits_of config utc_now =
    lcd_digits (gmtime (calculate_local_time utc_now config.tz_offset_mins config.dst_rule))

update_display-config :
    (s : ClockState) (e : NtpError) (utc_now : ℤ)
    → (update_display s e utc_now).0.flash_config ≡ s.flash_config
unfolding update_display
update_display-config s e utc_now =
    elim (Bool-cases
      (digits_differ s.first_clock_tick s.current_lcd_digits (digits_of s.flash_config utc_now))) [
        | inl d ↦ rw d refl
        | inr d ↦ rw d refl
      ]

-- After a tick, the displays show the time of the tick.
abbrev Ticked : Bitmaps → FlashConfig → View → List ℕ → ClockState → Type 0
Ticked b flash v digits t =
    Displayed b flash v t × (t.first_clock_tick ≡ false) × (t.current_lcd_digits ≡ digits)

module _ (b : Bitmaps) (flash : FlashConfig) (fonts : FontsFit b) (p : PersistentState) where
  -- The rest of a task, after the drawing.
  Ticked-Quiet :
      (v : View) (digits : List ℕ) (s : ClockState) (draw_calls : List Clock.Effect) (r : Result)
      → length digits ≡ 7
      → s.flash_config ≡ flash
      → s.current_lcd_digits ≡ digits
      → ReadyView (perform_all b v (called draw_calls))
      → ShowsText b.clock_digit_font (perform_all b v (called draw_calls)).1 digits
      → Quiet s r
      → Returns
          (Ticked b flash (perform_all b v (called (after draw_calls r).1)) digits)
          (after draw_calls r).0
  Ticked-Quiet v digits s draw_calls (running t, more) size config same ready shown quiet =
      let all =
        ap (perform_all b v) (called-append draw_calls more)
        ∙ perform_all-append b v (called draw_calls) (called more)
        ∙ quiet.3 b (perform_all b v (called draw_calls)) in
      let kept = quiet.1 ∙ same in
      (
        record {
          ready = rw all ready;
          size = rw kept size;
          config = quiet.2 ∙ config;
          shown = λ e. rw (all, kept) shown;
        },
        quiet.0,
        kept,
      )
  Ticked-Quiet v digits s draw_calls (reboot q, more) size config same ready shown quiet = tt

  tick_task-Ticked :
      (ntp : NtpAtomicState) (s : ClockState) (input : TaskInput) (v : View)
      → Displayed b flash v s
      → let r = tick_task p ntp s input in
        Returns (Ticked b flash (perform_all b v (called r.1)) (digits_of flash input.utc_now)) r.0
  unfolding tick_task supervise_ntp perform_all perform draw watch
  tick_task-Ticked ntp s input v h =
      let shown =
        update_display-ShowsText b v.0 s ntp.error input.utc_now v.1 fonts.clock_font h.ready.buffer
          h.size h.ready.idle h.shown in
      let es = (update_display s ntp.error input.utc_now).1 in
      let s' = (update_display s ntp.error input.utc_now).0 in
      let drawn = perform_all-draw_effects b v es in
      let local =
        calculate_local_time input.utc_now s.flash_config.tz_offset_mins s.flash_config.dst_rule in
      let ready : ReadyView (seen v (draw_effects b v.0 es)) = record {
        idle = shown.0.idle;
        buffer = shown.2;
      } in
      let ticked =
        Ticked-Quiet v (digits_of s.flash_config input.utc_now) s' es (supervise_ntp p ntp s' input)
          (length-lcd_digits (gmtime local))
          (update_display-config s ntp.error input.utc_now ∙ h.config) shown.1 (rw drawn ready)
          (rw drawn (shown.0)) (Quiet-supervise_status p ntp input ntp.status s') in
      subst
        (λ f.
          Returns
            (Ticked b flash (perform_all b v (called (tick_task p ntp s input).1))
              (digits_of f input.utc_now))
            (tick_task p ntp s input).0)
        h.config ticked

  -- What a task leaves, if it returns: the displays as before, or, when a tick is due, its time.
  abbrev pub Shown : Bool → TaskInput → View → ClockState → Type 0
  Shown due input v t =
      Displayed b flash v t
      × (due ≡ true
          → (t.first_clock_tick ≡ false) × (t.current_lcd_digits ≡ digits_of flash input.utc_now))

  Shown-Ticked :
      (input : TaskInput) (v : View) (o : Outcome)
      → Returns (Ticked b flash v (digits_of flash input.utc_now)) o
      → Returns (Shown true input v) o
  Shown-Ticked input v (running t) h = (h.0, λ due. (h.1, h.2))
  Shown-Ticked input v (reboot q) h = tt

  pub Displayed-Keeps :
      (v : View) (s t : ClockState) → Keeps s t → Displayed b flash v s → Displayed b flash v t
  Displayed-Keeps v s t k h = record {
    ready = h.ready;
    size = rw k.digits h.size;
    config = k.config ∙ h.config;
    shown = λ e. rw k.digits (h.shown (sym k.first ∙ e));
  }

  tick-Shown :
      (ntp : NtpAtomicState) (s t : ClockState) (input : TaskInput) (v : View)
      → Keeps s t
      → Displayed b flash v s
      → let r = tick_task p ntp t input in
        Returns (Shown true input (perform_all b v (called r.1))) r.0
  tick-Shown ntp s t input v k h =
      Shown-Ticked input _ (tick_task p ntp t input).0
        (tick_task-Ticked ntp t input v (Displayed-Keeps v s t k h))

  pub clock_task-Shown :
      (s : ClockState) (input : TaskInput) (v : View)
      → Displayed b flash v s
      → let r = clock_task p s input in
        Returns (Shown s.clock_tick_updated input (perform_all b v (called r.1))) r.0
  unfolding clock_task process_ntp_time perform_all perform draw watch
  clock_task-Shown s input v h =
      let same : Keeps s s = Keeps-refl s in
      let ntp = ntp_atomic_read s.ntp_state in
      elim (Bool-cases s.clock_tick_updated) [
        | inl due ↦ elim (Bool-cases s.ntp_time_updated) [
          | inl synced ↦
              rw (due, synced)
                (tick-Shown ntp s _ input v (record { first = refl; digits = refl; config = refl })
                  h)
          | inr unsynced ↦
              rw (due, unsynced)
                (tick-Shown ntp s _ input v (record { first = refl; digits = refl; config = refl })
                  h)
        ]
        | inr quiet ↦ elim (Bool-cases s.ntp_time_updated) [
          | inl synced ↦
              rw (quiet, synced)
                (
                  Displayed-Keeps v s _ (record { first = refl; digits = refl; config = refl }) h,
                  λ due. cc,
                )
          | inr unsynced ↦
              rw (quiet, unsynced)
                (
                  Displayed-Keeps v s _ (record { first = refl; digits = refl; config = refl }) h,
                  λ due. cc,
                )
        ]
      ]
