-- ===== src/Boot/Main/Faces.antt =====
-- From power-on to the time on the displays: runs of src/pico_main.c's `main`.
use picow_day_clock.Base.{
  ℕ, ◌*◌, ◌≤◌, ◌≡◌, sym, ◌∙◌, Bool, true, false, ◌||◌, List, [], ◌∷◌, ◌++◌, map, length, arith,
}
use picow_day_clock.Config.{FlashConfig, PersistentState}
use picow_day_clock.Clock.{ClockState, Outcome, running, reboot}
use picow_day_clock.Clock.Shows.{Returns}
use picow_day_clock.Lcd.{Driver, lcd_width}
use picow_day_clock.Lcd.Time.{ShowsText}
use picow_day_clock.Lcd.Panel.{Panel}
use picow_day_clock.Lcd.Frame.{Bitmaps}
use picow_day_clock.Lcd.Idle.{FontsFit}
use picow_day_clock.Boot
use picow_day_clock.Boot.{clock_init}
use picow_day_clock.Boot.Start.{StartInput, clock_start}
use picow_day_clock.Boot.Main.{
  boot, prefixed, main_round, interrupts, Round, main_next, main_loop, main_started, main_booted,
  main, init_diagnostic_led,
}
use picow_day_clock.Boot.Main.View.{View, perform, perform_all, ReadyView, ReadyView-plain}
use picow_day_clock.Boot.Main.PowerOn.{Fresh, OnReady, clock_init-BootReady}
use picow_day_clock.Boot.Main.Starting.{Keeps, clock_start-Starts}
use picow_day_clock.Boot.Main.Quiet.{called}
use picow_day_clock.Boot.Main.Display.{Displayed, digits_of}
use picow_day_clock.Boot.Main.Run.{
  has_timer, interrupts_due, Runs, Runs-prefixed, interrupts-Displayed, Due, main_round-Runs,
  main_next-Runs,
}

-- The displays show the local time that the task of a round read, by a configuration.
abbrev pub ShowsTime : Bitmaps → FlashConfig → Round → View → ClockState → Type 0
ShowsTime b flash r v s = ShowsText b.clock_digit_font v.1 (digits_of flash r.input.utc_now)

module _ (b : Bitmaps) (flash : FlashConfig) (fonts : FontsFit b) where
  -- A round, and what follows it.
  main_loop-step :
      (p : PersistentState) (Q : View → ClockState → Type 0) (r : Round) (rs : List Round)
      (s : ClockState) (held : ℕ) (active : Bool) (v : View)
      → ((t : ClockState) (held' : ℕ) (active' : Bool) (w : View)
          → Due b flash fonts p (s.clock_tick_updated || has_timer r.before) r.input w t
          → Runs Q b w (main_loop p rs t held' active'))
      → Displayed b flash v s
      → Runs Q b v (main_loop p (r ∷ rs) s held active)
  unfolding main_loop
  main_loop-step p Q r rs s held active v go h =
      let before = interrupts r.before s held in
      let w = perform_all b v before.2 in
      let done = main_round p before.0 r.input active in
      let round =
        main_round-Runs b flash fonts p before.0 r.input active w
          (interrupts-Displayed b flash fonts p r.before s held v h) in
      Runs-prefixed Q b v before.2 (prefixed done.1 (main_next (main_loop p rs) before.1 done.0)) (
        main_next-Runs b flash fonts p
          (Due b flash fonts p (s.clock_tick_updated || has_timer r.before) r.input) Q
          (main_loop p rs) before.1 w done (λ t active' u k. go t before.1 active' u k)
          (rw (interrupts_due r.before s held) at round))

  main_loop-Displayed :
      (p : PersistentState) (rs : List Round) (s : ClockState) (held : ℕ) (active : Bool) (v : View)
      → Displayed b flash v s
      → Runs (Displayed b flash) b v (main_loop p rs s held active)
  unfolding main_loop perform_all
  main_loop-Displayed p [] s held active v h = h
  main_loop-Displayed p (r ∷ rs) s held active v h =
      main_loop-step p (Displayed b flash) r rs s held active v
        (λ t held' active' w k. main_loop-Displayed p rs t held' active' w k.0) h

  -- The time of the last round, if the timer has fired before it.
  main_loop-last :
      (p : PersistentState) (rs : List Round) (r : Round) (s : ClockState) (held : ℕ)
      (active : Bool) (v : View)
      → has_timer r.before ≡ true
      → Displayed b flash v s
      → Runs (ShowsTime b flash r) b v (main_loop p (rs ++ (r ∷ [])) s held active)
  unfolding main_loop perform_all
  main_loop-last p [] r s held active v timer h =
      main_loop-step p (ShowsTime b flash r) r [] s held active v
        (λ t held' active' w k.
          let due : (s.clock_tick_updated || has_timer r.before) ≡ true = ground (arith, timer) in
          let ticked = k.1 due in rw ticked.1 at (k.0.shown ticked.0))
        h
  main_loop-last p (q ∷ rs) r s held active v timer h =
      main_loop-step p (ShowsTime b flash r) q (rs ++ (r ∷ [])) s held active v
        (λ t held' active' w k. main_loop-last p rs r t held' active' w timer k.0) h

  -- What follows `clock_start`.
  main_started-Runs :
      (p : PersistentState) (Q : View → ClockState → Type 0) (rounds : List Round) (active : Bool)
      (s : ClockState) (v : View) (o : Outcome)
      → ((t : ClockState) (w : View)
          → Displayed b flash w t
          → Runs Q b w (main_loop p rounds t 0 active))
      → Fresh flash s
      → ReadyView v
      → Returns (Keeps s) o
      → Runs Q b v (main_started p rounds active o)
  main_started-Runs p Q rounds active s v (running t) go fresh ready k = go t v (record {
    ready = ready;
    size = rw k.digits (fresh.size);
    config = k.config ∙ fresh.config;
    shown = λ e.
        let not_first : true ≡ false = sym (k.first ∙ fresh.first) ∙ e in
        absurd (ground (arith, not_first));
  })
  main_started-Runs p Q rounds active s v (reboot q) go fresh ready k = tt

  main_booted-Runs :
      (p : PersistentState) (Q : View → ClockState → Type 0) (added : Bool) (input : StartInput)
      (rounds : List Round) (v : View) (e : Boot.End)
      → ((t : ClockState) (active : Bool) (w : View)
          → Displayed b flash w t
          → Runs Q b w (main_loop p rounds t 0 active))
      → OnReady (λ s. Fresh flash s × ReadyView v) e
      → Runs Q b v (main_booted p added input rounds e)
  unfolding main_booted init_diagnostic_led perform_all perform
  main_booted-Runs p Q added input rounds v Boot.rebooted go h = tt
  main_booted-Runs p Q added input rounds v (Boot.ready s) go (fresh, ready) =
      let led = init_diagnostic_led added in
      let start = clock_start p s input in
      let starts = clock_start-Starts p s input in
      let up = ReadyView-plain b v start.1 fonts starts.0 ready in
      Runs-prefixed Q b v (led.1 ++ called start.1) (main_started p rounds added start.0) (
        main_started-Runs p Q rounds added s (perform_all b v (called start.1)) start.0
          (λ t w h. go t added w h) fresh up starts.1)

  main-Runs :
      (Q : View → ClockState → Type 0) (d : Driver) (panels : ℕ → Panel) (low : ℕ → Bool)
      (by_watchdog : Bool) (persistent : PersistentState) (added : Bool) (input : StartInput)
      (rounds : List Round)
      → lcd_width * 2 ≤ length d.linebuf
      → ((p : PersistentState) (t : ClockState) (active : Bool) (w : View)
          → Displayed b flash w t
          → Runs Q b w (main_loop p rounds t 0 active))
      → Runs Q b (d, panels) (main low by_watchdog persistent flash added input rounds)
  unfolding main
  main-Runs Q d panels low by_watchdog persistent added input rounds buf go =
      let r = clock_init low by_watchdog persistent flash in
      Runs-prefixed Q b (d, panels) (map boot r.3) (main_booted r.1 added input rounds r.0)
        (main_booted-Runs r.1 Q added input rounds (perform_all b (d, panels) (map boot r.3)) r.0
          (go r.1) (clock_init-BootReady b (d, panels) low by_watchdog persistent flash fonts buf))

-- From power-on to the time on the displays. Whatever the displays showed before and whether they were
-- selected, whatever the button and the watchdog were at boot, and whatever calls answer, callbacks do
-- and tasks read in the rounds before, after a round before which the clock's timer has fired, if
-- `main` has not rebooted, the seven displays show the weekday, hour and minute of the local time that
-- the task of that round read, by the time zone and rule in flash: each character in the middle of its
-- display on black, at every pixel but those of display 0 in the rows of the icons. The fonts must fit
-- on a display, and `linebuf` have a line.
pub main-ShowsText :
    (b : Bitmaps) (d : Driver) (panels : ℕ → Panel) (low : ℕ → Bool) (by_watchdog : Bool)
    (persistent : PersistentState) (flash : FlashConfig) (added : Bool) (input : StartInput)
    (rs : List Round) (r : Round)
    → FontsFit b
    → lcd_width * 2 ≤ length d.linebuf
    → has_timer r.before ≡ true
    → Runs
        (ShowsTime b flash r)
        b
        (d, panels)
        (main low by_watchdog persistent flash added input (rs ++ (r ∷ [])))
main-ShowsText b d panels low by_watchdog persistent flash added input rs r fonts buf timer =
    main-Runs b flash fonts (ShowsTime b flash r) d panels low by_watchdog persistent added input
      (rs ++ (r ∷ [])) buf
      (λ p t active w h. main_loop-last b flash fonts p rs r t 0 active w timer h)

-- An invariant of `main`: after any number of rounds, if it has not rebooted, no display is selected,
-- `linebuf` has a line, the configuration is that of the flash, and once the first tick is over the
-- displays show just the seven characters that the state remembers, which the next tick compares
-- with. It holds from any displays, for any answers, callbacks and readings; the fonts must fit on a
-- display, and `linebuf` have a line.
pub main-Displayed :
    (b : Bitmaps) (d : Driver) (panels : ℕ → Panel) (low : ℕ → Bool) (by_watchdog : Bool)
    (persistent : PersistentState) (flash : FlashConfig) (added : Bool) (input : StartInput)
    (rs : List Round)
    → FontsFit b
    → lcd_width * 2 ≤ length d.linebuf
    → Runs (Displayed b flash) b (d, panels) (main low by_watchdog persistent flash added input rs)
main-Displayed b d panels low by_watchdog persistent flash added input rs fonts buf =
    main-Runs b flash fonts (Displayed b flash) d panels low by_watchdog persistent added input rs
      buf (λ p t active w h. main_loop-Displayed b flash fonts p rs t 0 active w h)
