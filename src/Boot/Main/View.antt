-- ===== src/Boot/Main/View.antt =====
-- What the displays make of the calls of src/pico_main.c's `main`, through the driver of src/lcd.c.
use picow_day_clock.Base.{ℕ, ◌+◌, ◌≡◌, refl, sym, ◌∙◌, ap, List, [], ◌∷◌, ◌++◌, map}
use picow_day_clock.Ntp
use picow_day_clock.Clock
use picow_day_clock.Clock.{lwip}
use picow_day_clock.Lcd
use picow_day_clock.Lcd.{Driver}
use picow_day_clock.Lcd.Setup.{lcd_init}
use picow_day_clock.Lcd.Panel.{Panel, watch, watch-append}
use picow_day_clock.Lcd.Frame.{Bitmaps, draw, draw_effects, watch_all}
use picow_day_clock.Lcd.Idle.{Ready, Plain, FontsFit, draw-Ready}
use picow_day_clock.Boot
use picow_day_clock.Boot.{clock}
use picow_day_clock.Boot.Main.{Effect, boot}

-- The driver's variables, and the displays.
abbrev pub View : Type 0
View = Driver × (ℕ → Panel)

abbrev pub seen : View → Driver × List Lcd.Effect → View
seen v r = (r.0, watch_all r.1 v.1)

-- A call, if it is one of the driver's.
unfoldable pub perform : Bitmaps → View → Effect → View
perform b v (boot (clock e)) = seen v (draw b v.0 e)
perform b v (boot (Boot.lcd_init n reset)) = let r = lcd_init v.0 n reset in seen v (r.0, r.2)
perform b v _ = v

unfoldable pub perform_all : Bitmaps → View → List Effect → View
perform_all b v [] = v
perform_all b v (e ∷ es) = perform_all b (perform b v e) es

pub perform_all-append :
    (b : Bitmaps) (v : View) (es fs : List Effect)
    → perform_all b v (es ++ fs) ≡ perform_all b (perform_all b v es) fs
unfolding perform_all
perform_all-append b v [] fs = refl
perform_all-append b v (e ∷ es) fs = perform_all-append b (perform b v e) es fs

watch_all-append :
    (es fs : List Lcd.Effect) (panels : ℕ → Panel)
    → watch_all (es ++ fs) panels ≡ watch_all fs (watch_all es panels)
watch_all-append es fs panels = λ i m. watch-append (2 + m) es fs (panels m) i

-- The display calls of a task, made in its place.
pub perform_all-draw_effects :
    (b : Bitmaps) (v : View) (es : List Clock.Effect)
    → perform_all b v (map (λ e. boot (clock e)) es) ≡ seen v (draw_effects b v.0 es)
unfolding perform_all perform draw_effects watch
perform_all-draw_effects b v [] = refl
perform_all-draw_effects b v (e ∷ es) =
    let here = draw b v.0 e in
    let rest = draw_effects b here.0 es in
    perform_all-draw_effects b (seen v here) es
    ∙ ap (λ panels. (rest.0, panels)) (sym (watch_all-append here.1 rest.1 v.1))

-- Calls that draw nothing.
abbrev pub Silent : List Effect → Type 0
Silent es = (b : Bitmaps) (v : View) → perform_all b v es ≡ v

pub Silent-append : (es fs : List Effect) → Silent es → Silent fs → Silent (es ++ fs)
Silent-append es fs h k b v =
    perform_all-append b v es fs ∙ (ap (λ w. perform_all b w fs) (h b v) ∙ k b v)

pub Silent-lwip : (es : List Ntp.Effect) → Silent (map (λ e. boot (clock (lwip e))) es)
unfolding perform_all perform draw watch
Silent-lwip [] b v = refl
Silent-lwip (e ∷ es) b v = Silent-lwip es b v

abbrev pub ReadyView : View → Type 0
ReadyView v = Ready v.0 v.1

abbrev pub AllPlain : List Clock.Effect → Type 0
AllPlain [] = Unit
AllPlain (e ∷ es) = Plain e × AllPlain es

pub AllPlain-append : (es fs : List Clock.Effect) → AllPlain es → AllPlain fs → AllPlain (es ++ fs)
AllPlain-append [] fs h k = k
AllPlain-append (e ∷ es) fs h k = (h.0, AllPlain-append es fs h.1 k)

pub AllPlain-lwip : (es : List Ntp.Effect) → AllPlain (map lwip es)
AllPlain-lwip [] = tt
AllPlain-lwip (e ∷ es) = (tt, AllPlain-lwip es)

pub ReadyView-plain :
    (b : Bitmaps) (v : View) (es : List Clock.Effect)
    → FontsFit b
    → AllPlain es
    → ReadyView v
    → ReadyView (perform_all b v (map (λ e. boot (clock e)) es))
unfolding perform_all perform
ReadyView-plain b v [] fonts can r = r
ReadyView-plain b v (e ∷ es) fonts can r =
    ReadyView-plain b (seen v (draw b v.0 e)) es fonts can.1 (draw-Ready b v.0 e v.1 fonts can.0 r)
