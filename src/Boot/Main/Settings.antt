-- ===== src/Boot/Main/Settings.antt =====
-- From the form to the displays: what src/wifi.c's `tcp_server_recv` is given to store, src/clock.c's
-- `config_store_handler` writes to flash, and src/pico_main.c's `main` runs with after the reboot.
mod Examples
use picow_day_clock.Base.{
  ℕ, ◌+◌, ◌*◌, ◌<◌, ◌≤◌, ◌≡◌, refl, sym, subst, ap, ◌∙◌, Bool, true, false, List, [], ◌∷◌, ◌++◌,
  Option, none, some, length, All,
}
use picow_day_clock.Config.{FlashConfig, PersistentState, config_magic}
use picow_day_clock.Web.Number.{value_from}
use picow_day_clock.Web.Params.{base_config, posted_config}
use picow_day_clock.Web.Params.Form.{form_body, apply_fields, IsField, posted_config-form_body}
use picow_day_clock.Web.Recv.{
  Call, store_config, tcp_recved, prefixed, tcp_ip_buffer_size, Session, Context, answer_post,
  tcp_server_recv,
}
use picow_day_clock.Web.Recv.Gather.{IsText}
use picow_day_clock.Web.Recv.Request.{post_request}
use picow_day_clock.Web.Recv.Submit.{IsForm, tcp_server_recv-answer_post}
use picow_day_clock.Lcd.{Driver, lcd_width}
use picow_day_clock.Lcd.Panel.{Panel}
use picow_day_clock.Lcd.Frame.{Bitmaps}
use picow_day_clock.Lcd.Idle.{FontsFit}
use picow_day_clock.Boot.{config_store_handler}
use picow_day_clock.Boot.Start.{StartInput}
use picow_day_clock.Boot.Main.{Round, main}
use picow_day_clock.Boot.Main.Run.{has_timer, Runs}
use picow_day_clock.Boot.Main.Faces.{ShowsTime, main-ShowsText}

-- The flash after the calls of a callback, `store_config` being `config_store_handler`.
abbrev pub flash_after : FlashConfig → List Call → FlashConfig
flash_after flash [] = flash
flash_after flash (store_config config ∷ cs) = flash_after (config_store_handler config false).0 cs
flash_after flash (c ∷ cs) = flash_after flash cs

-- A POST of the fields of a form: the sender does not leave `%`, `+` and `&` as they are.
pub record IsPost (keep : ℕ → Bool) (fields : List (List ℕ × List ℕ)) (path : List ℕ)
    (before : List (List ℕ)) (d : ℕ) (ds : List ℕ) (others : List (List ℕ)) : Type 0 where
  pub coded : (keep b'%' ≡ false) × (keep b'+' ≡ false) × (keep b'&' ≡ false)
  pub are_fields : All IsField fields
  pub form : IsForm path before d ds others (form_body keep fields)

answer_post_stored :
    (x : Context) (s : Session) (config flash : FlashConfig)
    → x.saved config ≡ (config_store_handler config false).1
    → let r = answer_post x s (some config) in
      (r.1.complete ≡ true)
      × (flash_after flash r.2 ≡ record config { magic_marker = config_magic })
unfolding answer_post config_store_handler
answer_post_stored x s config flash saved = rw saved (refl, refl)

-- What is submitted is what is shown. A form of `key=value` fields, no key with a `=` or a `&` in
-- it, no value with a NUL, and `%`, `+` and `&` encoded, is posted in one packet with no NUL and
-- less text than the buffer takes, to a connection with no text yet, with the length of its body in
-- at most 15 decimal digits among any other headers, those before it without the name `Content-
-- Length` in them, `store_config` being `config_store_handler`. If the fields, less a CR or LF at
-- the end of their values, applied one by one to the configuration in flash or the default one, give
-- a configuration, then the server is told that it is complete, the flash holds that configuration
-- with the marker of a valid one, and every later run of `main` on the flash that is left shows,
-- after a round before which the timer has fired and if it has not rebooted, the local time by the
-- submitted time zone and rule on its seven displays.
pub tcp_server_recv-main :
    (x : Context) (s : Session) (keep : ℕ → Bool) (fields : List (List ℕ × List ℕ)) (path : List ℕ)
    (before : List (List ℕ)) (digit : ℕ) (digits : List ℕ) (others : List (List ℕ))
    (config old_flash : FlashConfig)
    → s.headers ≡ []
    → IsPost keep fields path before digit digits others
    → x.saved config ≡ (config_store_handler config false).1
    → apply_fields (base_config x.flash_config) fields ≡ some config
    → let r =
        tcp_server_recv x s
          (some (post_request path before (digit ∷ digits) others (form_body keep fields))) in
      (r.1.complete ≡ true)
      × (flash_after old_flash r.2 ≡ record config { magic_marker = config_magic })
      × ((b : Bitmaps) (d : Driver) (panels : ℕ → Panel) (low : ℕ → Bool) (by_watchdog : Bool)
            (persistent : PersistentState) (added : Bool) (input : StartInput) (rs : List Round)
            (last : Round)
          → FontsFit b
          → lcd_width * 2 ≤ length d.linebuf
          → has_timer last.before ≡ true
          → Runs
              (ShowsTime b config last)
              b
              (d, panels)
              (main low by_watchdog persistent
                (flash_after old_flash r.2)
                added
                input
                (rs ++ (last ∷ []))))
unfolding config_store_handler
tcp_server_recv-main x s keep fields path before digit digits others config old_flash empty post
      saved applied =
    let body = form_body keep fields in
    let form =
      tcp_server_recv-answer_post x s path before digit digits others body empty post.form in
    let read =
      posted_config-form_body keep x.flash_config fields post.coded.0 post.coded.1 post.coded.2
        post.are_fields
      ∙ applied in
    let stored =
      answer_post_stored x
        (record s { headers = post_request path before (digit ∷ digits) others body }) config
        old_flash saved in
    let answer =
      form
      ∙ ap
          (λ c.
            prefixed
              (tcp_recved x.pcb (length (post_request path before (digit ∷ digits) others body))
                ∷ [])
              (answer_post x
                (record s { headers = post_request path before (digit ∷ digits) others body }) c))
          read in
    let flash = ap (λ r. flash_after old_flash r.2) answer ∙ stored.1 in
    (
      ap (λ r. r.1.complete) answer ∙ stored.0,
      flash,
      λ b d panels low by_watchdog persistent added input rs last fonts buf timer.
          subst
            (λ f.
              Runs (ShowsTime b config last) b (d, panels)
                (main low by_watchdog persistent f added input (rs ++ (last ∷ []))))
            (sym flash)
            (main-ShowsText b d panels low by_watchdog persistent
              (record config { magic_marker = config_magic }) added input rs last fonts buf timer),
    )
