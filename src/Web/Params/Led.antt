-- ===== src/Web/Params/Led.antt =====
-- The LED setting of the form of src/wifi.c, which a browser leaves out when its box is not ticked.
use picow_day_clock.Base.{
  ℕ, ◌≡◌, refl, sym, ◌∙◌, subst, Bool, true, false, List, [], ◌∷◌, Option, none, some, codes,
  if◌then◌else◌, All, ◌>>=◌,
}
use picow_day_clock.Base.Int.{ℤ, pos}
use picow_day_clock.Config.{FlashConfig}
use picow_day_clock.Web.CString.{str_eq}
use picow_day_clock.Web.Number.{parse_long_bounded}
use picow_day_clock.Web.Url.{strip_newlines}
use picow_day_clock.Web.Params.{
  min_tz_offset_mins, max_tz_offset_mins, min_ntp_timeout_ms, max_ntp_timeout_ms, base_config,
  set_tz, set_timeout, set_port, apply_param, posted_config,
}
use picow_day_clock.Web.Params.Form.{form_body, apply_fields, IsField, posted_config-form_body}

abbrev KeepsLed : Bool → Option FlashConfig → Type 0
KeepsLed led none = Unit
KeepsLed led (some config) = config.led_always_on ≡ led

abbrev pub LacksLed : List (List ℕ × List ℕ) → Type 0
LacksLed = All (λ f. str_eq f.0 (codes "led_on") ≡ false)

module _ (led : Bool) where
  KeepsLed-if :
      (b : Bool) (x y : Option FlashConfig)
      → KeepsLed led x
      → KeepsLed led y
      → KeepsLed led (if b then x else y)
  KeepsLed-if true x y h k = h
  KeepsLed-if false x y h k = k

  KeepsLed-set_tz :
      (config : FlashConfig) (r : Option ℤ)
      → config.led_always_on ≡ led
      → KeepsLed led (set_tz config r)
  KeepsLed-set_tz config none h = tt
  KeepsLed-set_tz config (some n) h = h

  KeepsLed-set_timeout :
      (config : FlashConfig) (r : Option ℤ)
      → config.led_always_on ≡ led
      → KeepsLed led (set_timeout config r)
  KeepsLed-set_timeout config none h = tt
  KeepsLed-set_timeout config (some n) h = h

  KeepsLed-set_port :
      (config : FlashConfig) (r : Option ℤ)
      → config.led_always_on ≡ led
      → KeepsLed led (set_port config r)
  KeepsLed-set_port config none h = tt
  KeepsLed-set_port config (some n) h = h

  KeepsLed-apply_param :
      (config : FlashConfig) (key value : List ℕ)
      → str_eq key (codes "led_on") ≡ false
      → config.led_always_on ≡ led
      → KeepsLed led (apply_param config key value)
  unfolding apply_param
  KeepsLed-apply_param config key value other h = KeepsLed-if (str_eq key (codes "ssid")) _ _ h (
      KeepsLed-if (str_eq key (codes "pwd")) _ _ h (
        KeepsLed-if (str_eq key (codes "ntp")) _ _ h (
          KeepsLed-if (str_eq key (codes "tz")) _ _
            (KeepsLed-set_tz config (parse_long_bounded value min_tz_offset_mins max_tz_offset_mins)
              h)
            (KeepsLed-if (str_eq key (codes "dst")) _ _ h (
              KeepsLed-if (str_eq key (codes "cto")) _ _
                (KeepsLed-set_timeout config
                  (parse_long_bounded value min_ntp_timeout_ms max_ntp_timeout_ms) h)
                (KeepsLed-if (str_eq key (codes "port")) _ _
                  (KeepsLed-set_port config (parse_long_bounded value (pos 1) (pos 65535)) h)
                  (rw other h)))))))

  KeepsLed-bind :
      (r : Option FlashConfig) (f : FlashConfig → Option FlashConfig)
      → KeepsLed led r
      → ((next : FlashConfig) → next.led_always_on ≡ led → KeepsLed led (f next))
      → KeepsLed led (r >>= f)
  KeepsLed-bind none f h k = tt
  KeepsLed-bind (some next) f h k = k next h

  KeepsLed-apply_fields :
      (config : FlashConfig) (fields : List (List ℕ × List ℕ))
      → LacksLed fields
      → config.led_always_on ≡ led
      → KeepsLed led (apply_fields config fields)
  unfolding apply_fields
  KeepsLed-apply_fields config [] lacks h = h
  KeepsLed-apply_fields config (f ∷ rest) lacks h =
      KeepsLed-bind (apply_param config f.0 (strip_newlines f.1)) (λ next. apply_fields next rest)
        (KeepsLed-apply_param config f.0 (strip_newlines f.1) lacks.0 h)
        (λ next kept. KeepsLed-apply_fields next rest lacks.1 kept)

-- A form without a `led_on` field, which is what a browser posts when the box is not ticked, leaves
-- `led_always_on` as it is in flash: a setting that is on cannot be turned off.
pub posted_config_led :
    (keep : ℕ → Bool) (flash : Option FlashConfig) (fields : List (List ℕ × List ℕ))
    (stored : FlashConfig)
    → keep b'%' ≡ false
    → keep b'+' ≡ false
    → keep b'&' ≡ false
    → All IsField fields
    → LacksLed fields
    → posted_config flash (form_body keep fields) ≡ some stored
    → stored.led_always_on ≡ (base_config flash).led_always_on
posted_config_led keep flash fields stored kp kq ka h lacks e =
    let led = (base_config flash).led_always_on in
    subst (KeepsLed led) (sym (posted_config-form_body keep flash fields kp kq ka h) ∙ e)
      (KeepsLed-apply_fields led (base_config flash) fields lacks refl)
