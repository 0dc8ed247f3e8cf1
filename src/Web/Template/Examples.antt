-- ===== src/Web/Template/Examples.antt =====
-- The theorems on src/wifi.c's `expand_html_template` at a small form.
use picow_day_clock.Base.{ℕ, ◌+◌, ◌≡◌, refl, List, [], ◌∷◌, ◌++◌, some, codes, length, arith}
use picow_day_clock.Web.CString.{c_str, strncpy}
use picow_day_clock.Web.Pool.{err_ok}
use picow_day_clock.Web.Params.{default_config}
use picow_day_clock.Web.Params.Valid.{IsValid}
use picow_day_clock.Web.Template.{expand_html_template}
use picow_day_clock.Web.Template.Fill.{Key, ssid, ntp, template_of, filled, Expands}
use picow_day_clock.Web.Template.Whole.{
  expand_html_template-Expands, form, expand_html_template-form,
}

abbrev pieces : List (List ℕ × Key)
pieces = (codes "a{b} = \"", ssid) ∷ (codes "\" {", ntp) ∷ []

expand_html_template-Expands_example :
    Expands 60
      (filled (some default_config) pieces (codes "T"))
      (expand_html_template 60 (template_of pieces (codes "T")) (some default_config))
expand_html_template-Expands_example =
    expand_html_template-Expands 60 (some default_config) pieces (codes "T") (omega arith)
      (refl, (refl, refl))

default_config-IsValid : IsValid default_config
unfolding strncpy
default_config-IsValid = record {
  ssid = (refl, refl);
  password = (refl, refl);
  server = (refl, refl);
  tz = (omega arith, omega arith);
  timeout = (omega arith, omega arith);
  port = (omega arith, omega arith);
}

expand_html_template-form_example :
    let template = template_of (form (codes "<") (codes ", ") (codes ", ")) (codes ">") in
    expand_html_template (length template + 32 + 63 + 64) template (some default_config)
    ≡ some (
      err_ok,
      codes "<"
          ++ (c_str default_config.wifi_ssid
              ++ (codes ", "
                  ++ (c_str default_config.wifi_password
                      ++ (codes ", " ++ (c_str default_config.ntp_server ++ codes ">"))))),
    )
expand_html_template-form_example =
    expand_html_template-form default_config (codes "<") (codes ", ") (codes ", ") (codes ">")
      default_config-IsValid (refl, (refl, (refl, refl)))
