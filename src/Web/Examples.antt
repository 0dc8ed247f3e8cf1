-- ===== src/Web/Examples.antt =====
-- The theorems on the configuration server of src/wifi.c at concrete requests.
use picow_day_clock.Base.{
  true, ℕ, ◌≡◌, ◌||◌, refl, arith, none, some, List, [], ◌∷◌, Bool, codes, leb, ◌&&◌, All,
}
use picow_day_clock.Base.Int.{pos, negsuc}
use picow_day_clock.Config.{FlashConfig}
use picow_day_clock.Web.CString.{c_str, starts_with, split_at, tokens, str_eq, strncpy}
use picow_day_clock.Web.Number.{parse_long_bounded, strtol, skip_spaces, scan_digits}
use picow_day_clock.Web.Url.{IsByte, url_encode, urldecode_inplace}
use picow_day_clock.Web.Params.{default_config, posted_config, apply_pairs, apply_param}
use picow_day_clock.Web.Params.Form.{form_body, apply_fields, IsField, posted_config-form_body}
use picow_day_clock.Web.Pool.{Server, err_ok, server_init, tcp_server_accept}
use picow_day_clock.Web.Pool.Invariant.{IsConsistent}
use picow_day_clock.Web.Pool.Callbacks.{
  Accepts, tcp_server_accept-Accepts, accept, here, next, Reach-server-IsConsistent,
}
use picow_day_clock.Web.Template.{expand_html_template, find_text}

accepted : parse_long_bounded (codes "-300") (negsuc 719) (pos 840) ≡ some (negsuc 299)
unfolding parse_long_bounded strtol skip_spaces scan_digits
accepted = refl

-- The letters and digits, which browsers leave as they are.
abbrev plain_char : ℕ → Bool
plain_char c =
    (leb b'0' c && leb c b'9') || (leb b'A' c && leb c b'Z') || (leb b'a' c && leb c b'z')

abbrev secret : List ℕ
secret = codes "a&b=c d"

secret-IsByte : All IsByte secret
secret-IsByte = ground arith

-- Five hours west, with a timeout of five seconds; a later field without a value is skipped.
abbrev west : FlashConfig
west = record default_config { tz_offset_mins = negsuc 299; ntp_timeout = 5000 }

posted_west : posted_config none (codes "tz=-300&cto=5000&led_on") ≡ some west
unfolding posted_config apply_pairs apply_param parse_long_bounded strtol skip_spaces scan_digits
    split_at tokens urldecode_inplace str_eq strncpy c_str
posted_west = refl

abbrev posted : List (List ℕ × List ℕ)
posted = (codes "pwd", secret) ∷ (codes "tz", codes "-300") ∷ []

posted-IsField : All IsField posted
posted-IsField = ground arith

posted_config-form_body_example :
    posted_config none (form_body plain_char posted) ≡ apply_fields default_config posted
posted_config-form_body_example =
    posted_config-form_body plain_char none posted refl refl refl posted-IsField

abbrev one_client : Server
one_client = (tcp_server_accept server_init (some 7) err_ok).1

Reach-server-IsConsistent_example : IsConsistent one_client
Reach-server-IsConsistent_example = Reach-server-IsConsistent (next here (accept (some 7) err_ok))

tcp_server_accept-Accepts_example :
    let (err, after, _) = tcp_server_accept one_client (some 8) err_ok in
    Accepts one_client 8 (err, after)
tcp_server_accept-Accepts_example =
    tcp_server_accept-Accepts one_client 8 Reach-server-IsConsistent_example

abbrev form : List ℕ
form = codes "a={TEMPLATE:ntp};"

-- The server of the default configuration is filled in.
filled : expand_html_template 32 form (some default_config) ≡ some (err_ok, codes "a=pool.ntp.org;")
unfolding expand_html_template find_text split_at strncpy c_str starts_with
filled = refl

-- A configuration with the LED on, and the form posted again with the box not ticked.
abbrev lit : FlashConfig
lit = record default_config { led_always_on = true }

abbrev still_lit : FlashConfig
still_lit = record lit { tz_offset_mins = negsuc 299 }

abbrev unticked : List (List ℕ × List ℕ)
unticked = (codes "tz", codes "-300") ∷ []

unticked-IsField : All IsField unticked
unticked-IsField = ground arith

unticked_posted : posted_config (some lit) (form_body plain_char unticked) ≡ some still_lit
unfolding posted_config apply_pairs apply_param parse_long_bounded strtol skip_spaces scan_digits
    split_at tokens urldecode_inplace str_eq strncpy c_str form_body url_encode
unticked_posted = refl
