-- ===== src/Web/Params.antt =====
-- The configuration form in `tcp_server_recv` of src/wifi.c: the fields of the body of a POST, and
-- the configuration that is handed to `store_config`. A refused field ends the loop, and nothing is
-- stored.
pub mod Valid
pub mod Form
pub mod Led
use picow_day_clock.Base.{
  ℕ, zero, suc, ◌+◌, ◌-◌, ◌*◌, ◌≤◌, ◌<◌, ◌≡◌, refl, sym, ap, subst, ◌∙◌, Bool, true, false, List,
  [], ◌∷◌, ◌++◌, Option, none, some, arith, ltb, leb, ◌==◌, length, get_or, take, drop, replicate,
  codes, if◌then◌else◌, length-take, length-append, ◌>>=◌,
}
use picow_day_clock.Base.Int.{ℤ, pos, negsuc, ◌≤ℤ◌, pos_part, int_laws}
use picow_day_clock.Dst.{Rule}
use picow_day_clock.Config.{FlashConfig, wifi_ssid_max_len, wifi_password_max_len, hostname_max_len}
use picow_day_clock.Web.CString.{str_eq, strncpy, split_at, tokens}
use picow_day_clock.Web.Number.{parse_long_bounded, parse_long_bounded_range}
use picow_day_clock.Web.Url.{urldecode_inplace}

abbrev pub min_tz_offset_mins : ℤ
min_tz_offset_mins = negsuc 719

abbrev pub max_tz_offset_mins : ℤ
max_tz_offset_mins = pos (14 * 60)

abbrev pub min_ntp_timeout_ms : ℤ
min_ntp_timeout_ms = pos 1000

abbrev pub max_ntp_timeout_ms : ℤ
max_ntp_timeout_ms = pos 60000

-- The configuration when there is none in flash.
abbrev pub default_config : FlashConfig
default_config = record {
  magic_marker = 0;
  wifi_ssid = replicate 33 0;
  wifi_password = replicate 64 0;
  ntp_server = strncpy (replicate 65 0) (codes "pool.ntp.org") hostname_max_len;
  tz_offset_mins = pos 0;
  dst_rule = Rule.none;
  ntp_timeout = 10 * 1000;
  ntp_port = 123;
  led_always_on = false;
}

abbrev pub base_config : Option FlashConfig → FlashConfig
base_config (some config) = config
base_config none = default_config

unfoldable pub dst_rule_of : List ℕ → Rule
dst_rule_of value =
    if str_eq value (codes "NA")
    then Rule.na
    else if str_eq value (codes "EU")
    then Rule.eu
    else if str_eq value (codes "AU")
    then Rule.au
    else if str_eq value (codes "NZ")
    then Rule.nz
    else if str_eq value (codes "CL")
    then Rule.cl
    else if str_eq value (codes "IL")
    then Rule.il
    else Rule.none

-- The three fields that hold a number; `none` is `invalid_param`. The casts to the fields' types keep
-- every number that lies within the bounds.
abbrev pub set_tz : FlashConfig → Option ℤ → Option FlashConfig
set_tz config none = none
set_tz config (some n) = some (record config { tz_offset_mins = n })

abbrev pub set_timeout : FlashConfig → Option ℤ → Option FlashConfig
set_timeout config none = none
set_timeout config (some n) = some (record config { ntp_timeout = pos_part n })

abbrev pub set_port : FlashConfig → Option ℤ → Option FlashConfig
set_port config none = none
set_port config (some n) = some (record config { ntp_port = pos_part n })

abbrev pub starts_with_one : List ℕ → Bool
starts_with_one [] = false
starts_with_one (c ∷ s) = c == b'1'

unfoldable pub apply_param : FlashConfig → List ℕ → List ℕ → Option FlashConfig
unfolding dst_rule_of
apply_param config key value =
    if str_eq key (codes "ssid")
    then some (record config { wifi_ssid = strncpy config.wifi_ssid value wifi_ssid_max_len })
    else if str_eq key (codes "pwd")
    then some
        (record config { wifi_password = strncpy config.wifi_password value wifi_password_max_len })
    else if str_eq key (codes "ntp")
    then some (record config { ntp_server = strncpy config.ntp_server value hostname_max_len })
    else if str_eq key (codes "tz")
    then set_tz config (parse_long_bounded value min_tz_offset_mins max_tz_offset_mins)
    else if str_eq key (codes "dst")
    then some (record config { dst_rule = dst_rule_of value })
    else if str_eq key (codes "cto")
    then set_timeout config (parse_long_bounded value min_ntp_timeout_ms max_ntp_timeout_ms)
    else if str_eq key (codes "port")
    then set_port config (parse_long_bounded value (pos 1) (pos 65535))
    else if str_eq key (codes "led_on")
    then some (record config { led_always_on = starts_with_one value })
    else some config

-- A pair without `=` is skipped.
unfoldable pub apply_split : FlashConfig → List ℕ × Option (List ℕ) → Option FlashConfig
unfolding apply_param
apply_split config (key, none) = some config
apply_split config (key, some value) = apply_param config key (urldecode_inplace value)

unfoldable pub apply_pair : FlashConfig → List ℕ → Option FlashConfig
unfolding apply_split
apply_pair config pair = apply_split config (split_at b'=' pair)

-- The loop over the pairs.
unfoldable pub apply_pairs : FlashConfig → List (List ℕ) → Option FlashConfig
unfolding apply_pair
apply_pairs config [] = some config
apply_pairs config (pair ∷ rest) = do next ← apply_pair config pair; apply_pairs next rest

-- The configuration to store, from the one in flash and the body of the request.
unfoldable pub posted_config : Option FlashConfig → List ℕ → Option FlashConfig
unfolding apply_pairs
posted_config flash_config body = apply_pairs (base_config flash_config) (tokens b'&' body)
