-- ===== src/Web/Template.antt =====
-- `expand_html_template` of src/wifi.c. `HTML_FORM_MAX_LENGTH` comes from a generated header and is an
-- argument.
pub mod Bounds
pub mod Fill
pub mod Whole
mod Examples
use picow_day_clock.Base.{
  ℕ, zero, suc, ◌+◌, ◌≤◌, Bool, true, false, List, [], ◌∷◌, ◌++◌, Option, none, some, ltb, leb,
  ◌&&◌, length, drop, codes, if◌then◌else◌, map,
}
use picow_day_clock.Config.{FlashConfig}
use picow_day_clock.Web.CString.{c_str, starts_with, split_at}
use picow_day_clock.Web.Pool.{Err, err_ok, err_mem, err_val}

abbrev lower : ℕ → ℕ
lower c = if leb b'A' c && leb c b'Z' then c + 32 else c

-- `strncasecmp(key_start, name, key_len) == 0`, for a key without NULs: it is a prefix of the name,
-- upper and lower case being the same.
abbrev key_matches : List ℕ → List ℕ → Bool
key_matches key name = starts_with name (map lower key)

abbrev pub template_start : List ℕ
template_start = codes "{TEMPLATE:"

abbrev pub add_prefix : ℕ → Option (List ℕ × List ℕ) → Option (List ℕ × List ℕ)
add_prefix c none = none
add_prefix c (some (prefix, rest)) = some (c ∷ prefix, rest)

-- `strstr`, with the text before the first occurrence and the text after it.
unfoldable pub find_text : List ℕ → List ℕ → Option (List ℕ × List ℕ)
find_text text [] = none
find_text text (c ∷ s) =
    let later = find_text text s in
    if starts_with (c ∷ s) text then some ([], drop (length text) (c ∷ s)) else add_prefix c later

unfoldable pub replacement : Option FlashConfig → List ℕ → List ℕ
replacement none key = []
replacement (some config) [] = []
replacement (some config) (k ∷ ks) =
    if key_matches (k ∷ ks) (codes "ssid")
    then c_str config.wifi_ssid
    else if key_matches (k ∷ ks) (codes "pwd")
    then c_str config.wifi_password
    else if key_matches (k ∷ ks) (codes "ntp")
    then c_str config.ntp_server
    else []

-- The result and what has been written to `buffer_out`; `none` is a loop that runs on.
abbrev pub Expanded : Type 0
Expanded = Option (Err × List ℕ)

-- The end of a round: the replacement, and the rest of the template.
unfoldable pub expand_key :
    ℕ
    → Option FlashConfig
    → List ℕ
    → List ℕ × Option (List ℕ)
    → (List ℕ → List ℕ → Expanded)
    → Expanded
unfolding replacement
expand_key max_length config out (key, none) next = some (err_val, out)
expand_key max_length config out (key, some rest) next =
    let text = replacement config key in
    if leb max_length (length out + length text)
    then some (err_mem, out)
    else next rest (out ++ text)

-- One round, by what `strstr` finds.
unfoldable pub expand_round :
    ℕ
    → Option FlashConfig
    → List ℕ
    → List ℕ
    → Option (List ℕ × List ℕ)
    → (List ℕ → List ℕ → Expanded)
    → Expanded
unfolding expand_key
expand_round max_length config curr out none next =
    if leb max_length (length out + length curr)
    then some (err_mem, out)
    else some (err_ok, out ++ curr)
expand_round max_length config curr out (some (prefix, after)) next =
    let keyed = expand_key max_length config (out ++ prefix) (split_at b'}' after) next in
    if leb max_length (length out + length prefix) then some (err_mem, out) else keyed

unfoldable pub expand_loop : ℕ → ℕ → Option FlashConfig → List ℕ → List ℕ → Expanded
unfolding find_text expand_round
expand_loop zero max_length config curr out = none
expand_loop (suc fuel) max_length config [] out = some (err_ok, out)
expand_loop (suc fuel) max_length config (c ∷ cs) out =
    expand_round max_length config (c ∷ cs) out (find_text template_start (c ∷ cs))
      (λ curr written. expand_loop fuel max_length config curr written)

unfoldable pub expand_html_template : ℕ → List ℕ → Option FlashConfig → Expanded
unfolding expand_loop
expand_html_template max_length buffer flash_config =
    expand_loop (suc (length buffer)) max_length flash_config buffer []
