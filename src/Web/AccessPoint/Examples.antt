-- ===== src/Web/AccessPoint/Examples.antt =====
-- The theorem on the access point of src/wifi.c at a concrete form.
use picow_day_clock.Base.{
  ℕ, ◌≤◌, ◌≡◌, refl, Bool, true, false, List, [], ◌∷◌, ◌++◌, some, arith, leb, codes,
}
use picow_day_clock.Config.{WifiError}
use picow_day_clock.Web.CString.{c_str, starts_with, split_at, strncpy}
use picow_day_clock.Web.Params.{default_config}
use picow_day_clock.Web.Pool.{err_ok}
use picow_day_clock.Web.Template.{expand_html_template, find_text}
use picow_day_clock.Web.AccessPoint.{
  tcp_accept, tcp_bind, tcp_listen, tcp_new, TcpAnswers, set_up, start_wifi_access_point,
}
use picow_day_clock.Web.AccessPoint.Wait.{ticks, longest_sleep, closing, start_wifi_access_point-ok}

abbrev mac : List ℕ
mac = 0x28 ∷ 0xCD ∷ 0xC1 ∷ 0x0A ∷ 0xB2 ∷ 0x3F ∷ []

abbrev form : List ℕ
form = codes "a={TEMPLATE:ntp};"

filled : expand_html_template 32 form (some default_config) ≡ some (err_ok, codes "a=pool.ntp.org;")
unfolding expand_html_template find_text split_at strncpy c_str starts_with
filled = refl

-- Stored after two rounds.
abbrev stored : ℕ → Bool
stored i = leb 2 i

start_wifi_access_point-ok_example :
    let answers : TcpAnswers = record { new_pcb = some 5; bound = true; listen_pcb = some 6 } in
    let r =
      start_wifi_access_point 10 32 form (some default_config) false true mac answers stored in
    let calls =
      set_up mac
      ++ ((tcp_new 5 ∷ tcp_bind 5 ∷ tcp_listen 5 ∷ tcp_accept 6 ∷ []) ++ (ticks 2 ++ closing 6)) in
    (r ≡ (some (WifiError.ok, calls), true)) × (longest_sleep 0 calls ≤ 1000)
start_wifi_access_point-ok_example =
    start_wifi_access_point-ok 10 2 32 form (some default_config) false true mac
      (codes "a=pool.ntp.org;") 5 6 stored refl filled (omega arith) (λ j h. ground (arith, h)) refl
