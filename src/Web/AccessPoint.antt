-- ===== src/Web/AccessPoint.antt =====
-- The access point of src/wifi.c: `tcp_server_open`, `tcp_server_close`, `get_ssid` and
-- `start_wifi_access_point`. What the driver and lwIP answer is an argument, and so is the flag
-- `server_state.complete`, which `tcp_server_recv` sets meanwhile, as the loop finds it in each
-- round. What `memset` makes of the connections is `server_init` of Web/Pool; the pcb of the server
-- is a result of `tcp_server_open`.
pub mod Wait
mod Examples
use picow_day_clock.Base.{
  ℕ, zero, suc, ◌+◌, ◌-◌, ◌*◌, ◌/◌, ◌%◌, ◌<◌, ◌≤◌, ◌≡◌, refl, ap, ◌∙◌, Bool, true, false, not, ◌&&◌,
  List, [], ◌∷◌, ◌++◌, Option, none, some, arith, ltb, length, take, codes, get_or, if◌then◌else◌,
  length-append, length-take, min,
}
use picow_day_clock.Config.{FlashConfig, WifiError}
use picow_day_clock.Web.Pool.{Err, err_ok}
use picow_day_clock.Web.Template.{Expanded, expand_html_template}

-- The calls of the driver and of lwIP. A pcb is a number.
pub data Effect : Type 0 where
  cyw43_arch_enable_sta_mode cyw43_wifi_get_mac cyw43_arch_disable_sta_mode : Effect
  cyw43_arch_enable_ap_mode : (ssid : List ℕ) → Effect
  cyw43_arch_disable_ap_mode : Effect
  dhcp_server_init dns_server_init dns_server_deinit dhcp_server_deinit : Effect
  tcp_new tcp_bind tcp_listen tcp_accept tcp_close tcp_clear_arg : (pcb : ℕ) → Effect
  watchdog_update : Effect
  sleep_ms : ℕ → Effect

-- What lwIP answers to `tcp_server_open`: the new pcb, if there is one, whether it is bound, and the
-- pcb that listens in its place.
pub record TcpAnswers : Type 0 where
  pub new_pcb : Option ℕ
  pub bound : Bool
  pub listen_pcb : Option ℕ

abbrev pub open_listen : ℕ → Option ℕ → Bool × Option ℕ × List Effect
open_listen pcb none =
    (false, none, tcp_new pcb ∷ tcp_bind pcb ∷ tcp_listen pcb ∷ tcp_close pcb ∷ [])
open_listen pcb (some server) =
    (true, some server, tcp_new pcb ∷ tcp_bind pcb ∷ tcp_listen pcb ∷ tcp_accept server ∷ [])

abbrev pub open_bind : Option ℕ → Bool → Option ℕ → Bool × Option ℕ × List Effect
open_bind none bound listen = (false, none, [])
open_bind (some pcb) bound listen =
    if bound then open_listen pcb listen else (false, none, tcp_new pcb ∷ tcp_bind pcb ∷ [])

-- Whether the server is open, its pcb, and the calls.
unfoldable pub tcp_server_open : TcpAnswers → Bool × Option ℕ × List Effect
tcp_server_open answers = open_bind answers.new_pcb answers.bound answers.listen_pcb

unfoldable pub tcp_server_close : Option ℕ → List Effect
tcp_server_close none = []
tcp_server_close (some pcb) = tcp_clear_arg pcb ∷ tcp_close pcb ∷ []

abbrev pub hex_digit : ℕ → ℕ
hex_digit n = if ltb n 10 then b'0' + n else b'A' + (n - 10)

-- `%02X` of a byte
abbrev pub hex_byte : ℕ → List ℕ
hex_byte n = hex_digit (n / 16) ∷ hex_digit (n % 16) ∷ []

-- The text in `ssid`, which has 32 bytes.
unfoldable pub get_ssid : List ℕ → List ℕ
get_ssid mac = take 31 (
    codes "Pico-Day-Clock-Setup"
    ++ (codes "-"
        ++ (hex_byte (get_or mac 3 0) ++ (hex_byte (get_or mac 4 0) ++ hex_byte (get_or mac 5 0)))))

abbrev pub tick : List Effect
tick = watchdog_update ∷ sleep_ms 1000 ∷ []

abbrev pub with_tick : Option (List Effect) → Option (List Effect)
with_tick none = none
with_tick (some es) = some (tick ++ es)

-- The loop from round `i` on; `none` is a loop that runs on.
unfoldable pub wait_complete : ℕ → (ℕ → Bool) → ℕ → Option (List Effect)
wait_complete zero complete i = none
wait_complete (suc fuel) complete i =
    let rest = wait_complete fuel complete (suc i) in if complete i then some [] else with_tick rest

-- The result, `*wifi_initialized` after the call, and the calls.
abbrev pub Result : Type 0
Result = Option (WifiError × List Effect) × Bool

abbrev pub serve_open : ℕ → (ℕ → Bool) → List Effect → Bool × Option ℕ × List Effect → Result
serve_open fuel complete before (false, server, opening) =
    (some (WifiError.init_error, before ++ opening), true)
serve_open fuel complete before (true, server, opening) = (
  elim (wait_complete fuel complete 0) [
    | none ↦ none
    | some waiting ↦ some (
      WifiError.ok,
      before
          ++ (opening
              ++ (waiting
                  ++ ((cyw43_arch_disable_ap_mode ∷ [])
                      ++ (tcp_server_close server
                          ++ (dns_server_deinit ∷ dhcp_server_deinit ∷ []))))),
    )
  ],
  true,
)

abbrev pub set_up : List ℕ → List Effect
set_up mac =
    cyw43_arch_enable_sta_mode
    ∷ cyw43_wifi_get_mac
    ∷ cyw43_arch_disable_sta_mode
    ∷ cyw43_arch_enable_ap_mode (get_ssid mac)
    ∷ dhcp_server_init
    ∷ dns_server_init
    ∷ []

abbrev pub serve_form : ℕ → List ℕ → TcpAnswers → (ℕ → Bool) → Expanded → Result
serve_form fuel mac answers complete (some (err_ok, form)) =
    serve_open fuel complete (set_up mac) (tcp_server_open answers)
serve_form fuel mac answers complete _ = (some (WifiError.init_error, []), true)

-- `init_ok` is whether `cyw43_arch_init` answers 0, if it is called.
unfoldable pub start_wifi_access_point :
    ℕ → ℕ → List ℕ → Option FlashConfig → Bool → Bool → List ℕ → TcpAnswers → (ℕ → Bool) → Result
start_wifi_access_point fuel html_form_max_length html_form_template flash_config wifi_initialized
      init_ok mac answers complete =
    if not wifi_initialized && not init_ok
    then (some (WifiError.init_error, []), wifi_initialized)
    else serve_form fuel mac answers complete
        (expand_html_template html_form_max_length html_form_template flash_config)
