-- ===== src/Wifi.antt =====
-- `connect_to_wifi` of src/wifi.c: the loop over the answers of the Wi-Fi driver, which are an
-- argument, one for each call of `cyw43_arch_wifi_connect_timeout_ms`.
pub mod Loop
pub mod Verdict
mod Examples
use picow_day_clock.Base.{
  ℕ, zero, suc, ◌+◌, ◌*◌, Bool, true, false, not, ◌&&◌, List, [], ◌∷◌, ◌++◌, Option, none, some,
  ltb, leb, if◌then◌else◌,
}
use picow_day_clock.Config.{WifiError}

-- What the driver returns: 0, the three errors that the loop knows, or another code.
pub data Answer : Type 0 where
  connected timeout bad_auth connect_failed : Answer
  unknown : ℕ → Answer

-- An answer, and the time since `start_time_us` at which it came.
pub record Attempt : Type 0 where
  pub answer : Answer
  pub elapsed_us : ℕ

pub data Effect : Type 0 where
  watchdog_update enable_sta_mode connect sleep_before_retry : Effect

abbrev pub wifi_abandon_timeout_ms : ℕ
wifi_abandon_timeout_ms = 30 * 1000

abbrev pub wifi_connect_timeout_ms : ℕ
wifi_connect_timeout_ms = 10 * 1000

abbrev pub wifi_bad_auth_retry_count : ℕ
wifi_bad_auth_retry_count = 3

-- The calls before those of a later round; `none` is a loop that runs on.
abbrev pub after : List Effect → Option (WifiError × List Effect) → Option (WifiError × List Effect)
after es none = none
after es (some (e, fs)) = some (e, es ++ fs)

-- One round of the loop, by the answer and the time at which it came. The rest of the loop is a function of `bad_auth_count`.
abbrev pub tried : List Effect
tried = watchdog_update ∷ connect ∷ []

unfoldable pub connect_round :
    Answer → ℕ → ℕ → (ℕ → Option (WifiError × List Effect)) → Option (WifiError × List Effect)
connect_round connected elapsed_us bad_auth_count rest = some (WifiError.ok, tried)
connect_round timeout elapsed_us bad_auth_count rest =
    if ltb (wifi_abandon_timeout_ms * 1000) elapsed_us
    then some (WifiError.timeout_error, tried)
    else after tried (rest bad_auth_count)
connect_round bad_auth elapsed_us bad_auth_count rest =
    if leb wifi_bad_auth_retry_count (bad_auth_count + 1)
    then some (WifiError.auth_error, tried)
    else after (tried ++ (sleep_before_retry ∷ [])) (rest (bad_auth_count + 1))
connect_round connect_failed elapsed_us bad_auth_count rest = some (WifiError.connect_error, tried)
connect_round (unknown ret) elapsed_us bad_auth_count rest = some (WifiError.unknown_error, tried)

-- The loop from round `i` on.
unfoldable pub connect_loop : ℕ → (ℕ → Attempt) → ℕ → ℕ → Option (WifiError × List Effect)
unfolding connect_round
connect_loop zero attempts i bad_auth_count = none
connect_loop (suc fuel) attempts i bad_auth_count =
    let a = attempts i in
    connect_round a.answer a.elapsed_us bad_auth_count (λ n. connect_loop fuel attempts (suc i) n)

-- The result, `*wifi_initialized` after the call, and the calls. `init_ok` is what
-- `cyw43_arch_init` answers, if it is called.
unfoldable pub connect_to_wifi :
    ℕ → Bool → Bool → (ℕ → Attempt) → Option (WifiError × List Effect) × Bool
unfolding connect_loop
connect_to_wifi fuel wifi_initialized init_ok attempts =
    if not wifi_initialized && not init_ok
    then (some (WifiError.init_error, []), wifi_initialized)
    else (after (enable_sta_mode ∷ []) (connect_loop fuel attempts 0 0), true)
