-- ===== src/Web/AccessPoint/Wait.antt =====
-- How src/wifi.c's `start_wifi_access_point` waits and ends.
use picow_day_clock.Base.{
  ℕ, zero, suc, ◌+◌, ◌<◌, ◌≤◌, ◌≡◌, refl, Bool, true, false, not, ◌&&◌, List, [], ◌∷◌, ◌++◌, Option,
  some, arith,
}
use Prim.Native.Nat.{max}
use picow_day_clock.Config.{FlashConfig, WifiError}
use picow_day_clock.Web.Pool.{err_ok}
use picow_day_clock.Web.Template.{expand_html_template}
use picow_day_clock.Web.AccessPoint.{
  Effect, watchdog_update, sleep_ms, tcp_accept, tcp_bind, tcp_listen, tcp_new,
  cyw43_arch_disable_ap_mode, dns_server_deinit, dhcp_server_deinit, TcpAnswers, tcp_server_open,
  tcp_server_close, tick, wait_complete, set_up, start_wifi_access_point,
}

-- The rounds of the loop.
pub ticks : ℕ → List Effect
ticks zero = []
ticks (suc k) = tick ++ ticks k

-- The loop ends in the first round that finds the flag set.
wait_complete_lem :
    (fuel k i : ℕ) (complete : ℕ → Bool)
    → k < fuel
    → ((j : ℕ) → j < k → complete (i + j) ≡ false)
    → complete (i + k) ≡ true
    → wait_complete fuel complete i ≡ some (ticks k)
unfolding wait_complete ticks
wait_complete_lem zero k i complete lt before now = absurd (omega arith)
wait_complete_lem (suc fuel) zero i complete lt before now =
    let e : i + 0 ≡ i = omega arith in let set : complete i ≡ true = rw e at now in rw set refl
wait_complete_lem (suc fuel) (suc k) i complete lt before now =
    let e : i + 0 ≡ i = omega arith in
    let not_set : complete i ≡ false = rw e at (before 0 (omega arith)) in
    let next : i + suc k ≡ suc i + k = omega arith in
    let later : (j : ℕ) → j < k → complete (suc i + j) ≡ false = λ j h.
      let e' : i + suc j ≡ suc i + j = omega arith in
      rw e' at (before (suc j) (omega (arith, h))) in
    let rest = wait_complete_lem fuel k (suc i) complete (omega arith) later (rw next at now) in
    rw (not_set, rest) refl

-- The longest sleep without a watchdog update, `unfed` milliseconds after the last one.
abbrev pub longest_sleep : ℕ → List Effect → ℕ
longest_sleep unfed [] = unfed
longest_sleep unfed (watchdog_update ∷ es) = max unfed (longest_sleep 0 es)
longest_sleep unfed (sleep_ms ms ∷ es) = longest_sleep (unfed + ms) es
longest_sleep unfed (_ ∷ es) = longest_sleep unfed es

longest_sleep-ticks :
    (k unfed : ℕ) (es : List Effect)
    → unfed ≤ 1000
    → ((u : ℕ) → u ≤ 1000 → longest_sleep u es ≤ 1000)
    → longest_sleep unfed (ticks k ++ es) ≤ 1000
unfolding ticks
longest_sleep-ticks zero unfed es h after = after unfed h
longest_sleep-ticks (suc k) unfed es h after =
    let rest = longest_sleep-ticks k 1000 es (omega arith) after in omega (arith, h, rest)

-- What the server closes at the end.
abbrev pub closing : ℕ → List Effect
closing server =
    (cyw43_arch_disable_ap_mode ∷ [])
    ++ (tcp_server_close (some server) ++ (dns_server_deinit ∷ dhcp_server_deinit ∷ []))

closing_sleep : (server u : ℕ) → u ≤ 1000 → longest_sleep u (closing server) ≤ 1000
unfolding tcp_server_close
closing_sleep server u h = h

-- If Wi-Fi is or gets initialised, the form fits, the server gets its pcbs and the flag is first found
-- set in round k, then the access point is set up, served with a watchdog update and a sleep in each
-- of the k rounds, taken down, and the call returns `WIFI_OK`, never sleeping more than a second
-- without a watchdog update.
pub start_wifi_access_point-ok :
    (fuel k max_length : ℕ) (template : List ℕ) (flash : Option FlashConfig)
    (wifi_initialized init_ok : Bool) (mac form : List ℕ) (pcb server : ℕ) (complete : ℕ → Bool)
    → (not wifi_initialized && not init_ok) ≡ false
    → expand_html_template max_length template flash ≡ some (err_ok, form)
    → k < fuel
    → ((j : ℕ) → j < k → complete j ≡ false)
    → complete k ≡ true
    → let answers : TcpAnswers = record {
      new_pcb = some pcb;
      bound = true;
      listen_pcb = some server;
    } in
      let r =
        start_wifi_access_point fuel max_length template flash wifi_initialized init_ok mac answers
          complete in
      let calls =
        set_up mac
        ++ ((tcp_new pcb ∷ tcp_bind pcb ∷ tcp_listen pcb ∷ tcp_accept server ∷ [])
            ++ (ticks k ++ closing server)) in
      (r ≡ (some (WifiError.ok, calls), true)) × (longest_sleep 0 calls ≤ 1000)
unfolding start_wifi_access_point tcp_server_open
start_wifi_access_point-ok fuel k max_length template flash wifi_initialized init_ok mac form pcb
      server complete init expanded lt before now =
    let waited : wait_complete fuel complete 0 ≡ some (ticks k) =
      wait_complete_lem fuel k 0 complete lt
        (λ j h. let e : 0 + j ≡ j = omega arith in rw e (before j h))
        (let e : 0 + k ≡ k = omega arith in rw e now) in
    (
      rw (init, expanded, waited) refl,
      longest_sleep-ticks k 0 (closing server) (omega arith) (closing_sleep server),
    )
