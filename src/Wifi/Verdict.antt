-- ===== src/Wifi/Verdict.antt =====
-- Why src/wifi.c's `connect_to_wifi` returns what it returns.
use picow_day_clock.Base.{
  ◌==◌, ==_iff, ℕ, zero, suc, ◌+◌, ◌≤◌, ◌<◌, ◌≡◌, refl, sym, ap, subst, Bool, false, not, ◌&&◌,
  List, [], ◌∷◌, ◌++◌, Option, none, some, ltb, leb, arith, ◌⊎◌, inl, inr, Bool-cases,
}
use picow_day_clock.Config.{WifiError}
use picow_day_clock.Wifi.{
  Answer, connected, timeout, bad_auth, connect_failed, unknown, Attempt, Effect, after,
  connect_round, connect_loop, connect_to_wifi, tried, sleep_before_retry, enable_sta_mode,
}

-- A round after which the loop goes on: a timeout within 30 seconds of the start, or a refusal.
abbrev pub IsRetry : Attempt → Type 0
IsRetry a = ((a.answer ≡ timeout) × (a.elapsed_us ≤ 30000000)) ⊎ (a.answer ≡ bad_auth)

-- The refusals among the first rounds.
abbrev pub is_refusal : Answer → ℕ
is_refusal bad_auth = 1
is_refusal _ = 0

abbrev pub refusals : (ℕ → Attempt) → ℕ → ℕ
refusals attempts zero = 0
refusals attempts (suc i) = refusals attempts i + is_refusal (attempts i).answer

-- What the last round must be for a result, after `n` refusals before it.
abbrev pub IsReason : WifiError → Attempt → ℕ → Type 0
IsReason WifiError.ok a n = a.answer ≡ connected
IsReason WifiError.timeout_error a n = (a.answer ≡ timeout) × (30000000 < a.elapsed_us)
IsReason WifiError.auth_error a n = (a.answer ≡ bad_auth) × (n ≡ 2)
IsReason WifiError.connect_error a n = a.answer ≡ connect_failed
IsReason WifiError.unknown_error a n = (code : ℕ) × (a.answer ≡ unknown code)
IsReason WifiError.init_error a n = ⊥

-- Why the loop ended at the round `last`, having begun at round `i`.
pub record Stopped (attempts : ℕ → Attempt) (i last : ℕ) (e : WifiError) : Type 0 where
  pub later : i ≤ last
  pub retries : (j : ℕ) → i ≤ j → j < last → IsRetry (attempts j)
  pub few_refusals : refusals attempts last ≤ 2
  pub reason : IsReason e (attempts last) (refusals attempts last)

abbrev OnResult : (WifiError → Type 0) → Option (WifiError × List Effect) → Type 0
OnResult P none = Unit
OnResult P (some (e, es)) = P e

OnResult-after :
    (P Q : WifiError → Type 0) (es : List Effect) (r : Option (WifiError × List Effect))
    → ((e : WifiError) → P e → Q e)
    → OnResult P r
    → OnResult Q (after es r)
OnResult-after P Q es none f h = tt
OnResult-after P Q es (some (e, fs)) f h = f e h

module _ (attempts : ℕ → Attempt) where
  abbrev Stops : ℕ → WifiError → Type 0
  Stops i e = (last : ℕ) × Stopped attempts i last e

  Stops-IsRetry : (i : ℕ) (e : WifiError) → IsRetry (attempts i) → Stops (suc i) e → Stops i e
  Stops-IsRetry i e retry (last, s) = (
    last,
    record {
      later = omega (arith, s.later);
      retries = λ j from before. elim (Bool-cases (j == i)) [
        | inl here ↦ subst (λ k. IsRetry (attempts k)) (sym ((==_iff j i).0 here)) retry
        | inr past ↦ s.retries j (ground arith) before
      ];
      few_refusals = s.few_refusals;
      reason = s.reason;
    },
  )

  Stops-IsReason :
      (i : ℕ) (e : WifiError)
      → refusals attempts i ≤ 2
      → IsReason e (attempts i) (refusals attempts i)
      → Stops i e
  Stops-IsReason i e few reason = (
    i,
    record {
      later = omega arith;
      retries = λ j from before. absurd (omega arith);
      few_refusals = few;
      reason = reason;
    },
  )

  Stops-connect_round :
      (i n : ℕ) (rest : ℕ → Option (WifiError × List Effect)) (a : Answer)
      → (attempts i).answer ≡ a
      → n ≡ refusals attempts i
      → n ≤ 2
      → (a ≡ timeout → OnResult (Stops (suc i)) (rest n))
      → (a ≡ bad_auth → n < 2 → OnResult (Stops (suc i)) (rest (n + 1)))
      → OnResult (Stops i) (connect_round a (attempts i).elapsed_us n rest)
  unfolding connect_round
  Stops-connect_round i n rest connected e count few h k =
      Stops-IsReason i WifiError.ok (omega arith) e
  Stops-connect_round i n rest connect_failed e count few h k =
      Stops-IsReason i WifiError.connect_error (omega arith) e
  Stops-connect_round i n rest (unknown code) e count few h k =
      Stops-IsReason i WifiError.unknown_error (omega arith) (code, e)
  Stops-connect_round i n rest timeout e count few h k =
      elim (Bool-cases (ltb 30000000 (attempts i).elapsed_us)) [
        | inl late ↦
            rw late (Stops-IsReason i WifiError.timeout_error (omega arith) (e, ground arith))
        | inr early ↦ rw early (
            OnResult-after (Stops (suc i)) (Stops i) tried (rest n)
              (λ r. Stops-IsRetry i r (inl (e, ground arith))) (h refl))
      ]
  Stops-connect_round i n rest bad_auth e count few h k = elim (Bool-cases (leb 3 (n + 1))) [
    | inl many ↦ rw many (Stops-IsReason i WifiError.auth_error (omega arith) (e, ground arith))
    | inr fewer ↦ rw fewer (
        OnResult-after (Stops (suc i)) (Stops i) (tried ++ (sleep_before_retry ∷ [])) (rest (n + 1))
          (λ r. Stops-IsRetry i r (inr e)) (k refl (ground arith)))
  ]

  connect_loop-Stops :
      (fuel i n : ℕ)
      → n ≡ refusals attempts i
      → n ≤ 2
      → OnResult (Stops i) (connect_loop fuel attempts i n)
  unfolding connect_loop
  connect_loop-Stops zero i n count few = tt
  connect_loop-Stops (suc fuel) i n count few =
      Stops-connect_round i n (λ m. connect_loop fuel attempts (suc i) m) (attempts i).answer refl
        count few
        (λ e. connect_loop-Stops fuel (suc i) n (omega (arith, count, ap is_refusal e)) few)
        (λ e fewer. connect_loop-Stops fuel (suc i) (n + 1) (count_refusal e) (omega arith))
    where
      count_refusal : (attempts i).answer ≡ bad_auth → n + 1 ≡ refusals attempts (suc i)
      count_refusal e = omega (arith, count, ap is_refusal e)

-- Why a call of `connect_to_wifi` may return a result.
abbrev pub IsOutcome : Bool → Bool → (ℕ → Attempt) → WifiError → Type 0
IsOutcome wifi_initialized init_ok attempts e =
    ((e ≡ WifiError.init_error) × (wifi_initialized ≡ false) × (init_ok ≡ false))
    ⊎ ((last : ℕ) × Stopped attempts 0 last e)

connect_to_wifi-OnResult :
    (fuel : ℕ) (wifi_initialized init_ok : Bool) (attempts : ℕ → Attempt)
    → OnResult
        (IsOutcome wifi_initialized init_ok attempts)
        (connect_to_wifi fuel wifi_initialized init_ok attempts).0
unfolding connect_to_wifi
connect_to_wifi-OnResult fuel wifi_initialized init_ok attempts =
    elim (Bool-cases (not wifi_initialized && not init_ok)) [
      | inl refused ↦ rw refused (inl (refl, ground arith, ground arith))
      | inr ready ↦ rw ready (
          OnResult-after (Stops attempts 0) (IsOutcome wifi_initialized init_ok attempts)
            (enable_sta_mode ∷ []) (connect_loop fuel attempts 0 0) (λ e s. inr s)
            (connect_loop-Stops attempts fuel 0 0 refl (omega arith)))
    ]

-- Why `connect_to_wifi` returns what it returns. `WIFI_INIT_ERROR` is from a first initialisation
-- that fails. Any other result is from some last attempt, and every attempt before it was a timeout
-- within 30 seconds of the start or a refusal of the credentials, with at most two refusals. The last
-- attempt connected for `WIFI_OK`, timed out after 30 seconds for `WIFI_TIMEOUT_ERROR`, was the third
-- refusal for `WIFI_AUTH_ERROR`, and had the driver's matching answer for the other two.
pub connect_to_wifi-IsOutcome :
    (fuel : ℕ) (wifi_initialized init_ok : Bool) (attempts : ℕ → Attempt) (e : WifiError)
    (es : List Effect)
    → (connect_to_wifi fuel wifi_initialized init_ok attempts).0 ≡ some (e, es)
    → IsOutcome wifi_initialized init_ok attempts e
connect_to_wifi-IsOutcome fuel wifi_initialized init_ok attempts e es returned =
    subst (OnResult (IsOutcome wifi_initialized init_ok attempts)) returned
      (connect_to_wifi-OnResult fuel wifi_initialized init_ok attempts)
