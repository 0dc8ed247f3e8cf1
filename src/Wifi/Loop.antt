-- ===== src/Wifi/Loop.antt =====
-- The loop of src/wifi.c's `connect_to_wifi` ends, and why it ends.
use picow_day_clock.Base.{
  ℕ, zero, suc, ◌+◌, ◌*◌, ◌≤◌, ◌<◌, ◌≡◌, ◌≢◌, refl, subst, Bool, not, ◌&&◌, List, [], ◌∷◌, ◌++◌,
  Option, none, some, ltb, leb, arith, inl, inr, Bool-cases,
}
use picow_day_clock.Config.{WifiError}
use picow_day_clock.Wifi.{
  Answer, connected, timeout, bad_auth, connect_failed, unknown, Attempt, Effect, after,
  connect_round, connect_loop, connect_to_wifi, tried, sleep_before_retry, enable_sta_mode,
  wifi_connect_timeout_ms,
}

-- When a round begins.
abbrev pub began : (ℕ → Attempt) → ℕ → ℕ
began attempts zero = 0
began attempts (suc i) = (attempts i).elapsed_us

-- How long a round takes at least: the driver reports a timeout after the time it was given.
abbrev pub least_us : Answer → ℕ
least_us timeout = wifi_connect_timeout_ms * 1000
least_us _ = 0

abbrev pub IsTimed : (ℕ → Attempt) → Type 0
IsTimed attempts =
    (i : ℕ) → began attempts i + least_us (attempts i).answer ≤ (attempts i).elapsed_us

abbrev pub IsSome : Option (WifiError × List Effect) → Type 0
IsSome r = r ≢ none

IsSome-after :
    (es : List Effect) (r : Option (WifiError × List Effect)) → IsSome r → IsSome (after es r)
IsSome-after es none h = absurd (h refl)
IsSome-after es (some r) h = ground arith

IsSome-connect_round :
    (a : Answer) (elapsed_us n : ℕ) (rest : ℕ → Option (WifiError × List Effect))
    → (a ≡ timeout → elapsed_us ≤ 30000000 → IsSome (rest n))
    → (n < 2 → IsSome (rest (n + 1)))
    → IsSome (connect_round a elapsed_us n rest)
unfolding connect_round
IsSome-connect_round connected elapsed_us n rest h k = ground arith
IsSome-connect_round connect_failed elapsed_us n rest h k = ground arith
IsSome-connect_round (unknown ret) elapsed_us n rest h k = ground arith
IsSome-connect_round timeout elapsed_us n rest h k = elim (Bool-cases (ltb 30000000 elapsed_us)) [
  | inl late ↦ rw late (ground arith)
  | inr early ↦ rw early (IsSome-after tried (rest n) (h refl (ground arith)))
]
IsSome-connect_round bad_auth elapsed_us n rest h k = elim (Bool-cases (leb 3 (n + 1))) [
  | inl many ↦ rw many (ground arith)
  | inr few ↦
      rw few (IsSome-after (tried ++ (sleep_before_retry ∷ [])) (rest (n + 1)) (k (ground arith)))
]

-- `t` rounds have timed out, and `n` were turned away.
connect_loop-IsSome :
    (attempts : ℕ → Attempt) (timed : IsTimed attempts) (fuel i n t : ℕ)
    → n ≤ 2
    → t ≤ 3
    → t * 10000000 ≤ began attempts i
    → 6 ≤ fuel + n + t
    → IsSome (connect_loop fuel attempts i n)
unfolding connect_loop
connect_loop-IsSome attempts timed zero i n t h k began_after enough = absurd (omega arith)
connect_loop-IsSome attempts timed (suc fuel) i n t h k began_after enough =
    IsSome-connect_round (attempts i).answer (attempts i).elapsed_us n
      (λ m. connect_loop fuel attempts (suc i) m)
      (λ e early.
        let waited : began attempts i + 10000000 ≤ (attempts i).elapsed_us =
          subst (λ a. began attempts i + least_us a ≤ (attempts i).elapsed_us) e (timed i) in
        connect_loop-IsSome attempts timed fuel (suc i) n (t + 1) h (omega arith) (omega arith)
          (omega arith))
      (λ fewer.
        connect_loop-IsSome attempts timed fuel (suc i) (n + 1) t (omega arith) k
          (omega (arith, timed i)) (omega arith))

-- If every attempt that the driver reports as timed out took at least the ten seconds it was given,
-- and time never runs backwards, six rounds are enough: `connect_to_wifi` returns.
pub connect_to_wifi-IsSome :
    (wifi_initialized init_ok : Bool) (attempts : ℕ → Attempt) (more : ℕ)
    → IsTimed attempts
    → IsSome (connect_to_wifi (6 + more) wifi_initialized init_ok attempts).0
unfolding connect_to_wifi
connect_to_wifi-IsSome wifi_initialized init_ok attempts more timed =
    elim (Bool-cases (not wifi_initialized && not init_ok)) [
      | inl refused ↦ rw refused (ground arith)
      | inr ready ↦ rw ready (
          IsSome-after (enable_sta_mode ∷ []) (connect_loop (6 + more) attempts 0 0) (
            connect_loop-IsSome attempts timed (6 + more) 0 0 0 (omega arith) (omega arith)
              (omega arith) (omega arith)))
    ]
