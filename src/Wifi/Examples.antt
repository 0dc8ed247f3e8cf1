-- ===== src/Wifi/Examples.antt =====
-- The theorems on `connect_to_wifi` of src/wifi.c at concrete answers of the driver.
use picow_day_clock.Base.{
  ℕ, zero, suc, ◌+◌, ◌≡◌, refl, arith, some, List, [], ◌∷◌, true, false, ◌++◌,
}
use picow_day_clock.Config.{WifiError}
use picow_day_clock.Wifi.{
  connected, timeout, bad_auth, Attempt, Effect, connect_to_wifi, enable_sta_mode, tried,
  sleep_before_retry,
}
use picow_day_clock.Wifi.Loop.{IsTimed, IsSome, connect_to_wifi-IsSome}
use picow_day_clock.Wifi.Verdict.{IsOutcome, connect_to_wifi-IsOutcome}

-- One timeout, one refusal, and then a connection in each attempt.
abbrev answers : ℕ → Attempt
answers zero = record { answer = timeout; elapsed_us = 10000000 }
answers (suc zero) = record { answer = bad_auth; elapsed_us = 12000000 }
answers (suc (suc i)) = record { answer = connected; elapsed_us = 14000000 }

answers-IsTimed : IsTimed answers
answers-IsTimed zero = omega arith
answers-IsTimed (suc zero) = omega arith
answers-IsTimed (suc (suc zero)) = omega arith
answers-IsTimed (suc (suc (suc i))) = omega arith

connect_to_wifi-IsSome_example : IsSome (connect_to_wifi (6 + 0) false true answers).0
connect_to_wifi-IsSome_example = connect_to_wifi-IsSome false true answers 0 answers-IsTimed

abbrev calls : List Effect
calls = enable_sta_mode ∷ (tried ++ ((tried ++ (sleep_before_retry ∷ [])) ++ tried))

joined : (connect_to_wifi 6 false true answers).0 ≡ some (WifiError.ok, calls)
unfolding connect_to_wifi
joined = refl

connect_to_wifi-IsOutcome_example : IsOutcome false true answers WifiError.ok
connect_to_wifi-IsOutcome_example =
    connect_to_wifi-IsOutcome 6 false true answers WifiError.ok calls joined
