-- ===== src/Ntp/Timestamp.antt =====
-- The timestamp of src/ntp.c's `ntp_recv_callback`: big-endian seconds since 1900, modulo 2 ^ 32.
use picow_day_clock.Base.{
  ℕ, ◌+◌, ◌/◌, ◌%◌, ◌^◌, ◌<◌, ◌≡◌, List, [], ◌∷◌, ◌++◌, arith, replicate, get_or,
}
use picow_day_clock.Ntp.{ntp_delta, seconds_since_1900, seconds_since_1970}

-- The timestamp that a server sends at a Unix time.
abbrev pub ntp_timestamp : ℕ → ℕ
ntp_timestamp unix = (unix + ntp_delta) % 2 ^ 32

-- A packet of 48 bytes with a 40 byte prefix and that timestamp in network order.
abbrev pub timestamp_bytes : ℕ → List ℕ
timestamp_bytes n = n / 2 ^ 24 % 256 ∷ n / 2 ^ 16 % 256 ∷ n / 2 ^ 8 % 256 ∷ n % 256 ∷ []

abbrev pub packet : ℕ → ℕ → ℕ → List ℕ
packet first_byte stratum unix =
    first_byte
    ∷ stratum
    ∷ (replicate 38 0 ++ (timestamp_bytes (ntp_timestamp unix) ++ replicate 4 0))

-- A packet that has that timestamp in its bytes 40 to 43, whatever the others are.
pub record IsStamped (p : List ℕ) (unix : ℕ) : Type 0 where
  pub first : get_or p 40 0 ≡ ntp_timestamp unix / 2 ^ 24 % 256
  pub second : get_or p 41 0 ≡ ntp_timestamp unix / 2 ^ 16 % 256
  pub third : get_or p 42 0 ≡ ntp_timestamp unix / 2 ^ 8 % 256
  pub fourth : get_or p 43 0 ≡ ntp_timestamp unix % 256

-- The decoded timestamp is the Unix time at which it was sent, from 1970 to 2106, over the change
-- of era in 2036.
pub seconds_since_1970-IsStamped :
    (p : List ℕ) (unix : ℕ)
    → unix < 2 ^ 32
    → IsStamped p unix
    → seconds_since_1970 (seconds_since_1900 p) ≡ unix
unfolding seconds_since_1970 seconds_since_1900
seconds_since_1970-IsStamped p unix h stamp =
    let n = ntp_timestamp unix in
    rw (stamp.first, stamp.second, stamp.third, stamp.fourth) (ground (arith, h))

-- Whatever the bytes of a packet are, the decoded time is a 32-bit number.
pub seconds_since_1970-lt : (p : List ℕ) → seconds_since_1970 (seconds_since_1900 p) < 2 ^ 32
unfolding seconds_since_1970 seconds_since_1900
seconds_since_1970-lt p = ground arith
