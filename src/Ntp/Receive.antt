-- ===== src/Ntp/Receive.antt =====
-- When src/ntp.c's `ntp_recv_callback` accepts a packet, and what it records otherwise.
use picow_day_clock.Base.{ℕ, ◌/◌, ◌%◌, ◌≡◌, ◌≢◌, ◌↔◌, ◌⊎◌, List, some, arith, length, get_or}
use picow_day_clock.Ntp.{
  NtpState, ok, dns_error, protocol_error, kod, success, failed, ntp_msg_len, ntp_recv_callback,
  seconds_since_1900, seconds_since_1970,
}

-- A reply of the server that was asked: its address and port, a server packet of 48 bytes.
pub record IsReply (s : NtpState) (p : List ℕ) (addr port : ℕ) : Type 0 where
  pub from_server : addr ≡ s.ntp_server_address
  pub from_port : port ≡ s.ntp_port
  pub size : length p ≡ ntp_msg_len
  pub mode : get_or p 0 0 % 8 ≡ 4

-- A reply with the time: the server neither refuses (stratum 0) nor is unsynchronised (leap 3).
pub record IsTime (s : NtpState) (p : List ℕ) (addr port : ℕ) : Type 0 where
  pub reply : IsReply s p addr port
  pub no_kod : get_or p 1 0 ≢ 0
  pub synchronised : get_or p 0 0 / 64 % 4 ≢ 3

-- The time handler is called just for replies with the time, and with the time they hold.
pub ntp_recv_callback-IsTime :
    (s : NtpState) (p : List ℕ) (addr port t : ℕ)
    → ((ntp_recv_callback s p addr port).1 ≡ some t)
      ↔ (IsTime s p addr port × (t ≡ seconds_since_1970 (seconds_since_1900 p)))
unfolding ntp_recv_callback
ntp_recv_callback-IsTime s p addr port t = ground arith

-- A reply with the time is recorded as a success with no error, and everything but the status and
-- the error stays.
pub ntp_recv_callback-success :
    (s : NtpState) (p : List ℕ) (addr port : ℕ)
    → IsTime s p addr port
    → (ntp_recv_callback s p addr port).0 ≡ record s { status = success; error = ok }
unfolding ntp_recv_callback
ntp_recv_callback-success s p addr port h = ground arith

-- What is recorded of every packet. From another address: failed, with a DNS error. From the server
-- but no server packet of 48 bytes from the right port: failed, with a protocol error. A reply of
-- stratum 0: a kiss of death and no error. Any other unsynchronised reply: failed, with a protocol
-- error. A reply with the time: a success and no error. Nothing but the status and the error changes.
pub ntp_recv_callback_cases :
    (s : NtpState) (p : List ℕ) (addr port : ℕ)
    → let s' = (ntp_recv_callback s p addr port).0 in
      ((addr ≢ s.ntp_server_address) × (s' ≡ record s { status = failed; error = dns_error }))
      ⊎ ((addr ≡ s.ntp_server_address)
          × (¬ IsReply s p addr port)
          × (s' ≡ record s { status = failed; error = protocol_error }))
      ⊎ (IsReply s p addr port × (get_or p 1 0 ≡ 0) × (s' ≡ record s { status = kod; error = ok }))
      ⊎ (IsReply s p addr port
          × (get_or p 1 0 ≢ 0)
          × (get_or p 0 0 / 64 % 4 ≡ 3)
          × (s' ≡ record s { status = failed; error = protocol_error }))
      ⊎ (IsTime s p addr port × (s' ≡ record s { status = success; error = ok }))
unfolding ntp_recv_callback
ntp_recv_callback_cases s p addr port = ground arith
