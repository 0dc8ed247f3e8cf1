-- ===== src/Ntp/Examples.antt =====
-- The theorems on the NTP client of src/ntp.c at concrete packets.
use picow_day_clock.Base.{ℕ, ◌/◌, ◌%◌, ◌≡◌, ◌≢◌, ◌⊎◌, refl, some, List, true, get_or, codes}
use picow_day_clock.Ntp.{
  NtpState, pending, failed, kod, success, ok, dns_error, protocol_error, resolved, in_progress,
  Lwip, ntp_init, ntp_recv_callback, ntp_request_async,
}
use picow_day_clock.Ntp.Timestamp.{packet}
use picow_day_clock.Ntp.Receive.{IsReply, IsTime, ntp_recv_callback_cases}
use picow_day_clock.Ntp.Machine.{request, datagram, here, next, IsConsistent, Reach-IsConsistent}
use picow_day_clock.Ntp.Effects.{
  nothing_held, monitor_all, ntp_request_async-monitor_all, request_start_ms-ntp_request_async,
}

-- A client with a request to 10.0.0.1 under way.
abbrev waiting : NtpState
waiting = record {
  ntp_port = 123;
  ntp_server_address = 0x0a000001;
  ntp_pcb = true;
  request_start_ms = 5000;
  error = ok;
  status = pending;
}

-- A server packet of stratum 2, sent in September 2025.
abbrev reply : List ℕ
reply = packet 0x24 2 1758000000

abbrev net : Lwip
net = record { has_pbuf = true; send_err = 0 }

reply_read : (ntp_recv_callback waiting reply 0x0a000001 123).1 ≡ some 1758000000
unfolding ntp_recv_callback
reply_read = refl

ntp_recv_callback_cases_example :
    let s' = (ntp_recv_callback waiting reply 0x0a000002 123).0 in
    let addr : ℕ = 0x0a000002 in
    ((addr ≢ 0x0a000001) × (s' ≡ record waiting { status = failed; error = dns_error }))
    ⊎ ((addr ≡ 0x0a000001)
        × (¬ IsReply waiting reply 0x0a000002 123)
        × (s' ≡ record waiting { status = failed; error = protocol_error }))
    ⊎ (IsReply waiting reply 0x0a000002 123
        × (get_or reply 1 0 ≡ 0)
        × (s' ≡ record waiting { status = kod; error = ok }))
    ⊎ (IsReply waiting reply 0x0a000002 123
        × (get_or reply 1 0 ≢ 0)
        × (get_or reply 0 0 / 64 % 4 ≡ 3)
        × (s' ≡ record waiting { status = failed; error = protocol_error }))
    ⊎ (IsTime waiting reply 0x0a000002 123 × (s' ≡ record waiting { status = success; error = ok }))
ntp_recv_callback_cases_example = ntp_recv_callback_cases waiting reply 0x0a000002 123

abbrev started : NtpState
started = (ntp_init true).1

abbrev asked : NtpState
asked = (ntp_request_async started (codes "pool.ntp.org") 1000 (resolved 0x0a000001) net).1

abbrev answered : NtpState
answered = (ntp_recv_callback asked reply 0x0a000001 0).0

Reach-IsConsistent_example : IsConsistent answered
Reach-IsConsistent_example = Reach-IsConsistent true (
    next (next here (request (codes "pool.ntp.org") 1000 (resolved 0x0a000001) net))
      (datagram reply 0x0a000001 0))

ntp_request_async-monitor_all_example :
    monitor_all nothing_held
      (ntp_request_async waiting (codes "pool.ntp.org") 9000 (resolved 0x0a000001) net).2
    ≡ some nothing_held
ntp_request_async-monitor_all_example =
    ntp_request_async-monitor_all waiting (codes "pool.ntp.org") 9000 (resolved 0x0a000001) net

request_start_ms-ntp_request_async_example :
    let start =
      (ntp_request_async waiting (codes "pool.ntp.org") 0 in_progress net).1.request_start_ms in
    let zero_count : ℕ = 0 in ((zero_count ≢ 0) × (start ≡ 0)) ⊎ ((zero_count ≡ 0) × (start ≡ 5000))
request_start_ms-ntp_request_async_example =
    request_start_ms-ntp_request_async waiting (codes "pool.ntp.org") 0 in_progress net
