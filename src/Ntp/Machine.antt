-- ===== src/Ntp/Machine.antt =====
-- The NTP request as a state machine: src/ntp.c's calls and callbacks, and the two acknowledgements
-- that `clock_task` of src/clock.c makes through `ntp_atomic_status`, in any order.
use picow_day_clock.Base.{ℕ, ◌≡◌, Bool, true, false, List, Option, refl, arith}
use picow_day_clock.Ntp.{
  NtpState, NtpStatus, idle, failed, null_status, NtpError, ok, dns_error, protocol_error,
  memory_error, null_error, Lwip, DnsStatus, ntp_atomic_status, ntp_dns_callback, ntp_recv_callback,
  ntp_init, ntp_request_async, ntp_start_udp_request,
}

-- What can happen to the client. `configure` is the write of the port in `clock_start`.
pub data Step (s : NtpState) : NtpState → Type 0 where
  configure : (port : ℕ) → Step s (record s { ntp_port = port })
  request :
      (server : List ℕ) (now_ms : ℕ) (dns : DnsStatus) (net : Lwip)
      → Step s (ntp_request_async s server now_ms dns net).1
  dns_reply : (addr : Option ℕ) (net : Lwip) → Step s (ntp_dns_callback s addr net).0
  datagram : (p : List ℕ) (addr port : ℕ) → Step s (ntp_recv_callback s p addr port).0
  acknowledge : Step s (ntp_atomic_status s idle null_error 0)

pub data Reach (s : NtpState) : NtpState → Type 0 where
  here : Reach s s
  next : {t u : NtpState} → Reach s t → Step t u → Reach s u

abbrev pub is_failure : NtpError → Bool
is_failure dns_error = true
is_failure protocol_error = true
is_failure memory_error = true
is_failure _ = false

-- A failed client has the reason, one at work or done has no error, and nothing is ever NULL. An
-- idle client may still show why the last request failed.
abbrev pub consistent : NtpStatus → NtpError → Bool
consistent failed e = is_failure e
consistent null_status e = false
consistent _ ok = true
consistent idle e = is_failure e
consistent _ e = false

abbrev pub IsConsistent : NtpState → Type 0
IsConsistent s = consistent s.status s.error ≡ true

start_udp_request-IsConsistent :
    (s : NtpState) (net : Lwip) → IsConsistent s → IsConsistent (ntp_start_udp_request s net).0
unfolding ntp_start_udp_request
start_udp_request-IsConsistent s net h = ground arith

-- Every call and callback keeps the status and the error consistent.
pub Step-IsConsistent : {s t : NtpState} → IsConsistent s → Step s t → IsConsistent t
unfolding ntp_request_async ntp_dns_callback ntp_recv_callback
Step-IsConsistent h (configure port) = h
Step-IsConsistent h (request server now_ms dns net) = ground arith
Step-IsConsistent h (dns_reply addr net) = ground arith
Step-IsConsistent h (datagram p addr port) = ground arith
Step-IsConsistent h acknowledge = ground arith

-- After `ntp_init` and any sequence of requests, DNS replies, datagrams and acknowledgements, in
-- any order, the status and error are consistent: `NTP_FAILED` comes with a DNS, protocol or memory
-- error, `NTP_PENDING`, `NTP_SUCCESS` and `NTP_KOD` with `NTP_OK`, and the NULL values never show.
pub Reach-IsConsistent :
    (has_pcb : Bool) {s : NtpState} → Reach (ntp_init has_pcb).1 s → IsConsistent s
unfolding ntp_init
Reach-IsConsistent has_pcb here = refl
Reach-IsConsistent has_pcb (next r st) = Step-IsConsistent (Reach-IsConsistent has_pcb r) st
