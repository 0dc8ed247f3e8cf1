-- ===== src/Ntp/Effects.antt =====
-- The calls that src/ntp.c makes on lwIP while it sends a request.
use picow_day_clock.Base.{
  ℕ, ◌+◌, ◌≡◌, ◌≢◌, ◌⊎◌, Bool, true, false, List, [], ◌∷◌, Option, some, none, arith, ◌-◌, ◌==◌,
  if◌then◌else◌,
}
use picow_day_clock.Ntp.{
  NtpState, ok, dns_error, Lwip, DnsStatus, dns_failed, Effect, lwip_begin, lwip_end, pbuf_alloc,
  pbuf_free, udp_sendto, dns_gethostbyname, pending, failed, ntp_dns_callback, ntp_request_async,
}

-- A monitor of the calls: whether the lwIP lock is held, and how many pbufs are allocated. It stops
-- at a call made without the lock, a second `begin`, or a free of nothing.
pub record Held : Type 0 where
  pub lock : Bool
  pub pbufs : ℕ

abbrev free_one : Held → Option Held
free_one h =
    if h.lock
    then (if h.pbufs == 0 then none else some (record h { pbufs = h.pbufs - 1 }))
    else none

abbrev pub monitor : Held → Effect → Option Held
monitor h lwip_begin = if h.lock then none else some (record h { lock = true })
monitor h lwip_end = if h.lock then some (record h { lock = false }) else none
monitor h pbuf_alloc = if h.lock then some (record h { pbufs = h.pbufs + 1 }) else none
monitor h pbuf_free = free_one h
monitor h (udp_sendto p addr port) = if h.lock then some h else none
monitor h (dns_gethostbyname name) = if h.lock then some h else none

abbrev pub monitor_all : Held → List Effect → Option Held
monitor_all h [] = some h
monitor_all h (e ∷ es) = elim (monitor h e) [ none ↦ none | some h' ↦ monitor_all h' es ]

abbrev pub nothing_held : Held
nothing_held = record { lock = false; pbufs = 0 }

-- Whatever DNS and lwIP answer, a request makes each call with the lwIP lock held, takes the lock
-- once at a time, and leaves it free with every allocated pbuf released.
pub ntp_request_async-monitor_all :
    (s : NtpState) (server : List ℕ) (now_ms : ℕ) (dns : DnsStatus) (net : Lwip)
    → monitor_all nothing_held (ntp_request_async s server now_ms dns net).2 ≡ some nothing_held
unfolding ntp_request_async
ntp_request_async-monitor_all s server now_ms dns net = ground arith

-- The same of the datagram that a DNS reply sends off.
pub ntp_dns_callback-monitor_all :
    (s : NtpState) (addr : Option ℕ) (net : Lwip)
    → monitor_all nothing_held (ntp_dns_callback s addr net).1 ≡ some nothing_held
unfolding ntp_dns_callback
ntp_dns_callback-monitor_all s addr net = ground arith

-- How a request ends. If DNS refuses at once, a DNS error is returned, and the request is left
-- pending. Otherwise none is returned, and the request is pending or, if the datagram could not be
-- sent, failed.
pub ntp_request_async-status :
    (s : NtpState) (server : List ℕ) (now_ms : ℕ) (dns : DnsStatus) (net : Lwip)
    → let r = ntp_request_async s server now_ms dns net in
      ((dns ≡ dns_failed) × (r.0 ≡ dns_error) × (r.1.status ≡ pending))
      ⊎ ((dns ≢ dns_failed) × (r.0 ≡ ok) × ((r.1.status ≡ pending) ⊎ (r.1.status ≡ failed)))
unfolding ntp_request_async
ntp_request_async-status s server now_ms dns net = ground arith

-- A request made at a millisecond count other than 0 records that count as its start. At count 0,
-- which a 32-bit count reaches again every 49.7 days, the start of the request before it stays.
pub request_start_ms-ntp_request_async :
    (s : NtpState) (server : List ℕ) (now_ms : ℕ) (dns : DnsStatus) (net : Lwip)
    → let start = (ntp_request_async s server now_ms dns net).1.request_start_ms in
      ((now_ms ≢ 0) × (start ≡ now_ms)) ⊎ ((now_ms ≡ 0) × (start ≡ s.request_start_ms))
unfolding ntp_request_async
request_start_ms-ntp_request_async s server now_ms dns net = ground arith
