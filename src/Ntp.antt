-- ===== src/Ntp.antt =====
-- The NTP client of src/ntp.c. lwIP is not part of the repository: what `pbuf_alloc`, `udp_sendto`,
-- `dns_gethostbyname` and `udp_new_ip_type` answer are arguments, and the calls made on it are a list
-- of effects, in order. A received datagram is the list of its bytes. `time_handler` is always the
-- clock's `ntp_timer_callback`: the time passed to it is returned, and `Clock` applies the callback.
pub mod Timestamp
pub mod Receive
pub mod Machine
pub mod Effects
mod Examples
use picow_day_clock.Base.{
  ℕ, ◌+◌, ◌-◌, ◌*◌, ◌/◌, ◌%◌, ◌^◌, Bool, true, false, not, ◌&&◌, ◌||◌, List, [], ◌∷◌, ◌++◌, Option,
  none, some, ltb, ◌==◌, length, get_or, replicate, if◌then◌else◌,
}

-- `ntp_error_t`
pub data NtpError : Type 0 where
  ok init_error dns_error timeout_error protocol_error memory_error null_error : NtpError

-- `ntp_status_t`
pub data NtpStatus : Type 0 where
  idle kod success pending failed null_status : NtpStatus

-- `ntp_state_t`, but for the two pointers that `ntp_init` sets once. `ntp_pcb` is whether it is set.
pub record NtpState : Type 0 where
  pub ntp_port : ℕ
  pub ntp_server_address : ℕ
  pub ntp_pcb : Bool
  pub request_start_ms : ℕ
  pub error : NtpError
  pub status : NtpStatus

-- `ntp_atomic_state_t`
pub record NtpAtomicState : Type 0 where
  pub error : NtpError
  pub status : NtpStatus
  pub request_start_ms : ℕ

-- Calls on lwIP.
pub data Effect : Type 0 where
  lwip_begin lwip_end : Effect
  pbuf_alloc pbuf_free : Effect
  udp_sendto : List ℕ → ℕ → ℕ → Effect
  dns_gethostbyname : List ℕ → Effect

-- What `dns_gethostbyname` answers: ERR_OK with the address stored, ERR_INPROGRESS, or an error.
pub data DnsStatus : Type 0 where
  resolved : ℕ → DnsStatus
  in_progress dns_failed : DnsStatus

-- How lwIP answers a request: whether a pbuf can be had, and the result of `udp_sendto`.
pub record Lwip : Type 0 where
  pub has_pbuf : Bool
  pub send_err : ℕ

abbrev pub ntp_msg_len : ℕ
ntp_msg_len = 48

abbrev pub ntp_delta : ℕ
ntp_delta = 2208988800

abbrev or_old_status : NtpStatus → NtpStatus → NtpStatus
or_old_status null_status old = old
or_old_status s old = s

abbrev or_old_error : NtpError → NtpError → NtpError
or_old_error null_error old = old
or_old_error e old = e

-- The writes of `ntp_atomic_status`.
unfoldable pub ntp_atomic_status : NtpState → NtpStatus → NtpError → ℕ → NtpState
ntp_atomic_status s status error ms = record s {
  status = or_old_status status s.status;
  error = or_old_error error s.error;
  request_start_ms = if ms == 0 then s.request_start_ms else ms;
}

-- What `ntp_atomic_status` copies out through a pointer that is not NULL.
abbrev pub ntp_atomic_read : NtpState → NtpAtomicState
ntp_atomic_read s = record {
  error = s.error;
  status = s.status;
  request_start_ms = s.request_start_ms;
}

-- The request: 48 bytes, the first of them 0x1b.
abbrev pub request_payload : List ℕ
request_payload = 0x1b ∷ replicate 47 0

unfoldable pub ntp_start_udp_request : NtpState → Lwip → NtpState × List Effect
unfolding ntp_atomic_status
ntp_start_udp_request s net =
    let send = udp_sendto request_payload s.ntp_server_address s.ntp_port in
    if not net.has_pbuf
    then (ntp_atomic_status s failed memory_error 0, lwip_begin ∷ lwip_end ∷ [])
    else if not (net.send_err == 0)
    then (
      ntp_atomic_status s failed protocol_error 0,
      lwip_begin ∷ pbuf_alloc ∷ send ∷ pbuf_free ∷ lwip_end ∷ [],
    )
    else (s, lwip_begin ∷ pbuf_alloc ∷ send ∷ pbuf_free ∷ lwip_end ∷ [])

-- `none` is a NULL `ipaddr`.
unfoldable pub ntp_dns_callback : NtpState → Option ℕ → Lwip → NtpState × List Effect
unfolding ntp_start_udp_request
ntp_dns_callback s none net = (ntp_atomic_status s failed dns_error 0, [])
ntp_dns_callback s (some addr) net =
    if not (addr == 0)
    then ntp_start_udp_request (record s { ntp_server_address = addr }) net
    else (ntp_atomic_status s failed dns_error 0, [])

-- `seconds_since_1900` of the four bytes at 40.
unfoldable pub seconds_since_1900 : List ℕ → ℕ
seconds_since_1900 p =
    (get_or p 40 0 * 2 ^ 24 + get_or p 41 0 * 2 ^ 16 + get_or p 42 0 * 2 ^ 8 + get_or p 43 0)
    % 2 ^ 32

-- `seconds_since_1970`: below NTP_DELTA the timestamp is of era 1.
unfoldable pub seconds_since_1970 : ℕ → ℕ
seconds_since_1970 seconds =
    if ltb seconds ntp_delta then seconds + 0x100000000 - ntp_delta else seconds - ntp_delta

-- The new state, and the time given to `time_handler` if it is called. `pbuf_get_at` past the end
-- gives 0, and the header bits are `& 0x07` and `>> 6 & 0x03` of the first byte.
unfoldable pub ntp_recv_callback : NtpState → List ℕ → ℕ → ℕ → NtpState × Option ℕ
unfolding ntp_atomic_status seconds_since_1900 seconds_since_1970
ntp_recv_callback s p addr port =
    let first_byte = get_or p 0 0 in
    let mode = first_byte % 8 in
    let leap = first_byte / 64 % 4 in
    let stratum = get_or p 1 0 in
    let addrs_valid = addr == s.ntp_server_address in
    let response_valid = port == s.ntp_port && length p == ntp_msg_len && mode == 4 in
    let packet_valid = addrs_valid && response_valid in
    if not addrs_valid
    then (ntp_atomic_status s failed dns_error 0, none)
    else if not packet_valid
    then (ntp_atomic_status s failed protocol_error 0, none)
    else if stratum == 0
    then (ntp_atomic_status s kod ok 0, none)
    else if leap == 3
    then (ntp_atomic_status s failed protocol_error 0, none)
    else (ntp_atomic_status s success ok 0, some (seconds_since_1970 (seconds_since_1900 p)))

-- The state before the call is overwritten with zeros. The result is whether a PCB could be had.
unfoldable pub ntp_init : Bool → Bool × NtpState
ntp_init has_pcb = (
  has_pcb,
  record {
    ntp_port = 0;
    ntp_server_address = 0;
    ntp_pcb = has_pcb;
    request_start_ms = 0;
    error = ok;
    status = idle;
  },
)

-- After `dns_gethostbyname` was called with the given server name at the time `now_ms`.
unfoldable pub ntp_request_async :
    NtpState → List ℕ → ℕ → DnsStatus → Lwip → NtpError × NtpState × List Effect
unfolding ntp_start_udp_request
ntp_request_async s ntp_server now_ms dns net =
    let s' = ntp_atomic_status s pending ok now_ms in
    let query = lwip_begin ∷ dns_gethostbyname ntp_server ∷ lwip_end ∷ [] in
    elim dns [
      | resolved addr ↦
          let (sent, effects) =
            ntp_start_udp_request (record s' { ntp_server_address = addr }) net in
          (ok, sent, query ++ effects)
      | in_progress ↦ (ok, s', query)
      | dns_failed ↦ (dns_error, s', query)
    ]
