-- ===== src/Boot/Main/Healthy.antt =====
-- A world in which nothing goes wrong for src/pico_main.c's `main`: the button is left alone, names are
-- found, packets are sent, and the server answers in time.

pub mod PowerOn
mod Examples
use picow_day_clock.Base.{
  ℕ, ◌+◌, ◌-◌, ◌/◌, ◌%◌, ◌^◌, ◌≤◌, ◌≡◌, ◌≢◌, ◌⊎◌, refl, subst, sym, Bool, true, false, List, [],
  ◌∷◌, Option, none, some, ltb, get_or, if◌then◌else◌, Bool-cases, inl, inr, arith,
}
use picow_day_clock.Ntp.{
  NtpState, NtpStatus, NtpError, Lwip, DnsStatus, ntp_request_async, ntp_start_udp_request,
  ntp_dns_callback, ntp_recv_callback, ntp_atomic_status, ntp_atomic_read,
}
use picow_day_clock.Ntp.Receive.{IsReply}
use picow_day_clock.Config.{PersistentState}
use picow_day_clock.Clock.{
  ClockState, Outcome, running, TaskInput, clock_timer_callback, ntp_timer_callback,
}
use picow_day_clock.Clock.Shows.{Returns}
use picow_day_clock.Clock.Task.{clock_task}
use picow_day_clock.Clock.Supervise.{dns_refuses, reset_error, after_sync}
use picow_day_clock.Boot.Main.{
  Interrupt, clock_timer, startup_led, dns_found, received, with_time, interrupt, interrupts, Round,
}
use picow_day_clock.Boot.Main.Kept.{Of, clock_task-Of}
use picow_day_clock.Boot.Main.Reboot.{Reason, error, asked, later, round_error}

-- lwIP has a pbuf and sends it.
abbrev pub Sends : Lwip → Type 0
Sends net = (net.has_pbuf ≡ true) × (net.send_err ≡ 0)

-- A callback that nothing goes wrong in: the button is not pressed, the name is found, and the packet
-- is a reply of the server that was asked, with the time or a kiss of death.
abbrev pub Calm : Interrupt → ClockState → Type 0
Calm (clock_timer pressed) s = pressed ≡ false
Calm startup_led s = Unit
Calm (dns_found none net) s = ⊥
Calm (dns_found (some addr) net) s = (addr ≢ 0) × Sends net
Calm (received packet addr port) s =
    IsReply s.ntp_state packet addr port
    × ((get_or packet 1 0 ≡ 0) ⊎ (get_or packet 0 0 / 64 % 4 ≢ 3))

abbrev pub CalmAll : List Interrupt → ClockState → ℕ → Type 0
CalmAll [] s held = Unit
CalmAll (i ∷ is) s held = let called = interrupt i s held in Calm i s × CalmAll is called.0 called.1

-- No request waits longer than the configured time, and a new one can be made.
abbrev pub InTime : ClockState → TaskInput → Type 0
InTime s input =
    (s.ntp_state.status ≡ NtpStatus.pending
      → (input.now_ms + 2 ^ 32 - s.ntp_state.request_start_ms) % 2 ^ 32
        ≤ s.flash_config.ntp_timeout)
    × (dns_refuses input.dns ≡ false)
    × Sends input.net

-- Rounds of the loop in which all this holds.
abbrev pub Healthy : PersistentState → List Round → ClockState → ℕ → Type 0
Healthy p [] s held = Unit
Healthy p (r ∷ rs) s held =
    let called = interrupts r.before s held in
    CalmAll r.before s held
    × InTime called.0 r.input
    × Returns (λ t. Healthy p rs t called.1) (clock_task p called.0 r.input).0

-- No access point is asked for, and the client has not failed.
abbrev pub Works : Bool → NtpState → Type 0
Works asks n = (asks ≡ false) × (n.status ≢ NtpStatus.failed)

pub ntp_request_async-Works :
    (a : Bool) (n : NtpState) (server : List ℕ) (now_ms : ℕ) (dns : DnsStatus) (net : Lwip)
    → Sends net
    → Works a n
    → Works a (ntp_request_async n server now_ms dns net).1
unfolding ntp_request_async ntp_start_udp_request ntp_atomic_status
ntp_request_async-Works a n server now_ms dns net sends h = (h.0, ground arith)

ntp_dns_callback-Works :
    (a : Bool) (n : NtpState) (addr : ℕ) (net : Lwip)
    → addr ≢ 0
    → Sends net
    → Works a n
    → Works a (ntp_dns_callback n (some addr) net).0
unfolding ntp_dns_callback ntp_start_udp_request ntp_atomic_status
ntp_dns_callback-Works a n addr net known sends h = (h.0, ground arith)

ntp_recv_callback-Works :
    (a : Bool) (n : NtpState) (packet : List ℕ) (addr port : ℕ)
    → IsReply n packet addr port
    → (get_or packet 1 0 ≡ 0) ⊎ (get_or packet 0 0 / 64 % 4 ≢ 3)
    → Works a n
    → Works a (ntp_recv_callback n packet addr port).0
unfolding ntp_recv_callback ntp_atomic_status
ntp_recv_callback-Works a n packet addr port reply good h = (h.0, ground arith)

with_time-Works : (s : ClockState) (time : Option ℕ) → Of Works s → Of Works (with_time time s)
unfolding ntp_timer_callback
with_time-Works s none h = h
with_time-Works s (some time) h = h

interrupt-Works :
    (i : Interrupt) (s : ClockState) (held : ℕ)
    → Calm i s
    → Of Works s
    → Of Works (interrupt i s held).0
unfolding interrupt clock_timer_callback
interrupt-Works (clock_timer true) s held calm h = absurd (cc)
interrupt-Works (clock_timer false) s held calm h = h
interrupt-Works startup_led s held calm h = h
interrupt-Works (dns_found none net) s held calm h = absurd calm
interrupt-Works (dns_found (some addr) net) s held calm h =
    ntp_dns_callback-Works s.ap_mode_triggered s.ntp_state addr net calm.0 calm.1 h
interrupt-Works (received packet addr port) s held calm h =
    let r = ntp_recv_callback s.ntp_state packet addr port in
    with_time-Works (record s { ntp_state = r.0 }) r.1
      (ntp_recv_callback-Works s.ap_mode_triggered s.ntp_state packet addr port calm.0 calm.1 h)

interrupts-Works :
    (is : List Interrupt) (s : ClockState) (held : ℕ)
    → CalmAll is s held
    → Of Works s
    → Of Works (interrupts is s held).0
unfolding interrupts
interrupts-Works [] s held calm h = h
interrupts-Works (i ∷ is) s held calm h =
    let called = interrupt i s held in
    interrupts-Works is called.0 called.1 calm.1 (interrupt-Works i s held calm.0 h)

-- A client that has not failed and is answered in time gives no error.
reset_error-none :
    (st : NtpStatus) (e : NtpError) (start : ℕ) (s : ClockState) (input : TaskInput)
    → st ≢ NtpStatus.failed
    → (st ≡ NtpStatus.pending
        → (input.now_ms + 2 ^ 32 - start) % 2 ^ 32 ≤ s.flash_config.ntp_timeout)
    → dns_refuses input.dns ≡ false
    → reset_error st (record { error = e; status = st; request_start_ms = start }) s input ≡ none
reset_error-none NtpStatus.pending e start s input works intime found =
    let prompt = intime refl in ground (arith, prompt)
reset_error-none NtpStatus.failed e start s input works intime found = absurd (works refl)
reset_error-none NtpStatus.idle e start s input works intime found = ground arith
reset_error-none NtpStatus.kod e start s input works intime found = refl
reset_error-none NtpStatus.success e start s input works intime found = refl
reset_error-none NtpStatus.null_status e start s input works intime found = refl

if-none : {A : Type 0} (b : Bool) (x : Option A) → x ≡ none → (if b then x else none) ≡ none
if-none true x h = h
if-none false x h = refl

round_error-none :
    (s : ClockState) (input : TaskInput) → Of Works s → InTime s input → round_error s input ≡ none
round_error-none s input works (intime, found, sends) =
    let n = s.ntp_state in
    if-none s.clock_tick_updated
      (reset_error n.status (ntp_atomic_read n) (after_sync s input.sync_now) input)
      (reset_error-none n.status n.error n.request_start_ms (after_sync s input.sync_now) input
        works.1 intime found)

clock_task-Works :
    (p : PersistentState) (s : ClockState) (input : TaskInput)
    → Sends input.net
    → Of Works s
    → Returns (Of Works) (clock_task p s input).0
unfolding ntp_atomic_status
clock_task-Works p s input sends h =
    clock_task-Of Works p s input
      (λ a n server k. ntp_request_async-Works a n server input.now_ms input.dns input.net sends k)
      (λ a n k. (k.0, ground arith)) h

-- Rounds in which nothing goes wrong have no reason for a reboot.
pub Healthy-Reason :
    (p : PersistentState) (rs : List Round) (s : ClockState) (held : ℕ)
    → Healthy p rs s held
    → Of Works s
    → ¬ Reason p rs s held
Healthy-Reason p [] s held healthy works h = elim h [ ]
Healthy-Reason p (r ∷ rs) s held healthy works (error e h) =
    let called = (interrupts r.before s held).0 in
    let kept = interrupts-Works r.before s held healthy.0 works in
    let fine : round_error called r.input ≡ none = round_error-none called r.input kept healthy.1 in
    absurd (cc)
Healthy-Reason p (r ∷ rs) s held healthy works (asked h) =
    let kept = interrupts-Works r.before s held healthy.0 works in let quiet = kept.0 in absurd (cc)
Healthy-Reason p (r ∷ rs) s held healthy works (later t h reason) =
    let called = interrupts r.before s held in
    let kept = interrupts-Works r.before s held healthy.0 works in
    Healthy-Reason p rs t called.1 (subst (Returns (λ u. Healthy p rs u called.1)) h healthy.2)
      (subst (Returns (Of Works)) h (clock_task-Works p called.0 r.input healthy.1.2 kept)) reason
