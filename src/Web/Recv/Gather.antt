-- ===== src/Web/Recv/Gather.antt =====
-- How src/wifi.c's `tcp_server_recv` gathers a request: the buffer is never overrun, and it does not
-- matter how the request is cut into packets while it is incomplete.
use picow_day_clock.Base.{
  ℕ, zero, suc, ◌-◌, ◌≤◌, ◌<◌, ◌≡◌, refl, sym, ap, ◌∙◌, Bool, true, false, List, [], ◌∷◌, ◌++◌,
  Option, none, some, arith, leb, ◌==◌, ◌||◌, length, take, drop, min, codes, if◌then◌else◌, All,
  length-append, length-take, Bool-cases, inl, inr,
}
use mathlib.Core.List.{append_assoc}
use picow_day_clock.Config.{FlashConfig}
use picow_day_clock.Web.CString.{c_str, starts_with}
use picow_day_clock.Web.Pool.{err_ok}
use picow_day_clock.Web.Recv.{
  tcp_ip_buffer_size, Session, tcp_recved, Result, Context, close_connection, gather, Readiness,
  refused, incomplete, ready, readiness, is_post, answer_post, route_post, response_redirect_header,
  route_page, route_redirect, route, process_ready, process, tcp_server_recv,
}

length-c_str : (s : List ℕ) → length (c_str s) ≤ length s
unfolding c_str
length-c_str [] = omega arith
length-c_str (c ∷ s) = ground (arith, length-c_str s)

length-gather :
    (headers packet : List ℕ)
    → length headers < tcp_ip_buffer_size
    → length (gather headers packet) < tcp_ip_buffer_size
unfolding gather
length-gather headers packet h =
    let n = min (length packet) (tcp_ip_buffer_size - length headers - 1) in
    omega (
      arith,
      h,
      length-append headers (c_str (take n packet)),
      length-c_str (take n packet),
      length-take n packet,
    )

-- The text in `headers` is shorter than the buffer.
abbrev Fits : Result → Type 0
Fits r = length r.1.headers < tcp_ip_buffer_size

Fits-if : (b : Bool) (q r : Result) → Fits q → Fits r → Fits (if b then q else r)
Fits-if true q r h k = h
Fits-if false q r h k = k

module _ (x : Context) (s : Session) where
  close_connection-Fits : (e : _) → Fits (close_connection x s e)
  unfolding close_connection
  close_connection-Fits e = omega arith

  answer_post-Fits :
      (config : Option FlashConfig)
      → length s.headers < tcp_ip_buffer_size
      → Fits (answer_post x s config)
  unfolding answer_post
  answer_post-Fits none h = h
  answer_post-Fits (some config) h = Fits-if (x.saved config) _ _ h h

  route_post-Fits :
      (text : Option (List ℕ)) → length s.headers < tcp_ip_buffer_size → Fits (route_post x s text)
  unfolding route_post
  route_post-Fits none h = answer_post-Fits _ h
  route_post-Fits (some text) h =
      Fits-if (leb tcp_ip_buffer_size (length (drop 4 text))) _ _ (close_connection-Fits _)
        (answer_post-Fits _ h)

  route_redirect-Fits : Fits (route_redirect x s)
  unfolding route_redirect
  route_redirect-Fits =
      elim (Bool-cases (leb tcp_ip_buffer_size (length (response_redirect_header x.gw)))) [
        | inl e ↦ rw e (close_connection-Fits _)
        | inr e ↦ rw e (ground (arith, e))
      ]

  route-Fits : (request : List ℕ) → length s.headers < tcp_ip_buffer_size → Fits (route x s request)
  unfolding route route_page
  route-Fits request h = Fits-if (is_post request) _ _ (route_post-Fits _ h) (
      Fits-if
        (starts_with request (codes "GET /clock-config") || starts_with request (codes "GET / ")) _
        _ (omega arith) route_redirect-Fits)

  process_ready-Fits :
      (r : Readiness) → length s.headers < tcp_ip_buffer_size → Fits (process_ready x s r)
  process_ready-Fits refused h = close_connection-Fits _
  process_ready-Fits incomplete h = h
  process_ready-Fits ready h = route-Fits s.headers h

  process-Fits : length s.headers < tcp_ip_buffer_size → Fits (process x s)
  unfolding process
  process-Fits h = process_ready-Fits (readiness s.headers) h

-- Whatever arrives, in whatever state, the text in `headers` stays shorter than its buffer.
pub tcp_server_recv_bounded :
    (x : Context) (s : Session) (packet : Option (List ℕ))
    → length s.headers < tcp_ip_buffer_size
    → length (tcp_server_recv x s packet).1.headers < tcp_ip_buffer_size
unfolding tcp_server_recv
tcp_server_recv_bounded x s none h = close_connection-Fits x s _
tcp_server_recv_bounded x s (some packet) h =
    Fits-if (length packet == 0) _ _ (process-Fits x s h) (
      process-Fits x (record s { headers = gather s.headers packet })
        (length-gather s.headers packet h))

-- No NUL.
abbrev pub IsText : List ℕ → Type 0
IsText = All (λ c. (c == 0) ≡ false)

c_str-append : (s t : List ℕ) → IsText s → c_str (s ++ t) ≡ s ++ c_str t
unfolding c_str
c_str-append [] t h = refl
c_str-append (c ∷ s) t h = rw h.0 (ap (λ l. c ∷ l) (c_str-append s t h.1))

IsText-take : (n : ℕ) (s : List ℕ) → IsText s → IsText (take n s)
IsText-take zero s h = tt
IsText-take (suc n) [] h = tt
IsText-take (suc n) (c ∷ s) h = (h.0, IsText-take n s h.1)

take-append : (n : ℕ) (s t : List ℕ) → take n (s ++ t) ≡ take n s ++ take (n - length s) t
take-append zero [] t = refl
take-append zero (c ∷ s) t = let e : 0 - suc (length s) ≡ 0 = omega arith in rw e refl
take-append (suc n) [] t = let e : suc n - 0 ≡ suc n = omega arith in rw e refl
take-append (suc n) (c ∷ s) t =
    let e : suc n - suc (length s) ≡ n - length s = omega arith in
    rw e (ap (λ l. c ∷ l) (take-append n s t))

pub take-all : (n : ℕ) (s : List ℕ) → length s ≤ n → take n s ≡ s
take-all zero [] h = refl
take-all zero (c ∷ s) h = absurd (omega arith)
take-all (suc n) [] h = refl
take-all (suc n) (c ∷ s) h = ap (λ l. c ∷ l) (take-all n s (omega arith))

pub take-min : (n : ℕ) (s : List ℕ) → take (min (length s) n) s ≡ take n s
take-min n s = elim (Bool-cases (leb (length s) n)) [
  | inl e ↦
      let m : min (length s) n ≡ length s = ground (arith, e) in
      rw m (take-all (length s) s (omega arith) ∙ sym (take-all n s (ground (arith, e))))
  | inr e ↦ let m : min (length s) n ≡ n = ground (arith, e) in rw m refl
]

pub c_str_text : (s : List ℕ) → IsText s → c_str s ≡ s
unfolding c_str
c_str_text [] h = refl
c_str_text (c ∷ s) h = rw h.0 (ap (λ l. c ∷ l) (c_str_text s h.1))

gather-append :
    (headers a b : List ℕ) → IsText a → gather (gather headers a) b ≡ gather headers (a ++ b)
unfolding gather
gather-append headers a b h =
    let n = tcp_ip_buffer_size - length headers - 1 in
    let here : c_str (take (min (length a) n) a) ≡ take n a =
      ap c_str (take-min n a) ∙ c_str_text (take n a) (IsText-take n a h) in
    let size = length-append headers (take n a) in
    let left : tcp_ip_buffer_size - length (headers ++ take n a) - 1 ≡ n - length a =
      omega (arith, size, length-take n a) in
    let whole : c_str (take (min (length (a ++ b)) n) (a ++ b))
        ≡ take n a ++ c_str (take (n - length a) b) =
      ap c_str (take-min n (a ++ b) ∙ take-append n a b)
      ∙ c_str-append (take n a) (take (n - length a) b) (IsText-take n a h) in
    rw (here, whole, left)
      (append_assoc headers (take n a) _
        ∙ ap (λ l. headers ++ (take n a ++ c_str l)) (take-min (n - length a) b))

-- A packet that leaves the request incomplete only adds to the text, and the next packet then has the
-- result that both have when they come as one: the same answer, server, text and flag, and the same
-- calls but for the acknowledgement of the bytes; if the first packet has no NUL and neither is empty.
pub tcp_server_recv_split :
    (x : Context) (s : Session) (a b : List ℕ)
    → IsText a
    → 0 < length a
    → 0 < length b
    → readiness (gather s.headers a) ≡ incomplete
    → let first = tcp_server_recv x s (some a) in
      let second = tcp_server_recv x first.1 (some b) in
      let whole = tcp_server_recv x s (some (a ++ b)) in
      (first
        ≡ (err_ok, record s { headers = gather s.headers a }, tcp_recved x.pcb (length a) ∷ []))
      × (second.0 ≡ whole.0)
      × (second.1 ≡ whole.1)
      × (drop 1 second.2 ≡ drop 1 whole.2)
unfolding tcp_server_recv process
tcp_server_recv_split x s a b text some_a some_b waits =
    let not_empty_a : (length a == 0) ≡ false = ground (arith, some_a) in
    let not_empty_b : (length b == 0) ≡ false = ground (arith, some_b) in
    let not_empty : (length (a ++ b) == 0) ≡ false = ground (arith, some_a, length-append a b) in
    rw (not_empty_a, not_empty_b, not_empty, waits, gather-append s.headers a b text)
      (refl, refl, refl, refl)
