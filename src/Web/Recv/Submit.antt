-- ===== src/Web/Recv/Submit.antt =====
-- A form that is submitted to src/wifi.c's `tcp_server_recv`: a POST with a `Content-Length` line and a
-- body of that length, and one that is cut within that line.
use picow_day_clock.Base.{
  ℕ, suc, Bool, true, Option, Bool-cases, inl, inr, ◌-◌, ◌≤◌, ◌<◌, ◌≡◌, refl, ap, sym, subst, ◌∙◌,
  false, List, [], ◌∷◌, ◌++◌, none, some, arith, leb, ◌==◌, ◌||◌, length, take, drop, codes, All,
  length-append,
}
use picow_day_clock.Base.Int.{pos, ltb_ℤ}
use picow_day_clock.Web.CString.{c_str, starts_with, strstr}
use picow_day_clock.Web.Number.{digit_text, value_from, parse_long_bounded-digit_text}
use picow_day_clock.Web.Params.{posted_config}
use picow_day_clock.Config.{FlashConfig}
use picow_day_clock.Web.Pool.{err_ok, err_val}
use picow_day_clock.Web.Recv.{
  tcp_ip_buffer_size, int_max, crlf, blank_line, Session, Result, tcp_recved, tcp_write, tcp_output,
  store_config, Context, close_connection, gather, length_in_line, content_length, ready, refused,
  readiness, answer_post, route_post, route, process, prefixed, tcp_server_recv,
}
use picow_day_clock.Web.Recv.Gather.{IsText, c_str_text, take-min, take-all}
use picow_day_clock.Web.Recv.Request.{
  Without, IsLine, IsOther, length_key, line_text, request_line, length_line, post_request,
  cut_request, append_assoc, append_nil, strstr_skip, strstr_here, strstr-lines, digit_text-Without,
  take_front, in_range, length-digit_text, after_length, post_request_lem, post_request-blank_line,
}

-- The end of the line with the length.
strstr-length_end :
    (digits rest : List ℕ) → strstr (length_line digits ++ rest) crlf ≡ strstr rest crlf
strstr-length_end digits rest =
    let key : Without 13 length_key = ground arith in
    ap (λ x. strstr x crlf) (append_assoc length_key (digit_text digits) rest)
    ∙ strstr_skip length_key (digit_text digits ++ rest) 13 (10 ∷ []) key
    ∙ strstr_skip (digit_text digits) rest 13 (10 ∷ []) (digit_text-Without 13 digits (omega arith))

module _ (path : List ℕ) (before : List (List ℕ)) (digits : List ℕ)
    (head : All IsOther (request_line path ∷ before)) where
  strstr-length_key :
      (rest : List ℕ)
      → strstr (line_text (request_line path ∷ before) ++ (length_line digits ++ rest)) length_key
        ≡ some (length_line digits ++ rest)
  strstr-length_key rest =
      strstr-lines (request_line path ∷ before) (length_line digits ++ rest) head
      ∙ ap (λ x. strstr x length_key) (append_assoc length_key (digit_text digits) rest)
      ∙ strstr_here b'C' (codes "ontent-Length: ") (digit_text digits ++ rest)
      ∙ ap some (sym (append_assoc length_key (digit_text digits) rest))

  content_length-cut : content_length (cut_request path before digits) ≡ none
  unfolding content_length length_in_line strstr starts_with
  content_length-cut =
      let line = length_line digits in
      let found : strstr (line_text (request_line path ∷ before) ++ line) length_key ≡ some line =
        subst (λ x. strstr (line_text (request_line path ∷ before) ++ x) length_key ≡ some x)
          (append_nil line) (strstr-length_key []) in
      let endless : strstr line crlf ≡ none =
        subst (λ x. strstr x crlf ≡ none) (append_nil line) (strstr-length_end digits []) in
      rw (found, endless) refl

  -- A request that is cut there is refused.
  readiness-cut : readiness (cut_request path before digits) ≡ refused
  unfolding readiness starts_with
  readiness-cut = rw content_length-cut refl

-- A form in one packet: a request line and headers before the length that do not have its key in them,
-- other headers after it, the length of the body in at most 15 decimal digits, no NUL, and less text
-- than the buffer takes.
pub record IsForm (path : List ℕ) (before : List (List ℕ)) (d : ℕ) (ds : List ℕ)
    (others : List (List ℕ)) (body : List ℕ) : Type 0 where
  pub head : All IsOther (request_line path ∷ before)
  pub lines : All IsLine others
  pub decimal : All (λ c. c < 10) (d ∷ ds)
  pub short : length ds < 15
  pub size : value_from 0 (d ∷ ds) ≡ length body
  pub text : IsText (post_request path before (d ∷ ds) others body)
  pub fits : length (post_request path before (d ∷ ds) others body) < tcp_ip_buffer_size

suffix_le : (s t : List ℕ) → length t ≤ length (s ++ t)
suffix_le s t = omega (arith, length-append s t)

module _ (path : List ℕ) (before : List (List ℕ)) (d : ℕ) (ds : List ℕ) (others : List (List ℕ))
    (body : List ℕ) (form : IsForm path before d ds others body) where
  abbrev request : List ℕ
  request = post_request path before (d ∷ ds) others body

  body_fits : length body < tcp_ip_buffer_size
  body_fits =
      let head = line_text (request_line path ∷ before) in
      let line = line_text (length_line (d ∷ ds) ∷ others) in
      omega (
        arith,
        form.fits,
        suffix_le head (line ++ (crlf ++ body)),
        suffix_le line (crlf ++ body),
        suffix_le crlf body,
      )

  content_length-whole : content_length request ≡ some (pos (length body))
  unfolding content_length length_in_line
  content_length-whole =
      let rest = after_length others body in
      let line = length_line (d ∷ ds) in
      let digits = digit_text (d ∷ ds) in
      let found : strstr request length_key ≡ some (line ++ rest) =
        ap (λ x. strstr x length_key) (post_request_lem path before (d ∷ ds) others body)
        ∙ strstr-length_key path before (d ∷ ds) form.head rest in
      let end : strstr (line ++ rest) crlf ≡ some rest =
        strstr-length_end (d ∷ ds) rest
        ∙ strstr_here 13 (10 ∷ []) (line_text others ++ (crlf ++ body)) in
      let raw : drop 16 (take (length (line ++ rest) - length rest) (line ++ rest)) ≡ digits =
        ap (drop 16) (take_front line rest) in
      let parsed =
        (parse_long_bounded-digit_text d ds (pos 0) int_max form.decimal
          (omega (arith, form.size, body_fits))).0 in
      let size : length digits ≡ suc (length ds) = length-digit_text (d ∷ ds) in
      let short = form.short in
      let fits : (length digits == 0 || leb 16 (length digits)) ≡ false =
        ground (arith, size, short) in
      rw (found, end, raw, fits, parsed)
        (in_range (value_from 0 (d ∷ ds)) (length body) form.size body_fits)

  blank_line-whole : strstr request blank_line ≡ some (blank_line ++ body)
  blank_line-whole = post_request-blank_line path before (d ∷ ds) others body form.head form.lines

  readiness-whole : readiness request ≡ ready
  unfolding readiness starts_with
  readiness-whole =
      let arrived : ltb_ℤ (pos (length body)) (pos (length body)) ≡ false = ground arith in
      rw (content_length-whole, blank_line-whole, arrived) refl

  route-whole :
      (x : Context) (s : Session)
      → route x s request ≡ answer_post x s (posted_config x.flash_config body)
  unfolding route route_post starts_with
  route-whole x s =
      let room = body_fits in
      let short_body : leb tcp_ip_buffer_size (length body) ≡ false = ground (arith, room) in
      rw (blank_line-whole, short_body) refl

gather-first :
    (text : List ℕ) → IsText text → length text < tcp_ip_buffer_size → gather [] text ≡ text
unfolding gather
gather-first text h fits =
    ap c_str (take-min 8191 text ∙ take-all 8191 text (omega (arith, fits))) ∙ c_str_text text h

-- A form that is posted to a connection with no text yet is answered by its body.
pub tcp_server_recv-answer_post :
    (x : Context) (s : Session) (path : List ℕ) (before : List (List ℕ)) (d : ℕ) (ds : List ℕ)
    (others : List (List ℕ)) (body : List ℕ)
    → s.headers ≡ []
    → IsForm path before d ds others body
    → let request = post_request path before (d ∷ ds) others body in
      tcp_server_recv x s (some request)
      ≡ prefixed
          (tcp_recved x.pcb (length request) ∷ [])
          (answer_post x (record s { headers = request }) (posted_config x.flash_config body))
unfolding tcp_server_recv process
tcp_server_recv-answer_post x s path before d ds others body empty form =
    let request = post_request path before (d ∷ ds) others body in
    let gathered : gather s.headers request ≡ request =
      rw empty (gather-first request form.text form.fits) in
    let ready_now = readiness-whole path before d ds others body form in
    let routed = route-whole path before d ds others body form x in
    let not_empty : (length request == 0) ≡ false = ground arith in
    rw (not_empty, gathered, ready_now, routed) refl

-- A short page that closes the connection.
abbrev pub closing_page : List ℕ → List ℕ → List ℕ
closing_page status message =
    codes "HTTP/1.1 "
    ++ (status ++ (crlf ++ (codes "Connection: close" ++ (crlf ++ (crlf ++ message)))))

abbrev pub page_of : Bool → List ℕ
page_of true = closing_page (codes "200 OK") (codes "Saved! Rebooting...")
page_of false = closing_page (codes "500 Error") (codes "Failed to save to Flash.")

-- What follows a form of some size, by the configuration that it gives: `none` is a refused field.
abbrev pub Answered : Context → Session → ℕ → Option FlashConfig → Result → Type 0
Answered x s size none r = r ≡ (
  err_ok,
  s,
  tcp_recved x.pcb size
      ∷ tcp_write x.pcb (closing_page (codes "400 Bad Request") (codes "Invalid config fields."))
          false
      ∷ tcp_output x.pcb
      ∷ [],
)
Answered x s size (some config) r = r ≡ (
  err_ok,
  record s { complete = x.saved config || s.complete },
  tcp_recved x.pcb size
      ∷ store_config config
      ∷ tcp_write x.pcb (page_of (x.saved config)) false
      ∷ tcp_output x.pcb
      ∷ [],
)

answer_post-Answered :
    (x : Context) (s : Session) (size : ℕ) (c : Option FlashConfig)
    → Answered x s size c (prefixed (tcp_recved x.pcb size ∷ []) (answer_post x s c))
unfolding answer_post
answer_post-Answered x s size none = refl
answer_post-Answered x s size (some config) = elim (Bool-cases (x.saved config)) [
  | inl e ↦ rw e refl
  | inr e ↦ rw e refl
]

-- A form is posted in one packet to a connection with no text yet: a `Content-Length` among any other
-- headers, those before it without its name in them, with the length of the body in at most 15
-- decimal digits, no NUL, and less text than the buffer takes. If the body has a field that is refused,
-- nothing is stored and the answer is 400. Otherwise the configuration that the body gives is handed to
-- `store_config`, and if that answers true the server is complete and the answer is 200, if not
-- the answer is 500. The text stays, and the packet is acknowledged whole.
pub tcp_server_recv_form :
    (x : Context) (s : Session) (path : List ℕ) (before : List (List ℕ)) (d : ℕ) (ds : List ℕ)
    (others : List (List ℕ)) (body : List ℕ)
    → s.headers ≡ []
    → IsForm path before d ds others body
    → let request = post_request path before (d ∷ ds) others body in
      Answered x
        (record s { headers = request })
        (length request)
        (posted_config x.flash_config body)
        (tcp_server_recv x s (some request))
tcp_server_recv_form x s path before d ds others body empty form =
    let request = post_request path before (d ∷ ds) others body in
    let t : Session = record s { headers = request } in
    let c = posted_config x.flash_config body in
    subst (Answered x t (length request) c)
      (sym (tcp_server_recv-answer_post x s path before d ds others body empty form))
      (answer_post-Answered x t (length request) c)

-- A form whose first packet ends within the digits of the `Content-Length` line, after any headers
-- without its name in them, on a connection with no text yet, with no NUL and less text than the
-- buffer takes: the server does not wait for the rest, but closes the connection with `ERR_VAL`.
pub tcp_server_recv_cut :
    (x : Context) (s : Session) (path : List ℕ) (before : List (List ℕ)) (digits : List ℕ)
    → s.headers ≡ []
    → All IsOther (request_line path ∷ before)
    → IsText (cut_request path before digits)
    → length (cut_request path before digits) < tcp_ip_buffer_size
    → let request = cut_request path before digits in
      tcp_server_recv x s (some request)
      ≡ prefixed
          (tcp_recved x.pcb (length request) ∷ [])
          (close_connection x (record s { headers = request }) err_val)
unfolding tcp_server_recv process
tcp_server_recv_cut x s path before digits empty head text fits =
    let request = cut_request path before digits in
    let gathered : gather s.headers request ≡ request = rw empty (gather-first request text fits) in
    let not_empty : (length request == 0) ≡ false = ground arith in
    rw (not_empty, gathered, readiness-cut path before digits head) refl
