-- ===== src/Web/Recv.antt =====
-- `tcp_server_recv` of src/wifi.c: the request of a connection, gathered from what lwIP hands over, and
-- the three routes. The text that `headers` of the connection holds is kept here beside the server;
-- the form page (`html_form_expanded`), the address that `ipaddr_ntoa` prints and the answers of
-- `store_config` and `tcp_close` are arguments.
pub mod Gather
pub mod Store
pub mod Kept
pub mod Request
pub mod Submit
mod Examples
use picow_day_clock.Base.{
  ℕ, ◌+◌, ◌-◌, ◌*◌, ◌%◌, ◌^◌, Bool, true, false, ◌||◌, List, [], ◌∷◌, ◌++◌, Option, none, some, map,
  leb, ltb, ◌==◌, length, take, drop, get_or, set, codes, min, if◌then◌else◌,
}
use picow_day_clock.Base.Int.{ℤ, pos, ltb_ℤ}
use picow_day_clock.Config.{FlashConfig}
use picow_day_clock.Web.CString.{c_str, starts_with, strstr}
use picow_day_clock.Web.Number.{parse_long_bounded}
use picow_day_clock.Web.Params.{base_config, posted_config}
use picow_day_clock.Web.Pool
use picow_day_clock.Web.Pool.{
  Err, err_ok, err_mem, err_val, Connection, Server, cleared, tcp_close_client_connection,
}

abbrev pub tcp_ip_buffer_size : ℕ
tcp_ip_buffer_size = 8192

abbrev pub int_max : ℤ
int_max = pos (2 ^ 31 - 1)

abbrev pub crlf : List ℕ
crlf = 13 ∷ 10 ∷ []

abbrev pub blank_line : List ℕ
blank_line = crlf ++ crlf

-- The server, the text in `headers` of the connection, and `server_state.complete`.
pub record Session : Type 0 where
  pub server : Server
  pub headers : List ℕ
  pub complete : Bool

-- The calls of lwIP and of `store_config`. A write has whether more is announced.
pub data Call : Type 0 where
  pool : Pool.Effect → Call
  tcp_recved : (pcb : ℕ) (len : ℕ) → Call
  tcp_write : (pcb : ℕ) → List ℕ → (more : Bool) → Call
  tcp_output : (pcb : ℕ) → Call
  store_config : FlashConfig → Call

abbrev pub Result : Type 0
Result = Err × Session × List Call

-- What a callback has at hand: its connection and its pcb, the configuration in flash, the form page,
-- the text of the address, and what `store_config` and `tcp_close` answer.
pub record Context : Type 0 where
  pub con : ℕ
  pub pcb : ℕ
  pub flash_config : Option FlashConfig
  pub html_form_expanded : List ℕ
  pub gw : List ℕ
  pub saved : FlashConfig → Bool
  pub closed : Bool

-- The buffer is cleared with the connection.
unfoldable pub close_connection : Context → Session → Err → Result
close_connection x s close_err =
    let (err, server, sent) =
      tcp_close_client_connection s.server (some x.con) (some x.pcb) close_err x.closed in
    (err, record s { server = server; headers = [] }, map pool sent)

-- The text of `headers` after a packet. What does not fit is dropped.
unfoldable pub gather : List ℕ → List ℕ → List ℕ
gather headers packet =
    let available_space = tcp_ip_buffer_size - length headers - 1 in
    headers ++ c_str (take (min (length packet) available_space) packet)

-- The value of a `Content-Length` line, from `line` on; `rest` is the text from the end of the line on.
-- `none` closes the connection.
unfoldable pub length_in_line : List ℕ → Option (List ℕ) → Option ℤ
length_in_line line none = none
length_in_line line (some rest) =
    let raw = drop 16 (take (length line - length rest) line) in
    if length raw == 0 || leb 16 (length raw) then none else parse_long_bounded raw (pos 0) int_max

abbrev pub length_of_line : Option (List ℕ) → Option ℤ
length_of_line none = some (pos 0)
length_of_line (some line) = length_in_line line (strstr line crlf)

unfoldable pub content_length : List ℕ → Option ℤ
content_length request = length_of_line (strstr request (codes "Content-Length: "))

pub data Readiness : Type 0 where
  refused incomplete ready : Readiness

abbrev pub body_readiness : ℤ → Option (List ℕ) → Readiness
body_readiness expected none = incomplete
body_readiness expected (some body) =
    if ltb_ℤ (pos (length (drop 4 body))) expected then incomplete else ready

abbrev pub post_readiness : Option ℤ → Option (List ℕ) → Readiness
post_readiness none body = refused
post_readiness (some expected) body = body_readiness expected body

abbrev pub line_readiness : Option (List ℕ) → Readiness
line_readiness none = incomplete
line_readiness (some rest) = ready

abbrev pub is_post : List ℕ → Bool
is_post request = starts_with request (codes "POST ")

-- Whether the request has arrived.
unfoldable pub readiness : List ℕ → Readiness
readiness request =
    if is_post request
    then post_readiness (content_length request) (strstr request blank_line)
    else line_readiness (strstr request crlf)

abbrev pub bad_req_msg : List ℕ
bad_req_msg =
    codes "HTTP/1.1 400 Bad Request"
    ++ (crlf ++ (codes "Connection: close" ++ (blank_line ++ codes "Invalid config fields.")))

abbrev pub success_msg : List ℕ
success_msg =
    codes "HTTP/1.1 200 OK"
    ++ (crlf ++ (codes "Connection: close" ++ (blank_line ++ codes "Saved! Rebooting...")))

abbrev pub fail_msg : List ℕ
fail_msg =
    codes "HTTP/1.1 500 Error"
    ++ (crlf ++ (codes "Connection: close" ++ (blank_line ++ codes "Failed to save to Flash.")))

-- `none` is a field that was refused.
unfoldable pub answer_post : Context → Session → Option FlashConfig → Result
answer_post x s none = (err_ok, s, tcp_write x.pcb bad_req_msg false ∷ tcp_output x.pcb ∷ [])
answer_post x s (some config) =
    if x.saved config
    then (
      err_ok,
      record s { complete = true },
      store_config config ∷ tcp_write x.pcb success_msg false ∷ tcp_output x.pcb ∷ [],
    )
    else (err_ok, s, store_config config ∷ tcp_write x.pcb fail_msg false ∷ tcp_output x.pcb ∷ [])

-- Route A, with the text from the blank line on.
unfoldable pub route_post : Context → Session → Option (List ℕ) → Result
route_post x s none = answer_post x s (some (base_config x.flash_config))
route_post x s (some text) =
    let body = drop 4 text in
    if leb tcp_ip_buffer_size (length body)
    then close_connection x s err_mem
    else answer_post x s (posted_config x.flash_config body)

abbrev pub response_ok_header : List ℕ
response_ok_header =
    codes "HTTP/1.1 200 OK"
    ++ (crlf
        ++ (codes "Content-Type: text/html; charset=utf-8"
            ++ (crlf ++ (codes "Connection: close" ++ blank_line))))

abbrev pub response_redirect_header : List ℕ → List ℕ
response_redirect_header gw =
    codes "HTTP/1.1 302 Found"
    ++ (crlf
        ++ (codes "Location: http://"
            ++ (gw
                ++ (codes "/clock-config" ++ (crlf ++ (codes "Connection: close" ++ blank_line))))))

-- The connection with the lengths that `tcp_server_sent` waits for, and the header in its buffer.
abbrev pub respond : Context → Session → List ℕ → ℕ → Session
respond x s header result_len =
    let c = get_or s.server.connections x.con cleared in
    let c' : Connection = record c { header_len = length header; result_len = result_len } in
    record s {
      server = record s.server { connections = set s.server.connections x.con c' };
      headers = header;
    }

-- Routes B and C. The lengths of writes are 16-bit numbers.
unfoldable pub route_page : Context → Session → Result
route_page x s =
    let form = x.html_form_expanded in
    if leb tcp_ip_buffer_size (length response_ok_header) then close_connection x s err_mem else (
      err_ok,
      respond x s response_ok_header (length form),
      tcp_write x.pcb response_ok_header true
          ∷ tcp_write x.pcb (take (length form % 2 ^ 16) form) false
          ∷ tcp_output x.pcb
          ∷ [],
    )

-- `header_len` is set to the whole length and what fits is in the buffer, before the connection is
-- closed and both are cleared.
unfoldable pub route_redirect : Context → Session → Result
route_redirect x s =
    let header = response_redirect_header x.gw in
    let result_len = (get_or s.server.connections x.con cleared).result_len in
    if leb tcp_ip_buffer_size (length header) then close_connection x s err_mem else (
      err_ok,
      respond x s header result_len,
      tcp_write x.pcb header false ∷ tcp_output x.pcb ∷ [],
    )

unfoldable pub route : Context → Session → List ℕ → Result
route x s request =
    if is_post request
    then route_post x s (strstr request blank_line)
    else if starts_with request (codes "GET /clock-config") || starts_with request (codes "GET / ")
    then route_page x s
    else route_redirect x s

abbrev pub process_ready : Context → Session → Readiness → Result
process_ready x s refused = close_connection x s err_val
process_ready x s incomplete = (err_ok, s, [])
process_ready x s ready = route x s s.headers

-- The rest of the callback, once the packet has been gathered.
unfoldable pub process : Context → Session → Result
process x s = process_ready x s (readiness s.headers)

abbrev pub prefixed : List Call → Result → Result
prefixed calls (err, s, sent) = (err, s, calls ++ sent)

-- `none` is a closed connection. An empty packet is not acknowledged.
unfoldable pub tcp_server_recv : Context → Session → Option (List ℕ) → Result
tcp_server_recv x s none = close_connection x s err_ok
tcp_server_recv x s (some packet) =
    if length packet == 0
    then process x s
    else prefixed (tcp_recved x.pcb (length packet) ∷ [])
        (process x (record s { headers = gather s.headers packet }))
