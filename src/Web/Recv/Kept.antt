-- ===== src/Web/Recv/Kept.antt =====
-- What src/wifi.c's `tcp_server_recv` does to the server: it leaves it, closes the connection, or sets
-- the lengths of the response.
use picow_day_clock.Base.{
  ℕ, Bool, true, false, List, ◌||◌, Option, none, some, leb, ◌==◌, length, drop, get_or, set, codes,
  if◌then◌else◌, Bool-cases, inl, inr,
}
use picow_day_clock.Config.{FlashConfig}
use picow_day_clock.Web.CString.{starts_with, strstr}
use picow_day_clock.Web.Params.{posted_config, base_config}
use picow_day_clock.Web.Pool.{Err, Connection, Server, cleared, tcp_close_client_connection}
use picow_day_clock.Web.Recv.{
  tcp_ip_buffer_size, Session, Result, Context, close_connection, gather, Readiness, refused,
  incomplete, ready, readiness, is_post, blank_line, answer_post, route_post, response_ok_header,
  response_redirect_header, route_page, route_redirect, route, process_ready, process,
  tcp_server_recv,
}

-- The lengths that `tcp_server_sent` waits for.
abbrev pub with_lengths : Server → ℕ → ℕ → ℕ → Server
with_lengths s con header_len result_len =
    let c : Connection = record (get_or s.connections con cleared) {
      header_len = header_len;
      result_len = result_len;
    } in
    record s { connections = set s.connections con c }

-- A property of the server that closing a connection and setting its lengths keep.
pub record IsKept (P : Server → Type 0) : Type 0 where
  pub closing :
      (s : Server) (con pcb : Option ℕ) (err : Err) (closed : Bool)
      → P s
      → P (tcp_close_client_connection s con pcb err closed).1
  pub responding : (s : Server) (con h r : ℕ) → P s → P (with_lengths s con h r)

module _ (P : Server → Type 0) (kept : IsKept P) (x : Context) where
  P-if : (b : Bool) (q r : Result) → P q.1.server → P r.1.server → P (if b then q else r).1.server
  P-if true q r h k = h
  P-if false q r h k = k

  module _ (s : Session) (h : P s.server) where
    P-close_connection : (e : Err) → P (close_connection x s e).1.server
    unfolding close_connection
    P-close_connection e = kept.closing s.server (some x.con) (some x.pcb) e x.closed h

    P-answer_post : (config : Option FlashConfig) → P (answer_post x s config).1.server
    unfolding answer_post
    P-answer_post none = h
    P-answer_post (some config) = elim (Bool-cases (x.saved config)) [
      | inl e ↦ rw e h
      | inr e ↦ rw e h
    ]

    P-route_post : (text : Option (List ℕ)) → P (route_post x s text).1.server
    unfolding route_post
    P-route_post none = P-answer_post (some (base_config x.flash_config))
    P-route_post (some text) =
        P-if (leb tcp_ip_buffer_size (length (drop 4 text))) _ _ (P-close_connection _)
          (P-answer_post (posted_config x.flash_config (drop 4 text)))

    P-route_page : P (route_page x s).1.server
    unfolding route_page
    P-route_page =
        kept.responding s.server x.con (length response_ok_header) (length x.html_form_expanded) h

    P-route_redirect : P (route_redirect x s).1.server
    unfolding route_redirect
    P-route_redirect =
        elim (Bool-cases (leb tcp_ip_buffer_size (length (response_redirect_header x.gw)))) [
          | inl e ↦ rw e (P-close_connection _)
          | inr e ↦ rw e (kept.responding s.server x.con _ _ h)
        ]

    P-route : (request : List ℕ) → P (route x s request).1.server
    unfolding route
    P-route request = P-if (is_post request) _ _ (P-route_post (strstr request blank_line)) (
        P-if
          (starts_with request (codes "GET /clock-config") || starts_with request (codes "GET / "))
          _ _ P-route_page P-route_redirect)

    P-process_ready : (r : Readiness) → P (process_ready x s r).1.server
    P-process_ready refused = P-close_connection _
    P-process_ready incomplete = h
    P-process_ready ready = P-route s.headers

  pub tcp_server_recv-server :
      (s : Session) (packet : Option (List ℕ))
      → P s.server
      → P (tcp_server_recv x s packet).1.server
  unfolding tcp_server_recv process
  tcp_server_recv-server s none h = P-close_connection s h _
  tcp_server_recv-server s (some packet) h =
      let s' : Session = record s { headers = gather s.headers packet } in
      P-if (length packet == 0) _ _ (P-process_ready s h (readiness s.headers))
        (P-process_ready s' h (readiness s'.headers))
