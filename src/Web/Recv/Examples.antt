-- ===== src/Web/Recv/Examples.antt =====
-- The theorems on src/wifi.c's `tcp_server_recv` at concrete packets.
use picow_day_clock.Base.{
  ℕ, ◌<◌, ◌≡◌, refl, true, false, arith, List, [], ◌∷◌, none, some, codes, length, drop, ◌++◌,
}
use picow_day_clock.Web.CString.{c_str, starts_with, strstr}
use picow_day_clock.Web.Params.{posted_config}
use picow_day_clock.Web.Pool.{err_ok, err_val, server_init, tcp_server_accept}
use picow_day_clock.Web.Recv.{
  tcp_ip_buffer_size, Session, Context, blank_line, tcp_recved, gather, readiness, incomplete,
  close_connection, prefixed, tcp_server_recv,
}
use picow_day_clock.Web.Recv.Gather.{tcp_server_recv_bounded, tcp_server_recv_split}
use picow_day_clock.Web.Recv.Store.{Stores, tcp_server_recv-Stores}
use picow_day_clock.Web.Recv.Request.{post_request, cut_request}
use picow_day_clock.Web.Recv.Submit.{IsForm, Answered, tcp_server_recv_form, tcp_server_recv_cut}

-- A client on connection 0, and no configuration in flash.
abbrev context : Context
context = record {
  con = 0;
  pcb = 7;
  flash_config = none;
  html_form_expanded = codes "form";
  gw = codes "192.168.4.1";
  saved = λ config. true;
  closed = true;
}

abbrev session : Session
session = record {
  server = (tcp_server_accept server_init (some 7) err_ok).1;
  headers = [];
  complete = false;
}

abbrev body : List ℕ
body = codes "tz=-300&port=124"

-- What a browser sends around the length.
abbrev before : List (List ℕ)
before = codes "Host: 192.168.4.1" ∷ codes "Connection: keep-alive" ∷ []

abbrev others : List (List ℕ)
others = codes "Content-Type: application/x-www-form-urlencoded" ∷ []

abbrev post : List ℕ
post = post_request (codes "/") before (1 ∷ 6 ∷ []) others body

tcp_server_recv_bounded_example :
    length (tcp_server_recv context session (some post)).1.headers < tcp_ip_buffer_size
tcp_server_recv_bounded_example = tcp_server_recv_bounded context session (some post) (omega arith)

abbrev get_start : List ℕ
get_start = codes "GET / HT"

abbrev get_end : List ℕ
get_end = codes "TP/1.1" ++ blank_line

get_waits : readiness (gather [] get_start) ≡ incomplete
unfolding readiness gather c_str starts_with strstr
get_waits = refl

tcp_server_recv_split_example :
    let first = tcp_server_recv context session (some get_start) in
    let second = tcp_server_recv context first.1 (some get_end) in
    let whole = tcp_server_recv context session (some (get_start ++ get_end)) in
    (first ≡ (
      err_ok,
      record session { headers = gather [] get_start },
      tcp_recved 7 (length get_start) ∷ [],
    ))
    × (second.0 ≡ whole.0)
    × (second.1 ≡ whole.1)
    × (drop 1 second.2 ≡ drop 1 whole.2)
tcp_server_recv_split_example =
    tcp_server_recv_split context session get_start get_end (ground arith) (omega arith)
      (omega arith) get_waits

tcp_server_recv-Stores_example :
    Stores context session (tcp_server_recv context session (some post))
tcp_server_recv-Stores_example = tcp_server_recv-Stores context session (some post) tt

post-IsForm : IsForm (codes "/") before 1 (6 ∷ []) others body
unfolding strstr starts_with
post-IsForm = record {
  head = ((ground arith, refl), ((ground arith, refl), ((ground arith, refl), tt)));
  lines = (ground arith, tt);
  decimal = ground arith;
  short = omega arith;
  size = refl;
  text = ground arith;
  fits = omega arith;
}

tcp_server_recv_form_example :
    Answered context
      (record session { headers = post })
      (length post)
      (posted_config none body)
      (tcp_server_recv context session (some post))
tcp_server_recv_form_example =
    tcp_server_recv_form context session (codes "/") before 1 (6 ∷ []) others body refl post-IsForm

abbrev cut : List ℕ
cut = cut_request (codes "/") before (1 ∷ [])

tcp_server_recv_cut_example :
    tcp_server_recv context session (some cut)
    ≡ prefixed
        (tcp_recved 7 (length cut) ∷ [])
        (close_connection context (record session { headers = cut }) err_val)
unfolding strstr starts_with
tcp_server_recv_cut_example =
    tcp_server_recv_cut context session (codes "/") before (1 ∷ []) refl
      ((ground arith, refl), ((ground arith, refl), ((ground arith, refl), tt))) (ground arith)
      (omega arith)
