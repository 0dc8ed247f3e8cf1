-- ===== src/Web/Pool.antt =====
-- The connections of the configuration server: `tcp_close_client_connection`, `tcp_server_sent`,
-- `tcp_server_poll`, `tcp_server_err` and `tcp_server_accept` of src/wifi.c. A pcb is lwIP's, and
-- here a number. The connection that a callback has as its `arg` is an index of `connections`.
--
-- The pointers that `tcp_server_accept` copies from the server (`gw`, `store_config`,
-- `flash_config`) are the same in every connection and are not repeated there, and neither are the
-- two text buffers, which these functions only clear.
pub mod Invariant
pub mod Callbacks
use picow_day_clock.Base.{
  ℕ, zero, suc, ◌+◌, ◌*◌, Bool, true, false, List, [], ◌∷◌, ◌++◌, Option, none, some, leb, get_or,
  set, if◌then◌else◌,
}
use picow_day_clock.Base.Int.{ℤ, pos, ◌+ℤ◌, ◌-ℤ◌, ltb_ℤ}

-- lwIP's `err_t`: the values that the code names, and the others.
pub data Err : Type 0 where
  err_ok err_mem err_val err_abrt : Err
  other : ℕ → Err

-- `tcp_connect_state_t`. `has_server` is `server_state != NULL`.
pub record Connection : Type 0 where
  pub pcb : Option ℕ
  pub sent_len : ℕ
  pub header_len : ℕ
  pub result_len : ℕ
  pub has_server : Bool

-- `tcp_server_t`
pub record Server : Type 0 where
  pub active_connections : ℤ
  pub connections : List Connection

-- The calls of lwIP: whether a callback is set or taken off.
pub data Effect : Type 0 where
  tcp_arg : (pcb : ℕ) → Option ℕ → Effect
  tcp_poll tcp_sent tcp_recv tcp_err : (pcb : ℕ) → Bool → Effect
  tcp_close tcp_abort : (pcb : ℕ) → Effect

abbrev pub tcp_ip_max_connections : ℕ
tcp_ip_max_connections = 4

-- `memset(con_state, 0, …)`
abbrev pub cleared : Connection
cleared = record { pcb = none; sent_len = 0; header_len = 0; result_len = 0; has_server = false }

-- The server after `memset(&server_state, 0, …)`.
abbrev pub server_init : Server
server_init = record {
  active_connections = pos 0;
  connections = cleared ∷ cleared ∷ cleared ∷ cleared ∷ [];
}

-- The count and the connection, when a connection is given up.
unfoldable pub release : Server → ℕ → Server
release s con = record {
  active_connections =
      if (get_or s.connections con cleared).has_server
      then s.active_connections -ℤ pos 1
      else s.active_connections;
  connections = set s.connections con cleared;
}

abbrev pub release_any : Server → Option ℕ → Server
release_any s none = s
release_any s (some con) = release s con

-- `closed` is whether `tcp_close` returns `ERR_OK`.
unfoldable pub tcp_close_client_connection :
    Server → Option ℕ → Option ℕ → Err → Bool → Err × Server × List Effect
unfolding release
tcp_close_client_connection s con (some pcb) close_err closed = (
  if closed then close_err else err_abrt,
  release_any s con,
  (tcp_arg pcb none
        ∷ tcp_poll pcb false
        ∷ tcp_sent pcb false
        ∷ tcp_recv pcb false
        ∷ tcp_err pcb false
        ∷ tcp_close pcb
        ∷ [])
      ++ (if closed then [] else tcp_abort pcb ∷ []),
)
tcp_close_client_connection s con none close_err closed = (close_err, release_any s con, [])

-- The connection with `len` more bytes acknowledged.
abbrev pub acknowledge : Connection → ℕ → Connection
acknowledge c len = record c { sent_len = c.sent_len + len }

unfoldable pub tcp_server_sent : Server → ℕ → ℕ → ℕ → Bool → Err × Server × List Effect
unfolding tcp_close_client_connection
tcp_server_sent s con pcb len closed =
    let c = acknowledge (get_or s.connections con cleared) len in
    let counted = record s { connections = set s.connections con c } in
    if leb (c.header_len + c.result_len) c.sent_len
    then tcp_close_client_connection counted (some con) (some pcb) err_ok closed
    else (err_ok, counted, [])

unfoldable pub tcp_server_poll : Server → ℕ → ℕ → Bool → Err × Server × List Effect
unfolding tcp_close_client_connection
tcp_server_poll s con pcb closed = tcp_close_client_connection s (some con) (some pcb) err_ok closed

unfoldable pub tcp_server_err : Server → Option ℕ → Err → Server × List Effect
unfolding tcp_close_client_connection
tcp_server_err s none err = (s, [])
tcp_server_err s (some con) err =
    let (_, released, sent) = tcp_close_client_connection s (some con) none err true in
    (released, sent)

abbrev pub is_free : Connection → Bool
is_free c = elim c.pcb [ none ↦ true | some p ↦ false ]

-- The loop for a free connection.
unfoldable pub find_free : List Connection → ℕ → Option ℕ
find_free [] i = none
find_free (c ∷ cs) i = if is_free c then some i else find_free cs (suc i)

-- What follows the search; `s` has been counted up.
unfoldable pub accept_into : Server → ℕ → Option ℕ → Err × Server × List Effect
accept_into s pcb none = (err_mem, s, [])
accept_into s pcb (some con) =
    let c = record cleared { pcb = some pcb; has_server = true } in
    (
      err_ok,
      record s { connections = set s.connections con c },
      tcp_arg pcb (some con)
          ∷ tcp_sent pcb true
          ∷ tcp_recv pcb true
          ∷ tcp_poll pcb true
          ∷ tcp_err pcb true
          ∷ [],
    )

-- `none` is a NULL `client_pcb`.
unfoldable pub tcp_server_accept : Server → Option ℕ → Err → Err × Server × List Effect
unfolding find_free accept_into
tcp_server_accept s (some pcb) err_ok =
    let counted = record s { active_connections = s.active_connections +ℤ pos 1 } in
    if ltb_ℤ (pos tcp_ip_max_connections) counted.active_connections
    then (err_abrt, record counted { active_connections = counted.active_connections -ℤ pos 1 }, [])
    else accept_into counted pcb (find_free counted.connections 0)
tcp_server_accept s _ _ = (err_val, s, [])
