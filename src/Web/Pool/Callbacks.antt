-- ===== src/Web/Pool/Callbacks.antt =====
-- lwIP's callbacks of the configuration server in src/wifi.c, in any order.
use picow_day_clock.Base.{
  ℕ, zero, suc, ◌+◌, ◌<◌, ◌≡◌, refl, sym, ap, subst, ◌∙◌, Bool, true, false, List, [], ◌∷◌, Option,
  none, some, arith, length, get_or, set, leb, length-set, ◌⊎◌, inl, inr, Bool-cases,
}
use picow_day_clock.Base.Int.{pos, ◌+ℤ◌, ltb_ℤ, int_laws}
use picow_day_clock.Web.Pool.{
  Err, err_ok, err_mem, err_val, err_abrt, other, Connection, Server, cleared, server_init,
  release_any, tcp_close_client_connection, acknowledge, tcp_server_sent, tcp_server_poll,
  tcp_server_err, is_free, find_free, accept_into, tcp_server_accept,
}
use picow_day_clock.Web.Pool.Invariant.{
  is_used, used, IsConsistent, All-set, Linked-get_or, used-set, used_bound, release-IsConsistent,
  find_free_cases,
}
use picow_day_clock.Web.Recv.{Session, Context, tcp_server_recv}
use picow_day_clock.Web.Recv.Kept.{IsKept, tcp_server_recv-server}

-- The connection that `tcp_server_accept` sets up.
abbrev pub opened : ℕ → Connection
opened pcb = record cleared { pcb = some pcb; has_server = true }

-- An accepted connection takes a free place, or it is refused because the four are in use; then the
-- server is as before.
pub record Accepts (s : Server) (pcb : ℕ) (r : Err × Server) : Type 0 where
  pub outcome :
      ((used s.connections ≡ 4) × (r ≡ (err_abrt, s)))
      ⊎ ((k : ℕ) × (used s.connections < 4)
          × (k < 4)
          × (is_free (get_or s.connections k cleared) ≡ true)
          × (r ≡ (
            err_ok,
            record {
              active_connections = pos (used s.connections + 1);
              connections = set s.connections k (opened pcb);
            },
          )))

-- The same for a server that is given by its parts.
accept_parts :
    (cs : List Connection) (pcb : ℕ)
    → length cs ≡ 4
    → let s : Server = record { active_connections = pos (used cs); connections = cs } in
      let (err, next, _) = tcp_server_accept s (some pcb) err_ok in Accepts s pcb (err, next)
unfolding tcp_server_accept accept_into
accept_parts cs pcb size =
    let one : pos (used cs) +ℤ pos 1 ≡ pos (used cs + 1) = omega int_laws in
    elim (find_free_cases cs 0) [
      | inl (e, all) ↦
          let over : ltb_ℤ (pos 4) (pos (used cs + 1)) ≡ true = ground arith in
          rw (one, over)
            (record {
              outcome = inl (
                omega arith,
                ap (λ n. (err_abrt, record { active_connections = n; connections = cs }))
                    (omega int_laws),
              );
            })
      | inr (k, e, fits, free) ↦
          let found : find_free cs 0 ≡ some k = e ∙ ap some (omega arith) in
          let unused : is_used (get_or cs k cleared) ≡ 0 = rw free in
          let room : used cs < 4 = omega (
            arith,
            used-set cs k (opened pcb) fits,
            used_bound (set cs k (opened pcb)),
            length-set cs k (opened pcb),
            unused,
          ) in
          let under : ltb_ℤ (pos 4) (pos (used cs + 1)) ≡ false = ground arith in
          rw (one, under, found) (record { outcome = inr (k, room, omega arith, free, refl) })
    ]

-- A connection that lwIP reports without an error is never turned away with `ERR_MEM`: while the
-- count agrees with the connections, either all four are in use, and the answer is `ERR_ABRT` with
-- the server as before, or a free connection is set up for the pcb and counted.
pub tcp_server_accept-Accepts :
    (s : Server) (pcb : ℕ)
    → IsConsistent s
    → let (err, next, _) = tcp_server_accept s (some pcb) err_ok in Accepts s pcb (err, next)
tcp_server_accept-Accepts s pcb h =
    subst
      (λ n.
        let t : Server = record { active_connections = n; connections = s.connections } in
        let (err, next, _) = tcp_server_accept t (some pcb) err_ok in Accepts t pcb (err, next))
      (sym h.counted) (accept_parts s.connections pcb h.size)

-- The server with the text of the connection that a packet is for.
abbrev pub session : Server → List ℕ → Bool → Session
session s headers complete = record { server = s; headers = headers; complete = complete }

-- What lwIP can call.
pub data Step (s : Server) : Server → Type 0 where
  accept : (pcb : Option ℕ) (err : Err) → Step s (tcp_server_accept s pcb err).1
  sent : (con pcb len : ℕ) (closed : Bool) → Step s (tcp_server_sent s con pcb len closed).1
  poll : (con pcb : ℕ) (closed : Bool) → Step s (tcp_server_poll s con pcb closed).1
  failed : (con : Option ℕ) (err : Err) → Step s (tcp_server_err s con err).0
  recv :
      (x : Context) (headers : List ℕ) (complete : Bool) (packet : Option (List ℕ))
      → Step s (tcp_server_recv x (session s headers complete) packet).1.server

pub data Reach (s : Server) : Server → Type 0 where
  here : Reach s s
  next : {t u : Server} → Reach s t → Step t u → Reach s u

accepted-IsConsistent :
    (s : Server) (pcb : ℕ) (r : Err × Server) → IsConsistent s → Accepts s pcb r → IsConsistent r.1
accepted-IsConsistent s pcb r h a = elim a.outcome [
  | inl (full, e) ↦ subst (λ x. IsConsistent x.1) (sym e) h
  | inr (k, room, fits, free, e) ↦
      let unused : is_used (get_or s.connections k cleared) ≡ 0 = rw free in
      subst (λ x. IsConsistent x.1) (sym e)
        (record {
          size = length-set s.connections k (opened pcb) ∙ h.size;
          counted = ap pos (
              omega (arith, used-set s.connections k (opened pcb) (omega (arith, h.size)), unused));
          linked = All-set s.connections k (opened pcb) h.linked refl;
        })
]

accept-IsConsistent :
    (s : Server) (pcb : Option ℕ) (err : Err)
    → IsConsistent s
    → IsConsistent (tcp_server_accept s pcb err).1
accept-IsConsistent s (some pcb) err_ok h =
    accepted-IsConsistent s pcb _ h (tcp_server_accept-Accepts s pcb h)
accept-IsConsistent s (some pcb) err_mem h = unfold tcp_server_accept in h
accept-IsConsistent s (some pcb) err_val h = unfold tcp_server_accept in h
accept-IsConsistent s (some pcb) err_abrt h = unfold tcp_server_accept in h
accept-IsConsistent s (some pcb) (other n) h = unfold tcp_server_accept in h
accept-IsConsistent s none err h = unfold tcp_server_accept in h

used-acknowledge :
    (cs : List Connection) (i len : ℕ)
    → used (set cs i (acknowledge (get_or cs i cleared) len)) ≡ used cs
used-acknowledge [] i len = refl
used-acknowledge (c ∷ cs) zero len = refl
used-acknowledge (c ∷ cs) (suc i) len = ap (λ n. is_used c + n) (used-acknowledge cs i len)

acknowledge-IsConsistent :
    (s : Server) (i len : ℕ)
    → IsConsistent s
    → IsConsistent (record s {
      connections = set s.connections i (acknowledge (get_or s.connections i cleared) len);
    })
acknowledge-IsConsistent s i len h = record {
  size = length-set s.connections i _ ∙ h.size;
  counted = h.counted ∙ ap pos (sym (used-acknowledge s.connections i len));
  linked = All-set s.connections i _ h.linked (Linked-get_or s.connections i h.linked);
}

release_any-IsConsistent :
    (s : Server) (con : Option ℕ) → IsConsistent s → IsConsistent (release_any s con)
release_any-IsConsistent s none h = h
release_any-IsConsistent s (some con) h = release-IsConsistent s con h

close-IsConsistent :
    (s : Server) (con pcb : Option ℕ) (err : Err) (closed : Bool)
    → IsConsistent s
    → IsConsistent (tcp_close_client_connection s con pcb err closed).1
unfolding tcp_close_client_connection
close-IsConsistent s con none err closed h = release_any-IsConsistent s con h
close-IsConsistent s con (some pcb) err closed h = release_any-IsConsistent s con h

used-with_lengths :
    (cs : List Connection) (i h r : ℕ)
    → used (set cs i (record (get_or cs i cleared) { header_len = h; result_len = r })) ≡ used cs
used-with_lengths [] i h r = refl
used-with_lengths (c ∷ cs) zero h r = refl
used-with_lengths (c ∷ cs) (suc i) h r = ap (λ n. is_used c + n) (used-with_lengths cs i h r)

IsConsistent-IsKept : IsKept IsConsistent
IsConsistent-IsKept = record {
  closing = close-IsConsistent;
  responding = λ s con h r k. record {
    size = length-set s.connections con _ ∙ k.size;
    counted = k.counted ∙ ap pos (sym (used-with_lengths s.connections con h r));
    linked = All-set s.connections con _ k.linked (Linked-get_or s.connections con k.linked);
  };
}

Step-IsConsistent : {s t : Server} → IsConsistent s → Step s t → IsConsistent t
unfolding tcp_server_sent tcp_server_poll tcp_server_err
Step-IsConsistent {s} h (accept pcb err) = accept-IsConsistent s pcb err h
Step-IsConsistent {s} h (sent con pcb len closed) =
    let c = acknowledge (get_or s.connections con cleared) len in
    let counted = acknowledge-IsConsistent s con len h in
    elim (Bool-cases (leb (c.header_len + c.result_len) c.sent_len)) [
      | inl done ↦ rw done (close-IsConsistent _ (some con) (some pcb) err_ok closed counted)
      | inr more ↦ rw more counted
    ]
Step-IsConsistent {s} h (poll con pcb closed) =
    close-IsConsistent s (some con) (some pcb) err_ok closed h
Step-IsConsistent {s} h (failed none err) = h
Step-IsConsistent {s} h (failed (some con) err) = close-IsConsistent s (some con) none err true h
Step-IsConsistent {s} h (recv x headers complete packet) =
    tcp_server_recv-server IsConsistent IsConsistent-IsKept x (session s headers complete) packet h

-- From the cleared server on and in any order of lwIP's callbacks, there are four connections,
-- `active_connections` is the number of those that have a pcb (so it is never negative or above
-- four), and those are the ones that point back to the server.
pub Reach-server-IsConsistent : {s : Server} → Reach server_init s → IsConsistent s
Reach-server-IsConsistent here = record {
  size = refl;
  counted = refl;
  linked = (refl, (refl, (refl, (refl, tt))));
}
Reach-server-IsConsistent (next r st) = Step-IsConsistent (Reach-server-IsConsistent r) st
