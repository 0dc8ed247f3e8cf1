-- ===== src/Web/Recv/Store.antt =====
-- What src/wifi.c's `tcp_server_recv` hands to `store_config`.
use picow_day_clock.Base.{
  ℕ, ◌≡◌, refl, subst, Bool, true, false, List, [], ◌∷◌, Option, none, some, map, leb, ◌==◌, ◌||◌,
  length, drop, codes, if◌then◌else◌, ◌⊎◌, inl, inr, Bool-cases, All,
}
use picow_day_clock.Config.{FlashConfig}
use picow_day_clock.Web.CString.{starts_with}
use picow_day_clock.Web.Params.Valid.{
  IsValid, BaseIsValid, base_config-IsValid, posted_config-IsValid,
}
use picow_day_clock.Web.Pool
use picow_day_clock.Web.Pool.{Err, tcp_close_client_connection}
use picow_day_clock.Web.Recv.{
  tcp_ip_buffer_size, Session, Call, pool, store_config, Result, Context, close_connection, gather,
  Readiness, refused, incomplete, ready, readiness, is_post, answer_post, route_post, route_page,
  route_redirect, response_redirect_header, route, process_ready, process, tcp_server_recv,
}

-- A call that stores nothing, or a valid configuration.
abbrev pub StoresValid : Call → Type 0
StoresValid (store_config config) = IsValid config
StoresValid _ = Unit

-- A stored configuration for which `store_config` answers true.
abbrev pub Saves : Context → List Call → Type 0
Saves x [] = ⊥
Saves x (store_config config ∷ calls) = (x.saved config ≡ true) ⊎ Saves x calls
Saves x (_ ∷ calls) = Saves x calls

-- Only valid configurations are stored, and the flag is as before unless one has been saved.
pub record Stores (x : Context) (s : Session) (r : Result) : Type 0 where
  pub valid : All StoresValid r.2
  pub saved : (r.1.complete ≡ s.complete) ⊎ Saves x r.2

Stores-if :
    (x : Context) (s : Session) (b : Bool) (q r : Result)
    → Stores x s q
    → Stores x s r
    → Stores x s (if b then q else r)
Stores-if x s true q r h k = h
Stores-if x s false q r h k = k

pool_calls : (es : List Pool.Effect) → All StoresValid (map pool es)
pool_calls [] = tt
pool_calls (e ∷ es) = (tt, pool_calls es)

abbrev OnSome : Option FlashConfig → Type 0
OnSome none = Unit
OnSome (some config) = IsValid config

module _ (x : Context) (s : Session) (base : BaseIsValid x.flash_config) where
  close_connection-Stores : (e : Err) → Stores x s (close_connection x s e)
  unfolding close_connection
  close_connection-Stores e = record {
    valid =
        pool_calls (tcp_close_client_connection s.server (some x.con) (some x.pcb) e x.closed).2;
    saved = inl refl;
  }

  answer_post-Stores :
      (config : Option FlashConfig)
      → ((c : FlashConfig) → config ≡ some c → IsValid c)
      → Stores x s (answer_post x s config)
  unfolding answer_post
  answer_post-Stores none h = record { valid = (tt, (tt, tt)); saved = inl refl }
  answer_post-Stores (some config) h = elim (Bool-cases (x.saved config)) [
    | inl e ↦ rw e (record { valid = (h config refl, (tt, (tt, tt))); saved = inr (inl e) })
    | inr e ↦ rw e (record { valid = (h config refl, (tt, (tt, tt))); saved = inl refl })
  ]

  route_post-Stores : (text : Option (List ℕ)) → Stores x s (route_post x s text)
  unfolding route_post
  route_post-Stores none =
      answer_post-Stores _ (λ c e. subst OnSome e (base_config-IsValid x.flash_config base))
  route_post-Stores (some text) =
      Stores-if x s (leb tcp_ip_buffer_size (length (drop 4 text))) _ _ (close_connection-Stores _)
        (answer_post-Stores _ (λ c e. posted_config-IsValid x.flash_config (drop 4 text) c base e))

  route-Stores : (request : List ℕ) → Stores x s (route x s request)
  unfolding route route_page route_redirect
  route-Stores request = Stores-if x s (is_post request) _ _ (route_post-Stores _) (
      Stores-if x s
        (starts_with request (codes "GET /clock-config") || starts_with request (codes "GET / ")) _
        _ (record { valid = (tt, (tt, (tt, tt))); saved = inl refl })
        (Stores-if x s (leb tcp_ip_buffer_size (length (response_redirect_header x.gw))) _ _
          (close_connection-Stores _) (record { valid = (tt, (tt, tt)); saved = inl refl })))

  process_ready-Stores : (r : Readiness) → Stores x s (process_ready x s r)
  process_ready-Stores refused = close_connection-Stores _
  process_ready-Stores incomplete = record { valid = tt; saved = inl refl }
  process_ready-Stores ready = route-Stores s.headers

-- Whatever arrives in whatever state, each configuration that is handed to `store_config` has a time
-- zone, a timeout and a port in range and strings that end within their arrays, the configuration in
-- flash, if there is one, being of that kind; and `complete` stays as it is unless `store_config`
-- answers true for one.
pub tcp_server_recv-Stores :
    (x : Context) (s : Session) (packet : Option (List ℕ))
    → BaseIsValid x.flash_config
    → Stores x s (tcp_server_recv x s packet)
unfolding tcp_server_recv process
tcp_server_recv-Stores x s none base = close_connection-Stores x s base _
tcp_server_recv-Stores x s (some packet) base =
    let s' : Session = record s { headers = gather s.headers packet } in
    let later = process_ready-Stores x s' base (readiness s'.headers) in
    Stores-if x s (length packet == 0) _ _ (process_ready-Stores x s base (readiness s.headers))
      (record { valid = (tt, later.valid); saved = later.saved })
