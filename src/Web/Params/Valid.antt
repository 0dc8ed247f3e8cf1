-- ===== src/Web/Params/Valid.antt =====
-- What the configuration form of src/wifi.c can store.
use picow_day_clock.Base.{
  ℕ, zero, suc, ◌+◌, ◌-◌, ◌≤◌, ◌≡◌, refl, sym, ap, subst, ◌∙◌, Bool, true, false, List, [], ◌∷◌,
  ◌++◌, Option, none, some, arith, length, get_or, take, drop, replicate, codes, if◌then◌else◌,
  length-take, length-append, ◌>>=◌,
}
use picow_day_clock.Base.Int.{ℤ, pos, negsuc, ◌≤ℤ◌, int_laws}
use picow_day_clock.Config.{FlashConfig}
use picow_day_clock.Web.CString.{str_eq, strncpy, split_at, tokens}
use picow_day_clock.Web.Number.{parse_long_bounded_range}
use picow_day_clock.Web.Url.{urldecode_inplace}
use picow_day_clock.Web.Params.{
  min_tz_offset_mins, max_tz_offset_mins, min_ntp_timeout_ms, max_ntp_timeout_ms, default_config,
  base_config, apply_param, set_tz, set_timeout, set_port, apply_split, apply_pair, apply_pairs,
  posted_config,
}

-- A `char` array of `n + 1` bytes that is NUL-terminated at its last byte at the latest.
abbrev pub IsText : ℕ → List ℕ → Type 0
IsText n b = (length b ≡ n + 1) × (get_or b n 1 ≡ 0)

pub record IsValid (config : FlashConfig) : Type 0 where
  pub ssid : IsText 32 config.wifi_ssid
  pub password : IsText 63 config.wifi_password
  pub server : IsText 64 config.ntp_server
  pub tz :
      (min_tz_offset_mins ≤ℤ config.tz_offset_mins) × (config.tz_offset_mins ≤ℤ max_tz_offset_mins)
  pub timeout : (1000 ≤ config.ntp_timeout) × (config.ntp_timeout ≤ 60000)
  pub port : (1 ≤ config.ntp_port) × (config.ntp_port ≤ 65535)

length-replicate : (n c : ℕ) → length (replicate n c) ≡ n
length-replicate zero c = refl
length-replicate (suc n) c = ap suc (length-replicate n c)

get_or-append : (xs ys : List ℕ) (d : ℕ) → get_or (xs ++ ys) (length xs) d ≡ get_or ys 0 d
get_or-append [] ys d = refl
get_or-append (x ∷ xs) ys d = get_or-append xs ys d

get_or-drop : (n : ℕ) (xs : List ℕ) (d : ℕ) → get_or (drop n xs) 0 d ≡ get_or xs n d
get_or-drop zero xs d = refl
get_or-drop (suc n) [] d = refl
get_or-drop (suc n) (x ∷ xs) d = get_or-drop n xs d

length-drop : (n : ℕ) (xs : List ℕ) → length (drop n xs) ≡ length xs - n
length-drop zero xs = omega arith
length-drop (suc n) [] = omega arith
length-drop (suc n) (x ∷ xs) = omega (arith, length-drop n xs)

-- Copying at most `n` bytes into an array of `n + 1` leaves its last byte.
strncpy-IsText : (n : ℕ) (b s : List ℕ) → IsText n b → IsText n (strncpy b s n)
unfolding strncpy
strncpy-IsText n b s h =
    let written = take n (s ++ replicate n 0) in
    let full : length written ≡ n = omega (
      arith,
      length-take n (s ++ replicate n 0),
      length-append s (replicate n 0),
      length-replicate n 0,
    ) in
    (
      omega (arith, length-append written (drop n b), length-drop n b, full),
      ap (λ k. get_or (written ++ drop n b) k 1) (sym full)
          ∙ get_or-append written (drop n b) 1
          ∙ get_or-drop n b 1
          ∙ h.1,
    )

-- What holds of a configuration, if there is one.
abbrev OnSome : Option FlashConfig → Type 0
OnSome none = Unit
OnSome (some config) = IsValid config

OnSome-if :
    (b : Bool) (x y : Option FlashConfig) → OnSome x → OnSome y → OnSome (if b then x else y)
OnSome-if true x y h k = h
OnSome-if false x y h k = k

module _ (config : FlashConfig) (v : IsValid config) where
  OnSome-set_tz :
      (r : Option ℤ)
      → ((n : ℤ) → r ≡ some n → (min_tz_offset_mins ≤ℤ n) × (n ≤ℤ max_tz_offset_mins))
      → OnSome (set_tz config r)
  OnSome-set_tz none h = tt
  OnSome-set_tz (some n) h = record {
    ssid = v.ssid;
    password = v.password;
    server = v.server;
    tz = h n refl;
    timeout = v.timeout;
    port = v.port;
  }

  OnSome-set_timeout :
      (r : Option ℤ)
      → ((n : ℤ) → r ≡ some n → (min_ntp_timeout_ms ≤ℤ n) × (n ≤ℤ max_ntp_timeout_ms))
      → OnSome (set_timeout config r)
  OnSome-set_timeout none h = tt
  OnSome-set_timeout (some (pos n)) h =
      let bounds = h (pos n) refl in
      record {
        ssid = v.ssid;
        password = v.password;
        server = v.server;
        tz = v.tz;
        timeout = (omega (int_laws, bounds), omega (int_laws, bounds));
        port = v.port;
      }
  OnSome-set_timeout (some (negsuc n)) h = absurd (omega (int_laws, (h (negsuc n) refl).0))

  OnSome-set_port :
      (r : Option ℤ)
      → ((n : ℤ) → r ≡ some n → (pos 1 ≤ℤ n) × (n ≤ℤ pos 65535))
      → OnSome (set_port config r)
  OnSome-set_port none h = tt
  OnSome-set_port (some (pos n)) h =
      let bounds = h (pos n) refl in
      record {
        ssid = v.ssid;
        password = v.password;
        server = v.server;
        tz = v.tz;
        timeout = v.timeout;
        port = (omega (int_laws, bounds), omega (int_laws, bounds));
      }
  OnSome-set_port (some (negsuc n)) h = absurd (omega (int_laws, (h (negsuc n) refl).0))

  OnSome-apply_param : (key value : List ℕ) → OnSome (apply_param config key value)
  unfolding apply_param
  OnSome-apply_param key value =
      OnSome-if (str_eq key (codes "ssid")) _ _
        (record {
          ssid = strncpy-IsText 32 config.wifi_ssid value v.ssid;
          password = v.password;
          server = v.server;
          tz = v.tz;
          timeout = v.timeout;
          port = v.port;
        })
        (OnSome-if (str_eq key (codes "pwd")) _ _
          (record {
            ssid = v.ssid;
            password = strncpy-IsText 63 config.wifi_password value v.password;
            server = v.server;
            tz = v.tz;
            timeout = v.timeout;
            port = v.port;
          })
          (OnSome-if (str_eq key (codes "ntp")) _ _
            (record {
              ssid = v.ssid;
              password = v.password;
              server = strncpy-IsText 64 config.ntp_server value v.server;
              tz = v.tz;
              timeout = v.timeout;
              port = v.port;
            })
            (OnSome-if (str_eq key (codes "tz")) _ _
              (OnSome-set_tz _
                (parse_long_bounded_range value min_tz_offset_mins max_tz_offset_mins))
              (OnSome-if (str_eq key (codes "dst")) _ _
                (record {
                  ssid = v.ssid;
                  password = v.password;
                  server = v.server;
                  tz = v.tz;
                  timeout = v.timeout;
                  port = v.port;
                })
                (OnSome-if (str_eq key (codes "cto")) _ _
                  (OnSome-set_timeout _
                    (parse_long_bounded_range value min_ntp_timeout_ms max_ntp_timeout_ms))
                  (OnSome-if (str_eq key (codes "port")) _ _
                    (OnSome-set_port _ (parse_long_bounded_range value (pos 1) (pos 65535)))
                    (OnSome-if (str_eq key (codes "led_on")) _ _
                      (record {
                        ssid = v.ssid;
                        password = v.password;
                        server = v.server;
                        tz = v.tz;
                        timeout = v.timeout;
                        port = v.port;
                      })
                      v)))))))

  OnSome-apply_split : (pair : List ℕ × Option (List ℕ)) → OnSome (apply_split config pair)
  unfolding apply_split
  OnSome-apply_split (key, none) = v
  OnSome-apply_split (key, some value) = OnSome-apply_param key (urldecode_inplace value)

OnSome-bind :
    (r : Option FlashConfig) (f : FlashConfig → Option FlashConfig)
    → OnSome r
    → ((next : FlashConfig) → IsValid next → OnSome (f next))
    → OnSome (r >>= f)
OnSome-bind none f h k = tt
OnSome-bind (some next) f h k = k next h

OnSome-apply_pairs :
    (config : FlashConfig) (pairs : List (List ℕ))
    → IsValid config
    → OnSome (apply_pairs config pairs)
unfolding apply_pairs apply_pair
OnSome-apply_pairs config [] v = v
OnSome-apply_pairs config (pair ∷ rest) v =
    OnSome-bind (apply_pair config pair) (λ next. apply_pairs next rest)
      (OnSome-apply_split config v (split_at b'=' pair)) (λ next h. OnSome-apply_pairs next rest h)

default_config-IsValid : IsValid default_config
unfolding strncpy
default_config-IsValid = record {
  ssid = (refl, refl);
  password = (refl, refl);
  server = (refl, refl);
  tz = (omega int_laws, omega int_laws);
  timeout = (omega arith, omega arith);
  port = (omega arith, omega arith);
}

abbrev pub BaseIsValid : Option FlashConfig → Type 0
BaseIsValid none = Unit
BaseIsValid (some config) = IsValid config

pub base_config-IsValid :
    (flash : Option FlashConfig) → BaseIsValid flash → IsValid (base_config flash)
base_config-IsValid none h = default_config-IsValid
base_config-IsValid (some config) h = h

-- Whatever the body of the request, a configuration that is handed to `store_config` has a time zone
-- between -12 and +14 hours, a timeout between 1 and 60 seconds, a port that is not 0, and strings
-- that end within their arrays; the configuration in flash, if there is one, being of that kind.
pub posted_config-IsValid :
    (flash : Option FlashConfig) (body : List ℕ) (stored : FlashConfig)
    → BaseIsValid flash
    → posted_config flash body ≡ some stored
    → IsValid stored
unfolding posted_config
posted_config-IsValid flash body stored h e =
    subst OnSome e
      (OnSome-apply_pairs (base_config flash) (tokens b'&' body) (base_config-IsValid flash h))
