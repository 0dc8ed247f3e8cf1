-- ===== src/Boot/Main/Settings/Examples.antt =====
-- A form with a time zone and a port, submitted and shown.
use picow_day_clock.Base.{
  ℕ, ◌*◌, ◌≤◌, ◌≡◌, refl, Bool, true, false, ◌||◌, ◌&&◌, leb, List, [], ◌∷◌, ◌++◌, none, some,
  length, codes, arith,
}
use picow_day_clock.Base.Int.{negsuc}
use picow_day_clock.Config.{FlashConfig, PersistentState, config_magic}
use picow_day_clock.Lcd.{Driver, lcd_width}
use picow_day_clock.Lcd.Panel.{Panel}
use picow_day_clock.Lcd.Frame.{Bitmaps}
use picow_day_clock.Lcd.Idle.{FontsFit}
use picow_day_clock.Web.CString.{str_eq, strstr, starts_with}
use picow_day_clock.Web.Number.{parse_long_bounded, strtol, skip_spaces, scan_digits}
use picow_day_clock.Web.Url.{strip_newlines, url_encode}
use picow_day_clock.Web.Params.{default_config, apply_param}
use picow_day_clock.Web.Params.Form.{form_body, apply_fields}
use picow_day_clock.Web.Pool.{err_ok, server_init, tcp_server_accept}
use picow_day_clock.Web.Recv.{Session, Context, tcp_server_recv}
use picow_day_clock.Web.Recv.Request.{post_request}
use picow_day_clock.Boot.{config_store_handler, empty_config}
use picow_day_clock.Boot.Start.{StartInput}
use picow_day_clock.Boot.Main.{Round, main}
use picow_day_clock.Boot.Main.Run.{has_timer, Runs}
use picow_day_clock.Boot.Main.Faces.{ShowsTime}
use picow_day_clock.Boot.Main.Settings.{flash_after, IsPost, tcp_server_recv-main}

-- The letters and digits, which browsers leave as they are.
abbrev plain_char : ℕ → Bool
plain_char c =
    (leb b'0' c && leb c b'9') || (leb b'A' c && leb c b'Z') || (leb b'a' c && leb c b'z')

abbrev context : Context
context = record {
  con = 0;
  pcb = 7;
  flash_config = none;
  html_form_expanded = codes "form";
  gw = codes "192.168.4.1";
  saved = λ config. true;
  closed = true;
}

abbrev session : Session
session = record {
  server = (tcp_server_accept server_init (some 7) err_ok).1;
  headers = [];
  complete = false;
}

abbrev fields : List (List ℕ × List ℕ)
fields = (codes "tz", codes "-300") ∷ (codes "port", codes "124") ∷ []

abbrev west : FlashConfig
west = record default_config { tz_offset_mins = negsuc 299; ntp_port = 124 }

apply_fields-west : apply_fields default_config fields ≡ some west
unfolding apply_fields apply_param parse_long_bounded strtol skip_spaces scan_digits str_eq
    strip_newlines
apply_fields-west = refl

-- What a browser sends around the length.
abbrev before : List (List ℕ)
before = codes "Host: 192.168.4.1" ∷ codes "Connection: keep-alive" ∷ []

abbrev others : List (List ℕ)
others = codes "Content-Type: application/x-www-form-urlencoded" ∷ []

fields-IsPost : IsPost plain_char fields (codes "/save") before 1 (8 ∷ []) others
unfolding form_body url_encode strstr starts_with
fields-IsPost = record {
  coded = (refl, refl, refl);
  are_fields = ground arith;
  form = record {
    head = ((ground arith, refl), ((ground arith, refl), ((ground arith, refl), tt)));
    lines = (ground arith, tt);
    decimal = ground arith;
    short = omega arith;
    size = refl;
    text = ground arith;
    fits = omega arith;
  };
}

always : true ≡ (config_store_handler west false).1
unfolding config_store_handler
always = refl

tcp_server_recv-main_example :
    let r = tcp_server_recv context session (
      some
        (post_request (codes "/save") before (1 ∷ 8 ∷ []) others (form_body plain_char fields))) in
    (r.1.complete ≡ true)
    × (flash_after empty_config r.2 ≡ record west { magic_marker = config_magic })
    × ((b : Bitmaps) (d : Driver) (panels : ℕ → Panel) (low : ℕ → Bool) (by_watchdog : Bool)
          (persistent : PersistentState) (added : Bool) (input : StartInput) (rs : List Round)
          (last : Round)
        → FontsFit b
        → lcd_width * 2 ≤ length d.linebuf
        → has_timer last.before ≡ true
        → Runs
            (ShowsTime b west last)
            b
            (d, panels)
            (main low by_watchdog persistent
              (flash_after empty_config r.2)
              added
              input
              (rs ++ (last ∷ []))))
tcp_server_recv-main_example =
    tcp_server_recv-main context session plain_char fields (codes "/save") before 1 (8 ∷ []) others
      west empty_config refl fields-IsPost always apply_fields-west
