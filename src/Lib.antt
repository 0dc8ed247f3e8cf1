-- ===== src/Lib.antt =====
-- The firmware of the Pico day clock: seven small displays show the weekday and the time, which an
-- NTP server gives over Wi-Fi. The parts and their files:
--
-- - Base: shared helpers. Base/Tests has the Boolean tests, Base/Lists lists over native numbers,
--   Base/Int the signed integers of `time_t` and `int`.
-- - Calendar (src/clock.c: day_of_week, nth_weekday, tm_to_epoch) with the C library's timegm and
--   gmtime_r, written out for the years from 1900 on. Calendar/Civil and Calendar/Gmtime hold the
--   lemmas on days and seconds, Calendar/Weekday those on the two functions of the firmware.
-- - Dst (src/clock.c: get_dst_bounds, time_is_dst, calculate_local_time, time_as_string).
-- - Ntp (src/ntp.c): the client's state, the request with its DNS and UDP callbacks. Ntp/Timestamp
--   is about the time in a packet, Ntp/Receive about which packets are accepted, Ntp/Machine about
--   the client as a state machine, Ntp/Effects about the lwIP lock and the result of a request.
-- - Config (src/flash_config.h, src/watchdog.h, src/wifi.h, src/config.h): shared structs.
-- - Clock (src/clock.c: clock_task and the two callbacks that set its flags; src/pico_main.c:
--   fatal_reset). Clock/Task has the NTP part of clock_task and the whole; Clock/Display and
--   Clock/Shows are about the digits on the displays, Clock/Supervise about the resets, Clock/Icons
--   about the sync interval and the watchdog icon, Clock/Button about the factory reset button.
-- - Web (src/wifi.c): Web/CString and Web/Number have the string functions and parse_long_bounded,
--   Web/Url the decoding of form values, Web/Params the fields of the configuration form with what
--   they can store (Web/Params/Valid) and that they come back (Web/Params/Form, Web/Params/Led), Web/Pool
--   the four TCP connections with their callbacks, Web/Template the form's text (expand_html_template), with
--   what it makes of placeholders (Web/Template/Fill, Web/Template/Whole),
--   Web/Recv tcp_server_recv: how it gathers a request (Web/Recv/Gather), what it stores
--   (Web/Recv/Store), what of the server it keeps (Web/Recv/Kept), and a form that is submitted
--   whole or cut (Web/Recv/Request, Web/Recv/Submit). Web/AccessPoint has start_wifi_access_point with
--   tcp_server_open, tcp_server_close and get_ssid.
-- - Wifi (src/wifi.c: connect_to_wifi). Wifi/Loop shows that the loop ends, Wifi/Verdict why.
-- - Boot (src/clock.c: config_store_handler, clock_init). Boot/Init is about the flash and the errors of
--   the run before, Boot/Start has clock_start and the errors for which it resets the Pico. Boot/Main is
--   main of src/pico_main.c, with its LED (Boot/Main/Led) and the access point (Boot/Main/Button; Kept is
--   what a task keeps of its flag and of the NTP client). Boot/Main/Reboot has the reasons for which a run
--   ends in a reboot, Boot/Main/Healthy a world in which there is none, each with a PowerOn for the boot and
--   the start before the loop. What the
--   displays show while it runs is followed in Boot/Main/View (the calls, made through the driver),
--   PowerOn (clock_init), Starting (clock_start), Quiet and Display (clock_task), Run (a round) and
--   Faces (the whole); Boot/Main/Settings joins it with the form, Boot/Main/Sync with the NTP client.
-- - Lcd (src/lcd.c, src/lcd.h, src/bitmap.h): the display driver, in Lcd the windows and rectangles, in
--   Lcd/Setup lcd_init, in Lcd/Image characters and images, in Lcd/Text the status lines, in
--   Lcd/Line where their characters stand. Lcd/Panel is the display that the driver relies on; Lcd/Rows,
--   Lcd/Window and Lcd/Paint say what it makes of lines, windows and rectangles, Lcd/Draws and Lcd/Bitmap
--   that the driver's loops draw rectangles, Lcd/Pixels what is drawn, Lcd/Idle that all of it leaves no
--   display selected, and Lcd/Init (Passes, Wake) what lcd_init leaves, Lcd/Power
--   being the display's sleep, its pins and the light. Lcd/Frame, Lcd/Simulate, Lcd/Digits,
--   Lcd/Printable and Lcd/Time join it with the drawing of clock_task. Lcd/Backlight is src/clock.c's
--   backlight_timer_callback.
--
-- The boot starts the Wi-Fi connection and the first NTP request. The clock task reads the time by
-- Calendar and Dst, starts requests by Ntp, and is told the answers by the NTP callbacks through the
-- state that both share. The web server writes the configuration that the boot loads.
--
-- State is passed explicitly: a function of the source that changes a struct returns the new one, and
-- calls of lwIP, of the SDK and of the displays come back as a list of effects in their order. What
-- those calls answer (DNS, a pbuf, tcp_close, the clocks) is an argument. A call that does not return
-- (`fatal_reset`) ends in the outcome `reboot`. A `char` array is the list of its bytes, a C string
-- the list before its NUL. 32-bit counts wrap as written (`% 2 ^ 32`). Weekdays, months and days are
-- natural numbers, and times are integers.
--
-- Loops recurse on a list or a count, except four. The search for the year in `gmtime` takes the number
-- of days divided by 365, plus one, as its fuel: no year is shorter, and a lemma of Calendar/Gmtime
-- shows that the fuel is enough. The search for placeholders in Web/Template takes the length of the
-- template, plus one: every round takes some of it away. The loop of connect_to_wifi takes a number of
-- rounds; the driver's answers are a parameter, and the bound of Wifi/Loop assumes of it that an attempt
-- which it reports as timed out took the ten seconds it was given. The wait of start_wifi_access_point takes
-- a number of rounds as well; it ends if that is more than the rounds before the flag is found set.
-- The main loop, which never ends but in a reboot, takes a list of rounds, each with the callbacks that
-- ran before it and what its task reads; the theorems are about every such list.
--
-- The display of Lcd/Panel is the view that the driver has of its hardware: chip select, the data/command
-- pin, column and row ranges, and memory writes that fill the window line by line. The driver's other
-- registers have no effect on it. Lcd/Power is a second view of a display: its reset line, the commands that
-- put it to sleep, wake it and turn it on or off, and the PWM channel of the backlight. The fonts and icons are generated by the build and are parameters;
-- the width and height of a glyph that fits a display are hypotheses. The square root of the backlight is
-- a parameter, with the hypothesis that it is the root in hundredths, cut to a whole number.
--
-- Not modelled: the texts of errors, and debug output. The DHCP and DNS servers are copies of other
-- projects' code, and are calls here.
pub mod Base
pub mod Calendar
pub mod Dst
pub mod Ntp
pub mod Config
pub mod Clock
pub mod Web
pub mod Wifi
pub mod Boot
pub mod Lcd
