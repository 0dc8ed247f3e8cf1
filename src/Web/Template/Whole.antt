-- ===== src/Web/Template/Whole.antt =====
-- What src/wifi.c's `expand_html_template` makes of a template with its placeholders, and that the form
-- of the build has room.
use picow_day_clock.Base.{
  ℕ, zero, suc, ◌+◌, ◌<◌, ◌≤◌, ◌≡◌, refl, true, List, [], ◌∷◌, ◌++◌, Option, some, length, arith,
  length-append, get_or, ◌==◌, Bool-cases, inl, inr,
}
use mathlib.Core.List.{append-nil}
use picow_day_clock.Config.{FlashConfig}
use picow_day_clock.Web.CString.{c_str}
use picow_day_clock.Web.Pool.{err_ok}
use picow_day_clock.Web.Params.Valid.{IsValid}
use picow_day_clock.Web.Template.{
  find_text, expand_round, expand_loop, expand_html_template, template_start,
}
use picow_day_clock.Web.Template.Fill.{
  Key, ssid, pwd, ntp, key_text, value, template_of, filled, plain, find_text-plain, find_text_none,
  Expands, Expands-tail, Expands-round,
}

-- No placeholder text hides in the texts of a template.
abbrev pub AllPlain : List (List ℕ × Key) → List ℕ → Type 0
AllPlain [] tail = plain tail ≡ true
AllPlain ((t, k) ∷ ps) tail = (plain t ≡ true) × AllPlain ps tail

expand_loop-step :
    (fuel max_length : ℕ) (config : Option FlashConfig) (t s out : List ℕ)
    → expand_loop (suc fuel) max_length config (t ++ (template_start ++ s)) out
      ≡ expand_round max_length config
          (t ++ (template_start ++ s))
          out
          (find_text template_start (t ++ (template_start ++ s)))
          (λ curr written. expand_loop fuel max_length config curr written)
unfolding expand_loop
expand_loop-step fuel max_length config [] s out = refl
expand_loop-step fuel max_length config (c ∷ t) s out = refl

expand_loop-Expands :
    (fuel max_length : ℕ) (config : Option FlashConfig) (ps : List (List ℕ × Key))
    (tail out : List ℕ)
    → length (template_of ps tail) < fuel
    → length out < max_length
    → AllPlain ps tail
    → Expands max_length
        (out ++ filled config ps tail)
        (expand_loop fuel max_length config (template_of ps tail) out)
unfolding expand_loop
expand_loop-Expands zero max_length config ps tail out enough room h = absurd (omega arith)
expand_loop-Expands (suc fuel) max_length config [] [] out enough room h =
    rw append-nil (record { fits = λ lt. refl; full = λ le. absurd (omega (arith, le, room)) })
expand_loop-Expands (suc fuel) max_length config [] (c ∷ cs) out enough room h =
    rw (find_text_none (c ∷ cs) h) (
      Expands-tail max_length config (c ∷ cs) out
        (λ curr written. expand_loop fuel max_length config curr written))
expand_loop-Expands (suc fuel) max_length config ((t, k) ∷ ps) tail out enough room h =
    let rest = template_of ps tail in
    let after = key_text k ++ (b'}' ∷ rest) in
    let less : length rest < fuel = omega (
      arith,
      length-append t (template_start ++ after),
      length-append (key_text k) (b'}' ∷ rest),
    ) in
    rw (expand_loop-step fuel max_length config t after out, find_text-plain t after h.0)
      (Expands-round max_length config t k rest (t ++ (template_start ++ after)) out
        (filled config ps tail) (λ curr written. expand_loop fuel max_length config curr written)
        (λ w lt. expand_loop-Expands fuel max_length config ps tail w less lt h.1))

-- A template in which `{T` stands only at its placeholders for the SSID, the password and the NTP
-- server is expanded to its texts with the fields of the configuration between them, each up to its
-- NUL, or with nothing there if there is no configuration, if that leaves room for the final NUL in
-- the buffer of `max_length` bytes; if it does not, the result is an error.
pub expand_html_template-Expands :
    (max_length : ℕ) (config : Option FlashConfig) (ps : List (List ℕ × Key)) (tail : List ℕ)
    → 1 ≤ max_length
    → AllPlain ps tail
    → Expands max_length
        (filled config ps tail)
        (expand_html_template max_length (template_of ps tail) config)
unfolding expand_html_template
expand_html_template-Expands max_length config ps tail some_room h =
    expand_loop-Expands (suc (length (template_of ps tail))) max_length config ps tail []
      (omega arith) (omega arith) h

length-c_str : (n : ℕ) (b : List ℕ) → length b ≡ n + 1 → get_or b n 1 ≡ 0 → length (c_str b) ≤ n
unfolding c_str
length-c_str n [] e h = omega (arith, e)
length-c_str zero (c ∷ b) e h = rw h (omega arith)
length-c_str (suc n) (c ∷ b) e h =
    let rest = length-c_str n b (omega (arith, e)) h in
    elim (Bool-cases (c == 0)) [ inl z ↦ rw z (omega arith) | inr z ↦ rw z (omega (arith, rest)) ]

template_longer :
    (t : List ℕ) (k : Key) (ps : List (List ℕ × Key)) (tail : List ℕ)
    → suc (length t + length (template_of ps tail)) ≤ length (template_of ((t, k) ∷ ps) tail)
template_longer t k ps tail =
    let after = key_text k ++ (b'}' ∷ template_of ps tail) in
    omega (
      arith,
      length-append t (template_start ++ after),
      length-append (key_text k) (b'}' ∷ template_of ps tail),
    )

length-filled :
    (config : Option FlashConfig) (t : List ℕ) (k : Key) (ps : List (List ℕ × Key)) (tail : List ℕ)
    → length (filled config ((t, k) ∷ ps) tail)
      ≡ length t + length (value config k) + length (filled config ps tail)
length-filled config t k ps tail = omega (
  arith,
  length-append t (value config k ++ filled config ps tail),
  length-append (value config k) (filled config ps tail),
)

-- The form of the build, with its three placeholders, in the buffer that the build gives it: as long
-- as the template and the three longest values together.
abbrev pub form : List ℕ → List ℕ → List ℕ → List (List ℕ × Key)
form a b c = (a, ssid) ∷ (b, pwd) ∷ (c, ntp) ∷ []

-- A form that has the three placeholders once each, and `{T` nowhere else, always has room in a buffer
-- that is longer than the template by 32, 63 and 64 bytes, for every configuration that the form itself
-- can have stored: the page is the form with the three fields in it.
pub expand_html_template-form :
    (config : FlashConfig) (a b c tail : List ℕ)
    → IsValid config
    → AllPlain (form a b c) tail
    → let template = template_of (form a b c) tail in
      expand_html_template (length template + 32 + 63 + 64) template (some config)
      ≡ some (
        err_ok,
        a
            ++ (c_str config.wifi_ssid
                ++ (b ++ (c_str config.wifi_password ++ (c ++ (c_str config.ntp_server ++ tail))))),
      )
expand_html_template-form config a b c tail v h =
    let ps = form a b c in
    let all = some config in
    let template = template_of ps tail in
    let whole =
      expand_html_template-Expands (length template + 32 + 63 + 64) all ps tail (omega arith) h in
    whole.fits (
      omega (
        arith,
        length-c_str 32 config.wifi_ssid v.ssid.0 v.ssid.1,
        length-c_str 63 config.wifi_password v.password.0 v.password.1,
        length-c_str 64 config.ntp_server v.server.0 v.server.1,
        template_longer a ssid ((b, pwd) ∷ (c, ntp) ∷ []) tail,
        template_longer b pwd ((c, ntp) ∷ []) tail,
        template_longer c ntp [] tail,
        length-filled all a ssid ((b, pwd) ∷ (c, ntp) ∷ []) tail,
        length-filled all b pwd ((c, ntp) ∷ []) tail,
        length-filled all c ntp [] tail,
      ))
