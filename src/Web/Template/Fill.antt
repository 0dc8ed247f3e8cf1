-- ===== src/Web/Template/Fill.antt =====
-- The rounds of src/wifi.c's `expand_html_template` over a template with its placeholders.
use picow_day_clock.Base.{
  ℕ, ◌+◌, ◌<◌, ◌≤◌, ◌≡◌, refl, ap, ◌∙◌, Bool, true, false, List, [], ◌∷◌, ◌++◌, Option, none, some,
  leb, ◌==◌, ◌&&◌, not, length, codes, arith, length-append, Bool-cases, inl, inr,
}
use mathlib.Core.List.{append_assoc}
use picow_day_clock.Config.{FlashConfig}
use picow_day_clock.Web.CString.{c_str, starts_with, split_at}
use picow_day_clock.Web.Pool.{err_ok, err_mem}
use picow_day_clock.Web.Template.{
  add_prefix, find_text, replacement, Expanded, expand_key, expand_round, template_start,
}

-- The placeholders of the form.
pub data Key : Type 0 where
  ssid pwd ntp : Key

abbrev pub key_text : Key → List ℕ
key_text ssid = codes "SSID"
key_text pwd = codes "PWD"
key_text ntp = codes "NTP"

-- What stands for a placeholder: a field of the configuration up to its NUL, if there is one.
abbrev pub value : Option FlashConfig → Key → List ℕ
value none k = []
value (some config) ssid = c_str config.wifi_ssid
value (some config) pwd = c_str config.wifi_password
value (some config) ntp = c_str config.ntp_server

-- A template: texts, each with the placeholder after it, and the text at the end.
abbrev pub template_of : List (List ℕ × Key) → List ℕ → List ℕ
template_of [] tail = tail
template_of ((t, k) ∷ ps) tail =
    t ++ (template_start ++ (key_text k ++ (b'}' ∷ template_of ps tail)))

abbrev pub filled : Option FlashConfig → List (List ℕ × Key) → List ℕ → List ℕ
filled config [] tail = tail
filled config ((t, k) ∷ ps) tail = t ++ (value config k ++ filled config ps tail)

-- No `{` stands before a `T`.
abbrev pub plain : List ℕ → Bool
plain [] = true
plain (c ∷ []) = true
plain (c ∷ d ∷ s) = not (c == b'{' && d == b'T') && plain (d ∷ s)

find_text-skip :
    (c : ℕ) (s : List ℕ)
    → starts_with (c ∷ s) template_start ≡ false
    → find_text template_start (c ∷ s) ≡ add_prefix c (find_text template_start s)
unfolding find_text
find_text-skip c s e = rw e refl

starts_with-apart :
    (c d : ℕ) (s : List ℕ)
    → (c == b'{' && d == b'T') ≡ false
    → starts_with (c ∷ d ∷ s) template_start ≡ false
unfolding starts_with
starts_with-apart c d s h = elim (Bool-cases (c == b'{')) [
  | inl e ↦ let other : (d == b'T') ≡ false = ground (arith, e, h) in rw (e, other) refl
  | inr e ↦ rw e refl
]

plain_head : (c d : ℕ) (s : List ℕ) → plain (c ∷ d ∷ s) ≡ true → (c == b'{' && d == b'T') ≡ false
plain_head c d s h = ground arith

plain_tail : (c d : ℕ) (s : List ℕ) → plain (c ∷ d ∷ s) ≡ true → plain (d ∷ s) ≡ true
plain_tail c d s h = ground arith

pub find_text-plain :
    (t rest : List ℕ)
    → plain t ≡ true
    → find_text template_start (t ++ (template_start ++ rest)) ≡ some (t, rest)
find_text-plain [] rest h = find_text-here rest
  where
    find_text-here : (r : List ℕ) → find_text template_start (template_start ++ r) ≡ some ([], r)
    find_text-here r = unfold find_text starts_with in refl
find_text-plain (c ∷ []) rest h =
    find_text-skip c (template_start ++ rest) (starts_with-apart c b'{' _ (ground arith))
    ∙ ap (add_prefix c) (find_text-plain [] rest refl)
find_text-plain (c ∷ d ∷ s) rest h =
    find_text-skip c (d ∷ (s ++ (template_start ++ rest)))
      (starts_with-apart c d _ (plain_head c d s h))
    ∙ ap (add_prefix c) (find_text-plain (d ∷ s) rest (plain_tail c d s h))

pub find_text_none : (t : List ℕ) → plain t ≡ true → find_text template_start t ≡ none
unfolding find_text
find_text_none [] h = refl
find_text_none (c ∷ []) h = find_text-skip c [] (starts_with_one c)
  where
    starts_with_one : (x : ℕ) → starts_with (x ∷ []) template_start ≡ false
    starts_with_one x = unfold starts_with in ground arith
find_text_none (c ∷ d ∷ s) h =
    find_text-skip c (d ∷ s) (starts_with-apart c d s (plain_head c d s h))
    ∙ ap (add_prefix c) (find_text_none (d ∷ s) (plain_tail c d s h))

split_at-key :
    (k : Key) (rest : List ℕ)
    → split_at b'}' (key_text k ++ (b'}' ∷ rest)) ≡ (key_text k, some rest)
unfolding split_at
split_at-key ssid rest = refl
split_at-key pwd rest = refl
split_at-key ntp rest = refl

replacement-key :
    (config : Option FlashConfig) (k : Key) → replacement config (key_text k) ≡ value config k
unfolding replacement starts_with
replacement-key none k = refl
replacement-key (some config) ssid = refl
replacement-key (some config) pwd = refl
replacement-key (some config) ntp = refl

-- The whole text, if it leaves room for the final NUL, and else an error.
pub record Expands (max_length : ℕ) (whole : List ℕ) (r : Expanded) : Type 0 where
  pub fits : length whole < max_length → r ≡ some (err_ok, whole)
  pub full : max_length ≤ length whole → (w : List ℕ) × (r ≡ some (err_mem, w))

Expands-full :
    (max_length : ℕ) (whole w : List ℕ)
    → max_length ≤ length whole
    → Expands max_length whole (some (err_mem, w))
Expands-full max_length whole w h = record {
  fits = λ lt. absurd (omega (arith, lt, h));
  full = λ le. (w, refl);
}

module _ (max_length : ℕ) (config : Option FlashConfig) where
  pub Expands-tail :
      (curr out : List ℕ) (next : List ℕ → List ℕ → Expanded)
      → Expands max_length (out ++ curr) (expand_round max_length config curr out none next)
  unfolding expand_round
  Expands-tail curr out next =
      let size = length-append out curr in
      elim (Bool-cases (leb max_length (length out + length curr))) [
        | inl e ↦ rw e (Expands-full max_length (out ++ curr) out (ground (arith, e, size)))
        | inr e ↦
            rw e (record { fits = λ lt. refl; full = λ le. absurd (ground (arith, e, size, le)) })
      ]

  Expands-key :
      (k : Key) (rest out fill : List ℕ) (next : List ℕ → List ℕ → Expanded)
      → ((w : List ℕ) → length w < max_length → Expands max_length (w ++ fill) (next rest w))
      → Expands max_length
          (out ++ (value config k ++ fill))
          (expand_key max_length config out (key_text k, some rest) next)
  unfolding expand_key
  Expands-key k rest out fill next go =
      let text = value config k in
      let size = length-append out (text ++ fill) in
      let size' = length-append text fill in
      let joined = length-append out text in
      elim (Bool-cases (leb max_length (length out + length text))) [
        | inl e ↦
            rw (replacement-key config k, e)
              (Expands-full max_length (out ++ (text ++ fill)) out (ground (arith, e, size, size')))
        | inr e ↦
            rw (replacement-key config k, e, ← append_assoc)
              (go (out ++ text) (ground (arith, e, joined)))
      ]

  pub Expands-round :
      (t : List ℕ) (k : Key) (rest curr out fill : List ℕ) (next : List ℕ → List ℕ → Expanded)
      → ((w : List ℕ) → length w < max_length → Expands max_length (w ++ fill) (next rest w))
      → Expands max_length
          (out ++ (t ++ (value config k ++ fill)))
          (expand_round max_length config curr out (some (t, key_text k ++ (b'}' ∷ rest))) next)
  unfolding expand_round
  Expands-round t k rest curr out fill next go =
      let more = value config k ++ fill in
      let size = length-append out (t ++ more) in
      let size' = length-append t more in
      elim (Bool-cases (leb max_length (length out + length t))) [
        | inl e ↦
            rw e (Expands-full max_length (out ++ (t ++ more)) out (ground (arith, e, size, size')))
        | inr e ↦
            rw (e, split_at-key k rest, ← append_assoc) (Expands-key k rest (out ++ t) fill next go)
      ]
