-- ===== src/Web/Url.antt =====
-- `hex_to_int` and `urldecode_inplace` of src/wifi.c. The decoded text is never longer than the
-- encoded one, so that writing it in place only overwrites what has been read.
use picow_day_clock.Base.{
  ℕ, ◌+◌, ◌-◌, ◌*◌, ◌/◌, ◌%◌, ◌≤◌, ◌<◌, ◌≡◌, refl, ap, ◌∙◌, Bool, true, false, ◌&&◌, ◌||◌, List, [],
  ◌∷◌, arith, ltb, leb, ◌==◌, length, if◌then◌else◌, All, Bool-cases, ==_iff, ap₂, inl, inr,
}
use picow_day_clock.Web.CString.{c_str}

unfoldable pub hex_to_int : ℕ → ℕ
hex_to_int c =
    if leb b'0' c && leb c b'9'
    then c - b'0'
    else if leb b'a' c && leb c b'f'
    then c - b'a' + 10
    else if leb b'A' c && leb c b'F'
    then c - b'A' + 10
    else 0

-- A `+` stands for a space.
abbrev plain : ℕ → ℕ
plain c = if c == b'+' then b' ' else c

-- The decoding loop: what it has written at `dst` when `src` reaches the NUL. `hi << 4 | lo` of two
-- digits is a sum.
unfoldable pub url_loop : List ℕ → List ℕ
unfolding hex_to_int
url_loop [] = []
url_loop (c ∷ []) = plain c ∷ []
url_loop (c ∷ d ∷ []) = plain c ∷ plain d ∷ []
url_loop (c ∷ d ∷ e ∷ s) =
    let escaped = (hex_to_int d * 16 + hex_to_int e) ∷ url_loop s in
    let copied = plain c ∷ url_loop (d ∷ e ∷ s) in if c == b'%' then escaped else copied

abbrev is_newline : ℕ → Bool
is_newline c = c == 13 || c == 10

abbrev cons_unless_newline : ℕ → List ℕ → List ℕ
cons_unless_newline c [] = if is_newline c then [] else c ∷ []
cons_unless_newline c (d ∷ s) = c ∷ d ∷ s

-- The second loop: trailing CR and LF are dropped.
unfoldable pub strip_newlines : List ℕ → List ℕ
strip_newlines [] = []
strip_newlines (c ∷ s) = cons_unless_newline c (strip_newlines s)

-- The string that is left in the buffer. A decoded NUL ends it.
unfoldable pub urldecode_inplace : List ℕ → List ℕ
unfolding url_loop strip_newlines
urldecode_inplace str = c_str (strip_newlines (url_loop str))

length-url_loop : (s : List ℕ) → length (url_loop s) ≤ length s
unfolding url_loop
length-url_loop [] = omega arith
length-url_loop (c ∷ []) = omega arith
length-url_loop (c ∷ d ∷ []) = omega arith
length-url_loop (c ∷ d ∷ e ∷ s) = ground (arith, length-url_loop s, length-url_loop (d ∷ e ∷ s))

length-cons_unless_newline : (c : ℕ) (s : List ℕ) → length (cons_unless_newline c s) ≤ length s + 1
length-cons_unless_newline c [] = ground arith
length-cons_unless_newline c (d ∷ s) = omega arith

length-strip_newlines : (s : List ℕ) → length (strip_newlines s) ≤ length s
unfolding strip_newlines
length-strip_newlines [] = omega arith
length-strip_newlines (c ∷ s) =
    omega (arith, length-strip_newlines s, length-cons_unless_newline c (strip_newlines s))

length-c_str : (s : List ℕ) → length (c_str s) ≤ length s
unfolding c_str
length-c_str [] = omega arith
length-c_str (c ∷ s) = ground (arith, length-c_str s)

-- Decoding in place never makes a text longer.
pub length-urldecode_inplace : (s : List ℕ) → length (urldecode_inplace s) ≤ length s
unfolding urldecode_inplace
length-urldecode_inplace s = omega (
  arith,
  length-c_str (strip_newlines (url_loop s)),
  length-strip_newlines (url_loop s),
  length-url_loop s,
)

-- How a browser writes a form's value: a space is a plus, a character that it keeps is itself, and
-- any other byte is `%` and two hexadecimal digits.
abbrev pub hex_char : ℕ → ℕ
hex_char n = if ltb n 10 then b'0' + n else b'A' + (n - 10)

unfoldable pub url_encode : (ℕ → Bool) → List ℕ → List ℕ
url_encode keep [] = []
url_encode keep (c ∷ s) =
    if c == b' '
    then b'+' ∷ url_encode keep s
    else if keep c
    then c ∷ url_encode keep s
    else b'%' ∷ hex_char (c / 16) ∷ hex_char (c % 16) ∷ url_encode keep s

hex_to_int-hex_char : (n : ℕ) → n < 16 → hex_to_int (hex_char n) ≡ n
unfolding hex_to_int
hex_to_int-hex_char n h = ground arith

url_loop_other :
    (c : ℕ) (s : List ℕ) → (c == b'%') ≡ false → url_loop (c ∷ s) ≡ plain c ∷ url_loop s
unfolding url_loop
url_loop_other c [] h = refl
url_loop_other c (d ∷ []) h = refl
url_loop_other c (d ∷ e ∷ s) h = rw h

-- A byte of a value: not NUL.
abbrev pub IsByte : ℕ → Type 0
IsByte c = (1 ≤ c) × (c < 256)

url_loop_coded :
    (c : ℕ) (s : List ℕ)
    → IsByte c
    → url_loop (b'%' ∷ hex_char (c / 16) ∷ hex_char (c % 16) ∷ s) ≡ c ∷ url_loop s
unfolding url_loop
url_loop_coded c s h =
    ap₂ (λ x y. (x * 16 + y) ∷ url_loop s) (hex_to_int-hex_char (c / 16) (omega arith))
      (hex_to_int-hex_char (c % 16) (omega arith))
    ∙ ap (λ x. x ∷ url_loop s) (omega arith)

kept_plain : (keep : ℕ → Bool) (d c : ℕ) → keep d ≡ false → keep c ≡ true → (c == d) ≡ false
kept_plain keep d c h k = elim (Bool-cases (c == d)) [
  | inl e ↦ ground (arith, ap keep ((==_iff c d).0 e))
  | inr e ↦ e
]

plain_kept : (c : ℕ) → (c == b'+') ≡ false → plain c ≡ c
plain_kept c h = rw h

url_loop-url_encode :
    (keep : ℕ → Bool) (s : List ℕ)
    → keep b'%' ≡ false
    → keep b'+' ≡ false
    → All IsByte s
    → url_loop (url_encode keep s) ≡ s
unfolding url_encode
url_loop-url_encode keep [] kp kq h = unfold url_loop in refl
url_loop-url_encode keep (c ∷ s) kp kq h =
    let more = url_loop-url_encode keep s kp kq h.1 in
    elim (Bool-cases (c == b' ')) [
      | inl space ↦
          rw space (url_loop_other b'+' (url_encode keep s) refl ∙ ap₂ ◌∷◌ (ground arith) more)
      | inr other ↦ elim (Bool-cases (keep c)) [
        | inl kept ↦
            rw (other, kept)
              (url_loop_other c (url_encode keep s) (kept_plain keep b'%' c kp kept)
                ∙ ap₂ ◌∷◌ (plain_kept c (kept_plain keep b'+' c kq kept)) more)
        | inr coded ↦
            rw (other, coded) (url_loop_coded c (url_encode keep s) h.0 ∙ ap (λ x. c ∷ x) more)
      ]
    ]

c_str_lem : (s : List ℕ) → All IsByte s → c_str s ≡ s
unfolding c_str
c_str_lem [] h = refl
c_str_lem (c ∷ s) h = ground (arith, h.0, c_str_lem s h.1)

All-cons_unless_newline :
    (c : ℕ) (s : List ℕ) → IsByte c → All IsByte s → All IsByte (cons_unless_newline c s)
All-cons_unless_newline c [] h k = elim (Bool-cases (is_newline c)) [
  | inl e ↦ rw e tt
  | inr e ↦ rw e (h, tt)
]
All-cons_unless_newline c (d ∷ s) h k = (h, k)

All-strip_newlines : (s : List ℕ) → All IsByte s → All IsByte (strip_newlines s)
unfolding strip_newlines
All-strip_newlines [] h = h
All-strip_newlines (c ∷ s) h =
    All-cons_unless_newline c (strip_newlines s) h.0 (All-strip_newlines s h.1)

-- The decoder undoes the form encoding, whichever characters the sender leaves as they are (but `%`
-- and `+`): the text comes back, without the CR and LF it may end with.
pub urldecode_inplace-url_encode :
    (keep : ℕ → Bool) (s : List ℕ)
    → keep b'%' ≡ false
    → keep b'+' ≡ false
    → All IsByte s
    → urldecode_inplace (url_encode keep s) ≡ strip_newlines s
unfolding urldecode_inplace
urldecode_inplace-url_encode keep s kp kq h =
    ap (λ x. c_str (strip_newlines x)) (url_loop-url_encode keep s kp kq h)
    ∙ c_str_lem (strip_newlines s) (All-strip_newlines s h)
