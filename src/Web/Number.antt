-- ===== src/Web/Number.antt =====
-- `parse_long_bounded` of src/wifi.c, and the `strtol` in base 10 that it calls. A `long` of the Pico
-- has 32 bits.
use picow_day_clock.Base.{
  ℕ, ◌+◌, ◌-◌, ◌*◌, ◌^◌, ◌≤◌, ◌<◌, ◌≡◌, refl, Bool, true, false, not, ◌&&◌, ◌||◌, List, [], ◌∷◌,
  Option, none, some, arith, ltb, leb, ◌==◌, if◌then◌else◌, All,
}
use picow_day_clock.Base.Int.{ℤ, pos, sub_ℕ, ◌≤ℤ◌, ltb_ℤ}

abbrev pub long_max : ℕ
long_max = 2 ^ 31 - 1

abbrev is_digit : ℕ → Bool
is_digit c = leb b'0' c && leb c b'9'

-- `isspace`
abbrev is_space : ℕ → Bool
is_space c = c == 32 || (leb 9 c && leb c 13)

unfoldable pub skip_spaces : List ℕ → List ℕ
skip_spaces [] = []
skip_spaces (c ∷ s) = if is_space c then skip_spaces s else c ∷ s

-- The number that the digits at the front add to `acc`, and the rest of the text.
unfoldable pub scan_digits : ℕ → List ℕ → ℕ × List ℕ
scan_digits acc [] = (acc, [])
scan_digits acc (c ∷ s) =
    let more = scan_digits (acc * 10 + (c - b'0')) s in if is_digit c then more else (acc, c ∷ s)

abbrev starts_with_digit : List ℕ → Bool
starts_with_digit [] = false
starts_with_digit (c ∷ s) = is_digit c

-- A value out of the range of `long` becomes the nearest one in it.
abbrev saturate : Bool → ℕ → ℤ
saturate true n = if ltb (long_max + 1) n then sub_ℕ 0 (long_max + 1) else sub_ℕ 0 n
saturate false n = if ltb long_max n then pos long_max else pos n

-- With no digits nothing is read: the rest is the whole text.
abbrev signed : Bool → List ℕ → List ℕ → ℤ × List ℕ
signed minus whole s =
    if starts_with_digit s
    then (saturate minus (scan_digits 0 s).0, (scan_digits 0 s).1)
    else (pos 0, whole)

abbrev after_spaces : List ℕ → List ℕ → ℤ × List ℕ
after_spaces whole [] = (pos 0, whole)
after_spaces whole (c ∷ s) =
    if c == b'-'
    then signed true whole s
    else if c == b'+'
    then signed false whole s
    else signed false whole (c ∷ s)

unfoldable pub strtol : List ℕ → ℤ × List ℕ
unfolding skip_spaces
strtol s = after_spaces s (skip_spaces s)

abbrev is_empty : List ℕ → Bool
is_empty [] = true
is_empty (c ∷ s) = false

-- `none` is `false`, and `*result` is then not written.
unfoldable pub parse_long_bounded : List ℕ → ℤ → ℤ → Option ℤ
parse_long_bounded value min_val max_val =
    let (parsed, rest) = strtol value in
    if is_empty value
    then none
    else if not (is_empty rest)
    then none
    else if ltb_ℤ parsed min_val || ltb_ℤ max_val parsed
    then none
    else some parsed

-- Whatever the text, a number that is accepted lies within the bounds.
pub parse_long_bounded_range :
    (value : List ℕ) (lo hi n : ℤ) → parse_long_bounded value lo hi ≡ some n → (lo ≤ℤ n) × (n ≤ℤ hi)
unfolding parse_long_bounded
parse_long_bounded_range value lo hi n e = ground arith

-- The value of decimal digits, most significant first.
abbrev pub value_from : ℕ → List ℕ → ℕ
value_from acc [] = acc
value_from acc (d ∷ ds) = value_from (acc * 10 + d) ds

-- Digits as text.
abbrev pub digit_text : List ℕ → List ℕ
digit_text [] = []
digit_text (d ∷ ds) = (b'0' + d) ∷ digit_text ds

scan_digits-digit_text :
    (acc : ℕ) (ds : List ℕ)
    → All (λ d. d < 10) ds
    → scan_digits acc (digit_text ds) ≡ (value_from acc ds, [])
unfolding scan_digits
scan_digits-digit_text acc [] h = refl
scan_digits-digit_text acc (d ∷ ds) h =
    let e : b'0' + d - b'0' ≡ d = omega arith in
    let digit : is_digit (b'0' + d) ≡ true = ground arith in
    rw (digit, e) (scan_digits-digit_text (acc * 10 + d) ds h.1)

module _ (d : ℕ) (ds : List ℕ) (h : All (λ c. c < 10) (d ∷ ds))
    (small : value_from 0 (d ∷ ds) ≤ long_max) where
  strtol-digit_text : strtol (digit_text (d ∷ ds)) ≡ (pos (value_from 0 (d ∷ ds)), [])
  unfolding strtol skip_spaces
  strtol-digit_text =
      let digit : is_digit (b'0' + d) ≡ true = ground arith in
      let blank : is_space (b'0' + d) ≡ false = ground arith in
      let plus : (b'0' + d == b'+') ≡ false = ground arith in
      let minus : (b'0' + d == b'-') ≡ false = ground arith in
      let fits : ltb long_max (value_from 0 (d ∷ ds)) ≡ false = ground arith in
      rw (blank, minus, plus, digit, scan_digits-digit_text 0 (d ∷ ds) h, fits)

  strtol_minus : strtol (b'-' ∷ digit_text (d ∷ ds)) ≡ (sub_ℕ 0 (value_from 0 (d ∷ ds)), [])
  unfolding strtol skip_spaces
  strtol_minus =
      let digit : is_digit (b'0' + d) ≡ true = ground arith in
      let fits : ltb (long_max + 1) (value_from 0 (d ∷ ds)) ≡ false = ground arith in
      rw (digit, scan_digits-digit_text 0 (d ∷ ds) h, fits)

-- A text of decimal digits, with or without a minus sign, is read as the number that it writes, if
-- that lies within the bounds and fits in a `long`; out of the bounds it is refused.
pub parse_long_bounded-digit_text :
    (d : ℕ) (ds : List ℕ) (lo hi : ℤ)
    → All (λ c. c < 10) (d ∷ ds)
    → value_from 0 (d ∷ ds) ≤ long_max
    → let n = pos (value_from 0 (d ∷ ds)) in
      let m = sub_ℕ 0 (value_from 0 (d ∷ ds)) in
      (parse_long_bounded (digit_text (d ∷ ds)) lo hi
        ≡ (if ltb_ℤ n lo || ltb_ℤ hi n then none else some n))
      × (parse_long_bounded (b'-' ∷ digit_text (d ∷ ds)) lo hi
          ≡ (if ltb_ℤ m lo || ltb_ℤ hi m then none else some m))
unfolding parse_long_bounded
parse_long_bounded-digit_text d ds lo hi h small =
    (rw (strtol-digit_text d ds h small), rw (strtol_minus d ds h small))
