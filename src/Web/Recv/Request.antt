-- ===== src/Web/Recv/Request.antt =====
-- The text of a form that a browser sends to src/wifi.c's `tcp_server_recv`, and the searches in it.
use picow_day_clock.Base.{
  ℕ, suc, ◌-◌, ◌<◌, ◌≡◌, refl, ap, sym, ◌∙◌, Bool, true, false, Option, List, [], ◌∷◌, ◌++◌, none,
  some, arith, ◌==◌, ◌||◌, Bool-cases, inl, inr, length, take, codes, if◌then◌else◌, All,
  length-append,
}
use picow_day_clock.Base.Int.{pos, ltb_ℤ}
use picow_day_clock.Web.CString.{starts_with, strstr}
use picow_day_clock.Web.Number.{digit_text}
use picow_day_clock.Web.Recv.{tcp_ip_buffer_size, int_max, crlf, blank_line}

-- Text without a character.
abbrev pub Without : ℕ → List ℕ → Type 0
Without p = All (λ c. (c == p) ≡ false)

-- A line of a request: some text with no CR.
abbrev pub IsLine : List ℕ → Type 0
IsLine [] = ⊥
IsLine (c ∷ l) = Without 13 (c ∷ l)

abbrev pub length_key : List ℕ
length_key = codes "Content-Length: "

-- A line that does not have the key of the length in it.
abbrev pub IsOther : List ℕ → Type 0
IsOther l = IsLine l × (strstr l length_key ≡ none)

-- Lines, each with its line end.
abbrev pub line_text : List (List ℕ) → List ℕ
line_text [] = []
line_text (l ∷ ls) = l ++ (13 ∷ 10 ∷ line_text ls)

abbrev pub request_line : List ℕ → List ℕ
request_line path = codes "POST " ++ (path ++ codes " HTTP/1.1")

abbrev pub length_line : List ℕ → List ℕ
length_line digits = length_key ++ digit_text digits

-- The lines from the one with the length on, and a body.
abbrev pub from_length : List ℕ → List (List ℕ) → List ℕ → List ℕ
from_length digits others body = line_text (length_line digits ∷ others) ++ (crlf ++ body)

-- A request for a path with headers before and after the one with the length, and a body.
abbrev pub post_request : List ℕ → List (List ℕ) → List ℕ → List (List ℕ) → List ℕ → List ℕ
post_request path before digits others body =
    line_text (request_line path ∷ before) ++ from_length digits others body

-- One that ends within the digits.
abbrev pub cut_request : List ℕ → List (List ℕ) → List ℕ → List ℕ
cut_request path before digits = line_text (request_line path ∷ before) ++ length_line digits

pub append_nil : (a : List ℕ) → a ++ [] ≡ a
append_nil [] = refl
append_nil (x ∷ a) = ap (λ l. x ∷ l) (append_nil a)

pub append_assoc : (a b c : List ℕ) → (a ++ b) ++ c ≡ a ++ (b ++ c)
append_assoc [] b c = refl
append_assoc (x ∷ a) b c = ap (λ l. x ∷ l) (append_assoc a b c)

pub strstr_skip :
    (s t : List ℕ) (p : ℕ) (ps : List ℕ)
    → Without p s
    → strstr (s ++ t) (p ∷ ps) ≡ strstr t (p ∷ ps)
unfolding strstr starts_with
strstr_skip [] t p ps h = refl
strstr_skip (c ∷ s) t p ps h = rw h.0 (strstr_skip s t p ps h.1)

starts_with-append : (p t : List ℕ) → starts_with (p ++ t) p ≡ true
unfolding starts_with
starts_with-append [] t = ground arith
starts_with-append (c ∷ p) t =
    let same : (c == c) ≡ true = ground arith in rw same (starts_with-append p t)

pub strstr_here : (p : ℕ) (ps t : List ℕ) → strstr (p ∷ (ps ++ t)) (p ∷ ps) ≡ some (p ∷ (ps ++ t))
unfolding strstr
strstr_here p ps t = rw (starts_with-append (p ∷ ps) t) refl

-- What a line begins with does not reach past its end.
starts_with-line :
    (s t key : List ℕ) → Without 13 key → starts_with (s ++ (13 ∷ t)) key ≡ starts_with s key
unfolding starts_with
starts_with-line s t [] h = ground arith
starts_with-line [] t (k ∷ key) h =
    let other : (13 == k) ≡ false = ground (arith, h.0) in rw other refl
starts_with-line (c ∷ s) t (k ∷ key) h = elim (Bool-cases (c == k)) [
  | inl e ↦ rw e (starts_with-line s t key h.1)
  | inr e ↦ rw e refl
]

strstr-line_end :
    (t : List ℕ) (k : ℕ) (key : List ℕ)
    → Without 13 (k ∷ key)
    → Without 10 (k ∷ key)
    → strstr (13 ∷ 10 ∷ t) (k ∷ key) ≡ strstr t (k ∷ key)
unfolding strstr starts_with
strstr-line_end t k key cr lf =
    let a : (13 == k) ≡ false = ground (arith, cr.0) in
    let b : (10 == k) ≡ false = ground (arith, lf.0) in rw (a, b) refl

absent_next :
    (b : Bool) (x : Option (List ℕ)) (s : List ℕ)
    → (if b then some s else x) ≡ none
    → (b ≡ false) × (x ≡ none)
absent_next true x s h = absurd (cc)
absent_next false x s h = (refl, h)

-- What is not in a line is searched for after it.
strstr-line :
    (s t : List ℕ) (k : ℕ) (key : List ℕ)
    → Without 13 (k ∷ key)
    → Without 10 (k ∷ key)
    → strstr s (k ∷ key) ≡ none
    → strstr (s ++ (13 ∷ 10 ∷ t)) (k ∷ key) ≡ strstr t (k ∷ key)
unfolding strstr
strstr-line [] t k key cr lf h = strstr-line_end t k key cr lf
strstr-line (c ∷ s) t k key cr lf h =
    let here = starts_with-line (c ∷ s) (10 ∷ t) (k ∷ key) cr in
    let absent = absent_next (starts_with (c ∷ s) (k ∷ key)) (strstr s (k ∷ key)) (c ∷ s) h in
    rw (here, absent.0) (strstr-line s t k key cr lf absent.1)

pub strstr-lines :
    (ls : List (List ℕ)) (t : List ℕ)
    → All IsOther ls
    → strstr (line_text ls ++ t) length_key ≡ strstr t length_key
strstr-lines [] t h = refl
strstr-lines (l ∷ ls) t h =
    ap (λ x. strstr x length_key) (append_assoc l (13 ∷ 10 ∷ line_text ls) t)
    ∙ strstr-line l (line_text ls ++ t) b'C' (codes "ontent-Length: ") (ground arith) (ground arith)
        h.0.1
    ∙ strstr-lines ls t h.1

IsLine-Without : (l : List ℕ) → IsLine l → Without 13 l
IsLine-Without [] h = tt
IsLine-Without (c ∷ l) h = h

strstr-line_break :
    (c : ℕ) (t : List ℕ)
    → (c == 13) ≡ false
    → strstr (13 ∷ 10 ∷ c ∷ t) blank_line ≡ strstr (c ∷ t) blank_line
unfolding strstr starts_with
strstr-line_break c t h = rw h refl

-- The first blank line is the one after the lines.
pub strstr-blank_line :
    (l : List ℕ) (ls : List (List ℕ)) (body : List ℕ)
    → All IsLine (l ∷ ls)
    → strstr (line_text (l ∷ ls) ++ (crlf ++ body)) blank_line ≡ some (blank_line ++ body)
strstr-blank_line l [] body h =
    ap (λ x. strstr x blank_line) (append_assoc l crlf (crlf ++ body))
    ∙ strstr_skip l (blank_line ++ body) 13 (10 ∷ crlf) (IsLine-Without l h.0)
    ∙ strstr_here 13 (10 ∷ crlf) body
strstr-blank_line l ([] ∷ ls) body h = absurd h.1.0
strstr-blank_line l ((c ∷ m) ∷ ls) body h =
    let more = line_text ((c ∷ m) ∷ ls) ++ (crlf ++ body) in
    ap (λ x. strstr x blank_line)
      (append_assoc l (13 ∷ 10 ∷ line_text ((c ∷ m) ∷ ls)) (crlf ++ body))
    ∙ strstr_skip l (13 ∷ 10 ∷ more) 13 (10 ∷ crlf) (IsLine-Without l h.0)
    ∙ strstr-line_break c ((m ++ (13 ∷ 10 ∷ line_text ls)) ++ (crlf ++ body)) h.1.0.0
    ∙ strstr-blank_line (c ∷ m) ls body h.1

line_text-append :
    (ls ms : List (List ℕ)) (t : List ℕ)
    → line_text (ls ++ ms) ++ t ≡ line_text ls ++ (line_text ms ++ t)
line_text-append [] ms t = refl
line_text-append (l ∷ ls) ms t =
    append_assoc l (13 ∷ 10 ∷ line_text (ls ++ ms)) t
    ∙ ap (λ x. l ++ (13 ∷ 10 ∷ x)) (line_text-append ls ms t)
    ∙ sym (append_assoc l (13 ∷ 10 ∷ line_text ls) (line_text ms ++ t))

IsLine-join : (ls ms : List (List ℕ)) → All IsOther ls → All IsLine ms → All IsLine (ls ++ ms)
IsLine-join [] ms h k = k
IsLine-join (l ∷ ls) ms h k = (h.0.0, IsLine-join ls ms h.1 k)

Without-append : (p : ℕ) (s t : List ℕ) → Without p s → Without p t → Without p (s ++ t)
Without-append p [] t h k = k
Without-append p (c ∷ s) t h k = (h.0, Without-append p s t h.1 k)

pub digit_text-Without : (p : ℕ) (ds : List ℕ) → p < b'0' → Without p (digit_text ds)
digit_text-Without p [] h = tt
digit_text-Without p (d ∷ ds) h = (ground (arith, h), digit_text-Without p ds h)

take-length : (s t : List ℕ) → take (length s) (s ++ t) ≡ s
take-length [] t = refl
take-length (c ∷ s) t = ap (λ l. c ∷ l) (take-length s t)

pub take_front : (s t : List ℕ) → take (length (s ++ t) - length t) (s ++ t) ≡ s
take_front s t =
    let size = length-append s t in
    let n : length (s ++ t) - length t ≡ length s = omega (arith, size) in rw n (take-length s t)

pub in_range :
    (n m : ℕ)
    → n ≡ m
    → m < tcp_ip_buffer_size
    → (if ltb_ℤ (pos n) (pos 0) || ltb_ℤ int_max (pos n) then none else some (pos n)) ≡ some (pos m)
in_range n m e h = ground (arith, e, h)

pub length-digit_text : (ds : List ℕ) → length (digit_text ds) ≡ length ds
length-digit_text [] = refl
length-digit_text (d ∷ ds) = ap suc (length-digit_text ds)

length_line-IsLine : (digits : List ℕ) → IsLine (length_line digits)
length_line-IsLine digits =
    Without-append 13 length_key (digit_text digits) (ground arith)
      (digit_text-Without 13 digits (omega arith))

-- The blank line of a request is the one before its body.
pub post_request-blank_line :
    (path : List ℕ) (before : List (List ℕ)) (digits : List ℕ) (others : List (List ℕ))
    (body : List ℕ)
    → All IsOther (request_line path ∷ before)
    → All IsLine others
    → strstr (post_request path before digits others body) blank_line ≡ some (blank_line ++ body)
post_request-blank_line path before digits others body head lines =
    let from = length_line digits ∷ others in
    ap (λ x. strstr x blank_line)
      (sym (line_text-append (request_line path ∷ before) from (crlf ++ body)))
    ∙ strstr-blank_line (request_line path) (before ++ from) body
        (IsLine-join (request_line path ∷ before) from head (length_line-IsLine digits, lines))

-- From the line with the length on, the text is that line and the rest.
abbrev pub after_length : List (List ℕ) → List ℕ → List ℕ
after_length others body = 13 ∷ 10 ∷ (line_text others ++ (crlf ++ body))

pub post_request_lem :
    (path : List ℕ) (before : List (List ℕ)) (digits : List ℕ) (others : List (List ℕ))
    (body : List ℕ)
    → post_request path before digits others body
      ≡ line_text (request_line path ∷ before) ++ (length_line digits ++ after_length others body)
post_request_lem path before digits others body =
    ap (λ x. line_text (request_line path ∷ before) ++ x)
      (append_assoc (length_line digits) (13 ∷ 10 ∷ line_text others) (crlf ++ body))
