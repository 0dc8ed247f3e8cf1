-- ===== src/Web/Template/Bounds.antt =====
-- src/wifi.c's `expand_html_template` ends, and never writes past the end of its buffer.
use picow_day_clock.Base.{
  codes, ◌==◌, ℕ, zero, suc, ◌+◌, ◌<◌, ◌≤◌, List, [], ◌∷◌, ◌++◌, Option, none, some, leb, length,
  drop, arith, length-append, Bool-cases, inl, inr,
}
use picow_day_clock.Config.{FlashConfig}
use picow_day_clock.Web.CString.{starts_with, split_at}
use picow_day_clock.Web.Template.{
  add_prefix, find_text, replacement, Expanded, expand_key, expand_round, expand_loop,
  expand_html_template, template_start,
}

-- A result, with text that leaves room for the final NUL.
abbrev pub Fits : ℕ → Expanded → Type 0
Fits max_length none = ⊥
Fits max_length (some (err, out)) = length out < max_length

-- What follows an occurrence is shorter than the text.
abbrev Shorter : List ℕ → Option (List ℕ × List ℕ) → Type 0
Shorter s none = Unit
Shorter s (some (prefix, rest)) = length rest < length s

abbrev ShorterRest : List ℕ → Option (List ℕ) → Type 0
ShorterRest s none = Unit
ShorterRest s (some rest) = length rest < length s

ShorterRest-longer :
    (d : ℕ) (s : List ℕ) (r : Option (List ℕ)) → ShorterRest s r → ShorterRest (d ∷ s) r
ShorterRest-longer d s none h = tt
ShorterRest-longer d s (some rest) h = omega (arith, h)

Shorter-add_prefix :
    (d : ℕ) (s : List ℕ) (r : Option (List ℕ × List ℕ))
    → Shorter s r
    → Shorter (d ∷ s) (add_prefix d r)
Shorter-add_prefix d s none h = tt
Shorter-add_prefix d s (some (prefix, rest)) h = omega (arith, h)

length-drop : (n : ℕ) (s : List ℕ) → length (drop n s) ≤ length s
length-drop zero s = omega arith
length-drop (suc n) [] = omega arith
length-drop (suc n) (c ∷ s) = omega (arith, length-drop n s)

split_at-ShorterRest : (c : ℕ) (s : List ℕ) → ShorterRest s (split_at c s).1
unfolding split_at
split_at-ShorterRest c [] = tt
split_at-ShorterRest c (d ∷ s) = elim (Bool-cases (d == c)) [
  | inl found ↦ rw found (omega arith)
  | inr other ↦ rw other (ShorterRest-longer d s (split_at c s).1 (split_at-ShorterRest c s))
]

find_text-Shorter : (c : ℕ) (text s : List ℕ) → Shorter s (find_text (c ∷ text) s)
unfolding find_text
find_text-Shorter c text [] = tt
find_text-Shorter c text (d ∷ s) = elim (Bool-cases (starts_with (d ∷ s) (c ∷ text))) [
  | inl found ↦ rw found (omega (arith, length-drop (length text) s))
  | inr other ↦
      rw other (Shorter-add_prefix d s (find_text (c ∷ text) s) (find_text-Shorter c text s))
]

expand_key-Fits :
    (max_length : ℕ) (config : Option FlashConfig) (out : List ℕ) (split : List ℕ × Option (List ℕ))
    (next : List ℕ → List ℕ → Expanded) (s : List ℕ)
    → length out < max_length
    → ShorterRest s split.1
    → ((curr written : List ℕ)
        → length curr < length s
        → length written < max_length
        → Fits max_length (next curr written))
    → Fits max_length (expand_key max_length config out split next)
unfolding expand_key
expand_key-Fits max_length config out (key, none) next s room shorter go = room
expand_key-Fits max_length config out (key, some rest) next s room shorter go =
    elim (Bool-cases (leb max_length (length out + length (replacement config key)))) [
      | inl full ↦ rw full room
      | inr free ↦ rw free (
          go rest (out ++ replacement config key) shorter
            (ground (arith, length-append out (replacement config key))))
    ]

expand_round-Fits :
    (max_length : ℕ) (config : Option FlashConfig) (curr out : List ℕ)
    (found : Option (List ℕ × List ℕ)) (next : List ℕ → List ℕ → Expanded)
    → length out < max_length
    → Shorter curr found
    → ((rest written : List ℕ)
        → length rest < length curr
        → length written < max_length
        → Fits max_length (next rest written))
    → Fits max_length (expand_round max_length config curr out found next)
unfolding expand_round
expand_round-Fits max_length config curr out none next room shorter go =
    elim (Bool-cases (leb max_length (length out + length curr))) [
      | inl full ↦ rw full room
      | inr free ↦ rw free (ground (arith, length-append out curr))
    ]
expand_round-Fits max_length config curr out (some (prefix, after)) next room shorter go =
    elim (Bool-cases (leb max_length (length out + length prefix))) [
      | inl full ↦ rw full room
      | inr free ↦ rw free (
          expand_key-Fits max_length config (out ++ prefix) (split_at b'}' after) next after
            (ground (arith, length-append out prefix)) (split_at-ShorterRest b'}' after)
            (λ rest written less fits. go rest written (omega arith) fits))
    ]

expand_loop-Fits :
    (fuel max_length : ℕ) (config : Option FlashConfig) (curr out : List ℕ)
    → length curr < fuel
    → length out < max_length
    → Fits max_length (expand_loop fuel max_length config curr out)
unfolding expand_loop
expand_loop-Fits zero max_length config curr out enough room = absurd (omega arith)
expand_loop-Fits (suc fuel) max_length config [] out enough room = room
expand_loop-Fits (suc fuel) max_length config (c ∷ cs) out enough room =
    expand_round-Fits max_length config (c ∷ cs) out (find_text template_start (c ∷ cs))
      (λ curr written. expand_loop fuel max_length config curr written) room
      (find_text-Shorter b'{' (codes "TEMPLATE:") (c ∷ cs))
      (λ rest written less fits.
        expand_loop-Fits fuel max_length config rest written (omega arith) fits)

-- Whatever the template and the configuration, the expansion ends, and what it has written leaves
-- room for the final NUL in a buffer of `max_length` bytes, on an error too, if the buffer has any.
pub expand_html_template-Fits :
    (max_length : ℕ) (buffer : List ℕ) (flash_config : Option FlashConfig)
    → 1 ≤ max_length
    → Fits max_length (expand_html_template max_length buffer flash_config)
unfolding expand_html_template
expand_html_template-Fits max_length buffer flash_config h =
    expand_loop-Fits (suc (length buffer)) max_length flash_config buffer [] (omega arith)
      (omega arith)
