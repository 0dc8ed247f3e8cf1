-- ===== src/Web/CString.antt =====
-- The C library's string functions that src/wifi.c calls. A string is the list of its bytes before
-- the final NUL; a byte is a number below 256.
use picow_day_clock.Base.{
  ℕ, Bool, true, false, ◌&&◌, List, [], ◌∷◌, ◌++◌, Option, none, some, ◌==◌, take, drop, replicate,
  if◌then◌else◌,
}

-- The string that a buffer holds: up to its first NUL.
unfoldable pub c_str : List ℕ → List ℕ
c_str [] = []
c_str (c ∷ cs) = if c == 0 then [] else c ∷ c_str cs

-- `strcmp(s, t) == 0`
unfoldable pub str_eq : List ℕ → List ℕ → Bool
str_eq [] [] = true
str_eq (a ∷ s) (b ∷ t) = a == b && str_eq s t
str_eq _ _ = false

-- `strncmp(s, prefix, strlen(prefix)) == 0`
unfoldable pub starts_with : List ℕ → List ℕ → Bool
starts_with s [] = true
starts_with [] (p ∷ ps) = false
starts_with (c ∷ s) (p ∷ ps) = c == p && starts_with s ps

-- `strstr`: the rest of the text from the first occurrence on.
unfoldable pub strstr : List ℕ → List ℕ → Option (List ℕ)
unfolding starts_with
strstr [] text = if starts_with [] text then some [] else none
strstr (c ∷ s) text = if starts_with (c ∷ s) text then some (c ∷ s) else strstr s text

-- `strncpy(buffer, s, n)` into an array: `n` bytes are written, padded with NULs.
unfoldable pub strncpy : List ℕ → List ℕ → ℕ → List ℕ
strncpy buffer s n = take n (s ++ replicate n 0) ++ drop n buffer

-- The text before the first `c`, and what follows it if there is one (`strchr` and a NUL put there).
unfoldable pub split_at : ℕ → List ℕ → List ℕ × Option (List ℕ)
split_at c [] = ([], none)
split_at c (d ∷ s) = if d == c then ([], some s) else (d ∷ (split_at c s).0, (split_at c s).1)

-- A token in front of the tokens found, unless it is empty.
abbrev pub cons_token : List ℕ → List (List ℕ) → List (List ℕ)
cons_token [] ts = ts
cons_token t ts = t ∷ ts

-- The tokens that repeated calls of `strtok_r` return: no token is empty. The first argument is the
-- token read so far.
unfoldable pub tokens_from : List ℕ → ℕ → List ℕ → List (List ℕ)
tokens_from token c [] = cons_token token []
tokens_from token c (d ∷ s) =
    let next = tokens_from [] c s in
    let more = tokens_from (token ++ (d ∷ [])) c s in if d == c then cons_token token next else more

unfoldable pub tokens : ℕ → List ℕ → List (List ℕ)
unfolding tokens_from
tokens c s = tokens_from [] c s
