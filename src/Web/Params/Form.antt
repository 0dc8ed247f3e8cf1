-- ===== src/Web/Params/Form.antt =====
-- What a browser posts for the form of src/wifi.c, and that the clock reads the fields back.
use picow_day_clock.Base.{
  ℕ, ◌<◌, ◌≡◌, refl, sym, ap, ◌∙◌, Bool, true, false, List, [], ◌∷◌, ◌++◌, Option, some, arith,
  ◌==◌, All, Bool-cases, inl, inr, map, ◌>>=◌, ◌/◌, ◌%◌, ==_iff,
}
use picow_day_clock.Config.{FlashConfig}
use picow_day_clock.Web.CString.{split_at, cons_token, tokens_from, tokens}
use picow_day_clock.Web.Url.{
  url_encode, hex_char, IsByte, strip_newlines, urldecode_inplace-url_encode,
}
use picow_day_clock.Web.Params.{
  base_config, apply_param, apply_split, apply_pair, apply_pairs, posted_config,
}

abbrev Lacks : ℕ → List ℕ → Type 0
Lacks c = All (λ d. (d == c) ≡ false)

abbrev form_field : (ℕ → Bool) → List ℕ × List ℕ → List ℕ
form_field keep (key, value) = key ++ (b'=' ∷ url_encode keep value)

-- `key=value&key=value…`, each value in the form encoding.
unfoldable pub form_body : (ℕ → Bool) → List (List ℕ × List ℕ) → List ℕ
form_body keep [] = []
form_body keep (f ∷ []) = form_field keep f
form_body keep (f ∷ g ∷ rest) = form_field keep f ++ (b'&' ∷ form_body keep (g ∷ rest))

-- The fields applied one by one.
unfoldable pub apply_fields : FlashConfig → List (List ℕ × List ℕ) → Option FlashConfig
apply_fields config [] = some config
apply_fields config (f ∷ rest) = do
  next ← apply_param config f.0 (strip_newlines f.1)
  apply_fields next rest

abbrev pub IsField : List ℕ × List ℕ → Type 0
IsField (key, value) = Lacks b'=' key × Lacks b'&' key × All IsByte value

append_snoc : (xs : List ℕ) (y : ℕ) (ys : List ℕ) → (xs ++ (y ∷ [])) ++ ys ≡ xs ++ (y ∷ ys)
append_snoc [] y ys = refl
append_snoc (x ∷ xs) y ys = ap (λ zs. x ∷ zs) (append_snoc xs y ys)

append_nil : (xs : List ℕ) → xs ++ [] ≡ xs
append_nil [] = refl
append_nil (x ∷ xs) = ap (λ zs. x ∷ zs) (append_nil xs)

Lacks-append : (c : ℕ) (s t : List ℕ) → Lacks c s → Lacks c t → Lacks c (s ++ t)
Lacks-append c [] t h k = k
Lacks-append c (d ∷ s) t h k = (h.0, Lacks-append c s t h.1 k)

tokens_from_last :
    (token : List ℕ) (c : ℕ) (s : List ℕ)
    → Lacks c s
    → tokens_from token c s ≡ cons_token (token ++ s) []
unfolding tokens_from
tokens_from_last token c [] h = ap (λ t. cons_token t []) (sym (append_nil token))
tokens_from_last token c (d ∷ s) h = rw h.0 (
    tokens_from_last (token ++ (d ∷ [])) c s h.1
    ∙ ap (λ t. cons_token t []) (append_snoc token d s))

tokens_from_next :
    (token : List ℕ) (c : ℕ) (s rest : List ℕ)
    → Lacks c s
    → tokens_from token c (s ++ (c ∷ rest)) ≡ cons_token (token ++ s) (tokens_from [] c rest)
unfolding tokens_from
tokens_from_next token c [] rest h =
    let same : (c == c) ≡ true = ground arith in
    rw same (ap (λ t. cons_token t (tokens_from [] c rest)) (sym (append_nil token)))
tokens_from_next token c (d ∷ s) rest h = rw h.0 (
    tokens_from_next (token ++ (d ∷ [])) c s rest h.1
    ∙ ap (λ t. cons_token t (tokens_from [] c rest)) (append_snoc token d s))

cons_token-append :
    (k : List ℕ) (d : ℕ) (s : List ℕ) (ts : List (List ℕ))
    → cons_token (k ++ (d ∷ s)) ts ≡ (k ++ (d ∷ s)) ∷ ts
cons_token-append [] d s ts = refl
cons_token-append (c ∷ k) d s ts = refl

split_at_lem :
    (c : ℕ) (key value : List ℕ) → Lacks c key → split_at c (key ++ (c ∷ value)) ≡ (key, some value)
unfolding split_at
split_at_lem c [] value h = let same : (c == c) ≡ true = ground arith in rw same
split_at_lem c (d ∷ key) value h = rw (h.0, split_at_lem c key value h.1)

Lacks-url_encode :
    (keep : ℕ → Bool) (s : List ℕ)
    → keep b'&' ≡ false
    → All IsByte s
    → Lacks b'&' (url_encode keep s)
unfolding url_encode
Lacks-url_encode keep [] k h = tt
Lacks-url_encode keep (c ∷ s) k h =
    let more = Lacks-url_encode keep s k h.1 in
    elim (Bool-cases (c == b' ')) [
      | inl space ↦ rw space (refl, more)
      | inr other ↦ elim (Bool-cases (keep c)) [
        | inl kept ↦ rw (other, kept) (kept_other keep b'&' c k kept, more)
        | inr coded ↦
            rw (other, coded)
              (
                refl,
                (
                  hex_char_other (c / 16) (omega arith),
                  (hex_char_other (c % 16) (omega arith), more),
                ),
              )
      ]
    ]
  where
    kept_other : (keep : ℕ → Bool) (d c : ℕ) → keep d ≡ false → keep c ≡ true → (c == d) ≡ false
    kept_other keep d c h k = elim (Bool-cases (c == d)) [
      | inl e ↦ ground (arith, ap keep ((==_iff c d).0 e))
      | inr e ↦ e
    ]

    hex_char_other : (n : ℕ) → n < 16 → (hex_char n == b'&') ≡ false
    hex_char_other n h = ground arith

module _ (keep : ℕ → Bool) (kp : keep b'%' ≡ false) (kq : keep b'+' ≡ false)
    (ka : keep b'&' ≡ false) where
  Lacks-form_field : (f : List ℕ × List ℕ) → IsField f → Lacks b'&' (form_field keep f)
  Lacks-form_field f h = Lacks-append b'&' f.0 _ h.1 (refl, Lacks-url_encode keep f.1 ka h.2)

  apply_pair-form_field :
      (config : FlashConfig) (f : List ℕ × List ℕ)
      → IsField f
      → apply_pair config (form_field keep f) ≡ apply_param config f.0 (strip_newlines f.1)
  unfolding apply_pair apply_split
  apply_pair-form_field config f h =
      ap (apply_split config) (split_at_lem b'=' f.0 (url_encode keep f.1) h.0)
      ∙ ap (apply_param config f.0) (urldecode_inplace-url_encode keep f.1 kp kq h.2)

  tokens-form_body :
      (fields : List (List ℕ × List ℕ))
      → All IsField fields
      → tokens_from [] b'&' (form_body keep fields) ≡ map (form_field keep) fields
  unfolding form_body
  tokens-form_body [] h = unfold tokens_from in refl
  tokens-form_body (f ∷ []) h =
      tokens_from_last [] b'&' (form_field keep f) (Lacks-form_field f h.0)
      ∙ cons_token-append f.0 b'=' (url_encode keep f.1) []
  tokens-form_body (f ∷ g ∷ rest) h =
      tokens_from_next [] b'&' (form_field keep f) _ (Lacks-form_field f h.0)
      ∙ cons_token-append f.0 b'=' (url_encode keep f.1) _
      ∙ ap (λ ts. form_field keep f ∷ ts) (tokens-form_body (g ∷ rest) h.1)

  apply_pairs-form_field :
      (config : FlashConfig) (fields : List (List ℕ × List ℕ))
      → All IsField fields
      → apply_pairs config (map (form_field keep) fields) ≡ apply_fields config fields
  unfolding apply_pairs apply_fields
  apply_pairs-form_field config [] h = refl
  apply_pairs-form_field config (f ∷ rest) h =
      ap (λ r. r >>= λ next. apply_pairs next (map (form_field keep) rest))
        (apply_pair-form_field config f h.0)
      ∙ ap (λ k. apply_param config f.0 (strip_newlines f.1) >>= k)
          (λ i next. apply_pairs-form_field next rest h.1 i)

-- The fields of a form come back in their order and with their values (less a CR or LF at the end),
-- whatever the bytes of the values but NUL, if no key has a `=` or a `&` in it and the sender does not
-- leave `%`, `+` and `&` as they are.
pub posted_config-form_body :
    (keep : ℕ → Bool) (flash : Option FlashConfig) (fields : List (List ℕ × List ℕ))
    → keep b'%' ≡ false
    → keep b'+' ≡ false
    → keep b'&' ≡ false
    → All IsField fields
    → posted_config flash (form_body keep fields) ≡ apply_fields (base_config flash) fields
unfolding posted_config tokens
posted_config-form_body keep flash fields kp kq ka h =
    ap (apply_pairs (base_config flash)) (tokens-form_body keep kp kq ka fields h)
    ∙ apply_pairs-form_field keep kp kq ka (base_config flash) fields h
