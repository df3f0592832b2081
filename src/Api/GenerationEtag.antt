-- ===== src/Api/GenerationEtag.antt =====
-- `GenerationETag` and `ParseGenerationETag` undo one another.
use nixos_kaiba_network.Prelude.{
  ℕ, ◌≤◌, ◌<◌, ◌≡◌, refl, false, not, inl, inr, some, [], ◌∷◌, ◌++◌, arith, Bytes, All, any,
  strip_prefix, strip_prefix_sound, Bool-cases, Option-cases, ok,
}
use nixos_kaiba_network.Prelude.Int.{ℤ, pos, negsuc, int64_max, ◌≤ℤ◌, ◌<ℤ◌}
use nixos_kaiba_network.Prelude.Decimal.{
  format, is_digit, IsDigit, value-format, format-IsDigit, format_head, format-value,
}
use nixos_kaiba_network.Api.{
  quote, generation_etag_prefix, generation_etag, format_int, strip_quote, trim_quote, parse_digits,
  parse_generation_etag,
}

strip_quote-append : (s : Bytes) → strip_quote (s ++ quote ∷ []) ≡ some s
unfolding strip_quote
strip_quote-append [] = refl
strip_quote-append (c ∷ []) = refl
strip_quote-append (c ∷ d ∷ s) = ground (arith, strip_quote-append (d ∷ s))

strip_quote_sound : (s : Bytes) {r : Bytes} → strip_quote s ≡ some r → s ≡ r ++ quote ∷ []
unfolding strip_quote
strip_quote_sound [] h = cc
strip_quote_sound (c ∷ []) h = ground arith
strip_quote_sound (c ∷ d ∷ s) h = elim (Option-cases (strip_quote (d ∷ s))) [
  | inl e ↦ ground arith
  | inr (r, e) ↦ ground (arith, strip_quote_sound (d ∷ s) e)
]

digits_pass : (s : Bytes) → All IsDigit s → any (λ c. not (is_digit c)) s ≡ false
digits_pass [] h = refl
digits_pass (c ∷ s) h = ground (arith, digits_pass s h.1)

passed_digits : (s : Bytes) → any (λ c. not (is_digit c)) s ≡ false → All IsDigit s
passed_digits [] h = tt
passed_digits (c ∷ s) h = (ground arith, passed_digits s (ground arith))

parse_digits-format : (n : ℕ) → 0 < n → n ≤ int64_max → parse_digits (format n) ≡ ok (pos n)
unfolding parse_digits
parse_digits-format n p m =
    let (c, s, e, l) = format_head n p in
    ground (arith, e, value-format n, digits_pass (format n) (format-IsDigit n))

-- For every positive int64 generation, parsing its ETag gives the generation back.
pub parse-generation_etag :
    (g : ℤ) → pos 0 <ℤ g → g ≤ℤ pos int64_max → parse_generation_etag (generation_etag g) ≡ ok g
unfolding parse_generation_etag generation_etag format_int strip_prefix
parse-generation_etag (pos n) p m = ground (
  arith,
  strip_quote-append (generation_etag_prefix ++ format n),
  strip_quote-append (format n),
  parse_digits-format n (omega arith) (omega arith),
)
parse-generation_etag (negsuc n) p m = absurd (omega arith)

parse_digits_sound :
    (s : Bytes) (g : ℤ)
    → parse_digits s ≡ ok g
    → (pos 0 <ℤ g) × (g ≤ℤ pos int64_max) × (format_int g ≡ s)
unfolding parse_digits format_int
parse_digits_sound [] g h = cc
parse_digits_sound (c ∷ s) g h = elim (Bool-cases (any (λ d. not (is_digit d)) (c ∷ s))) [
  | inl bad ↦ ground arith
  | inr good ↦
      let all = passed_digits (c ∷ s) good in
      ground (arith, format-value c s (ground arith) (all.0.1) all.1)
]

-- Behind the prefix of an ETag, what is read is digits and a closing quote.
after_prefix :
    (rest : Bytes) (g : ℤ) {r : Bytes}
    → strip_quote (generation_etag_prefix ++ rest) ≡ some r
    → parse_digits (trim_quote rest) ≡ ok g
    → (pos 0 <ℤ g) × (g ≤ℤ pos int64_max) × (rest ≡ format_int g ++ quote ∷ [])
unfolding trim_quote
after_prefix [] g q h = absurd (unfold strip_quote in cc)
after_prefix (c ∷ s) g q h = elim (Option-cases (strip_quote (c ∷ s))) [
  | inl e ↦ absurd (unfold strip_quote in ground arith)
  | inr (d, e) ↦
      let (p, m, f) = parse_digits_sound d g (ground arith) in
      (p, m, ground (arith, strip_quote_sound (c ∷ s) e))
]

-- A text that `ParseGenerationETag` accepts is the ETag of the generation that it returns, which
-- is positive and fits in an int64: no other spelling of a generation is accepted.
pub parse_generation_etag_sound :
    (text : Bytes) (g : ℤ)
    → parse_generation_etag text ≡ ok g
    → (pos 0 <ℤ g) × (g ≤ℤ pos int64_max) × (text ≡ generation_etag g)
unfolding parse_generation_etag generation_etag
parse_generation_etag_sound text g h =
    elim (Option-cases (strip_prefix generation_etag_prefix text)) [
      | inl e ↦ ground arith
      | inr (rest, e) ↦ elim (Option-cases (strip_quote text)) [
        | inl q ↦ ground arith
        | inr (r, q) ↦
            let whole = strip_prefix_sound generation_etag_prefix text e in
            let (p, m, f) = after_prefix rest g {r = r} (rw whole at q) (ground arith) in
            (p, m, ground arith)
      ]
    ]
