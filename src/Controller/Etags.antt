-- ===== src/Controller/Etags.antt =====
-- The ETag of a response as the If-Match header of the next write.
use mathlib.Core.List.{reverse-append, reverse-reverse}
use nixos_kaiba_network.Prelude.{
  ℕ, zero, suc, ◌≡◌, refl, sym, ap, ◌∙◌, [], ◌∷◌, ◌++◌, map, reverse, Bytes, strip_prefix, length,
  ok,
}
use nixos_kaiba_network.Prelude.Int.{ℤ, pos, ◌<ℤ◌, ◌≤ℤ◌, int64_max}
use nixos_kaiba_network.Api.{generation_etag, generation_etag_prefix, format_int, quote}
use nixos_kaiba_network.Api.GenerationEtag.{parse-generation_etag}
use nixos_kaiba_network.Store.{match_generation}
use nixos_kaiba_network.Controller.Request.{
  spaces, strip_any, drop_prefixes, trim_space, match_value, parse_write_precondition,
}

quote_is_no_space : (n : ℕ) (s : Bytes) → drop_prefixes n spaces (quote ∷ s) ≡ quote ∷ s
unfolding drop_prefixes strip_any strip_prefix
quote_is_no_space zero s = refl
quote_is_no_space (suc n) s = refl

quote_ends_no_space :
    (n : ℕ) (s : Bytes) → drop_prefixes n (map reverse spaces) (quote ∷ s) ≡ quote ∷ s
unfolding drop_prefixes strip_any strip_prefix
quote_ends_no_space zero s = refl
quote_ends_no_space (suc n) s = refl

trim_space-quoted : (s : Bytes) → trim_space (quote ∷ (s ++ quote ∷ [])) ≡ quote ∷ (s ++ quote ∷ [])
unfolding trim_space
trim_space-quoted s =
    let text = quote ∷ (s ++ quote ∷ []) in
    let back : reverse text ≡ quote ∷ reverse (quote ∷ s) =
      reverse-append (quote ∷ s) (quote ∷ []) in
    ap (λ (l : Bytes). reverse (drop_prefixes (length l) (map reverse spaces) (reverse l)))
      (quote_is_no_space (length text) (s ++ quote ∷ []))
    ∙ ap (λ (r : Bytes). reverse (drop_prefixes (length text) (map reverse spaces) r)) back
    ∙ ap reverse (quote_ends_no_space (length text) (reverse (quote ∷ s)) ∙ sym back)
    ∙ reverse-reverse text

-- For every positive int64 generation, the ETag that a response carries, sent back as the only
-- precondition header of a write, asks for exactly that generation.
pub parse_write_precondition-generation_etag :
    (g : ℤ)
    → pos 0 <ℤ g
    → g ≤ℤ pos int64_max
    → parse_write_precondition (generation_etag g ∷ []) [] ≡ ok (match_generation g)
unfolding parse_write_precondition match_value
parse_write_precondition-generation_etag g p m =
    let quoted : trim_space (generation_etag g) ≡ generation_etag g =
      unfold generation_etag in trimmed (format_int g) in
    rw (quoted, parse-generation_etag g p m) refl
  where
    trimmed :
        (digits : Bytes)
        → trim_space (generation_etag_prefix ++ digits ++ quote ∷ [])
          ≡ generation_etag_prefix ++ digits ++ quote ∷ []
    trimmed digits = trim_space-quoted (b'g' ∷ b'-' ∷ digits)
