-- ===== src/Controller/Trimming.antt =====
-- The rounds that `strings.TrimSpace` needs on a header value.
use nixos_kaiba_network.Prelude.{
  ℕ, zero, suc, ◌≤◌, ◌<◌, ◌≡◌, ap, ◌∙◌, false, inl, inr, none, some, List, [], ◌∷◌, All, arith,
  Bytes, length, length-append, is_empty, strip_prefix, strip_prefix_sound, Option-cases,
}
use nixos_kaiba_network.Controller.Request.{strip_any, drop_prefixes}

abbrev pub NotEmpty : Bytes → Type 0
NotEmpty p = is_empty p ≡ false

strip_prefix-shorter :
    (p s rest : Bytes) → NotEmpty p → strip_prefix p s ≡ some rest → length rest < length s
strip_prefix-shorter [] s rest n h = cc
strip_prefix-shorter (c ∷ p) s rest n h =
    let whole = ap length (strip_prefix_sound (c ∷ p) s h) ∙ length-append (c ∷ p) rest in
    omega arith

strip_any-shorter :
    (ps : List Bytes) (s rest : Bytes)
    → All NotEmpty ps
    → strip_any ps s ≡ some rest
    → length rest < length s
unfolding strip_any
strip_any-shorter [] s rest n h = cc
strip_any-shorter (p ∷ ps) s rest n h = elim (Option-cases (strip_prefix p s)) [
  | inl e ↦ strip_any-shorter ps s rest n.1 (rw (e, strip_any) at h)
  | inr (found, e) ↦
      let h' = rw (e, strip_any) at h in
      let same : found ≡ rest = ground arith in strip_prefix-shorter p s rest n.0 (e ∙ ap some same)
]

-- For every list of prefixes that are not empty, as many rounds as a text has bytes drop every
-- prefix of it: none is left on what remains.
pub drop_prefixes-none_left :
    (n : ℕ) (ps : List Bytes) (s : Bytes)
    → All NotEmpty ps
    → length s ≤ n
    → strip_any ps (drop_prefixes n ps s) ≡ none
unfolding drop_prefixes
drop_prefixes-none_left zero ps s not_empty enough = elim (Option-cases (strip_any ps s)) [
  | inl e ↦ e
  | inr (rest, e) ↦ absurd (omega (arith, strip_any-shorter ps s rest not_empty e))
]
drop_prefixes-none_left (suc n) ps s not_empty enough = elim (Option-cases (strip_any ps s)) [
  | inl e ↦ rw (e, drop_prefixes) e
  | inr (rest, e) ↦
      let shorter = strip_any-shorter ps s rest not_empty e in
      rw (e, drop_prefixes) (drop_prefixes-none_left n ps rest not_empty (omega arith))
]
