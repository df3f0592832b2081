-- ===== src/Prelude/Decimal.antt =====
-- Decimal numerals: what `%d` prints for a number that is not negative, and how digits are read.
use Prim.Native.Nat.{ℕ, zero, suc, ◌+◌, ◌-◌, ◌*◌, ◌/◌, ◌%◌, ◌≤◌, ◌<◌}
use mathlib.Core.Path.{◌≡◌, refl, sym, ap, ◌∙◌}
use mathlib.Core.Logic.{inl, inr}
use mathlib.Core.Bool.{Bool, ◌&&◌}
use mathlib.Core.List.{[], ◌∷◌, ◌++◌, append-nil}
use native.Mathlib.Omega.{arith}
use nixos_kaiba_network.Prelude.Tests.{ltb, leb, if◌then◌else◌, Bool-cases}
use nixos_kaiba_network.Prelude.Lists.{All}
use nixos_kaiba_network.Prelude.Text.{Bytes, codes}

-- The digits of `n` in front of `out`. The fuel only has to exceed `n`.
digits : ℕ → ℕ → Bytes → Bytes
digits zero n out = out
digits (suc f) n out =
    let rest = digits f (n / 10) ((b'0' + n % 10) ∷ out) in
    if ltb n 10 then (b'0' + n) ∷ out else rest

unfoldable pub format_onto : ℕ → Bytes → Bytes
unfolding digits
format_onto n out = digits (suc n) n out

unfoldable pub format : ℕ → Bytes
unfolding format_onto
format n = format_onto n []

-- The number that a row of digits spells behind `n`.
abbrev pub value : ℕ → Bytes → ℕ
value n [] = n
value n (c ∷ s) = value (n * 10 + (c - b'0')) s

abbrev pub IsDigit : ℕ → Type 0
IsDigit c = (b'0' ≤ c) × (c ≤ b'9')

abbrev pub is_digit : ℕ → Bool
is_digit c = leb b'0' c && leb c b'9'

digits_fuel : (f g n : ℕ) (out : Bytes) → n < f → n < g → digits f n out ≡ digits g n out
unfolding digits
digits_fuel zero g n out h k = absurd (omega arith)
digits_fuel (suc f) zero n out h k = absurd (omega arith)
digits_fuel (suc f) (suc g) n out h k = elim (Bool-cases (ltb n 10)) [
  | inl small ↦ rw small
  | inr big ↦
      rw big (digits_fuel f g (n / 10) ((b'0' + n % 10) ∷ out) (ground arith) (ground arith))
]

pub format_onto_small : (n : ℕ) (out : Bytes) → n < 10 → format_onto n out ≡ (b'0' + n) ∷ out
unfolding format_onto
format_onto_small n out h = ground arith

pub format_onto_big :
    (n : ℕ) (out : Bytes)
    → 10 ≤ n
    → format_onto n out ≡ format_onto (n / 10) ((b'0' + n % 10) ∷ out)
unfolding format_onto
format_onto_big n out h =
    ground (arith, digits_fuel n (suc (n / 10)) (n / 10) ((b'0' + n % 10) ∷ out))

-- Printing a number that digits spell behind `m` prints `m` and then those digits.
format_onto-value :
    (s : Bytes) (m : ℕ) (out : Bytes)
    → 0 < m
    → All IsDigit s
    → format_onto (value m s) out ≡ format_onto m (s ++ out)
format_onto-value [] m out h d = refl
format_onto-value (c ∷ s) m out h d =
    format_onto-value s (m * 10 + (c - b'0')) out (omega arith) d.1
    ∙ ground (arith, format_onto_big (m * 10 + (c - b'0')) (s ++ out), digit_back, front)
  where
    digit_back : b'0' + (m * 10 + (c - b'0')) % 10 ≡ c
    digit_back = omega arith

    front : (m * 10 + (c - b'0')) / 10 ≡ m
    front = omega arith

-- A row of digits with no leading zero is what its value prints as.
pub format-value :
    (c : ℕ) (s : Bytes) → b'0' < c → c ≤ b'9' → All IsDigit s → format (value 0 (c ∷ s)) ≡ c ∷ s
unfolding format
format-value c s h k d =
    format_onto-value s (0 * 10 + (c - b'0')) [] (omega arith) d
    ∙ ground (arith, format_onto_small (0 * 10 + (c - b'0')) (s ++ []), append-nil s)

-- The other way: reading what is printed. The proofs recur on a bound for the number.
value-format_onto : (k n : ℕ) (out : Bytes) → n < k → value 0 (format_onto n out) ≡ value n out
value-format_onto zero n out h = absurd (omega arith)
value-format_onto (suc k) n out h = elim (Bool-cases (ltb n 10)) [
  | inl small ↦ rw (format_onto_small n out (ground arith)) (ap (λ m. value m out) (omega arith))
  | inr big ↦ rw (format_onto_big n out (ground arith)) (
      value-format_onto k (n / 10) ((b'0' + n % 10) ∷ out) (ground arith)
      ∙ ap (λ m. value m out) (ground arith))
]

pub value-format : (n : ℕ) → value 0 (format n) ≡ n
unfolding format
value-format n = value-format_onto (suc n) n [] (omega arith)

format_onto-IsDigit :
    (k n : ℕ) (out : Bytes) → n < k → All IsDigit out → All IsDigit (format_onto n out)
format_onto-IsDigit zero n out h d = absurd (omega arith)
format_onto-IsDigit (suc k) n out h d = elim (Bool-cases (ltb n 10)) [
  | inl small ↦ rw (format_onto_small n out (ground arith)) ((omega arith, ground arith), d)
  | inr big ↦ rw (format_onto_big n out (ground arith)) (
      format_onto-IsDigit k (n / 10) ((b'0' + n % 10) ∷ out) (ground arith)
        ((omega arith, omega arith), d))
]

pub format-IsDigit : (n : ℕ) → All IsDigit (format n)
unfolding format
format-IsDigit n = format_onto-IsDigit (suc n) n [] (omega arith) tt

-- The first digit of a positive number is not zero.
format_onto_head :
    (k n : ℕ) (out : Bytes)
    → n < k
    → 0 < n
    → (c : ℕ) × (s : Bytes) × (format_onto n out ≡ c ∷ s) × (b'0' < c)
format_onto_head zero n out h p = absurd (omega arith)
format_onto_head (suc k) n out h p = elim (Bool-cases (ltb n 10)) [
  | inl small ↦ (b'0' + n, out, format_onto_small n out (ground arith), omega arith)
  | inr big ↦
      let (c, s, e, l) =
        format_onto_head k (n / 10) ((b'0' + n % 10) ∷ out) (ground arith) (ground arith) in
      (c, s, format_onto_big n out (ground arith) ∙ e, l)
]

pub format_head : (n : ℕ) → 0 < n → (c : ℕ) × (s : Bytes) × (format n ≡ c ∷ s) × (b'0' < c)
unfolding format
format_head n h = format_onto_head (suc n) n [] (omega arith) h

pub format-injective : (m n : ℕ) → format m ≡ format n → m ≡ n
format-injective m n e = sym (value-format m) ∙ ap (value 0) e ∙ value-format n

format_test : format 1204 ≡ codes "1204"
unfolding format
format_test = refl
