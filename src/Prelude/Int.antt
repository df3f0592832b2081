-- ===== src/Prelude/Int.antt =====
-- Signed 64-bit integers: integers over the native numbers, with the wrap of `++` written out.
use nixos_kaiba_network.Prelude.Tests.{leb, ltb, ◌==◌, if◌then◌else◌}
use Prim.Native.Nat.{ℕ, zero, suc, ◌+◌, ◌-◌, ◌^◌, ◌≤◌, ◌<◌}
use mathlib.Core.Path.{◌≡◌}
use mathlib.Core.Bool.{Bool, true}
use native.Mathlib.Omega.{arith}

-- `negsuc n` is -(n + 1).
pub data ℤ : Type 0 where
  pos : ℕ → ℤ
  negsuc : ℕ → ℤ

abbrev pub pos_part : ℤ → ℕ
pos_part (pos n) = n
pos_part (negsuc n) = 0

abbrev pub neg_part : ℤ → ℕ
neg_part (pos n) = 0
neg_part (negsuc n) = suc n

infix 50 ◌≤ℤ◌ ◌<ℤ◌
abbrev pub ◌≤ℤ◌ : ℤ → ℤ → Type 0
a ≤ℤ b = pos_part a + neg_part b ≤ pos_part b + neg_part a

abbrev pub ◌<ℤ◌ : ℤ → ℤ → Type 0
a <ℤ b = pos_part a + neg_part b < pos_part b + neg_part a

abbrev pub leb_ℤ : ℤ → ℤ → Bool
leb_ℤ a b = leb (pos_part a + neg_part b) (pos_part b + neg_part a)

abbrev pub ltb_ℤ : ℤ → ℤ → Bool
ltb_ℤ a b = ltb (pos_part a + neg_part b) (pos_part b + neg_part a)

abbrev pub eq_ℤ : ℤ → ℤ → Bool
eq_ℤ a b = pos_part a + neg_part b == pos_part b + neg_part a

pub eq_ℤ_sound : (a b : ℤ) → eq_ℤ a b ≡ true → a ≡ b
eq_ℤ_sound a b h = ground arith

pub eq_ℤ_refl : (a : ℤ) → eq_ℤ a a ≡ true
eq_ℤ_refl a = ground arith

abbrev pub int64_max : ℕ
int64_max = 2 ^ 63 - 1

-- `g++` on an int64: past the maximum it wraps to the minimum.
unfoldable pub incr64 : ℤ → ℤ
incr64 (pos n) = if leb int64_max n then negsuc int64_max else pos (n + 1)
incr64 (negsuc zero) = pos 0
incr64 (negsuc (suc n)) = negsuc n

-- Below the maximum it is the next integer.
pub incr64_parts :
    (g : ℤ)
    → g <ℤ pos int64_max
    → pos_part (incr64 g) + neg_part g ≡ pos_part g + neg_part (incr64 g) + 1
unfolding incr64
incr64_parts (pos n) h = ground arith
incr64_parts (negsuc zero) h = omega arith
incr64_parts (negsuc (suc n)) h = omega arith

pub ℤ-antisymm : (a b : ℤ) → a ≤ℤ b → b ≤ℤ a → a ≡ b
ℤ-antisymm a b h k = ground arith
