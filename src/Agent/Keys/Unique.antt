-- ===== src/Agent/Keys/Unique.antt =====
-- dns/internal/agent/agent.go: when `randomID` gives the same key twice.
use nixos_kaiba_network.Prelude.{
  ℕ, ◌/◌, ◌%◌, ◌<◌, ◌≡◌, refl, sym, ap, ◌∙◌, some, [], ◌∷◌, ◌++◌, Bytes, arith,
}
use nixos_kaiba_network.Prelude.Hex.{hex_digit, hex}
use nixos_kaiba_network.Agent.Keys.{
  IdBytes, listed, stamp, slice, grouped, random_id, AreBytes, stamp-AreBytes,
}

abbrev ungrouped : Bytes → Bytes
ungrouped s = slice 0 8 s ++ slice 9 13 s ++ slice 14 18 s ++ slice 19 23 s ++ slice 24 36 s

ungrouped-grouped : (w : IdBytes) → ungrouped (grouped (hex (listed w))) ≡ hex (listed w)
unfolding grouped hex
ungrouped-grouped w = refl

hex_digit-injective : (m n : ℕ) → m < 16 → n < 16 → hex_digit m ≡ hex_digit n → m ≡ n
unfolding hex_digit
hex_digit-injective m n p q e = ground arith

hex-injective : (a b : Bytes) → AreBytes a → AreBytes b → hex a ≡ hex b → a ≡ b
unfolding hex
hex-injective [] [] p q e = refl
hex-injective [] (y ∷ b) p q e = cc
hex-injective (x ∷ a) [] p q e = cc
hex-injective (x ∷ a) (y ∷ b) p q e =
    let high : x / 16 ≡ y / 16 =
      hex_digit-injective (x / 16) (y / 16) (omega arith) (omega arith) (cc) in
    let low : x % 16 ≡ y % 16 =
      hex_digit-injective (x % 16) (y % 16) (omega arith) (omega arith) (cc) in
    let head : x ≡ y = omega arith in let tail : a ≡ b = hex-injective a b p.1 q.1 (cc) in cc

-- Two random arrays have the same identifier only if they agree in every byte, but for the six
-- bits that the version and the variant fix.
pub random_id-injective :
    (v w : IdBytes)
    → AreBytes (listed v)
    → AreBytes (listed w)
    → random_id (some v) ≡ random_id (some w)
    → listed (stamp v) ≡ listed (stamp w)
unfolding random_id
random_id-injective v w hv hw e =
    let texts : grouped (hex (listed (stamp v))) ≡ grouped (hex (listed (stamp w))) = cc in
    hex-injective (listed (stamp v)) (listed (stamp w)) (stamp-AreBytes v hv) (stamp-AreBytes w hw)
      (sym (ungrouped-grouped (stamp v)) ∙ ap ungrouped texts ∙ ungrouped-grouped (stamp w))
