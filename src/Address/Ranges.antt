-- ===== src/Address/Ranges.antt =====
-- The addresses that the policy accepts, as ranges.
use nixos_kaiba_network.Prelude.{
  ℕ, ◌+◌, ◌-◌, ◌*◌, ◌/◌, ◌^◌, ◌<◌, ◌≡◌, ◌≢◌, refl, Bool, true, false, not, ◌&&◌, ◌||◌, List, [],
  ◌∷◌, any, arith, Bytes, leb, Bool-cases, inl, inr, ◌==◌, if◌then◌else◌,
}
use nixos_kaiba_network.Net.{
  v4, v6, is_valid, is4in6, is_global_unicast, is_private, is_link_local_unicast, contains,
}
use nixos_kaiba_network.Address.{ipv4, is_publicly_routable}

unfoldable pub in_range : ℕ → ℕ × ℕ → Bool
in_range n (lo, hi) = leb lo n && leb n hi

-- First and last address of each range.
abbrev pub loopback : ℕ × ℕ
loopback = (ipv4 127 0 0 0, ipv4 127 255 255 255)

abbrev pub multicast : ℕ × ℕ
multicast = (ipv4 224 0 0 0, ipv4 239 255 255 255)

abbrev pub link_local : ℕ × ℕ
link_local = (ipv4 169 254 0 0, ipv4 169 254 255 255)

abbrev pub private_a : ℕ × ℕ
private_a = (ipv4 10 0 0 0, ipv4 10 255 255 255)

abbrev pub private_b : ℕ × ℕ
private_b = (ipv4 172 16 0 0, ipv4 172 31 255 255)

abbrev pub private_c : ℕ × ℕ
private_c = (ipv4 192 168 0 0, ipv4 192 168 255 255)

abbrev pub this_network : ℕ × ℕ
this_network = (ipv4 0 0 0 0, ipv4 0 255 255 255)

abbrev pub carrier_nat : ℕ × ℕ
carrier_nat = (ipv4 100 64 0 0, ipv4 100 127 255 255)

abbrev pub protocol_assignments : ℕ × ℕ
protocol_assignments = (ipv4 192 0 0 0, ipv4 192 0 0 255)

abbrev pub documentation_1 : ℕ × ℕ
documentation_1 = (ipv4 192 0 2 0, ipv4 192 0 2 255)

abbrev pub benchmarking : ℕ × ℕ
benchmarking = (ipv4 198 18 0 0, ipv4 198 19 255 255)

abbrev pub documentation_2 : ℕ × ℕ
documentation_2 = (ipv4 198 51 100 0, ipv4 198 51 100 255)

abbrev pub documentation_3 : ℕ × ℕ
documentation_3 = (ipv4 203 0 113 0, ipv4 203 0 113 255)

abbrev pub reserved : ℕ × ℕ
reserved = (ipv4 240 0 0 0, ipv4 255 255 255 255)

abbrev pub special_ranges : List (ℕ × ℕ)
special_ranges =
    loopback ∷ multicast ∷ link_local ∷ private_a ∷ private_b ∷ private_c ∷ this_network
    ∷ carrier_nat ∷ protocol_assignments ∷ documentation_1 ∷ benchmarking ∷ documentation_2
    ∷ documentation_3 ∷ reserved ∷ []

-- The tests of the code in its order; the first two, 0.0.0.0 and 255.255.255.255, lie in ranges.
ladder :
    (z b l m k p q r c1 c2 c3 c4 c5 c6 c7 c8 : Bool)
    → (z ≡ true → c1 ≡ true)
    → (b ≡ true → c8 ≡ true)
    → (if not true
          || false
          || not (true && not (z || b) && not l && not m && not k)
          || (p || q || r)
          || k
        then false
        else not (any (λ t. t) (c1 ∷ c2 ∷ c3 ∷ c4 ∷ c5 ∷ c6 ∷ c7 ∷ c8 ∷ [])))
      ≡ not (any (λ t. t) (l ∷ m ∷ k ∷ p ∷ q ∷ r ∷ c1 ∷ c2 ∷ c3 ∷ c4 ∷ c5 ∷ c6 ∷ c7 ∷ c8 ∷ []))
ladder z b l m k p q r c1 c2 c3 c4 c5 c6 c7 c8 hz hb = ground arith

-- The same for an IPv6 address with a zone, which is in no prefix.
ladder6 :
    (z l m k p : Bool)
    → (if not true || false || not (true && not (z && false) && not l && not m && not k) || p || k
        then false
        else not (any (λ t. t) (false ∷ [])))
      ≡ (not false && not l && not m && not k && not p)
ladder6 z l m k p = ground arith

-- The numbers with one quotient by the size of a block are a range.
block :
    (n size net : ℕ) (r : ℕ × ℕ)
    → net * size ≡ r.0
    → r.0 + size ≡ r.1 + 1
    → 0 < size
    → (n / size == net) ≡ in_range n r
unfolding in_range
block n size net (lo, last) e f h = grind arith

-- An IPv4 address is publicly routable exactly when it lies in none of the fourteen special
-- ranges.
pub is_publicly_routable-v4 :
    (n : ℕ) → n < 2 ^ 32 → is_publicly_routable (v4 n) ≡ not (any (in_range n) special_ranges)
unfolding is_publicly_routable is_valid is4in6 is_global_unicast is_private is_link_local_unicast
    contains
is_publicly_routable-v4 n h =
    simp
      (
        block n (2 ^ 24) (127) loopback refl refl (omega arith),
        block n (2 ^ 28) (0xe) multicast refl refl (omega arith),
        block n (2 ^ 16) (169 * 2 ^ 8 + 254) link_local refl refl (omega arith),
        block n (2 ^ 24) (10) private_a refl refl (omega arith),
        block n (2 ^ 20) (172 * 2 ^ 4 + 1) private_b refl refl (omega arith),
        block n (2 ^ 16) (192 * 2 ^ 8 + 168) private_c refl refl (omega arith),
        block n (2 ^ 24) (0) this_network refl refl (omega arith),
        block n (2 ^ 22) (100 * 4 + 1) carrier_nat refl refl (omega arith),
        block n (2 ^ 8) (0xc00000) protocol_assignments refl refl (omega arith),
        block n (2 ^ 8) (0xc00002) documentation_1 refl refl (omega arith),
        block n (2 ^ 17) (0xc612 / 2) benchmarking refl refl (omega arith),
        block n (2 ^ 8) (0xc63364) documentation_2 refl refl (omega arith),
        block n (2 ^ 8) (0xcb0071) documentation_3 refl refl (omega arith),
        block n (2 ^ 28) (0xf) reserved refl refl (omega arith),
      )
      (ladder (n == 0) (n == 2 ^ 32 - 1) (at loopback) (at multicast) (at link_local) (at private_a)
        (at private_b) (at private_c) (at this_network) (at carrier_nat) (at protocol_assignments)
        (at documentation_1) (at benchmarking) (at documentation_2) (at documentation_3)
        (at reserved) zero_in broadcast_in)
  where
    at : ℕ × ℕ → Bool
    at = in_range n

    zero_in : (n == 0) ≡ true → at this_network ≡ true
    zero_in e = unfold in_range in ground arith

    broadcast_in : (n == 2 ^ 32 - 1) ≡ true → at reserved ≡ true
    broadcast_in e = unfold in_range in ground arith

-- The prefixes are not applied to an address with a zone: whether such an address passes depends
-- on the tests of `IsGlobalUnicast`, `IsPrivate` and `IsLinkLocalUnicast` alone, so a zone carries
-- any address of a documentation, benchmarking or discard prefix through.
pub is_publicly_routable_zoned :
    (n : ℕ) (zone : Bytes)
    → zone ≢ []
    → n < 2 ^ 128
    → is_publicly_routable (v6 n zone) ≡ (
        not (n / 2 ^ 32 == 0xffff)
        && not (n == 1)
        && not (n / 2 ^ 120 == 0xff)
        && not (n / 2 ^ 118 == 0x3fa)
        && not (n / 2 ^ 121 == 0x7e))
unfolding is_publicly_routable is_valid is4in6 is_global_unicast is_private is_link_local_unicast
    contains
is_publicly_routable_zoned n [] z h = absurd (z refl)
is_publicly_routable_zoned n (c ∷ zone) z h = elim (Bool-cases (n / 2 ^ 32 == 0xffff)) [
  | inl e ↦ rw e
  | inr e ↦
      rw e (
        ladder6 (n == 0) (n == 1) (n / 2 ^ 120 == 0xff) (n / 2 ^ 118 == 0x3fa)
          (n / 2 ^ 121 == 0x7e))
]
