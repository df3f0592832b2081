-- ===== src/Address.antt =====
-- dns/internal/address/validation.go: which addresses may identify an Internet endpoint.
pub mod Ranges
use nixos_kaiba_network.Prelude.{
  ℕ, ◌+◌, ◌*◌, ◌/◌, ◌^◌, Bool, true, false, not, ◌||◌, List, [], ◌∷◌, any, if◌then◌else◌,
}
use nixos_kaiba_network.Net.{
  Addr, is_valid, is4in6, is_global_unicast, is_private, is_link_local_unicast, Prefix, prefix4,
  prefix6, contains,
}

-- a.b.c.d as a number.
abbrev pub ipv4 : ℕ → ℕ → ℕ → ℕ → ℕ
ipv4 a b c d = a * 2 ^ 24 + b * 2 ^ 16 + c * 2 ^ 8 + d

-- `nonPublicPrefixes`, each with its network number and its host bits.
abbrev pub non_public_prefixes : List Prefix
non_public_prefixes =
    prefix4 0 24  -- 0.0.0.0/8
    ∷ prefix4 (100 * 4 + 1) 22  -- 100.64.0.0/10
    ∷ prefix4 0xc00000 8  -- 192.0.0.0/24
    ∷ prefix4 0xc00002 8  -- 192.0.2.0/24
    ∷ prefix4 (0xc612 / 2) 17  -- 198.18.0.0/15
    ∷ prefix4 0xc63364 8  -- 198.51.100.0/24
    ∷ prefix4 0xcb0071 8  -- 203.0.113.0/24
    ∷ prefix4 0xf 28  -- 240.0.0.0/4
    ∷ prefix6 0x0100000000000000 64  -- 100::/64
    ∷ prefix6 0x200100020000 80  -- 2001:2::/48
    ∷ prefix6 0x2001001 100  -- 2001:10::/28
    ∷ prefix6 0x2001002 100  -- 2001:20::/28
    ∷ prefix6 0x20010db8 96  -- 2001:db8::/32
    ∷ prefix6 0x3fb 118  -- fec0::/10
    ∷ []

unfoldable pub is_publicly_routable : Addr → Bool
is_publicly_routable addr =
    if not (is_valid addr)
      || is4in6 addr
      || not (is_global_unicast addr)
      || is_private addr
      || is_link_local_unicast addr
    then false
    else not (any (λ prefix. contains prefix addr) non_public_prefixes)
