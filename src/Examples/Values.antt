-- ===== src/Examples/Values.antt =====
-- Examples of ETags, addresses and address sets.
use nixos_kaiba_network.Prelude.{
  ◌≡◌, ◌≢◌, refl, true, false, [], ◌∷◌, ok, arith, Bytes, codes, bytes_eq, bytes_lt, strip_prefix,
  map, ◌+◌, ◌*◌, ◌^◌, ◌↔◌, not, any,
}
use nixos_kaiba_network.Prelude.Int.{pos, ◌≤ℤ◌, ◌<ℤ◌, int64_max, incr64}
use nixos_kaiba_network.Prelude.Sorted.{Ascending, SameMembers, sort, insert, elem}
use nixos_kaiba_network.Net.{
  v4, v6, addr_order, is_valid, is4, is4in6, unmap, addr_eq, addr_lt, is_loopback, is_multicast,
  is_link_local_unicast, is_private, is_global_unicast, contains,
}
use nixos_kaiba_network.Model.{
  status, dedup, canonical_addresses, same_elements, addresses_equal, addresses_hash,
}
use nixos_kaiba_network.Api.{generation_etag}
use nixos_kaiba_network.Api.{parse_generation_etag}
use nixos_kaiba_network.Api.GenerationEtag.{parse_generation_etag_sound}
use nixos_kaiba_network.Address.{is_publicly_routable, ipv4}
use nixos_kaiba_network.Address.Ranges.{
  is_publicly_routable-v4, is_publicly_routable_zoned, in_range, special_ranges,
}
use nixos_kaiba_network.Model.Canonical.{
  addresses_equal_iff, addresses_hash_iff, canonical_addresses_lem,
}
use nixos_kaiba_network.Examples.Fixtures.{small_platform, address_a, address_b}

seven : parse_generation_etag (codes "\"g-7\"") ≡ ok (pos 7)
unfolding parse_generation_etag strip_prefix
seven = refl

parse_generation_etag_sound_example :
    (pos 0 <ℤ pos 7) × (pos 7 ≤ℤ pos int64_max) × (codes "\"g-7\"" ≡ generation_etag (pos 7))
parse_generation_etag_sound_example = parse_generation_etag_sound (codes "\"g-7\"") (pos 7) seven

is_publicly_routable-v4_example :
    is_publicly_routable (v4 (ipv4 8 8 8 8)) ≡ not (any (in_range (ipv4 8 8 8 8)) special_ranges)
is_publicly_routable-v4_example = is_publicly_routable-v4 (ipv4 8 8 8 8) (omega arith)

abbrev zone : Bytes
zone = 1 ∷ []

cons_differs : zone ≢ []
cons_differs e = cc

-- 2001:db8::1%1 is routable, and 2001:db8::1 is not.
is_publicly_routable_zoned_example : is_publicly_routable (v6 (0x20010db8 * 2 ^ 96 + 1) zone) ≡ true
is_publicly_routable_zoned_example =
    is_publicly_routable_zoned (0x20010db8 * 2 ^ 96 + 1) zone cons_differs (omega arith)

unzoned_test : is_publicly_routable (v6 (0x20010db8 * 2 ^ 96 + 1) []) ≡ false
unfolding bytes_eq bytes_lt strip_prefix incr64 sort insert elem is_valid is4 is4in6 unmap addr_eq
    addr_lt is_loopback is_multicast is_link_local_unicast is_private is_global_unicast contains
    status dedup canonical_addresses same_elements addresses_equal addresses_hash
    is_publicly_routable
unzoned_test = refl

addresses_equal_iff_example :
    (addresses_equal (address_a ∷ address_b ∷ []) (address_b ∷ address_a ∷ []) ≡ true)
    ↔ SameMembers (map unmap (address_a ∷ address_b ∷ [])) (map unmap (address_b ∷ address_a ∷ []))
addresses_equal_iff_example =
    addresses_equal_iff (address_a ∷ address_b ∷ []) (address_b ∷ address_a ∷ [])

addresses_hash_iff_example :
    (addresses_hash small_platform (address_a ∷ address_b ∷ [])
      ≡ addresses_hash small_platform (address_b ∷ address_a ∷ []))
    ↔ (addresses_equal (address_a ∷ address_b ∷ []) (address_b ∷ address_a ∷ []) ≡ true)
unfolding bytes_eq bytes_lt strip_prefix incr64 sort insert elem is_valid is4 is4in6 unmap addr_eq
    addr_lt is_loopback is_multicast is_link_local_unicast is_private is_global_unicast contains
    status dedup canonical_addresses same_elements addresses_equal addresses_hash
addresses_hash_iff_example =
    addresses_hash_iff small_platform (address_a ∷ address_b ∷ []) (address_b ∷ address_a ∷ [])
      (refl, (refl, tt)) (refl, (refl, tt)) (λ e. refl)

canonical_addresses_lem_example :
    Ascending addr_lt (canonical_addresses (address_a ∷ address_a ∷ []))
    × SameMembers
        (canonical_addresses (address_a ∷ address_a ∷ []))
        (map unmap (address_a ∷ address_a ∷ []))
canonical_addresses_lem_example = canonical_addresses_lem (address_a ∷ address_a ∷ [])
