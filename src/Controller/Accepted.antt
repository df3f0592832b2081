-- ===== src/Controller/Accepted.antt =====
-- The addresses that the device API accepts as they are.

use nixos_kaiba_network.Prelude.{
  suc, ◌≤◌, ◌⊎◌, inl, inr, Bool-cases, ◌≡◌, refl, ap, ◌∙◌, Bool, true, false, not, ◌||◌, ◌&&◌, some,
  List, [], ◌∷◌, map, All, All-map, arith, bytes_eq_refl, leb, length, ◌==◌, ok,
}
use nixos_kaiba_network.Prelude.Sorted.{
  elem, Ascending, Ascending-Distinct, Distinct, eq_sound, eq_refl, Ascending-eq,
}
use nixos_kaiba_network.Net.{Addr, addr_lt, addr_eq, addr_order}
use nixos_kaiba_network.Model.{Platform, canonical_addresses}
use nixos_kaiba_network.Model.Canonical.{canonical_addresses_lem, map-unmap_of_plain, IsPlain}
use nixos_kaiba_network.Address.{is_publicly_routable}
use nixos_kaiba_network.Api.{address_entry, addresses_from_net_ip}
use nixos_kaiba_network.Controller.Request.{check_address, check_addresses, validate_addresses}
use nixos_kaiba_network.Controller.Writes.{Admitted, unmap_plain}

-- A list in canonical order with no mapped address is its own canonical form.
pub canonical_of_Ascending :
    (xs : List Addr) → All IsPlain xs → Ascending addr_lt xs → canonical_addresses xs ≡ xs
canonical_of_Ascending xs plain h =
    let (a, m) = canonical_addresses_lem xs in
    Ascending-eq (canonical_addresses xs) xs a h
      (λ x. m x ∙ ap (elem x) (map-unmap_of_plain xs plain))

not_refused : (b c : Bool) → (b || c) ≡ true → (not b && not c) ≡ false
not_refused true c h = refl
not_refused false true h = refl
not_refused false false h = cc

elem_cons : (a b : Addr) (seen : List Addr) → elem b (a ∷ seen) ≡ (addr_eq b a || elem b seen)
unfolding elem
elem_cons a b seen = refl

none_equal :
    (a : Addr) (rest seen : List Addr)
    → elem a rest ≡ false
    → All (λ b. elem b seen ≡ false) rest
    → All (λ b. elem b (a ∷ seen) ≡ false) rest
unfolding elem
none_equal a [] seen n h = tt
none_equal a (b ∷ rest) seen n h =
    (differ (Bool-cases (addr_eq b a)), none_equal a rest seen (ground arith) h.1)
  where
    differ : (addr_eq b a ≡ true) ⊎ (addr_eq b a ≡ false) → (addr_eq b a || elem b seen) ≡ false
    differ (inr e) = rw (e, h.0) refl
    differ (inl e) = absurd (let same = eq_sound b a e in ground (arith, eq_refl a, same))

module _ (platform : Platform) (allow : Bool) where
  open platform use {parse-string}

  check_entry :
      (seen : List Addr) (a : Addr)
      → Admitted allow a
      → elem a seen ≡ false
      → check_address platform allow seen (address_entry platform a) (some a) ≡ ok a
  unfolding check_address address_entry
  check_entry seen a (v, plain, routable) fresh =
      rw (plain, bytes_eq_refl _, not_refused allow (is_publicly_routable a) routable, fresh) refl

  check_entries :
      (seen xs : List Addr)
      → All (Admitted allow) xs
      → Distinct xs
      → All (λ a. elem a seen ≡ false) xs
      → check_addresses platform allow seen (map (address_entry platform) xs) ≡ ok xs
  unfolding check_addresses
  check_entries seen [] h d f = refl
  check_entries seen (a ∷ xs) h d f =
      let parsed : platform.parse_addr (address_entry platform a).address ≡ some a =
        unfold address_entry in parse-string a h.0.0 in
      let read =
        ap (check_address platform allow seen (address_entry platform a)) parsed
        ∙ check_entry seen a h.0 f.0 in
      rw (read, check_entries (a ∷ seen) xs h.1 d.1 (none_equal a xs seen d.0 f.1)) refl

  length-entries : (xs : List Addr) → length (map (address_entry platform) xs) ≡ length xs
  length-entries [] = refl
  length-entries (a ∷ xs) = ap suc (length-entries xs)

  none_seen : (xs : List Addr) → All (λ a. elem a [] ≡ false) xs
  unfolding elem
  none_seen [] = tt
  none_seen (a ∷ xs) = (refl, none_seen xs)

  -- `validateAddresses` gives back every list of 1 to 32 addresses in canonical order that it
  -- admits, from the items that `AddressesFromNetIP` makes of it.
  pub validate_addresses-addresses_from_net_ip :
      (xs : List Addr)
      → All (Admitted allow) xs
      → Ascending addr_lt xs
      → 1 ≤ length xs
      → length xs ≤ 32
      → validate_addresses platform allow (addresses_from_net_ip platform xs) ≡ ok xs
  unfolding validate_addresses addresses_from_net_ip
  validate_addresses-addresses_from_net_ip xs h a low high =
      let plain = All-map xs (λ b admitted. unmap_plain b admitted.1) h in
      let same = canonical_of_Ascending xs plain a in
      let some_items : (length (map (address_entry platform) xs) == 0) ≡ false =
        ground (arith, length-entries xs) in
      let few_items : not (leb (length (map (address_entry platform) xs)) 32) ≡ false =
        ground (arith, length-entries xs) in
      rw
        (
          same,
          some_items,
          few_items,
          check_entries [] xs h (Ascending-Distinct xs a) (none_seen xs),
          same,
        )
        refl
