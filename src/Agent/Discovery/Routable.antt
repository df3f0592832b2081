-- ===== src/Agent/Discovery/Routable.antt =====
-- The addresses that the agent discovers, and what the controller makes of them.
use nixos_kaiba_network.Prelude.{
  inl, inr, ◌≤◌, ◌≡◌, refl, ◌∙◌, Bool, true, false, ◌||◌, Option, none, some, List, [], ◌∷◌, ◌++◌,
  All, All-append, All-map, arith, length, Bool-cases, Bytes, ok, >>=-eq-ok,
}
use nixos_kaiba_network.Prelude.Sorted.{sort, sort-eq_of_Ascending, Ascending}
use nixos_kaiba_network.Net.{Addr, is_valid, is4in6, addr_lt, addr_order}
use nixos_kaiba_network.Model.{Platform, canonical_addresses}
use nixos_kaiba_network.Model.Canonical.{canonical-Ascending, All-canonical}
use nixos_kaiba_network.Address.{is_publicly_routable}
use nixos_kaiba_network.Api.{addresses_from_net_ip}
use nixos_kaiba_network.Controller.Request.{validate_addresses}
use nixos_kaiba_network.Controller.Writes.{Admitted, unmap_plain}
use nixos_kaiba_network.Controller.Accepted.{validate_addresses-addresses_from_net_ip}
use nixos_kaiba_network.Agent.Discovery.{
  Interface, Prefixes, is_skipped, if_routable, or_parsed, assigned_addresses, read_interface,
  collect, discover_addresses,
}

abbrev pub IsRoutable : Addr → Type 0
IsRoutable a = is_publicly_routable a ≡ true

if_routable-IsRoutable : (parsed : Option Addr) → All IsRoutable (if_routable parsed)
unfolding if_routable
if_routable-IsRoutable none = tt
if_routable-IsRoutable (some a) = elim (Bool-cases (is_publicly_routable a)) [
  | inl e ↦ rw e (e, tt)
  | inr e ↦ rw e tt
]

routable_plain : (a : Addr) → IsRoutable a → (is_valid a ≡ true) × (is4in6 a ≡ false)
unfolding is_publicly_routable
routable_plain a h = (ground arith, ground arith)

module _ (platform : Platform) (prefixes : Prefixes) where
  assigned-IsRoutable :
      (values : List Bytes) → All IsRoutable (assigned_addresses platform prefixes values)
  unfolding assigned_addresses
  assigned-IsRoutable [] = tt
  assigned-IsRoutable (value ∷ values) =
      All-append IsRoutable _ (assigned_addresses platform prefixes values)
        (parsed (prefixes.parse_prefix value) (platform.parse_addr value))
        (assigned-IsRoutable values)
    where
      parsed : (p q : Option Addr) → All IsRoutable (or_parsed p q)
      parsed (some a) q = unfold or_parsed in if_routable-IsRoutable (some a)
      parsed none q = unfold or_parsed in if_routable-IsRoutable q

  collect-IsRoutable :
      (allowed : List Bytes) (interfaces : List Interface) (addresses : List Addr)
      → collect platform prefixes allowed interfaces ≡ ok addresses
      → All IsRoutable addresses
  unfolding collect
  collect-IsRoutable allowed [] addresses h = let e : addresses ≡ [] = cc in rw e tt
  collect-IsRoutable allowed (interface ∷ interfaces) addresses h =
      elim (Bool-cases (is_skipped allowed interface)) [
        | inl s ↦ collect-IsRoutable allowed interfaces addresses (rw s at h)
        | inr s ↦
            let h' = rw s at h in
            let (here, r, h'') =
              >>=-eq-ok (read_interface platform prefixes interface.assigned) _ h' in
            let (later, c, e) = >>=-eq-ok (collect platform prefixes allowed interfaces) _ h'' in
            let same : addresses ≡ here ++ later = ground arith in
            rw same (
              All-append IsRoutable here later (read interface.assigned here r)
                (collect-IsRoutable allowed interfaces later c))
      ]
    where
      read :
          (assigned : Option (List Bytes)) (found : List Addr)
          → read_interface platform prefixes assigned ≡ ok found
          → All IsRoutable found
      read none found e = unfold read_interface in cc
      read (some values) found e =
          unfold read_interface in
          let same : found ≡ assigned_addresses platform prefixes values = ground arith in
          rw same (assigned-IsRoutable values)

  discover_addresses-canonical :
      (allowed : List Bytes) (interfaces : Option (List Interface)) (addresses : List Addr)
      → discover_addresses platform prefixes allowed interfaces ≡ ok addresses
      → (found : List Addr) × All IsRoutable found × (addresses ≡ canonical_addresses found)
  unfolding discover_addresses
  discover_addresses-canonical allowed none addresses h = cc
  discover_addresses-canonical allowed (some interfaces) addresses h =
      let (found, c, e) = >>=-eq-ok (collect platform prefixes allowed interfaces) _ h in
      let sorted : addresses ≡ sort addr_lt (canonical_addresses found) = ground arith in
      (
        found,
        collect-IsRoutable allowed interfaces found c,
        sorted ∙ sort-eq_of_Ascending (canonical_addresses found) (canonical-Ascending found),
      )

  -- If the agent discovers 1 to 32 addresses, whatever the interfaces give, then they are strictly
  -- ascending, each is publicly routable, and the controller's `validateAddresses`, strict or not,
  -- accepts them as the agent sends them and gives them back.
  pub discover_addresses-validate_addresses :
      (allowed : List Bytes) (interfaces : Option (List Interface)) (addresses : List Addr)
      (allow : Bool)
      → discover_addresses platform prefixes allowed interfaces ≡ ok addresses
      → 1 ≤ length addresses
      → length addresses ≤ 32
      → Ascending addr_lt addresses
        × All IsRoutable addresses
        × (validate_addresses platform allow (addresses_from_net_ip platform addresses)
            ≡ ok addresses)
  discover_addresses-validate_addresses allowed interfaces addresses allow h low high =
      let (found, routable, same) = discover_addresses-canonical allowed interfaces addresses h in
      let ascending : Ascending addr_lt addresses = rw same (canonical-Ascending found) in
      let all : All IsRoutable addresses = rw same (
        All-canonical IsRoutable found
          (All-map found (λ a r. rw (unmap_plain a (routable_plain a r).1) r) routable)) in
      let admitted : All (Admitted allow) addresses =
        All-map addresses (λ a r. ((routable_plain a r).0, (routable_plain a r).1, either allow r))
          all in
      (
        ascending,
        all,
        validate_addresses-addresses_from_net_ip platform allow addresses admitted ascending low
            high,
      )
    where
      either : {b : Bool} (c : Bool) → b ≡ true → (c || b) ≡ true
      either true e = refl
      either false e = e
