-- ===== src/Model.antt =====
-- dns/internal/model/model.go: the desired state of one device, its publication status, and the
-- canonical form of an address set. Times are nanoseconds since the Unix epoch.
pub mod Canonical
use nixos_kaiba_network.Prelude.{
  ℕ, ◌≡◌, Bool, true, false, not, List, [], ◌∷◌, map, Bytes, length, ◌==◌, if◌then◌else◌,
}
use nixos_kaiba_network.Prelude.Int.{ℤ, leb_ℤ}
use nixos_kaiba_network.Prelude.Sorted.{sort, elem}
use nixos_kaiba_network.Net.{Addr, AddrText, unmap, addr_eq, addr_lt, addr_order}

abbrev pub Time : Type 0
Time = ℕ

pub data PublicationStatus : Type 0 where
  accepted origin_applied publicly_observed : PublicationStatus

pub record Intent : Type 0 where
  pub device_id : Bytes
  pub hostname : Bytes
  pub addresses : List Addr
  pub generation : ℤ
  pub lease_expires_at : Time
  pub updated_at : Time
  pub origin_applied_generation : ℤ
  pub public_observed_generation : ℤ
  pub last_publication_error : Bytes

unfoldable pub status : Intent → PublicationStatus
status i =
    if leb_ℤ i.generation i.public_observed_generation
    then publicly_observed
    else if leb_ℤ i.generation i.origin_applied_generation
    then origin_applied
    else accepted

-- The loop of `CanonicalAddresses`; `seen` is its map, whose keys are the addresses kept so far.
unfoldable pub dedup : List Addr → List Addr → List Addr
dedup seen [] = []
dedup seen (addr ∷ rest) =
    let a = unmap addr in
    let skip = dedup seen rest in
    let take = a ∷ dedup (a ∷ seen) rest in if elem a seen then skip else take

unfoldable pub canonical_addresses : List Addr → List Addr
canonical_addresses addresses = sort addr_lt (dedup [] addresses)

-- The index loop of `AddressesEqual`, on lists of one length.
unfoldable pub same_elements : List Addr → List Addr → Bool
same_elements (x ∷ xs) (y ∷ ys) = if addr_eq x y then same_elements xs ys else false
same_elements [] _ = true
same_elements (x ∷ xs) [] = false

unfoldable pub addresses_equal : List Addr → List Addr → Bool
unfolding same_elements
addresses_equal a b =
    let ca = canonical_addresses a in
    let cb = canonical_addresses b in
    if not (length ca == length cb) then false else same_elements ca cb

-- What the program takes from its libraries: the text of addresses, and `digest`, the lower-case
-- hexadecimal SHA-256 of a JSON array of texts.
pub record Platform : Type 0 where
  pub text : AddrText
  pub open text use *
  pub digest : List Bytes → Bytes

module _ (platform : Platform) where
  open platform use {addr_string, digest}

  unfoldable pub addresses_hash : List Addr → Bytes
  addresses_hash addresses = digest (map addr_string (canonical_addresses addresses))
