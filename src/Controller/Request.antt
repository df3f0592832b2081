-- ===== src/Controller/Request.antt =====
-- dns/internal/controller/controller.go: the checks on a write, its idempotency key, its
-- precondition headers and its addresses.
use nixos_kaiba_network.Prelude.{
  ℕ, zero, suc, Bool, false, not, ◌||◌, ◌&&◌, Option, none, some, List, [], ◌∷◌, map, reverse,
  Bytes, codes, bytes_eq, strip_prefix, length, any, leb, ◌==◌, if◌then◌else◌, Result, ok, err,
  ◌>>=◌, ◌>>◌, refuse_if,
}
use nixos_kaiba_network.Prelude.Int.{ℤ}
use nixos_kaiba_network.Prelude.Sorted.{elem}
use nixos_kaiba_network.Net.{Addr, is4, is4in6, addr_order}
use nixos_kaiba_network.Model.{Platform, canonical_addresses}
use nixos_kaiba_network.Address.{is_publicly_routable}
use nixos_kaiba_network.Api.{Address, EtagError, parse_generation_etag}
use nixos_kaiba_network.Store.{IntentPrecondition, match_generation, must_be_absent}

abbrev is_between : ℕ → ℕ → ℕ → Bool
is_between low high c = leb low c && leb c high

-- [A-Za-z0-9]
unfoldable pub is_alphanumeric : ℕ → Bool
is_alphanumeric c = is_between b'A' b'Z' c || is_between b'a' b'z' c || is_between b'0' b'9' c

-- [A-Za-z0-9._:-]
unfoldable pub is_key_character : ℕ → Bool
unfolding is_alphanumeric
is_key_character c = is_alphanumeric c || c == b'.' || c == b'_' || c == b':' || c == b'-'

-- ^[A-Za-z0-9][A-Za-z0-9._:-]{0,127}$
unfoldable pub is_idempotency_key : Bytes → Bool
unfolding is_key_character is_alphanumeric
is_idempotency_key [] = false
is_idempotency_key (c ∷ rest) =
    is_alphanumeric c && leb (length rest) 127 && not (any (λ d. not (is_key_character d)) rest)

-- The UTF-8 of the runes that `unicode.IsSpace` accepts.
abbrev pub spaces : List Bytes
spaces =
    (9 ∷ [])
    ∷ (10 ∷ [])
    ∷ (11 ∷ [])
    ∷ (12 ∷ [])
    ∷ (13 ∷ [])
    ∷ (32 ∷ [])
    ∷ (0xc2 ∷ 0x85 ∷ [])
    ∷ (0xc2 ∷ 0xa0 ∷ [])
    ∷ (0xe1 ∷ 0x9a ∷ 0x80 ∷ [])
    ∷ (0xe2 ∷ 0x80 ∷ 0x80 ∷ [])
    ∷ (0xe2 ∷ 0x80 ∷ 0x81 ∷ [])
    ∷ (0xe2 ∷ 0x80 ∷ 0x82 ∷ [])
    ∷ (0xe2 ∷ 0x80 ∷ 0x83 ∷ [])
    ∷ (0xe2 ∷ 0x80 ∷ 0x84 ∷ [])
    ∷ (0xe2 ∷ 0x80 ∷ 0x85 ∷ [])
    ∷ (0xe2 ∷ 0x80 ∷ 0x86 ∷ [])
    ∷ (0xe2 ∷ 0x80 ∷ 0x87 ∷ [])
    ∷ (0xe2 ∷ 0x80 ∷ 0x88 ∷ [])
    ∷ (0xe2 ∷ 0x80 ∷ 0x89 ∷ [])
    ∷ (0xe2 ∷ 0x80 ∷ 0x8a ∷ [])
    ∷ (0xe2 ∷ 0x80 ∷ 0xa8 ∷ [])
    ∷ (0xe2 ∷ 0x80 ∷ 0xa9 ∷ [])
    ∷ (0xe2 ∷ 0x80 ∷ 0xaf ∷ [])
    ∷ (0xe2 ∷ 0x81 ∷ 0x9f ∷ [])
    ∷ (0xe3 ∷ 0x80 ∷ 0x80 ∷ [])
    ∷ []

-- The text after the first of the prefixes that it has.
unfoldable pub strip_any : List Bytes → Bytes → Option Bytes
strip_any [] s = none
strip_any (p ∷ ps) s = elim (strip_prefix p s) [ some rest ↦ some rest | none ↦ strip_any ps s ]

-- Prefixes are dropped while there is one; as many rounds as there are bytes suffice.
unfoldable pub drop_prefixes : ℕ → List Bytes → Bytes → Bytes
unfolding strip_any
drop_prefixes zero ps s = s
drop_prefixes (suc n) ps s = elim (strip_any ps s) [
  | none ↦ s
  | some rest ↦ drop_prefixes n ps rest
]

-- `strings.TrimSpace`
unfoldable pub trim_space : Bytes → Bytes
unfolding drop_prefixes
trim_space s =
    let left = drop_prefixes (length s) spaces s in
    reverse (drop_prefixes (length left) (map reverse spaces) (reverse left))

pub data PreconditionError : Type 0 where
  precondition_is_required : PreconditionError
  too_many_if_match : PreconditionError
  bad_if_match : EtagError → PreconditionError
  bad_if_none_match : PreconditionError

-- The generation that a single If-Match value names.
unfoldable pub match_value : Result EtagError ℤ → Result PreconditionError IntentPrecondition
match_value (ok generation) = ok (match_generation generation)
match_value (err e) = err (bad_if_match e)

-- `parseWritePrecondition`, on the values of the two headers.
unfoldable pub parse_write_precondition :
    List Bytes → List Bytes → Result PreconditionError IntentPrecondition
unfolding match_value trim_space
parse_write_precondition [] [] = err precondition_is_required
parse_write_precondition (v ∷ vs) (w ∷ ws) = err precondition_is_required
parse_write_precondition (v ∷ []) [] = match_value (parse_generation_etag (trim_space v))
parse_write_precondition (v ∷ v' ∷ vs) [] = err too_many_if_match
parse_write_precondition [] (w ∷ []) =
    if bytes_eq (trim_space w) (codes "*") then ok must_be_absent else err bad_if_none_match
parse_write_precondition [] (w ∷ w' ∷ ws) = err bad_if_none_match

pub data AddressError : Type 0 where
  no_addresses too_many_addresses : AddressError
  not_canonical_ip wrong_family not_routable duplicated : Bytes → AddressError

module _ (platform : Platform) (allow_non_global_addresses : Bool) where
  open platform use {parse_addr}

  -- The checks of one item, given what `netip.ParseAddr` makes of it and the addresses seen so far.
  unfoldable pub check_address : List Addr → Address → Option Addr → Result AddressError Addr
  check_address seen item none = err (not_canonical_ip item.address)
  check_address seen item (some addr) = do
    refuse_if (is4in6 addr) (not_canonical_ip item.address)
    refuse_if (not (bytes_eq item.family (if is4 addr then codes "ipv4" else codes "ipv6")))
        (wrong_family item.address)
    refuse_if (not allow_non_global_addresses && not (is_publicly_routable addr))
        (not_routable item.address)
    refuse_if (elem addr seen) (duplicated item.address)
    ok addr

  -- The loop of `validateAddresses`; `seen` is the set of the addresses before.
  unfoldable pub check_addresses : List Addr → List Address → Result AddressError (List Addr)
  unfolding check_address
  check_addresses seen [] = ok []
  check_addresses seen (item ∷ items) = do
    addr ← check_address seen item (parse_addr item.address)
    rest ← check_addresses (addr ∷ seen) items
    ok (addr ∷ rest)

  unfoldable pub validate_addresses : List Address → Result AddressError (List Addr)
  unfolding check_addresses
  validate_addresses input = do
    refuse_if (length input == 0) no_addresses
    refuse_if (not (leb (length input) 32)) too_many_addresses
    addresses ← check_addresses [] input
    ok (canonical_addresses addresses)
