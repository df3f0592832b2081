-- ===== src/Api.antt =====
-- dns/internal/api/precondition.go and types.go: the generation ETag, and the addresses of a
-- request or a response. A text is the list of its bytes.
pub mod GenerationEtag
use nixos_kaiba_network.Prelude.{
  ℕ, suc, ◌+◌, ◌≡◌, Bool, true, false, not, ◌||◌, Option, none, some, List, [], ◌∷◌, ◌++◌, map,
  Bytes, codes, strip_prefix, leb, ltb, ◌==◌, if◌then◌else◌, Result, ok, err, ◌>>=◌, ◌>>◌,
  refuse_if, any,
}
use nixos_kaiba_network.Prelude.Int.{ℤ, pos, negsuc, int64_max, leb_ℤ}
use nixos_kaiba_network.Prelude.Decimal.{format, value, is_digit}
use nixos_kaiba_network.Net.{Addr, is4}
use nixos_kaiba_network.Model.{Platform, PublicationStatus, Time, canonical_addresses}

-- `%d`
unfoldable pub format_int : ℤ → Bytes
format_int (pos n) = format n
format_int (negsuc n) = b'-' ∷ format (suc n)

abbrev pub quote : ℕ
quote = b'"'

abbrev pub generation_etag_prefix : Bytes
generation_etag_prefix = quote ∷ b'g' ∷ b'-' ∷ []

unfoldable pub generation_etag : ℤ → Bytes
generation_etag generation = generation_etag_prefix ++ format_int generation ++ quote ∷ []

pub data EtagError : Type 0 where
  bad_form not_canonical out_of_range : EtagError

-- The text without the quote at its end; `none` where `strings.HasSuffix` fails.
unfoldable pub strip_quote : Bytes → Option Bytes
strip_quote [] = none
strip_quote (c ∷ []) = if c == quote then some [] else none
strip_quote (c ∷ d ∷ s) = elim (strip_quote (d ∷ s)) [ none ↦ none | some r ↦ some (c ∷ r) ]

-- `strings.TrimSuffix(s, "\"")`
unfoldable pub trim_quote : Bytes → Bytes
unfolding strip_quote
trim_quote s = elim (strip_quote s) [ none ↦ s | some r ↦ r ]

-- `digits == "" || digits[0] == '0'`
unfoldable pub has_bad_start : Bytes → Bool
has_bad_start [] = true
has_bad_start (c ∷ s) = c == b'0'

-- `strconv.ParseInt(digits, 10, 64)` on decimal digits: `none` where an int64 cannot hold the value.
unfoldable pub parse_int64 : Bytes → Option ℤ
parse_int64 s = let n = value 0 s in if ltb int64_max n then none else some (pos n)

positive_only : Option ℤ → Result EtagError ℤ
positive_only none = err out_of_range
positive_only (some generation) =
    if leb_ℤ generation (pos 0) then err out_of_range else ok generation

parse_digits : Bytes → Result EtagError ℤ
unfolding has_bad_start parse_int64 positive_only
parse_digits s = do
  refuse_if (has_bad_start s) not_canonical
  refuse_if (any (λ c. not (is_digit c)) s) not_canonical
  positive_only (parse_int64 s)

unfoldable pub parse_generation_etag : Bytes → Result EtagError ℤ
unfolding parse_digits trim_quote
parse_generation_etag text = elim (strip_prefix generation_etag_prefix text) [
  | none ↦ err bad_form
  | some rest ↦ elim (strip_quote text) [
    | none ↦ err bad_form
    | some _ ↦ parse_digits (trim_quote rest)
  ]
]

pub record Address : Type 0 where
  pub family : Bytes
  pub address : Bytes

pub record EndpointRequest : Type 0 where
  pub addresses : List Address

pub record DeviceState : Type 0 where
  pub device_id : Bytes
  pub hostname : Bytes
  pub addresses : List Address
  pub generation : ℤ
  pub status : PublicationStatus
  pub lease_expires_at : Time
  pub renew_after_seconds : ℤ

pub record Error : Type 0 where
  pub code : Bytes
  pub message : Bytes

module _ (platform : Platform) where
  open platform use {addr_string}

  unfoldable pub address_entry : Addr → Address
  address_entry addr = record {
    family = if is4 addr then codes "ipv4" else codes "ipv6";
    address = addr_string addr;
  }

  unfoldable pub addresses_from_net_ip : List Addr → List Address
  unfolding address_entry
  addresses_from_net_ip addresses = map address_entry (canonical_addresses addresses)
