-- ===== src/Identity.antt =====
-- dns/internal/identity/identity.go: the device that a client certificate names.
pub mod Unique
pub mod Workload
pub mod Decision
pub mod Authorization
use nixos_kaiba_network.Prelude.{
  ℕ, Bool, true, false, not, ◌&&◌, ◌||◌, Option, none, some, List, [], ◌∷◌, ◌++◌, reverse, Bytes,
  codes, bytes_eq, strip_prefix, length, leb, any, is_empty, if◌then◌else◌, Result, ok, err, ◌>>=◌,
  ◌>>◌, refuse_if,
}
use nixos_kaiba_network.Prelude.Decimal.{is_digit}

pub data IdentityError : Type 0 where
  no_identity ambiguous_identity : IdentityError

-- `ErrDenied`, `ErrUnavailable`, and `ErrUnauthenticated` or any other error.
pub data AuthenticationError : Type 0 where
  denied unavailable unauthenticated : AuthenticationError

pub record Device : Type 0 where
  pub id : Bytes
  pub hostname : Bytes

-- What `Resolve` reads of a URL in the certificate.
pub record Uri : Type 0 where
  pub scheme : Bytes
  pub host : Bytes
  pub has_user : Bool
  pub opaque_part : Bytes
  pub raw_query : Bytes
  pub force_query : Bool
  pub fragment : Bytes
  pub escaped_path : Bytes

pub record SpiffePolicy : Type 0 where
  pub trust_domain : Bytes
  pub zone : Bytes

-- ^[0-9]{3,}$
unfoldable pub is_device_id : Bytes → Bool
is_device_id s = leb 3 (length s) && not (any (λ c. not (is_digit c)) s)

-- The group of ^/device/([0-9]{3,})$
unfoldable pub device_path_id : Bytes → Option Bytes
unfolding is_device_id
device_path_id path = elim (strip_prefix (codes "/device/") path) [
  | none ↦ none
  | some rest ↦ if is_device_id rest then some rest else none
]

-- `strings.TrimSuffix(s, ".")`
unfoldable pub trim_dot : Bytes → Bytes
trim_dot s = elim (strip_prefix (codes ".") (reverse s)) [ none ↦ s | some rest ↦ reverse rest ]

unfoldable pub is_spiffe_of : Bytes → Uri → Bool
is_spiffe_of trust_domain u =
    bytes_eq u.scheme (codes "spiffe")
    && bytes_eq u.host trust_domain
    && not u.has_user
    && is_empty u.opaque_part
    && is_empty u.raw_query
    && not u.force_query
    && is_empty u.fragment

-- The device ID of a candidate that the loop does not skip.
unfoldable pub candidate_id : Bytes → Option Uri → Option Bytes
unfolding is_spiffe_of device_path_id is_device_id
candidate_id trust_domain none = none
candidate_id trust_domain (some u) =
    if is_spiffe_of trust_domain u
    then elim (device_path_id u.escaped_path) [
      | none ↦ none
      | some id ↦ if is_device_id id then some id else none
    ]
    else none

-- The rest of the loop, with the ID matched so far, from what the next candidate gives.
unfoldable pub match_ids : Bytes → List (Option Bytes) → Result IdentityError Bytes
match_ids matched [] = ok matched
match_ids matched (none ∷ rest) = match_ids matched rest
match_ids matched (some id ∷ rest) =
    let later = match_ids id rest in
    if not (is_empty matched) then err ambiguous_identity else later

unfoldable pub candidate_ids : Bytes → List (Option Uri) → List (Option Bytes)
unfolding candidate_id
candidate_ids trust_domain [] = []
candidate_ids trust_domain (u ∷ uris) =
    candidate_id trust_domain u ∷ candidate_ids trust_domain uris

-- `to_lower` is `strings.ToLower`.
module _ (to_lower : Bytes → Bytes) where
  unfoldable pub resolve : SpiffePolicy → Option (List (Option Uri)) → Result IdentityError Device
  unfolding candidate_ids match_ids trim_dot
  resolve policy none = err no_identity
  resolve policy (some uris) = do
    matched ← match_ids [] (candidate_ids (trim_dot (to_lower policy.trust_domain)) uris)
    refuse_if (is_empty matched) no_identity
    ok (record {
      id = matched;
      hostname = codes "pi-" ++ matched ++ codes "." ++ trim_dot (to_lower policy.zone);
    })
