-- ===== src/Identity/Authorization.antt =====
-- dns/internal/identity/authorization.go: the decision of the fleet authority on one workload. A time
-- before the Unix epoch does not parse here, as no decision of that age is current.
pub mod Agreement
use nixos_kaiba_network.Prelude.{
  ℕ, ◌+◌, ◌-◌, ◌*◌, Bool, true, false, not, ◌&&◌, ◌||◌, Option, none, some, List, [], ◌∷◌, ◌++◌,
  Bytes, codes, bytes_eq, strip_prefix, reverse, length, leb, ltb, any, ◌==◌, is_empty,
  if◌then◌else◌, Result, ok, err, ◌>>=◌, ◌>>◌, refuse_if,
}
use nixos_kaiba_network.Prelude.Hex.{hex}
use nixos_kaiba_network.Model.{Time}
use nixos_kaiba_network.Identity.{
  Device, AuthenticationError, denied, unavailable, is_device_id, trim_dot,
}
use nixos_kaiba_network.Identity.Decision.{
  Decision, Document, DecisionError, decode_decision, is_decision_timestamp,
}
use nixos_kaiba_network.Identity.Workload.{
  SpiffeId, Components, workload_components, valid_trust_domain,
}

-- `FleetAuthorizer`, whose endpoint has no part in what follows.
pub record FleetAuthorizer : Type 0 where
  pub zone : Bytes

-- What `NewFleetAuthorizer` reads of a parsed URL.
pub record FleetUrl : Type 0 where
  pub scheme : Bytes
  pub host : Bytes
  pub has_user : Bool
  pub raw_query : Bytes
  pub force_query : Bool
  pub fragment : Bytes
  pub path : Bytes

unfoldable pub is_origin : Option FleetUrl → Bool
is_origin none = false
is_origin (some u) =
    bytes_eq u.scheme (codes "https")
    && not (is_empty u.host)
    && not u.has_user
    && is_empty u.raw_query
    && not u.force_query
    && is_empty u.fragment
    && (is_empty u.path || bytes_eq u.path (codes "/"))

-- `has_client` tells whether `WorkloadHTTPClient` gives a client.
unfoldable pub new_fleet_authorizer :
    (Bytes → Bytes) → Bool → Option FleetUrl → Bytes → Option FleetAuthorizer
unfolding is_origin
new_fleet_authorizer to_lower has_client url zone =
    let canonical = trim_dot (to_lower zone) in
    if not has_client || not (is_origin url)
    then none
    else if not (valid_trust_domain canonical)
    then none
    else some (record { zone = canonical })

-- The answer to a request for a decision; the body is `none` where it cannot be read.
pub record Answer : Type 0 where
  pub status_code : ℕ
  pub body : Option Bytes

-- `strings.HasSuffix`
unfoldable pub has_suffix : Bytes → Bytes → Bool
has_suffix suffix s = elim (strip_prefix (reverse suffix) (reverse s)) [
  | none ↦ false
  | some rest ↦ true
]

or_unavailable : {A : Type 0} → Option A → Result AuthenticationError A
or_unavailable none = err unavailable
or_unavailable (some a) = ok a

or_unusable : {A : Type 0} → Result DecisionError A → Result AuthenticationError A
or_unusable (err e) = err unavailable
or_unusable (ok a) = ok a

abbrev pub five_seconds : ℕ
five_seconds = 5000000000

-- The window of a decision, from its two times, which have to be timestamps of the wire.
unfoldable pub is_current : Time → Option Time → Option Time → Bool
is_current now (some checked) (some expires) =
    leb checked now && ltb now expires && expires == checked + five_seconds
is_current now _ _ = false

-- The body within its limit.
unfoldable pub limited : Option Bytes → Option Bytes
limited none = none
limited (some body) = if ltb 16384 (length body) then none else some body

module _ (decode_document : Bytes → Option Document) (parse_time : Bytes → Option Time) where
  unfoldable pub is_for : FleetAuthorizer → SpiffeId → Components → Bytes → Decision → Bool
  is_for f id parts request_id d =
      bytes_eq d.contract (codes "DNSWorkloadAuthorization")
      && bytes_eq d.contract_version (codes "0.5.0-draft.1")
      && bytes_eq d.request_id request_id
      && bytes_eq d.spiffe_id id.text
      && bytes_eq d.logical_device_id parts.logical
      && bytes_eq d.instance_id parts.instance_id
      && bytes_eq d.permission (codes "dns:update")
      && is_device_id d.dns_device_id
      && bytes_eq d.hostname (codes "pi-" ++ d.dns_device_id ++ codes "." ++ f.zone)
      && leb (length d.hostname) 253
      && leb (length (codes "pi-" ++ d.dns_device_id)) 63

  unfoldable pub is_timely : Time → Decision → Bool
  unfolding is_current
  is_timely now d =
      is_decision_timestamp d.checked_at
      && is_decision_timestamp d.expires_at
      && is_current now (parse_time d.checked_at) (parse_time d.expires_at)

  -- `nonce` is `none` where the random source fails, and `answer` is what becomes of the request
  -- that carries it.
  unfoldable pub authorize_dns :
      FleetAuthorizer
      → Option Bytes
      → (Bytes → Option Answer)
      → Time
      → SpiffeId
      → Result AuthenticationError Device
  unfolding or_unavailable or_unusable is_for is_timely limited
  authorize_dns f nonce answer now id = do
    parts ← workload_components id
    refuse_if (not (has_suffix (codes "/workload/dns-updater") id.path)) denied
    value ← or_unavailable nonce
    let request_id = hex value
    reply ← or_unavailable (answer request_id)
    refuse_if (reply.status_code == 403) denied
    refuse_if (not (reply.status_code == 200)) unavailable
    body ← or_unavailable (limited reply.body)
    decision ← or_unusable (decode_decision (decode_document body))
    refuse_if (not (is_for f id parts request_id decision) || not (is_timely now decision))
        unavailable
    ok (record { id = decision.dns_device_id; hostname = decision.hostname })
