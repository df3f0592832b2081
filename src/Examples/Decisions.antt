-- ===== src/Examples/Decisions.antt =====
-- Examples of decisions of the fleet authority.
use nixos_kaiba_network.Identity.Workload.{valid_trust_domain, workload_components}
use nixos_kaiba_network.Identity.Authorization.{has_suffix}
use nixos_kaiba_network.Prelude.{strip_prefix}
use nixos_kaiba_network.Identity.{is_device_id, trim_dot}
use nixos_kaiba_network.Identity.Decision.{is_decision_timestamp}
use nixos_kaiba_network.Prelude.{
  ℕ, ◌+◌, ◌≤◌, ◌<◌, ◌≡◌, ◌↔◌, refl, true, false, Option, some, List, [], ◌∷◌, All, Bytes, codes,
  bytes_eq, if◌then◌else◌, ok,
}
use nixos_kaiba_network.Prelude.Hex.{hex}
use nixos_kaiba_network.Identity.{Device, SpiffePolicy, Uri, resolve}
use nixos_kaiba_network.Identity.Decision.{
  string_value, decision_fields, Decision, Member, Document, is_listed, read_decision,
  decode_decision,
}
use nixos_kaiba_network.Identity.Decision.Closed.{occurrences, IsTextOrNull, decode_decision-closed}
use nixos_kaiba_network.Identity.Workload.{SpiffeId}
use nixos_kaiba_network.Identity.Authorization.{
  FleetAuthorizer, FleetUrl, new_fleet_authorizer, Answer, five_seconds, authorize_dns,
}
use nixos_kaiba_network.Identity.Authorization.Agreement.{
  Grounds, authorize_dns-Grounds, authorize_dns-resolve,
}

abbrev member : Bytes → Bytes → Member
member key text = record { key = key; content = string_value text }

abbrev document : Document
document = record {
  members =
      member (codes "hostname") (codes "pi-007.example.org")
      ∷ member (codes "contract") (codes "DNSWorkloadAuthorization")
      ∷ member (codes "contract_version") (codes "0.5.0-draft.1")
      ∷ member (codes "request_id") (codes "0aff")
      ∷ member (codes "spiffe_id") (codes "id")
      ∷ member (codes "logical_device_id") (codes "lamp")
      ∷ member (codes "instance_id") (codes "i-1")
      ∷ member (codes "dns_device_id") (codes "007")
      ∷ member (codes "permission") (codes "dns:update")
      ∷ member (codes "checked_at") (codes "2026-01-02T03:04:05.5Z")
      ∷ member (codes "expires_at") (codes "2026-01-02T03:04:10.5Z")
      ∷ [];
  broken = false;
  closed = true;
  trailing = false;
}

abbrev decision : Decision
decision = record {
  contract = codes "DNSWorkloadAuthorization";
  contract_version = codes "0.5.0-draft.1";
  request_id = codes "0aff";
  spiffe_id = codes "id";
  logical_device_id = codes "lamp";
  instance_id = codes "i-1";
  dns_device_id = codes "007";
  hostname = codes "pi-007.example.org";
  permission = codes "dns:update";
  checked_at = codes "2026-01-02T03:04:05.5Z";
  expires_at = codes "2026-01-02T03:04:10.5Z";
}

decoded : decode_decision (some document) ≡ ok decision
unfolding decode_decision bytes_eq
decoded = refl

decode_decision-closed_example :
    ((key : Bytes)
      → occurrences key document.members ≡ (if is_listed key decision_fields then 1 else 0))
    × All IsTextOrNull document.members
    × (false ≡ false)
    × (true ≡ true)
    × (false ≡ false)
    × (decision ≡ read_decision document.members)
decode_decision-closed_example = decode_decision-closed document decision decoded

abbrev decode_document : Bytes → Option Document
decode_document body = some document

-- The two times of the decision.
abbrev parse_time : Bytes → Option ℕ
parse_time text =
    if bytes_eq text (codes "2026-01-02T03:04:05.5Z") then some 1000 else some 5000001000

abbrev authorizer : FleetAuthorizer
authorizer = record { zone = codes "example.org" }

abbrev updater : SpiffeId
updater = record {
  trust_domain = codes "example.org";
  path = codes "/device/lamp/instance/i-1/workload/dns-updater";
  text = codes "id";
}

abbrev nonce : Option Bytes
nonce = some (0x0a ∷ 0xff ∷ [])

abbrev answer : Bytes → Option Answer
answer request_id = some (record { status_code = 200; body = some (1 ∷ []) })

abbrev lamp : Device
lamp = record { id = codes "007"; hostname = codes "pi-007.example.org" }

authorized : authorize_dns decode_document parse_time authorizer nonce answer 2000 updater ≡ ok lamp
unfolding authorize_dns workload_components bytes_eq has_suffix strip_prefix decode_decision hex
    is_device_id is_decision_timestamp
authorized = refl

authorize_dns-Grounds_example :
    (value : Bytes) × (found : Decision) × (checked : ℕ) × (nonce ≡ some value)
    × Grounds decode_document parse_time authorizer answer updater (hex value) found checked
    × (checked ≤ 2000)
    × (2000 < checked + five_seconds)
    × (lamp.id ≡ found.dns_device_id)
    × (lamp.hostname ≡ found.hostname)
authorize_dns-Grounds_example =
    authorize_dns-Grounds decode_document parse_time authorizer nonce answer 2000 updater lamp
      authorized

abbrev policy : SpiffePolicy
policy = record { trust_domain = codes "spiffe.example.org"; zone = codes "example.org." }

abbrev certificate : Option (List (Option Uri))
certificate = some (
    some (record {
      scheme = codes "spiffe";
      host = codes "spiffe.example.org";
      has_user = false;
      opaque_part = [];
      raw_query = [];
      force_query = false;
      fragment = [];
      escaped_path = codes "/device/007";
    })
    ∷ [])

abbrev fleet_url : Option FleetUrl
fleet_url = some (record {
  scheme = codes "https";
  host = codes "fleet.example.org";
  has_user = false;
  raw_query = [];
  force_query = false;
  fragment = [];
  path = codes "/";
})

abbrev lower : Bytes → Bytes
lower text = text

resolved : resolve lower policy certificate ≡ ok lamp
unfolding resolve bytes_eq strip_prefix
resolved = refl

made : new_fleet_authorizer lower true fleet_url policy.zone ≡ some authorizer
unfolding new_fleet_authorizer bytes_eq valid_trust_domain trim_dot strip_prefix
made = refl

authorize_dns-resolve_example : (lamp.id ≡ lamp.id) ↔ (lamp.hostname ≡ lamp.hostname)
authorize_dns-resolve_example =
    authorize_dns-resolve decode_document parse_time lower policy certificate lamp lamp true
      fleet_url authorizer nonce answer 2000 updater resolved made authorized
