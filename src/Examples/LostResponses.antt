-- ===== src/Examples/LostResponses.antt =====
-- An example of an update whose response is lost.
use nixos_kaiba_network.Prelude.{strip_prefix}
use nixos_kaiba_network.Agent.Pending.{apply}
use nixos_kaiba_network.Controller.Request.{
  is_idempotency_key, validate_addresses, check_addresses, check_address, parse_write_precondition,
  match_value, trim_space, drop_prefixes, strip_any,
}
use nixos_kaiba_network.Api.{addresses_from_net_ip, address_entry}
use nixos_kaiba_network.Address.{is_publicly_routable}
use nixos_kaiba_network.Net.{
  is_valid, is4, is4in6, is_loopback, is_multicast, is_link_local_unicast, is_private,
  is_global_unicast, contains,
}
use nixos_kaiba_network.Model.{canonical_addresses, dedup}
use nixos_kaiba_network.Prelude.Sorted.{elem, sort}
use nixos_kaiba_network.Net.{unmap}
use nixos_kaiba_network.Prelude.{bytes_eq}
use nixos_kaiba_network.Store.Tables.{
  find_intent, find_request, insert_intent, insert_request, scan_found,
}
use nixos_kaiba_network.Store.{is_valid_precondition}
use nixos_kaiba_network.Store.Upsert.{
  expired_during_write, fails_precondition, realized, realized_rows,
}
use nixos_kaiba_network.Prelude.{
  ◌≡◌, refl, true, false, none, some, [], ◌∷◌, arith, codes, ok, err, Result,
}
use nixos_kaiba_network.Prelude.Int.{pos}
use nixos_kaiba_network.Identity.{Device, AuthenticationError}
use nixos_kaiba_network.Store.{must_be_absent, UpsertRequest, UpsertResult}
use nixos_kaiba_network.Store.Tables.{empty_database, no_faults}
use nixos_kaiba_network.Store.Upsert.{upsert_intent}
use nixos_kaiba_network.Store.History.{run}
use nixos_kaiba_network.Controller.{Handler, device_state, read_write}
use nixos_kaiba_network.Agent.{Agent, no_connection, Json}
use nixos_kaiba_network.Agent.Pending.{PendingState, holds, Disk, Attempt, usable}
use nixos_kaiba_network.Agent.Update.{own_addresses, put_request, update_once}
use nixos_kaiba_network.Agent.Update.Steps.{cleared}
use nixos_kaiba_network.Agent.Discovery.{Prefixes}
use nixos_kaiba_network.Model.{addresses_hash}
use nixos_kaiba_network.Fleet.{Encoder, Link, response_lost, delivered, write_request, controller}
use nixos_kaiba_network.Fleet.LostResponse.{lost_response}
use nixos_kaiba_network.Examples.Fixtures.{small_platform, address_a, device}

abbrev handler : Handler
handler = record {
  lease_duration = 60000000000;
  renew_after = 30000000000;
  allow_non_global_addresses = false;
}

abbrev agent : Agent
agent = record {
  addresses = address_a ∷ [];
  interfaces = [];
  renew_interval = 30000000000;
  request_timeout = 30000000000;
  once = false;
}

abbrev prefixes : Prefixes
prefixes = record { parse_prefix = λ text. none }

abbrev attempt : Attempt
attempt = record {
  reading = false;
  making_directory = false;
  writing = false;
  renaming = false;
  removing = false;
  interfaces = none;
  key = none;
  now = 1000;
}

-- The hash of `address_a` under the digest of the examples.
abbrev pending : PendingState
pending = record {
  payload_hash = 2 ∷ 4 ∷ 0x08080808 ∷ [];
  key = codes "key-1";
  if_match = [];
  if_none_match = true;
}

abbrev disk : Disk
disk = record { state_file = some (holds pending); temporary = none }

abbrev lamp : Result AuthenticationError Device
lamp = ok (record { id = device; hostname = 2 ∷ [] })

abbrev lost : Link
lost = record {
  before = [];
  device = lamp;
  now = 1000;
  writing = no_faults;
  reading = no_faults;
  expiring = no_faults;
  rereading = no_faults;
  delivery = response_lost;
}

abbrev back : Link
back = record lost { now = 2000; delivery = delivered }

abbrev upsert : UpsertRequest
upsert = record {
  device_id = device;
  hostname = 2 ∷ [];
  addresses = address_a ∷ [];
  idempotency_key = codes "key-1";
  precondition = must_be_absent;
  now = 1000;
  lease_duration = 60000000000;
  renew_after_seconds = pos 30;
}

abbrev result : UpsertResult
result = record {
  intent = record {
    device_id = device;
    hostname = 2 ∷ [];
    addresses = address_a ∷ [];
    generation = pos 1;
    lease_expires_at = 60000001000;
    updated_at = 1000;
    origin_applied_generation = pos 0;
    public_observed_generation = pos 0;
    last_publication_error = [];
  };
  renew_after_seconds = pos 30;
  replay = false;
}

abbrev encoder : Encoder
encoder = record { encode_state = λ state. []; encode_error = λ name. [] }

abbrev json : Json
json = record {
  decode_state = λ body. some (device_state small_platform handler result.intent (pos 30));
  decode_error = λ body. record { code = []; message = [] };
}

own : own_addresses small_platform prefixes json agent attempt ≡ ok (address_a ∷ [])
unfolding own_addresses canonical_addresses sort dedup elem unmap
own = refl

known : usable (addresses_hash small_platform (address_a ∷ [])) disk.state_file ≡ some pending
unfolding usable bytes_eq addresses_hash canonical_addresses sort dedup elem unmap
known = refl

asked :
    read_write small_platform handler
      (write_request lamp (put_request small_platform prefixes json agent (address_a ∷ []) pending))
      1000
    ≡ ok upsert
unfolding read_write write_request put_request apply is_idempotency_key validate_addresses
    check_addresses check_address parse_write_precondition match_value trim_space drop_prefixes
    strip_any addresses_from_net_ip address_entry is_publicly_routable is_valid is4 is4in6 unmap
    is_loopback is_multicast is_link_local_unicast is_private is_global_unicast contains
    canonical_addresses sort dedup elem bytes_eq strip_prefix
asked = refl

written :
    (upsert_intent small_platform no_faults (run small_platform empty_database []) upsert).1
    ≡ ok result
unfolding upsert_intent find_request run is_valid_precondition scan_found find_intent
    expired_during_write fails_precondition realized insert_intent realized_rows insert_request
    canonical_addresses sort dedup elem unmap
written = refl

lost_response_example :
    let network = controller small_platform handler encoder in
    let update = update_once small_platform prefixes json agent network in
    let stored =
      (upsert_intent small_platform no_faults (run small_platform empty_database []) upsert).0 in
    (update attempt attempt (disk, (empty_database, lost ∷ back ∷ []))
      ≡ ((disk, (stored, back ∷ [])), err no_connection))
    × (update attempt attempt (disk, (stored, back ∷ [])) ≡ (
      (cleared disk, (run small_platform stored [], [])),
      ok (device_state small_platform handler result.intent (pos 30)),
    ))
lost_response_example =
    lost_response small_platform prefixes json agent handler encoder lost back [] attempt attempt
      attempt attempt disk empty_database (address_a ∷ []) pending upsert result own own refl refl
      refl refl known refl refl refl refl asked written refl (omega arith) (omega arith) refl
      (omega arith)
