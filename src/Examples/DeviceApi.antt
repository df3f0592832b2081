-- ===== src/Examples/DeviceApi.antt =====
-- Examples of requests to the device API.
use nixos_kaiba_network.Prelude.{
  ◌≡◌, refl, true, false, List, [], ◌∷◌, ok, arith, codes, bytes_eq, bytes_lt, strip_prefix, All,
  length, ◌<◌, ◌⊎◌, leb,
}
use nixos_kaiba_network.Prelude.Int.{pos, incr64}
use nixos_kaiba_network.Prelude.Sorted.{sort, insert, elem}
use nixos_kaiba_network.Prelude.Decimal.{format, format_onto}
use nixos_kaiba_network.Net.{
  is_valid, is4, is4in6, unmap, addr_eq, addr_lt, is_loopback, is_multicast, is_link_local_unicast,
  is_private, is_global_unicast, contains,
}
use nixos_kaiba_network.Model.{
  accepted, status, dedup, canonical_addresses, same_elements, addresses_equal, addresses_hash,
}
use nixos_kaiba_network.Api.{
  Address, DeviceState, address_entry, addresses_from_net_ip, format_int, generation_etag,
}
use nixos_kaiba_network.Store.{
  match_generation, UpsertRequest, is_valid_precondition, precondition_key,
}
use nixos_kaiba_network.Store.Tables.{
  empty_database, no_faults, Database, run_tx, find_intent, find_request, update_intents,
  insert_intent, insert_request, select_intents, has_addresses, parse_all, encode_addresses,
  decode_addresses, scan_intent, scan_found, persist_intent, persisted_intent,
}
use nixos_kaiba_network.Store.Upsert.{
  expired_during_write, expire_intent, realized, expired_row, write_expired, realized_rows,
  fails_precondition, next_intent, is_bound_elsewhere, reject_write, new_row, renewed_row,
  write_renewed, write_next, replay_response, response_row, commit_write, write_found,
  write_request, upsert_tx, upsert_intent,
}
use nixos_kaiba_network.Store.Leases.{
  is_lapsed, read_rows, write_all, scan_lapsed, expire_tx, expire_leases,
}
use nixos_kaiba_network.Store.Queries.{
  is_origin_pending, is_observation_pending, get_intent, mark, is_version, mark_origin_applied,
  mark_publicly_observed, mark_publication_error,
}
use nixos_kaiba_network.Store.History.{step, run}
use nixos_kaiba_network.Controller.Request.{
  is_alphanumeric, is_key_character, is_idempotency_key, strip_any, drop_prefixes, trim_space,
  match_value, parse_write_precondition, check_address, check_addresses, validate_addresses,
}
use nixos_kaiba_network.Controller.{
  authentication_error, one_document, renew_after_seconds, device_state, read_write, respond_write,
  store_write, put_endpoints, respond_read, read_expired, status_after, get_status,
}
use nixos_kaiba_network.Address.{is_publicly_routable}
use nixos_kaiba_network.Store.Keys.{DistinctIds}
use nixos_kaiba_network.Controller.{Handler, WriteRequest, document, write_state}
use nixos_kaiba_network.Controller.Etags.{parse_write_precondition-generation_etag}
use nixos_kaiba_network.Controller.Status.{get_status-IsLive}
use nixos_kaiba_network.Controller.Writes.{Admitted, validate_addresses-Admitted}
use nixos_kaiba_network.Controller.Asks.{Asks, put_endpoints-Asks}
use nixos_kaiba_network.Examples.Fixtures.{small_platform, address_a, device}

parse_write_precondition-generation_etag_example :
    parse_write_precondition (generation_etag (pos 42) ∷ []) [] ≡ ok (match_generation (pos 42))
parse_write_precondition-generation_etag_example =
    parse_write_precondition-generation_etag (pos 42) (omega arith) (omega arith)

abbrev items : List Address
items = record { family = codes "ipv4"; address = 4 ∷ 0x08080808 ∷ [] } ∷ []

items_accepted : validate_addresses small_platform false items ≡ ok (address_a ∷ [])
unfolding bytes_eq bytes_lt strip_prefix incr64 sort insert elem is_valid is4 is4in6 unmap addr_eq
    addr_lt is_loopback is_multicast is_link_local_unicast is_private is_global_unicast contains
    status dedup canonical_addresses same_elements addresses_equal addresses_hash
    is_valid_precondition precondition_key run_tx find_intent find_request update_intents
    insert_intent insert_request select_intents has_addresses parse_all encode_addresses
    decode_addresses scan_intent scan_found persist_intent persisted_intent expired_during_write
    expire_intent realized expired_row write_expired realized_rows fails_precondition next_intent
    is_bound_elsewhere reject_write new_row renewed_row write_renewed write_next replay_response
    response_row commit_write write_found write_request upsert_tx upsert_intent format format_onto
    format_int generation_etag is_lapsed read_rows write_all scan_lapsed expire_tx expire_leases
    step run is_origin_pending is_observation_pending get_intent mark is_version mark_origin_applied
    mark_publicly_observed mark_publication_error is_alphanumeric is_key_character
    is_idempotency_key strip_any drop_prefixes trim_space match_value parse_write_precondition
    check_address check_addresses validate_addresses authentication_error one_document
    renew_after_seconds device_state read_write respond_write store_write put_endpoints respond_read
    read_expired status_after get_status is_publicly_routable address_entry addresses_from_net_ip
items_accepted = refl

validate_addresses-Admitted_example :
    (leb 1 (length items) ≡ true)
    × (leb (length items) 32 ≡ true)
    × All (Admitted false) (address_a ∷ [])
validate_addresses-Admitted_example =
    validate_addresses-Admitted small_platform false items (address_a ∷ []) items_accepted

abbrev handler : Handler
handler = record {
  lease_duration = 60000000000;
  renew_after = 30000000000;
  allow_non_global_addresses = false;
}

abbrev write : WriteRequest
write = record {
  device = ok (record { id = device; hostname = 2 ∷ [] });
  idempotency_key = codes "key-1";
  body = document (record { addresses = items });
  if_match = [];
  if_none_match = codes " *" ∷ [];
}

abbrev written_state : DeviceState
written_state = record {
  device_id = device;
  hostname = 2 ∷ [];
  addresses = items;
  generation = pos 1;
  status = accepted;
  lease_expires_at = 60000001000;
  renew_after_seconds = pos 30;
}

-- The handler accepts the write, with the first ETag.
write_test :
    (put_endpoints small_platform handler no_faults empty_database write 1000).1
    ≡ write_state 202 (codes "\"g-1\"") written_state
unfolding bytes_eq bytes_lt strip_prefix incr64 sort insert elem is_valid is4 is4in6 unmap addr_eq
    addr_lt is_loopback is_multicast is_link_local_unicast is_private is_global_unicast contains
    status dedup canonical_addresses same_elements addresses_equal addresses_hash
    is_valid_precondition precondition_key run_tx find_intent find_request update_intents
    insert_intent insert_request select_intents has_addresses parse_all encode_addresses
    decode_addresses scan_intent scan_found persist_intent persisted_intent expired_during_write
    expire_intent realized expired_row write_expired realized_rows fails_precondition next_intent
    is_bound_elsewhere reject_write new_row renewed_row write_renewed write_next replay_response
    response_row commit_write write_found write_request upsert_tx upsert_intent format format_onto
    format_int generation_etag is_lapsed read_rows write_all scan_lapsed expire_tx expire_leases
    step run is_origin_pending is_observation_pending get_intent mark is_version mark_origin_applied
    mark_publicly_observed mark_publication_error is_alphanumeric is_key_character
    is_idempotency_key strip_any drop_prefixes trim_space match_value parse_write_precondition
    check_address check_addresses validate_addresses authentication_error one_document
    renew_after_seconds device_state read_write respond_write store_write put_endpoints respond_read
    read_expired status_after get_status is_publicly_routable address_entry addresses_from_net_ip
write_test = refl

put_endpoints-Asks_example :
    let after = (put_endpoints small_platform handler no_faults empty_database write 1000).0 in
    (after ≡ empty_database)
    ⊎ ((upsert : UpsertRequest) × Asks small_platform handler write 1000 upsert
        × (after ≡ (upsert_intent small_platform no_faults empty_database upsert).0))
put_endpoints-Asks_example =
    put_endpoints-Asks small_platform handler no_faults empty_database write 1000

abbrev written_db : Database
written_db = (put_endpoints small_platform handler no_faults empty_database write 1000).0

abbrev expired_state : DeviceState
expired_state = record written_state { addresses = []; generation = pos 2 }

-- The lease runs out, and the status shows no address under the next generation.
expired_read :
    (get_status small_platform handler no_faults no_faults no_faults written_db
      (ok (record { id = device; hostname = 2 ∷ [] }))
      60000001000).1
    ≡ write_state 200 (codes "\"g-2\"") expired_state
unfolding bytes_eq bytes_lt strip_prefix incr64 sort insert elem is_valid is4 is4in6 unmap addr_eq
    addr_lt is_loopback is_multicast is_link_local_unicast is_private is_global_unicast contains
    status dedup canonical_addresses same_elements addresses_equal addresses_hash
    is_valid_precondition precondition_key run_tx find_intent find_request update_intents
    insert_intent insert_request select_intents has_addresses parse_all encode_addresses
    decode_addresses scan_intent scan_found persist_intent persisted_intent expired_during_write
    expire_intent realized expired_row write_expired realized_rows fails_precondition next_intent
    is_bound_elsewhere reject_write new_row renewed_row write_renewed write_next replay_response
    response_row commit_write write_found write_request upsert_tx upsert_intent format format_onto
    format_int generation_etag is_lapsed read_rows write_all scan_lapsed expire_tx expire_leases
    step run is_origin_pending is_observation_pending get_intent mark is_version mark_origin_applied
    mark_publicly_observed mark_publication_error is_alphanumeric is_key_character
    is_idempotency_key strip_any drop_prefixes trim_space match_value parse_write_precondition
    check_address check_addresses validate_addresses authentication_error one_document
    renew_after_seconds device_state read_write respond_write store_write put_endpoints respond_read
    read_expired status_after get_status is_publicly_routable address_entry addresses_from_net_ip
expired_read = refl

written_DistinctIds : DistinctIds written_db.intents
unfolding bytes_eq bytes_lt strip_prefix incr64 sort insert elem is_valid is4 is4in6 unmap addr_eq
    addr_lt is_loopback is_multicast is_link_local_unicast is_private is_global_unicast contains
    status dedup canonical_addresses same_elements addresses_equal addresses_hash
    is_valid_precondition precondition_key run_tx find_intent find_request update_intents
    insert_intent insert_request select_intents has_addresses parse_all encode_addresses
    decode_addresses scan_intent scan_found persist_intent persisted_intent expired_during_write
    expire_intent realized expired_row write_expired realized_rows fails_precondition next_intent
    is_bound_elsewhere reject_write new_row renewed_row write_renewed write_next replay_response
    response_row commit_write write_found write_request upsert_tx upsert_intent format format_onto
    format_int generation_etag is_lapsed read_rows write_all scan_lapsed expire_tx expire_leases
    step run is_origin_pending is_observation_pending get_intent mark is_version mark_origin_applied
    mark_publicly_observed mark_publication_error is_alphanumeric is_key_character
    is_idempotency_key strip_any drop_prefixes trim_space match_value parse_write_precondition
    check_address check_addresses validate_addresses authentication_error one_document
    renew_after_seconds device_state read_write respond_write store_write put_endpoints respond_read
    read_expired status_after get_status is_publicly_routable address_entry addresses_from_net_ip
written_DistinctIds = (refl, tt)

get_status-IsLive_example :
    (expired_state.addresses ≡ []) ⊎ (60000001000 < expired_state.lease_expires_at)
get_status-IsLive_example =
    get_status-IsLive small_platform handler no_faults no_faults no_faults written_db
      (ok (record { id = device; hostname = 2 ∷ [] })) 60000001000 200 (codes "\"g-2\"")
      expired_state (λ id. refl) written_DistinctIds expired_read
