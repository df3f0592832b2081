-- ===== src/Examples/StoreHistories.antt =====
-- Examples of histories of the store.
use nixos_kaiba_network.Prelude.{
  ◌≢◌, ap, true, ◌≡◌, refl, false, List, [], ◌∷◌, some, ok, arith, bytes_eq, bytes_lt, strip_prefix,
  All, map,
}
use nixos_kaiba_network.Prelude.Int.{pos_part, pos, incr64}
use nixos_kaiba_network.Prelude.Sorted.{sort, insert, elem}
use nixos_kaiba_network.Prelude.Decimal.{format, format_onto}
use nixos_kaiba_network.Net.{
  is_valid, is4, is4in6, unmap, addr_eq, addr_lt, is_loopback, is_multicast, is_link_local_unicast,
  is_private, is_global_unicast, contains,
}
use nixos_kaiba_network.Model.{
  Intent, accepted, status, dedup, canonical_addresses, same_elements, addresses_equal,
  addresses_hash,
}
use nixos_kaiba_network.Api.{format_int, generation_etag}
use nixos_kaiba_network.Store.{UpsertResult, is_valid_precondition, precondition_key}
use nixos_kaiba_network.Store.Tables.{
  empty_database, no_faults, Database, IntentRow, run_tx, find_intent, find_request, update_intents,
  insert_intent, insert_request, select_intents, has_addresses, parse_all, encode_addresses,
  decode_addresses, scan_intent, scan_found, persist_intent, persisted_intent, Faults, next_row,
}
use nixos_kaiba_network.Store.Upsert.{
  expired_during_write, expire_intent, realized, expired_row, write_expired, realized_rows,
  fails_precondition, next_intent, is_bound_elsewhere, reject_write, new_row, renewed_row,
  write_renewed, write_next, replay_response, response_row, commit_write, write_found,
  write_request, upsert_tx, upsert_intent,
}
use nixos_kaiba_network.Store.Leases.{
  is_lapsed, read_rows, write_all, scan_lapsed, expire_tx, expire_leases,
}
use nixos_kaiba_network.Store.Queries.{
  is_origin_pending, is_observation_pending, get_intent, mark, is_version, mark_origin_applied,
  mark_publicly_observed, mark_publication_error,
}
use nixos_kaiba_network.Store.History.{Call, upserts, expires, applies, observes, step, run}
use nixos_kaiba_network.Store.Versions.{Follows}
use nixos_kaiba_network.Store.Versions.Histories.{generations_are_versions}
use nixos_kaiba_network.Store.Versions.LostUpdates.{no_lost_update}
use nixos_kaiba_network.Store.Progress.{InOrder}
use nixos_kaiba_network.Store.Progress.Histories.{progress-InOrder}
use nixos_kaiba_network.Store.Progress.Pending.{status-pending}
use nixos_kaiba_network.Store.Leases.Tombstones.{tombstone}
use nixos_kaiba_network.Store.Leases.Bulk.{expire_leases-update, expire_leases_total}
use nixos_kaiba_network.Examples.Fixtures.{
  small_platform, address_a, device, first_write, next_write, first_result,
}

abbrev first_row : IntentRow
first_row = record {
  device_id = device;
  hostname = 2 ∷ [];
  addresses_json = some ((4 ∷ 0x08080404 ∷ []) ∷ (4 ∷ 0x08080808 ∷ []) ∷ []);
  generation = pos 1;
  lease_expires_ns = 1060;
  updated_at_ns = 1000;
  origin_applied_generation = pos 0;
  public_observed_generation = pos 0;
  last_publication_error = [];
}

abbrev first_db : Database
first_db = record { intents = first_row ∷ []; idempotency_requests = [] }

-- A renewal with another address set, a publication of it, and the end of its lease.
abbrev calls : List Call
calls =
    upserts no_faults next_write
    ∷ applies no_faults device (pos 2)
    ∷ observes no_faults device (pos 2)
    ∷ expires no_faults 2000
    ∷ []

-- The history ends with generation 3.
calls_test : map (λ row. row.generation) (run small_platform first_db calls).intents ≡ pos 3 ∷ []
unfolding bytes_eq bytes_lt strip_prefix incr64 sort insert elem is_valid is4 is4in6 unmap addr_eq
    addr_lt is_loopback is_multicast is_link_local_unicast is_private is_global_unicast contains
    status dedup canonical_addresses same_elements addresses_equal addresses_hash
    is_valid_precondition precondition_key run_tx find_intent find_request update_intents
    insert_intent insert_request select_intents has_addresses parse_all encode_addresses
    decode_addresses scan_intent scan_found persist_intent persisted_intent expired_during_write
    expire_intent realized expired_row write_expired realized_rows fails_precondition next_intent
    is_bound_elsewhere reject_write new_row renewed_row write_renewed write_next replay_response
    response_row commit_write write_found write_request upsert_tx upsert_intent format format_onto
    format_int generation_etag is_lapsed read_rows write_all scan_lapsed expire_tx expire_leases
    step run is_origin_pending is_observation_pending get_intent mark is_version mark_origin_applied
    mark_publicly_observed mark_publication_error
calls_test = refl

generations_are_versions_example :
    Follows small_platform 8 device first_row (run small_platform first_db calls).intents
unfolding find_intent bytes_eq is_valid
generations_are_versions_example =
    generations_are_versions small_platform first_db calls device first_row (refl, tt)
      ((refl, tt), tt) refl (omega arith)

progress-InOrder_example :
    All
      (InOrder 10)
      (run small_platform empty_database (upserts no_faults first_write ∷ calls)).intents
progress-InOrder_example =
    progress-InOrder small_platform (upserts no_faults first_write ∷ calls) (omega arith)

status-pending_example : status first_result.intent ≡ accepted
unfolding is_origin_pending scan_intent decode_addresses parse_all
status-pending_example =
    status-pending small_platform 1 first_row first_result.intent
      (record {
        observed = omega arith;
        applied = omega arith;
        desired = omega arith;
        positive = omega arith;
        bounded = omega arith;
      })
      refl

abbrev first_expired : List Intent
first_expired = expire_intent 2000 first_result.intent ∷ []

first_expires : (expire_leases small_platform no_faults first_db 2000).1 ≡ ok first_expired
unfolding bytes_eq bytes_lt strip_prefix incr64 sort insert elem is_valid is4 is4in6 unmap addr_eq
    addr_lt is_loopback is_multicast is_link_local_unicast is_private is_global_unicast contains
    status dedup canonical_addresses same_elements addresses_equal addresses_hash
    is_valid_precondition precondition_key run_tx find_intent find_request update_intents
    insert_intent insert_request select_intents has_addresses parse_all encode_addresses
    decode_addresses scan_intent scan_found persist_intent persisted_intent expired_during_write
    expire_intent realized expired_row write_expired realized_rows fails_precondition next_intent
    is_bound_elsewhere reject_write new_row renewed_row write_renewed write_next replay_response
    response_row commit_write write_found write_request upsert_tx upsert_intent format format_onto
    format_int generation_etag is_lapsed read_rows write_all scan_lapsed expire_tx expire_leases
    step run is_origin_pending is_observation_pending get_intent mark is_version mark_origin_applied
    mark_publicly_observed mark_publication_error
first_expires = refl

expire_leases-update_example :
    (expire_leases small_platform no_faults first_db 2000).0 ≡ record first_db {
      intents = update_intents (is_lapsed 2000) (tombstone 2000) (first_row ∷ []);
    }
unfolding find_intent
expire_leases-update_example =
    expire_leases-update small_platform 2000 no_faults first_db first_expired (λ id. refl)
      (refl, tt) first_expires

-- SQLite fails on the way to the only row.
abbrev cut_off : Faults
cut_off (next_row id) = true
cut_off _ = false

-- The call succeeds, and the lapsed row stays.
cut_expires : expire_leases small_platform cut_off first_db 2000 ≡ (first_db, ok [])
unfolding expire_leases expire_tx run_tx is_lapsed read_rows write_all scan_lapsed select_intents
    sort insert has_addresses
cut_expires = refl

expire_leases_total_example :
    let (after, result) = expire_leases small_platform no_faults first_db 2000 in
    ((expired : List Intent) × (result ≡ ok expired))
    × All (λ row. is_lapsed 2000 row ≡ false) after.intents
unfolding scan_intent decode_addresses parse_all find_intent
expire_leases_total_example =
    expire_leases_total small_platform 2000 first_db (refl, tt) ((first_result.intent, refl), tt)

first_canonical : canonical_addresses first_result.intent.addresses ≡ first_result.intent.addresses
unfolding bytes_eq bytes_lt strip_prefix incr64 sort insert elem is_valid is4 is4in6 unmap addr_eq
    addr_lt is_loopback is_multicast is_link_local_unicast is_private is_global_unicast contains
    status dedup canonical_addresses same_elements addresses_equal addresses_hash
    is_valid_precondition precondition_key run_tx find_intent find_request update_intents
    insert_intent insert_request select_intents has_addresses parse_all encode_addresses
    decode_addresses scan_intent scan_found persist_intent persisted_intent expired_during_write
    expire_intent realized expired_row write_expired realized_rows fails_precondition next_intent
    is_bound_elsewhere reject_write new_row renewed_row write_renewed write_next replay_response
    response_row commit_write write_found write_request upsert_tx upsert_intent format format_onto
    format_int generation_etag is_lapsed read_rows write_all scan_lapsed expire_tx expire_leases
    step run is_origin_pending is_observation_pending get_intent mark is_version mark_origin_applied
    mark_publicly_observed mark_publication_error
first_canonical = refl

abbrev second_result : UpsertResult
second_result = record {
  intent = record first_result.intent {
    addresses = address_a ∷ [];
    generation = pos 2;
    lease_expires_at = 1070;
    updated_at = 1010;
  };
  renew_after_seconds = pos 30;
  replay = false;
}

second_accepted : (upsert_intent small_platform no_faults first_db next_write).1 ≡ ok second_result
unfolding bytes_eq bytes_lt strip_prefix incr64 sort insert elem is_valid is4 is4in6 unmap addr_eq
    addr_lt is_loopback is_multicast is_link_local_unicast is_private is_global_unicast contains
    status dedup canonical_addresses same_elements addresses_equal addresses_hash
    is_valid_precondition precondition_key run_tx find_intent find_request update_intents
    insert_intent insert_request select_intents has_addresses parse_all encode_addresses
    decode_addresses scan_intent scan_found persist_intent persisted_intent expired_during_write
    expire_intent realized expired_row write_expired realized_rows fails_precondition next_intent
    is_bound_elsewhere reject_write new_row renewed_row write_renewed write_next replay_response
    response_row commit_write write_found write_request upsert_tx upsert_intent format format_onto
    format_int generation_etag is_lapsed read_rows write_all scan_lapsed expire_tx expire_leases
    step run is_origin_pending is_observation_pending get_intent mark is_version mark_origin_applied
    mark_publicly_observed mark_publication_error
second_accepted = refl

abbrev repeated_result : UpsertResult
repeated_result = record second_result { replay = true }

-- A repetition after the lease ran out is a replay.
second_repeated :
    (upsert_intent small_platform no_faults
      (run small_platform
        (upsert_intent small_platform no_faults first_db next_write).0
        (expires no_faults 2000 ∷ []))
      next_write).1
    ≡ ok repeated_result
unfolding bytes_eq bytes_lt strip_prefix incr64 sort insert elem is_valid is4 is4in6 unmap addr_eq
    addr_lt is_loopback is_multicast is_link_local_unicast is_private is_global_unicast contains
    status dedup canonical_addresses same_elements addresses_equal addresses_hash
    is_valid_precondition precondition_key run_tx find_intent find_request update_intents
    insert_intent insert_request select_intents has_addresses parse_all encode_addresses
    decode_addresses scan_intent scan_found persist_intent persisted_intent expired_during_write
    expire_intent realized expired_row write_expired realized_rows fails_precondition next_intent
    is_bound_elsewhere reject_write new_row renewed_row write_renewed write_next replay_response
    response_row commit_write write_found write_request upsert_tx upsert_intent format format_onto
    format_int generation_etag is_lapsed read_rows write_all scan_lapsed expire_tx expire_leases
    step run is_origin_pending is_observation_pending get_intent mark is_version mark_origin_applied
    mark_publicly_observed mark_publication_error
second_repeated = refl

pos-injective : pos 2 ≢ pos 1
pos-injective e = absurd (let p = ap pos_part e in omega arith)

no_lost_update_example : repeated_result.replay ≡ true
unfolding is_valid find_intent
no_lost_update_example =
    no_lost_update small_platform no_faults no_faults first_db next_write next_write
      (expires no_faults 2000 ∷ []) (pos 1) second_result repeated_result (refl, tt) (refl, tt) tt
      (omega arith) refl second_accepted refl pos-injective refl refl second_repeated
