-- ===== src/Examples/Publication.antt =====
-- Examples of passes of the publisher.
use nixos_kaiba_network.Prelude.{
  ◌≡◌, refl, true, false, List, [], ◌∷◌, none, some, ok, arith, Bytes, bytes_eq, bytes_lt,
  strip_prefix,
}
use nixos_kaiba_network.Prelude.Int.{pos, incr64}
use nixos_kaiba_network.Prelude.Sorted.{sort, insert, elem}
use nixos_kaiba_network.Prelude.Decimal.{format, format_onto}
use nixos_kaiba_network.Net.{
  Addr, addr_order, is_valid, is4, is4in6, unmap, addr_eq, addr_lt, is_loopback, is_multicast,
  is_link_local_unicast, is_private, is_global_unicast, contains,
}
use nixos_kaiba_network.Model.{
  status, dedup, canonical_addresses, same_elements, addresses_equal, addresses_hash,
}
use nixos_kaiba_network.Api.{format_int, generation_etag}
use nixos_kaiba_network.Store.{match_generation, is_valid_precondition, precondition_key}
use nixos_kaiba_network.Store.Tables.{
  no_faults, Database, IntentRow, run_tx, find_intent, find_request, update_intents, insert_intent,
  insert_request, select_intents, has_addresses, parse_all, encode_addresses, decode_addresses,
  scan_intent, scan_found, persist_intent, persisted_intent,
}
use nixos_kaiba_network.Store.Upsert.{
  expired_during_write, expire_intent, realized, expired_row, write_expired, realized_rows,
  fails_precondition, next_intent, is_bound_elsewhere, reject_write, new_row, renewed_row,
  write_renewed, write_next, replay_response, response_row, commit_write, write_found,
  write_request, upsert_tx, upsert_intent,
}
use nixos_kaiba_network.Store.Leases.{
  is_lapsed, read_rows, write_all, scan_lapsed, expire_tx, expire_leases,
}
use nixos_kaiba_network.Store.Queries.{
  is_origin_pending, is_observation_pending, get_intent, mark, is_version, mark_origin_applied,
  mark_publicly_observed, mark_publication_error,
}
use nixos_kaiba_network.Store.History.{Call, upserts, step, run}
use nixos_kaiba_network.Store.Queries.{
  or_not_found, effective_limit, scan_rows, list_where, list_origin_pending,
  list_observation_pending,
}
use nixos_kaiba_network.Publisher.{
  Writer, PassFaults, Service, acquired, failures, is_valid_service, batch, after_replace,
  publish_one, publish_all, after_observe, observe_one, observe_all, expire_pass, publish_listed,
  publish_pass, observe_listed, observe_with, observe_pass, run_led, run_once,
}
use nixos_kaiba_network.Publisher.Loop.{Round, passes, in_round, run_loop}
use nixos_kaiba_network.Publisher.Marks.{mark_is_current}
use nixos_kaiba_network.Store.Versions.{address_set}
use nixos_kaiba_network.System.{Event, publishes, handle_all, handle_all-Follows}
use nixos_kaiba_network.System
use nixos_kaiba_network.Controller.{Handler}
use nixos_kaiba_network.Examples.Fixtures.{
  small_platform, address_a, address_b, device, first_write, first_result,
}

-- An origin that records every replacement.
abbrev recorder : Writer
recorder = record {
  Zone = List (Bytes × List Addr);
  replace_address_rrsets = λ zone hostname addresses ttl. ((hostname, addresses) ∷ zone, none);
}

abbrev service : Service recorder
service = record {
  has_store = true;
  has_dns = true;
  leadership = acquired;
  observer = some (λ hostname addresses. ok true);
  ttl = 60;
  batch_size = pos 0;
}

abbrev quiet : PassFaults
quiet = record {
  expire = no_faults;
  list_origin = no_faults;
  publish = λ id. no_faults;
  list_observation = no_faults;
  observe = λ id. no_faults;
}

abbrev first_row : IntentRow
first_row = record {
  device_id = device;
  hostname = 2 ∷ [];
  addresses_json = some ((4 ∷ 0x08080404 ∷ []) ∷ (4 ∷ 0x08080808 ∷ []) ∷ []);
  generation = pos 1;
  lease_expires_ns = 1060;
  updated_at_ns = 1000;
  origin_applied_generation = pos 0;
  public_observed_generation = pos 0;
  last_publication_error = [];
}

abbrev first_db : Database
first_db = record { intents = first_row ∷ []; idempotency_requests = [] }

-- One pass brings a new device to the origin and marks it as observed.
pass_test : run_once recorder small_platform quiet service 1010 first_db [] ≡ (
  (
    record first_db {
      intents =
          record first_row { origin_applied_generation = pos 1; public_observed_generation = pos 1 }
          ∷ [];
    },
    (2 ∷ [], address_b ∷ address_a ∷ []) ∷ [],
  ),
  failures [],
)
unfolding bytes_eq bytes_lt strip_prefix incr64 sort insert elem is_valid is4 is4in6 unmap addr_eq
    addr_lt is_loopback is_multicast is_link_local_unicast is_private is_global_unicast contains
    status dedup canonical_addresses same_elements addresses_equal addresses_hash
    is_valid_precondition precondition_key run_tx find_intent find_request update_intents
    insert_intent insert_request select_intents has_addresses parse_all encode_addresses
    decode_addresses scan_intent scan_found persist_intent persisted_intent expired_during_write
    expire_intent realized expired_row write_expired realized_rows fails_precondition next_intent
    is_bound_elsewhere reject_write new_row renewed_row write_renewed write_next replay_response
    response_row commit_write write_found write_request upsert_tx upsert_intent format format_onto
    format_int generation_etag is_lapsed read_rows write_all scan_lapsed expire_tx expire_leases
    step run is_origin_pending is_observation_pending get_intent mark is_version mark_origin_applied
    mark_publicly_observed mark_publication_error is_valid_service batch after_replace publish_one
    publish_all after_observe observe_one observe_all expire_pass publish_listed publish_pass
    observe_listed observe_with observe_pass run_led run_once or_not_found effective_limit scan_rows
    list_where list_origin_pending list_observation_pending
pass_test = refl

-- Two passes, with the context cancelled after the second.
abbrev first_round : Round
first_round = record {
  faults = quiet;
  now = 1010;
  leadership = acquired;
  observe = λ hostname addresses. ok true;
  cancels = false;
}

abbrev two_rounds : List Round
two_rounds = first_round ∷ record first_round { now = 2010; cancels = true } ∷ []

-- The loop makes both passes, neither of which fails.
loop_test :
    (run_loop recorder small_platform (pos 5) service two_rounds first_db []).1
    ≡ failures [] ∷ failures [] ∷ []
unfolding run_loop passes in_round bytes_eq bytes_lt strip_prefix incr64 sort insert elem is_valid
    is4 is4in6 unmap addr_eq addr_lt is_loopback is_multicast is_link_local_unicast is_private
    is_global_unicast contains status dedup canonical_addresses same_elements addresses_equal
    addresses_hash is_valid_precondition precondition_key run_tx find_intent find_request
    update_intents insert_intent insert_request select_intents has_addresses parse_all
    encode_addresses decode_addresses scan_intent scan_found persist_intent persisted_intent
    expired_during_write expire_intent realized expired_row write_expired realized_rows
    fails_precondition next_intent is_bound_elsewhere reject_write new_row renewed_row write_renewed
    write_next replay_response response_row commit_write write_found write_request upsert_tx
    upsert_intent format format_onto format_int generation_etag is_lapsed read_rows write_all
    scan_lapsed expire_tx expire_leases step run is_origin_pending is_observation_pending get_intent
    mark is_version mark_origin_applied mark_publicly_observed mark_publication_error
    is_valid_service batch after_replace publish_one publish_all after_observe observe_one
    observe_all expire_pass publish_listed publish_pass observe_listed observe_with observe_pass
    run_led run_once or_not_found effective_limit scan_rows list_where list_origin_pending
    list_observation_pending
loop_test = refl

-- A renewal of the lease under the same address set, between the list and the mark.
abbrev renewal : List Call
renewal =
    upserts no_faults (record first_write {
      precondition = match_generation (pos 1);
      idempotency_key = 4 ∷ [];
      now = 1020;
    })
    ∷ []

abbrev renewed : IntentRow
renewed = record first_row { lease_expires_ns = 1080; updated_at_ns = 1020 }

renewal_keeps : find_intent device (run small_platform first_db renewal).intents ≡ some renewed
unfolding bytes_eq bytes_lt strip_prefix incr64 sort insert elem is_valid is4 is4in6 unmap addr_eq
    addr_lt is_loopback is_multicast is_link_local_unicast is_private is_global_unicast contains
    status dedup canonical_addresses same_elements addresses_equal addresses_hash
    is_valid_precondition precondition_key run_tx find_intent find_request update_intents
    insert_intent insert_request select_intents has_addresses parse_all encode_addresses
    decode_addresses scan_intent scan_found persist_intent persisted_intent expired_during_write
    expire_intent realized expired_row write_expired realized_rows fails_precondition next_intent
    is_bound_elsewhere reject_write new_row renewed_row write_renewed write_next replay_response
    response_row commit_write write_found write_request upsert_tx upsert_intent format format_onto
    format_int generation_etag is_lapsed read_rows write_all scan_lapsed expire_tx expire_leases
    step run is_origin_pending is_observation_pending get_intent mark is_version mark_origin_applied
    mark_publicly_observed mark_publication_error
renewal_keeps = refl

mark_is_current_example :
    (renewed.hostname ≡ 2 ∷ [])
    × (address_set small_platform renewed ≡ ok (canonical_addresses first_result.intent.addresses))
unfolding find_intent bytes_eq is_valid scan_intent decode_addresses parse_all is_version
mark_is_current_example =
    mark_is_current small_platform first_db renewal device first_row renewed first_result.intent
      (refl, tt) ((refl, (refl, tt)), tt) (omega arith) refl refl renewal_keeps refl

abbrev handler : Handler
handler = record {
  lease_duration = 60000000000;
  renew_after = 30000000000;
  allow_non_global_addresses = false;
}

handle_all-Follows_example :
    System.Follows small_platform recorder handler first_db
      (handle_all small_platform recorder handler
        (first_db, [])
        (publishes quiet service 1010 ∷ [])).0
handle_all-Follows_example =
    handle_all-Follows small_platform recorder handler (first_db, [])
      (publishes quiet service 1010 ∷ [])
