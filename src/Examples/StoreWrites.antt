-- ===== src/Examples/StoreWrites.antt =====
-- Examples of writes to the store.
use nixos_kaiba_network.Prelude.{
  ◌≡◌, ◌≢◌, refl, ap, true, inr, List, [], ◌∷◌, ok, err, arith, Bytes, bytes_eq, bytes_lt,
  strip_prefix, ℕ,
}
use nixos_kaiba_network.Prelude.Int.{pos, incr64}
use nixos_kaiba_network.Prelude.Sorted.{sort, insert, elem}
use nixos_kaiba_network.Prelude.Decimal.{format, format_onto, value}
use nixos_kaiba_network.Net.{
  is_valid, is4, is4in6, unmap, addr_eq, addr_lt, is_loopback, is_multicast, is_link_local_unicast,
  is_private, is_global_unicast, contains,
}
use nixos_kaiba_network.Model.{
  status, dedup, canonical_addresses, same_elements, addresses_equal, addresses_hash,
}
use nixos_kaiba_network.Api.{format_int, generation_etag}
use nixos_kaiba_network.Store.{
  precondition_failed, idempotency_conflict, must_be_absent, match_generation, UpsertRequest,
  is_valid_precondition, precondition_key,
}
use nixos_kaiba_network.Store.Tables.{
  empty_database, no_faults, Database, run_tx, find_intent, find_request, update_intents,
  insert_intent, insert_request, select_intents, has_addresses, parse_all, encode_addresses,
  decode_addresses, scan_intent, scan_found, persist_intent, persisted_intent,
}
use nixos_kaiba_network.Store.Upsert.{
  expired_during_write, expire_intent, realized, expired_row, write_expired, realized_rows,
  fails_precondition, next_intent, is_bound_elsewhere, reject_write, new_row, renewed_row,
  write_renewed, write_next, replay_response, response_row, commit_write, write_found,
  write_request, upsert_tx, upsert_intent,
}
use nixos_kaiba_network.Store.Leases.{
  is_lapsed, read_rows, write_all, scan_lapsed, expire_tx, expire_leases,
}
use nixos_kaiba_network.Store.Queries.{get_intent}
use nixos_kaiba_network.Store.History.{Call, upserts, expires, run}
use nixos_kaiba_network.Store.Replay.{replay_forever, conflict_forever}
use nixos_kaiba_network.Store.Upsert.Contract.{
  AfterError, Permits, upsert_intent-AfterError, upsert_intent-Permits,
}
use nixos_kaiba_network.Store.Upsert.Visible.{read_your_writes}
use nixos_kaiba_network.Store.Upsert.Isolation.{upsert_intent-other}
use nixos_kaiba_network.Examples.Fixtures.{
  small_platform, device, first_write, repeated_write, next_write, first_result,
}

-- The tables after the first write.
abbrev pub first_db : Database
first_db = (upsert_intent small_platform no_faults empty_database first_write).0

abbrev pub next_calls : List Call
next_calls = upserts no_faults next_write ∷ expires no_faults 2000 ∷ []

first_accepted :
    (upsert_intent small_platform no_faults empty_database first_write).1 ≡ ok first_result
unfolding bytes_eq bytes_lt strip_prefix incr64 sort insert elem is_valid is4 is4in6 unmap addr_eq
    addr_lt is_loopback is_multicast is_link_local_unicast is_private is_global_unicast contains
    status dedup canonical_addresses same_elements addresses_equal addresses_hash
    is_valid_precondition precondition_key run_tx find_intent find_request update_intents
    insert_intent insert_request select_intents has_addresses parse_all encode_addresses
    decode_addresses scan_intent scan_found persist_intent persisted_intent expired_during_write
    expire_intent realized expired_row write_expired realized_rows fails_precondition next_intent
    is_bound_elsewhere reject_write new_row renewed_row write_renewed write_next replay_response
    response_row commit_write write_found write_request upsert_tx upsert_intent format format_onto
    value format_int generation_etag is_lapsed read_rows write_all scan_lapsed expire_tx
    expire_leases
first_accepted = refl

same_canonical :
    canonical_addresses repeated_write.addresses ≡ canonical_addresses first_write.addresses
unfolding bytes_eq bytes_lt strip_prefix incr64 sort insert elem is_valid is4 is4in6 unmap addr_eq
    addr_lt is_loopback is_multicast is_link_local_unicast is_private is_global_unicast contains
    status dedup canonical_addresses same_elements addresses_equal addresses_hash
    is_valid_precondition precondition_key run_tx find_intent find_request update_intents
    insert_intent insert_request select_intents has_addresses parse_all encode_addresses
    decode_addresses scan_intent scan_found persist_intent persisted_intent expired_during_write
    expire_intent realized expired_row write_expired realized_rows fails_precondition next_intent
    is_bound_elsewhere reject_write new_row renewed_row write_renewed write_next replay_response
    response_row commit_write write_found write_request upsert_tx upsert_intent format format_onto
    value format_int generation_etag is_lapsed read_rows write_all scan_lapsed expire_tx
    expire_leases
same_canonical = refl

replay_forever_example :
    upsert_intent small_platform no_faults (run small_platform first_db next_calls) repeated_write
    ≡ (
      run small_platform first_db next_calls,
      ok (record { intent = first_result.intent; renew_after_seconds = pos 30; replay = true }),
    )
unfolding is_valid
replay_forever_example =
    replay_forever small_platform no_faults empty_database first_write repeated_write next_calls
      first_result (refl, (refl, tt)) first_accepted refl (refl, refl, same_canonical, refl)

abbrev conflicting_write : UpsertRequest
conflicting_write = record first_write { precondition = match_generation (pos 7) }

keys_differ : precondition_key (match_generation (pos 7)) ≢ precondition_key must_be_absent
unfolding bytes_eq bytes_lt strip_prefix incr64 sort insert elem is_valid is4 is4in6 unmap addr_eq
    addr_lt is_loopback is_multicast is_link_local_unicast is_private is_global_unicast contains
    status dedup canonical_addresses same_elements addresses_equal addresses_hash
    is_valid_precondition precondition_key run_tx find_intent find_request update_intents
    insert_intent insert_request select_intents has_addresses parse_all encode_addresses
    decode_addresses scan_intent scan_found persist_intent persisted_intent expired_during_write
    expire_intent realized expired_row write_expired realized_rows fails_precondition next_intent
    is_bound_elsewhere reject_write new_row renewed_row write_renewed write_next replay_response
    response_row commit_write write_found write_request upsert_tx upsert_intent format format_onto
    value format_int generation_etag is_lapsed read_rows write_all scan_lapsed expire_tx
    expire_leases
keys_differ e = cc

conflict_forever_example :
    upsert_intent small_platform no_faults
      (run small_platform first_db next_calls)
      conflicting_write
    ≡ (run small_platform first_db next_calls, err idempotency_conflict)
conflict_forever_example =
    conflict_forever small_platform no_faults empty_database first_write conflicting_write
      next_calls first_result first_accepted refl refl refl (inr keys_differ)

-- A stale write, after the lease of the first one ran out.
abbrev stale_write : UpsertRequest
stale_write = record next_write { now = 3000 }

stale_refused :
    (upsert_intent small_platform no_faults first_db stale_write).1 ≡ err precondition_failed
unfolding bytes_eq bytes_lt strip_prefix incr64 sort insert elem is_valid is4 is4in6 unmap addr_eq
    addr_lt is_loopback is_multicast is_link_local_unicast is_private is_global_unicast contains
    status dedup canonical_addresses same_elements addresses_equal addresses_hash
    is_valid_precondition precondition_key run_tx find_intent find_request update_intents
    insert_intent insert_request select_intents has_addresses parse_all encode_addresses
    decode_addresses scan_intent scan_found persist_intent persisted_intent expired_during_write
    expire_intent realized expired_row write_expired realized_rows fails_precondition next_intent
    is_bound_elsewhere reject_write new_row renewed_row write_renewed write_next replay_response
    response_row commit_write write_found write_request upsert_tx upsert_intent format format_onto
    value format_int generation_etag is_lapsed read_rows write_all scan_lapsed expire_tx
    expire_leases
stale_refused = refl

upsert_intent-AfterError_example :
    AfterError small_platform first_db stale_write precondition_failed
      (upsert_intent small_platform no_faults first_db stale_write).0
upsert_intent-AfterError_example =
    upsert_intent-AfterError small_platform no_faults first_db stale_write precondition_failed
      stale_refused

upsert_intent-Permits_example :
    (is_valid_precondition must_be_absent ≡ true)
    × Permits small_platform empty_database first_write
upsert_intent-Permits_example =
    upsert_intent-Permits small_platform no_faults empty_database first_write first_result
      first_accepted refl

read_your_writes_example :
    (get_intent small_platform no_faults first_db device ≡ ok first_result.intent)
    × (first_result.intent.addresses ≡ canonical_addresses first_write.addresses)
unfolding is_valid
read_your_writes_example =
    read_your_writes small_platform no_faults empty_database first_write first_result
      (refl, (refl, tt)) first_accepted refl

abbrev other_device : Bytes
other_device = 9 ∷ []

other_differs : other_device ≢ device
other_differs e = absurd (omega (arith, ap head_or_zero e))
  where
    head_or_zero : Bytes → ℕ
    head_or_zero [] = 0
    head_or_zero (c ∷ cs) = c

upsert_intent-other_example :
    get_intent small_platform no_faults
      (upsert_intent small_platform no_faults first_db next_write).0
      other_device
    ≡ get_intent small_platform no_faults first_db other_device
upsert_intent-other_example =
    upsert_intent-other small_platform no_faults first_db next_write other_device other_differs
