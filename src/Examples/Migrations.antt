-- ===== src/Examples/Migrations.antt =====
-- Examples of migrations.
use nixos_kaiba_network.Prelude.{
  ◌≡◌, refl, map, arith, Bool, true, false, none, some, bytes_lt, strip_prefix, [], ◌∷◌, codes,
  bytes_eq, ok,
}
use nixos_kaiba_network.Store.Tables.{
  IdempotencyRow, PersistedResult, Database, no_faults, find_request, insert_request, parse_all,
  persisted_intent,
}
use nixos_kaiba_network.Prelude.Int.{pos}
use nixos_kaiba_network.Prelude.Sorted.{sort, insert, elem}
use nixos_kaiba_network.Net.{
  is_valid, is4, is4in6, unmap, addr_eq, addr_lt, is_loopback, is_multicast, is_link_local_unicast,
  is_private, is_global_unicast, contains,
}
use nixos_kaiba_network.Model.{
  status, dedup, canonical_addresses, same_elements, addresses_equal, addresses_hash,
}
use nixos_kaiba_network.Examples.Fixtures.{small_platform, device, first_write, first_result}
use nixos_kaiba_network.Store.Upsert.{upsert_intent}
use nixos_kaiba_network.Store.Migration.{
  IdempotencyTable, MigrationStep, has_column, lacks_any, copied_columns, target_columns,
  is_current, migrated_row, copy_into, rebuild, create_empty, migrate_seen, read_columns,
  next_column, migrate_idempotency_table,
}
use nixos_kaiba_network.Store.Migration.Kept.{
  kept_rows, migrate_idempotency_table-kept_rows, migrate_idempotency_table-migrated_row,
  migrated_replay,
}

abbrev no_failure : MigrationStep → Bool
no_failure step = false

abbrev legacy_row : IdempotencyRow
legacy_row = record {
  device_id = 1 ∷ [];
  idempotency_key = 3 ∷ [];
  payload_hash = 5 ∷ [];
  precondition_key = [];
  response_json = none;
}

abbrev legacy_table : IdempotencyTable
legacy_table = record { columns = codes "created_at" ∷ copied_columns; rows = legacy_row ∷ [] }

abbrev current_table : IdempotencyTable
current_table = record { columns = target_columns; rows = legacy_row ∷ [] }

migrated : migrate_idempotency_table no_failure legacy_table ≡ ok current_table
unfolding migrate_idempotency_table rebuild copy_into lacks_any has_column is_current migrated_row
    insert_request bytes_eq create_empty migrate_seen read_columns
migrated = refl

migrate_idempotency_table-kept_rows_example :
    (is_current target_columns ≡ true) × (legacy_row ∷ [] ≡ kept_rows legacy_table)
migrate_idempotency_table-kept_rows_example =
    migrate_idempotency_table-kept_rows no_failure legacy_table current_table (λ column. refl)
      migrated

-- A table with preconditions and a column more, whose read ends before the preconditions: the rows
-- are copied without them.
abbrev bound_row : IdempotencyRow
bound_row = record legacy_row { precondition_key = 42 ∷ [] }

abbrev wide_table : IdempotencyTable
wide_table = record { columns = codes "created_at" ∷ target_columns; rows = bound_row ∷ [] }

abbrev cut_off : MigrationStep → Bool
cut_off (next_column column) = bytes_eq column (codes "precondition_key")
cut_off _ = false

blanked : migrate_idempotency_table cut_off wide_table ≡ ok current_table
unfolding migrate_idempotency_table rebuild copy_into lacks_any has_column is_current migrated_row
    insert_request bytes_eq create_empty migrate_seen read_columns
blanked = refl

migrate_idempotency_table-migrated_row_example :
    map (migrated_row false) (legacy_row ∷ []) ≡ map (migrated_row false) (bound_row ∷ [])
migrate_idempotency_table-migrated_row_example =
    migrate_idempotency_table-migrated_row cut_off wide_table current_table
      (λ none. absurd (omega arith)) blanked

abbrev stored : PersistedResult
stored = record {
  device_id = device;
  hostname = 2 ∷ [];
  addresses = (4 ∷ 0x08080404 ∷ []) ∷ (4 ∷ 0x08080808 ∷ []) ∷ [];
  generation = pos 1;
  lease_expires_ns = 1060;
  updated_at_ns = 1000;
  renew_after_seconds = pos 0;
  origin_applied_generation = pos 0;
  public_observed_generation = pos 0;
  last_publication_error = [];
}

-- A response from before preconditions and renewal intervals were stored.
abbrev old_row : IdempotencyRow
old_row = record {
  device_id = device;
  idempotency_key = 3 ∷ [];
  payload_hash = 2 ∷ 4 ∷ 0x08080404 ∷ 2 ∷ 4 ∷ 0x08080808 ∷ [];
  precondition_key = [];
  response_json = some stored;
}

abbrev migrated_db : Database
migrated_db = record { intents = []; idempotency_requests = migrated_row false old_row ∷ [] }

same_body :
    bytes_eq old_row.payload_hash
      (addresses_hash small_platform (canonical_addresses first_write.addresses))
    ≡ true
unfolding bytes_eq bytes_lt strip_prefix sort insert elem is_valid is4 is4in6 unmap addr_eq addr_lt
    is_loopback is_multicast is_link_local_unicast is_private is_global_unicast contains status
    dedup canonical_addresses same_elements addresses_equal addresses_hash
same_body = refl

migrated_replay_example : upsert_intent small_platform no_faults migrated_db first_write ≡ (
  migrated_db,
  ok (record { intent = first_result.intent; renew_after_seconds = pos 30; replay = true }),
)
unfolding find_request bytes_eq persisted_intent parse_all
migrated_replay_example =
    migrated_replay small_platform migrated_db (old_row ∷ []) first_write old_row stored
      first_result.intent refl refl same_body refl refl
