-- ===== src/Store/Upsert.antt =====
-- dns/internal/store/sqlite.go, `UpsertIntent`: one transaction that replays a known idempotency
-- key, or checks the precondition and writes the new desired state with its response.
pub mod Outcome
pub mod Contract
pub mod Visible
pub mod Isolation
use nixos_kaiba_network.Prelude.{
  ℕ, ◌+◌, Bool, true, false, not, ◌&&◌, ◌||◌, Option, none, some, List, [], ◌∷◌, Bytes, bytes_eq,
  is_empty, leb, if◌then◌else◌, Result, ok, err, ◌>>=◌, ◌>>◌, refuse_if,
}
use nixos_kaiba_network.Prelude.Int.{ℤ, pos, incr64, leb_ℤ, eq_ℤ}
use nixos_kaiba_network.Net.{Addr}
use nixos_kaiba_network.Model.{
  Intent, Time, Platform, canonical_addresses, addresses_equal, addresses_hash,
}
use nixos_kaiba_network.Store.{
  StoreError, idempotency_conflict, precondition_required, precondition_failed, malformed,
  hostname_mismatch, sqlite_failed, IntentPrecondition, is_valid_precondition, precondition_key,
  UpsertRequest, UpsertResult,
}
use nixos_kaiba_network.Store.Tables.{
  IntentRow, IdempotencyRow, PersistedResult, Database, Faults, SqlStep, begin_tx, select_key,
  select_intent, update_expired, write_intent, insert_response, commit_tx, Tx, run_tx, find_intent,
  find_request, update_intents, insert_intent, insert_request, encode_addresses, scan_found,
  persist_intent, persisted_intent,
}

-- `!now.Before(leaseExpiresAt)`
abbrev pub has_lapsed : Time → Time → Bool
has_lapsed now lease_expires_at = leb lease_expires_at now

-- `expiredDuringWrite`
unfoldable pub expired_during_write : Time → Option Intent → Bool
expired_during_write now none = false
expired_during_write now (some current) =
    not (is_empty current.addresses) && has_lapsed now current.lease_expires_at

-- The intent with its lease realised: an empty address set under the next generation.
unfoldable pub expire_intent : Time → Intent → Intent
expire_intent now current = record current {
  addresses = [];
  generation = incr64 current.generation;
  updated_at = now;
  last_publication_error = [];
}

unfoldable pub realized : Time → Option Intent → Option Intent
unfolding expire_intent
realized now none = none
realized now (some current) =
    if expired_during_write now (some current)
    then some (expire_intent now current)
    else some current

-- UPDATE intents SET addresses_json = '[]', generation = ?, updated_at_ns = ?,
-- last_publication_error = '' WHERE device_id = ?
unfoldable pub expired_row : Intent → IntentRow → IntentRow
expired_row intent row = record row {
  addresses_json = some [];
  generation = intent.generation;
  updated_at_ns = intent.updated_at;
  last_publication_error = [];
}

abbrev pub is_row_of : Intent → IntentRow → Bool
is_row_of intent row = bytes_eq row.device_id intent.device_id

unfoldable pub write_expired : Intent → List IntentRow → List IntentRow
write_expired intent = update_intents (is_row_of intent) (expired_row intent)

unfoldable pub realized_rows : Time → Option Intent → List IntentRow → List IntentRow
unfolding write_expired expire_intent
realized_rows now none rows = rows
realized_rows now (some current) rows =
    if expired_during_write now (some current)
    then write_expired (expire_intent now current) rows
    else rows

unfoldable pub fails_precondition : IntentPrecondition → Option Intent → Bool
fails_precondition p none = not p.require_absent
fails_precondition p (some current) =
    if p.require_absent then true else not (eq_ℤ current.generation p.expected_generation)

-- The intent that a request writes: generation 1 where there was none; else the next generation if
-- the address set changes or the lease had run out, and the same one if not.
unfoldable pub next_intent : UpsertRequest → Option Intent → Intent
next_intent request none = record {
  device_id = request.device_id;
  hostname = request.hostname;
  addresses = request.addresses;
  generation = pos 1;
  lease_expires_at = request.now + request.lease_duration;
  updated_at = request.now;
  origin_applied_generation = pos 0;
  public_observed_generation = pos 0;
  last_publication_error = [];
}
next_intent request (some current) =
    let renewed = record current {
      addresses = request.addresses;
      lease_expires_at = request.now + request.lease_duration;
      updated_at = request.now;
    } in
    if not (addresses_equal current.addresses request.addresses)
      || has_lapsed request.now current.lease_expires_at
    then record renewed { generation = incr64 current.generation; last_publication_error = [] }
    else renewed

-- `request.Addresses = model.CanonicalAddresses(request.Addresses)`
abbrev pub canonical_request : UpsertRequest → UpsertRequest
canonical_request request = record request { addresses = canonical_addresses request.addresses }

or_malformed : Option PersistedResult → Result StoreError PersistedResult
or_malformed none = err malformed
or_malformed (some persisted) = ok persisted

-- A blank stored precondition, of a migrated response, binds the body alone.
unfoldable pub is_bound_elsewhere : IdempotencyRow → Bytes → Bytes → Bool
is_bound_elsewhere row hash key =
    not (bytes_eq row.payload_hash hash)
    || (not (is_empty row.precondition_key) && not (bytes_eq row.precondition_key key))

-- A failed precondition rolls back, but commits a lease that ran out.
unfoldable pub reject_write : Faults → Database → Bool → Tx UpsertResult
reject_write faults db expired = do
  refuse_if (not expired) precondition_failed
  refuse_if (faults commit_tx) sqlite_failed
  ok (db, err precondition_failed)

module _ (platform : Platform) where
  -- The row that INSERT makes; the columns that it does not name take their defaults.
  unfoldable pub new_row : Intent → IntentRow
  new_row next = record {
    device_id = next.device_id;
    hostname = next.hostname;
    addresses_json = encode_addresses platform next.addresses;
    generation = next.generation;
    lease_expires_ns = next.lease_expires_at;
    updated_at_ns = next.updated_at;
    origin_applied_generation = pos 0;
    public_observed_generation = pos 0;
    last_publication_error = [];
  }

  -- UPDATE intents SET addresses_json = ?, generation = ?, lease_expires_ns = ?,
  -- updated_at_ns = ?, last_publication_error = ? WHERE device_id = ?
  unfoldable pub renewed_row : Intent → IntentRow → IntentRow
  renewed_row next row = record row {
    addresses_json = encode_addresses platform next.addresses;
    generation = next.generation;
    lease_expires_ns = next.lease_expires_at;
    updated_at_ns = next.updated_at;
    last_publication_error = next.last_publication_error;
  }

  unfoldable pub write_renewed : Intent → List IntentRow → List IntentRow
  write_renewed next = update_intents (is_row_of next) (renewed_row next)

  unfoldable pub write_next :
      UpsertRequest → Option Intent → List IntentRow → Result StoreError (List IntentRow)
  unfolding new_row write_renewed next_intent
  write_next request none rows = insert_intent (new_row (next_intent request none)) rows
  write_next request (some current) rows = do
    refuse_if (not (bytes_eq current.hostname request.hostname)) hostname_mismatch
    ok (write_renewed (next_intent request (some current)) rows)

  unfoldable pub replay_response :
      Faults → Database → UpsertRequest → Bytes → IdempotencyRow → Tx UpsertResult
  unfolding or_malformed is_bound_elsewhere
  replay_response faults db request hash row = do
    refuse_if (is_bound_elsewhere row hash (precondition_key request.precondition))
        idempotency_conflict
    persisted ← or_malformed row.response_json
    intent ← persisted_intent platform persisted
    refuse_if (faults commit_tx) sqlite_failed
    ok (
      db,
      ok (record {
        intent = intent;
        renew_after_seconds =
            if leb_ℤ persisted.renew_after_seconds (pos 0)
            then request.renew_after_seconds
            else persisted.renew_after_seconds;
        replay = true;
      }),
    )

  -- The row that binds the key to the response.
  unfoldable pub response_row : UpsertRequest → Bytes → Intent → IdempotencyRow
  response_row request hash next = record {
    device_id = request.device_id;
    idempotency_key = request.idempotency_key;
    payload_hash = hash;
    precondition_key = precondition_key request.precondition;
    response_json = some (persist_intent platform next request.renew_after_seconds);
  }

  unfoldable pub commit_write :
      Faults → Database → UpsertRequest → Bytes → Option Intent → Tx UpsertResult
  unfolding write_next response_row
  commit_write faults db request hash current = do
    intents ← write_next request current db.intents
    refuse_if (faults write_intent) sqlite_failed
    requests ←
        insert_request (response_row request hash (next_intent request current))
          db.idempotency_requests
    refuse_if (faults insert_response) sqlite_failed
    refuse_if (faults commit_tx) sqlite_failed
    ok (
      record { intents = intents; idempotency_requests = requests },
      ok (record {
        intent = next_intent request current;
        renew_after_seconds = request.renew_after_seconds;
        replay = false;
      }),
    )

  unfoldable pub write_found :
      Faults → Database → UpsertRequest → Bytes → Option Intent → Tx UpsertResult
  unfolding commit_write reject_write
  write_found faults db request hash found = do
    refuse_if (expired_during_write request.now found && faults update_expired) sqlite_failed
    let db' : Database = record db { intents = realized_rows request.now found db.intents }
    let current = realized request.now found
    if fails_precondition request.precondition current
        then reject_write faults db' (expired_during_write request.now found)
        else commit_write faults db' request hash current

  unfoldable pub write_request : Faults → Database → UpsertRequest → Bytes → Tx UpsertResult
  unfolding write_found
  write_request faults db request hash = do
    refuse_if (not (is_valid_precondition request.precondition)) precondition_required
    refuse_if (faults select_intent) sqlite_failed
    found ← scan_found platform (find_intent request.device_id db.intents)
    write_found faults db request hash found

  unfoldable pub upsert_tx : Faults → Database → UpsertRequest → Tx UpsertResult
  unfolding replay_response write_request
  upsert_tx faults db request = do
    refuse_if (faults begin_tx || faults select_key) sqlite_failed
    let hash = addresses_hash platform request.addresses
    elim (find_request request.device_id request.idempotency_key db.idempotency_requests) [
      | some row ↦ replay_response faults db request hash row
      | none ↦ write_request faults db request hash
    ]

  unfoldable pub upsert_intent :
      Faults → Database → UpsertRequest → Database × Result StoreError UpsertResult
  unfolding upsert_tx run_tx
  upsert_intent faults db request = run_tx db (upsert_tx faults db (canonical_request request))
