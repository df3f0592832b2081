-- ===== src/Store/Tables.antt =====
-- dns/internal/store/sqlite.go: the two tables, the statements on them, and the conversions between
-- rows and intents. A JSON column is the value that its text holds, or `none` where it holds none.
use nixos_kaiba_network.Prelude.{
  Bool, true, false, ◌&&◌, ◌||◌, Option, none, some, List, [], ◌∷◌, ◌++◌, map, Bytes, bytes_eq,
  bytes_lt, any, keep, if◌then◌else◌, Result, ok, err, ◌>>=◌,
}
use nixos_kaiba_network.Prelude.Int.{ℤ}
use nixos_kaiba_network.Prelude.Sorted.{sort}
use nixos_kaiba_network.Net.{Addr}
use nixos_kaiba_network.Model.{Intent, Time, Platform, canonical_addresses}
use nixos_kaiba_network.Store.{StoreError, malformed, constraint_violated}

pub record IntentRow : Type 0 where
  pub device_id : Bytes
  pub hostname : Bytes
  pub addresses_json : Option (List Bytes)
  pub generation : ℤ
  pub lease_expires_ns : Time
  pub updated_at_ns : Time
  pub origin_applied_generation : ℤ
  pub public_observed_generation : ℤ
  pub last_publication_error : Bytes

pub record PersistedResult : Type 0 where
  pub device_id : Bytes
  pub hostname : Bytes
  pub addresses : List Bytes
  pub generation : ℤ
  pub lease_expires_ns : Time
  pub updated_at_ns : Time
  pub renew_after_seconds : ℤ
  pub origin_applied_generation : ℤ
  pub public_observed_generation : ℤ
  pub last_publication_error : Bytes

pub record IdempotencyRow : Type 0 where
  pub device_id : Bytes
  pub idempotency_key : Bytes
  pub payload_hash : Bytes
  pub precondition_key : Bytes
  pub response_json : Option PersistedResult

pub record Database : Type 0 where
  pub intents : List IntentRow
  pub idempotency_requests : List IdempotencyRow

-- What `migrate` creates in a new file.
abbrev pub empty_database : Database
empty_database = record { intents = []; idempotency_requests = [] }

-- The calls of SQLite, each of which may fail.
pub data SqlStep : Type 0 where
  begin_tx select_key select_intent update_expired write_intent insert_response commit_tx : SqlStep
  select_rows update_status : SqlStep
  update_row : Bytes → SqlStep
  -- `rows.Next` on the way to the row of a device.
  next_row : Bytes → SqlStep

abbrev pub Faults : Type 0
Faults = SqlStep → Bool

abbrev pub no_faults : Faults
no_faults step = false

-- A transaction body: `err e` returns without a commit, so that the deferred rollback keeps the
-- tables; `ok (db, r)` has committed `db` and returns `r`.
abbrev pub Tx : Type 0 → Type 0
Tx A = Result StoreError (Database × Result StoreError A)

unfoldable pub run_tx : {A : Type 0} → Database → Tx A → Database × Result StoreError A
run_tx db (ok (db', r)) = (db', r)
run_tx db (err e) = (db, err e)

-- SELECT … FROM intents WHERE device_id = ?
unfoldable pub find_intent : Bytes → List IntentRow → Option IntentRow
find_intent id [] = none
find_intent id (row ∷ rows) = if bytes_eq row.device_id id then some row else find_intent id rows

-- SELECT … FROM idempotency_requests WHERE device_id = ? AND idempotency_key = ?
unfoldable pub find_request : Bytes → Bytes → List IdempotencyRow → Option IdempotencyRow
find_request id key [] = none
find_request id key (row ∷ rows) =
    if bytes_eq row.device_id id && bytes_eq row.idempotency_key key
    then some row
    else find_request id key rows

-- UPDATE intents SET … WHERE …
unfoldable pub update_intents :
    (IntentRow → Bool) → (IntentRow → IntentRow) → List IntentRow → List IntentRow
update_intents test change [] = []
update_intents test change (row ∷ rows) =
    (if test row then change row else row) ∷ update_intents test change rows

-- INSERT INTO intents, with the primary key on the device and the unique hostname.
unfoldable pub insert_intent : IntentRow → List IntentRow → Result StoreError (List IntentRow)
insert_intent new rows =
    if any (λ row. bytes_eq row.device_id new.device_id || bytes_eq row.hostname new.hostname) rows
    then err constraint_violated
    else ok (rows ++ new ∷ [])

-- INSERT INTO idempotency_requests, with the primary key on device and key.
unfoldable pub insert_request :
    IdempotencyRow → List IdempotencyRow → Result StoreError (List IdempotencyRow)
insert_request new rows =
    if any
      (λ row.
        bytes_eq row.device_id new.device_id && bytes_eq row.idempotency_key new.idempotency_key)
      rows
    then err constraint_violated
    else ok (rows ++ new ∷ [])

-- SELECT … FROM intents WHERE … ORDER BY device_id
unfoldable pub select_intents : (IntentRow → Bool) → List IntentRow → List IntentRow
select_intents test rows = sort (λ r s. bytes_lt r.device_id s.device_id) (keep test rows)

-- addresses_json <> '[]'
unfoldable pub has_addresses : Option (List Bytes) → Bool
has_addresses (some []) = false
has_addresses _ = true

module _ (platform : Platform) where
  open platform use {parse_addr, addr_string}

  unfoldable pub parse_all : List Bytes → Result StoreError (List Addr)
  parse_all [] = ok []
  parse_all (value ∷ values) = elim (parse_addr value) [
    | none ↦ err malformed
    | some addr ↦ do rest ← parse_all values; ok (addr ∷ rest)
  ]

  unfoldable pub encode_addresses : List Addr → Option (List Bytes)
  encode_addresses addresses = some (map addr_string (canonical_addresses addresses))

  unfoldable pub decode_addresses : Option (List Bytes) → Result StoreError (List Addr)
  unfolding parse_all
  decode_addresses none = err malformed
  decode_addresses (some values) = parse_all values

  unfoldable pub scan_intent : IntentRow → Result StoreError Intent
  unfolding decode_addresses
  scan_intent row = do
    addresses ← decode_addresses row.addresses_json
    ok (record {
      device_id = row.device_id;
      hostname = row.hostname;
      addresses = addresses;
      generation = row.generation;
      lease_expires_at = row.lease_expires_ns;
      updated_at = row.updated_at_ns;
      origin_applied_generation = row.origin_applied_generation;
      public_observed_generation = row.public_observed_generation;
      last_publication_error = row.last_publication_error;
    })

  -- `scanIntent` on a query for one row: no row is no error.
  unfoldable pub scan_found : Option IntentRow → Result StoreError (Option Intent)
  unfolding scan_intent
  scan_found none = ok none
  scan_found (some row) = do intent ← scan_intent row; ok (some intent)

  unfoldable pub persist_intent : Intent → ℤ → PersistedResult
  persist_intent intent renew_after_seconds = record {
    device_id = intent.device_id;
    hostname = intent.hostname;
    addresses = map addr_string (canonical_addresses intent.addresses);
    generation = intent.generation;
    lease_expires_ns = intent.lease_expires_at;
    updated_at_ns = intent.updated_at;
    renew_after_seconds = renew_after_seconds;
    origin_applied_generation = intent.origin_applied_generation;
    public_observed_generation = intent.public_observed_generation;
    last_publication_error = intent.last_publication_error;
  }

  unfoldable pub persisted_intent : PersistedResult → Result StoreError Intent
  unfolding parse_all
  persisted_intent p = do
    addresses ← parse_all p.addresses
    ok (record {
      device_id = p.device_id;
      hostname = p.hostname;
      addresses = addresses;
      generation = p.generation;
      lease_expires_at = p.lease_expires_ns;
      updated_at = p.updated_at_ns;
      origin_applied_generation = p.origin_applied_generation;
      public_observed_generation = p.public_observed_generation;
      last_publication_error = p.last_publication_error;
    })
