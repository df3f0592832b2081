-- ===== src/Store/Migration.antt =====
-- dns/internal/store/sqlite.go, `migrateIdempotencyTable`: the table of idempotency keys that an
-- older version left, brought to the current columns.
pub mod Kept
use nixos_kaiba_network.Prelude.{
  Bool, true, false, not, ◌&&◌, ◌||◌, List, [], ◌∷◌, Bytes, codes, bytes_eq, any, length, ◌==◌,
  if◌then◌else◌, Result, ok, err, ◌>>=◌, ◌>>◌, refuse_if, Option,
}
use nixos_kaiba_network.Store.{StoreError, sqlite_failed}
use nixos_kaiba_network.Store.Tables.{IdempotencyRow, PersistedResult, insert_request}

-- The columns of the table, none if there is no table, and the rows, whose
-- `precondition_key` counts only if the table has the column.
pub record IdempotencyTable : Type 0 where
  pub columns : List Bytes
  pub rows : List IdempotencyRow

pub data MigrationStep : Type 0 where
  inspect create_table begin_migration drop_index rename_table create_current : MigrationStep
  copy_rows drop_legacy commit_migration : MigrationStep
  -- `rows.Next` on the way to a column.
  next_column : Bytes → MigrationStep

unfoldable pub has_column : List Bytes → Bytes → Bool
has_column columns name = any (λ column. bytes_eq column name) columns

abbrev pub target_columns : List Bytes
target_columns =
    codes "device_id"
    ∷ codes "idempotency_key"
    ∷ codes "payload_hash"
    ∷ codes "precondition_key"
    ∷ codes "response_json"
    ∷ []

-- The columns that the copy reads from every legacy table.
abbrev pub copied_columns : List Bytes
copied_columns =
    codes "device_id" ∷ codes "idempotency_key" ∷ codes "payload_hash" ∷ codes "response_json" ∷ []

unfoldable pub lacks_any : List Bytes → List Bytes → Bool
unfolding has_column
lacks_any columns names = any (λ name. not (has_column columns name)) names

unfoldable pub is_current : List Bytes → Bool
unfolding lacks_any
is_current columns =
    length columns == length target_columns && not (lacks_any columns target_columns)

-- The columns that the loop over PRAGMA table_info comes to. `rows.Next` ends it where it fails, and
-- the code does not ask `rows.Err` why it ended.
unfoldable pub read_columns : (MigrationStep → Bool) → List Bytes → List Bytes
read_columns faults [] = []
read_columns faults (column ∷ columns) =
    let rest = read_columns faults columns in
    if faults (next_column column) then [] else column ∷ rest

-- The row that the copy makes of a legacy row.
unfoldable pub migrated_row : Bool → IdempotencyRow → IdempotencyRow
migrated_row keeps_precondition row = record row {
  precondition_key = if keeps_precondition then row.precondition_key else [];
}

-- INSERT … SELECT, row by row into the new table.
unfoldable pub copy_into :
    Bool → List IdempotencyRow → List IdempotencyRow → Result StoreError (List IdempotencyRow)
unfolding migrated_row
copy_into keeps_precondition copied [] = ok copied
copy_into keeps_precondition copied (row ∷ rows) = do
  more ← insert_request (migrated_row keeps_precondition row) copied
  copy_into keeps_precondition more rows

-- The transaction that rebuilds the table; `seen` holds the columns that were read.
unfoldable pub rebuild :
    (MigrationStep → Bool) → List Bytes → IdempotencyTable → Result StoreError IdempotencyTable
unfolding lacks_any copy_into
rebuild faults seen table = do
  refuse_if (faults begin_migration || faults drop_index || faults rename_table) sqlite_failed
  refuse_if (faults create_current) sqlite_failed
  refuse_if (faults copy_rows || lacks_any table.columns copied_columns) sqlite_failed
  rows ← copy_into (has_column seen (codes "precondition_key")) [] table.rows
  refuse_if (faults drop_legacy || faults commit_migration) sqlite_failed
  ok (record { columns = target_columns; rows = rows })

-- CREATE TABLE IF NOT EXISTS
unfoldable pub create_empty :
    (MigrationStep → Bool) → IdempotencyTable → Result StoreError IdempotencyTable
create_empty faults table = do
  refuse_if (faults create_table) sqlite_failed
  ok (if length table.columns == 0 then record { columns = target_columns; rows = [] } else table)

-- What follows the inspection, which has read the columns `seen`.
unfoldable pub migrate_seen :
    (MigrationStep → Bool) → List Bytes → IdempotencyTable → Result StoreError IdempotencyTable
unfolding is_current rebuild create_empty
migrate_seen faults seen table =
    if length seen == 0
    then create_empty faults table
    else if is_current seen
    then ok table
    else rebuild faults seen table

-- The table after the migration; an error leaves it as it was.
unfoldable pub migrate_idempotency_table :
    (MigrationStep → Bool) → IdempotencyTable → Result StoreError IdempotencyTable
unfolding migrate_seen read_columns
migrate_idempotency_table faults table = do
  refuse_if (faults inspect) sqlite_failed
  migrate_seen faults (read_columns faults table.columns) table
