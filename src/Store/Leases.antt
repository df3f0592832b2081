-- ===== src/Store/Leases.antt =====
-- dns/internal/store/sqlite.go, `ExpireLeases`: one transaction that empties every address set
-- whose lease has run out.
pub mod Tombstones
pub mod Reads
pub mod Bulk
use nixos_kaiba_network.Prelude.{
  Bool, ◌&&◌, List, [], ◌∷◌, Bytes, if◌then◌else◌, Result, ok, err, ◌>>=◌, ◌>>◌, refuse_if,
}
use nixos_kaiba_network.Model.{Intent, Time, Platform}
use nixos_kaiba_network.Store.{StoreError, sqlite_failed}
use nixos_kaiba_network.Store.Tables.{
  IntentRow, Database, Faults, begin_tx, select_rows, next_row, update_row, commit_tx, Tx, run_tx,
  select_intents, has_addresses, scan_intent,
}
use nixos_kaiba_network.Store.Upsert.{has_lapsed, expire_intent, write_expired}

-- WHERE lease_expires_ns <= ? AND addresses_json <> '[]'
unfoldable pub is_lapsed : Time → IntentRow → Bool
is_lapsed now row = has_lapsed now row.lease_expires_ns && has_addresses row.addresses_json

-- The rows that `rows.Next` comes to. It ends the loop where it fails, and the code does not ask
-- `rows.Err` why the loop ended.
unfoldable pub read_rows : Faults → List IntentRow → List IntentRow
read_rows faults [] = []
read_rows faults (row ∷ rows) =
    let rest = read_rows faults rows in if faults (next_row row.device_id) then [] else row ∷ rest

-- The loop of UPDATE statements.
unfoldable pub write_all :
    Faults → List Intent → List IntentRow → Result StoreError (List IntentRow)
write_all faults [] rows = ok rows
write_all faults (intent ∷ more) rows = do
  refuse_if (faults (update_row intent.device_id)) sqlite_failed
  write_all faults more (write_expired intent rows)

module _ (platform : Platform) where
  -- The loop over the selected rows.
  unfoldable pub scan_lapsed : Time → List IntentRow → Result StoreError (List Intent)
  scan_lapsed now [] = ok []
  scan_lapsed now (row ∷ rows) = do
    intent ← scan_intent platform row
    rest ← scan_lapsed now rows
    ok (expire_intent now intent ∷ rest)

  unfoldable pub expire_tx : Faults → Database → Time → Tx (List Intent)
  unfolding scan_lapsed write_all is_lapsed read_rows
  expire_tx faults db now = do
    refuse_if (faults begin_tx) sqlite_failed
    refuse_if (faults select_rows) sqlite_failed
    expired ← scan_lapsed now (read_rows faults (select_intents (is_lapsed now) db.intents))
    intents ← write_all faults expired db.intents
    refuse_if (faults commit_tx) sqlite_failed
    ok (record db { intents = intents }, ok expired)

  unfoldable pub expire_leases :
      Faults → Database → Time → Database × Result StoreError (List Intent)
  unfolding expire_tx run_tx
  expire_leases faults db now = run_tx db (expire_tx faults db now)
