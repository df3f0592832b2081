-- ===== src/Store/Queries.antt =====
-- dns/internal/store/sqlite.go: the reads of the desired state, and the marks that the publisher
-- leaves on it.
use nixos_kaiba_network.Prelude.{
  ℕ, Bool, ◌&&◌, Option, none, some, List, [], ◌∷◌, Bytes, bytes_eq, take, if◌then◌else◌, Result,
  ok, err, ◌>>=◌, ◌>>◌, refuse_if,
}
use nixos_kaiba_network.Prelude.Int.{ℤ, pos, pos_part, leb_ℤ, ltb_ℤ, eq_ℤ}
use nixos_kaiba_network.Model.{Intent, Platform}
use nixos_kaiba_network.Store.{StoreError, not_found, sqlite_failed}
use nixos_kaiba_network.Store.Tables.{
  IntentRow, Database, Faults, select_intent, select_rows, update_status, find_intent,
  update_intents, select_intents, scan_intent, scan_found,
}

-- WHERE origin_applied_generation < generation
unfoldable pub is_origin_pending : IntentRow → Bool
is_origin_pending row = ltb_ℤ row.origin_applied_generation row.generation

-- WHERE origin_applied_generation >= generation AND public_observed_generation < generation
unfoldable pub is_observation_pending : IntentRow → Bool
is_observation_pending row =
    leb_ℤ row.generation row.origin_applied_generation
    && ltb_ℤ row.public_observed_generation row.generation

-- `if limit <= 0 { limit = 100 }`
unfoldable pub effective_limit : ℤ → ℕ
effective_limit limit = if leb_ℤ limit (pos 0) then 100 else pos_part limit

module _ (platform : Platform) where
  unfoldable pub or_not_found : Option Intent → Result StoreError Intent
  or_not_found none = err not_found
  or_not_found (some intent) = ok intent

  unfoldable pub get_intent : Faults → Database → Bytes → Result StoreError Intent
  unfolding or_not_found
  get_intent faults db device_id = do
    refuse_if (faults select_intent) sqlite_failed
    found ← scan_found platform (find_intent device_id db.intents)
    or_not_found found

  unfoldable pub scan_rows : List IntentRow → Result StoreError (List Intent)
  scan_rows [] = ok []
  scan_rows (row ∷ rows) = do
    intent ← scan_intent platform row
    rest ← scan_rows rows
    ok (intent ∷ rest)

  -- `list`: the rows that satisfy the condition, by device, up to the limit.
  unfoldable pub list_where :
      Faults → Database → (IntentRow → Bool) → ℤ → Result StoreError (List Intent)
  unfolding scan_rows effective_limit
  list_where faults db test limit = do
    refuse_if (faults select_rows) sqlite_failed
    scan_rows (take (effective_limit limit) (select_intents test db.intents))

  unfoldable pub list_origin_pending : Faults → Database → ℤ → Result StoreError (List Intent)
  unfolding list_where is_origin_pending
  list_origin_pending faults db limit = list_where faults db is_origin_pending limit

  unfoldable pub list_observation_pending : Faults → Database → ℤ → Result StoreError (List Intent)
  unfolding list_where is_observation_pending
  list_observation_pending faults db limit = list_where faults db is_observation_pending limit

-- `mark` with one UPDATE statement.
unfoldable pub mark :
    Faults
    → Database
    → (IntentRow → Bool)
    → (IntentRow → IntentRow)
    → Database × Result StoreError (Unit {0})
mark faults db test change =
    if faults update_status
    then (db, err sqlite_failed)
    else (record db { intents = update_intents test change db.intents }, ok tt)

-- WHERE device_id = ? AND generation = ?
unfoldable pub is_version : Bytes → ℤ → IntentRow → Bool
is_version device_id generation row =
    bytes_eq row.device_id device_id && eq_ℤ row.generation generation

unfoldable pub mark_origin_applied :
    Faults → Database → Bytes → ℤ → Database × Result StoreError (Unit {0})
unfolding mark is_version
mark_origin_applied faults db device_id generation =
    mark faults db (is_version device_id generation)
      (λ row. record row { origin_applied_generation = generation; last_publication_error = [] })

unfoldable pub mark_publicly_observed :
    Faults → Database → Bytes → ℤ → Database × Result StoreError (Unit {0})
unfolding mark is_version
mark_publicly_observed faults db device_id generation =
    mark faults db
      (λ row. is_version device_id generation row && leb_ℤ generation row.origin_applied_generation)
      (λ row. record row { public_observed_generation = generation })

unfoldable pub mark_publication_error :
    Faults → Database → Bytes → ℤ → Bytes → Database × Result StoreError (Unit {0})
unfolding mark is_version
mark_publication_error faults db device_id generation message =
    mark faults db (is_version device_id generation)
      (λ row. record row { last_publication_error = message })
