-- ===== src/Store/Migration/Kept.antt =====
-- What a migration keeps: every response, bound to its body.
use nixos_kaiba_network.Prelude.{
  ◌≡◌, refl, sym, ap, subst, ◌∙◌, Bool, true, false, not, ◌||◌, inl, inr, some, List, [], ◌∷◌, ◌++◌,
  map, append_assoc, append-nil, arith, Bytes, codes, bytes_eq, length, ◌==◌, Bool-cases,
  if◌then◌else◌, ok, >>=-eq-ok, refuse_if-eq-ok,
}
use nixos_kaiba_network.Prelude.Int.{pos, leb_ℤ}
use nixos_kaiba_network.Model.{Intent, Platform, addresses_hash, canonical_addresses}
use nixos_kaiba_network.Store.{UpsertRequest, precondition_key}
use nixos_kaiba_network.Store.Tables.{
  IdempotencyRow, PersistedResult, Database, no_faults, find_request, insert_request,
  persisted_intent,
}
use nixos_kaiba_network.Store.Rows.{insert_request_ok}
use nixos_kaiba_network.Store.Upsert.{is_bound_elsewhere, upsert_intent}
use nixos_kaiba_network.Store.Migration.{
  IdempotencyTable, MigrationStep, inspect, create_table, begin_migration, drop_index, rename_table,
  create_current, copy_rows, drop_legacy, commit_migration, has_column, lacks_any, copied_columns,
  target_columns, is_current, migrated_row, copy_into, rebuild, create_empty, migrate_seen,
  read_columns, next_column, migrate_idempotency_table,
}

copy_into_ok :
    (keeps : Bool) (copied rows : List IdempotencyRow) {after : List IdempotencyRow}
    → copy_into keeps copied rows ≡ ok after
    → after ≡ copied ++ map (migrated_row keeps) rows
unfolding copy_into
copy_into_ok keeps copied [] {after} h =
    let e : after ≡ copied = ground arith in e ∙ sym (append-nil copied)
copy_into_ok keeps copied (row ∷ rows) h =
    let (more, i, h') = >>=-eq-ok (insert_request (migrated_row keeps row) copied) _ h in
    copy_into_ok keeps more rows h'
    ∙ ap (λ (l : List IdempotencyRow). l ++ map (migrated_row keeps) rows)
        (insert_request_ok (migrated_row keeps row) copied i)
    ∙ append_assoc copied (migrated_row keeps row ∷ []) (map (migrated_row keeps) rows)

-- The rows that a migration of a table leaves.
unfoldable pub kept_rows : IdempotencyTable → List IdempotencyRow
kept_rows table =
    if length table.columns == 0
    then []
    else if is_current table.columns
    then table.rows
    else map (migrated_row (has_column table.columns (codes "precondition_key"))) table.rows

rebuild_ok :
    (faults : MigrationStep → Bool) (seen : List Bytes) (table after : IdempotencyTable)
    → rebuild faults seen table ≡ ok after
    → (after.columns ≡ target_columns)
      × (after.rows ≡ map (migrated_row (has_column seen (codes "precondition_key"))) table.rows)
unfolding rebuild
rebuild_ok faults seen table after h =
    elim (Bool-cases (faults begin_migration || faults drop_index || faults rename_table)) [
      | inl a ↦ let h' = rw a at h in absurd (cc)
      | inr a ↦ elim (Bool-cases (faults create_current)) [
        | inl b ↦ let h' = rw (a, b) at h in absurd (cc)
        | inr b ↦ elim (Bool-cases (faults copy_rows || lacks_any table.columns copied_columns)) [
          | inl c ↦ let h' = rw (a, b, c) at h in absurd (cc)
          | inr c ↦
              let h' = rw (a, b, c) at h in
              let keeps = has_column seen (codes "precondition_key") in
              let (rows, copied, h'') = >>=-eq-ok (copy_into keeps [] table.rows) _ h' in
              elim (Bool-cases (faults drop_legacy || faults commit_migration)) [
                | inl d ↦ let h3 = rw d at h'' in absurd (cc)
                | inr d ↦
                    let h3 = rw d at h'' in
                    let same : after ≡ record { columns = target_columns; rows = rows } =
                      ground arith in
                    (
                      ap (λ (t : IdempotencyTable). t.columns) same,
                      ap (λ (t : IdempotencyTable). t.rows) same
                          ∙ copy_into_ok keeps [] table.rows copied,
                    )
              ]
        ]
      ]
    ]

-- No step of the read of the columns fails.
abbrev pub SeesAll : (MigrationStep → Bool) → Type 0
SeesAll faults = (column : Bytes) → faults (next_column column) ≡ false

read_columns-all :
    (faults : MigrationStep → Bool) (columns : List Bytes)
    → SeesAll faults
    → read_columns faults columns ≡ columns
unfolding read_columns
read_columns-all faults [] sees = refl
read_columns-all faults (column ∷ columns) sees =
    rw (sees column) (ap (◌∷◌ column) (read_columns-all faults columns sees))

targets_current : is_current target_columns ≡ true
targets_current = unfold is_current has_column bytes_eq in refl

inspected :
    (faults : MigrationStep → Bool) (table after : IdempotencyTable)
    → migrate_idempotency_table faults table ≡ ok after
    → migrate_seen faults (read_columns faults table.columns) table ≡ ok after
unfolding migrate_idempotency_table
inspected faults table after h = (refuse_if-eq-ok (faults inspect) _ _ h).1

migrate_seen-kept_rows :
    (faults : MigrationStep → Bool) (table after : IdempotencyTable)
    → migrate_seen faults table.columns table ≡ ok after
    → (is_current after.columns ≡ true) × (after.rows ≡ kept_rows table)
unfolding migrate_seen kept_rows create_empty
migrate_seen-kept_rows faults table after h = elim (Bool-cases (length table.columns == 0)) [
  | inl b ↦ elim (Bool-cases (faults create_table)) [
    | inl c ↦ let h' = rw (b, c) at h in absurd (cc)
    | inr c ↦
        let h' = rw (b, c) at h in
        let same : after ≡ record { columns = target_columns; rows = [] } = ground arith in
        rw (same, b) (targets_current, refl)
  ]
  | inr b ↦ elim (Bool-cases (is_current table.columns)) [
    | inl c ↦
        let h' = rw (b, c) at h in
        let same : after ≡ table = ground arith in rw (same, b, c) (refl, refl)
    | inr c ↦
        let h' = rw (b, c) at h in
        let (columns, rows) = rebuild_ok faults table.columns table after h' in
        rw (columns, rows, b, c) (targets_current, refl)
  ]
]

-- If a migration succeeds and no step of its read of the columns fails, then, whatever the columns
-- of the table were, the table has the current columns, so that another migration would keep it,
-- and its rows are the rows before in their order, with a blank precondition where the table had no
-- such column; a table that was not there is empty.
pub migrate_idempotency_table-kept_rows :
    (faults : MigrationStep → Bool) (table after : IdempotencyTable)
    → SeesAll faults
    → migrate_idempotency_table faults table ≡ ok after
    → (is_current after.columns ≡ true) × (after.rows ≡ kept_rows table)
migrate_idempotency_table-kept_rows faults table after sees h =
    migrate_seen-kept_rows faults table after (
      subst (λ seen. migrate_seen faults seen table ≡ ok after)
        (read_columns-all faults table.columns sees) (inspected faults table after h))

migrated_row-blank :
    (keeps : Bool) (rows : List IdempotencyRow)
    → map (migrated_row false) (map (migrated_row keeps) rows) ≡ map (migrated_row false) rows
unfolding migrated_row
migrated_row-blank keeps [] = refl
migrated_row-blank keeps (row ∷ rows) =
    ap (◌∷◌ (migrated_row false row)) (migrated_row-blank keeps rows)

create_empty-rows :
    (faults : MigrationStep → Bool) (table after : IdempotencyTable)
    → (length table.columns ≡ 0 → table.rows ≡ [])
    → create_empty faults table ≡ ok after
    → after.rows ≡ table.rows
unfolding create_empty
create_empty-rows faults table after absent h =
    let h' = (refuse_if-eq-ok (faults create_table) _ _ h).1 in
    elim (Bool-cases (length table.columns == 0)) [
      | inl e ↦
          let h'' = rw e at h' in
          let none_here : table.rows ≡ [] = absent (ground arith) in
          let same : after ≡ record { columns = target_columns; rows = [] } = ground arith in
          rw (same, none_here)
      | inr e ↦
          let h'' = rw e at h' in
          let same : table ≡ after = ground arith in
          ap (λ (t : IdempotencyTable). t.rows) (sym same)
    ]

migrate_seen-migrated_row :
    (faults : MigrationStep → Bool) (seen : List Bytes) (table after : IdempotencyTable)
    → (length table.columns ≡ 0 → table.rows ≡ [])
    → migrate_seen faults seen table ≡ ok after
    → map (migrated_row false) after.rows ≡ map (migrated_row false) table.rows
unfolding migrate_seen
migrate_seen-migrated_row faults seen table after absent h = elim (Bool-cases (length seen == 0)) [
  | inl b ↦ ap (map (migrated_row false)) (create_empty-rows faults table after absent (rw b at h))
  | inr b ↦ elim (Bool-cases (is_current seen)) [
    | inl c ↦
        let h' = rw (b, c) at h in
        let same : after ≡ table = ground arith in
        ap (λ (t : IdempotencyTable). map (migrated_row false) t.rows) same
    | inr c ↦
        ap (map (migrated_row false)) (rebuild_ok faults seen table after (rw (b, c) at h)).1
        ∙ migrated_row-blank (has_column seen (codes "precondition_key")) table.rows
  ]
]

-- Whichever steps fail, the read of the columns included, a migration that succeeds loses no
-- response and adds none: the rows, but for their preconditions, are the rows before in their
-- order. A table that is not there has no rows.
pub migrate_idempotency_table-migrated_row :
    (faults : MigrationStep → Bool) (table after : IdempotencyTable)
    → (length table.columns ≡ 0 → table.rows ≡ [])
    → migrate_idempotency_table faults table ≡ ok after
    → map (migrated_row false) after.rows ≡ map (migrated_row false) table.rows
migrate_idempotency_table-migrated_row faults table after absent h =
    migrate_seen-migrated_row faults (read_columns faults table.columns) table after absent
      (inspected faults table after h)

find_request-migrated :
    (keeps : Bool) (id key : Bytes) (rows : List IdempotencyRow) (row : IdempotencyRow)
    → find_request id key rows ≡ some row
    → find_request id key (map (migrated_row keeps) rows) ≡ some (migrated_row keeps row)
unfolding find_request migrated_row
find_request-migrated keeps id key [] row h = cc
find_request-migrated keeps id key (r ∷ rows) row h =
    ground (arith, find_request-migrated keeps id key rows row)

is_bound_elsewhere-migrated :
    (row : IdempotencyRow) (hash key : Bytes)
    → is_bound_elsewhere (migrated_row false row) hash key ≡ not (bytes_eq row.payload_hash hash)
unfolding is_bound_elsewhere migrated_row
is_bound_elsewhere-migrated row hash key = ground arith

-- A response from a table without preconditions is bound to its body alone: once it is migrated, a
-- request with its key whose address set has its hash returns the stored intent, where SQLite does
-- not fail and the response decodes, whatever the request names as its precondition, and writes
-- nothing.
pub migrated_replay :
    (platform : Platform) (db : Database) (legacy : List IdempotencyRow) (request : UpsertRequest)
    (row : IdempotencyRow) (persisted : PersistedResult) (intent : Intent)
    → db.idempotency_requests ≡ map (migrated_row false) legacy
    → find_request request.device_id request.idempotency_key legacy ≡ some row
    → bytes_eq row.payload_hash (addresses_hash platform (canonical_addresses request.addresses))
      ≡ true
    → row.response_json ≡ some persisted
    → persisted_intent platform persisted ≡ ok intent
    → upsert_intent platform no_faults db request ≡ (
      db,
      ok (record {
        intent = intent;
        renew_after_seconds =
            if leb_ℤ persisted.renew_after_seconds (pos 0)
            then request.renew_after_seconds
            else persisted.renew_after_seconds;
        replay = true;
      }),
    )
unfolding upsert_intent
migrated_replay platform db legacy request row persisted intent copied found hash response decoded =
    let hash_of = addresses_hash platform (canonical_addresses request.addresses) in
    let known : find_request request.device_id request.idempotency_key db.idempotency_requests
        ≡ some (migrated_row false row) =
      ap (find_request request.device_id request.idempotency_key) copied
      ∙ find_request-migrated false request.device_id request.idempotency_key legacy row found in
    let here : is_bound_elsewhere (migrated_row false row) hash_of
          (precondition_key request.precondition)
        ≡ false =
      is_bound_elsewhere-migrated row hash_of (precondition_key request.precondition)
      ∙ ap not hash in
    let stored : (migrated_row false row).response_json ≡ some persisted =
      unfold migrated_row in response in
    rw (known, here, stored, decoded) refl
