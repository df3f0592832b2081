-- ===== src/Store/Versions/Upserts.antt =====
-- What one call of `UpsertIntent` does to the generation and the address set of a device.
use nixos_kaiba_network.Prelude.{
  ◌≡◌, refl, true, not, inl, inr, Option, none, some, List, All, arith, Bytes, bytes_eq,
  bytes_eq_refl, Bool-cases, ok,
}
use nixos_kaiba_network.Model.{Intent, Time, Platform}
use nixos_kaiba_network.Model.Canonical.{IsValid}
use nixos_kaiba_network.Store.{UpsertRequest}
use nixos_kaiba_network.Store.Tables.{IntentRow, Database, find_intent, scan_found}
use nixos_kaiba_network.Store.Rows.{
  find_intent-update_intents, find_intent-append, insert_intent_ok, scan_intent_ok, scan_found_ok,
}
use nixos_kaiba_network.Store.Keys.{DistinctIds, update-DistinctIds}
use nixos_kaiba_network.Store.Upsert.{
  expired_during_write, expire_intent, realized, expired_row, is_row_of, write_expired,
  realized_rows, next_intent, renewed_row, write_renewed, write_next,
}
use nixos_kaiba_network.Store.Versions.{
  Successor-refl, HasRoom, HasRoom-later, expired_row-Successor, scan-expired_row,
  renewed_row-Successor, Follows, update-Follows, unchanged-Follows, Follows-trans, same_row,
}

pub next_intent-device_id :
    (request : UpsertRequest) (current : Intent)
    → (next_intent request (some current)).device_id ≡ current.device_id
unfolding next_intent
next_intent-device_id request current = ground arith

pub write_next-some_ok :
    (platform : Platform) (request : UpsertRequest) (current : Intent) (rows : List IntentRow)
    {rows' : List IntentRow}
    → write_next platform request (some current) rows ≡ ok rows'
    → rows' ≡ write_renewed platform (next_intent request (some current)) rows
unfolding write_next
write_next-some_ok platform request current rows h =
    elim (Bool-cases (not (bytes_eq current.hostname request.hostname))) [
      | inl e ↦ let h' = rw e at h in absurd (cc)
      | inr e ↦ let h' = rw e at h in ground arith
    ]

module _ (platform : Platform) (id : Bytes) where
  pub expire-Follows :
      (now : Time) (device : Bytes) (rows : List IntentRow) (row : IntentRow) (current : Intent)
      → find_intent id rows ≡ some row
      → scan_found platform (find_intent device rows) ≡ ok (some current)
      → HasRoom platform 1 row
      → Follows platform 1 id row (write_expired (expire_intent now current) rows)
  unfolding write_expired expire_intent expired_row
  expire-Follows now device rows row current found scanned room =
      update-Follows platform 1 id (is_row_of (expire_intent now current))
        (expired_row (expire_intent now current)) rows row (λ r. refl) found
        (λ here.
          expired_row-Successor platform now row current
            (same_row platform id rows row device current found scanned here) room)

  -- The device's row after the lease is realised scans to the realised intent.
  pub scan_found-expired :
      (now : Time) (device : Bytes) (rows : List IntentRow) (current : Intent)
      → scan_found platform (find_intent device rows) ≡ ok (some current)
      → scan_found platform (find_intent device (write_expired (expire_intent now current) rows))
        ≡ ok (some (expire_intent now current))
  unfolding write_expired scan_found
  scan_found-expired now device rows current scanned =
      let (r, f, s) = scan_found_ok platform (find_intent device rows) current scanned in
      let (_, d, _, _, _) = scan_intent_ok platform r current s in
      let here : is_row_of (expire_intent now current) r ≡ true =
        unfold expire_intent in rw d (bytes_eq_refl r.device_id) in
      rw (
        find_intent-update_intents device (is_row_of (expire_intent now current))
            (expired_row (expire_intent now current)) rows (λ row. unfold expired_row in refl),
        f,
        here,
        scan-expired_row platform now r current s,
      )

  renew-Follows :
      (request : UpsertRequest) (device : Bytes) (rows : List IntentRow) (row : IntentRow)
      (current : Intent)
      → find_intent id rows ≡ some row
      → scan_found platform (find_intent device rows) ≡ ok (some current)
      → HasRoom platform 1 row
      → All IsValid request.addresses
      → Follows platform 1 id row (write_renewed platform (next_intent request (some current)) rows)
  unfolding write_renewed renewed_row
  renew-Follows request device rows row current found scanned room valid =
      let next = next_intent request (some current) in
      update-Follows platform 1 id (is_row_of next) (renewed_row platform next) rows row (λ r. refl)
        found
        (λ here.
          renewed_row-Successor platform request row current
            (same_row platform id rows row device current found scanned
              (rw (next_intent-device_id request current) at here))
            room valid)

  pub written-Follows :
      (db : Database) (request : UpsertRequest) (found : Option Intent) (intents : List IntentRow)
      (row : IntentRow)
      → scan_found platform (find_intent request.device_id db.intents) ≡ ok found
      → write_next platform request
          (realized request.now found)
          (realized_rows request.now found db.intents)
        ≡ ok intents
      → find_intent id db.intents ≡ some row
      → HasRoom platform 2 row
      → All IsValid request.addresses
      → Follows platform 2 id row intents
  unfolding realized realized_rows write_next
  written-Follows db request none intents row scanned w h room valid =
      rw (insert_intent_ok _ db.intents w) (
        unfold Follows in
        (row, rw (find_intent-append id db.intents _, h), Successor-refl platform 2 row))
  written-Follows db request (some current) intents row scanned w h room valid =
      elim (Bool-cases (expired_during_write request.now (some current))) [
        | inl over ↦
            let w' = rw over at w in
            rw (write_next-some_ok platform request (expire_intent request.now current) _ w') (
              Follows-trans platform 1 1 id row _ _
                (expire-Follows request.now request.device_id db.intents row current h scanned
                  (omega arith))
                (λ next found s.
                  renew-Follows request request.device_id _ next (expire_intent request.now current)
                    found
                    (scan_found-expired request.now request.device_id db.intents current scanned)
                    (HasRoom-later platform 1 1 row next room (omega arith) s) valid))
        | inr live ↦
            let w' = rw live at w in
            rw (write_next-some_ok platform request current _ w') (
              Follows-trans platform 1 1 id row _ _
                (unchanged-Follows platform 1 id db.intents row h)
                (λ next found s.
                  renew-Follows request request.device_id _ next current found scanned
                    (HasRoom-later platform 1 1 row next room (omega arith) s) valid))
      ]

pub written-DistinctIds :
    (platform : Platform) (db : Database) (request : UpsertRequest) (current : Intent)
    (intents : List IntentRow)
    → write_next platform request
        (realized request.now (some current))
        (realized_rows request.now (some current) db.intents)
      ≡ ok intents
    → DistinctIds db.intents
    → DistinctIds intents
unfolding realized realized_rows write_renewed
written-DistinctIds platform db request current intents w d =
    elim (Bool-cases (expired_during_write request.now (some current))) [
      | inl over ↦
          let w' = rw over at w in
          rw (write_next-some_ok platform request (expire_intent request.now current) _ w') (
            update-DistinctIds _ _ _ (λ row. unfold renewed_row in refl)
              (unfold write_expired in
                update-DistinctIds _ _ db.intents (λ row. unfold expired_row in refl) d))
      | inr live ↦
          let w' = rw live at w in
          rw (write_next-some_ok platform request current _ w')
            (update-DistinctIds _ _ _ (λ row. unfold renewed_row in refl) d)
    ]
