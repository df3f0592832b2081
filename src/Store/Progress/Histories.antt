-- ===== src/Store/Progress/Histories.antt =====
-- Publication progress over any history of calls from an empty store.
use nixos_kaiba_network.Prelude.{
  ℕ, suc, ◌+◌, ◌*◌, ◌≤◌, ◌≡◌, refl, sym, ap, ◌∙◌, Bool, true, ◌⊎◌, inl, inr, Option, none, some,
  List, [], ◌∷◌, ◌++◌, All, All-append, All-map, arith, Bytes, length, bytes_eq, bytes_eq_sym,
  Bool-cases, Result, ok,
}
use nixos_kaiba_network.Prelude.Int.{incr64, int64_max}
use nixos_kaiba_network.Model.{Intent, Platform}
use nixos_kaiba_network.Store.{StoreError, UpsertRequest, UpsertResult}
use nixos_kaiba_network.Store.Tables.{
  IntentRow, Database, Faults, empty_database, update_status, find_intent, scan_found,
}
use nixos_kaiba_network.Store.Rows.{
  All-update_intents, find_intent_sound, insert_intent_ok, scan_intent_ok, scan_found_ok,
}
use nixos_kaiba_network.Store.Keys.{DistinctIds, only_row, update-DistinctIds}
use nixos_kaiba_network.Store.Upsert.{
  expired_during_write, expire_intent, realized, realized_rows, expired_row, is_row_of,
  write_expired, next_intent, new_row, renewed_row, write_renewed, write_next,
}
use nixos_kaiba_network.Store.Upsert.Outcome.{
  Outcome, refused, lapsed, replayed, written, upsert_intent-Outcome,
}
use nixos_kaiba_network.Store.Leases.Tombstones.{tombstone}
use nixos_kaiba_network.Store.Leases.Bulk.{expire_leases-reached}
use nixos_kaiba_network.Store.Leases.Reads.{is_reached}
use nixos_kaiba_network.Store.Queries.{
  mark, mark_origin_applied, mark_publicly_observed, mark_publication_error,
}
use nixos_kaiba_network.Store.History.{
  Call, upserts, expires, applies, observes, reports, step, run,
}
use nixos_kaiba_network.Store.Versions.Upserts.{
  write_next-some_ok, next_intent-device_id, scan_found-expired,
}
use nixos_kaiba_network.Store.Versions.{next_intent-cases}
use nixos_kaiba_network.Store.Versions.Histories.{expire_leases-cases, step-DistinctIds}
use nixos_kaiba_network.Store.Progress.{
  InOrder, All-more, All-two, update-InOrder, applied-InOrder, observed-InOrder,
}

module _ (platform : Platform) where
  -- Every row that an UPDATE for the scanned device touches has the scanned generation.
  rows_of :
      (device : Bytes) (rows : List IntentRow) (current : Intent)
      → DistinctIds rows
      → scan_found platform (find_intent device rows) ≡ ok (some current)
      → All (λ row. is_row_of current row ≡ true → current.generation ≡ row.generation) rows
  rows_of device rows current distinct scanned =
      let (r, f, s) = scan_found_ok platform (find_intent device rows) current scanned in
      let (_, d, _, g, _) = scan_intent_ok platform r current s in
      let itself = ap (λ (i : Bytes). find_intent i rows) (find_intent_sound device rows f) ∙ f in
      All-map rows
        (λ row only here.
          g
          ∙ sym (
              ap (λ (x : IntentRow). x.generation)
                (only (
                  bytes_eq_sym r.device_id row.device_id
                  ∙ ap (bytes_eq row.device_id) (sym d)
                  ∙ here))))
        (only_row r rows distinct itself)

  expired-InOrder :
      (k now : ℕ) (device : Bytes) (rows : List IntentRow) (current : Intent)
      → suc k ≤ int64_max
      → DistinctIds rows
      → scan_found platform (find_intent device rows) ≡ ok (some current)
      → All (InOrder k) rows
      → All (InOrder (k + 1)) (write_expired (expire_intent now current) rows)
  unfolding write_expired expire_intent expired_row
  expired-InOrder k now device rows current room distinct scanned h =
      update-InOrder k (is_row_of (expire_intent now current))
        (expired_row (expire_intent now current)) rows room
        (All-map rows (λ row g here. (refl, refl, inr (ap incr64 (g here))))
          (rows_of device rows current distinct scanned))
        h

  renewed-InOrder :
      (k : ℕ) (request : UpsertRequest) (device : Bytes) (rows : List IntentRow) (current : Intent)
      → suc k ≤ int64_max
      → DistinctIds rows
      → scan_found platform (find_intent device rows) ≡ ok (some current)
      → All (InOrder k) rows
      → All (InOrder (k + 1)) (write_renewed platform (next_intent request (some current)) rows)
  unfolding write_renewed renewed_row
  renewed-InOrder k request device rows current room distinct scanned h =
      update-InOrder k (is_row_of (next_intent request (some current)))
        (renewed_row platform (next_intent request (some current))) rows room
        (All-map rows
          (λ row g here.
            (refl, refl, step_of row (g (rw (next_intent-device_id request current) at here))))
          (rows_of device rows current distinct scanned))
        h
    where
      step_of :
          (row : IntentRow)
          → current.generation ≡ row.generation
          → ((next_intent request (some current)).generation ≡ row.generation)
            ⊎ ((next_intent request (some current)).generation ≡ incr64 row.generation)
      step_of row g = elim (next_intent-cases platform request current).1 [
        | inl new ↦ inr (new ∙ ap incr64 g)
        | inr (old, equal) ↦ inl (old ∙ g)
      ]

  new_row-InOrder :
      (k : ℕ) (request : UpsertRequest)
      → InOrder (k + 2) (new_row platform (next_intent request none))
  unfolding new_row next_intent
  new_row-InOrder k request = record {
    observed = omega arith;
    applied = omega arith;
    desired = omega arith;
    positive = omega arith;
    bounded = omega arith;
  }

  written-InOrder :
      (k : ℕ) (db : Database) (request : UpsertRequest) (found : Option Intent)
      (intents : List IntentRow)
      → k + 2 ≤ int64_max
      → DistinctIds db.intents
      → scan_found platform (find_intent request.device_id db.intents) ≡ ok found
      → write_next platform request
          (realized request.now found)
          (realized_rows request.now found db.intents)
        ≡ ok intents
      → All (InOrder k) db.intents
      → All (InOrder (k + 2)) intents
  unfolding realized realized_rows
  written-InOrder k db request none intents room distinct scanned w h =
      let appended : intents ≡ db.intents ++ new_row platform (next_intent request none) ∷ [] =
        unfold write_next in insert_intent_ok _ db.intents w in
      rw appended (
        All-append (InOrder (k + 2)) db.intents _ (All-more k 2 db.intents h)
          (new_row-InOrder k request, tt))
  written-InOrder k db request (some current) intents room distinct scanned w h =
      elim (Bool-cases (expired_during_write request.now (some current))) [
        | inl over ↦
            let w' = rw over at w in
            rw (write_next-some_ok platform request (expire_intent request.now current) _ w') (
              All-two k _ (
                renewed-InOrder (k + 1) request request.device_id _
                  (expire_intent request.now current) (omega arith)
                  (unfold write_expired in
                    update-DistinctIds (is_row_of (expire_intent request.now current))
                      (expired_row (expire_intent request.now current)) db.intents
                      (λ row. unfold expired_row in refl) distinct)
                  (scan_found-expired platform request.device_id request.now request.device_id
                    db.intents current scanned)
                  (expired-InOrder k request.now request.device_id db.intents current (omega arith)
                    distinct scanned h)))
        | inr live ↦
            let w' = rw live at w in
            rw (write_next-some_ok platform request current _ w') (
              All-two k _ (
                renewed-InOrder (k + 1) request request.device_id db.intents current (omega arith)
                  distinct scanned (All-more k 1 db.intents h)))
      ]

  Outcome-InOrder :
      {db : Database} {request : UpsertRequest} {r : Database × Result StoreError UpsertResult}
      (k : ℕ)
      → Outcome platform db request r
      → k + 2 ≤ int64_max
      → DistinctIds db.intents
      → All (InOrder k) db.intents
      → All (InOrder (k + 2)) r.0.intents
  Outcome-InOrder {db} k (refused e) room d h = All-more k 2 db.intents h
  Outcome-InOrder {db} {request} k (lapsed current s o f) room d h = All-two k _ (
      All-more (k + 1) 1 _
        (expired-InOrder k request.now request.device_id db.intents current (omega arith) d s h))
  Outcome-InOrder {db} k (replayed row persisted intent x b j i) room d h =
      All-more k 2 db.intents h
  Outcome-InOrder {db} {request} k (written found intents fresh valid s p w) room d h =
      written-InOrder k db request found intents room d s w h

  mark-InOrder :
      (k : ℕ) (faults : Faults) (db : Database) (test : IntentRow → Bool)
      (change : IntentRow → IntentRow)
      → ((row : IntentRow) → test row ≡ true → InOrder k row → InOrder k (change row))
      → All (InOrder k) db.intents
      → All (InOrder (k + 2)) (mark faults db test change).0.intents
  unfolding mark
  mark-InOrder k faults db test change keeps h = elim (Bool-cases (faults update_status)) [
    | inl f ↦ rw f (All-more k 2 db.intents h)
    | inr f ↦ rw f (All-more k 2 _ (All-update_intents (InOrder k) test change db.intents keeps h))
  ]

  step-InOrder :
      (k : ℕ) (db : Database) (call : Call)
      → k + 2 ≤ int64_max
      → DistinctIds db.intents
      → All (InOrder k) db.intents
      → All (InOrder (k + 2)) (step platform db call).intents
  unfolding step mark_origin_applied mark_publicly_observed mark_publication_error
  step-InOrder k db (upserts faults request) room d h =
      Outcome-InOrder k (upsert_intent-Outcome platform faults db request) room d h
  step-InOrder k db (expires faults now) room d h =
      elim (expire_leases-cases platform faults db now) [
        | inr same ↦ rw same (All-more k 2 db.intents h)
        | inl (expired, e) ↦ rw (expire_leases-reached platform now faults db expired d e) (
            All-two k _ (
              All-more (k + 1) 1 _ (
                update-InOrder k (is_reached now faults db.intents) (tombstone now) db.intents
                  (omega arith)
                  (unfold tombstone in All-map db.intents (λ row g here. (refl, refl, inr refl)) h)
                  h)))
      ]
  step-InOrder k db (applies faults device generation) room d h =
      mark-InOrder k faults db _ _ (applied-InOrder k device generation) h
  step-InOrder k db (observes faults device generation) room d h =
      mark-InOrder k faults db _ _ (observed-InOrder k device generation) h
  step-InOrder k db (reports faults device generation message) room d h =
      mark-InOrder k faults db _ _
        (λ row here o. record {
          observed = o.observed;
          applied = o.applied;
          desired = o.desired;
          positive = o.positive;
          bounded = o.bounded;
        })
        h

  run-InOrder :
      (k : ℕ) (db : Database) (calls : List Call)
      → k + length calls * 2 ≤ int64_max
      → DistinctIds db.intents
      → All (InOrder k) db.intents
      → All (InOrder (k + length calls * 2)) (run platform db calls).intents
  unfolding run
  run-InOrder k db [] room d h = All-more k 0 db.intents h
  run-InOrder k db (call ∷ calls) room d h =
      let count : k + length (call ∷ calls) * 2 ≡ (k + 2) + length calls * 2 = omega arith in
      rw count (
        run-InOrder (k + 2) (step platform db call) calls (omega arith)
          (step-DistinctIds platform db call d) (step-InOrder k db call (omega arith) d h))

  -- After any history of calls from an empty store, in any order and with any failures of SQLite,
  -- every row has 0 ≤ public_observed_generation ≤ origin_applied_generation ≤ generation and
  -- 1 ≤ generation ≤ 2 * (the number of calls), as long as that number fits in an int64: nothing is
  -- ever marked as published that was not desired.
  pub progress-InOrder :
      (calls : List Call)
      → length calls * 2 ≤ int64_max
      → All (InOrder (length calls * 2)) (run platform empty_database calls).intents
  progress-InOrder calls room =
      let count : length calls * 2 ≡ 0 + length calls * 2 = omega arith in
      rw count (run-InOrder 0 empty_database calls (omega arith) tt tt)
