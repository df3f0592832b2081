-- ===== src/Store/Upsert/Outcome.antt =====
-- The four ways in which `UpsertIntent` can end, with what holds in each: the transaction as a
-- relation between the tables before and the tables and result after.
use nixos_kaiba_network.Prelude.{
  ◌≡◌, true, false, ◌&&◌, ◌||◌, Option, none, some, List, [], ◌∷◌, ◌++◌, Bytes, Bool-cases,
  Option-cases, Result-cases, inl, inr, if◌then◌else◌, Result, ok, err,
}
use nixos_kaiba_network.Prelude.Int.{pos, leb_ℤ}
use nixos_kaiba_network.Model.{Intent, Platform, addresses_hash}
use nixos_kaiba_network.Store.{
  StoreError, precondition_failed, precondition_required, idempotency_conflict, malformed,
  sqlite_failed, is_valid_precondition, precondition_key, UpsertRequest, UpsertResult,
}
use nixos_kaiba_network.Store.Tables.{
  IntentRow, IdempotencyRow, PersistedResult, Database, Faults, write_intent, insert_response,
  commit_tx, update_expired, select_intent, begin_tx, select_key, run_tx, find_intent, find_request,
  insert_request, scan_found, persisted_intent,
}
use nixos_kaiba_network.Store.Rows.{insert_request_ok}
use nixos_kaiba_network.Store.Upsert.{
  expired_during_write, expire_intent, realized, write_expired, realized_rows, fails_precondition,
  next_intent, write_next, is_bound_elsewhere, replay_response, response_row, commit_write,
  reject_write, write_found, write_request, upsert_tx, canonical_request, upsert_intent,
}

module _ (platform : Platform) (db : Database) (request : UpsertRequest) where
  abbrev pub request_hash : Bytes
  request_hash = addresses_hash platform request.addresses

  pub data Outcome : Database × Result StoreError UpsertResult → Type 0 where
    -- An error that leaves the tables as they were.
    refused : (e : StoreError) → Outcome (db, err e)
    -- The precondition fails, and the lease that had run out is realised all the same.
    lapsed :
        (current : Intent)
        → scan_found platform (find_intent request.device_id db.intents) ≡ ok (some current)
        → expired_during_write request.now (some current) ≡ true
        → fails_precondition request.precondition (some (expire_intent request.now current)) ≡ true
        → Outcome (
          record db { intents = write_expired (expire_intent request.now current) db.intents },
          err precondition_failed,
        )
    -- The key is known: the stored response comes back, and nothing is written.
    replayed :
        (row : IdempotencyRow) (persisted : PersistedResult) (intent : Intent)
        → find_request request.device_id request.idempotency_key db.idempotency_requests ≡ some row
        → is_bound_elsewhere row request_hash (precondition_key request.precondition) ≡ false
        → row.response_json ≡ some persisted
        → persisted_intent platform persisted ≡ ok intent
        → Outcome (
          db,
          ok (record {
            intent = intent;
            renew_after_seconds =
                if leb_ℤ persisted.renew_after_seconds (pos 0)
                then request.renew_after_seconds
                else persisted.renew_after_seconds;
            replay = true;
          }),
        )
    -- The key is new and the precondition holds: the next intent and its response are written.
    written :
        (found : Option Intent) (intents : List IntentRow)
        → find_request request.device_id request.idempotency_key db.idempotency_requests ≡ none
        → is_valid_precondition request.precondition ≡ true
        → scan_found platform (find_intent request.device_id db.intents) ≡ ok found
        → fails_precondition request.precondition (realized request.now found) ≡ false
        → write_next platform request
            (realized request.now found)
            (realized_rows request.now found db.intents)
          ≡ ok intents
        → Outcome (
          record {
            intents = intents;
            idempotency_requests =
                db.idempotency_requests
                ++ response_row platform request request_hash
                    (next_intent request (realized request.now found))
                  ∷ [];
          },
          ok (record {
            intent = next_intent request (realized request.now found);
            renew_after_seconds = request.renew_after_seconds;
            replay = false;
          }),
        )

  commit_write-Outcome :
      (faults : Faults) (found : Option Intent)
      → find_request request.device_id request.idempotency_key db.idempotency_requests ≡ none
      → is_valid_precondition request.precondition ≡ true
      → scan_found platform (find_intent request.device_id db.intents) ≡ ok found
      → fails_precondition request.precondition (realized request.now found) ≡ false
      → Outcome (
          run_tx db (
            commit_write platform faults
              (record db { intents = realized_rows request.now found db.intents })
              request
              request_hash
              (realized request.now found)))
  unfolding commit_write run_tx
  commit_write-Outcome faults found fresh valid scanned passes =
      elim (Result-cases (
        write_next platform request (realized request.now found)
          (realized_rows request.now found db.intents))) [
            | inr (e, w) ↦ rw w (refused e)
            | inl (intents, w) ↦ rw w (elim (Bool-cases (faults write_intent)) [
              | inl f ↦ rw f (refused sqlite_failed)
              | inr f ↦
                  rw f
                    (elim (Result-cases (
                      insert_request
                        (response_row platform request request_hash
                          (next_intent request (realized request.now found)))
                        db.idempotency_requests)) [
                          | inr (e, i) ↦ rw i (refused e)
                          | inl (requests, i) ↦ rw i (elim (Bool-cases (faults insert_response)) [
                            | inl g ↦ rw g (refused sqlite_failed)
                            | inr g ↦ rw g (elim (Bool-cases (faults commit_tx)) [
                              | inl c ↦ rw c (refused sqlite_failed)
                              | inr c ↦
                                  rw (c, insert_request_ok _ _ i)
                                    (written found intents fresh valid scanned passes w)
                            ])
                          ])
                        ])
            ])
          ]

  reject_write-Outcome :
      (faults : Faults) (found : Option Intent)
      → scan_found platform (find_intent request.device_id db.intents) ≡ ok found
      → fails_precondition request.precondition (realized request.now found) ≡ true
      → Outcome (
          run_tx db (
            reject_write faults
              (record db { intents = realized_rows request.now found db.intents })
              (expired_during_write request.now found)))
  unfolding reject_write run_tx realized realized_rows
  reject_write-Outcome faults none scanned failed =
      unfold expired_during_write in refused precondition_failed
  reject_write-Outcome faults (some current) scanned failed =
      elim (Bool-cases (expired_during_write request.now (some current))) [
        | inr live ↦ rw live (refused precondition_failed)
        | inl over ↦ rw over (elim (Bool-cases (faults commit_tx)) [
          | inl c ↦ rw c (refused sqlite_failed)
          | inr c ↦ rw c (lapsed current scanned over (rw over at failed))
        ])
      ]

  write_found-Outcome :
      (faults : Faults) (found : Option Intent)
      → find_request request.device_id request.idempotency_key db.idempotency_requests ≡ none
      → is_valid_precondition request.precondition ≡ true
      → scan_found platform (find_intent request.device_id db.intents) ≡ ok found
      → Outcome (run_tx db (write_found platform faults db request request_hash found))
  unfolding write_found run_tx
  write_found-Outcome faults found fresh valid scanned =
      elim (Bool-cases (expired_during_write request.now found && faults update_expired)) [
        | inl f ↦ rw f (refused sqlite_failed)
        | inr f ↦
            rw f
              (elim (Bool-cases
                (fails_precondition request.precondition (realized request.now found))) [
                  | inl failed ↦ rw failed (reject_write-Outcome faults found scanned failed)
                  | inr passes ↦
                      rw passes (commit_write-Outcome faults found fresh valid scanned passes)
                ])
      ]

  write_request-Outcome :
      (faults : Faults)
      → find_request request.device_id request.idempotency_key db.idempotency_requests ≡ none
      → Outcome (run_tx db (write_request platform faults db request request_hash))
  unfolding write_request run_tx
  write_request-Outcome faults fresh =
      elim (Bool-cases (is_valid_precondition request.precondition)) [
        | inr invalid ↦ rw invalid (refused precondition_required)
        | inl valid ↦ rw valid (elim (Bool-cases (faults select_intent)) [
          | inl f ↦ rw f (refused sqlite_failed)
          | inr f ↦
              rw f
                (elim (Result-cases
                  (scan_found platform (find_intent request.device_id db.intents))) [
                    | inr (e, s) ↦ rw s (refused e)
                    | inl (found, s) ↦ rw s (write_found-Outcome faults found fresh valid s)
                  ])
        ])
      ]

  replay_response-Outcome :
      (faults : Faults) (row : IdempotencyRow)
      → find_request request.device_id request.idempotency_key db.idempotency_requests ≡ some row
      → Outcome (run_tx db (replay_response platform faults db request request_hash row))
  unfolding replay_response run_tx
  replay_response-Outcome faults row known =
      elim (Bool-cases
        (is_bound_elsewhere row request_hash (precondition_key request.precondition))) [
          | inl b ↦ rw b (refused idempotency_conflict)
          | inr b ↦ rw b (elim (Option-cases row.response_json) [
            | inl r ↦ rw r (refused malformed)
            | inr (persisted, r) ↦ rw r (elim (Result-cases (persisted_intent platform persisted)) [
              | inr (e, i) ↦ rw i (refused e)
              | inl (intent, i) ↦ rw i (elim (Bool-cases (faults commit_tx)) [
                | inl c ↦ rw c (refused sqlite_failed)
                | inr c ↦ rw c (replayed row persisted intent known b r i)
              ])
            ])
          ])
        ]

  upsert_tx-Outcome : (faults : Faults) → Outcome (run_tx db (upsert_tx platform faults db request))
  unfolding upsert_tx run_tx
  upsert_tx-Outcome faults = elim (Bool-cases (faults begin_tx || faults select_key)) [
    | inl f ↦ rw f (refused sqlite_failed)
    | inr f ↦
        rw f
          (elim (Option-cases
            (find_request request.device_id request.idempotency_key db.idempotency_requests)) [
              | inl fresh ↦ rw fresh (write_request-Outcome faults fresh)
              | inr (row, known) ↦ rw known (replay_response-Outcome faults row known)
            ])
  ]

-- Whatever SQLite fails to do, a call of `UpsertIntent` refuses and leaves both tables as they
-- were, or realises a lapsed lease while it reports a failed precondition, or replays a stored
-- response without a write, or writes the next intent together with its response.
pub upsert_intent-Outcome :
    (platform : Platform) (faults : Faults) (db : Database) (request : UpsertRequest)
    → Outcome platform db (canonical_request request) (upsert_intent platform faults db request)
unfolding upsert_intent
upsert_intent-Outcome platform faults db request =
    upsert_tx-Outcome platform db (canonical_request request) faults
