-- ===== src/Store/Versions/Histories.antt =====
-- What any history of calls does to the generation and the address set of a device.
use nixos_kaiba_network.Prelude.{
  ◌+◌, ◌*◌, ◌≡◌, refl, Bool, ◌⊎◌, inl, inr, none, some, List, [], ◌∷◌, All, arith, Bytes, length,
  Bool-cases, Result-cases, Result, ok,
}
use nixos_kaiba_network.Prelude.Int.{ℤ, incr64_parts}
use nixos_kaiba_network.Model.{Intent, Time, Platform}
use nixos_kaiba_network.Model.Canonical.{IsValid, canonical-IsValid}
use nixos_kaiba_network.Store.{StoreError, UpsertRequest, UpsertResult}
use nixos_kaiba_network.Store.Tables.{
  IntentRow, Database, Faults, begin_tx, select_rows, update_status, commit_tx, run_tx, find_intent,
  select_intents,
}
use nixos_kaiba_network.Store.Keys.{DistinctIds, update-DistinctIds, insert-DistinctIds}
use nixos_kaiba_network.Store.Upsert.{
  expired_row, write_expired, realized, realized_rows, write_next,
}
use nixos_kaiba_network.Store.Upsert.Outcome.{
  Outcome, refused, lapsed, replayed, written, upsert_intent-Outcome,
}
use nixos_kaiba_network.Store.Leases.{
  is_lapsed, read_rows, scan_lapsed, write_all, expire_tx, expire_leases,
}
use nixos_kaiba_network.Store.Leases.Tombstones.{tombstone}
use nixos_kaiba_network.Store.Leases.Bulk.{expire_leases-reached}
use nixos_kaiba_network.Store.Leases.Reads.{is_reached}
use nixos_kaiba_network.Store.Queries.{
  mark, mark_origin_applied, mark_publicly_observed, mark_publication_error,
}
use nixos_kaiba_network.Store.History.{
  Call, upserts, expires, applies, observes, reports, step, run,
}
use nixos_kaiba_network.Store.Versions.{
  Successor, HasRoom, HasRoom-later, address_set, Follows, update-Follows, unchanged-Follows,
  Follows-trans, Follows-more,
}
use nixos_kaiba_network.Store.Versions.Upserts.{
  expire-Follows, written-Follows, written-DistinctIds,
}

-- Every request of the history names valid addresses only.
abbrev pub ValidCalls : List Call → Type 0
ValidCalls [] = Unit
ValidCalls (upserts faults request ∷ calls) = All IsValid request.addresses × ValidCalls calls
ValidCalls (_ ∷ calls) = ValidCalls calls

module _ (platform : Platform) where
  -- A call of `ExpireLeases` succeeds or leaves the tables as they were.
  pub expire_leases-cases :
      (faults : Faults) (db : Database) (now : Time)
      → ((expired : List Intent) × ((expire_leases platform faults db now).1 ≡ ok expired))
        ⊎ ((expire_leases platform faults db now).0 ≡ db)
  unfolding expire_leases expire_tx run_tx
  expire_leases-cases faults db now = elim (Bool-cases (faults begin_tx)) [
    | inl f ↦ inr (rw f)
    | inr f ↦ elim (Bool-cases (faults select_rows)) [
      | inl g ↦ inr (rw (f, g))
      | inr g ↦
          elim (Result-cases (
            scan_lapsed platform now
              (read_rows faults (select_intents (is_lapsed now) db.intents)))) [
                | inr (e, s) ↦ inr (rw (f, g, s))
                | inl (found, s) ↦ elim (Result-cases (write_all faults found db.intents)) [
                  | inr (e, w) ↦ inr (rw (f, g, s, w))
                  | inl (intents, w) ↦ elim (Bool-cases (faults commit_tx)) [
                    | inl c ↦ inr (rw (f, g, s, w, c))
                    | inr c ↦ inl (found, rw (f, g, s, w, c))
                  ]
                ]
              ]
    ]
  ]

  Outcome-DistinctIds :
      {db : Database} {request : UpsertRequest} {r : Database × Result StoreError UpsertResult}
      → Outcome platform db request r
      → DistinctIds db.intents
      → DistinctIds r.0.intents
  Outcome-DistinctIds (refused e) d = d
  Outcome-DistinctIds {db} (lapsed current s o f) d =
      unfold write_expired in
      update-DistinctIds _ _ db.intents (λ row. unfold expired_row in refl) d
  Outcome-DistinctIds (replayed row persisted intent k b j i) d = d
  Outcome-DistinctIds {db} {request} (written none intents fresh valid s p w) d =
      unfold realized realized_rows write_next in insert-DistinctIds _ db.intents w d
  Outcome-DistinctIds {db} {request} (written (some current) intents fresh valid s p w) d =
      written-DistinctIds platform db request current intents w d

  mark-DistinctIds :
      (faults : Faults) (db : Database) (test : IntentRow → Bool) (change : IntentRow → IntentRow)
      → ((r : IntentRow) → (change r).device_id ≡ r.device_id)
      → DistinctIds db.intents
      → DistinctIds (mark faults db test change).0.intents
  unfolding mark
  mark-DistinctIds faults db test change keeps d = elim (Bool-cases (faults update_status)) [
    | inl f ↦ rw f d
    | inr f ↦ rw f (update-DistinctIds test change db.intents keeps d)
  ]

  pub step-DistinctIds :
      (db : Database) (call : Call)
      → DistinctIds db.intents
      → DistinctIds (step platform db call).intents
  unfolding step mark_origin_applied mark_publicly_observed mark_publication_error
  step-DistinctIds db (upserts faults request) d =
      Outcome-DistinctIds (upsert_intent-Outcome platform faults db request) d
  step-DistinctIds db (expires faults now) d = elim (expire_leases-cases faults db now) [
    | inr same ↦ rw same d
    | inl (expired, e) ↦
        rw (expire_leases-reached platform now faults db expired d e)
          (update-DistinctIds _ _ db.intents (λ row. unfold tombstone in refl) d)
  ]
  step-DistinctIds db (applies faults id generation) d =
      mark-DistinctIds faults db _ _ (λ r. refl) d
  step-DistinctIds db (observes faults id generation) d =
      mark-DistinctIds faults db _ _ (λ r. refl) d
  step-DistinctIds db (reports faults id generation message) d =
      mark-DistinctIds faults db _ _ (λ r. refl) d

  tombstone-Successor :
      (now : Time) (row : IntentRow)
      → HasRoom platform 2 row
      → Successor platform 2 row (tombstone now row)
  unfolding tombstone
  tombstone-Successor now row room =
      let up = incr64_parts row.generation (omega arith) in
      record { device = refl; host = refl; within = omega arith; moves = inl (omega arith) }

  Outcome-Follows :
      {db : Database} {request : UpsertRequest} {r : Database × Result StoreError UpsertResult}
      (id : Bytes) (row : IntentRow)
      → Outcome platform db request r
      → find_intent id db.intents ≡ some row
      → HasRoom platform 2 row
      → All IsValid request.addresses
      → Follows platform 2 id row r.0.intents
  Outcome-Follows {db} id row (refused e) h room v =
      unchanged-Follows platform 2 id db.intents row h
  Outcome-Follows {db} {request} id row (lapsed current s o f) h room v =
      Follows-more platform 1 1 id row _ (
        expire-Follows platform id request.now request.device_id db.intents row current h s
          (omega arith))
  Outcome-Follows {db} id row (replayed r persisted intent k b j i) h room v =
      unchanged-Follows platform 2 id db.intents row h
  Outcome-Follows {db} {request} id row (written found intents fresh valid s p w) h room v =
      written-Follows platform id db request found intents row s w h room v

  status-Successor :
      (row : IntentRow) (applied observed : ℤ) (message : Bytes)
      → Successor platform 2 row (record row {
        origin_applied_generation = applied;
        public_observed_generation = observed;
        last_publication_error = message;
      })
  unfolding address_set
  status-Successor row applied observed message = record {
    device = refl;
    host = refl;
    within = omega arith;
    moves = inr (refl, refl);
  }

  mark-Follows :
      (faults : Faults) (db : Database) (test : IntentRow → Bool) (change : IntentRow → IntentRow)
      (id : Bytes) (row : IntentRow)
      → ((r : IntentRow) → (change r).device_id ≡ r.device_id)
      → find_intent id db.intents ≡ some row
      → Successor platform 2 row (change row)
      → Follows platform 2 id row (mark faults db test change).0.intents
  unfolding mark
  mark-Follows faults db test change id row keeps h s = elim (Bool-cases (faults update_status)) [
    | inl f ↦ rw f (unchanged-Follows platform 2 id db.intents row h)
    | inr f ↦ rw f (update-Follows platform 2 id test change db.intents row keeps h (λ on. s))
  ]

  step-Follows :
      (db : Database) (call : Call) (id : Bytes) (row : IntentRow)
      → DistinctIds db.intents
      → ValidCalls (call ∷ [])
      → find_intent id db.intents ≡ some row
      → HasRoom platform 2 row
      → Follows platform 2 id row (step platform db call).intents
  unfolding step mark_origin_applied mark_publicly_observed mark_publication_error
  step-Follows db (upserts faults request) id row d v h room =
      Outcome-Follows id row (upsert_intent-Outcome platform faults db request) h room
        (canonical-IsValid request.addresses v.0)
  step-Follows db (expires faults now) id row d v h room =
      elim (expire_leases-cases faults db now) [
        | inr same ↦ rw same (unchanged-Follows platform 2 id db.intents row h)
        | inl (expired, e) ↦ rw (expire_leases-reached platform now faults db expired d e) (
            update-Follows platform 2 id (is_reached now faults db.intents) (tombstone now)
              db.intents row (λ r. unfold tombstone in refl) h
              (λ over. tombstone-Successor now row room))
      ]
  step-Follows db (applies faults device generation) id row d v h room =
      mark-Follows faults db _ _ id row (λ r. refl) h
        (status-Successor row generation row.public_observed_generation [])
  step-Follows db (observes faults device generation) id row d v h room =
      mark-Follows faults db _ _ id row (λ r. refl) h
        (status-Successor row row.origin_applied_generation generation row.last_publication_error)
  step-Follows db (reports faults device generation message) id row d v h room =
      mark-Follows faults db _ _ id row (λ r. refl) h
        (status-Successor row row.origin_applied_generation row.public_observed_generation message)

  ValidCalls-head :
      (call : Call) (calls : List Call)
      → ValidCalls (call ∷ calls)
      → ValidCalls (call ∷ []) × ValidCalls calls
  ValidCalls-head (upserts faults request) calls v = ((v.0, tt), v.1)
  ValidCalls-head (expires faults now) calls v = (tt, v)
  ValidCalls-head (applies faults id generation) calls v = (tt, v)
  ValidCalls-head (observes faults id generation) calls v = (tt, v)
  ValidCalls-head (reports faults id generation message) calls v = (tt, v)

  -- From a table with its primary key intact, and over any history of calls with valid addresses,
  -- failures of SQLite included, a device keeps a row: the hostname is the same, and either the
  -- generation is greater, by at most 2 a call, or it is the same and so is the address set, which
  -- makes the ETag of a generation a strong validator. This holds as long as the generations of the
  -- history fit in an int64.
  pub generations_are_versions :
      (db : Database) (calls : List Call) (id : Bytes) (row : IntentRow)
      → DistinctIds db.intents
      → ValidCalls calls
      → find_intent id db.intents ≡ some row
      → HasRoom platform (length calls * 2) row
      → Follows platform (length calls * 2) id row (run platform db calls).intents
  unfolding run
  generations_are_versions db [] id row d v h room =
      unchanged-Follows platform 0 id db.intents row h
  generations_are_versions db (call ∷ calls) id row d v h room =
      let (first, later) = ValidCalls-head call calls v in
      let count : length (call ∷ calls) * 2 ≡ 2 + length calls * 2 = omega arith in
      rw count (
        Follows-trans platform 2 (length calls * 2) id row _ _
          (step-Follows db call id row d first h (omega arith))
          (λ next found s.
            generations_are_versions (step platform db call) calls id next
              (step-DistinctIds db call d) later found
              (HasRoom-later platform 2 (length calls * 2) row next (omega arith) (omega arith) s)))
