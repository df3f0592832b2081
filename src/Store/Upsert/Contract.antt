-- ===== src/Store/Upsert/Contract.antt =====
-- What a caller of `UpsertIntent` may rely on: errors write nothing, a write was guarded by its
-- precondition, it is read back, and it touches one device.
use nixos_kaiba_network.Prelude.{
  ◌≡◌, true, false, inl, inr, Option, none, some, arith, Bool-cases, if◌then◌else◌, Result, ok, err,
}
use nixos_kaiba_network.Prelude.Int.{incr64, eq_ℤ_sound}
use nixos_kaiba_network.Model.{Intent, Platform}
use nixos_kaiba_network.Store.{
  StoreError, precondition_failed, IntentPrecondition, is_valid_precondition, UpsertRequest,
  UpsertResult,
}
use nixos_kaiba_network.Store.Tables.{Database, Faults, find_intent, scan_found}
use nixos_kaiba_network.Store.Upsert.{
  expired_during_write, expire_intent, realized, write_expired, fails_precondition,
  canonical_request, upsert_intent,
}
use nixos_kaiba_network.Store.Upsert.Outcome.{
  Outcome, refused, lapsed, replayed, written, upsert_intent-Outcome,
}

module _ (platform : Platform) where
  -- What an error may leave behind: nothing, or the realised lease of the request's device.
  pub data AfterError (db : Database) (request : UpsertRequest) (e : StoreError)
      : Database → Type 0 where
    unchanged : AfterError db request e db
    realised :
        (current : Intent)
        → e ≡ precondition_failed
        → scan_found platform (find_intent request.device_id db.intents) ≡ ok (some current)
        → expired_during_write request.now (some current) ≡ true
        → AfterError db request e
            (record db { intents = write_expired (expire_intent request.now current) db.intents })

  Outcome-AfterError :
      {db : Database} {request : UpsertRequest} {r : Database × Result StoreError UpsertResult}
      → Outcome platform db request r
      → (e : StoreError) → r.1 ≡ err e
      → AfterError db request e r.0
  Outcome-AfterError (refused e') e h = unchanged
  Outcome-AfterError (lapsed current s o f) e h = realised current (ground arith) s o
  Outcome-AfterError (replayed row persisted intent k b j i) e h = cc
  Outcome-AfterError (written found intents fresh valid s p w) e h = cc

  -- Whichever step of SQLite fails and whatever the request asks, if `UpsertIntent` returns an
  -- error then both tables are as before, except that a failed precondition on a device whose lease
  -- had run out leaves that lease realised.
  pub upsert_intent-AfterError :
      (faults : Faults) (db : Database) (request : UpsertRequest) (e : StoreError)
      → (upsert_intent platform faults db request).1 ≡ err e
      → AfterError db request e (upsert_intent platform faults db request).0
  upsert_intent-AfterError faults db request e h =
      keep_request (Outcome-AfterError (upsert_intent-Outcome platform faults db request) e h)
    where
      keep_request :
          {db' : Database}
          → AfterError db (canonical_request request) e db'
          → AfterError db request e db'
      keep_request unchanged = unchanged
      keep_request (realised current p s o) = realised current p s o

  -- The condition under which a new write goes through.
  pub data Permits (db : Database) (request : UpsertRequest) : Type 0 where
    absent :
        request.precondition.require_absent ≡ true
        → scan_found platform (find_intent request.device_id db.intents) ≡ ok none
        → Permits db request
    matches :
        (current : Intent)
        → request.precondition.require_absent ≡ false
        → scan_found platform (find_intent request.device_id db.intents) ≡ ok (some current)
        → (if expired_during_write request.now (some current)
            then incr64 current.generation
            else current.generation)
          ≡ request.precondition.expected_generation
        → Permits db request

  pub passes_absent :
      (p : IntentPrecondition) → fails_precondition p none ≡ false → p.require_absent ≡ true
  unfolding fails_precondition
  passes_absent p h = ground arith

  pub passes_match :
      (p : IntentPrecondition) (current : Intent)
      → fails_precondition p (some current) ≡ false
      → (p.require_absent ≡ false) × (current.generation ≡ p.expected_generation)
  unfolding fails_precondition
  passes_match p current h = ground (arith, eq_ℤ_sound current.generation p.expected_generation)

  realized_generation :
      (request : UpsertRequest) (current : Intent) {p : IntentPrecondition}
      → fails_precondition p (realized request.now (some current)) ≡ false
      → (p.require_absent ≡ false)
        × ((if expired_during_write request.now (some current)
              then incr64 current.generation
              else current.generation)
            ≡ p.expected_generation)
  unfolding realized
  realized_generation request current {p} h =
      elim (Bool-cases (expired_during_write request.now (some current))) [
        | inl e ↦
            rw e (
              unfold expire_intent in
              passes_match p (expire_intent request.now current) (rw e at h))
        | inr e ↦ rw e (passes_match p current (rw e at h))
      ]

  written-Permits :
      (db : Database) (request : UpsertRequest) (found : Option Intent)
      → scan_found platform (find_intent request.device_id db.intents) ≡ ok found
      → fails_precondition request.precondition (realized request.now found) ≡ false
      → Permits db request
  written-Permits db request none s p =
      absent (passes_absent request.precondition (unfold realized in p)) s
  written-Permits db request (some current) s p =
      let (here, same) = realized_generation request current {p = request.precondition} p in
      matches current here s same

  Outcome-Permits :
      {db : Database} {request : UpsertRequest} {r : Database × Result StoreError UpsertResult}
      → Outcome platform db request r
      → (result : UpsertResult) → r.1 ≡ ok result
      → result.replay ≡ false
      → (is_valid_precondition request.precondition ≡ true) × Permits db request
  Outcome-Permits (refused e) result h n = cc
  Outcome-Permits (lapsed current s o f) result h n = cc
  Outcome-Permits (replayed row persisted intent k b j i) result h n = ground arith
  Outcome-Permits {db} {request} (written found intents fresh valid s p w) result h n =
      (valid, written-Permits db request found s p)

  -- If `UpsertIntent` accepts a request as new, then its precondition is well formed, and either it
  -- asks for absence and the device has no row, or it names a generation and that is the device's
  -- generation, counted after a lease that has run out is realised.
  pub upsert_intent-Permits :
      (faults : Faults) (db : Database) (request : UpsertRequest) (result : UpsertResult)
      → (upsert_intent platform faults db request).1 ≡ ok result
      → result.replay ≡ false
      → (is_valid_precondition request.precondition ≡ true) × Permits db request
  upsert_intent-Permits faults db request result h n =
      let (valid, permits) =
        Outcome-Permits (upsert_intent-Outcome platform faults db request) result h n in
      (valid, keep_request permits)
    where
      keep_request : Permits db (canonical_request request) → Permits db request
      keep_request (absent a s) = absent a s
      keep_request (matches current a s g) = matches current a s g
