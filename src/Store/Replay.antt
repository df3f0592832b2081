-- ===== src/Store/Replay.antt =====
-- Idempotency keys: a bound key keeps its response for good, and binds body and precondition.
use nixos_kaiba_network.Prelude.{
  ◌≡◌, ◌≢◌, refl, sym, ap, ◌∙◌, Bool, true, false, ◌&&◌, ◌||◌, ◌⊎◌, Option, none, some, List, [],
  ◌∷◌, All, arith, Bytes, bytes_eq, bytes_eq_refl, bytes_eq_sound, is_empty, Bool-cases, inl, inr,
  if◌then◌else◌, Result, ok, err,
}
use nixos_kaiba_network.Prelude.Int.{pos, leb_ℤ}
use nixos_kaiba_network.Model.{Intent, Platform, canonical_addresses, addresses_hash}
use nixos_kaiba_network.Model.Canonical.{IsValid, canonical-IsValid, canonical-canonical}
use nixos_kaiba_network.Store.{
  StoreError, idempotency_conflict, IntentPrecondition, precondition_key, UpsertRequest,
  UpsertResult,
}
use nixos_kaiba_network.Store.Tables.{
  IdempotencyRow, Database, Faults, no_faults, find_request, persist_intent,
}
use nixos_kaiba_network.Store.Rows.{find_request-append, persisted_intent-persist_intent}
use nixos_kaiba_network.Store.Upsert.{
  realized, next_intent, is_bound_elsewhere, response_row, canonical_request, upsert_intent,
}
use nixos_kaiba_network.Store.Upsert.Outcome.{
  Outcome, refused, lapsed, replayed, written, upsert_intent-Outcome,
}
use nixos_kaiba_network.Store.Leases.{expire_leases}
use nixos_kaiba_network.Store.Queries.{
  mark_origin_applied, mark_publicly_observed, mark_publication_error,
}
use nixos_kaiba_network.Store.History.{
  Call, upserts, expires, applies, observes, reports, step, run,
}

pub addresses-next_intent :
    (request : UpsertRequest) (found : Option Intent)
    → (next_intent request found).addresses ≡ request.addresses
unfolding next_intent
addresses-next_intent request none = refl
addresses-next_intent request (some current) = ground arith

bytes_eq_ne : (a b : Bytes) → a ≢ b → bytes_eq a b ≡ false
bytes_eq_ne a b h = elim (Bool-cases (bytes_eq a b)) [
  | inl e ↦ absurd (h (bytes_eq_sound a b e))
  | inr e ↦ e
]

or_true : (b : Bool) → (b || true) ≡ true
or_true true = refl
or_true false = refl

precondition_key_not_empty : (p : IntentPrecondition) → is_empty (precondition_key p) ≡ false
unfolding precondition_key
precondition_key_not_empty p = ground arith

module _ (platform : Platform) where
  -- A response that is no replay is in the table, bound to its request.
  Outcome-stored :
      {db : Database} {request : UpsertRequest} {r : Database × Result StoreError UpsertResult}
      → Outcome platform db request r
      → (result : UpsertResult) → r.1 ≡ ok result
      → result.replay ≡ false
      → (find_request request.device_id request.idempotency_key r.0.idempotency_requests
          ≡ some (
              response_row platform request
                (addresses_hash platform request.addresses)
                result.intent))
        × (result.renew_after_seconds ≡ request.renew_after_seconds)
        × (result.intent.addresses ≡ request.addresses)
  unfolding response_row
  Outcome-stored (refused e) result h n = cc
  Outcome-stored (lapsed current s o f) result h n = cc
  Outcome-stored (replayed row persisted intent k b j i) result h n = ground arith
  Outcome-stored {db} {request} (written found intents fresh valid s p w) result h n =
      let same : next_intent request (realized request.now found) ≡ result.intent = ground arith in
      (
        find_request-append request.device_id request.idempotency_key db.idempotency_requests _
            ∙ rw (
              fresh,
              bytes_eq_refl request.device_id,
              bytes_eq_refl request.idempotency_key,
              same,
            ),
        ground arith,
        sym (ap (λ (i : Intent). i.addresses) same) ∙ addresses-next_intent request _,
      )

  -- No call unbinds a key or changes what it is bound to.
  Outcome-keeps :
      {db : Database} {request : UpsertRequest} {r : Database × Result StoreError UpsertResult}
      (id key : Bytes) (row : IdempotencyRow)
      → Outcome platform db request r
      → find_request id key db.idempotency_requests ≡ some row
      → find_request id key r.0.idempotency_requests ≡ some row
  Outcome-keeps id key row (refused e) h = h
  Outcome-keeps id key row (lapsed current s o f) h = h
  Outcome-keeps id key row (replayed _ persisted intent k b j i) h = h
  Outcome-keeps {db} id key row (written found intents fresh valid s p w) h =
      rw (find_request-append id key db.idempotency_requests, h)

  step-keeps :
      (db : Database) (call : Call) (id key : Bytes) (row : IdempotencyRow)
      → find_request id key db.idempotency_requests ≡ some row
      → find_request id key (step platform db call).idempotency_requests ≡ some row
  unfolding step expire_leases mark_origin_applied mark_publicly_observed mark_publication_error
  step-keeps db (upserts faults request) id key row h =
      Outcome-keeps id key row (upsert_intent-Outcome platform faults db request) h
  step-keeps db (expires faults now) id key row h = ground arith
  step-keeps db (applies faults device generation) id key row h = ground arith
  step-keeps db (observes faults device generation) id key row h = ground arith
  step-keeps db (reports faults device generation message) id key row h = ground arith

  pub run-keeps :
      (db : Database) (calls : List Call) (id key : Bytes) (row : IdempotencyRow)
      → find_request id key db.idempotency_requests ≡ some row
      → find_request id key (run platform db calls).idempotency_requests ≡ some row
  unfolding run
  run-keeps db [] id key row h = h
  run-keeps db (call ∷ calls) id key row h =
      run-keeps (step platform db call) calls id key row (step-keeps db call id key row h)

  -- The same address set and precondition as the request that a row was stored for.
  abbrev pub SameRequest : UpsertRequest → UpsertRequest → Type 0
  SameRequest request again =
      (again.device_id ≡ request.device_id)
      × (again.idempotency_key ≡ request.idempotency_key)
      × (canonical_addresses again.addresses ≡ canonical_addresses request.addresses)
      × (again.precondition ≡ request.precondition)

  -- Two requests that a key does not tell apart are not in conflict.
  bound_here :
      (request again : UpsertRequest) (intent : Intent)
      → SameRequest request again
      → is_bound_elsewhere
          (response_row platform
            (canonical_request request)
            (addresses_hash platform (canonical_addresses request.addresses))
            intent)
          (addresses_hash platform (canonical_addresses again.addresses))
          (precondition_key again.precondition)
        ≡ false
  unfolding is_bound_elsewhere response_row
  bound_here request again intent (_, _, a, p) =
      rw (a, p, bytes_eq_refl _, bytes_eq_refl _) (both_false _)
    where
      both_false : (b : Bool) → (false || (b && false)) ≡ false
      both_false true = refl
      both_false false = refl

  answer :
      (db : Database) (request again : UpsertRequest) (intent : Intent)
      → SameRequest request again
      → All IsValid intent.addresses
      → canonical_addresses intent.addresses ≡ intent.addresses
      → find_request request.device_id request.idempotency_key db.idempotency_requests
        ≡ some (
            response_row platform
              (canonical_request request)
              (addresses_hash platform (canonical_addresses request.addresses))
              intent)
      → upsert_intent platform no_faults db again ≡ (
        db,
        ok (record {
          intent = intent;
          renew_after_seconds =
              if leb_ℤ request.renew_after_seconds (pos 0)
              then again.renew_after_seconds
              else request.renew_after_seconds;
          replay = true;
        }),
      )
  unfolding upsert_intent persist_intent
  answer db request again intent same v c h =
      let known =
        ap (λ (r : Bytes × Bytes). find_request r.0 r.1 db.idempotency_requests)
          (λ i. (same.0 i, same.1 i))
        ∙ h in
      rw (
        known,
        bound_here request again intent same,
        persisted_intent-persist_intent platform intent request.renew_after_seconds v c,
      )

  -- If a call of `UpsertIntent` with valid addresses is accepted as new, then after any further
  -- calls of the store, whatever they write and whichever SQLite steps fail in them, repeating the
  -- request with its key, address set and precondition, where SQLite does not fail, returns the
  -- original intent and writes nothing; the renewal interval is the original one too, unless that
  -- was not positive.
  pub replay_forever :
      (faults : Faults) (db : Database) (request again : UpsertRequest) (calls : List Call)
      (result : UpsertResult)
      → All IsValid request.addresses
      → (upsert_intent platform faults db request).1 ≡ ok result
      → result.replay ≡ false
      → SameRequest request again
      → let later = run platform (upsert_intent platform faults db request).0 calls in
        upsert_intent platform no_faults later again ≡ (
          later,
          ok (record {
            intent = result.intent;
            renew_after_seconds =
                if leb_ℤ request.renew_after_seconds (pos 0)
                then again.renew_after_seconds
                else request.renew_after_seconds;
            replay = true;
          }),
        )
  replay_forever faults db request again calls result v accepted new same =
      let (stored, _, addresses) =
        Outcome-stored (upsert_intent-Outcome platform faults db request) result accepted new in
      answer _ request again result.intent same
        (rw addresses (canonical-IsValid request.addresses v))
        (rw addresses (canonical-canonical request.addresses))
        (run-keeps _ calls request.device_id request.idempotency_key _ stored)

  bound_elsewhere :
      (request again : UpsertRequest) (intent : Intent)
      → (addresses_hash platform (canonical_addresses again.addresses)
          ≢ addresses_hash platform (canonical_addresses request.addresses))
        ⊎ (precondition_key again.precondition ≢ precondition_key request.precondition)
      → is_bound_elsewhere
          (response_row platform
            (canonical_request request)
            (addresses_hash platform (canonical_addresses request.addresses))
            intent)
          (addresses_hash platform (canonical_addresses again.addresses))
          (precondition_key again.precondition)
        ≡ true
  unfolding is_bound_elsewhere response_row
  bound_elsewhere request again intent (inl hash) = rw (bytes_eq_ne _ _ (λ e. hash (sym e)))
  bound_elsewhere request again intent (inr key) =
      rw (bytes_eq_ne _ _ (λ e. key (sym e)), precondition_key_not_empty request.precondition)
        (or_true _)

  -- Once a request was accepted as new, reusing its key for the device, where SQLite does not
  -- fail, with another address set, as its hash shows, or another precondition key is an
  -- idempotency conflict after any further calls, and writes nothing.
  pub conflict_forever :
      (faults : Faults) (db : Database) (request again : UpsertRequest) (calls : List Call)
      (result : UpsertResult)
      → (upsert_intent platform faults db request).1 ≡ ok result
      → result.replay ≡ false
      → again.device_id ≡ request.device_id
      → again.idempotency_key ≡ request.idempotency_key
      → (addresses_hash platform (canonical_addresses again.addresses)
          ≢ addresses_hash platform (canonical_addresses request.addresses))
        ⊎ (precondition_key again.precondition ≢ precondition_key request.precondition)
      → let later = run platform (upsert_intent platform faults db request).0 calls in
        upsert_intent platform no_faults later again ≡ (later, err idempotency_conflict)
  unfolding upsert_intent
  conflict_forever faults db request again calls result accepted new d k differs =
      let (stored, _, _) =
        Outcome-stored (upsert_intent-Outcome platform faults db request) result accepted new in
      let kept = run-keeps _ calls request.device_id request.idempotency_key _ stored in
      let known =
        ap
          (λ (r : Bytes × Bytes).
            find_request r.0 r.1
              (run platform (upsert_intent platform faults db request).0
                calls).idempotency_requests)
          (λ i. (d i, k i))
        ∙ kept in
      rw (known, bound_elsewhere request again result.intent differs)
