-- ===== src/Store/Upsert/Isolation.antt =====
-- `UpsertIntent` and the other devices: they read as before.
use mathlib.Core.Option
use nixos_kaiba_network.Prelude.{
  ◌≡◌, ◌≢◌, refl, sym, ◌∙◌, inl, inr, Option, none, some, List, [], ◌∷◌, ◌++◌, Bytes, bytes_eq,
  bytes_eq_sound, Bool-cases, if◌then◌else◌, Result, ok,
}
use nixos_kaiba_network.Model.{Intent, Time, Platform}
use nixos_kaiba_network.Store.{StoreError, UpsertRequest, UpsertResult}
use nixos_kaiba_network.Store.Tables.{
  IntentRow, Database, Faults, no_faults, find_intent, update_intents, scan_found,
}
use nixos_kaiba_network.Store.Rows.{
  change_if, find_intent-update_intents, find_intent_sound, find_intent-append, insert_intent_ok,
  scan_intent_ok, scan_found_ok,
}
use nixos_kaiba_network.Store.Upsert.{
  expired_during_write, expire_intent, realized, expired_row, is_row_of, write_expired,
  realized_rows, next_intent, renewed_row, write_renewed, write_next, new_row, upsert_intent,
}
use nixos_kaiba_network.Store.Upsert.Outcome.{
  Outcome, refused, lapsed, replayed, written, upsert_intent-Outcome,
}
use nixos_kaiba_network.Store.Queries.{get_intent}
use nixos_kaiba_network.Store.Versions.Upserts.{write_next-some_ok, next_intent-device_id}

module _ (platform : Platform) where
  -- Another device's row, where the UPDATE statements write only to rows of `device`.
  other-update :
      (device other : Bytes) (intent : Intent) (change : IntentRow → IntentRow)
      (rows : List IntentRow)
      → intent.device_id ≡ device
      → other ≢ device
      → ((r : IntentRow) → (change r).device_id ≡ r.device_id)
      → find_intent other (update_intents (is_row_of intent) change rows) ≡ find_intent other rows
  other-update device other intent change rows d ne keeps =
      find_intent-update_intents other (is_row_of intent) change rows keeps
      ∙ kept (find_intent other rows) (λ row f. find_intent_sound other rows f)
    where
      kept :
          (found : Option IntentRow)
          → ((row : IntentRow) → found ≡ some row → row.device_id ≡ other)
          → Option.map (change_if (is_row_of intent) change) found ≡ found
      kept none h = refl
      kept (some row) h = elim (Bool-cases (is_row_of intent row)) [
        | inl e ↦
            absurd (ne (sym (h row refl) ∙ bytes_eq_sound row.device_id intent.device_id e ∙ d))
        | inr e ↦ rw e refl
      ]

  other-renewed :
      (request : UpsertRequest) (current : Intent) (rows : List IntentRow) (other : Bytes)
      → current.device_id ≡ request.device_id
      → other ≢ request.device_id
      → find_intent other (write_renewed platform (next_intent request (some current)) rows)
        ≡ find_intent other rows
  unfolding write_renewed renewed_row
  other-renewed request current rows other mine ne =
      other-update request.device_id other (next_intent request (some current))
        (renewed_row platform (next_intent request (some current))) rows
        (next_intent-device_id request current ∙ mine) ne (λ r. refl)

  other-expired :
      (now : Time) (current : Intent) (device other : Bytes) (rows : List IntentRow)
      → current.device_id ≡ device
      → other ≢ device
      → find_intent other (write_expired (expire_intent now current) rows) ≡ find_intent other rows
  unfolding write_expired expired_row expire_intent
  other-expired now current device other rows mine ne =
      other-update device other (expire_intent now current)
        (expired_row (expire_intent now current)) rows mine ne (λ r. refl)

  other-written :
      (db : Database) (request : UpsertRequest) (found : Option Intent) (intents : List IntentRow)
      (other : Bytes)
      → scan_found platform (find_intent request.device_id db.intents) ≡ ok found
      → write_next platform request
          (realized request.now found)
          (realized_rows request.now found db.intents)
        ≡ ok intents
      → other ≢ request.device_id
      → find_intent other intents ≡ find_intent other db.intents
  unfolding realized realized_rows
  other-written db request none intents other scanned w ne =
      let appended : intents ≡ db.intents ++ new_row platform (next_intent request none) ∷ [] =
        unfold write_next in insert_intent_ok _ db.intents w in
      let same : (new_row platform (next_intent request none)).device_id ≡ request.device_id =
        unfold new_row next_intent in refl in
      rw
        (
          appended,
          find_intent-append other db.intents (new_row platform (next_intent request none)),
        )
        (not_new (find_intent other db.intents) (λ e. ne (sym e ∙ same)))
    where
      not_new :
          (found : Option IntentRow)
          → (new_row platform (next_intent request none)).device_id ≢ other
          → (elim found [
            | some row ↦ some row
            | none ↦
                if bytes_eq (new_row platform (next_intent request none)).device_id other
                then some (new_row platform (next_intent request none))
                else none
          ])
            ≡ found
      not_new (some row) differs = refl
      not_new none differs =
          elim (Bool-cases
            (bytes_eq (new_row platform (next_intent request none)).device_id other)) [
              | inl e ↦ absurd (differs (bytes_eq_sound _ _ e))
              | inr e ↦ rw e refl
            ]
  other-written db request (some current) intents other scanned w ne =
      let (r, f, s) =
        scan_found_ok platform (find_intent request.device_id db.intents) current scanned in
      let (_, d, _, _, _) = scan_intent_ok platform r current s in
      let mine = d ∙ find_intent_sound request.device_id db.intents f in
      elim (Bool-cases (expired_during_write request.now (some current))) [
        | inl over ↦
            let w' = rw over at w in
            rw (write_next-some_ok platform request (expire_intent request.now current) _ w') (
              other-renewed request (expire_intent request.now current) _ other
                (unfold expire_intent in mine) ne
              ∙ other-expired request.now current request.device_id other db.intents mine ne)
        | inr live ↦
            let w' = rw live at w in
            rw (write_next-some_ok platform request current _ w')
              (other-renewed request current db.intents other mine ne)
      ]

  Outcome-other :
      {db : Database} {request : UpsertRequest} {r : Database × Result StoreError UpsertResult}
      (other : Bytes)
      → Outcome platform db request r
      → other ≢ request.device_id
      → find_intent other r.0.intents ≡ find_intent other db.intents
  Outcome-other other (refused e) ne = refl
  Outcome-other {db} {request} other (lapsed current scanned o f) ne =
      let (r, f, s) =
        scan_found_ok platform (find_intent request.device_id db.intents) current scanned in
      let (_, d, _, _, _) = scan_intent_ok platform r current s in
      other-expired request.now current request.device_id other db.intents
        (d ∙ find_intent_sound request.device_id db.intents f) ne
  Outcome-other other (replayed row persisted intent k b j i) ne = refl
  Outcome-other {db} {request} other (written found intents fresh valid s p w) ne =
      other-written db request found intents other s w ne

  -- `UpsertIntent` never changes what a read of another device than the request's returns, where
  -- SQLite does not fail in the read, on any of its paths.
  pub upsert_intent-other :
      (faults : Faults) (db : Database) (request : UpsertRequest) (other : Bytes)
      → other ≢ request.device_id
      → let after = (upsert_intent platform faults db request).0 in
        get_intent platform no_faults after other ≡ get_intent platform no_faults db other
  unfolding get_intent
  upsert_intent-other faults db request other ne =
      rw (Outcome-other other (upsert_intent-Outcome platform faults db request) ne) refl
