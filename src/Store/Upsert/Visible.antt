-- ===== src/Store/Upsert/Visible.antt =====
-- A read after `UpsertIntent`: the device reads as the result says.
use nixos_kaiba_network.Prelude.{
  ◌≡◌, refl, sym, ap, ◌∙◌, true, false, inl, inr, Option, none, some, List, [], ◌∷◌, ◌++◌, All,
  arith, bytes_eq_refl, Bool-cases, Result, ok, >>=-eq-ok,
}
use nixos_kaiba_network.Model.{Intent, Platform, canonical_addresses}
use nixos_kaiba_network.Model.Canonical.{IsValid, canonical-IsValid, canonical-canonical}
use nixos_kaiba_network.Store.{StoreError, UpsertRequest, UpsertResult}
use nixos_kaiba_network.Store.Tables.{
  IntentRow, Database, Faults, no_faults, find_intent, decode_addresses, scan_intent, scan_found,
}
use nixos_kaiba_network.Store.Rows.{
  find_intent-update_intents, find_intent-append, insert_intent_ok, decode-encode, scan_intent_ok,
  scan_found_ok,
}
use nixos_kaiba_network.Store.Upsert.{
  expired_during_write, expire_intent, realized, is_row_of, realized_rows, next_intent, renewed_row,
  write_renewed, write_next, new_row, upsert_intent,
}
use nixos_kaiba_network.Store.Upsert.Outcome.{
  Outcome, refused, lapsed, replayed, written, upsert_intent-Outcome,
}
use nixos_kaiba_network.Store.Queries.{get_intent}
use nixos_kaiba_network.Store.Replay.{addresses-next_intent}
use nixos_kaiba_network.Store.Versions.Upserts.{
  write_next-some_ok, next_intent-device_id, scan_found-expired,
}

module _ (platform : Platform) where
  scan_new_row :
      (request : UpsertRequest)
      → All IsValid request.addresses
      → canonical_addresses request.addresses ≡ request.addresses
      → scan_intent platform (new_row platform (next_intent request none))
        ≡ ok (next_intent request none)
  unfolding new_row next_intent scan_intent
  scan_new_row request v c = rw (decode-encode platform request.addresses v, c) refl

  scan_renewed_row :
      (request : UpsertRequest) (row : IntentRow) (current : Intent)
      → scan_intent platform row ≡ ok current
      → All IsValid request.addresses
      → canonical_addresses request.addresses ≡ request.addresses
      → scan_intent platform (renewed_row platform (next_intent request (some current)) row)
        ≡ ok (next_intent request (some current))
  unfolding renewed_row next_intent scan_intent
  scan_renewed_row request row current s v c =
      let (addresses, d, e) = >>=-eq-ok (decode_addresses platform row.addresses_json) _ s in
      let back = decode-encode platform request.addresses v ∙ ap ok c in ground arith

  scan_found-renewed :
      (request : UpsertRequest) (rows : List IntentRow) (current : Intent)
      → scan_found platform (find_intent request.device_id rows) ≡ ok (some current)
      → All IsValid request.addresses
      → canonical_addresses request.addresses ≡ request.addresses
      → scan_found platform (
          find_intent request.device_id
            (write_renewed platform (next_intent request (some current)) rows))
        ≡ ok (some (next_intent request (some current)))
  unfolding write_renewed scan_found
  scan_found-renewed request rows current scanned v c =
      let (r, f, s) = scan_found_ok platform (find_intent request.device_id rows) current scanned in
      let (_, d, _, _, _) = scan_intent_ok platform r current s in
      let next = next_intent request (some current) in
      let here : is_row_of next r ≡ true =
        rw (next_intent-device_id request current, d) (bytes_eq_refl r.device_id) in
      rw (
        find_intent-update_intents request.device_id (is_row_of next) (renewed_row platform next)
            rows (λ row. unfold renewed_row in refl),
        f,
        here,
        scan_renewed_row request r current s v c,
      )

  scan_found-none : (found : Option IntentRow) → scan_found platform found ≡ ok none → found ≡ none
  unfolding scan_found
  scan_found-none none h = refl
  scan_found-none (some row) h =
      let (intent, s, e) = >>=-eq-ok (scan_intent platform row) _ h in absurd (cc)

  scan_found-appended :
      (request : UpsertRequest) (rows : List IntentRow)
      → scan_found platform (find_intent request.device_id rows) ≡ ok none
      → All IsValid request.addresses
      → canonical_addresses request.addresses ≡ request.addresses
      → scan_found platform
          (find_intent request.device_id (rows ++ new_row platform (next_intent request none) ∷ []))
        ≡ ok (some (next_intent request none))
  unfolding scan_found new_row next_intent
  scan_found-appended request rows scanned v c =
      let same : (new_row platform (next_intent request none)).device_id ≡ request.device_id =
        unfold new_row next_intent in refl in
      rw (
        find_intent-append request.device_id rows (new_row platform (next_intent request none)),
        scan_found-none _ scanned,
        same,
        bytes_eq_refl request.device_id,
        scan_new_row request v c,
      )

  written-scan :
      (db : Database) (request : UpsertRequest) (found : Option Intent) (intents : List IntentRow)
      → scan_found platform (find_intent request.device_id db.intents) ≡ ok found
      → write_next platform request
          (realized request.now found)
          (realized_rows request.now found db.intents)
        ≡ ok intents
      → All IsValid request.addresses
      → canonical_addresses request.addresses ≡ request.addresses
      → scan_found platform (find_intent request.device_id intents)
        ≡ ok (some (next_intent request (realized request.now found)))
  unfolding realized realized_rows
  written-scan db request none intents scanned w v c =
      let appended : intents ≡ db.intents ++ new_row platform (next_intent request none) ∷ [] =
        unfold write_next in insert_intent_ok _ db.intents w in
      rw appended (scan_found-appended request db.intents scanned v c)
  written-scan db request (some current) intents scanned w v c =
      elim (Bool-cases (expired_during_write request.now (some current))) [
        | inl over ↦
            let w' = rw over at w in
            rw (over, write_next-some_ok platform request (expire_intent request.now current) _ w')
              (scan_found-renewed request _ (expire_intent request.now current)
                (scan_found-expired platform request.device_id request.now request.device_id
                  db.intents current scanned)
                v c)
        | inr live ↦
            let w' = rw live at w in
            rw (live, write_next-some_ok platform request current _ w')
              (scan_found-renewed request _ current scanned v c)
      ]

  pub Outcome-read :
      {db : Database} {request : UpsertRequest} {r : Database × Result StoreError UpsertResult}
      → Outcome platform db request r
      → (result : UpsertResult) → r.1 ≡ ok result
      → result.replay ≡ false
      → All IsValid request.addresses
      → canonical_addresses request.addresses ≡ request.addresses
      → scan_found platform (find_intent request.device_id r.0.intents) ≡ ok (some result.intent)
  Outcome-read (refused e) result h n v c = cc
  Outcome-read (lapsed current s o f) result h n v c = cc
  Outcome-read (replayed row persisted intent k b j i) result h n v c = ground arith
  Outcome-read {db} {request} (written found intents fresh valid s p w) result h n v c =
      let same : next_intent request (realized request.now found) ≡ result.intent = ground arith in
      written-scan db request found intents s w v c ∙ rw same refl

  Outcome-addresses :
      {db : Database} {request : UpsertRequest} {r : Database × Result StoreError UpsertResult}
      → Outcome platform db request r
      → (result : UpsertResult) → r.1 ≡ ok result
      → result.replay ≡ false
      → result.intent.addresses ≡ request.addresses
  Outcome-addresses (refused e) result h n = cc
  Outcome-addresses (lapsed current s o f) result h n = cc
  Outcome-addresses (replayed row persisted intent k b j i) result h n = ground arith
  Outcome-addresses {db} {request} (written found intents fresh valid s p w) result h n =
      let same : next_intent request (realized request.now found) ≡ result.intent = ground arith in
      sym (ap (λ (i : Intent). i.addresses) same) ∙ addresses-next_intent request _

  -- If `UpsertIntent` accepts a request with valid addresses as new, then a read of the device,
  -- where SQLite does not fail, returns the intent of the response, whose addresses are the
  -- request's in canonical form.
  pub read_your_writes :
      (faults : Faults) (db : Database) (request : UpsertRequest) (result : UpsertResult)
      → All IsValid request.addresses
      → (upsert_intent platform faults db request).1 ≡ ok result
      → result.replay ≡ false
      → let after = (upsert_intent platform faults db request).0 in
        (get_intent platform no_faults after request.device_id ≡ ok result.intent)
        × (result.intent.addresses ≡ canonical_addresses request.addresses)
  unfolding get_intent
  read_your_writes faults db request result v h n =
      let outcome = upsert_intent-Outcome platform faults db request in
      (
        rw
            (Outcome-read outcome result h n (canonical-IsValid request.addresses v)
              (canonical-canonical request.addresses))
            refl,
        Outcome-addresses outcome result h n,
      )
