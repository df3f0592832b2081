-- ===== src/Store/Versions/LostUpdates.antt =====
-- Optimistic concurrency: of two writes that name one generation, one at most changes the device.
use nixos_kaiba_network.Prelude.{
  ℕ, zero, suc, ◌+◌, ◌*◌, ◌≤◌, ◌≡◌, ◌≢◌, sym, ap, ◌∙◌, Bool, true, false, ◌⊎◌, inl, inr, none, some,
  List, All, arith, length, Bool-cases, if◌then◌else◌, Result, ok,
}
use nixos_kaiba_network.Prelude.Int.{
  ℤ, pos, negsuc, pos_part, neg_part, ◌≤ℤ◌, ◌<ℤ◌, incr64, int64_max, incr64_parts,
}
use nixos_kaiba_network.Model.{Intent, Platform}
use nixos_kaiba_network.Model.Canonical.{IsValid, canonical-IsValid, canonical-canonical}
use nixos_kaiba_network.Store.{
  StoreError, IntentPrecondition, match_generation, UpsertRequest, UpsertResult,
}
use nixos_kaiba_network.Store.Tables.{IntentRow, Database, Faults, find_intent}
use nixos_kaiba_network.Store.Rows.{scan_intent_ok, scan_found_ok}
use nixos_kaiba_network.Store.Keys.{DistinctIds}
use nixos_kaiba_network.Store.Upsert.{
  expired_during_write, expire_intent, realized, fails_precondition, next_intent, upsert_intent,
}
use nixos_kaiba_network.Store.Upsert.Outcome.{
  Outcome, refused, lapsed, replayed, written, upsert_intent-Outcome,
}
use nixos_kaiba_network.Store.Upsert.Contract.{
  Permits, absent, matches, passes_absent, passes_match, upsert_intent-Permits,
}
use nixos_kaiba_network.Store.Upsert.Visible.{Outcome-read}
use nixos_kaiba_network.Store.History.{Call, upserts, step, run}
use nixos_kaiba_network.Store.Versions.{Follows, next_intent-cases}
use nixos_kaiba_network.Store.Versions.Histories.{
  ValidCalls, step-DistinctIds, generations_are_versions,
}

module _ (platform : Platform) where
  next_generation :
      (request : UpsertRequest) (current : Intent)
      → fails_precondition request.precondition (some current) ≡ false
      → ((next_intent request (some current)).generation ≡ request.precondition.expected_generation)
        ⊎ ((next_intent request (some current)).generation
            ≡ incr64 request.precondition.expected_generation)
  next_generation request current p =
      let (_, g) = passes_match platform request.precondition current p in
      elim (next_intent-cases platform request current).1 [
        | inl new ↦ inr (new ∙ ap incr64 g)
        | inr (old, equal) ↦ inl (old ∙ g)
      ]

  -- A write that names a generation writes that generation or the next one.
  Outcome-generation :
      {db : Database} {request : UpsertRequest} {r : Database × Result StoreError UpsertResult}
      → Outcome platform db request r
      → (result : UpsertResult) → r.1 ≡ ok result
      → result.replay ≡ false
      → request.precondition.require_absent ≡ false
      → (result.intent.generation ≡ request.precondition.expected_generation)
        ⊎ (result.intent.generation ≡ incr64 request.precondition.expected_generation)
  unfolding realized
  Outcome-generation (refused e) result h n a = cc
  Outcome-generation (lapsed current s o f) result h n a = cc
  Outcome-generation (replayed row persisted intent k b j i) result h n a = ground arith
  Outcome-generation {db} {request} (written none intents fresh valid s p w) result h n a =
      let there = passes_absent platform request.precondition p in absurd (cc)
  Outcome-generation {db} {request} (written (some current) intents fresh valid s p w) result h n
        a =
      let same : next_intent request (realized request.now (some current)) ≡ result.intent =
        ground arith in
      elim (Bool-cases (expired_during_write request.now (some current))) [
        | inl over ↦
            let same' = rw over at same in
            rw (← same')
              (next_generation request (expire_intent request.now current) (rw over at p))
        | inr live ↦
            let same' = rw live at same in
            rw (← same') (next_generation request current (rw live at p))
      ]

  room_of :
      (k : ℕ) (x y : ℤ)
      → y ≡ incr64 x
      → pos_part x + 1 + (k + 2) ≤ int64_max
      → pos_part y + k ≤ int64_max
  unfolding incr64
  room_of k (pos n) y e r = rw e (ground arith)
  room_of k (negsuc zero) y e r = rw e (omega arith)
  room_of k (negsuc (suc n)) y e r = rw e (omega arith)

  grows : {P : Type 0} (x y : ℤ) → (x <ℤ y) ⊎ ((y ≡ x) × P) → x ≤ℤ y
  grows x y (inl m) = omega arith
  grows x y (inr (e, _)) = let p = ap pos_part e in let n = ap neg_part e in omega arith

  -- No later generation is named by the old one, before or after a lease is realised.
  outgrown :
      (k : ℕ) (old g h : ℤ) (over : Bool)
      → pos_part old + k + 2 ≤ int64_max
      → g ≡ incr64 old
      → g ≤ℤ h
      → pos_part h + neg_part g ≤ pos_part g + neg_part h + k
      → (if over then incr64 h else h) ≢ old
  outgrown k old g h false room e up within same =
      let first = incr64_parts old (omega arith) in
      let p = ap pos_part e in
      let n = ap neg_part e in let p' = ap pos_part same in let n' = ap neg_part same in omega arith
  outgrown k old g h true room e up within same =
      let first = incr64_parts old (omega arith) in
      let p = ap pos_part e in
      let n = ap neg_part e in
      let p' = ap pos_part same in
      let n' = ap neg_part same in let next = incr64_parts h (omega arith) in omega arith

  -- The generation that a later write would have to name.
  not_permitted :
      (k : ℕ) (db : Database) (request : UpsertRequest) (old : ℤ) (row : IntentRow)
      → Permits platform db request
      → request.precondition ≡ match_generation old
      → find_intent request.device_id db.intents ≡ some row
      → ((over : Bool) → (if over then incr64 row.generation else row.generation) ≢ old)
      → false ≡ true
  not_permitted k db request old row (absent a s) p found grown =
      let b = ap (λ (q : IntentPrecondition). q.require_absent) p in cc
  not_permitted k db request old row (matches current a scanned same) p found grown =
      let (r, f, s) =
        scan_found_ok platform (find_intent request.device_id db.intents) current scanned in
      let (_, _, _, g, _) = scan_intent_ok platform r current s in
      let one : r ≡ row = some_inj (sym f ∙ found) in
      let g' = g ∙ ap (λ (x : IntentRow). x.generation) one in
      absurd (
        grown (expired_during_write request.now (some current)) (
          ap (λ (n : ℤ). if expired_during_write request.now (some current) then incr64 n else n)
            (sym g')
          ∙ same
          ∙ ap (λ (q : IntentPrecondition). q.expected_generation) p))
    where
      some_inj : {x y : IntentRow} → some x ≡ some y → x ≡ y
      some_inj q = cc

  -- From a table with its primary key intact, suppose that a write of valid addresses that names a
  -- generation is accepted as new and moves the device to another generation. Then, after any calls
  -- with valid addresses, no further write of the device that names the same generation is accepted
  -- as new, as long as the generations fit in an int64: no update is lost to a writer that has not
  -- seen it.
  pub no_lost_update :
      (faults faults' : Faults) (db : Database) (request again : UpsertRequest) (calls : List Call)
      (old : ℤ) (result result' : UpsertResult)
      → DistinctIds db.intents
      → All IsValid request.addresses
      → ValidCalls calls
      → pos_part old + 1 + (length calls * 2 + 2) ≤ int64_max
      → request.precondition ≡ match_generation old
      → (upsert_intent platform faults db request).1 ≡ ok result
      → result.replay ≡ false
      → result.intent.generation ≢ old
      → again.device_id ≡ request.device_id
      → again.precondition ≡ match_generation old
      → (upsert_intent platform faults'
          (run platform (upsert_intent platform faults db request).0 calls)
          again).1
        ≡ ok result'
      → result'.replay ≡ true
  unfolding step Follows
  no_lost_update faults faults' db request again calls old result result' distinct valid valids room
        p accepted new moved device p' accepted' =
      let id = request.device_id in
      let after = (upsert_intent platform faults db request).0 in
      let outcome = upsert_intent-Outcome platform faults db request in
      elim (Bool-cases result'.replay) [
        | inl e ↦ e
        | inr n ↦
            let read =
              Outcome-read platform outcome result accepted new
                (canonical-IsValid request.addresses valid)
                (canonical-canonical request.addresses) in
            let (row, found, s) =
              scan_found_ok platform (find_intent id after.intents) result.intent read in
            let (_, _, _, g, _) = scan_intent_ok platform row result.intent s in
            let named : row.generation ≡ incr64 old =
              sym g
              ∙ named_of (
                  Outcome-generation outcome result accepted new
                    (ap (λ (q : IntentPrecondition). q.require_absent) p)) in
            let (last, f, next) =
              generations_are_versions platform after calls id row
                (step-DistinctIds platform db (upserts faults request) distinct) valids found
                (room_of (length calls * 2) old row.generation named room) in
            let permits =
              (upsert_intent-Permits platform faults' (run platform after calls) again result'
                accepted' n).1 in
            let found' : find_intent again.device_id (run platform after calls).intents
                ≡ some last =
              rw device f in
            absurd (
              let contradiction =
                not_permitted (length calls * 2) (run platform after calls) again old last permits
                  p' found'
                  (λ over.
                    outgrown (length calls * 2) old row.generation last.generation over
                      (omega arith) named (grows row.generation last.generation next.moves)
                      next.within) in
              cc)
      ]
    where
      named_of :
          (result.intent.generation ≡ request.precondition.expected_generation)
            ⊎ (result.intent.generation ≡ incr64 request.precondition.expected_generation)
          → result.intent.generation ≡ incr64 old
      named_of (inl e) =
          absurd (moved (e ∙ ap (λ (q : IntentPrecondition). q.expected_generation) p))
      named_of (inr e) = e ∙ ap (λ (q : IntentPrecondition). incr64 q.expected_generation) p
