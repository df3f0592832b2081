-- ===== src/Store/Versions.antt =====
-- Generations are versions of the address set: what one call, and any history of calls, does to the
-- row of a device.
pub mod Upserts
pub mod Histories
pub mod LostUpdates
use mathlib.Core.Option
use nixos_kaiba_network.Prelude.{
  ℕ, suc, ◌+◌, ◌*◌, ◌≤◌, ◌≡◌, refl, sym, ap, ◌∙◌, Bool, true, false, ◌&&◌, ◌||◌, not, ◌⊎◌, inl, inr,
  Option, none, some, List, [], ◌∷◌, ◌++◌, All, arith, Bytes, length, bytes_eq, bytes_eq_refl,
  bytes_eq_sound, is_empty, leb, Bool-cases, Option-cases, Result-cases, if◌then◌else◌, Result, ok,
  err, ◌>>=◌, >>=-eq-ok,
}
use nixos_kaiba_network.Prelude.Int.{
  ℤ, pos, pos_part, neg_part, ◌≤ℤ◌, ◌<ℤ◌, incr64, int64_max, incr64_parts, ℤ-antisymm, leb_ℤ, eq_ℤ,
  eq_ℤ_sound,
}
use nixos_kaiba_network.Net.{Addr}
use nixos_kaiba_network.Model.{Intent, Platform, canonical_addresses, addresses_equal}
use nixos_kaiba_network.Model.Canonical.{
  IsValid, canonical-IsValid, canonical-canonical, addresses_equal-canonical,
}
use nixos_kaiba_network.Store.{StoreError, UpsertRequest, UpsertResult}
use nixos_kaiba_network.Store.Tables.{
  IntentRow, Database, find_intent, insert_intent, update_intents, encode_addresses,
  decode_addresses, scan_intent, scan_found,
}
use nixos_kaiba_network.Store.Rows.{
  change_if, find_intent-update_intents, find_intent_sound, find_intent-append, insert_intent_ok,
  decode-encode, scan_intent_ok, scan_found_ok,
}
use nixos_kaiba_network.Store.Upsert.{
  has_lapsed, expired_during_write, expire_intent, realized, expired_row, is_row_of, write_expired,
  realized_rows, next_intent, renewed_row, write_renewed, write_next, new_row, canonical_request,
  upsert_intent,
}
use nixos_kaiba_network.Store.Upsert.Outcome.{
  Outcome, refused, lapsed, replayed, written, upsert_intent-Outcome,
}

module _ (platform : Platform) where
  -- The canonical address set that a row stands for.
  pub address_set : IntentRow → Result StoreError (List Addr)
  address_set row = do
    addresses ← decode_addresses platform row.addresses_json
    ok (canonical_addresses addresses)

  -- `after` follows `before` within `k` generations: the same device and hostname, and either a
  -- greater generation or the same one with the same address set.
  pub record Successor (k : ℕ) (before after : IntentRow) : Type 0 where
    pub device : after.device_id ≡ before.device_id
    pub host : after.hostname ≡ before.hostname
    pub within :
        pos_part after.generation + neg_part before.generation
        ≤ pos_part before.generation + neg_part after.generation + k
    pub moves :
        (before.generation <ℤ after.generation)
        ⊎ ((after.generation ≡ before.generation) × (address_set after ≡ address_set before))

  pub Successor-refl : (k : ℕ) (row : IntentRow) → Successor k row row
  Successor-refl k row = record {
    device = refl;
    host = refl;
    within = omega arith;
    moves = inr (refl, refl);
  }

  pub Successor-trans :
      (j k : ℕ) (a b c : IntentRow) → Successor j a b → Successor k b c → Successor (j + k) a c
  Successor-trans j k a b c p q = record {
    device = q.device ∙ p.device;
    host = q.host ∙ p.host;
    within = omega arith;
    moves = moves-trans p.moves q.moves;
  }
    where
      moves-trans :
          (a.generation <ℤ b.generation)
            ⊎ ((b.generation ≡ a.generation) × (address_set b ≡ address_set a))
          → (b.generation <ℤ c.generation)
            ⊎ ((c.generation ≡ b.generation) × (address_set c ≡ address_set b))
          → (a.generation <ℤ c.generation)
            ⊎ ((c.generation ≡ a.generation) × (address_set c ≡ address_set a))
      moves-trans (inl m) (inl n) = inl (omega arith)
      moves-trans (inl m) (inr (n, _)) =
          inl (let e = ap pos_part n in let e' = ap neg_part n in omega arith)
      moves-trans (inr (m, _)) (inl n) =
          inl (let e = ap pos_part m in let e' = ap neg_part m in omega arith)
      moves-trans (inr (m, x)) (inr (n, y)) = inr (n ∙ m, y ∙ x)

  -- Room for `k` more generations.
  abbrev pub HasRoom : ℕ → IntentRow → Type 0
  HasRoom k row = pos_part row.generation + k ≤ int64_max

  -- What is left of the room after `j` of `j + k` generations.
  pub HasRoom-later :
      (j k : ℕ) (row next : IntentRow)
      → HasRoom (j + k) row
      → k ≤ int64_max
      → Successor j row next
      → HasRoom k next
  HasRoom-later j k row next room fits s = later row.generation next.generation room s.within
    where
      later :
          (g h : ℤ)
          → pos_part g + (j + k) ≤ int64_max
          → pos_part h + neg_part g ≤ pos_part g + neg_part h + j
          → pos_part h + k ≤ int64_max
      later g h r w = ground arith

  pub expired_row-Successor :
      (now : ℕ) (row : IntentRow) (current : Intent)
      → scan_intent platform row ≡ ok current
      → HasRoom 1 row
      → Successor 1 row (expired_row (expire_intent now current) row)
  unfolding expired_row expire_intent
  expired_row-Successor now row current s room =
      let (_, _, _, g, _) = scan_intent_ok platform row current s in
      let up = incr64_parts row.generation (omega arith) in
      rw g (record { device = refl; host = refl; within = omega arith; moves = inl (omega arith) })

  pub scan-expired_row :
      (now : ℕ) (row : IntentRow) (current : Intent)
      → scan_intent platform row ≡ ok current
      → scan_intent platform (expired_row (expire_intent now current) row)
        ≡ ok (expire_intent now current)
  unfolding scan_intent expired_row expire_intent
  scan-expired_row now row current s =
      let (addresses, d, e) = >>=-eq-ok (decode_addresses platform row.addresses_json) _ s in
      unfold decode_addresses in ground arith

  pub address_set_scanned :
      (row : IntentRow) (current : Intent)
      → scan_intent platform row ≡ ok current
      → address_set row ≡ ok (canonical_addresses current.addresses)
  unfolding address_set
  address_set_scanned row current s = rw (scan_intent_ok platform row current s).0

  address_set_renewed :
      (next : Intent) (row : IntentRow)
      → All IsValid next.addresses
      → address_set (renewed_row platform next row) ≡ ok (canonical_addresses next.addresses)
  unfolding address_set renewed_row
  address_set_renewed next row v =
      rw (decode-encode platform next.addresses v, canonical-canonical next.addresses)

  -- A renewal keeps the generation only if the address set stays, and else takes the next one.
  pub next_intent-cases :
      (request : UpsertRequest) (current : Intent)
      → ((next_intent request (some current)).addresses ≡ request.addresses)
        × (((next_intent request (some current)).generation ≡ incr64 current.generation)
            ⊎ (((next_intent request (some current)).generation ≡ current.generation)
                × (addresses_equal current.addresses request.addresses ≡ true)))
  unfolding next_intent
  next_intent-cases request current = ground arith

  pub renewed_row-Successor :
      (request : UpsertRequest) (row : IntentRow) (current : Intent)
      → scan_intent platform row ≡ ok current
      → HasRoom 1 row
      → All IsValid request.addresses
      → Successor 1 row (renewed_row platform (next_intent request (some current)) row)
  unfolding renewed_row
  renewed_row-Successor request row current s room v =
      let (_, _, _, g, _) = scan_intent_ok platform row current s in
      let (a, cases) = next_intent-cases request current in
      let up = incr64_parts row.generation (omega arith) in
      let renewed = address_set_renewed (next_intent request (some current)) row (rw a v) in
      elim cases [
        | inl new ↦
            let e = new ∙ ap incr64 g in
            let p = ap pos_part e in
            let n = ap neg_part e in
            record { device = refl; host = refl; within = omega arith; moves = inl (omega arith) }
        | inr (old, equal) ↦
            let e = old ∙ g in
            let p = ap pos_part e in
            let n = ap neg_part e in
            let same = (addresses_equal-canonical current.addresses request.addresses).0 equal in
            record {
              device = refl;
              host = refl;
              within = omega arith;
              moves = inr (
                e,
                renewed
                    ∙ ap ok (ap canonical_addresses a ∙ sym same)
                    ∙ sym (address_set_scanned row current s),
              );
            }
      ]

  -- After an UPDATE that keeps devices a row has a successor if the change makes one of it.
  unfoldable pub Follows : ℕ → Bytes → IntentRow → List IntentRow → Type 0
  Follows k id before rows =
      (after : IntentRow) × (find_intent id rows ≡ some after) × Successor k before after

  pub update-Follows :
      (k : ℕ) (id : Bytes) (test : IntentRow → Bool) (change : IntentRow → IntentRow)
      (rows : List IntentRow) (row : IntentRow)
      → ((r : IntentRow) → (change r).device_id ≡ r.device_id)
      → find_intent id rows ≡ some row
      → (test row ≡ true → Successor k row (change row))
      → Follows k id row (update_intents test change rows)
  unfolding Follows
  update-Follows k id test change rows row keeps found s = elim (Bool-cases (test row)) [
    | inl e ↦ (
      change row,
      find_intent-update_intents id test change rows keeps ∙ rw found (ap some (ground arith)),
      s e,
    )
    | inr e ↦ (
      row,
      find_intent-update_intents id test change rows keeps ∙ rw found (ap some (ground arith)),
      Successor-refl k row,
    )
  ]

  pub unchanged-Follows :
      (k : ℕ) (id : Bytes) (rows : List IntentRow) (row : IntentRow)
      → find_intent id rows ≡ some row
      → Follows k id row rows
  unfolding Follows
  unchanged-Follows k id rows row found = (row, found, Successor-refl k row)

  pub Follows-trans :
      (j k : ℕ) (id : Bytes) (row : IntentRow) (rows rows' : List IntentRow)
      → Follows j id row rows
      → ((next : IntentRow)
          → find_intent id rows ≡ some next
          → Successor j row next
          → Follows k id next rows')
      → Follows (j + k) id row rows'
  unfolding Follows
  Follows-trans j k id row rows rows' (next, found, s) more =
      let (last, found', s') = more next found s in
      (last, found', Successor-trans j k row next last s s')

  pub Follows-more :
      (j k : ℕ) (id : Bytes) (row : IntentRow) (rows : List IntentRow)
      → Follows j id row rows
      → Follows (j + k) id row rows
  unfolding Follows
  Follows-more j k id row rows (next, found, s) =
      (next, found, Successor-trans j k row next next s (Successor-refl k next))

  -- The row that an intent was scanned from is the row that the intent's UPDATE writes to.
  pub same_row :
      (id : Bytes) (rows : List IntentRow) (row : IntentRow) (device : Bytes) (current : Intent)
      → find_intent id rows ≡ some row
      → scan_found platform (find_intent device rows) ≡ ok (some current)
      → bytes_eq row.device_id current.device_id ≡ true
      → scan_intent platform row ≡ ok current
  same_row id rows row device current found scanned here =
      let (r, f, s) = scan_found_ok platform (find_intent device rows) current scanned in
      let (_, d, _, _, _) = scan_intent_ok platform r current s in
      let at_r = find_intent_sound device rows f in
      let at_row = find_intent_sound id rows found in
      let one : device ≡ id =
        sym at_r ∙ sym d ∙ sym (bytes_eq_sound row.device_id current.device_id here) ∙ at_row in
      let both : r ≡ row = some_inj (sym f ∙ ap (λ (i : Bytes). find_intent i rows) one ∙ found) in
      rw (← both) s
    where
      some_inj : {x y : IntentRow} → some x ≡ some y → x ≡ y
      some_inj p = cc
