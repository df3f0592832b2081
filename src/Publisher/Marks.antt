-- ===== src/Publisher/Marks.antt =====
-- The generation check of the marks, against writes of the controller that come between the list
-- and the mark of a pass.
use nixos_kaiba_network.Prelude.{
  ◌*◌, ◌≡◌, sym, ap, ◌∙◌, true, inl, inr, some, List, arith, Bytes, length, ok,
}
use nixos_kaiba_network.Prelude.Int.{pos_part, neg_part, eq_ℤ_sound}
use nixos_kaiba_network.Model.{Intent, Platform, canonical_addresses}
use nixos_kaiba_network.Store.Tables.{IntentRow, Database, find_intent, scan_intent}
use nixos_kaiba_network.Store.Rows.{scan_intent_ok}
use nixos_kaiba_network.Store.Keys.{DistinctIds}
use nixos_kaiba_network.Store.Queries.{is_version}
use nixos_kaiba_network.Store.History.{Call, run}
use nixos_kaiba_network.Store.Versions.{address_set, address_set_scanned, HasRoom, Follows}
use nixos_kaiba_network.Store.Versions.Histories.{ValidCalls, generations_are_versions}

module _ (platform : Platform) where
  -- From a table with its primary key intact, suppose that a pass lists an intent from a device's
  -- row and that any calls with valid addresses follow, such as writes of the controller, before
  -- the pass marks it. If the mark then finds the row under the intent's generation, the row still
  -- has the hostname and the address set that the pass wrote to the DNS, as long as the
  -- generations fit in an int64.
  pub mark_is_current :
      (db : Database) (calls : List Call) (id : Bytes) (row later : IntentRow) (intent : Intent)
      → DistinctIds db.intents
      → ValidCalls calls
      → HasRoom platform (length calls * 2) row
      → find_intent id db.intents ≡ some row
      → scan_intent platform row ≡ ok intent
      → find_intent id (run platform db calls).intents ≡ some later
      → is_version intent.device_id intent.generation later ≡ true
      → (later.hostname ≡ intent.hostname)
        × (address_set platform later ≡ ok (canonical_addresses intent.addresses))
  unfolding is_version Follows
  mark_is_current db calls id row later intent distinct valid room found scanned found' here =
      let (after, f, s) =
        generations_are_versions platform db calls id row distinct valid found room in
      let same : after ≡ later = some_inj (sym f ∙ found') in
      let (_, _, h, g, _) = scan_intent_ok platform row intent scanned in
      let e = eq_ℤ_sound later.generation intent.generation (ground arith) ∙ g in
      let set = address_set_scanned platform row intent scanned in
      (
        ap (λ (r : IntentRow). r.hostname) (sym same) ∙ s.host ∙ sym h,
        elim s.moves [
          | inr (_, kept) ↦ ap (address_set platform) (sym same) ∙ kept ∙ set
          | inl more ↦
              let e' = ap (λ (r : IntentRow). r.generation) same ∙ e in
              absurd (let p = ap pos_part e' in let n = ap neg_part e' in omega arith)
        ],
      )
    where
      some_inj : {x y : IntentRow} → some x ≡ some y → x ≡ y
      some_inj p = cc
