-- ===== src/Store/Leases/Bulk.antt =====
-- `ExpireLeases` reads the lapsed rows and then updates them one by one. The result is that of one
-- UPDATE over the rows that it has read.
use mathlib.Core.Path.{ap₂}
use nixos_kaiba_network.Prelude.{
  ◌≡◌, refl, sym, ap, ◌∙◌, subst, Bool, true, false, some, List, [], ◌∷◌, map, All, All-map,
  All-keep, arith, bytes_eq, any, keep, Bool-cases, Result-cases, inl, inr, if◌then◌else◌, ok,
  >>=-eq-ok,
}
use nixos_kaiba_network.Prelude.Int.{incr64}
use nixos_kaiba_network.Model.{Intent, Time, Platform}
use nixos_kaiba_network.Store.Tables.{
  IntentRow, Database, Faults, no_faults, begin_tx, select_rows, commit_tx, run_tx, find_intent,
  update_intents, select_intents, has_addresses, scan_intent,
}
use nixos_kaiba_network.Store.Rows.{change_if, scan_intent_ok}
use nixos_kaiba_network.Store.Keys.{DistinctIds, any-keep, only_row, finds_itself}
use nixos_kaiba_network.Store.Upsert.{expire_intent, is_row_of, write_expired}
use nixos_kaiba_network.Store.Leases.Tombstones.{
  tombstone, apply_writes, write_all-map, Matching, apply_writes_lem, any-sort, All-sort,
}
use nixos_kaiba_network.Store.Leases.Reads.{All-read_rows, ReadsWhole, read_rows-whole, is_reached}
use nixos_kaiba_network.Store.Leases.{
  is_lapsed, read_rows, write_all, scan_lapsed, expire_tx, expire_leases,
}

module _ (platform : Platform) (now : Time) where
  -- The intents that the loop collects, seen from one row.
  abbrev Collects : IntentRow → List IntentRow → List Intent → Type 0
  Collects row rows expired =
      (any (λ intent. is_row_of intent row) expired
        ≡ any (λ s. bytes_eq row.device_id s.device_id) rows)
      × Matching now row expired

  Collects-cons :
      (row s : IntentRow) (rows : List IntentRow) (intent : Intent) (rest : List Intent)
      → intent.device_id ≡ s.device_id
      → intent.generation ≡ s.generation
      → (bytes_eq row.device_id s.device_id ≡ true → s ≡ row)
      → Collects row rows rest
      → Collects row (s ∷ rows) (expire_intent now intent ∷ rest)
  unfolding expire_intent
  Collects-cons row s rows intent rest id generation only (anys, alls) =
      rw (id, anys)
        (
          refl,
          (
            λ f. (ap incr64 (generation ∙ ap (λ (r : IntentRow). r.generation) (only f)), refl),
            alls,
          ),
        )

  scan_lapsed-Collects :
      (row : IntentRow) (rows : List IntentRow) {expired : List Intent}
      → scan_lapsed platform now rows ≡ ok expired
      → All (λ s. bytes_eq row.device_id s.device_id ≡ true → s ≡ row) rows
      → Collects row rows expired
  unfolding scan_lapsed
  scan_lapsed-Collects row [] {expired} h m = let e : expired ≡ [] = cc in rw e (refl, tt)
  scan_lapsed-Collects row (s ∷ rows) {expired} h m =
      let (intent, scanned, h') = >>=-eq-ok (scan_intent platform s) _ h in
      let (rest, more, h'') = >>=-eq-ok (scan_lapsed platform now rows) _ h' in
      let e : expired ≡ expire_intent now intent ∷ rest = cc in
      let (_, id, _, generation, _) = scan_intent_ok platform s intent scanned in
      subst (Collects row (s ∷ rows)) (sym e) (
        Collects-cons row s rows intent rest id generation m.0
          (scan_lapsed-Collects row rows more m.1))

  -- What the loop does to a row of the table.
  apply_writes-row :
      (faults : Faults) (rows : List IntentRow) (row : IntentRow) {expired : List Intent}
      → DistinctIds rows
      → find_intent row.device_id rows ≡ some row
      → scan_lapsed platform now (read_rows faults (select_intents (is_lapsed now) rows))
        ≡ ok expired
      → apply_writes expired row ≡ change_if (is_reached now faults rows) (tombstone now) row
  unfolding select_intents is_reached
  apply_writes-row faults rows row {expired} d found scanned =
      let mine = All-keep _ (is_lapsed now) rows (only_row row rows d found) in
      let (anys, alls) =
        scan_lapsed-Collects row _ scanned
          (All-read_rows _ faults _ (All-sort _ _ (keep (is_lapsed now) rows) mine)) in
      apply_writes_lem now row expired alls
      ∙ ap (λ (b : Bool). if b then tombstone now row else row) anys

  map-update_of_All :
      (f : IntentRow → IntentRow) (test : IntentRow → Bool) (change : IntentRow → IntentRow)
      (rows : List IntentRow)
      → All (λ row. f row ≡ change_if test change row) rows
      → map f rows ≡ update_intents test change rows
  unfolding update_intents
  map-update_of_All f test change [] h = refl
  map-update_of_All f test change (row ∷ rows) h =
      ap₂ ◌∷◌ h.0 (map-update_of_All f test change rows h.1)

  -- The two loops that a successful call has run.
  expire_tx_ok :
      (faults : Faults) (db : Database) (expired : List Intent)
      → (run_tx db (expire_tx platform faults db now)).1 ≡ ok expired
      → (intents : List IntentRow) × (scan_lapsed platform now
            (read_rows faults (select_intents (is_lapsed now) db.intents))
          ≡ ok expired)
        × (write_all faults expired db.intents ≡ ok intents)
        × ((run_tx db (expire_tx platform faults db now)).0 ≡ record db { intents = intents })
  unfolding expire_tx run_tx
  expire_tx_ok faults db expired h = elim (Bool-cases (faults begin_tx)) [
    | inl f ↦ let h' = rw f at h in absurd (cc)
    | inr f ↦ elim (Bool-cases (faults select_rows)) [
      | inl g ↦ let h' = rw (f, g) at h in absurd (cc)
      | inr g ↦
          elim (Result-cases (
            scan_lapsed platform now
              (read_rows faults (select_intents (is_lapsed now) db.intents)))) [
                | inr (e, s) ↦ let h' = rw (f, g, s) at h in absurd (cc)
                | inl (found, s) ↦ elim (Result-cases (write_all faults found db.intents)) [
                  | inr (e, w) ↦ let h' = rw (f, g, s, w) at h in absurd (cc)
                  | inl (intents, w) ↦ elim (Bool-cases (faults commit_tx)) [
                    | inl c ↦ let h' = rw (f, g, s, w, c) at h in absurd (cc)
                    | inr c ↦
                        let h' = rw (f, g, s, w, c) at h in
                        let same : found ≡ expired = ground arith in
                        (
                          intents,
                          s ∙ ap ok same,
                          sym (ap (λ l. write_all faults l db.intents) same) ∙ w,
                          rw (f, g, s, w, c),
                        )
                  ]
                ]
              ]
    ]
  ]

  -- If a call of `ExpireLeases` succeeds on a table with its primary key intact, then the table
  -- afterwards is the table before with every row that the call came to, and no other, turned into
  -- its tombstone: no address, the next generation, `now` as its time, no publication error. The
  -- rows that it comes to are the lapsed ones by device, up to the first step of the read that
  -- fails: the success does not tell whether one did.
  pub expire_leases-reached :
      (faults : Faults) (db : Database) (expired : List Intent)
      → DistinctIds db.intents
      → (expire_leases platform faults db now).1 ≡ ok expired
      → (expire_leases platform faults db now).0 ≡ record db {
        intents = update_intents (is_reached now faults db.intents) (tombstone now) db.intents;
      }
  unfolding expire_leases
  expire_leases-reached faults db expired d h =
      let (intents, scanned, wrote, after) = expire_tx_ok faults db expired h in
      let rows =
        All-map db.intents (λ row found. apply_writes-row faults db.intents row d found scanned)
          (finds_itself db.intents d) in
      after
      ∙ ap (λ (l : List IntentRow). record db { intents = l })
          (write_all-map faults expired db.intents wrote
            ∙ map-update_of_All (apply_writes expired) (is_reached now faults db.intents)
                (tombstone now) db.intents rows)

  is_reached-is_lapsed :
      (faults : Faults) (rows : List IntentRow) (row : IntentRow)
      → ReadsWhole faults
      → DistinctIds rows
      → find_intent row.device_id rows ≡ some row
      → is_reached now faults rows row ≡ is_lapsed now row
  unfolding is_reached select_intents
  is_reached-is_lapsed faults rows row whole d found =
      ap (any (λ s. bytes_eq row.device_id s.device_id)) (read_rows-whole faults _ whole)
      ∙ any-sort _ _ (keep (is_lapsed now) rows)
      ∙ any-keep row (is_lapsed now) rows d found

  update_intents-same :
      (test other : IntentRow → Bool) (change : IntentRow → IntentRow) (rows : List IntentRow)
      → All (λ row. test row ≡ other row) rows
      → update_intents test change rows ≡ update_intents other change rows
  unfolding update_intents
  update_intents-same test other change [] h = refl
  update_intents-same test other change (row ∷ rows) h =
      ap₂ ◌∷◌ (ap (λ (b : Bool). if b then change row else row) h.0)
        (update_intents-same test other change rows h.1)

  -- If a call of `ExpireLeases` succeeds on a table with its primary key intact, and no step of its
  -- read fails, then the table afterwards is the table before with every lapsed row, and no other,
  -- turned into its tombstone: no address, the next generation, `now` as its time, no publication
  -- error.
  pub expire_leases-update :
      (faults : Faults) (db : Database) (expired : List Intent)
      → ReadsWhole faults
      → DistinctIds db.intents
      → (expire_leases platform faults db now).1 ≡ ok expired
      → (expire_leases platform faults db now).0
        ≡ record db { intents = update_intents (is_lapsed now) (tombstone now) db.intents }
  expire_leases-update faults db expired whole d h =
      expire_leases-reached faults db expired d h
      ∙ ap (λ (l : List IntentRow). record db { intents = l })
          (update_intents-same (is_reached now faults db.intents) (is_lapsed now) (tombstone now)
            db.intents
            (All-map db.intents
              (λ row found. is_reached-is_lapsed faults db.intents row whole d found)
              (finds_itself db.intents d)))

  is_lapsed-tombstone : (row : IntentRow) → is_lapsed now (tombstone now row) ≡ false
  unfolding is_lapsed tombstone has_addresses
  is_lapsed-tombstone row = ground arith

  pub none_lapsed :
      (rows : List IntentRow)
      → All (λ row. is_lapsed now row ≡ false) (update_intents (is_lapsed now) (tombstone now) rows)
  unfolding update_intents
  none_lapsed [] = tt
  none_lapsed (row ∷ rows) = elim (Bool-cases (is_lapsed now row)) [
    | inl e ↦ rw e (is_lapsed-tombstone row, none_lapsed rows)
    | inr e ↦ rw e (e, none_lapsed rows)
  ]

  -- Every stored address set decodes.
  abbrev pub Decodes : IntentRow → Type 0
  Decodes row = (intent : Intent) × (scan_intent platform row ≡ ok intent)

  scan_lapsed_total :
      (rows : List IntentRow)
      → All Decodes rows
      → (expired : List Intent) × (scan_lapsed platform now rows ≡ ok expired)
  unfolding scan_lapsed
  scan_lapsed_total [] d = ([], refl)
  scan_lapsed_total (row ∷ rows) d =
      let (rest, e) = scan_lapsed_total rows d.1 in (expire_intent now d.0.0 ∷ rest, rw (d.0.1, e))

  write_all_total :
      (expired : List Intent) (rows : List IntentRow)
      → (rows' : List IntentRow) × (write_all no_faults expired rows ≡ ok rows')
  unfolding write_all
  write_all_total [] rows = (rows, refl)
  write_all_total (intent ∷ more) rows = write_all_total more (write_expired intent rows)

  -- Where SQLite does not fail, the primary key is intact and every stored address set decodes,
  -- `ExpireLeases` succeeds, and no row of the table is lapsed afterwards.
  pub expire_leases_total :
      (db : Database)
      → DistinctIds db.intents
      → All Decodes db.intents
      → let (after, result) = expire_leases platform no_faults db now in
        ((expired : List Intent) × (result ≡ ok expired))
        × All (λ row. is_lapsed now row ≡ false) after.intents
  unfolding expire_leases
  expire_leases_total db distinct d =
      let (expired, s) =
        scan_lapsed_total (read_rows no_faults (select_intents (is_lapsed now) db.intents)) (
          unfold select_intents in
          All-read_rows Decodes no_faults _
            (All-sort _ _ _ (All-keep Decodes (is_lapsed now) db.intents d))) in
      let (rows', w) = write_all_total expired db.intents in
      let succeeds : (run_tx db (expire_tx platform no_faults db now)).1 ≡ ok expired =
        unfold expire_tx run_tx in rw (s, w) in
      (
        (expired, succeeds),
        subst (λ (after : Database). All (λ row. is_lapsed now row ≡ false) after.intents)
            (sym (expire_leases-update no_faults db expired (λ id. refl) distinct succeeds))
            (none_lapsed db.intents),
      )
