-- ===== src/Store/Progress.antt =====
-- Publication progress: the order of a row's three generations, and the changes that keep it.
pub mod Histories
pub mod Pending
use nixos_kaiba_network.Prelude.{
  ℕ, suc, ◌+◌, ◌*◌, ◌≤◌, ◌≡◌, refl, sym, ap, ◌∙◌, Bool, true, false, ◌&&◌, not, ◌⊎◌, inl, inr,
  Option, none, some, List, [], ◌∷◌, ◌++◌, All, All-append, All-map, arith, Bytes, length, bytes_eq,
  Bool-cases, if◌then◌else◌, Result, ok, err, leb,
}
use nixos_kaiba_network.Prelude.Int.{
  ℤ, pos, pos_part, neg_part, ◌≤ℤ◌, ◌<ℤ◌, incr64, int64_max, incr64_parts, eq_ℤ, eq_ℤ_sound, leb_ℤ,
}
use nixos_kaiba_network.Model.{Intent, Time, Platform}
use nixos_kaiba_network.Store.{StoreError, UpsertRequest, UpsertResult}
use nixos_kaiba_network.Store.Tables.{
  IntentRow, Database, Faults, empty_database, update_status, find_intent, update_intents,
  scan_intent, scan_found,
}
use nixos_kaiba_network.Store.Rows.{
  All-update_intents, All-find_intent, insert_intent_ok, scan_intent_ok, scan_found_ok,
}
use nixos_kaiba_network.Store.Upsert.{
  expired_during_write, expire_intent, realized, realized_rows, expired_row, is_row_of,
  write_expired, next_intent, new_row, renewed_row, write_renewed, write_next, canonical_request,
  upsert_intent,
}
use nixos_kaiba_network.Store.Upsert.Outcome.{
  Outcome, refused, lapsed, replayed, written, upsert_intent-Outcome,
}
use nixos_kaiba_network.Store.Leases.{is_lapsed, expire_leases}
use nixos_kaiba_network.Store.Leases.Tombstones.{tombstone}
use nixos_kaiba_network.Store.Leases.Bulk.{expire_leases-update}
use nixos_kaiba_network.Store.Queries.{
  mark, is_version, mark_origin_applied, mark_publicly_observed, mark_publication_error,
}
use nixos_kaiba_network.Store.Keys.{DistinctIds}
use nixos_kaiba_network.Store.History.{
  Call, upserts, expires, applies, observes, reports, step, run,
}

-- 0 ≤ public ≤ origin ≤ generation, and 1 ≤ generation ≤ k.
pub record InOrder (k : ℕ) (row : IntentRow) : Type 0 where
  pub observed : pos 0 ≤ℤ row.public_observed_generation
  pub applied : row.public_observed_generation ≤ℤ row.origin_applied_generation
  pub desired : row.origin_applied_generation ≤ℤ row.generation
  pub positive : pos 1 ≤ℤ row.generation
  pub bounded : row.generation ≤ℤ pos k

pub InOrder-more : (j k : ℕ) (row : IntentRow) → InOrder j row → InOrder (j + k) row
InOrder-more j k row h = record {
  observed = h.observed;
  applied = h.applied;
  desired = h.desired;
  positive = h.positive;
  bounded = bounded_more row.generation h.bounded;
}
  where
    bounded_more : (g : ℤ) → g ≤ℤ pos j → g ≤ℤ pos (j + k)
    bounded_more g b = omega arith

-- A change that keeps the progress and moves the generation by 0 or 1.
abbrev pub Advances : IntentRow → IntentRow → Type 0
Advances before after =
    (after.public_observed_generation ≡ before.public_observed_generation)
    × (after.origin_applied_generation ≡ before.origin_applied_generation)
    × ((after.generation ≡ before.generation) ⊎ (after.generation ≡ incr64 before.generation))

moved :
    (k : ℕ) (g h : ℤ)
    → suc k ≤ int64_max
    → g ≤ℤ pos k
    → (h ≡ g) ⊎ (h ≡ incr64 g)
    → (g ≤ℤ h) × (h ≤ℤ pos (k + 1))
moved k g h room b (inl e) =
    let p = ap pos_part e in let n = ap neg_part e in (omega arith, omega arith)
moved k g h room b (inr e) =
    let up = incr64_parts g (below g b) in
    let p = ap pos_part e in let n = ap neg_part e in (omega arith, omega arith)
  where
    below : (g : ℤ) → g ≤ℤ pos k → g <ℤ pos int64_max
    below g b = omega arith

Advances-InOrder :
    (k : ℕ) (before after : IntentRow)
    → suc k ≤ int64_max
    → Advances before after
    → InOrder k before
    → InOrder (k + 1) after
Advances-InOrder k before after room (p, o, g) h =
    let (up, bound) = moved k before.generation after.generation room h.bounded g in
    let p' = ap pos_part p in
    let p'' = ap neg_part p in
    let o' = ap pos_part o in
    let o'' = ap neg_part o in
    let a = h.observed in
    let b = h.applied in
    let c = h.desired in
    let d = h.positive in
    record {
      observed = omega arith;
      applied = omega arith;
      desired = omega arith;
      positive = omega arith;
      bounded = bound;
    }

pub All-more : (j k : ℕ) (rows : List IntentRow) → All (InOrder j) rows → All (InOrder (j + k)) rows
All-more j k rows h = All-map rows (InOrder-more j k) h

pub All-two :
    (k : ℕ) (rows : List IntentRow) → All (InOrder (k + 1 + 1)) rows → All (InOrder (k + 2)) rows
All-two k rows h = let e : k + 2 ≡ k + 1 + 1 = omega arith in rw e h

-- An UPDATE of rows that advance.
pub update-InOrder :
    (k : ℕ) (test : IntentRow → Bool) (change : IntentRow → IntentRow) (rows : List IntentRow)
    → suc k ≤ int64_max
    → All (λ row. test row ≡ true → Advances row (change row)) rows
    → All (InOrder k) rows
    → All (InOrder (k + 1)) (update_intents test change rows)
unfolding update_intents
update-InOrder k test change [] room advances h = tt
update-InOrder k test change (row ∷ rows) room advances h = (
  elim (Bool-cases (test row)) [
    | inl e ↦ rw e (Advances-InOrder k row (change row) room (advances.0 e) h.0)
    | inr e ↦ rw e (InOrder-more k 1 row h.0)
  ],
  update-InOrder k test change rows room advances.1 h.1,
)

-- The UPDATE of `MarkOriginApplied` on the row that it names.
pub applied-InOrder :
    (k : ℕ) (device : Bytes) (generation : ℤ) (row : IntentRow)
    → is_version device generation row ≡ true
    → InOrder k row
    → InOrder k (record row { origin_applied_generation = generation; last_publication_error = [] })
unfolding is_version
applied-InOrder k device generation row here h =
    let e = eq_ℤ_sound row.generation generation (ground arith) in
    let p = ap pos_part e in
    let n = ap neg_part e in
    let a = h.applied in
    let b = h.desired in
    record {
      observed = h.observed;
      applied = omega arith;
      desired = omega arith;
      positive = h.positive;
      bounded = h.bounded;
    }

-- The UPDATE of `MarkPubliclyObserved` on the row that it names.
pub observed-InOrder :
    (k : ℕ) (device : Bytes) (generation : ℤ) (row : IntentRow)
    → (is_version device generation row && leb_ℤ generation row.origin_applied_generation) ≡ true
    → InOrder k row
    → InOrder k (record row { public_observed_generation = generation })
unfolding is_version
observed-InOrder k device generation row here h =
    let e = eq_ℤ_sound row.generation generation (ground arith) in
    let below : generation ≤ℤ row.origin_applied_generation = ground arith in
    let p = ap pos_part e in
    let n = ap neg_part e in
    let a = h.positive in
    record {
      observed = omega arith;
      applied = below;
      desired = h.desired;
      positive = h.positive;
      bounded = h.bounded;
    }
