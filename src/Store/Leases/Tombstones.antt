-- ===== src/Store/Leases/Tombstones.antt =====
-- What the loop of UPDATE statements of `ExpireLeases` does to one row.

use nixos_kaiba_network.Prelude.{
  ◌≡◌, refl, sym, ap, ◌∙◌, Bool, true, ◌||◌, some, List, [], ◌∷◌, map, All, arith, any, Bool-cases,
  inl, inr, if◌then◌else◌, ok,
}
use nixos_kaiba_network.Prelude.Int.{incr64}
use nixos_kaiba_network.Prelude.Sorted.{sort, insert}
use nixos_kaiba_network.Model.{Intent, Time}
use nixos_kaiba_network.Store.Tables.{IntentRow, Faults, update_row, update_intents}
use nixos_kaiba_network.Store.Rows.{change_if}
use nixos_kaiba_network.Store.Upsert.{expired_row, is_row_of, write_expired}
use nixos_kaiba_network.Store.Leases.{write_all}

-- A row with its lease realised at `now`.
unfoldable pub tombstone : Time → IntentRow → IntentRow
tombstone now row = record row {
  addresses_json = some [];
  generation = incr64 row.generation;
  updated_at_ns = now;
  last_publication_error = [];
}

-- What the loop of UPDATE statements does to one row.
unfoldable pub apply_writes : List Intent → IntentRow → IntentRow
apply_writes [] row = row
apply_writes (intent ∷ more) row =
    apply_writes more (change_if (is_row_of intent) (expired_row intent) row)

map-update :
    (f : IntentRow → IntentRow) (test : IntentRow → Bool) (change : IntentRow → IntentRow)
    (rows : List IntentRow)
    → map f (update_intents test change rows) ≡ map (λ row. f (change_if test change row)) rows
unfolding update_intents
map-update f test change [] = refl
map-update f test change (row ∷ rows) =
    ap (◌∷◌ (f (change_if test change row))) (map-update f test change rows)

map-id : (rows : List IntentRow) → map (λ row. row) rows ≡ rows
map-id [] = refl
map-id (row ∷ rows) = ap (◌∷◌ row) (map-id rows)

pub write_all-map :
    (faults : Faults) (expired : List Intent) (rows : List IntentRow) {rows' : List IntentRow}
    → write_all faults expired rows ≡ ok rows'
    → rows' ≡ map (apply_writes expired) rows
unfolding write_all apply_writes
write_all-map faults [] rows {rows'} h = let e : rows' ≡ rows = cc in e ∙ sym (map-id rows)
write_all-map faults (intent ∷ more) rows h =
    elim (Bool-cases (faults (update_row intent.device_id))) [
      | inl f ↦ absurd (ground arith)
      | inr f ↦
          write_all-map faults more (write_expired intent rows) (rw f at h)
          ∙ unfold write_expired in
            map-update (apply_writes more) (is_row_of intent) (expired_row intent) rows
    ]

-- Every intent for the device of `row` carries the values of the row's tombstone.
abbrev pub Matching : Time → IntentRow → List Intent → Type 0
Matching now row = All (λ intent.
    is_row_of intent row ≡ true
    → (intent.generation ≡ incr64 row.generation) × (intent.updated_at ≡ now))

apply_writes-tombstone :
    (now : Time) (row : IntentRow) (expired : List Intent)
    → Matching now row expired
    → apply_writes expired (tombstone now row) ≡ tombstone now row
unfolding apply_writes tombstone expired_row
apply_writes-tombstone now row [] m = refl
apply_writes-tombstone now row (intent ∷ more) m = elim (Bool-cases (is_row_of intent row)) [
  | inl e ↦
      let values = m.0 e in rw (e, values.0, values.1) (apply_writes-tombstone now row more m.1)
  | inr e ↦ rw e (apply_writes-tombstone now row more m.1)
]

expired_row-tombstone :
    (now : Time) (row : IntentRow) (intent : Intent)
    → intent.generation ≡ incr64 row.generation
    → intent.updated_at ≡ now
    → expired_row intent row ≡ tombstone now row
unfolding expired_row tombstone
expired_row-tombstone now row intent g u = rw (g, u)

pub apply_writes_lem :
    (now : Time) (row : IntentRow) (expired : List Intent)
    → Matching now row expired
    → apply_writes expired row
      ≡ (if any (λ intent. is_row_of intent row) expired then tombstone now row else row)
unfolding apply_writes
apply_writes_lem now row [] m = refl
apply_writes_lem now row (intent ∷ more) m = elim (Bool-cases (is_row_of intent row)) [
  | inl e ↦
      let values = m.0 e in
      rw e (
        ap (apply_writes more) (expired_row-tombstone now row intent values.0 values.1)
        ∙ apply_writes-tombstone now row more m.1)
  | inr e ↦ rw e (apply_writes_lem now row more m.1)
]

module _ (lt : IntentRow → IntentRow → Bool) where
  any-insert :
      (p : IntentRow → Bool) (x : IntentRow) (xs : List IntentRow)
      → any p (insert lt x xs) ≡ (p x || any p xs)
  unfolding insert
  any-insert p x [] = refl
  any-insert p x (y ∷ ys) = ground (arith, any-insert p x ys)

  pub any-sort : (p : IntentRow → Bool) (xs : List IntentRow) → any p (sort lt xs) ≡ any p xs
  unfolding sort
  any-sort p [] = refl
  any-sort p (x ∷ xs) = any-insert p x (sort lt xs) ∙ rw (any-sort p xs)

  module _ (P : IntentRow → Type 0) where
    All-insert : (x : IntentRow) (xs : List IntentRow) → P x → All P xs → All P (insert lt x xs)
    unfolding insert
    All-insert x [] p h = (p, tt)
    All-insert x (y ∷ ys) p h = elim (Bool-cases (lt x y)) [
      | inl e ↦ rw e (p, h)
      | inr e ↦ rw e (h.0, All-insert x ys p h.1)
    ]

    pub All-sort : (xs : List IntentRow) → All P xs → All P (sort lt xs)
    unfolding sort
    All-sort [] h = tt
    All-sort (x ∷ xs) h = All-insert x (sort lt xs) h.0 (All-sort xs h.1)
