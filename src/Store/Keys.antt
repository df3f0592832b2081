-- ===== src/Store/Keys.antt =====
-- The primary key of the intents table: no two rows have one device.
use mathlib.Core.Option
use nixos_kaiba_network.Prelude.{
  ◌≡◌, refl, sym, ap, ◌∙◌, Bool, true, false, ◌||◌, none, some, List, [], ◌∷◌, ◌++◌, All, All-map,
  arith, Bytes, bytes_eq, bytes_eq_sound, bytes_eq_refl, bytes_eq_sym, any, keep, Bool-cases, inl,
  inr, if◌then◌else◌, ok,
}
use nixos_kaiba_network.Store.Tables.{IntentRow, find_intent, update_intents, insert_intent}
use nixos_kaiba_network.Store.Rows.{
  change_if, find_intent-update_intents, find_intent-append, insert_intent_ok,
}

abbrev pub DistinctIds : List IntentRow → Type 0
DistinctIds [] = Unit
DistinctIds (row ∷ rows) = (find_intent row.device_id rows ≡ none) × DistinctIds rows

pub update-DistinctIds :
    (test : IntentRow → Bool) (change : IntentRow → IntentRow) (rows : List IntentRow)
    → ((row : IntentRow) → (change row).device_id ≡ row.device_id)
    → DistinctIds rows
    → DistinctIds (update_intents test change rows)
unfolding update_intents
update-DistinctIds test change [] keeps d = tt
update-DistinctIds test change (row ∷ rows) keeps d = (
  ap (λ id. find_intent id (update_intents test change rows)) same
      ∙ find_intent-update_intents row.device_id test change rows keeps
      ∙ ap (Option.map (change_if test change)) d.0,
  update-DistinctIds test change rows keeps d.1,
)
  where
    same : (change_if test change row).device_id ≡ row.device_id
    same = ground (arith, keeps row)

find_none_of_any :
    (id host : Bytes) (rows : List IntentRow)
    → any (λ row. bytes_eq row.device_id id || bytes_eq row.hostname host) rows ≡ false
    → find_intent id rows ≡ none
unfolding find_intent
find_none_of_any id host [] h = refl
find_none_of_any id host (row ∷ rows) h = ground (arith, find_none_of_any id host rows)

append-DistinctIds :
    (new : IntentRow) (rows : List IntentRow)
    → find_intent new.device_id rows ≡ none
    → DistinctIds rows
    → DistinctIds (rows ++ new ∷ [])
unfolding find_intent
append-DistinctIds new [] h d = (refl, tt)
append-DistinctIds new (row ∷ rows) h d = elim (Bool-cases (bytes_eq row.device_id new.device_id)) [
  | inl e ↦ absurd (ground arith)
  | inr e ↦ (
    rw (
      find_intent-append row.device_id rows new,
      d.0,
      bytes_eq_sym new.device_id row.device_id,
      e,
    ),
    append-DistinctIds new rows (rw e at h) d.1,
  )
]

pub insert-DistinctIds :
    (new : IntentRow) (rows : List IntentRow) {rows' : List IntentRow}
    → insert_intent new rows ≡ ok rows'
    → DistinctIds rows
    → DistinctIds rows'
unfolding insert_intent
insert-DistinctIds new rows h d =
    let absent = find_none_of_any new.device_id new.hostname rows (ground arith) in
    rw (insert_intent_ok new rows h) (append-DistinctIds new rows absent d)

module _ (r : IntentRow) (test : IntentRow → Bool) where
  any-keep_absent :
      (rows : List IntentRow)
      → find_intent r.device_id rows ≡ none
      → any (λ s. bytes_eq r.device_id s.device_id) (keep test rows) ≡ false
  unfolding find_intent
  any-keep_absent [] h = refl
  any-keep_absent (s ∷ rows) h = elim (Bool-cases (bytes_eq r.device_id s.device_id)) [
    | inl e ↦ ground (arith, bytes_eq_sound r.device_id s.device_id e, bytes_eq_refl s.device_id)
    | inr e ↦ ground (arith, any-keep_absent rows)
  ]

  -- Among the kept rows a device is found exactly when its own row was kept.
  pub any-keep :
      (rows : List IntentRow)
      → DistinctIds rows
      → find_intent r.device_id rows ≡ some r
      → any (λ s. bytes_eq r.device_id s.device_id) (keep test rows) ≡ test r
  unfolding find_intent
  any-keep [] d h = cc
  any-keep (s ∷ rows) d h = elim (Bool-cases (bytes_eq s.device_id r.device_id)) [
    | inl e ↦
        let same : s ≡ r = ground arith in
        let absent : find_intent r.device_id rows ≡ none =
          ap (λ (row : IntentRow). find_intent row.device_id rows) (sym same) ∙ d.0 in
        let back = bytes_eq_sym r.device_id s.device_id ∙ e in
        ground (arith, any-keep_absent rows absent, ap test same)
    | inr e ↦ ground (arith, bytes_eq_sym r.device_id s.device_id, any-keep rows d.1)
  ]

module _ (r : IntentRow) where
  absent_elsewhere :
      (rows : List IntentRow)
      → find_intent r.device_id rows ≡ none
      → All (λ s. bytes_eq r.device_id s.device_id ≡ true → s ≡ r) rows
  unfolding find_intent
  absent_elsewhere [] h = tt
  absent_elsewhere (s ∷ rows) h = elim (Bool-cases (bytes_eq s.device_id r.device_id)) [
    | inl e ↦ absurd (ground arith)
    | inr e ↦ (
      λ f. let back = bytes_eq_sym r.device_id s.device_id in cc,
      absent_elsewhere rows (rw e at h),
    )
  ]

  -- A row with the device of a row that a lookup finds is that row.
  pub only_row :
      (rows : List IntentRow)
      → DistinctIds rows
      → find_intent r.device_id rows ≡ some r
      → All (λ s. bytes_eq r.device_id s.device_id ≡ true → s ≡ r) rows
  unfolding find_intent
  only_row [] d h = tt
  only_row (s ∷ rows) d h = elim (Bool-cases (bytes_eq s.device_id r.device_id)) [
    | inl e ↦
        let same : s ≡ r = ground arith in
        (
          λ f. same,
          absent_elsewhere rows
              (ap (λ (row : IntentRow). find_intent row.device_id rows) (sym same) ∙ d.0),
        )
    | inr e ↦
        (λ f. let back = bytes_eq_sym r.device_id s.device_id in cc, only_row rows d.1 (rw e at h))
  ]

-- Under the primary key a lookup finds every row.
pub finds_itself :
    (rows : List IntentRow)
    → DistinctIds rows
    → All (λ row. find_intent row.device_id rows ≡ some row) rows
unfolding find_intent
finds_itself [] d = tt
finds_itself (row ∷ rows) d =
    (rw (bytes_eq_refl row.device_id), All-map rows later (finds_itself rows d.1))
  where
    later :
        (s : IntentRow)
        → find_intent s.device_id rows ≡ some s
        → (if bytes_eq row.device_id s.device_id then some row else find_intent s.device_id rows)
          ≡ some s
    later s h = elim (Bool-cases (bytes_eq row.device_id s.device_id)) [
      | inl e ↦
          let gone = d.0 in
          let same = bytes_eq_sound row.device_id s.device_id e in
          let found = rw (← same) at h in absurd (ground arith)
      | inr e ↦ rw e h
    ]
