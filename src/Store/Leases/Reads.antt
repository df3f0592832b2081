-- ===== src/Store/Leases/Reads.antt =====
-- The read of the lapsed rows in `ExpireLeases`, which may end before the last of them.
use nixos_kaiba_network.Prelude.{
  ◌≡◌, refl, ap, Bool, false, List, [], ◌∷◌, All, bytes_eq, any, Bytes, Bool-cases, inl, inr,
}
use nixos_kaiba_network.Model.{Time}
use nixos_kaiba_network.Store.Tables.{IntentRow, Faults, next_row, select_intents}
use nixos_kaiba_network.Store.Leases.{is_lapsed, read_rows}

pub All-read_rows :
    (P : IntentRow → Type 0) (faults : Faults) (rows : List IntentRow)
    → All P rows
    → All P (read_rows faults rows)
unfolding read_rows
All-read_rows P faults [] h = tt
All-read_rows P faults (row ∷ rows) h = elim (Bool-cases (faults (next_row row.device_id))) [
  | inl e ↦ rw e tt
  | inr e ↦ rw e (h.0, All-read_rows P faults rows h.1)
]

-- No step of a read fails.
abbrev pub ReadsWhole : Faults → Type 0
ReadsWhole faults = (id : Bytes) → faults (next_row id) ≡ false

pub read_rows-whole :
    (faults : Faults) (rows : List IntentRow) → ReadsWhole faults → read_rows faults rows ≡ rows
unfolding read_rows
read_rows-whole faults [] whole = refl
read_rows-whole faults (row ∷ rows) whole =
    rw (whole row.device_id) (ap (◌∷◌ row) (read_rows-whole faults rows whole))

-- The call comes to the row of a device: its lease has run out, and `rows.Next` gets there.
unfoldable pub is_reached : Time → Faults → List IntentRow → IntentRow → Bool
is_reached now faults rows row =
    any (λ s. bytes_eq row.device_id s.device_id)
      (read_rows faults (select_intents (is_lapsed now) rows))
