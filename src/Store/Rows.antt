-- ===== src/Store/Rows.antt =====
-- Laws of the two tables: what a lookup finds after an UPDATE or an INSERT, and the round trips of
-- the address columns.
use mathlib.Core.Option
use nixos_kaiba_network.Prelude.{
  ◌≡◌, refl, Bool, true, ◌&&◌, Option, none, some, List, [], ◌∷◌, ◌++◌, map, arith, Bytes, bytes_eq,
  bytes_eq_sound, All, Bool-cases, Option-cases, >>=-eq-ok, inl, inr, if◌then◌else◌, ok,
}
use nixos_kaiba_network.Prelude.Int.{ℤ}
use nixos_kaiba_network.Net.{Addr}
use nixos_kaiba_network.Model.{Intent, Platform, canonical_addresses}
use nixos_kaiba_network.Model.Canonical.{IsValid, canonical-IsValid}
use nixos_kaiba_network.Store.Tables.{
  IntentRow, IdempotencyRow, find_intent, find_request, update_intents, insert_intent,
  insert_request, parse_all, encode_addresses, decode_addresses, scan_intent, scan_found,
  persist_intent, persisted_intent,
}

abbrev pub change_if : (IntentRow → Bool) → (IntentRow → IntentRow) → IntentRow → IntentRow
change_if test change row = if test row then change row else row

-- An UPDATE that keeps the device column acts on what a lookup finds.
pub find_intent-update_intents :
    (id : Bytes) (test : IntentRow → Bool) (change : IntentRow → IntentRow) (rows : List IntentRow)
    → ((row : IntentRow) → (change row).device_id ≡ row.device_id)
    → find_intent id (update_intents test change rows)
      ≡ Option.map (change_if test change) (find_intent id rows)
unfolding find_intent update_intents
find_intent-update_intents id test change [] keeps = refl
find_intent-update_intents id test change (row ∷ rows) keeps =
    ground (arith, keeps row, find_intent-update_intents id test change rows keeps)

pub find_intent_sound :
    (id : Bytes) (rows : List IntentRow) {row : IntentRow}
    → find_intent id rows ≡ some row
    → row.device_id ≡ id
unfolding find_intent
find_intent_sound id [] h = cc
find_intent_sound id (r ∷ rows) {row} h =
    ground (arith, bytes_eq_sound r.device_id id, find_intent_sound id rows {row = row})

pub find_intent-append :
    (id : Bytes) (rows : List IntentRow) (new : IntentRow)
    → find_intent id (rows ++ new ∷ []) ≡ elim (find_intent id rows) [
      | some row ↦ some row
      | none ↦ if bytes_eq new.device_id id then some new else none
    ]
unfolding find_intent
find_intent-append id [] new = refl
find_intent-append id (r ∷ rows) new = ground (arith, find_intent-append id rows new)

pub find_request-append :
    (id key : Bytes) (rows : List IdempotencyRow) (new : IdempotencyRow)
    → find_request id key (rows ++ new ∷ []) ≡ elim (find_request id key rows) [
      | some row ↦ some row
      | none ↦
          if bytes_eq new.device_id id && bytes_eq new.idempotency_key key then some new else none
    ]
unfolding find_request
find_request-append id key [] new = refl
find_request-append id key (r ∷ rows) new = ground (arith, find_request-append id key rows new)

-- The rows that an INSERT leaves.
pub insert_intent_ok :
    (new : IntentRow) (rows : List IntentRow) {rows' : List IntentRow}
    → insert_intent new rows ≡ ok rows'
    → rows' ≡ rows ++ new ∷ []
unfolding insert_intent
insert_intent_ok new rows h = ground arith

pub insert_request_ok :
    (new : IdempotencyRow) (rows : List IdempotencyRow) {rows' : List IdempotencyRow}
    → insert_request new rows ≡ ok rows'
    → rows' ≡ rows ++ new ∷ []
unfolding insert_request
insert_request_ok new rows h = ground arith

module _ (P : IntentRow → Type 0) where
  pub All-update_intents :
      (test : IntentRow → Bool) (change : IntentRow → IntentRow) (rows : List IntentRow)
      → ((row : IntentRow) → test row ≡ true → P row → P (change row))
      → All P rows
      → All P (update_intents test change rows)
  unfolding update_intents
  All-update_intents test change [] keeps h = tt
  All-update_intents test change (row ∷ rows) keeps h = elim (Bool-cases (test row)) [
    | inl e ↦ rw e (keeps row e h.0, All-update_intents test change rows keeps h.1)
    | inr e ↦ rw e (h.0, All-update_intents test change rows keeps h.1)
  ]

  pub All-find_intent :
      (id : Bytes) (rows : List IntentRow) {row : IntentRow}
      → find_intent id rows ≡ some row
      → All P rows
      → P row
  unfolding find_intent
  All-find_intent id [] h a = cc
  All-find_intent id (r ∷ rows) {row} h a = elim (Bool-cases (bytes_eq r.device_id id)) [
    | inl e ↦ let same : r ≡ row = ground arith in rw same at a.0
    | inr e ↦ All-find_intent id rows (ground arith) a.1
  ]

module _ (platform : Platform) where
  open platform use {parse_addr, addr_string, parse-string, parse_valid}

  pub parse_all-string :
      (addresses : List Addr)
      → All IsValid addresses
      → parse_all platform (map addr_string addresses) ≡ ok addresses
  unfolding parse_all
  parse_all-string [] h = refl
  parse_all-string (a ∷ rest) h = ground (arith, parse-string a h.0, parse_all-string rest h.1)

  pub parse_all-IsValid :
      (values : List Bytes) {addresses : List Addr}
      → parse_all platform values ≡ ok addresses
      → All IsValid addresses
  unfolding parse_all
  parse_all-IsValid [] {addresses} h = let e : addresses ≡ [] = cc in rw e tt
  parse_all-IsValid (v ∷ values) {addresses} h = elim (Option-cases (parse_addr v)) [
    | inl e ↦ ground arith
    | inr (a, e) ↦
        let (rest, er, h') = >>=-eq-ok (parse_all platform values) _ (rw (e, parse_all) at h) in
        let split : addresses ≡ a ∷ rest = cc in
        rw split (parse_valid v a e, parse_all-IsValid values er)
  ]

  -- A stored set of valid addresses reads back in canonical form.
  pub decode-encode :
      (addresses : List Addr)
      → All IsValid addresses
      → decode_addresses platform (encode_addresses platform addresses)
        ≡ ok (canonical_addresses addresses)
  unfolding decode_addresses encode_addresses
  decode-encode addresses h =
      parse_all-string (canonical_addresses addresses) (canonical-IsValid addresses h)

  -- A persisted response reads back as the intent that was persisted, if its addresses are valid
  -- and in canonical form.
  pub persisted_intent-persist_intent :
      (intent : Intent) (renew_after_seconds : ℤ)
      → All IsValid intent.addresses
      → canonical_addresses intent.addresses ≡ intent.addresses
      → persisted_intent platform (persist_intent platform intent renew_after_seconds) ≡ ok intent
  unfolding persisted_intent persist_intent
  persisted_intent-persist_intent intent renew_after_seconds v c =
      rw (c, parse_all-string intent.addresses v)

  -- What a scanned intent takes from its row.
  pub scan_intent_ok :
      (row : IntentRow) (intent : Intent)
      → scan_intent platform row ≡ ok intent
      → (decode_addresses platform row.addresses_json ≡ ok intent.addresses)
        × (intent.device_id ≡ row.device_id)
        × (intent.hostname ≡ row.hostname)
        × (intent.generation ≡ row.generation)
        × (intent.lease_expires_at ≡ row.lease_expires_ns)
  unfolding scan_intent
  scan_intent_ok row intent h =
      let (addresses, d, e) = >>=-eq-ok (decode_addresses platform row.addresses_json) _ h in
      ground arith

  pub scan_found_ok :
      (found : Option IntentRow) (current : Intent)
      → scan_found platform found ≡ ok (some current)
      → (row : IntentRow) × (found ≡ some row) × (scan_intent platform row ≡ ok current)
  unfolding scan_found
  scan_found_ok none current h = cc
  scan_found_ok (some row) current h =
      let (intent, s, e) = >>=-eq-ok (scan_intent platform row) _ h in (row, refl, ground arith)
