-- ===== src/Controller/Status.antt =====
-- What a device reads of its own state, while leases run out.
use nixos_kaiba_network.Prelude.{
  ℕ, ◌<◌, ◌≡◌, refl, sym, ap, ◌∙◌, true, false, not, ◌&&◌, ◌⊎◌, inl, inr, Option, none, some, List,
  [], ◌∷◌, All, arith, Bytes, is_empty, Bool-cases, Result-cases, Result, ok, err, >>=-eq-ok,
}
use nixos_kaiba_network.Prelude.Sorted.{sort}
use nixos_kaiba_network.Net.{Addr}
use nixos_kaiba_network.Identity.{Device}
use nixos_kaiba_network.Model.{Intent, Platform, Time, canonical_addresses, dedup}
use nixos_kaiba_network.Api.{DeviceState, addresses_from_net_ip}
use nixos_kaiba_network.Store.Tables.{
  IntentRow, Database, Faults, select_intent, find_intent, has_addresses, decode_addresses,
  scan_intent, scan_found,
}
use nixos_kaiba_network.Store.Rows.{All-find_intent, scan_intent_ok, scan_found_ok}
use nixos_kaiba_network.Store.Keys.{DistinctIds}
use nixos_kaiba_network.Store.Upsert.{has_lapsed}
use nixos_kaiba_network.Store.Leases.{is_lapsed, expire_leases}
use nixos_kaiba_network.Store.Leases.Bulk.{expire_leases-update, none_lapsed}
use nixos_kaiba_network.Store.Leases.Reads.{ReadsWhole}
use nixos_kaiba_network.Store.Queries.{get_intent, or_not_found}
use nixos_kaiba_network.Controller.{
  Handler, AuthenticationError, write_state, authentication_error, read_error, device_state,
  respond_read, read_expired, status_after, get_status,
}

-- No addresses, or a lease that still runs.
abbrev pub IsLive : Time → Intent → Type 0
IsLive now intent = (intent.addresses ≡ []) ⊎ (now < intent.lease_expires_at)

no_addresses : (json : Option (List Bytes)) → has_addresses json ≡ false → json ≡ some []
unfolding has_addresses
no_addresses none h = cc
no_addresses (some []) h = refl
no_addresses (some (x ∷ xs)) h = cc

module _ (platform : Platform) where
  get_intent_ok :
      (faults : Faults) (db : Database) (id : Bytes) (intent : Intent)
      → get_intent platform faults db id ≡ ok intent
      → (row : IntentRow) × (find_intent id db.intents ≡ some row)
        × (scan_intent platform row ≡ ok intent)
  unfolding get_intent
  get_intent_ok faults db id intent h = elim (Bool-cases (faults select_intent)) [
    | inl f ↦ let h' = rw f at h in absurd (cc)
    | inr f ↦
        let h' = rw f at h in
        let (found, s, e) = >>=-eq-ok (scan_found platform (find_intent id db.intents)) _ h' in
        let some_found : found ≡ some intent = found_ok found intent e in
        scan_found_ok platform (find_intent id db.intents) intent (s ∙ ap ok some_found)
  ]
    where
      found_ok :
          (found : Option Intent) (i : Intent) → or_not_found platform found ≡ ok i → found ≡ some i
      found_ok none i e = cc
      found_ok (some j) i e = ap some (ground arith)

  scan-IsLive :
      (now : Time) (row : IntentRow) (intent : Intent)
      → is_lapsed now row ≡ false
      → scan_intent platform row ≡ ok intent
      → IsLive now intent
  unfolding is_lapsed
  scan-IsLive now row intent h s =
      let (d, _, _, _, l) = scan_intent_ok platform row intent s in
      elim (Bool-cases (has_lapsed now row.lease_expires_ns)) [
        | inr e ↦ inr (rw l (ground arith))
        | inl e ↦
            let none_here = no_addresses row.addresses_json (rw e at h) in
            inl (emptied row.addresses_json none_here intent d)
      ]
    where
      emptied :
          (json : Option (List Bytes))
          → json ≡ some []
          → (i : Intent) → decode_addresses platform json ≡ ok i.addresses
          → i.addresses ≡ []
      emptied json e i d = let d' = rw e at d in unfold decode_addresses in ground arith

  module _ (h : Handler) where
    respond_read-IsLive :
        (now : Time) (code : ℕ) (etag : Bytes) (state : DeviceState) (intent : Intent)
        → IsLive now intent
        → respond_read platform h (ok intent) ≡ write_state code etag state
        → (state.addresses ≡ []) ⊎ (now < state.lease_expires_at)
    unfolding respond_read device_state
    respond_read-IsLive now code etag state intent (inl e) r =
        let same : addresses_from_net_ip platform intent.addresses ≡ state.addresses =
          ground arith in
        inl (sym same ∙ rw e (unfold addresses_from_net_ip canonical_addresses sort dedup in refl))
    respond_read-IsLive now code etag state intent (inr l) r =
        let same : intent.lease_expires_at ≡ state.lease_expires_at = ground arith in
        inr (rw (← same) l)

    read_expired-IsLive :
        (expiring rereading : Faults) (db : Database) (id : Bytes) (now : Time) (code : ℕ)
        (etag : Bytes) (state : DeviceState)
        → ReadsWhole expiring
        → DistinctIds db.intents
        → (read_expired platform h rereading id (expire_leases platform expiring db now)).1
          ≡ write_state code etag state
        → (state.addresses ≡ []) ⊎ (now < state.lease_expires_at)
    unfolding read_expired
    read_expired-IsLive expiring rereading db id now code etag state whole distinct r =
        elim (Result-cases (expire_leases platform expiring db now).1) [
          | inr (e, x) ↦ absurd (let r' = rw x at r in cc)
          | inl (expired, x) ↦
              let after = (expire_leases platform expiring db now).0 in
              let r' = rw x at r in
              elim (Result-cases (get_intent platform rereading after id)) [
                | inr (e, g) ↦ absurd (let r'' = rw g at r' in unfold respond_read in ground arith)
                | inl (intent, g) ↦
                    let (row, f, s) = get_intent_ok rereading after id intent g in
                    let clear : All (λ row. is_lapsed now row ≡ false) after.intents =
                      rw
                        (ap (λ (d : Database). d.intents)
                          (expire_leases-update platform now expiring db expired whole distinct x))
                        (none_lapsed platform now db.intents) in
                    respond_read-IsLive now code etag state intent
                      (scan-IsLive now row intent
                        (All-find_intent (λ row. is_lapsed now row ≡ false) id after.intents f
                          clear)
                        s)
                      (rw g at r')
              ]
        ]

    -- On a table with its primary key intact, a status response never shows an address under a lease
    -- that had run out at the time of the request, unless a step of the read of `ExpireLeases`
    -- fails, and whatever else SQLite does: it shows no address, or the lease that it shows still
    -- runs.
    pub get_status-IsLive :
        (reading expiring rereading : Faults) (db : Database)
        (device : Result AuthenticationError Device) (now : Time) (code : ℕ) (etag : Bytes)
        (state : DeviceState)
        → ReadsWhole expiring
        → DistinctIds db.intents
        → (get_status platform h reading expiring rereading db device now).1
          ≡ write_state code etag state
        → (state.addresses ≡ []) ⊎ (now < state.lease_expires_at)
    unfolding get_status status_after
    get_status-IsLive reading expiring rereading db (err e) now code etag state whole distinct r =
        absurd (unfold authentication_error in ground arith)
    get_status-IsLive reading expiring rereading db (ok device) now code etag state whole distinct
          r =
        elim (Result-cases (get_intent platform reading db device.id)) [
          | inr (e, g) ↦ absurd (let r' = rw g at r in unfold read_error in ground arith)
          | inl (intent, g) ↦
              let r' = rw g at r in
              elim (Bool-cases
                (not (is_empty intent.addresses) && has_lapsed now intent.lease_expires_at)) [
                  | inl over ↦
                      read_expired-IsLive expiring rereading db device.id now code etag state whole
                        distinct (rw over at r')
                  | inr live ↦
                      respond_read-IsLive now code etag state intent (live_of intent live)
                        (rw live at r')
                ]
        ]
      where
        empty_of : (l : List Addr) → is_empty l ≡ true → l ≡ []
        empty_of [] p = refl
        empty_of (x ∷ xs) p = cc

        live_of :
            (i : Intent)
            → (not (is_empty i.addresses) && has_lapsed now i.lease_expires_at) ≡ false
            → IsLive now i
        live_of i p = elim (Bool-cases (is_empty i.addresses)) [
          | inl e ↦ inl (empty_of i.addresses e)
          | inr e ↦ inr (ground arith)
        ]
