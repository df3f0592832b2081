-- ===== src/Controller/Writes.antt =====
-- What a write of the device API lets through to the store.
use nixos_kaiba_network.Prelude.{
  ◌≡◌, refl, Bool, true, false, not, ◌||◌, ◌&&◌, ◌⊎◌, inl, inr, Option, none, some, List, [], ◌∷◌,
  All, All-map, arith, codes, bytes_eq, leb, length, ◌==◌, Bool-cases, Result-cases, if◌then◌else◌,
  Result, ok, err, >>=-eq-ok,
}
use nixos_kaiba_network.Prelude.Sorted.{elem}
use nixos_kaiba_network.Net.{Addr, invalid, v4, v6, is_valid, is4, is4in6, unmap, addr_order}
use nixos_kaiba_network.Model.{Platform, Time, canonical_addresses}
use nixos_kaiba_network.Model.Canonical.{IsValid, All-canonical}
use nixos_kaiba_network.Address.{is_publicly_routable}
use nixos_kaiba_network.Api.{Address}
use nixos_kaiba_network.Store.{UpsertRequest}
use nixos_kaiba_network.Store.Tables.{Database, Faults}
use nixos_kaiba_network.Store.History.{upserts, step, run}
use nixos_kaiba_network.Store.Versions.Histories.{ValidCalls}
use nixos_kaiba_network.Controller.{
  Handler, WriteRequest, Response, write_error, one_document, or_respond, authentication_error,
  precondition_error, read_write, store_write, put_endpoints,
}
use nixos_kaiba_network.Controller.Asks.{read_write-Asks}
use nixos_kaiba_network.Controller.Request.{
  is_idempotency_key, parse_write_precondition, check_address, check_addresses, validate_addresses,
}

-- An address that a handler admits: a plain IP address, publicly routable unless the handler allows
-- any.
abbrev pub Admitted : Bool → Addr → Type 0
Admitted allow a =
    (is_valid a ≡ true) × (is4in6 a ≡ false) × ((allow || is_publicly_routable a) ≡ true)

pub unmap_plain : (a : Addr) → is4in6 a ≡ false → unmap a ≡ a
unfolding unmap is4in6
unmap_plain invalid h = refl
unmap_plain (v4 n) h = refl
unmap_plain (v6 n z) h = ground arith

module _ (platform : Platform) (allow : Bool) where
  check_address-Admitted :
      (seen : List Addr) (item : Address) (parsed : Option Addr) {a : Addr}
      → ((b : Addr) → parsed ≡ some b → is_valid b ≡ true)
      → check_address platform allow seen item parsed ≡ ok a
      → Admitted allow a
  unfolding check_address
  check_address-Admitted seen item none v h = cc
  check_address-Admitted seen item (some b) {a} v h = elim (Bool-cases (is4in6 b)) [
    | inl e ↦ let h' = rw e at h in absurd (cc)
    | inr e ↦
        elim (Bool-cases
          (not (bytes_eq item.family (if is4 b then codes "ipv4" else codes "ipv6")))) [
            | inl f ↦ let h' = rw (e, f) at h in absurd (cc)
            | inr f ↦ elim (Bool-cases (not allow && not (is_publicly_routable b))) [
              | inl g ↦ let h' = rw (e, f, g) at h in absurd (cc)
              | inr g ↦ elim (Bool-cases (elem b seen)) [
                | inl d ↦ let h' = rw (e, f, g, d) at h in absurd (cc)
                | inr d ↦
                    let h' = rw (e, f, g, d) at h in
                    let same : b ≡ a = ground arith in rw (← same) (v b refl, e, ground arith)
              ]
            ]
          ]
  ]

  check_addresses-Admitted :
      (seen : List Addr) (items : List Address) {addresses : List Addr}
      → check_addresses platform allow seen items ≡ ok addresses
      → All (Admitted allow) addresses
  unfolding check_addresses
  check_addresses-Admitted seen [] {addresses} h = let e : addresses ≡ [] = cc in rw e tt
  check_addresses-Admitted seen (item ∷ items) {addresses} h =
      let (a, c, h') =
        >>=-eq-ok (check_address platform allow seen item (platform.parse_addr item.address)) _ h in
      let (rest, r, h'') = >>=-eq-ok (check_addresses platform allow (a ∷ seen) items) _ h' in
      let split : addresses ≡ a ∷ rest = cc in
      rw split (
        check_address-Admitted seen item (platform.parse_addr item.address)
            (λ b p. platform.parse_valid item.address b p) c,
        check_addresses-Admitted (a ∷ seen) items r,
      )

  -- If `validateAddresses` accepts a list, then the list has 1 to 32 items, and every address of
  -- the result is a valid IP address, is not an IPv4-mapped IPv6 address, and is publicly routable
  -- unless the handler allows others.
  pub validate_addresses-Admitted :
      (input : List Address) (addresses : List Addr)
      → validate_addresses platform allow input ≡ ok addresses
      → (leb 1 (length input) ≡ true)
        × (leb (length input) 32 ≡ true)
        × All (Admitted allow) addresses
  unfolding validate_addresses
  validate_addresses-Admitted input addresses h = elim (Bool-cases (length input == 0)) [
    | inl e ↦ let h' = rw e at h in absurd (cc)
    | inr e ↦ elim (Bool-cases (not (leb (length input) 32))) [
      | inl f ↦ let h' = rw (e, f) at h in absurd (cc)
      | inr f ↦
          let h' = rw (e, f) at h in
          let (found, c, h'') = >>=-eq-ok (check_addresses platform allow [] input) _ h' in
          let same : addresses ≡ canonical_addresses found = ground arith in
          (
            ground arith,
            ground arith,
            rw same (
                All-canonical (Admitted allow) found (
                  All-map found (λ a admitted. rw (unmap_plain a admitted.1) admitted)
                    (check_addresses-Admitted [] input c))),
          )
    ]
  ]

-- A store request at another time.
abbrev pub retimed : Time → Result Response UpsertRequest → Result Response UpsertRequest
retimed later (ok upsert) = ok (record upsert { now = later })
retimed later (err response) = err response

module _ (platform : Platform) (h : Handler) where
  pub read_write-IsValid :
      (request : WriteRequest) (now : Time) (upsert : UpsertRequest)
      → read_write platform h request now ≡ ok upsert
      → All IsValid upsert.addresses
  read_write-IsValid request now upsert e =
      let (payload, _, accepted) = (read_write-Asks platform h request now upsert e).payload in
      let (_, _, all) =
        validate_addresses-Admitted platform h.allow_non_global_addresses payload.addresses
          upsert.addresses accepted in
      All-map upsert.addresses (λ a admitted. admitted.0) all

  -- Another time changes nothing but the time in what a write asks of the store.
  pub read_write-at :
      (request : WriteRequest) (now later : Time)
      → read_write platform h request later ≡ retimed later (read_write platform h request now)
  unfolding read_write
  read_write-at request now later =
      elim (Result-cases (or_respond authentication_error request.device)) [
        | inr (e, d) ↦ rw d refl
        | inl (device, d) ↦ elim (Bool-cases (not (is_idempotency_key request.idempotency_key))) [
          | inl k ↦ rw (d, k) refl
          | inr k ↦ elim (Result-cases (one_document request.body)) [
            | inr (e, b) ↦ rw (d, k, b) refl
            | inl (payload, b) ↦
                elim (Result-cases (
                  or_respond (λ error. write_error 400 (codes "invalid_addresses"))
                    (validate_addresses platform h.allow_non_global_addresses payload.addresses))) [
                      | inr (e, v) ↦ rw (d, k, b, v) refl
                      | inl (addresses, v) ↦
                          elim (Result-cases (
                            or_respond precondition_error
                              (parse_write_precondition request.if_match request.if_none_match))) [
                                | inr (e, p) ↦ rw (d, k, b, v, p) refl
                                | inl (precondition, p) ↦ rw (d, k, b, v, p) refl
                              ]
                    ]
          ]
        ]
      ]

  -- Whatever a device sends, a write leaves the tables as they were or makes one `UpsertIntent`
  -- call on them, at the handler's time, with valid addresses only.
  pub put_endpoints-Call :
      (faults : Faults) (db : Database) (request : WriteRequest) (now : Time)
      → ((put_endpoints platform h faults db request now).0 ≡ db)
        ⊎ ((upsert : UpsertRequest) × (read_write platform h request now ≡ ok upsert)
            × ValidCalls (upserts faults upsert ∷ [])
            × ((put_endpoints platform h faults db request now).0
                ≡ run platform db (upserts faults upsert ∷ [])))
  unfolding put_endpoints store_write run step
  put_endpoints-Call faults db request now =
      elim (Result-cases (read_write platform h request now)) [
        | inr (response, e) ↦ inl (rw e refl)
        | inl (upsert, e) ↦
            inr (upsert, e, (read_write-IsValid request now upsert e, tt), rw e refl)
      ]
