-- ===== src/Controller/Asks.antt =====
-- What a write of the device API asks of the store.
use nixos_kaiba_network.Prelude.{
  ◌≡◌, refl, true, not, ◌⊎◌, inl, inr, arith, codes, Result-cases, Result, ok, err, >>=-eq-ok,
  refuse_if-eq-ok,
}
use nixos_kaiba_network.Net.{addr_order}
use nixos_kaiba_network.Model.{Platform, Time}
use nixos_kaiba_network.Identity.{Device}
use nixos_kaiba_network.Store.Upsert.{upsert_intent}
use nixos_kaiba_network.Api.{EndpointRequest}
use nixos_kaiba_network.Store.{UpsertRequest}
use nixos_kaiba_network.Store.Tables.{Database, Faults}
use nixos_kaiba_network.Controller.{
  renew_after_seconds, Body, document, undecodable, trailing, Handler, WriteRequest, Response,
  write_error, one_document, or_respond, authentication_error, precondition_error, read_write,
  store_write, put_endpoints,
}
use nixos_kaiba_network.Controller.Request.{
  is_idempotency_key, parse_write_precondition, validate_addresses,
}

or_respond-ok :
    {E A : Type 0} (respond : E → Response) (m : Result E A) (a : A)
    → or_respond respond m ≡ ok a
    → m ≡ ok a
unfolding or_respond
or_respond-ok respond (ok b) a h = ground arith
or_respond-ok respond (err e) a h = absurd (cc)

one_document-ok :
    (body : Body) (payload : EndpointRequest)
    → one_document body ≡ ok payload
    → body ≡ document payload
unfolding one_document
one_document-ok undecodable payload h = absurd (cc)
one_document-ok (trailing p) payload h = absurd (cc)
one_document-ok (document p) payload h = ground arith

module _ (platform : Platform) (h : Handler) where
  -- What a request to the store has of the write that it is made for.
  pub record Asks (request : WriteRequest) (now : Time) (upsert : UpsertRequest) : Type 0 where
    pub device :
        (d : Device) × (request.device ≡ ok d)
        × (upsert.device_id ≡ d.id)
        × (upsert.hostname ≡ d.hostname)
    pub key :
        (upsert.idempotency_key ≡ request.idempotency_key)
        × (is_idempotency_key request.idempotency_key ≡ true)
    pub payload :
        (p : EndpointRequest) × (request.body ≡ document p)
        × (validate_addresses platform h.allow_non_global_addresses p.addresses
            ≡ ok upsert.addresses)
    pub precondition :
        parse_write_precondition request.if_match request.if_none_match ≡ ok upsert.precondition
    pub terms :
        (upsert.now ≡ now)
        × (upsert.lease_duration ≡ h.lease_duration)
        × (upsert.renew_after_seconds ≡ renew_after_seconds h)

  pub read_write-Asks :
      (request : WriteRequest) (now : Time) (upsert : UpsertRequest)
      → read_write platform h request now ≡ ok upsert
      → Asks request now upsert
  unfolding read_write
  read_write-Asks request now upsert e =
      let (device, d, e1) = >>=-eq-ok (or_respond authentication_error request.device) _ e in
      let (k, e2) = refuse_if-eq-ok (not (is_idempotency_key request.idempotency_key)) _ _ e1 in
      let (payload, b, e3) = >>=-eq-ok (one_document request.body) _ e2 in
      let (addresses, v, e4) =
        >>=-eq-ok
          (or_respond (λ error. write_error 400 (codes "invalid_addresses"))
            (validate_addresses platform h.allow_non_global_addresses payload.addresses))
          _ e3 in
      let (precondition, p, e5) =
        >>=-eq-ok
          (or_respond precondition_error
            (parse_write_precondition request.if_match request.if_none_match))
          _ e4 in
      let built : upsert ≡ record {
        device_id = device.id;
        hostname = device.hostname;
        addresses = addresses;
        idempotency_key = request.idempotency_key;
        precondition = precondition;
        now = now;
        lease_duration = h.lease_duration;
        renew_after_seconds = renew_after_seconds h;
      } =
        ground arith in
      rw built (record {
        device = (device, or_respond-ok _ request.device device d, refl, refl);
        key = (refl, ground arith);
        payload = (payload, one_document-ok request.body payload b, or_respond-ok _ _ addresses v);
        precondition = or_respond-ok _ _ precondition p;
        terms = (refl, refl, refl);
      })

  -- A write changes the tables only if the request names an authenticated device and a well-formed
  -- idempotency key, and its body is one document of addresses that `validateAddresses` accepts; and
  -- then by one `UpsertIntent` call alone, for this device under its hostname, this key, the
  -- addresses in canonical form, the precondition of the headers, the time of the request and the
  -- handler's lease and renewal interval.
  pub put_endpoints-Asks :
      (faults : Faults) (db : Database) (request : WriteRequest) (now : Time)
      → ((put_endpoints platform h faults db request now).0 ≡ db)
        ⊎ ((upsert : UpsertRequest) × Asks request now upsert
            × ((put_endpoints platform h faults db request now).0
                ≡ (upsert_intent platform faults db upsert).0))
  unfolding put_endpoints store_write
  put_endpoints-Asks faults db request now =
      elim (Result-cases (read_write platform h request now)) [
        | inr (response, e) ↦ inl (rw e refl)
        | inl (upsert, e) ↦ inr (upsert, read_write-Asks request now upsert e, rw e refl)
      ]
