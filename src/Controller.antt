-- ===== src/Controller.antt =====
-- dns/internal/controller/controller.go: the two handlers of the device API over the store.
pub mod Request
pub mod Accepted
pub mod Trimming
pub mod Etags
pub mod Asks
pub mod Writes
pub mod Status
use nixos_kaiba_network.Prelude.{
  ℕ, ◌/◌, Bool, true, false, not, ◌||◌, ◌&&◌, ◌==◌, Option, none, some, List, [], ◌∷◌, Bytes, codes,
  is_empty, if◌then◌else◌, Result, ok, err, ◌>>=◌, ◌>>◌, refuse_if, ltb, leb,
}
use nixos_kaiba_network.Prelude.Int.{ℤ, pos, pos_part, leb_ℤ}
use nixos_kaiba_network.Net.{Addr}
pub use nixos_kaiba_network.Identity.{AuthenticationError, denied, unavailable, unauthenticated}
use nixos_kaiba_network.Identity.{Device}
use nixos_kaiba_network.Model.{Intent, Time, Platform, status}
use nixos_kaiba_network.Api.{
  Address, EndpointRequest, DeviceState, generation_etag, addresses_from_net_ip,
}
use nixos_kaiba_network.Store.{
  StoreError, not_found, idempotency_conflict, precondition_required, precondition_failed,
  IntentPrecondition, UpsertRequest, UpsertResult,
}
use nixos_kaiba_network.Store.Tables.{Database, Faults}
use nixos_kaiba_network.Store.Upsert.{has_lapsed, upsert_intent}
use nixos_kaiba_network.Store.Leases.{expire_leases}
use nixos_kaiba_network.Store.Queries.{get_intent}
use nixos_kaiba_network.Controller.Request.{
  is_idempotency_key, PreconditionError, precondition_is_required, parse_write_precondition,
  AddressError, validate_addresses,
}

pub record Config : Type 0 where
  pub has_identity : Bool
  pub has_request_identity : Bool
  pub has_store : Bool
  pub lease_duration : ℤ
  pub renew_after : ℤ
  pub allow_non_global_addresses : Bool

pub record Handler : Type 0 where
  pub lease_duration : ℕ
  pub renew_after : ℕ
  pub allow_non_global_addresses : Bool

same_presence : Bool → Bool → Bool
same_presence true b = b
same_presence false b = not b

-- `New`: the policies and the store are there or not; durations are nanoseconds.
unfoldable pub new_handler : Config → Option Handler
unfolding same_presence
new_handler config =
    if same_presence config.has_identity config.has_request_identity || not config.has_store
    then none
    else if leb_ℤ config.lease_duration (pos 0)
        || leb_ℤ config.renew_after (pos 0)
        || leb_ℤ config.lease_duration config.renew_after
    then none
    else some (record {
      lease_duration = pos_part config.lease_duration;
      renew_after = pos_part config.renew_after;
      allow_non_global_addresses = config.allow_non_global_addresses;
    })

-- What the JSON decoder makes of the first 64 KiB of a body: no endpoint document, one, or one with
-- more after it.
pub data Body : Type 0 where
  undecodable : Body
  document : EndpointRequest → Body
  trailing : EndpointRequest → Body

pub record WriteRequest : Type 0 where
  pub device : Result AuthenticationError Device
  pub idempotency_key : Bytes
  pub body : Body
  pub if_match : List Bytes
  pub if_none_match : List Bytes

-- A response is an error, with its status and its code, or a state with its status and its ETag.
-- The texts of error messages are left out.
pub data Response : Type 0 where
  write_error : ℕ → Bytes → Response
  write_state : ℕ → Bytes → DeviceState → Response

unfoldable pub authentication_error : AuthenticationError → Response
authentication_error denied = write_error 403 (codes "forbidden")
authentication_error unavailable = write_error 503 (codes "authorization_unavailable")
authentication_error unauthenticated = write_error 401 (codes "unauthenticated")

unfoldable pub precondition_error : PreconditionError → Response
precondition_error precondition_is_required = write_error 428 (codes "precondition_required")
precondition_error _ = write_error 400 (codes "invalid_precondition")

unfoldable pub upsert_error : StoreError → Response
upsert_error idempotency_conflict = write_error 409 (codes "idempotency_conflict")
upsert_error precondition_required = write_error 428 (codes "precondition_required")
upsert_error precondition_failed = write_error 412 (codes "precondition_failed")
upsert_error _ = write_error 500 (codes "storage_error")

unfoldable pub read_error : StoreError → Response
read_error not_found = write_error 404 (codes "not_found")
read_error _ = write_error 500 (codes "storage_error")

-- The document of a body that holds nothing else.
unfoldable pub one_document : Body → Result Response EndpointRequest
one_document undecodable = err (write_error 400 (codes "invalid_json"))
one_document (trailing payload) = err (write_error 400 (codes "invalid_json"))
one_document (document payload) = ok payload

-- `h.renewAfter/time.Second`
unfoldable pub renew_after_seconds : Handler → ℤ
renew_after_seconds h = pos (h.renew_after / 1000000000)

or_respond : {E A : Type 0} → (E → Response) → Result E A → Result Response A
or_respond respond (ok a) = ok a
or_respond respond (err e) = err (respond e)

module _ (platform : Platform) (h : Handler) where
  unfoldable pub device_state : Intent → ℤ → DeviceState
  device_state intent renew = record {
    device_id = intent.device_id;
    hostname = intent.hostname;
    addresses = addresses_from_net_ip platform intent.addresses;
    generation = intent.generation;
    status = status intent;
    lease_expires_at = intent.lease_expires_at;
    renew_after_seconds = renew;
  }

  -- The store request of a write that passes every check, at the time `now`.
  unfoldable pub read_write : WriteRequest → Time → Result Response UpsertRequest
  unfolding or_respond one_document authentication_error precondition_error renew_after_seconds
  read_write request now = do
    device ← or_respond authentication_error request.device
    refuse_if (not (is_idempotency_key request.idempotency_key))
        (write_error 400 (codes "invalid_idempotency_key"))
    payload ← one_document request.body
    addresses ←
        or_respond (λ e. write_error 400 (codes "invalid_addresses"))
          (validate_addresses platform h.allow_non_global_addresses payload.addresses)
    precondition ←
        or_respond precondition_error
          (parse_write_precondition request.if_match request.if_none_match)
    ok (record {
      device_id = device.id;
      hostname = device.hostname;
      addresses = addresses;
      idempotency_key = request.idempotency_key;
      precondition = precondition;
      now = now;
      lease_duration = h.lease_duration;
      renew_after_seconds = renew_after_seconds h;
    })

  unfoldable pub respond_write : Result StoreError UpsertResult → Response
  unfolding upsert_error device_state
  respond_write (err e) = upsert_error e
  respond_write (ok result) =
      write_state 202 (generation_etag result.intent.generation)
        (device_state result.intent result.renew_after_seconds)

  unfoldable pub store_write :
      Faults → Database → Result Response UpsertRequest → Database × Response
  unfolding respond_write
  store_write faults db (err response) = (db, response)
  store_write faults db (ok upsert) =
      let written = upsert_intent platform faults db upsert in (written.0, respond_write written.1)

  unfoldable pub put_endpoints : Faults → Database → WriteRequest → Time → Database × Response
  unfolding read_write store_write
  put_endpoints faults db request now = store_write faults db (read_write request now)

  unfoldable pub respond_read : Result StoreError Intent → Response
  unfolding device_state renew_after_seconds
  respond_read (err e) = write_error 500 (codes "storage_error")
  respond_read (ok intent) =
      write_state 200 (generation_etag intent.generation)
        (device_state intent (renew_after_seconds h))

  -- The second half of `getStatus`, once the leases are expired.
  unfoldable pub read_expired :
      Faults → Bytes → Database × Result StoreError (List Intent) → Database × Response
  unfolding respond_read
  read_expired faults id (db, err e) = (db, write_error 500 (codes "storage_error"))
  read_expired faults id (db, ok expired) = (db, respond_read (get_intent platform faults db id))

  -- `getStatus` after its first read; `expiring` and `rereading` are the failures in its other two
  -- store calls.
  unfoldable pub status_after :
      Faults → Faults → Database → Bytes → Time → Result StoreError Intent → Database × Response
  unfolding read_expired read_error
  status_after expiring rereading db id now (err e) = (db, read_error e)
  status_after expiring rereading db id now (ok intent) =
      if not (is_empty intent.addresses) && has_lapsed now intent.lease_expires_at
      then read_expired rereading id (expire_leases platform expiring db now)
      else (db, respond_read (ok intent))

  unfoldable pub get_status :
      Faults
      → Faults
      → Faults
      → Database
      → Result AuthenticationError Device
      → Time
      → Database × Response
  unfolding status_after authentication_error
  get_status reading expiring rereading db (err e) now = (db, authentication_error e)
  get_status reading expiring rereading db (ok device) now =
      status_after expiring rereading db device.id now (get_intent platform reading db device.id)
