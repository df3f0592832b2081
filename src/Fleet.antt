-- ===== src/Fleet.antt =====
-- A device and the control plane together: the agent of dns/internal/agent/agent.go, whose requests
-- reach the handlers of dns/internal/controller/controller.go over a network that may lose them.
pub mod LostResponse
use nixos_kaiba_network.Prelude.{ℕ, List, [], ◌∷◌, Bytes, Result}
use nixos_kaiba_network.Identity.{Device}
use nixos_kaiba_network.Model.{Platform, Time}
use nixos_kaiba_network.Api.{DeviceState}
use nixos_kaiba_network.Store.Tables.{Database, Faults}
use nixos_kaiba_network.Store.History.{Call, run}
use nixos_kaiba_network.Controller.{
  AuthenticationError, Handler, document, WriteRequest, Response, write_error, write_state,
  put_endpoints, get_status,
}
use nixos_kaiba_network.Agent.{
  PutRequest, Request, reads_status, writes_endpoints, Reply, Exchange, no_response, cut_off,
  answered, Network,
}

-- The JSON texts of responses.
pub record Encoder : Type 0 where
  pub encode_state : DeviceState → Bytes
  pub encode_error : Bytes → Bytes

-- What the network does to one request.
pub data Delivery : Type 0 where
  request_lost response_lost response_cut delivered : Delivery

-- The fate of one request: the calls that others make on the store before it, the device that its
-- certificate names, the time at the controller, and the failures in the store calls of its handler.
pub record Link : Type 0 where
  pub before : List Call
  pub device : Result AuthenticationError Device
  pub now : Time
  pub writing : Faults
  pub reading : Faults
  pub expiring : Faults
  pub rereading : Faults
  pub delivery : Delivery

unfoldable pub write_request : Result AuthenticationError Device → PutRequest → WriteRequest
write_request device request = record {
  device = device;
  idempotency_key = request.idempotency_key;
  body = document request.payload;
  if_match = request.if_match;
  if_none_match = request.if_none_match;
}

unfoldable pub reply_to : Encoder → Response → Reply
reply_to encoder (write_error code name) = record {
  status_code = code;
  etag = [];
  body = encoder.encode_error name;
}
reply_to encoder (write_state code etag state) = record {
  status_code = code;
  etag = etag;
  body = encoder.encode_state state;
}

module _ (platform : Platform) (h : Handler) (encoder : Encoder) where
  unfoldable pub handle_request : Link → Database → Request → Database × Response
  unfolding write_request
  handle_request link db reads_status =
      get_status platform h link.reading link.expiring link.rereading db link.device link.now
  handle_request link db (writes_endpoints request) =
      put_endpoints platform h link.writing db (write_request link.device request) link.now

  unfoldable pub deliver : Delivery → Database → Database × Response → Database × Exchange
  unfolding reply_to
  deliver request_lost db (db', response) = (db, no_response)
  deliver response_lost db (db', response) = (db', no_response)
  deliver response_cut db (db', response) = (db', cut_off)
  deliver delivered db (db', response) = (db', answered (reply_to encoder response))

  unfoldable pub send : Database × List Link → Request → (Database × List Link) × Exchange
  unfolding deliver handle_request
  send (db, []) request = ((db, []), no_response)
  send (db, link ∷ links) request =
      let db' = run platform db link.before in
      let (after, exchange) = deliver link.delivery db' (handle_request link db' request) in
      ((after, links), exchange)

  abbrev pub controller : Network
  controller = record { State = Database × List Link; send = send }
