-- ===== src/Agent.antt =====
-- dns/internal/agent/agent.go: the agent on a device, which registers the addresses of the device
-- with the controller. Its configuration, its errors, and the responses that it reads.
pub mod Discovery
pub mod Keys
pub mod Pending
pub mod Update
pub mod Loop
use nixos_kaiba_network.Prelude.{
  ℕ, Bool, true, false, not, ◌||◌, Option, none, some, List, Bytes, codes, bytes_eq, is_empty, leb,
  take, ◌==◌, if◌then◌else◌,
}
use nixos_kaiba_network.Prelude.Int.{ℤ, pos, pos_part, leb_ℤ}
use nixos_kaiba_network.Net.{Addr}
use nixos_kaiba_network.Api.{EndpointRequest, DeviceState, Error}
use nixos_kaiba_network.Controller.Request.{trim_space}

-- What `New` reads of a parsed URL.
pub record Url : Type 0 where
  pub scheme : Bytes
  pub host : Bytes

-- The configuration as given; `endpoint` is `none` where `url.Parse` fails. Durations are
-- nanoseconds.
pub record Config : Type 0 where
  pub endpoint : Option Url
  pub addresses : List Addr
  pub interfaces : List Bytes
  pub state_path : Bytes
  pub has_http_client : Bool
  pub renew_interval : ℤ
  pub request_timeout : ℤ
  pub once : Bool

pub record Agent : Type 0 where
  pub addresses : List Addr
  pub interfaces : List Bytes
  pub renew_interval : ℕ
  pub request_timeout : ℕ
  pub once : Bool

is_https : Option Url → Bool
is_https none = false
is_https (some url) =
    if not (bytes_eq url.scheme (codes "https")) then false else not (is_empty url.host)

unfoldable pub new_agent : Config → Option Agent
unfolding is_https
new_agent config =
    if not (is_https config.endpoint) || not config.has_http_client || is_empty config.state_path
    then none
    else if leb_ℤ config.renew_interval (pos 0)
    then none
    else some (record {
      addresses = config.addresses;
      interfaces = config.interfaces;
      renew_interval = pos_part config.renew_interval;
      request_timeout =
          if leb_ℤ config.request_timeout (pos 0)
          then 30000000000
          else pos_part config.request_timeout;
      once = config.once;
    })

pub record HttpError : Type 0 where
  pub status_code : ℕ
  pub code : Bytes
  pub message : Bytes

pub data AgentError : Type 0 where
  discovery_failed no_addresses_found : AgentError
  state_unreadable directory_failed write_failed rename_failed remove_failed : AgentError
  key_unavailable : AgentError
  no_connection body_unreadable undecodable_state : AgentError
  invalid_etag generations_differ inconsistent_etag lease_already_expired : AgentError
  http : HttpError → AgentError

-- `HTTPError.Retryable`
unfoldable pub retryable : HttpError → Bool
retryable e = e.status_code == 412 || e.status_code == 429 || leb 500 e.status_code

unfoldable pub is_retryable : AgentError → Bool
unfolding retryable
is_retryable (http e) = retryable e
is_retryable _ = true

-- What the agent sends: a read of its status, or a write with its headers and its payload.
pub record PutRequest : Type 0 where
  pub idempotency_key : Bytes
  pub if_match : List Bytes
  pub if_none_match : List Bytes
  pub payload : EndpointRequest

pub data Request : Type 0 where
  reads_status : Request
  writes_endpoints : PutRequest → Request

pub record Reply : Type 0 where
  pub status_code : ℕ
  pub etag : Bytes
  pub body : Bytes

-- What becomes of a request: the client gets no response, a response whose body it cannot read, or
-- a response.
pub data Exchange : Type 0 where
  no_response cut_off : Exchange
  answered : Reply → Exchange

-- The other end, over an unknown state that holds whatever decides on the fate of a request.
pub record Network : Type 1 where
  pub State : Type 0
  pub send : State → Request → State × Exchange

-- What `encoding/json` makes of a body: a state, or none, and as much of an error as decodes.
pub record Json : Type 0 where
  pub decode_state : Bytes → Option DeviceState
  pub decode_error : Bytes → Error

-- `io.LimitReader(response.Body, 64<<10)`
unfoldable pub limit_body : Bytes → Bytes
limit_body body = take 65536 body

or_default : Bytes → Bytes → Bytes
or_default text default = if is_empty text then default else text

unfoldable pub response_error : Json → ℕ → Bytes → HttpError
unfolding or_default
response_error json status_code body = record {
  status_code = status_code;
  code = or_default (json.decode_error body).code (codes "unexpected_response");
  message = or_default (json.decode_error body).message (trim_space body);
}
