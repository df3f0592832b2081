-- ===== src/Commands.antt =====
-- dns/cmd/kaiba-agent/main.go and dns/cmd/kaiba-controller/main.go: what the commands check and how
-- they put the components together, after the flags are parsed. What the libraries make of files,
-- sockets and URLs are arguments.
pub mod Wiring
pub mod Publishing
use nixos_kaiba_network.Prelude.{
  Bool, true, false, not, ◌||◌, Option, none, some, List, [], ◌∷◌, Bytes, codes, bytes_eq, is_empty,
  if◌then◌else◌, Result, ok, err, ◌>>=◌, ◌>>◌, refuse_if,
}
use nixos_kaiba_network.Prelude.Int.{ℤ}
use nixos_kaiba_network.Net.{Addr, is4in6}
use nixos_kaiba_network.Model.{Platform}
use nixos_kaiba_network.Identity.{SpiffePolicy}
use nixos_kaiba_network.Identity.Workload.{WorkloadPolicy, valid_trust_domain}
use nixos_kaiba_network.Identity.Authorization.{FleetUrl, FleetAuthorizer, new_fleet_authorizer}
use nixos_kaiba_network.Controller.{Handler, new_handler}
use nixos_kaiba_network.Agent.{Url, Agent, new_agent}

pub data CommandError : Type 0 where
  no_endpoint bad_file_mode bad_spiffe_mode unknown_mode : CommandError
  bad_address : Bytes → CommandError
  credentials_failed clock_failed store_failed authorizer_failed invalid_config : CommandError

pub data Mode : Type 0 where
  file_mode spiffe_mode : Mode

-- The flags of `kaiba-agent` that decide on its credentials, and the others.
pub record AgentOptions : Type 0 where
  pub endpoint : Bytes
  pub cert_file : Bytes
  pub key_file : Bytes
  pub ca_file : Bytes
  pub identity_mode : Bytes
  pub socket : Bytes
  pub controller_id : Bytes
  pub addresses : List Bytes
  pub interfaces : List Bytes
  pub state_path : Bytes
  pub renew_interval : ℤ
  pub request_timeout : ℤ
  pub once : Bool

-- The switch on the mode of `kaiba-agent`, before a client is made.
unfoldable pub agent_mode : AgentOptions → Result CommandError Mode
agent_mode o =
    if bytes_eq o.identity_mode (codes "file")
    then (if is_empty o.cert_file
          || is_empty o.key_file
          || is_empty o.ca_file
          || not (is_empty o.socket)
          || not (is_empty o.controller_id)
        then err bad_file_mode
        else ok file_mode)
    else if bytes_eq o.identity_mode (codes "spiffe")
    then (if not (is_empty o.cert_file)
          || not (is_empty o.key_file)
          || not (is_empty o.ca_file)
          || is_empty o.controller_id
        then err bad_spiffe_mode
        else ok spiffe_mode)
    else err unknown_mode

-- An address flag, with what the parser makes of it.
unfoldable pub check_flag : Bytes → Option Addr → Result CommandError Addr
check_flag text none = err (bad_address text)
check_flag text (some addr) = if is4in6 addr then err (bad_address text) else ok addr

unfoldable pub or_invalid : {A : Type 0} → Option A → Result CommandError A
or_invalid none = err invalid_config
or_invalid (some a) = ok a

module _ (platform : Platform) where
  unfoldable pub parse_flags : List Bytes → Result CommandError (List Addr)
  unfolding check_flag
  parse_flags [] = ok []
  parse_flags (text ∷ texts) = do
    addr ← check_flag text (platform.parse_addr text)
    rest ← parse_flags texts
    ok (addr ∷ rest)

  -- `main` of `kaiba-agent` up to its loop; `has_client` tells in which modes there is a client.
  unfoldable pub agent_command :
      (Bytes → Option Url) → (Mode → Bool) → AgentOptions → Result CommandError Agent
  unfolding agent_mode or_invalid
  agent_command parse_url has_client o = do
    refuse_if (is_empty o.endpoint) no_endpoint
    addresses ← parse_flags o.addresses
    mode ← agent_mode o
    refuse_if (not (has_client mode)) credentials_failed
    or_invalid (
        new_agent (record {
          endpoint = parse_url o.endpoint;
          addresses = addresses;
          interfaces = o.interfaces;
          state_path = o.state_path;
          has_http_client = true;
          renew_interval = o.renew_interval;
          request_timeout = o.request_timeout;
          once = o.once;
        }))

-- The arguments of `run` of `kaiba-controller` that its checks read.
pub record ControllerOptions : Type 0 where
  pub cert_file : Bytes
  pub key_file : Bytes
  pub client_ca_file : Bytes
  pub zone : Bytes
  pub identity_mode : Bytes
  pub socket : Bytes
  pub trust_domain : Bytes
  pub fleet_url : Bytes
  pub fleet_id : Bytes
  pub lease_duration : ℤ
  pub renew_after : ℤ
  pub allow_non_global_addresses : Bool

-- How requests are identified: by certificates of a policy, or by workloads, which an authorizer
-- decides on.
pub data RequestPolicy : Type 0 where
  by_certificate : SpiffePolicy → RequestPolicy
  by_workload : WorkloadPolicy → FleetAuthorizer → RequestPolicy

unfoldable pub has_certificates : RequestPolicy → Bool
has_certificates (by_certificate policy) = true
has_certificates (by_workload policy f) = false

unfoldable pub controller_mode : ControllerOptions → Result CommandError Mode
controller_mode o =
    if bytes_eq o.identity_mode (codes "file")
    then (if is_empty o.cert_file
          || is_empty o.key_file
          || is_empty o.client_ca_file
          || not (is_empty o.socket)
          || not (is_empty o.trust_domain)
          || not (is_empty o.fleet_url)
          || not (is_empty o.fleet_id)
        then err bad_file_mode
        else ok file_mode)
    else if bytes_eq o.identity_mode (codes "spiffe")
    then (if not (is_empty o.cert_file)
          || not (is_empty o.key_file)
          || not (is_empty o.client_ca_file)
          || is_empty o.fleet_url
          || is_empty o.fleet_id
          || not (valid_trust_domain o.trust_domain)
        then err bad_spiffe_mode
        else ok spiffe_mode)
    else err unknown_mode

-- What the surroundings do: whether the clock, the store, the file credentials, the source of
-- workload credentials, the client of the authorizer and the TLS configuration of the server can be
-- had, and what `url.Parse` makes of the URL of the authorizer.
pub record Surroundings : Type 0 where
  pub has_clock : Bool
  pub has_store : Bool
  pub has_credentials : Bool
  pub has_source : Bool
  pub has_client : Bool
  pub has_server_tls : Bool
  pub parse_url : Bytes → Option FleetUrl

unfoldable pub or_no_authorizer : Option FleetAuthorizer → Result CommandError FleetAuthorizer
or_no_authorizer none = err authorizer_failed
or_no_authorizer (some f) = ok f

module _ (to_lower : Bytes → Bytes) (s : Surroundings) where
  unfoldable pub request_policy : ControllerOptions → Mode → Result CommandError RequestPolicy
  unfolding or_no_authorizer
  request_policy o file_mode = do
    refuse_if (not s.has_credentials) credentials_failed
    ok (by_certificate (record { trust_domain = codes "kaiba.network"; zone = o.zone }))
  request_policy o spiffe_mode = do
    refuse_if (not s.has_source) credentials_failed
    f ←
        or_no_authorizer
          (new_fleet_authorizer to_lower s.has_client (s.parse_url o.fleet_url) o.zone)
    refuse_if (not s.has_server_tls) credentials_failed
    ok (
        by_workload
          (record { has_bundles = true; has_authorizer = true; trust_domain = o.trust_domain }) f)

  -- `run` of `kaiba-controller` up to its server.
  unfoldable pub controller_command :
      ControllerOptions → Result CommandError (Handler × RequestPolicy)
  unfolding request_policy controller_mode has_certificates or_invalid
  controller_command o = do
    refuse_if (not s.has_clock) clock_failed
    refuse_if (not s.has_store) store_failed
    mode ← controller_mode o
    policy ← request_policy o mode
    h ← or_invalid (
        new_handler (record {
          has_identity = has_certificates policy;
          has_request_identity = not (has_certificates policy);
          has_store = true;
          lease_duration = o.lease_duration;
          renew_after = o.renew_after;
          allow_non_global_addresses = o.allow_non_global_addresses;
        }))
    ok (h, policy)
