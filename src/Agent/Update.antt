-- ===== src/Agent/Update.antt =====
-- dns/internal/agent/agent.go: one update, which sends the addresses of the device under a key, and
-- once more if the controller shows that the state of the agent was stale.
pub mod Costs
pub mod Steps
pub mod Success
use nixos_kaiba_network.Prelude.{
  ℕ, Bool, true, false, not, ◌||◌, ◌==◌, Option, none, some, List, [], ◌∷◌, Bytes, is_empty, leb,
  if◌then◌else◌, Result, ok, err, refuse_if,
}
use nixos_kaiba_network.Prelude.Int.{ℤ, eq_ℤ}
use nixos_kaiba_network.Net.{Addr}
use nixos_kaiba_network.Model.{Platform, canonical_addresses, addresses_hash}
use nixos_kaiba_network.Api.{
  EndpointRequest, DeviceState, EtagError, addresses_from_net_ip, parse_generation_etag,
}
use nixos_kaiba_network.Agent.{
  Agent, AgentError, no_addresses_found, key_unavailable, no_connection, body_unreadable,
  undecodable_state, inconsistent_etag, lease_already_expired, http, PutRequest, Request,
  reads_status, writes_endpoints, Reply, Exchange, no_response, cut_off, answered, Network, Json,
  limit_body, response_error,
}
use nixos_kaiba_network.Agent.Discovery.{Prefixes, discover_addresses}
use nixos_kaiba_network.Agent.Pending.{
  PendingState, apply, Attempt, read_pending, write_pending, clear_pending, read_precondition, M,
  next, ◌>>=◌, ◌>>◌, from_result, fail, on_disk, ignore,
}

-- What the client gets of an exchange.
unfoldable pub reply_of : Exchange → Result AgentError Reply
unfolding limit_body
reply_of no_response = err no_connection
reply_of cut_off = err body_unreadable
reply_of (answered reply) = ok (record reply { body = limit_body reply.body })

or_unavailable : Option Bytes → Result AgentError Bytes
or_unavailable none = err key_unavailable
or_unavailable (some key) = ok key

or_undecodable : Option DeviceState → Result AgentError DeviceState
or_undecodable none = err undecodable_state
or_undecodable (some state) = ok state

unfoldable pub has_generation : ℤ → Result EtagError ℤ → Bool
has_generation generation (ok g) = eq_ℤ g generation
has_generation generation (err e) = false

module _ (platform : Platform) (prefixes : Prefixes) (json : Json) (agent : Agent) where
  unfoldable pub own_addresses : Attempt → Result AgentError (List Addr)
  own_addresses a =
      if not (is_empty agent.addresses)
      then ok (canonical_addresses agent.addresses)
      else discover_addresses platform prefixes agent.interfaces a.interfaces

  unfoldable pub put_request : List Addr → PendingState → PutRequest
  put_request addresses pending = apply pending (record {
    idempotency_key = pending.key;
    if_match = [];
    if_none_match = [];
    payload = record { addresses = addresses_from_net_ip platform addresses };
  })

  module _ (network : Network) where
    unfoldable pub ask : Request → M network.State Reply
    unfolding reply_of
    ask request (disk, s) =
        ((disk, (network.send s request).0), reply_of (network.send s request).1)

    unfoldable pub fetch_precondition : M network.State PendingState
    unfolding ask
    fetch_precondition = do reply ← ask reads_status; from_result (read_precondition json reply)

    -- A state under a new key, written before its first use.
    unfoldable pub create_pending : Attempt → Bytes → M network.State PendingState
    unfolding fetch_precondition or_unavailable
    create_pending a hash = do
      precondition ← fetch_precondition
      key ← from_result (or_unavailable a.key)
      let state = record precondition { payload_hash = hash; key = key }
      on_disk (write_pending a state)
      from_result (ok state)

    unfoldable pub reuse_or_create :
        Attempt → Bytes → Option PendingState → M network.State PendingState
    unfolding create_pending
    reuse_or_create a hash (some state) = from_result (ok state)
    reuse_or_create a hash none = create_pending a hash

    unfoldable pub load_or_create_pending : Attempt → Bytes → M network.State PendingState
    unfolding reuse_or_create
    load_or_create_pending a hash = do
      stored ← on_disk (read_pending a hash)
      reuse_or_create a hash stored

    -- `stale` is what is done with an error that shows a stale state: another update, or a return.
    module _ (stale : AgentError → M network.State DeviceState) (a : Attempt) where
      unfoldable pub refused : Reply → M network.State DeviceState
      refused reply =
          let error = http (response_error json reply.status_code reply.body) in
          if reply.status_code == 409
          then (ignore (on_disk (clear_pending a)) >> fail error)
          else if reply.status_code == 412
          then (on_disk (clear_pending a) >> stale error)
          else fail error

      -- The zero time of a response without a lease is before every time; it is 0 here.
      unfoldable pub checked_lease : DeviceState → M network.State DeviceState
      checked_lease state =
          if state.lease_expires_at == 0 || leb state.lease_expires_at a.now
          then stale lease_already_expired
          else from_result (ok state)

      unfoldable pub accepted : Reply → M network.State DeviceState
      unfolding or_undecodable has_generation checked_lease
      accepted reply = do
        state ← from_result (or_undecodable (json.decode_state reply.body))
        from_result (
            refuse_if (not (has_generation state.generation (parse_generation_etag reply.etag)))
              inconsistent_etag)
        on_disk (clear_pending a)
        checked_lease state

      unfoldable pub submit : List Addr → PendingState → M network.State DeviceState
      unfolding ask refused accepted put_request
      submit addresses pending = do
        reply ← ask (writes_endpoints (put_request addresses pending))
        if not (reply.status_code == 202) then refused reply else accepted reply

      unfoldable pub attempt : M network.State DeviceState
      unfolding own_addresses load_or_create_pending submit
      attempt = do
        addresses ← from_result (own_addresses a)
        from_result (refuse_if (is_empty addresses) no_addresses_found)
        pending ← load_or_create_pending a (addresses_hash platform addresses)
        submit addresses pending

    -- `UpdateOnce`: the second attempt is made only where the first one found a stale state, and
    -- returns what it finds.
    unfoldable pub update_once : Attempt → Attempt → M network.State DeviceState
    unfolding attempt
    update_once first second = attempt (λ _. attempt fail second) first
