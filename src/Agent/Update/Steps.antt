-- ===== src/Agent/Update/Steps.antt =====
-- One attempt step by step: what it does with a state that it has, and with each answer.
use nixos_kaiba_network.Prelude.{
  ◌<◌, ◌≡◌, refl, ◌∙◌, true, false, ◌||◌, ◌==◌, none, some, List, arith, leb, is_empty, ok, err,
}
use nixos_kaiba_network.Prelude.Int.{ℤ, eq_ℤ}
use nixos_kaiba_network.Net.{Addr}
use nixos_kaiba_network.Model.{Platform, addresses_hash}
use nixos_kaiba_network.Api.{DeviceState, parse_generation_etag}
use nixos_kaiba_network.Agent.{
  Agent, AgentError, no_connection, writes_endpoints, Reply, no_response, answered, Network, Json,
  limit_body,
}
use nixos_kaiba_network.Agent.Discovery.{Prefixes}
use nixos_kaiba_network.Agent.Pending.{
  PendingState, Disk, Attempt, usable, read_pending, clear_pending, M, next, ◌>>=◌, from_result,
  on_disk,
}
use nixos_kaiba_network.Agent.Update.{
  reply_of, or_undecodable, own_addresses, put_request, ask, reuse_or_create,
  load_or_create_pending, checked_lease, has_generation, accepted, submit, attempt,
}

-- The files once the state file is removed.
abbrev pub cleared : Disk → Disk
cleared disk = record disk { state_file = none }

pub bind_ok :
    {S A B : Type 0} (m : M S A) (f : A → M S B) (s s' : Disk × S) (a : A)
    → m s ≡ (s', ok a)
    → (m >>= f) s ≡ f a s'
unfolding ◌>>=◌ next
bind_ok m f s s' a e = rw e refl

pub bind_err :
    {S A B : Type 0} (m : M S A) (f : A → M S B) (s s' : Disk × S) (e : AgentError)
    → m s ≡ (s', err e)
    → (m >>= f) s ≡ (s', err e)
unfolding ◌>>=◌ next
bind_err m f s s' e h = rw h refl

module _ (platform : Platform) (prefixes : Prefixes) (json : Json) (agent : Agent)
    (network : Network) (stale : AgentError → M network.State DeviceState) (a : Attempt) where
  -- With a usable state, an attempt asks for no status and makes no key: it submits at once.
  pub attempt-usable :
      (addresses : List Addr) (pending : PendingState) (disk : Disk) (s : network.State)
      → own_addresses platform prefixes json agent a ≡ ok addresses
      → is_empty addresses ≡ false
      → a.reading ≡ false
      → usable (addresses_hash platform addresses) disk.state_file ≡ some pending
      → attempt platform prefixes json agent network stale a (disk, s)
        ≡ submit platform prefixes json agent network stale a addresses pending (disk, s)
  unfolding attempt ◌>>=◌ from_result load_or_create_pending on_disk read_pending reuse_or_create
      next
  attempt-usable addresses pending disk s own filled reads known =
      rw (own, next, filled, reads, known, reuse_or_create) refl

  -- A submission without a response changes no file.
  pub submit-no_response :
      (addresses : List Addr) (pending : PendingState) (disk : Disk) (s s' : network.State)
      → network.send s
          (writes_endpoints (put_request platform prefixes json agent addresses pending))
        ≡ (s', no_response)
      → submit platform prefixes json agent network stale a addresses pending (disk, s)
        ≡ ((disk, s'), err no_connection)
  unfolding submit ◌>>=◌ ask reply_of next
  submit-no_response addresses pending disk s s' sent = rw sent refl

  checked_lease-live :
      (state : DeviceState) (disk : Disk) (s : network.State)
      → a.now < state.lease_expires_at
      → checked_lease platform prefixes json agent network stale a state (disk, s)
        ≡ ((disk, s), ok state)
  unfolding checked_lease from_result
  checked_lease-live state disk s live =
      let runs : (state.lease_expires_at == 0 || leb state.lease_expires_at a.now) ≡ false =
        ground arith in
      simp runs refl

  eq_ℤ_refl : (g : ℤ) → eq_ℤ g g ≡ true
  eq_ℤ_refl g = ground arith

  accepted-live :
      (reply : Reply) (state : DeviceState) (disk : Disk) (s : network.State)
      → parse_generation_etag reply.etag ≡ ok state.generation
      → json.decode_state reply.body ≡ some state
      → a.removing ≡ false
      → a.now < state.lease_expires_at
      → accepted platform prefixes json agent network stale a reply (disk, s)
        ≡ ((cleared disk, s), ok state)
  unfolding accepted from_result has_generation on_disk clear_pending
  accepted-live reply state disk s etag body removes live =
      bind_ok (from_result (or_undecodable (json.decode_state reply.body))) _ (disk, s) (disk, s)
        state (rw (body, or_undecodable) refl)
      ∙ bind_ok _ _ (disk, s) (disk, s) tt
          (rw (etag, has_generation, eq_ℤ_refl state.generation) refl)
      ∙ bind_ok (on_disk (clear_pending a)) _ (disk, s) (cleared disk, s) tt (rw removes refl)
      ∙ checked_lease-live state (cleared disk) s live

  -- An accepted write with the generation of its ETag and a lease that runs clears the state.
  pub submit-accepted :
      (addresses : List Addr) (pending : PendingState) (disk : Disk) (s s' : network.State)
      (reply : Reply) (state : DeviceState)
      → network.send s
          (writes_endpoints (put_request platform prefixes json agent addresses pending))
        ≡ (s', answered reply)
      → reply.status_code ≡ 202
      → parse_generation_etag reply.etag ≡ ok state.generation
      → json.decode_state (limit_body reply.body) ≡ some state
      → a.removing ≡ false
      → a.now < state.lease_expires_at
      → submit platform prefixes json agent network stale a addresses pending (disk, s)
        ≡ ((cleared disk, s'), ok state)
  unfolding submit ◌>>=◌ ask reply_of next
  submit-accepted addresses pending disk s s' reply state sent code etag body removes live =
      simp (sent, code)
        (accepted-live (record reply { body = limit_body reply.body }) state disk s' etag body
          removes live)
