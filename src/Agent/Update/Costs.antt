-- ===== src/Agent/Update/Costs.antt =====
-- How many requests one update sends.
use nixos_kaiba_network.Prelude.{
  ℕ, ◌+◌, ◌*◌, ◌≤◌, Bool, true, false, ◌==◌, Option, none, some, Bytes, arith, if◌then◌else◌,
  Result, ok, err,
}
use nixos_kaiba_network.Model.{Platform}
use nixos_kaiba_network.Api.{DeviceState}
use nixos_kaiba_network.Agent.{
  Agent, AgentError, Request, reads_status, writes_endpoints, Reply, Network, Json,
}
use nixos_kaiba_network.Agent.Discovery.{Prefixes}
use nixos_kaiba_network.Agent.Pending.{
  PendingState, Disk, Attempt, M, next, ◌>>=◌, from_result, fail, on_disk, ignore,
}
use nixos_kaiba_network.Agent.Update.{
  ask, fetch_precondition, create_pending, reuse_or_create, load_or_create_pending, refused,
  checked_lease, accepted, submit, attempt, update_once,
}

-- What a request costs.
unfoldable pub price : ℕ → ℕ → Request → ℕ
price reads writes reads_status = reads
price reads writes (writes_endpoints request) = writes

module _ {S : Type 0} (cost : S → ℕ) where
  -- A step that costs at most `n`.
  pub record Costs {A : Type 0} (n : ℕ) (m : M S A) : Type 0 where
    pub bounded : (disk : Disk) (s : S) → cost (m (disk, s)).0.1 ≤ cost s + n

  next-Costs :
      {A B : Type 0} (n : ℕ) (r : Result AgentError A) (f : A → M S B)
      → ((a : A) → Costs n (f a))
      → (disk : Disk) (s : S) → cost (next r f (disk, s)).0.1 ≤ cost s + n
  unfolding next
  next-Costs n (ok a) f h disk s = (h a).bounded disk s
  next-Costs n (err e) f h disk s = omega arith

  then_Costs :
      {A B : Type 0} {n k : ℕ} {m : M S A} {f : A → M S B}
      → Costs n m
      → ((a : A) → Costs k (f a))
      → Costs (n + k) (m >>= f)
  unfolding ◌>>=◌
  then_Costs {n} {k} {m} {f} h hf = record { bounded = both }
    where
      both : (disk : Disk) (s : S) → cost ((m >>= f) (disk, s)).0.1 ≤ cost s + (n + k)
      both disk s =
          let (disk', s') = (m (disk, s)).0 in
          omega (arith, h.bounded disk s, next-Costs k (m (disk, s)).1 f hf disk' s')

  more_Costs : {A : Type 0} {n : ℕ} {m : M S A} (k : ℕ) → n ≤ k → Costs n m → Costs k m
  more_Costs k p h = record { bounded = λ disk s. omega (arith, h.bounded disk s) }

  free_then :
      {A B : Type 0} {n : ℕ} {m : M S A} {f : A → M S B}
      → Costs 0 m
      → ((a : A) → Costs n (f a))
      → Costs n (m >>= f)
  free_then {n} h hf = more_Costs n (omega arith) (then_Costs h hf)

  if-Costs :
      {A : Type 0} {n : ℕ} (b : Bool) {m k : M S A}
      → Costs n m
      → Costs n k
      → Costs n (if b then m else k)
  if-Costs true hm hk = hm
  if-Costs false hm hk = hk

  on_disk-Costs : {A : Type 0} (n : ℕ) (f : Disk → Disk × Result AgentError A) → Costs n (on_disk f)
  unfolding on_disk
  on_disk-Costs n f = record { bounded = λ disk s. omega arith }

  from_result-Costs : {A : Type 0} (n : ℕ) (r : Result AgentError A) → Costs n (from_result r)
  unfolding from_result
  from_result-Costs n r = record { bounded = λ disk s. omega arith }

  fail-Costs : {A : Type 0} (n : ℕ) (e : AgentError) → Costs {A = A} n (fail e)
  unfolding fail
  fail-Costs n e = record { bounded = λ disk s. omega arith }

  ignore-Costs : {n : ℕ} {m : M S (Unit {0})} → Costs n m → Costs n (ignore m)
  unfolding ignore
  ignore-Costs h = record { bounded = h.bounded }

module _ (platform : Platform) (prefixes : Prefixes) (json : Json) (agent : Agent)
    (network : Network) (cost : network.State → ℕ) (reads writes : ℕ)
    (priced : (s : network.State) (request : Request)
      → cost (network.send s request).0 ≤ cost s + price reads writes request) where
  ask-Costs :
      (request : Request)
      → Costs cost (price reads writes request) (ask platform prefixes json agent network request)
  unfolding ask
  ask-Costs request = record { bounded = λ disk s. priced s request }

  create_pending-Costs :
      (a : Attempt) (hash : Bytes)
      → Costs cost reads (create_pending platform prefixes json agent network a hash)
  unfolding create_pending fetch_precondition price
  create_pending-Costs a hash = more_Costs cost reads (omega arith) (
      then_Costs cost
        (then_Costs cost (ask-Costs reads_status) (λ reply. from_result-Costs cost 0 _))
        (λ precondition.
          free_then cost (from_result-Costs cost 0 _)
            (λ key. free_then cost (on_disk-Costs cost 0 _) (λ _. from_result-Costs cost 0 _))))

  load-Costs :
      (a : Attempt) (hash : Bytes)
      → Costs cost reads (load_or_create_pending platform prefixes json agent network a hash)
  unfolding load_or_create_pending
  load-Costs a hash = free_then cost (on_disk-Costs cost 0 _) reuse
    where
      reuse :
          (stored : Option PendingState)
          → Costs cost reads (reuse_or_create platform prefixes json agent network a hash stored)
      reuse none = unfold reuse_or_create in create_pending-Costs a hash
      reuse (some state) = unfold reuse_or_create in from_result-Costs cost reads _

  module _ (n : ℕ) (stale : AgentError → M network.State DeviceState)
      (stale-Costs : (e : AgentError) → Costs cost n (stale e)) (a : Attempt) where
    refused-Costs :
        (reply : Reply) → Costs cost n (refused platform prefixes json agent network stale a reply)
    unfolding refused
    refused-Costs reply =
        if-Costs cost (reply.status_code == 409)
          (free_then cost (ignore-Costs cost (on_disk-Costs cost 0 _)) (λ _. fail-Costs cost n _))
          (if-Costs cost (reply.status_code == 412)
            (free_then cost (on_disk-Costs cost 0 _) (λ _. stale-Costs _)) (fail-Costs cost n _))

    accepted-Costs :
        (reply : Reply) → Costs cost n (accepted platform prefixes json agent network stale a reply)
    unfolding accepted checked_lease
    accepted-Costs reply = free_then cost (from_result-Costs cost 0 _) (λ state.
        free_then cost (from_result-Costs cost 0 _) (λ _.
          free_then cost (on_disk-Costs cost 0 _)
            (λ _. if-Costs cost _ (stale-Costs _) (from_result-Costs cost n _))))

    attempt-Costs :
        Costs cost (reads + writes + n) (attempt platform prefixes json agent network stale a)
    unfolding attempt submit price
    attempt-Costs = free_then cost (from_result-Costs cost 0 _) (λ addresses.
        free_then cost (from_result-Costs cost 0 _) (λ _.
          more_Costs cost (reads + writes + n) (omega arith) (
            then_Costs cost (load-Costs a _) (λ pending.
              then_Costs cost (ask-Costs (writes_endpoints _))
                (λ reply. if-Costs cost _ (refused-Costs reply) (accepted-Costs reply))))))

  -- An update sends at most two reads of the status and at most two writes, whatever the controller
  -- answers: its cost is bounded by theirs, for every cost that each request raises by its price at
  -- most.
  pub update_once-cost :
      (first again : Attempt) (disk : Disk) (s : network.State)
      → cost (update_once platform prefixes json agent network first again (disk, s)).0.1
        ≤ cost s + 2 * reads + 2 * writes
  unfolding update_once
  update_once-cost first again disk s =
      let last =
        attempt-Costs 0 (fail {S = network.State} {A = DeviceState}) (λ e. fail-Costs cost 0 e)
          again in
      let whole =
        attempt-Costs (reads + writes + 0)
          (λ _. attempt platform prefixes json agent network fail again) (λ _. last) first in
      omega (arith, whole.bounded disk s)
