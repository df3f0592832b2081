-- ===== src/Publisher.antt =====
-- dns/internal/publisher/publisher.go: one pass of the publisher over the desired state, the DNS
-- origin and the public resolvers.
pub mod Histories
pub mod Loop
pub mod Marks
use nixos_kaiba_network.Prelude.{
  ℕ, Bool, true, false, not, ◌||◌, Option, none, some, List, [], ◌∷◌, ◌++◌, Bytes, ◌==◌,
  if◌then◌else◌, Result, ok, err,
}
use nixos_kaiba_network.Prelude.Int.{ℤ, pos, leb_ℤ}
use nixos_kaiba_network.Net.{Addr}
use nixos_kaiba_network.Model.{Intent, Time, Platform}
use nixos_kaiba_network.Store.{StoreError}
use nixos_kaiba_network.Store.Tables.{Database, Faults}
use nixos_kaiba_network.Store.Leases.{expire_leases}
use nixos_kaiba_network.Store.Queries.{
  list_origin_pending, list_observation_pending, mark_origin_applied, mark_publicly_observed,
  mark_publication_error,
}

-- dnswriter.Writer: the DNS origin, with the text of the error if a replacement fails.
pub record Writer : Type 1 where
  pub Zone : Type 0
  pub replace_address_rrsets : Zone → Bytes → List Addr → ℕ → Zone × Option Bytes

-- What RunOnce appends to its failures.
pub data Failure : Type 0 where
  expire_failed list_origin_failed list_observation_failed : StoreError → Failure
  publish_failed observe_failed : Bytes → ℤ → Bytes → Failure
  mark_applied_failed mark_observed_failed : Bytes → ℤ → StoreError → Failure

pub data Leadership : Type 0 where
  acquired : Leadership
  not_acquired : Leadership
  unavailable : Bytes → Leadership

-- What RunOnce returns.
pub data Returned : Type 0 where
  invalid_config : Returned
  leadership_failed : Bytes → Returned
  failures : List Failure → Returned

-- The failures that SQLite shows in each store call of a pass.
pub record PassFaults : Type 0 where
  pub expire : Faults
  pub list_origin : Faults
  pub publish : Bytes → Faults
  pub list_observation : Faults
  pub observe : Bytes → Faults

-- `if err := …; err != nil { failures = append(failures, …) }`
append_error :
    {A : Type 0} → (StoreError → Failure) → Result StoreError A → List Failure → List Failure
append_error wrap (ok a) fs = fs
append_error wrap (err e) fs = fs ++ wrap e ∷ []

module _ (writer : Writer) where
  open writer use {Zone, replace_address_rrsets}

  pub record Service : Type 0 where
    pub has_store : Bool
    pub has_dns : Bool
    pub leadership : Leadership
    pub observer : Option (Bytes → List Addr → Result Bytes Bool)
    pub ttl : ℕ
    pub batch_size : ℤ

  unfoldable pub is_valid_service : Service → Bool
  is_valid_service s = if not s.has_store || not s.has_dns then false else not (s.ttl == 0)

  -- `if s.BatchSize <= 0 { s.BatchSize = 100 }`
  unfoldable pub batch : Service → ℤ
  batch s = if leb_ℤ s.batch_size (pos 0) then pos 100 else s.batch_size

  -- The tables, the origin, and the failures so far.
  pub record Pass : Type 0 where
    pub db : Database
    pub zone : Zone
    pub failed : List Failure

  -- The rest of the loop body, after a replacement that left `zone` and returned the error.
  unfoldable pub after_replace : PassFaults → Pass → Intent → Zone → Option Bytes → Pass
  unfolding append_error
  after_replace faults pass intent zone (some message) =
      let id = intent.device_id in
      record {
        db = (mark_publication_error (faults.publish id) pass.db id intent.generation message).0;
        zone = zone;
        failed = pass.failed ++ publish_failed id intent.generation message ∷ [];
      }
  after_replace faults pass intent zone none =
      let id = intent.device_id in
      let marked = mark_origin_applied (faults.publish id) pass.db id intent.generation in
      record {
        db = marked.0;
        zone = zone;
        failed = append_error (mark_applied_failed id intent.generation) marked.1 pass.failed;
      }

  unfoldable pub publish_one : PassFaults → ℕ → Pass → Intent → Pass
  unfolding after_replace
  publish_one faults ttl pass intent =
      let replaced = replace_address_rrsets pass.zone intent.hostname intent.addresses ttl in
      after_replace faults pass intent replaced.0 replaced.1

  unfoldable pub publish_all : PassFaults → ℕ → Pass → List Intent → Pass
  unfolding publish_one
  publish_all faults ttl pass [] = pass
  publish_all faults ttl pass (intent ∷ pending) =
      publish_all faults ttl (publish_one faults ttl pass intent) pending

  unfoldable pub after_observe : PassFaults → Pass → Intent → Result Bytes Bool → Pass
  unfolding append_error
  after_observe faults pass intent (err message) = record pass {
    failed = pass.failed ++ observe_failed intent.device_id intent.generation message ∷ [];
  }
  after_observe faults pass intent (ok false) = pass
  after_observe faults pass intent (ok true) =
      let id = intent.device_id in
      let marked = mark_publicly_observed (faults.observe id) pass.db id intent.generation in
      record pass {
        db = marked.0;
        failed = append_error (mark_observed_failed id intent.generation) marked.1 pass.failed;
      }

  unfoldable pub observe_one :
      PassFaults → (Bytes → List Addr → Result Bytes Bool) → Pass → Intent → Pass
  unfolding after_observe
  observe_one faults observe pass intent =
      after_observe faults pass intent (observe intent.hostname intent.addresses)

  unfoldable pub observe_all :
      PassFaults → (Bytes → List Addr → Result Bytes Bool) → Pass → List Intent → Pass
  unfolding observe_one
  observe_all faults observe pass [] = pass
  observe_all faults observe pass (intent ∷ pending) =
      observe_all faults observe (observe_one faults observe pass intent) pending

  module _ (platform : Platform) where
    unfoldable pub expire_pass : PassFaults → Time → Database → Zone → Pass
    unfolding append_error
    expire_pass faults now db zone =
        let expired = expire_leases platform faults.expire db now in
        record { db = expired.0; zone = zone; failed = append_error expire_failed expired.1 [] }

    unfoldable pub publish_listed :
        PassFaults → Service → Pass → Result StoreError (List Intent) → Pass
    unfolding publish_all
    publish_listed faults s pass (err e) = record pass {
      failed = pass.failed ++ list_origin_failed e ∷ [];
    }
    publish_listed faults s pass (ok pending) = publish_all faults s.ttl pass pending

    unfoldable pub publish_pass : PassFaults → Service → Pass → Pass
    unfolding publish_listed batch
    publish_pass faults s pass =
        publish_listed faults s pass
          (list_origin_pending platform faults.list_origin pass.db (batch s))

    unfoldable pub observe_listed :
        PassFaults
        → (Bytes → List Addr → Result Bytes Bool)
        → Pass
        → Result StoreError (List Intent)
        → Pass
    unfolding observe_all
    observe_listed faults observe pass (err e) = record pass {
      failed = pass.failed ++ list_observation_failed e ∷ [];
    }
    observe_listed faults observe pass (ok pending) = observe_all faults observe pass pending

    unfoldable pub observe_with :
        PassFaults → ℤ → Option (Bytes → List Addr → Result Bytes Bool) → Pass → Pass
    unfolding observe_listed
    observe_with faults limit none pass = pass
    observe_with faults limit (some observe) pass =
        observe_listed faults observe pass
          (list_observation_pending platform faults.list_observation pass.db limit)

    unfoldable pub observe_pass : PassFaults → Service → Pass → Pass
    unfolding observe_with batch
    observe_pass faults s pass = observe_with faults (batch s) s.observer pass

    -- `RunOnce` after `validate`, with what `Leadership.Acquire` returns.
    unfoldable pub run_led :
        PassFaults → Service → Time → Database → Zone → Leadership → (Database × Zone) × Returned
    unfolding expire_pass publish_pass observe_pass
    run_led faults s now db zone (unavailable message) = ((db, zone), leadership_failed message)
    run_led faults s now db zone not_acquired = ((db, zone), failures [])
    run_led faults s now db zone acquired =
        let pass = observe_pass faults s (publish_pass faults s (expire_pass faults now db zone)) in
        ((pass.db, pass.zone), failures pass.failed)

    -- `RunOnce`, at the time `now` of its clock.
    unfoldable pub run_once :
        PassFaults → Service → Time → Database → Zone → (Database × Zone) × Returned
    unfolding is_valid_service run_led
    run_once faults s now db zone =
        if not (is_valid_service s)
        then ((db, zone), invalid_config)
        else run_led faults s now db zone s.leadership
