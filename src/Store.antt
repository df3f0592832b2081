-- ===== src/Store.antt =====
-- dns/internal/store/store.go: the storage boundary between the controller and the publisher. The
-- children model its SQLite implementation, dns/internal/store/sqlite.go.
pub mod Tables
pub mod Rows
pub mod Keys
pub mod Upsert
pub mod Leases
pub mod Queries
pub mod History
pub mod Replay
pub mod Versions
pub mod Progress
pub mod Migration
use nixos_kaiba_network.Prelude.{
  ℕ, Bool, true, false, not, ◌&&◌, ◌||◌, List, ◌++◌, Bytes, codes, if◌then◌else◌,
}
use nixos_kaiba_network.Prelude.Int.{ℤ, pos, eq_ℤ, ltb_ℤ}
use nixos_kaiba_network.Net.{Addr}
use nixos_kaiba_network.Model.{Intent, Time}
use nixos_kaiba_network.Api.{format_int}

-- The four named errors, and the ones that sqlite.go makes on its own: a stored text that does not
-- decode, a device that is mapped to another hostname, a refused unique constraint, and a failure
-- of SQLite.
pub data StoreError : Type 0 where
  not_found idempotency_conflict precondition_required precondition_failed : StoreError
  malformed hostname_mismatch constraint_violated sqlite_failed : StoreError

pub record IntentPrecondition : Type 0 where
  pub expected_generation : ℤ
  pub require_absent : Bool

abbrev pub match_generation : ℤ → IntentPrecondition
match_generation generation = record { expected_generation = generation; require_absent = false }

abbrev pub must_be_absent : IntentPrecondition
must_be_absent = record { expected_generation = pos 0; require_absent = true }

unfoldable pub is_valid_precondition : IntentPrecondition → Bool
is_valid_precondition p =
    (p.require_absent && eq_ℤ p.expected_generation (pos 0))
    || (not p.require_absent && ltb_ℤ (pos 0) p.expected_generation)

unfoldable pub precondition_key : IntentPrecondition → Bytes
precondition_key p =
    if p.require_absent
    then codes "if-none-match:*"
    else codes "if-match:g-" ++ format_int p.expected_generation

pub record UpsertRequest : Type 0 where
  pub device_id : Bytes
  pub hostname : Bytes
  pub addresses : List Addr
  pub idempotency_key : Bytes
  pub precondition : IntentPrecondition
  pub now : Time
  pub lease_duration : ℕ
  pub renew_after_seconds : ℤ

pub record UpsertResult : Type 0 where
  pub intent : Intent
  pub renew_after_seconds : ℤ
  pub replay : Bool
