-- ===== src/Store/History.antt =====
-- Histories of the store: the calls that the controller and the publisher make on it, in any order,
-- each with the failures that SQLite shows in it.
use nixos_kaiba_network.Prelude.{List, [], ◌∷◌, Bytes}
use nixos_kaiba_network.Prelude.Int.{ℤ}
use nixos_kaiba_network.Model.{Time, Platform}
use nixos_kaiba_network.Store.{UpsertRequest}
use nixos_kaiba_network.Store.Tables.{Database, Faults}
use nixos_kaiba_network.Store.Upsert.{upsert_intent}
use nixos_kaiba_network.Store.Leases.{expire_leases}
use nixos_kaiba_network.Store.Queries.{
  mark_origin_applied, mark_publicly_observed, mark_publication_error,
}

-- The methods of `DesiredState` that write.
pub data Call : Type 0 where
  upserts : Faults → UpsertRequest → Call
  expires : Faults → Time → Call
  applies observes : Faults → Bytes → ℤ → Call
  reports : Faults → Bytes → ℤ → Bytes → Call

module _ (platform : Platform) where
  unfoldable pub step : Database → Call → Database
  step db (upserts faults request) = (upsert_intent platform faults db request).0
  step db (expires faults now) = (expire_leases platform faults db now).0
  step db (applies faults id generation) = (mark_origin_applied faults db id generation).0
  step db (observes faults id generation) = (mark_publicly_observed faults db id generation).0
  step db (reports faults id generation message) =
      (mark_publication_error faults db id generation message).0

  unfoldable pub run : Database → List Call → Database
  run db [] = db
  run db (call ∷ calls) = run (step db call) calls
