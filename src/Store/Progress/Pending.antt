-- ===== src/Store/Progress/Pending.antt =====
-- dns/internal/store/sqlite.go and dns/internal/model/model.go: the conditions of the two lists of
-- pending rows, against the publication status that a device sees.
use nixos_kaiba_network.Prelude.{◌≡◌, ℕ, if◌then◌else◌, arith, ok, >>=-eq-ok}
use nixos_kaiba_network.Model.{
  Intent, Platform, accepted, origin_applied, publicly_observed, status,
}
use nixos_kaiba_network.Store.Tables.{IntentRow, decode_addresses, scan_intent}
use nixos_kaiba_network.Store.Queries.{is_origin_pending, is_observation_pending}
use nixos_kaiba_network.Store.Progress.{InOrder}

module _ (platform : Platform) where
  -- For a row whose generations are in order, the publication status of the intent that it scans to
  -- says on which list of the publisher the row stands: `accepted` if it waits for the origin,
  -- `origin_applied` if it waits for observation, `publicly_observed` if it waits for neither.
  pub status-pending :
      (k : ℕ) (row : IntentRow) (intent : Intent)
      → InOrder k row
      → scan_intent platform row ≡ ok intent
      → status intent ≡ (
          if is_origin_pending row
          then accepted
          else if is_observation_pending row
          then origin_applied
          else publicly_observed)
  unfolding status is_origin_pending is_observation_pending scan_intent
  status-pending k row intent h scanned =
      let (addresses, d, e) = >>=-eq-ok (decode_addresses platform row.addresses_json) _ scanned in
      let a = h.applied in let b = h.desired in ground arith
