-- ===== src/Fleet/LostResponse.antt =====
-- A response that is lost, and the update after it.
use nixos_kaiba_network.Prelude.{
  ◌<◌, ◌≡◌, refl, ap, ◌∙◌, Bool, true, false, some, List, ◌∷◌, is_empty, if◌then◌else◌, ok, err,
}
use nixos_kaiba_network.Prelude.Int.{pos, ◌≤ℤ◌, ◌<ℤ◌, int64_max}
use nixos_kaiba_network.Net.{Addr}
use nixos_kaiba_network.Model.{Platform, addresses_hash}
use nixos_kaiba_network.Api.{generation_etag}
use nixos_kaiba_network.Api.GenerationEtag.{parse-generation_etag}
use nixos_kaiba_network.Store.{UpsertRequest, UpsertResult}
use nixos_kaiba_network.Store.Tables.{Database, no_faults}
use nixos_kaiba_network.Store.Upsert.{upsert_intent}
use nixos_kaiba_network.Store.History.{run}
use nixos_kaiba_network.Store.Replay.{replay_forever}
use nixos_kaiba_network.Controller.{
  Handler, write_state, read_write, put_endpoints, store_write, device_state,
}
use nixos_kaiba_network.Controller.Writes.{read_write-IsValid, read_write-at, retimed}
use nixos_kaiba_network.Agent.{
  Agent, AgentError, no_connection, writes_endpoints, no_response, answered, Json, limit_body,
}
use nixos_kaiba_network.Agent.Discovery.{Prefixes}
use nixos_kaiba_network.Agent.Pending.{PendingState, Disk, Attempt, usable, fail}
use nixos_kaiba_network.Agent.Update.{own_addresses, put_request, attempt, update_once}
use nixos_kaiba_network.Agent.Update.Steps.{
  cleared, attempt-usable, submit-no_response, submit-accepted,
}
use nixos_kaiba_network.Fleet.{
  Encoder, Link, response_lost, delivered, write_request, reply_to, handle_request, deliver, send,
  controller,
}

if_same : {A : Type 0} (b : Bool) (x : A) → (if b then x else x) ≡ x
if_same true x = refl
if_same false x = refl

module _ (platform : Platform) (prefixes : Prefixes) (json : Json) (agent : Agent) (h : Handler)
    (encoder : Encoder) where
  lost_send :
      (lost : Link) (links : List Link) (db : Database) (addresses : List Addr)
      (pending : PendingState) (upsert : UpsertRequest)
      → lost.delivery ≡ response_lost
      → read_write platform h
          (write_request lost.device (put_request platform prefixes json agent addresses pending))
          lost.now
        ≡ ok upsert
      → send platform h encoder
          (db, lost ∷ links)
          (writes_endpoints (put_request platform prefixes json agent addresses pending))
        ≡ (
          ((upsert_intent platform lost.writing (run platform db lost.before) upsert).0, links),
          no_response,
        )
  unfolding send handle_request put_endpoints
  lost_send lost links db addresses pending upsert dropped asked =
      rw (dropped, asked) (unfold deliver store_write in refl)

  -- The same write again, on tables where others made calls since.
  back_send :
      (lost back : Link) (links : List Link) (db : Database) (addresses : List Addr)
      (pending : PendingState) (upsert : UpsertRequest) (result : UpsertResult)
      → back.delivery ≡ delivered
      → back.device ≡ lost.device
      → back.writing ≡ no_faults
      → read_write platform h
          (write_request lost.device (put_request platform prefixes json agent addresses pending))
          lost.now
        ≡ ok upsert
      → (upsert_intent platform lost.writing (run platform db lost.before) upsert).1 ≡ ok result
      → result.replay ≡ false
      → let written =
          (upsert_intent platform lost.writing (run platform db lost.before) upsert).0 in
        send platform h encoder
          (written, back ∷ links)
          (writes_endpoints (put_request platform prefixes json agent addresses pending))
        ≡ (
          (run platform written back.before, links),
          answered (
              reply_to encoder (
                write_state 202
                  (generation_etag result.intent.generation)
                  (device_state platform h result.intent upsert.renew_after_seconds))),
        )
  unfolding send handle_request put_endpoints
  back_send lost back links db addresses pending upsert result arrives same healthy asked accepted
        new =
      let request =
        write_request lost.device (put_request platform prefixes json agent addresses pending) in
      let again : read_write platform h request back.now ≡ ok (record upsert { now = back.now }) =
        read_write-at platform h request lost.now back.now ∙ ap (retimed back.now) asked in
      let replayed =
        replay_forever platform lost.writing (run platform db lost.before) upsert
          (record upsert { now = back.now }) back.before result
          (read_write-IsValid platform h request lost.now upsert asked) accepted new
          (refl, refl, refl, refl) in
      rw (arrives, same, again, store_write, healthy, replayed, if_same)
        (unfold device_state in refl)

  -- Suppose the state file holds a state for the addresses of the agent, and the controller accepts
  -- the write that it stands for as new, but the response is lost. Then the update fails and leaves
  -- the files as they are. After any calls of others on the store, the next update for the same
  -- addresses, where the network and SQLite do not fail, sends the same write, which changes nothing
  -- in the tables, and returns the state that was lost, if its lease still runs; and the state file
  -- is gone.
  pub lost_response :
      (lost back : Link) (links : List Link) (first first' next next' : Attempt) (disk : Disk)
      (db : Database) (addresses : List Addr) (pending : PendingState) (upsert : UpsertRequest)
      (result : UpsertResult)
      → own_addresses platform prefixes json agent first ≡ ok addresses
      → own_addresses platform prefixes json agent next ≡ ok addresses
      → is_empty addresses ≡ false
      → first.reading ≡ false
      → next.reading ≡ false
      → next.removing ≡ false
      → usable (addresses_hash platform addresses) disk.state_file ≡ some pending
      → lost.delivery ≡ response_lost
      → back.delivery ≡ delivered
      → back.device ≡ lost.device
      → back.writing ≡ no_faults
      → read_write platform h
          (write_request lost.device (put_request platform prefixes json agent addresses pending))
          lost.now
        ≡ ok upsert
      → (upsert_intent platform lost.writing (run platform db lost.before) upsert).1 ≡ ok result
      → result.replay ≡ false
      → pos 0 <ℤ result.intent.generation
      → result.intent.generation ≤ℤ pos int64_max
      → json.decode_state (
          limit_body (
            encoder.encode_state
              (device_state platform h result.intent upsert.renew_after_seconds)))
        ≡ some (device_state platform h result.intent upsert.renew_after_seconds)
      → next.now < result.intent.lease_expires_at
      → let network = controller platform h encoder in
        let update = update_once platform prefixes json agent network in
        let written =
          (upsert_intent platform lost.writing (run platform db lost.before) upsert).0 in
        (update first first' (disk, (db, lost ∷ back ∷ links))
          ≡ ((disk, (written, back ∷ links)), err no_connection))
        × (update next next' (disk, (written, back ∷ links)) ≡ (
          (cleared disk, (run platform written back.before, links)),
          ok (device_state platform h result.intent upsert.renew_after_seconds),
        ))
  unfolding update_once reply_to device_state
  lost_response lost back links first first' next next' disk db addresses pending upsert result own
        own' filled reads reads' removes known dropped arrives same healthy asked accepted new
        positive fits decodes live =
      let network = controller platform h encoder in
      let attempt_by = attempt platform prefixes json agent network in
      let after_first = λ (_ : AgentError). attempt_by fail first' in
      let after_next = λ (_ : AgentError). attempt_by fail next' in
      (
        attempt-usable platform prefixes json agent network after_first first addresses pending disk
              _ own filled reads known
            ∙ submit-no_response platform prefixes json agent network after_first first addresses
                pending disk _ _
                (lost_send lost (back ∷ links) db addresses pending upsert dropped asked),
        attempt-usable platform prefixes json agent network after_next next addresses pending disk _
              own' filled reads' known
            ∙ submit-accepted platform prefixes json agent network after_next next addresses pending
                disk _ _ _ _
                (back_send lost back links db addresses pending upsert result arrives same healthy
                  asked accepted new)
                refl (parse-generation_etag result.intent.generation positive fits) decodes removes
                live,
      )
