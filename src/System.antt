-- ===== src/System.antt =====
-- The control plane as a whole: requests of devices to dns/internal/controller/controller.go and
-- passes of dns/internal/publisher/publisher.go, in any order, over one store.
use nixos_kaiba_network.Prelude.{
  ◌≡◌, refl, sym, ap, ◌∙◌, true, inl, inr, List, [], ◌∷◌, ◌++◌, All, Bytes, Bool-cases,
  Result-cases, Result, ok, err, not, ◌&&◌, is_empty,
}
use nixos_kaiba_network.Identity.{Device}
use nixos_kaiba_network.Model.{Intent, Time, Platform}
use nixos_kaiba_network.Store.{StoreError}
use nixos_kaiba_network.Store.Tables.{Database, Faults}
use nixos_kaiba_network.Store.Upsert.{has_lapsed}
use nixos_kaiba_network.Store.Leases.{expire_leases}
use nixos_kaiba_network.Store.Queries.{get_intent}
use nixos_kaiba_network.Store.History.{
  Call, upserts, expires, applies, observes, reports, step, run,
}
use nixos_kaiba_network.Store.Versions.Histories.{ValidCalls}
use nixos_kaiba_network.Controller.{
  Handler, AuthenticationError, WriteRequest, put_endpoints, read_expired, status_after, get_status,
}
use nixos_kaiba_network.Controller.Writes.{put_endpoints-Call}
use nixos_kaiba_network.Publisher.{Writer, PassFaults, Service, run_once}
use nixos_kaiba_network.Publisher.Histories.{is_publisher_call, run-append, run_once-Reaches}

module _ (platform : Platform) (writer : Writer) (h : Handler) where
  pub data Event : Type 0 where
    writes : Faults → WriteRequest → Time → Event
    reads : Faults → Faults → Faults → Result AuthenticationError Device → Time → Event
    publishes : PassFaults → Service writer → Time → Event

  unfoldable pub handle : Database × writer.Zone → Event → Database × writer.Zone
  handle (db, zone) (writes faults request now) =
      ((put_endpoints platform h faults db request now).0, zone)
  handle (db, zone) (reads reading expiring rereading device now) =
      ((get_status platform h reading expiring rereading db device now).0, zone)
  handle (db, zone) (publishes faults s now) = (run_once writer platform faults s now db zone).0

  unfoldable pub handle_all : Database × writer.Zone → List Event → Database × writer.Zone
  unfolding handle
  handle_all state [] = state
  handle_all state (event ∷ events) = handle_all (handle state event) events

  -- The tables `after` come from `before` by store calls whose requests name valid addresses.
  abbrev pub Follows : Database → Database → Type 0
  Follows before after =
      (calls : List Call) × ValidCalls calls × (run platform before calls ≡ after)

  ValidCalls-append :
      (calls more : List Call) → ValidCalls calls → ValidCalls more → ValidCalls (calls ++ more)
  ValidCalls-append [] more v w = w
  ValidCalls-append (upserts faults request ∷ calls) more v w =
      (v.0, ValidCalls-append calls more v.1 w)
  ValidCalls-append (expires faults now ∷ calls) more v w = ValidCalls-append calls more v w
  ValidCalls-append (applies faults id g ∷ calls) more v w = ValidCalls-append calls more v w
  ValidCalls-append (observes faults id g ∷ calls) more v w = ValidCalls-append calls more v w
  ValidCalls-append (reports faults id g m ∷ calls) more v w = ValidCalls-append calls more v w

  ValidCalls-of_publisher :
      (calls : List Call) → All (λ call. is_publisher_call call ≡ true) calls → ValidCalls calls
  unfolding is_publisher_call
  ValidCalls-of_publisher [] p = tt
  ValidCalls-of_publisher (upserts faults request ∷ calls) p = absurd (let q = p.0 in cc)
  ValidCalls-of_publisher (expires faults now ∷ calls) p = ValidCalls-of_publisher calls p.1
  ValidCalls-of_publisher (applies faults id g ∷ calls) p = ValidCalls-of_publisher calls p.1
  ValidCalls-of_publisher (observes faults id g ∷ calls) p = ValidCalls-of_publisher calls p.1
  ValidCalls-of_publisher (reports faults id g m ∷ calls) p = ValidCalls-of_publisher calls p.1

  Follows-refl : (db : Database) → Follows db db
  unfolding run
  Follows-refl db = ([], tt, refl)

  Follows-trans : (a b c : Database) → Follows a b → Follows b c → Follows a c
  Follows-trans a b c (calls, v, e) (more, w, f) = (
    calls ++ more,
    ValidCalls-append calls more v w,
    run-append platform a calls more ∙ ap (λ (db : Database). run platform db more) e ∙ f,
  )

  read_expired-tables :
      (rereading : Faults) (id : Bytes) (expired : Database × Result StoreError (List Intent))
      → (read_expired platform h rereading id expired).0 ≡ expired.0
  unfolding read_expired
  read_expired-tables rereading id (db, err e) = refl
  read_expired-tables rereading id (db, ok expired) = refl

  get_status-Follows :
      (reading expiring rereading : Faults) (db : Database)
      (device : Result AuthenticationError Device) (now : Time)
      → Follows db (get_status platform h reading expiring rereading db device now).0
  unfolding get_status status_after run step
  get_status-Follows reading expiring rereading db (err e) now = Follows-refl db
  get_status-Follows reading expiring rereading db (ok device) now =
      elim (Result-cases (get_intent platform reading db device.id)) [
        | inr (e, g) ↦ rw g (Follows-refl db)
        | inl (intent, g) ↦
            rw g
              (elim (Bool-cases
                (not (is_empty intent.addresses) && has_lapsed now intent.lease_expires_at)) [
                  | inr live ↦ rw live (Follows-refl db)
                  | inl over ↦
                      let after = sym (
                        read_expired-tables rereading device.id
                          (expire_leases platform expiring db now)) in
                      rw over (expires expiring now ∷ [], tt, after)
                ])
      ]

  handle-Follows :
      (state : Database × writer.Zone) (event : Event) → Follows state.0 (handle state event).0
  unfolding handle
  handle-Follows (db, zone) (writes faults request now) =
      elim (put_endpoints-Call platform h faults db request now) [
        | inl same ↦ ([], tt, unfold run in sym same)
        | inr (upsert, _, v, e) ↦ (upserts faults upsert ∷ [], v, sym e)
      ]
  handle-Follows (db, zone) (reads reading expiring rereading device now) =
      get_status-Follows reading expiring rereading db device now
  handle-Follows (db, zone) (publishes faults s now) =
      let (calls, p, e) = run_once-Reaches platform writer faults s now db zone in
      (calls, ValidCalls-of_publisher calls p, e)

  -- Whatever requests devices make and whatever passes the publisher runs, in any order and with
  -- any failures of SQLite, the DNS origin and the resolvers, the tables go through a history of
  -- store calls in which every write names valid addresses only. What holds of all such histories
  -- holds of the control plane.
  pub handle_all-Follows :
      (state : Database × writer.Zone) (events : List Event)
      → Follows state.0 (handle_all state events).0
  unfolding handle_all
  handle_all-Follows state [] = Follows-refl state.0
  handle_all-Follows state (event ∷ events) =
      Follows-trans state.0 (handle state event).0 _ (handle-Follows state event)
        (handle_all-Follows (handle state event) events)
