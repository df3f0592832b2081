-- ===== src/Publisher/Histories.antt =====
-- A pass of the publisher, seen by the store, is a history of store calls without a write of
-- desired state.
use nixos_kaiba_network.Prelude.{
  ℕ, ◌≡◌, refl, ap, ◌∙◌, Bool, true, false, Option, none, some, List, [], ◌∷◌, ◌++◌, All,
  All-append, Bytes, Bool-cases, inl, inr, Result, ok, err,
}
use nixos_kaiba_network.Prelude.Int.{ℤ}
use nixos_kaiba_network.Net.{Addr}
use nixos_kaiba_network.Model.{Intent, Time, Platform}
use nixos_kaiba_network.Store.{StoreError}
use nixos_kaiba_network.Store.Tables.{Database}
use nixos_kaiba_network.Store.Queries.{list_origin_pending, list_observation_pending}
use nixos_kaiba_network.Store.History.{
  Call, upserts, expires, applies, observes, reports, step, run,
}
use nixos_kaiba_network.Publisher.{
  Writer, PassFaults, Service, Pass, batch, is_valid_service, acquired, not_acquired, unavailable,
  Leadership, after_replace, publish_one, publish_all, after_observe, observe_one, observe_all,
  expire_pass, publish_listed, publish_pass, observe_listed, observe_with, observe_pass, run_led,
  run_once,
}

-- Not a write of desired state.
unfoldable pub is_publisher_call : Call → Bool
is_publisher_call (upserts faults request) = false
is_publisher_call _ = true

module _ (platform : Platform) where
  -- The tables `after` come from `before` by calls that a publisher may make.
  abbrev pub Reaches : Database → Database → Type 0
  Reaches before after =
      (calls : List Call) × All (λ call. is_publisher_call call ≡ true) calls
      × (run platform before calls ≡ after)

  pub run-append :
      (db : Database) (calls more : List Call)
      → run platform db (calls ++ more) ≡ run platform (run platform db calls) more
  unfolding run
  run-append db [] more = refl
  run-append db (call ∷ calls) more = run-append (step platform db call) calls more

  pub Reaches-refl : (db : Database) → Reaches db db
  unfolding run
  Reaches-refl db = ([], tt, refl)

  pub Reaches-trans : (a b c : Database) → Reaches a b → Reaches b c → Reaches a c
  Reaches-trans a b c (calls, p, e) (more, q, f) = (
    calls ++ more,
    All-append (λ call. is_publisher_call call ≡ true) calls more p q,
    run-append a calls more ∙ ap (λ (db : Database). run platform db more) e ∙ f,
  )

  Reaches-step :
      (db : Database) (call : Call)
      → is_publisher_call call ≡ true
      → Reaches db (step platform db call)
  unfolding run
  Reaches-step db call p = (call ∷ [], (p, tt), refl)

  module _ (writer : Writer) where
    after_replace-Reaches :
        (faults : PassFaults) (pass : Pass writer) (intent : Intent) (zone : writer.Zone)
        (error : Option Bytes)
        → Reaches pass.db (after_replace writer faults pass intent zone error).db
    unfolding after_replace step is_publisher_call
    after_replace-Reaches faults pass intent zone none =
        Reaches-step pass.db
          (applies (faults.publish intent.device_id) intent.device_id intent.generation) refl
    after_replace-Reaches faults pass intent zone (some message) =
        Reaches-step pass.db
          (reports (faults.publish intent.device_id) intent.device_id intent.generation message)
          refl

    publish_all-Reaches :
        (faults : PassFaults) (ttl : ℕ) (pass : Pass writer) (pending : List Intent)
        → Reaches pass.db (publish_all writer faults ttl pass pending).db
    unfolding publish_all publish_one
    publish_all-Reaches faults ttl pass [] = Reaches-refl pass.db
    publish_all-Reaches faults ttl pass (intent ∷ pending) =
        Reaches-trans _ _ _ (after_replace-Reaches faults pass intent _ _)
          (publish_all-Reaches faults ttl (publish_one writer faults ttl pass intent) pending)

    after_observe-Reaches :
        (faults : PassFaults) (pass : Pass writer) (intent : Intent) (found : Result Bytes Bool)
        → Reaches pass.db (after_observe writer faults pass intent found).db
    unfolding after_observe step is_publisher_call
    after_observe-Reaches faults pass intent (err message) = Reaches-refl pass.db
    after_observe-Reaches faults pass intent (ok false) = Reaches-refl pass.db
    after_observe-Reaches faults pass intent (ok true) =
        Reaches-step pass.db
          (observes (faults.observe intent.device_id) intent.device_id intent.generation) refl

    observe_all-Reaches :
        (faults : PassFaults) (observe : Bytes → List Addr → Result Bytes Bool) (pass : Pass writer)
        (pending : List Intent)
        → Reaches pass.db (observe_all writer faults observe pass pending).db
    unfolding observe_all observe_one
    observe_all-Reaches faults observe pass [] = Reaches-refl pass.db
    observe_all-Reaches faults observe pass (intent ∷ pending) =
        Reaches-trans _ _ _ (after_observe-Reaches faults pass intent _) (
          observe_all-Reaches faults observe (observe_one writer faults observe pass intent)
            pending)

    publish_listed-Reaches :
        (faults : PassFaults) (s : Service writer) (pass : Pass writer)
        (listed : Result StoreError (List Intent))
        → Reaches pass.db (publish_listed writer platform faults s pass listed).db
    unfolding publish_listed
    publish_listed-Reaches faults s pass (err e) = Reaches-refl pass.db
    publish_listed-Reaches faults s pass (ok pending) =
        publish_all-Reaches faults s.ttl pass pending

    publish_pass-Reaches :
        (faults : PassFaults) (s : Service writer) (pass : Pass writer)
        → Reaches pass.db (publish_pass writer platform faults s pass).db
    unfolding publish_pass
    publish_pass-Reaches faults s pass =
        publish_listed-Reaches faults s pass
          (list_origin_pending platform faults.list_origin pass.db (batch writer s))

    observe_listed-Reaches :
        (faults : PassFaults) (observe : Bytes → List Addr → Result Bytes Bool) (pass : Pass writer)
        (listed : Result StoreError (List Intent))
        → Reaches pass.db (observe_listed writer platform faults observe pass listed).db
    unfolding observe_listed
    observe_listed-Reaches faults observe pass (err e) = Reaches-refl pass.db
    observe_listed-Reaches faults observe pass (ok pending) =
        observe_all-Reaches faults observe pass pending

    observe_with-Reaches :
        (faults : PassFaults) (limit : ℤ)
        (observer : Option (Bytes → List Addr → Result Bytes Bool)) (pass : Pass writer)
        → Reaches pass.db (observe_with writer platform faults limit observer pass).db
    unfolding observe_with
    observe_with-Reaches faults limit none pass = Reaches-refl pass.db
    observe_with-Reaches faults limit (some observe) pass =
        observe_listed-Reaches faults observe pass
          (list_observation_pending platform faults.list_observation pass.db limit)

    observe_pass-Reaches :
        (faults : PassFaults) (s : Service writer) (pass : Pass writer)
        → Reaches pass.db (observe_pass writer platform faults s pass).db
    unfolding observe_pass
    observe_pass-Reaches faults s pass =
        observe_with-Reaches faults (batch writer s) s.observer pass

    expire_pass-Reaches :
        (faults : PassFaults) (now : Time) (db : Database) (zone : writer.Zone)
        → Reaches db (expire_pass writer platform faults now db zone).db
    unfolding expire_pass step is_publisher_call
    expire_pass-Reaches faults now db zone = Reaches-step db (expires faults.expire now) refl

    run_led-Reaches :
        (faults : PassFaults) (s : Service writer) (now : Time) (db : Database) (zone : writer.Zone)
        (leadership : Leadership)
        → Reaches db (run_led writer platform faults s now db zone leadership).0.0
    unfolding run_led
    run_led-Reaches faults s now db zone (unavailable message) = Reaches-refl db
    run_led-Reaches faults s now db zone not_acquired = Reaches-refl db
    run_led-Reaches faults s now db zone acquired =
        Reaches-trans _ _ _ (expire_pass-Reaches faults now db zone) (
          Reaches-trans _ _ _
            (publish_pass-Reaches faults s (expire_pass writer platform faults now db zone))
            (observe_pass-Reaches faults s (
              publish_pass writer platform faults s
                (expire_pass writer platform faults now db zone))))

    -- Whatever its configuration, its leadership, the DNS origin, the resolvers and SQLite do,
    -- `RunOnce` changes the tables only by a history of calls of `ExpireLeases`,
    -- `MarkOriginApplied`, `MarkPubliclyObserved` and `MarkPublicationError`.
    pub run_once-Reaches :
        (faults : PassFaults) (s : Service writer) (now : Time) (db : Database) (zone : writer.Zone)
        → Reaches db (run_once writer platform faults s now db zone).0.0
    unfolding run_once
    run_once-Reaches faults s now db zone = elim (Bool-cases (is_valid_service writer s)) [
      | inr e ↦ rw e (Reaches-refl db)
      | inl e ↦ rw e (run_led-Reaches faults s now db zone s.leadership)
    ]
