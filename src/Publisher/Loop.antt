-- ===== src/Publisher/Loop.antt =====
-- dns/internal/publisher/publisher.go: the loop of `Run` around its passes.
use nixos_kaiba_network.Prelude.{
  Bool, not, Option, none, some, List, [], ◌∷◌, Bytes, if◌then◌else◌, Result, Bool-cases, inl, inr,
}
use nixos_kaiba_network.Prelude.Int.{ℤ, pos, leb_ℤ}
use nixos_kaiba_network.Net.{Addr}
use nixos_kaiba_network.Model.{Time, Platform}
use nixos_kaiba_network.Store.Tables.{Database}
use nixos_kaiba_network.Publisher.{
  Writer, Service, Leadership, PassFaults, Returned, is_valid_service, run_once,
}
use nixos_kaiba_network.Publisher.Histories.{Reaches, Reaches-refl, Reaches-trans, run_once-Reaches}

-- What a pass meets: the failures of SQLite, the time, what the leadership and the resolvers answer,
-- and whether the context is cancelled in the wait that follows.
pub record Round : Type 0 where
  pub faults : PassFaults
  pub now : Time
  pub leadership : Leadership
  pub observe : Bytes → List Addr → Result Bytes Bool
  pub cancels : Bool

-- How the loop ends; `still_running` where the rounds given are over.
pub data LoopEnd : Type 0 where
  bad_interval bad_service cancelled still_running : LoopEnd

observer_in :
    Round
    → Option (Bytes → List Addr → Result Bytes Bool)
    → Option (Bytes → List Addr → Result Bytes Bool)
observer_in r none = none
observer_in r (some observe) = some r.observe

module _ (writer : Writer) (platform : Platform) where
  open writer use {Zone}

  -- The service in a round: its observer answers as the resolvers do then.
  unfoldable pub in_round : Service writer → Round → Service writer
  unfolding observer_in
  in_round s r = record s { leadership = r.leadership; observer = observer_in r s.observer }

  -- The passes, with what each returns.
  unfoldable pub passes :
      Service writer → List Round → Database → Zone → (Database × Zone) × List Returned × LoopEnd
  unfolding in_round
  passes s [] db zone = ((db, zone), [], still_running)
  passes s (r ∷ rounds) db zone =
      let passed = run_once writer platform r.faults (in_round s r) r.now db zone in
      let (state, returned, end) = passes s rounds passed.0.0 passed.0.1 in
      if r.cancels then (passed.0, passed.1 ∷ [], cancelled) else (state, passed.1 ∷ returned, end)

  -- `Run`
  unfoldable pub run_loop :
      ℤ
      → Service writer
      → List Round
      → Database
      → Zone
      → (Database × Zone) × List Returned × LoopEnd
  unfolding passes
  run_loop interval s rounds db zone =
      if leb_ℤ interval (pos 0)
      then ((db, zone), [], bad_interval)
      else if not (is_valid_service writer s)
      then ((db, zone), [], bad_service)
      else passes s rounds db zone

  passes-Reaches :
      (s : Service writer) (rounds : List Round) (db : Database) (zone : Zone)
      → Reaches platform db (passes s rounds db zone).0.0
  unfolding passes
  passes-Reaches s [] db zone = Reaches-refl platform db
  passes-Reaches s (r ∷ rounds) db zone =
      let passed = run_once writer platform r.faults (in_round s r) r.now db zone in
      let first = run_once-Reaches platform writer r.faults (in_round s r) r.now db zone in
      elim (Bool-cases r.cancels) [
        | inl e ↦ simp e first
        | inr e ↦
            simp e
              (Reaches-trans platform _ _ _ first (passes-Reaches s rounds passed.0.0 passed.0.1))
      ]

  -- However long `Run` goes on, whatever its interval and configuration are, and whatever its
  -- leadership, the DNS origin, the resolvers, the clock and SQLite do in each of its passes, the
  -- tables change only by a history of calls of `ExpireLeases`, `MarkOriginApplied`,
  -- `MarkPubliclyObserved` and `MarkPublicationError`.
  pub run_loop-Reaches :
      (interval : ℤ) (s : Service writer) (rounds : List Round) (db : Database) (zone : Zone)
      → Reaches platform db (run_loop interval s rounds db zone).0.0
  unfolding run_loop
  run_loop-Reaches interval s rounds db zone = elim (Bool-cases (leb_ℤ interval (pos 0))) [
    | inl e ↦ simp e (Reaches-refl platform db)
    | inr e ↦ elim (Bool-cases (is_valid_service writer s)) [
      | inl v ↦ simp (e, v) (passes-Reaches s rounds db zone)
      | inr v ↦ simp (e, v) (Reaches-refl platform db)
    ]
  ]
