-- ===== src/Agent/Loop/Endings.antt =====
-- How the agent's loop ends, and when it does not.
use nixos_kaiba_network.Prelude.{
  ℕ, ◌≡◌, refl, Bool, not, ◌&&◌, ◌==◌, ltb, arith, Option, none, some, if◌then◌else◌, true, false,
  ◌⊎◌, inl, inr, List, [], ◌∷◌, All, Bool-cases, Result-cases, Result, ok, err,
}
use nixos_kaiba_network.Agent.{Agent, AgentError, http, retryable, is_retryable}
use nixos_kaiba_network.Agent.Loop.{
  second, Action, Exit, finished, cancelled, running, stopped, delay_after, after_wait, with_report,
  react, rounds_from, run,
}

-- An HTTP status below 500 that neither asks for a fresh precondition nor for patience. No other
-- error is fatal.
unfoldable pub is_fatal : AgentError → Bool
is_fatal (http e) =
    not (e.status_code == 412) && not (e.status_code == 429) && ltb e.status_code 500
is_fatal _ = false

is_retryable-is_fatal : (e : AgentError) → is_retryable e ≡ not (is_fatal e)
unfolding is_retryable is_fatal retryable
is_retryable-is_fatal e = ground arith

unfoldable pub fatal_or : {A : Type 0} → Result AgentError A → Option AgentError → Option AgentError
fatal_or (ok a) later = later
fatal_or (err e) later = if is_fatal e then some e else later

unfoldable pub exit_of : Option AgentError → Exit
exit_of none = running
exit_of (some e) = stopped e

module _ {S A R : Type 0} (agent : Agent) (update : R → S → S × Result AgentError A) where
  -- What each way to end takes: `Once`, or an error that is not to be tried again.
  abbrev pub Justified : Exit → Type 0
  Justified finished = agent.once ≡ true
  Justified (stopped e) = (agent.once ≡ true) ⊎ (is_retryable e ≡ false)
  Justified cancelled = Unit {0}
  Justified running = Unit {0}

  after_wait-Justified :
      (d : ℕ) (cancels : Bool) (s : S) (rest : S × List Action × Exit)
      → Justified rest.2
      → Justified (after_wait d cancels s rest).2
  unfolding after_wait
  after_wait-Justified d true s rest h = tt
  after_wait-Justified d false s rest h = h

  react-Justified :
      (backoff : ℕ) (result : Result AgentError A) (cancels : Bool) (s : S)
      (rest : S × List Action × Exit)
      → Justified rest.2
      → Justified (react agent backoff result cancels s rest).2
  unfolding react with_report
  react-Justified backoff (ok a) cancels s rest h = elim (Bool-cases agent.once) [
    | inl e ↦ simp e refl
    | inr e ↦ simp e (after_wait-Justified agent.renew_interval cancels s rest h)
  ]
  react-Justified backoff (err e) cancels s rest h = elim (Bool-cases agent.once) [
    | inl o ↦ simp o (inl refl)
    | inr o ↦ elim (Bool-cases (is_retryable e)) [
      | inl f ↦ simp (o, f) (after_wait-Justified backoff cancels s rest h)
      | inr f ↦ simp (o, f) (inr refl)
    ]
  ]

  rounds_from-Justified :
      (backoff : ℕ) (rounds : List (R × Bool)) (s : S)
      → Justified (rounds_from agent update backoff rounds s).2
  unfolding rounds_from
  rounds_from-Justified backoff [] s = tt
  rounds_from-Justified backoff ((r, cancels) ∷ rounds) s =
      let (s', result) = update r s in
      react-Justified backoff result cancels s' _
        (rounds_from-Justified (delay_after backoff result) rounds s')

  -- The loop returns without an error only under `Once`, and with the error of an update only under
  -- `Once` or where the error is an HTTP status that is not to be tried again.
  pub run-Justified : (rounds : List (R × Bool)) (s : S) → Justified (run agent update rounds s).2
  unfolding run
  run-Justified rounds s = rounds_from-Justified second rounds s

  -- The loop is not cancelled in any wait.
  abbrev pub Uncancelled : List (R × Bool) → Type 0
  Uncancelled = All (λ round. round.1 ≡ false)

  -- The first error of the updates, one after another, that is not to be tried again.
  unfoldable pub first_fatal : List (R × Bool) → S → Option AgentError
  unfolding fatal_or
  first_fatal [] s = none
  first_fatal ((r, cancels) ∷ rounds) s =
      let (s', result) = update r s in fatal_or result (first_fatal rounds s')

  rounds_from-first_fatal :
      agent.once ≡ false
      → (backoff : ℕ) (rounds : List (R × Bool)) (s : S) → Uncancelled rounds
      → (rounds_from agent update backoff rounds s).2 ≡ exit_of (first_fatal rounds s)
  unfolding rounds_from first_fatal fatal_or react after_wait with_report
  rounds_from-first_fatal o backoff [] s u = unfold exit_of in refl
  rounds_from-first_fatal o backoff ((r, cancels) ∷ rounds) s (c, u) =
      let s' = (update r s).0 in
      elim (Result-cases (update r s).1) [
        | inl (a, e) ↦
            rw (e, o, c)
              (rounds_from-first_fatal o (delay_after {A = A} backoff (ok a)) rounds s' u)
        | inr (error, e) ↦ elim (Bool-cases (is_fatal error)) [
          | inl f ↦ rw (e, o, is_retryable-is_fatal error, f) (unfold exit_of in refl)
          | inr f ↦
              rw (e, o, is_retryable-is_fatal error, f, c)
                (rounds_from-first_fatal o (delay_after {A = A} backoff (err error)) rounds s' u)
        ]
      ]

  -- Without `Once` and without a cancelled wait, the loop goes on through every failure of the
  -- network, of the files and of the interfaces, and through every HTTP status 412, 429 and 500 or
  -- more: it is stopped by the first other HTTP status with which an update fails, with this error,
  -- and it is still running after all its rounds if there is none.
  pub run-first_fatal :
      agent.once ≡ false
      → (rounds : List (R × Bool)) (s : S) → Uncancelled rounds
      → (run agent update rounds s).2 ≡ exit_of (first_fatal rounds s)
  unfolding run
  run-first_fatal o rounds s u = rounds_from-first_fatal o second rounds s u
