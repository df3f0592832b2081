-- ===== src/Agent/Loop/Backoff.antt =====
-- The waits of the agent's loop.
use nixos_kaiba_network.Prelude.{
  ℕ, zero, suc, ◌*◌, ◌^◌, ◌≤◌, ◌≡◌, refl, ap, Bool, true, false, not, ◌||◌, ◌⊎◌, inl, inr, List, [],
  ◌∷◌, arith, ltb, All, Bool-cases, if◌then◌else◌, Result, ok, err,
}
use nixos_kaiba_network.Agent.{Agent, AgentError, is_retryable}
use nixos_kaiba_network.Agent.Loop.{
  second, minute, Action, reports, waits, Exit, running, next_backoff, delay_after, after_wait,
  with_report, react, rounds_from, run,
}

-- The wait after so many failures in a row, the last one not counted.
pub delay : ℕ → ℕ
delay failures = if ltb failures 6 then 2 ^ failures * second else minute

next_backoff-delay : (k : ℕ) → next_backoff (delay k) ≡ delay (suc k)
unfolding next_backoff delay
next_backoff-delay zero = refl
next_backoff-delay (suc zero) = refl
next_backoff-delay (suc (suc zero)) = refl
next_backoff-delay (suc (suc (suc zero))) = refl
next_backoff-delay (suc (suc (suc (suc zero)))) = refl
next_backoff-delay (suc (suc (suc (suc (suc zero))))) = refl
next_backoff-delay (suc (suc (suc (suc (suc (suc k)))))) = ground arith

abbrev pub InRange : Agent → Action → Type 0
InRange agent (reports e) = Unit {0}
InRange agent (waits d) = (d ≡ agent.renew_interval) ⊎ ((second ≤ d) × (d ≤ minute))

-- The failures in a row after an update.
failures_after : {A : Type 0} → ℕ → Result AgentError A → ℕ
failures_after failures (ok a) = 0
failures_after failures (err e) = suc failures

delay_after-delay :
    {A : Type 0} (k : ℕ) (result : Result AgentError A)
    → delay_after (delay k) result ≡ delay (failures_after k result)
unfolding delay_after failures_after
delay_after-delay k (ok a) = unfold delay in refl
delay_after-delay k (err e) = next_backoff-delay k

module _ {S A R : Type 0} (agent : Agent) (update : R → S → S × Result AgentError A) where
  -- The loop with the failures in a row counted, and each wait in closed form.
  unfoldable pub counted_from : ℕ → List (R × Bool) → S → S × List Action × Exit
  unfolding react failures_after
  counted_from failures [] s = (s, [], running)
  counted_from failures ((r, cancels) ∷ rounds) s =
      let (s', result) = update r s in
      react agent (delay failures) result cancels s'
        (counted_from (failures_after failures result) rounds s')

  rounds_from-delay :
      (k : ℕ) (rounds : List (R × Bool)) (s : S)
      → rounds_from agent update (delay k) rounds s ≡ counted_from k rounds s
  unfolding rounds_from counted_from
  rounds_from-delay k [] s = refl
  rounds_from-delay k ((r, cancels) ∷ rounds) s =
      let (s', result) = update r s in
      ap (react agent (delay k) result cancels s')
        (rw (delay_after-delay k result) (rounds_from-delay (failures_after k result) rounds s'))

  -- The loop, with its doubling wait, is the loop that counts the failures in a row and waits
  -- 1, 2, 4, 8, 16 and 32 seconds after the first six, and a minute after each later one.
  pub run-counted :
      (rounds : List (R × Bool)) (s : S) → run agent update rounds s ≡ counted_from 0 rounds s
  unfolding run delay
  run-counted rounds s = rounds_from-delay 0 rounds s

  after_wait-InRange :
      (d : ℕ) (cancels : Bool) (s : S) (rest : S × List Action × Exit)
      → InRange agent (waits d)
      → All (InRange agent) rest.1
      → All (InRange agent) (after_wait d cancels s rest).1
  unfolding after_wait
  after_wait-InRange d true s rest w h = (w, tt)
  after_wait-InRange d false s rest w h = (w, h)

  react-InRange :
      (backoff : ℕ) (result : Result AgentError A) (cancels : Bool) (s : S)
      (rest : S × List Action × Exit)
      → second ≤ backoff
      → backoff ≤ minute
      → All (InRange agent) rest.1
      → All (InRange agent) (react agent backoff result cancels s rest).1
  unfolding react with_report
  react-InRange backoff (ok a) cancels s rest low high h = elim (Bool-cases agent.once) [
    | inl e ↦ rw e tt
    | inr e ↦ rw e (after_wait-InRange agent.renew_interval cancels s rest (inl refl) h)
  ]
  react-InRange backoff (err e) cancels s rest low high h =
      elim (Bool-cases (agent.once || not (is_retryable e))) [
        | inl f ↦ rw f (tt, tt)
        | inr f ↦ rw f (tt, after_wait-InRange backoff cancels s rest (inr (low, high)) h)
      ]

  delay_after_bounds :
      (backoff : ℕ) (result : Result AgentError A)
      → second ≤ backoff
      → (second ≤ delay_after backoff result) × (delay_after backoff result ≤ minute)
  unfolding delay_after next_backoff
  delay_after_bounds backoff (ok a) low = omega arith
  delay_after_bounds backoff (err e) low = ground arith

  rounds_from-InRange :
      (backoff : ℕ) (rounds : List (R × Bool)) (s : S)
      → second ≤ backoff
      → backoff ≤ minute
      → All (InRange agent) (rounds_from agent update backoff rounds s).1
  unfolding rounds_from
  rounds_from-InRange backoff [] s low high = tt
  rounds_from-InRange backoff ((r, cancels) ∷ rounds) s low high =
      let (s', result) = update r s in
      let (low', high') = delay_after_bounds backoff result low in
      react-InRange backoff result cancels s' _ low high
        (rounds_from-InRange (delay_after backoff result) rounds s' low' high')

  -- Whatever the updates return, every wait of the loop is the renew interval or lies between a
  -- second and a minute.
  pub run-InRange :
      (rounds : List (R × Bool)) (s : S) → All (InRange agent) (run agent update rounds s).1
  unfolding run
  run-InRange rounds s = rounds_from-InRange second rounds s (omega arith) (omega arith)
