-- ===== src/Agent/Loop.antt =====
-- dns/internal/agent/agent.go: the loop of updates, and its waits.
pub mod Endings
pub mod Backoff
use nixos_kaiba_network.Prelude.{
  ℕ, zero, suc, ◌*◌, ◌≡◌, Bool, true, false, not, ◌||◌, List, [], ◌∷◌, ltb, if◌then◌else◌, Result,
  ok, err,
}
use nixos_kaiba_network.Agent.{Agent, AgentError, is_retryable}

abbrev pub second : ℕ
second = 1000000000

abbrev pub minute : ℕ
minute = 60 * second

-- What the loop does besides its updates: it reports an error, and it waits. Durations are those
-- before `jitter` spreads them.
pub data Action : Type 0 where
  reports : AgentError → Action
  waits : ℕ → Action

-- How the loop ends; `running` where the rounds given are over.
pub data Exit : Type 0 where
  finished cancelled running : Exit
  stopped : AgentError → Exit

-- The wait after a failure is doubled, up to a minute.
unfoldable pub next_backoff : ℕ → ℕ
next_backoff backoff = if ltb minute (backoff * 2) then minute else backoff * 2

unfoldable pub delay_after : {A : Type 0} → ℕ → Result AgentError A → ℕ
unfolding next_backoff
delay_after backoff (ok a) = second
delay_after backoff (err e) = next_backoff backoff

-- What follows a wait, whose context may be cancelled.
unfoldable pub after_wait :
    {S : Type 0} → ℕ → Bool → S → S × List Action × Exit → S × List Action × Exit
after_wait duration true s rest = (s, waits duration ∷ [], cancelled)
after_wait duration false s (s', actions, exit) = (s', waits duration ∷ actions, exit)

unfoldable pub with_report :
    {S : Type 0} → AgentError → S × List Action × Exit → S × List Action × Exit
with_report e (s, actions, exit) = (s, reports e ∷ actions, exit)

module _ {S A : Type 0} (agent : Agent) where
  -- A round of the loop after its update; `rest` is what the later rounds do.
  unfoldable pub react :
      ℕ → Result AgentError A → Bool → S → S × List Action × Exit → S × List Action × Exit
  unfolding after_wait with_report
  react backoff (ok a) cancels s rest =
      if agent.once then (s, [], finished) else after_wait agent.renew_interval cancels s rest
  react backoff (err e) cancels s rest = with_report e (
      if agent.once || not (is_retryable e)
      then (s, [], stopped e)
      else after_wait backoff cancels s rest)

  module _ {R : Type 0} (update : R → S → S × Result AgentError A) where
    -- The rounds, each with the surroundings of its update and whether its wait is cancelled.
    unfoldable pub rounds_from : ℕ → List (R × Bool) → S → S × List Action × Exit
    unfolding react delay_after
    rounds_from backoff [] s = (s, [], running)
    rounds_from backoff ((r, cancels) ∷ rounds) s =
        let (s', result) = update r s in
        react backoff result cancels s' (rounds_from (delay_after backoff result) rounds s')

    unfoldable pub run : List (R × Bool) → S → S × List Action × Exit
    unfolding rounds_from
    run = rounds_from second
