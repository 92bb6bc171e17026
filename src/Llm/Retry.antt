-- ===== src/Llm/Retry.antt =====
-- One operation's attempts (internal/llm/retry.go).
--
-- What happens outside of Retry is a list of rounds: whether the context had an error before the
-- call, what the call gave, and whether the context had one after it or during the wait. The loop
-- reads one round per attempt. The log has the number of calls and the published retry events.
pub mod Deciding
use elbot.Base.{
  ℕ, zero, suc, ◌+◌, ◌*◌, ◌≤◌, ◌≡◌, ◌⊎◌, ap, subst, sym, ◌∙◌, refl, Bool, true, false, not, ◌&&◌,
  Option, none, some, List, [], ◌∷◌, arith, if◌then◌else◌, leb, ◌==◌, inl, inr,
}

-- The largest Duration, 1 << 63 - 1, halved.
abbrev pub half_max : ℕ
half_max = 4611686018427387903

pub data Failure : Type 0 where
  retryable terminal : Failure

-- One attempt's surroundings. `R` is the result type, which a failing call also gives.
pub record Round {ℓ} (R : Type ℓ) : Type ℓ where
  pub ended_before : Bool
  pub outcome : Option Failure
  pub result : R
  pub ended_after : Bool
  pub ended_waiting : Bool

pub record RetryEvent : Type 0 where
  pub attempt : ℕ
  pub delay : ℕ

pub data Status : Type 0 where
  succeeded context_error : Status
  failed : Failure → Status

pub record Returned {ℓ} (R : Type ℓ) : Type ℓ where
  pub result : R
  pub status : Status
  pub calls : ℕ
  pub events : List RetryEvent

-- Saturate instead of overflowing.
unfoldable pub next_delay : ℕ → ℕ
next_delay d = if leb d half_max then d * 2 else d

module _ {ℓ} {R : Type ℓ} where
  abbrev pub returned : R → Status → ℕ → Returned R
  returned result status calls = record {
    result = result;
    status = status;
    calls = calls;
    events = [];
  }

  -- The call made and the events published before the rest of the loop runs.
  abbrev pub after_event : RetryEvent → Returned R → Returned R
  after_event e out = record out { calls = suc out.calls; events = e ∷ out.events }

  -- The body of the loop from the call on, where `more` is what the next rounds return and `last`
  -- says whether this is the final attempt.
  unfoldable pub attempt_round : Bool → ℕ → ℕ → Round R → Returned R → Returned R
  attempt_round last attempt delay r more = elim r.outcome [
    | none ↦ returned r.result succeeded 1
    | some f ↦ if r.ended_after then returned r.result context_error 1 else elim f [
      | terminal ↦ returned r.result (failed terminal) 1
      | retryable ↦
          if last
          then returned r.result (failed retryable) 1
          else (if r.ended_waiting
              then after_event (record { attempt = attempt + 1; delay = delay })
                  (returned r.result context_error 0)
              else after_event (record { attempt = attempt + 1; delay = delay }) more)
    ]
  ]

  unfoldable pub retry_from : ℕ → ℕ → ℕ → R → (ℕ → Round R) → Returned R
  unfolding attempt_round next_delay
  retry_from zero attempt delay prev world =
      if (world attempt).ended_before
      then returned prev context_error 0
      else attempt_round true attempt delay (world attempt) (returned prev context_error 0)
  retry_from (suc left) attempt delay prev world =
      let more = retry_from left (attempt + 1) (next_delay delay) (world attempt).result world in
      if (world attempt).ended_before
      then returned prev context_error 0
      else attempt_round false attempt delay (world attempt) more

  -- Retry, for a number of retries that is not negative; `zero_value` is R's zero value.
  unfoldable pub retry : ℕ → ℕ → R → (ℕ → Round R) → Returned R
  unfolding retry_from
  retry max_retries initial zero_value world = retry_from max_retries 0 initial zero_value world
