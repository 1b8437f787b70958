-- ===== src/CircuitBreaker/Invariant.antt =====
-- The state of a breaker under each of its operations.
use pydecorators.Prelude.{ℕ, ◌<◌, ◌≤◌, Option, none, some, arith}
use pydecorators.Prelude.Int.{ℤ}
use pydecorators.CircuitBreaker.{
  CircuitState, closed, open_state, half_open, Config, Breaker, initial, current_state, before_call,
  record_failure, record_success,
}

-- Closed below the threshold with no opening time, or at the threshold with one.
abbrev pub IsConsistent : ℕ → CircuitState → ℕ → Option ℤ → Type 0
IsConsistent threshold closed count none = count < threshold
IsConsistent threshold closed count (some _) = ⊥
IsConsistent threshold open_state count none = ⊥
IsConsistent threshold open_state count (some _) = threshold ≤ count
IsConsistent threshold half_open count none = ⊥
IsConsistent threshold half_open count (some _) = threshold ≤ count

module _ {E : Type 0} (config : Config E) where
  abbrev pub IsValid : Breaker → Type 0
  IsValid b = IsConsistent config.failure_threshold b.state b.failure_count b.opened_at

  pub initial-IsValid : 0 < config.failure_threshold → IsValid initial
  initial-IsValid h = h

  pub current_state-IsValid :
      (now : ℤ) (b : Breaker) → IsValid b → IsValid (current_state config now b)
  unfolding current_state
  current_state-IsValid now b h = ground arith

  pub record_failure-IsValid :
      (now : ℤ) (exc : E) (b : Breaker) → IsValid b → IsValid (record_failure config now exc b)
  unfolding record_failure
  record_failure-IsValid now exc b h = ground arith

  pub record_success-IsValid :
      (b : Breaker) → 0 < config.failure_threshold → IsValid (record_success b)
  unfolding record_success
  record_success-IsValid b h = h

  pub before_call-IsValid :
      (now now' : ℤ) (b : Breaker) → IsValid b → IsValid (before_call config now now' b).0
  unfolding before_call
  before_call-IsValid now now' b h = current_state-IsValid now b h
