-- ===== src/CircuitBreaker.antt =====
-- src/pydecorators/circuit_breaker.py: the state that the closures of one decorated function share,
-- the functions that read and change it, and the wrapper. Where the code reads the clock, the
-- reading is an argument; a reading that a branch does not make is ignored. The lock makes each
-- of the functions below atomic.
pub mod Validation
pub mod Invariant
mod Calls
mod Interleaving
mod Probes
mod Tests
use pydecorators.Prelude.{ℕ, Bool, true, false, ◌&&◌, Option, none, some, if◌then◌else◌, leb, ◌+◌}
use pydecorators.Prelude.Int.{ℤ, pos, ◌-ℤ◌, leb_ℤ, max_ℤ}
use pydecorators.Prelude.Effect.{Outcome, returned, raised, Action}
use pydecorators.Exceptions.{Exn, circuit_breaker_open, assertion_error, foreign}

pub data CircuitState : Type 0 where
  closed open_state half_open : CircuitState

-- The validated arguments. `counted` is `isinstance(exc, exceptions)`.
pub record Config (E : Type 0) : Type 0 where
  pub failure_threshold : ℕ
  pub reset_timeout : ℤ
  pub counted : E → Bool
  pub exception_filter : Option (E → Bool)

pub record Breaker : Type 0 where
  pub state : CircuitState
  pub failure_count : ℕ
  pub opened_at : Option ℤ

abbrev pub initial : Breaker
initial = record { state = closed; failure_count = 0; opened_at = none }

module _ {E : Type 0} (config : Config E) where
  -- `state is OPEN and opened_at is not None and active_clock() - opened_at >= reset_timeout`
  abbrev pub is_due : ℤ → CircuitState → Option ℤ → Bool
  is_due now open_state (some opened) = leb_ℤ config.reset_timeout (now -ℤ opened)
  is_due _ _ _ = false

  pub current_state : ℤ → Breaker → Breaker
  current_state now b = if is_due now b.state b.opened_at then record b { state = half_open } else b

  abbrev pub remaining : ℤ → ℤ → ℤ
  remaining now opened = max_ℤ (pos 0) (config.reset_timeout -ℤ (now -ℤ opened))

  abbrev remaining_if_open : ℤ → CircuitState → Option ℤ → Option ℤ
  remaining_if_open now open_state (some opened) = some (remaining now opened)
  remaining_if_open _ _ _ = none

  pub reset_after : ℤ → ℤ → Breaker → Breaker × Option ℤ
  reset_after now now' b =
      let b' = current_state now b in (b', remaining_if_open now' b'.state b'.opened_at)

  abbrev admission : ℤ → CircuitState → Option ℤ → Outcome (Exn E) (Unit {0})
  admission now open_state (some opened) = raised (circuit_breaker_open (remaining now opened))
  admission now open_state none = raised assertion_error
  admission _ _ _ = returned tt

  pub before_call : ℤ → ℤ → Breaker → Breaker × Outcome (Exn E) (Unit {0})
  before_call now now' b =
      let b' = current_state now b in (b', admission now' b'.state b'.opened_at)

  -- `isinstance(exc, exceptions)`, and the filter lets the exception count
  abbrev pub passes_filter : Option (E → Bool) → E → Bool
  passes_filter none exc = true
  passes_filter (some filter) exc = filter exc

  abbrev pub is_counted : E → Bool
  is_counted exc = config.counted exc && passes_filter config.exception_filter exc

  -- the part of `record_failure` under the lock
  abbrev count_failure : ℤ → CircuitState → Breaker → Breaker
  count_failure now half_open b = record {
    state = open_state;
    failure_count = config.failure_threshold;
    opened_at = some now;
  }
  count_failure now _ b =
      if leb config.failure_threshold (b.failure_count + 1)
      then record { state = open_state; failure_count = b.failure_count + 1; opened_at = some now }
      else record b { failure_count = b.failure_count + 1 }

  pub record_failure : ℤ → E → Breaker → Breaker
  record_failure now exc b = if is_counted exc then count_failure now b.state b else b

pub record_success : Breaker → Breaker
record_success b = record { state = closed; failure_count = 0; opened_at = none }

-- The clock readings of one call, in order.
pub record Readings : Type 0 where
  pub promote : ℤ  -- in `current_state`
  pub elapsed : ℤ  -- in `before_call`
  pub failed : ℤ  -- in `record_failure`

module _ {E W A : Type 0} (config : Config E) (func : Action W E A) (clock : Readings) where
  -- `record_success` or `record_failure`, after the function has run
  abbrev finish : Breaker → Outcome E A → W → (Outcome (Exn E) A × Breaker × W)
  finish b (returned result) w = (returned result, record_success b, w)
  finish b (raised exc) w = (raised (foreign exc), record_failure config clock.failed exc b, w)

  abbrev run_if : Outcome (Exn E) (Unit {0}) → Breaker → W → (Outcome (Exn E) A × Breaker × W)
  run_if (raised e) b w = (raised e, b, w)
  run_if (returned _) b w = let (r, w') = func w in finish b r w'

  -- the wrapper; the async wrapper is the same code with an `await`
  pub wrapper : Breaker → W → (Outcome (Exn E) A × Breaker × W)
  wrapper b w = let (b', r) = before_call config clock.promote clock.elapsed b in run_if r b' w
