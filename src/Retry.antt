-- ===== src/Retry.antt =====
-- src/pydecorators/retry.py: the wrapper that `retry` puts around a function. The async wrapper is the
-- same code with awaits. Delays are in microseconds; multiplying by `backoff` and
-- `random.uniform(0, jitter)` are parameters.
pub mod Validation
pub mod Settling
pub mod Script
pub mod Tests
use pydecorators.Prelude.{
  ℕ, zero, suc, ◌+◌, Bool, true, false, Option, none, some, if◌then◌else◌, leb,
}
use pydecorators.Prelude.Int.{ℤ, min_ℤ, ◌+ℤ◌}
use pydecorators.Prelude.Effect.{Outcome, returned, raised, Action, pure, raise, ◌>>=◌, ◌>>◌}
use pydecorators.Exceptions.{Exn, assertion_error, foreign}

-- The arguments of `retry`. The predicate and the hooks are the caller's code.
pub record Config (W E : Type 0) : Type 0 where
  pub attempts : ℕ
  pub delay : ℤ
  pub max_delay : Option ℤ
  pub matches : E → Bool  -- `isinstance(exc, exception_types)`
  pub retry_if : Option (E → Action W E Bool)
  pub before_attempt : Option (ℕ → Action W E (Unit {0}))
  pub after_attempt : Option (ℕ → Option E → Action W E (Unit {0}))
  pub times_backoff : ℤ → ℤ  -- `delay * backoff`
  pub uniform : Option (Action W E ℤ)  -- `random.uniform(0, jitter)`, if the jitter is not 0

module _ {W E : Type 0} (config : Config W E) where
  abbrev pub limited : ℤ → Option ℤ → ℤ
  limited next_delay none = next_delay
  limited next_delay (some max_delay) = min_ℤ next_delay max_delay

  -- `_next_delay`
  abbrev pub next_delay : ℤ → ℤ
  next_delay delay = limited (config.times_backoff delay) config.max_delay

  abbrev jittered : ℤ → Option (Action W E ℤ) → Action W E ℤ
  jittered delay none = pure delay
  jittered delay (some uniform) = uniform >>= λ u. pure (delay +ℤ u)

  -- `_delay_with_jitter`
  abbrev pub delay_with_jitter : ℤ → Action W E ℤ
  delay_with_jitter delay = jittered delay config.uniform

  abbrev pub asks : E → Option (E → Action W E Bool) → Action W E Bool
  asks exc none = pure true
  asks exc (some retry_if) = retry_if exc

  -- `_should_retry`
  abbrev pub should_retry : E → ℕ → Action W E Bool
  should_retry exc attempt_number =
      if leb config.attempts attempt_number then pure false else asks exc config.retry_if

  abbrev calls_before : ℕ → Option (ℕ → Action W E (Unit {0})) → Action W E (Unit {0})
  calls_before attempt_number none = pure tt
  calls_before attempt_number (some hook) = hook attempt_number

  -- `_call_before`
  abbrev pub call_before : ℕ → Action W E (Unit {0})
  call_before attempt_number = calls_before attempt_number config.before_attempt

  abbrev calls_after :
      ℕ → Option E → Option (ℕ → Option E → Action W E (Unit {0})) → Action W E (Unit {0})
  calls_after attempt_number exc none = pure tt
  calls_after attempt_number exc (some hook) = hook attempt_number exc

  -- `_call_after`
  abbrev pub call_after : ℕ → Option E → Action W E (Unit {0})
  call_after attempt_number exc = calls_after attempt_number exc config.after_attempt

  module _ {A : Type 0} (sleep : ℤ → Action W E (Unit {0})) (func : Action W E A) where
    -- an exception of the caller's code that is not caught
    abbrev pub uncaught : {B : Type 0} → Outcome E B × W → Outcome (Exn E) B × W
    uncaught (returned b, w) = (returned b, w)
    uncaught (raised exc, w) = (raised (foreign exc), w)

    abbrev pub outside : {B : Type 0} → Action W E B → Action W (Exn E) B
    outside m w = uncaught (m w)

    -- the body of the `try`: the hook after a success is inside
    abbrev pub try_body : ℕ → Action W E A
    try_body attempt_number = func >>= λ result. call_after attempt_number none >> pure result

    abbrev pub sleep_and_retry : ℤ → Action W (Exn E) A → Action W (Exn E) A
    sleep_and_retry current_delay again =
        outside (delay_with_jitter current_delay >>= sleep) >> again

    -- the end of the `except`, on what `_should_retry` says
    abbrev pub retry_or_raise : E → ℤ → Action W (Exn E) A → Bool → Action W (Exn E) A
    retry_or_raise exc current_delay again true = sleep_and_retry current_delay again
    retry_or_raise exc current_delay again false = raise (foreign exc)

    -- the `except` of an exception that matches
    abbrev pub handler : ℕ → ℤ → Action W (Exn E) A → E → Action W (Exn E) A
    handler attempt_number current_delay again exc =
        outside (call_after attempt_number (some exc))
        >> outside (should_retry exc attempt_number)
        >>= retry_or_raise exc current_delay again

    -- what the `try` does with the outcome of its body
    abbrev pub caught : ℕ → ℤ → Action W (Exn E) A → Outcome E A × W → Outcome (Exn E) A × W
    caught attempt_number current_delay again (returned result, w) = (returned result, w)
    caught attempt_number current_delay again (raised exc, w) =
        (if config.matches exc
            then handler attempt_number current_delay again exc
            else raise (foreign exc))
          w

    -- the rounds of the `for` that are left, from an attempt number and a delay
    unfoldable pub rounds : ℕ → ℕ → ℤ → Action W (Exn E) A
    rounds zero attempt_number current_delay = raise assertion_error
    rounds (suc left) attempt_number current_delay =
        let again = rounds left (attempt_number + 1) (next_delay current_delay) in
        outside (call_before attempt_number)
        >> (λ w. caught attempt_number current_delay again (try_body attempt_number w))

    abbrev pub wrapper : Action W (Exn E) A
    wrapper = rounds config.attempts 1 config.delay
