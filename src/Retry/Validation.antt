-- ===== src/Retry/Validation.antt =====
-- `_validate_retry_config` and `_normalize_exceptions`.
use pydecorators.Prelude.{
  ◌≡◌, ◌↔◌, Bool, true, false, ◌&&◌, ◌||◌, not, Option, none, some, arith, if◌then◌else◌,
}
use pydecorators.Prelude.Int.{ℤ, pos, ltb_ℤ, leb_ℤ, ◌≤ℤ◌, ◌<ℤ◌}
use pydecorators.Prelude.Effect.{Outcome, returned, raised}
use pydecorators.Exceptions.{Exn, configuration_error}
use pydecorators.Objects.{Object, Objects, tuple, nil, cons, is_callable, is_none_object}
use pydecorators.CircuitBreaker.Validation.{all_exception_types}

-- `exceptions if isinstance(exceptions, tuple) else (exceptions,)`
abbrev pub as_tuple : Object → Objects
as_tuple (tuple items) = items
as_tuple o = cons o nil

abbrev is_nil : Objects → Bool
is_nil nil = true
is_nil (cons _ _) = false

-- `max_delay is not None and max_delay < 0`
abbrev is_negative : Option ℤ → Bool
is_negative none = false
is_negative (some max_delay) = ltb_ℤ max_delay (pos 0)

abbrev pub IsLimit : Option ℤ → Type 0
IsLimit none = Unit
IsLimit (some max_delay) = pos 0 ≤ℤ max_delay

-- What the arguments have to be. Numbers are given in millionths.
abbrev pub IsAcceptable :
    (attempts delay backoff : ℤ) (max_delay : Option ℤ) (jitter : ℤ)
    (exceptions retry_if before after : Object)
    → Type 0
IsAcceptable attempts delay backoff max_delay jitter exceptions retry_if before after =
    (pos 0 <ℤ attempts)
    × (pos 0 ≤ℤ delay)
    × (pos 1_000_000 ≤ℤ backoff)
    × IsLimit max_delay
    × (pos 0 ≤ℤ jitter)
    × (is_nil (as_tuple exceptions) ≡ false)
    × (all_exception_types (as_tuple exceptions) ≡ true)
    × ((is_none_object retry_if || is_callable retry_if) ≡ true)
    × ((is_none_object before || is_callable before) ≡ true)
    × ((is_none_object after || is_callable after) ≡ true)

module _ {E : Type 0} where
  unfoldable pub normalize_exceptions : Object → Outcome (Exn E) Objects
  normalize_exceptions exceptions =
      let normalized = as_tuple exceptions in
      if is_nil normalized
      then raised (configuration_error "exceptions must include at least one exception type")
      else if not (all_exception_types normalized)
      then raised (configuration_error "exceptions must be exception types")
      else returned normalized

  abbrev check_callables : (retry_if before after : Object) → Outcome (Exn E) (Unit {0})
  check_callables retry_if before after =
      if not (is_none_object retry_if) && not (is_callable retry_if)
      then raised (configuration_error "retry_if must be callable when provided")
      else if not (is_none_object before) && not (is_callable before)
      then raised (configuration_error "before_attempt must be callable when provided")
      else if not (is_none_object after) && not (is_callable after)
      then raised (configuration_error "after_attempt must be callable when provided")
      else returned tt

  abbrev after_exceptions :
      Outcome (Exn E) Objects → (retry_if before after : Object) → Outcome (Exn E) (Unit {0})
  after_exceptions (returned _) retry_if before after = check_callables retry_if before after
  after_exceptions (raised e) retry_if before after = raised e

  unfoldable pub validate_retry_config :
      (attempts delay backoff : ℤ) (max_delay : Option ℤ) (jitter : ℤ)
      (exceptions retry_if before after : Object)
      → Outcome (Exn E) (Unit {0})
  validate_retry_config attempts delay backoff max_delay jitter exceptions retry_if before after =
      if leb_ℤ attempts (pos 0)
      then raised (configuration_error "attempts must be greater than zero")
      else if ltb_ℤ delay (pos 0)
      then raised (configuration_error "delay must be zero or greater")
      else if ltb_ℤ backoff (pos 1_000_000)
      then raised (configuration_error "backoff must be greater than or equal to 1")
      else if is_negative max_delay
      then raised (configuration_error "max_delay must be zero or greater when provided")
      else if ltb_ℤ jitter (pos 0)
      then raised (configuration_error "jitter must be zero or greater")
      else after_exceptions (normalize_exceptions exceptions) retry_if before after

  -- The arguments are accepted exactly if there is at least one attempt, delay and jitter are not
  -- negative, backoff is at least one, max_delay is None or not negative, the exceptions are an exception
  -- type or a non-empty tuple of exception types, and the predicate and each hook are None or
  -- callable.
  pub validate_retry_config-accepts_iff :
      (attempts delay backoff : ℤ) (max_delay : Option ℤ) (jitter : ℤ)
      (exceptions retry_if before after : Object)
      → (validate_retry_config attempts delay backoff max_delay jitter exceptions retry_if before
            after
          ≡ returned tt)
        ↔ IsAcceptable attempts delay backoff max_delay jitter exceptions retry_if before after
  unfolding validate_retry_config normalize_exceptions
  validate_retry_config-accepts_iff attempts delay backoff max_delay jitter exceptions retry_if
        before after =
      elim max_delay [
        | none ↦ (λ h. ground arith, λ h. ground arith)
        | some cap ↦ (λ h. ground arith, λ h. ground arith)
      ]
