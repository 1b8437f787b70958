-- ===== src/CircuitBreaker/Validation.antt =====
-- `_validate_config`, and the state that the decorator starts with.
use pydecorators.Prelude.{
  ◌≡◌, ◌↔◌, Bool, true, false, ◌&&◌, ◌||◌, not, Option, arith, if◌then◌else◌,
}
use pydecorators.Prelude.Int.{ℤ, pos, pos_part, ltb_ℤ, leb_ℤ, ◌≤ℤ◌, ◌<ℤ◌}
use pydecorators.Prelude.Effect.{Outcome, returned, raised}
use pydecorators.Exceptions.{Exn, configuration_error}
use pydecorators.Objects.{
  Object, Objects, tuple, nil, cons, is_int, is_number, number, is_callable, is_none_object,
  is_exception_type,
}
use pydecorators.CircuitBreaker.{Config}
use pydecorators.CircuitBreaker.Interleaving.{System, Reach, IsSound, Reach-IsSound}

-- `isinstance(exceptions, tuple) and exceptions`
abbrev is_filled_tuple : Object → Bool
is_filled_tuple (tuple nil) = false
is_filled_tuple (tuple (cons _ _)) = true
is_filled_tuple _ = false

abbrev pub all_exception_types : Objects → Bool
all_exception_types nil = true
all_exception_types (cons o rest) = is_exception_type o && all_exception_types rest

abbrev items_are_exception_types : Object → Bool
items_are_exception_types (tuple items) = all_exception_types items
items_are_exception_types _ = false

-- What the arguments have to be.
abbrev pub IsAcceptable : (threshold timeout exceptions filter clock : Object) → Type 0
IsAcceptable threshold timeout exceptions filter clock =
    (is_int threshold ≡ true)
    × (pos 1 ≤ℤ number threshold)
    × (is_number timeout ≡ true)
    × (pos 0 <ℤ number timeout)
    × (is_filled_tuple exceptions ≡ true)
    × (items_are_exception_types exceptions ≡ true)
    × ((is_none_object filter || is_callable filter) ≡ true)
    × ((is_none_object clock || is_callable clock) ≡ true)

module _ {E : Type 0} where
  unfoldable pub validate_config :
      (threshold timeout exceptions filter clock : Object) → Outcome (Exn E) (Unit {0})
  validate_config threshold timeout exceptions filter clock =
      if not (is_int threshold) || ltb_ℤ (number threshold) (pos 1)
      then raised (configuration_error "failure_threshold must be a positive integer")
      else if not (is_number timeout) || leb_ℤ (number timeout) (pos 0)
      then raised (configuration_error "reset_timeout must be a positive number")
      else if not (is_filled_tuple exceptions)
      then raised (configuration_error "exceptions must be a non-empty tuple of exception types")
      else if not (items_are_exception_types exceptions)
      then raised (configuration_error "exceptions must contain only exception types")
      else if not (is_none_object filter) && not (is_callable filter)
      then raised (configuration_error "exception_filter must be callable when provided")
      else if not (is_none_object clock) && not (is_callable clock)
      then raised (configuration_error "clock must be callable when provided")
      else returned tt

  -- The configuration is accepted exactly if the threshold is an int of at least one, the timeout a
  -- positive number, the exceptions a tuple with at least one item and nothing but exception
  -- types, and the filter and the clock each absent or callable.
  pub validate_config-accepts_iff :
      (threshold timeout exceptions filter clock : Object)
      → (validate_config threshold timeout exceptions filter clock ≡ returned tt)
        ↔ IsAcceptable threshold timeout exceptions filter clock
  unfolding validate_config
  validate_config-accepts_iff threshold timeout exceptions filter clock =
      (λ h. ground arith, λ h. ground arith)

-- The configuration that the closures see, once the arguments are validated.
abbrev pub config_of :
    {E : Type 0} → (threshold timeout : Object) → (E → Bool) → Option (E → Bool) → Config E
config_of threshold timeout counted filter = record {
  failure_threshold = pos_part (number threshold);
  reset_timeout = number timeout;
  counted = counted;
  exception_filter = filter;
}

-- A decorator that accepts its configuration keeps its state sound, whatever the calls do.
pub validated-IsSound :
    {E : Type 0} (threshold timeout exceptions filter clock : Object) (counted : E → Bool)
    (predicate : Option (E → Bool)) (start : ℤ) {s : System}
    → validate_config {E = E} threshold timeout exceptions filter clock ≡ returned tt
    → Reach (config_of threshold timeout counted predicate) start s
    → IsSound (config_of threshold timeout counted predicate) s
validated-IsSound threshold timeout exceptions filter clock counted predicate start h r =
    let ok = (validate_config-accepts_iff threshold timeout exceptions filter clock).0 h in
    Reach-IsSound (config_of threshold timeout counted predicate) (omega (arith, ok.1)) r
