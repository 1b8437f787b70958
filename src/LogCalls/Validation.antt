-- ===== src/LogCalls/Validation.antt =====
-- `_validate_log_calls_config`. A tuple stands for any iterable that is no string.
use pydecorators.Prelude.{◌≡◌, ◌↔◌, Bool, true, false, ◌&&◌, ◌||◌, not, arith, if◌then◌else◌}
use pydecorators.Prelude.Effect.{Outcome, returned, raised}
use pydecorators.Exceptions.{Exn, configuration_error}
use pydecorators.Objects.{
  Object, Objects, tuple, str, nil, cons, is_int, is_callable, is_none_object,
}

abbrev pub is_str : Object → Bool
is_str (str _) = true
is_str _ = false

-- `frozenset(redact_args)` gives no `TypeError`: the items of a string are its characters.
abbrev pub is_iterable : Object → Bool
is_iterable (tuple _) = true
is_iterable (str _) = true
is_iterable _ = false

abbrev pub all_str : Objects → Bool
all_str nil = true
all_str (cons o rest) = is_str o && all_str rest

abbrev pub has_names : Object → Bool
has_names (tuple items) = all_str items
has_names _ = true

abbrev pub IsAcceptable : (level redact_args summarize_result clock : Object) → Type 0
IsAcceptable level redact_args summarize_result clock =
    (is_int level ≡ true)
    × ((is_iterable redact_args && has_names redact_args) ≡ true)
    × ((is_none_object summarize_result || is_callable summarize_result) ≡ true)
    × ((is_none_object clock || is_callable clock) ≡ true)

module _ {E : Type 0} where
  unfoldable pub validate_log_calls_config :
      (level redact_args summarize_result clock : Object) → Outcome (Exn E) (Unit {0})
  validate_log_calls_config level redact_args summarize_result clock =
      if not (is_int level)
      then raised (configuration_error "level must be an integer logging level")
      else if not (is_iterable redact_args)
      then raised (configuration_error "redact_args must be an iterable of argument names")
      else if not (has_names redact_args)
      then raised (configuration_error "redact_args must contain only argument names")
      else if not (is_none_object summarize_result) && not (is_callable summarize_result)
      then raised (configuration_error "summarize_result must be callable when provided")
      else if not (is_none_object clock) && not (is_callable clock)
      then raised (configuration_error "clock must be callable when provided")
      else returned tt

  -- The configuration is accepted exactly if the level is an int, the names are an iterable of texts,
  -- and the summarizer and the clock are each absent or callable.
  pub validate_log_calls_config-accepts_iff :
      (level redact_args summarize_result clock : Object)
      → (validate_log_calls_config level redact_args summarize_result clock ≡ returned tt)
        ↔ IsAcceptable level redact_args summarize_result clock
  unfolding validate_log_calls_config
  validate_log_calls_config-accepts_iff level redact_args summarize_result clock =
      (λ h. ground arith, λ h. ground arith)
