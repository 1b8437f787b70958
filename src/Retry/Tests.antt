-- ===== src/Retry/Tests.antt =====
-- The theorems at concrete inputs, after tests/test_retry.py: a function that fails twice.
use pydecorators.Prelude.{
  ◌↔◌, ◌<◌, ℕ, zero, suc, ◌≡◌, refl, Bool, true, none, some, All, [], ◌∷◌, arith, inl,
}
use pydecorators.Prelude.Int.{ℤ, pos, ◌+ℤ◌, ◌≤ℤ◌}
use pydecorators.Prelude.Effect.{Outcome, returned, raised}
use pydecorators.Retry.{next_delay, rounds, wrapper}
use pydecorators.Objects.{exception_type, none_object, function}
use pydecorators.Retry.Validation
use pydecorators.Retry.Validation.{validate_retry_config, IsAcceptable}
use pydecorators.Retry.Script
use pydecorators.Retry.Script.{plain_config, run_script, log_sleep, is_retryable, schedule, settle}

-- Every exception matches, and the delay doubles.
abbrev any : ℕ → Bool
any exc = true

abbrev double : ℤ → ℤ
double d = d +ℤ d

abbrev script : ℕ → Outcome ℕ ℕ
script zero = raised 1
script (suc zero) = raised 2
script _ = returned 7

fails_twice :
    wrapper
      (plain_config 3 (pos 10) (some (pos 15)) any none double script)
      (log_sleep 3 (pos 10) (some (pos 15)) any none double script)
      (run_script 3 (pos 10) (some (pos 15)) any none double script)
      (0, [])
    ≡ (returned 7, (3, pos 10 ∷ pos 15 ∷ []))
unfolding rounds ◌+ℤ◌
fails_twice = refl

retried :
    (i : ℕ)
    → i < 2
    → is_retryable 3 (pos 10) (some (pos 15)) any none double script (script i) ≡ true
retried zero h = refl
retried (suc zero) h = refl
retried (suc (suc i)) h = absurd (omega arith)

wrapper-settle_example :
    wrapper
      (plain_config 3 (pos 10) (some (pos 15)) any none double script)
      (log_sleep 3 (pos 10) (some (pos 15)) any none double script)
      (run_script 3 (pos 10) (some (pos 15)) any none double script)
      (0, [])
    ≡ settle 3
        (pos 10)
        (some (pos 15))
        any
        none
        double
        script
        2
        (3, schedule 3 (pos 10) (some (pos 15)) any none double script 2 (pos 10))
wrapper-settle_example =
    Script.wrapper-settle 3 (pos 10) (some (pos 15)) any none double script 2 (omega arith) retried
      (inl refl)

schedule-capped_example :
    All
      (λ x. x ≤ℤ pos 15)
      (schedule 3
        (pos 10)
        (some (pos 15))
        any
        none
        double
        script
        3
        (next_delay (plain_config 3 (pos 10) (some (pos 15)) any none double script) (pos 10)))
schedule-capped_example =
    Script.schedule-capped 3 (pos 10) (some (pos 15)) any none double script (pos 15) 3 (pos 10)
      refl

validate_retry_config-accepts_iff_example :
    (validate_retry_config {E = ℕ}
        (pos 3)
        (pos 0)
        (pos 2_000_000)
        none
        (pos 0)
        exception_type
        none_object
        function
        none_object
      ≡ returned tt)
    ↔ IsAcceptable
        (pos 3)
        (pos 0)
        (pos 2_000_000)
        none
        (pos 0)
        exception_type
        none_object
        function
        none_object
validate_retry_config-accepts_iff_example =
    Validation.validate_retry_config-accepts_iff (pos 3) (pos 0) (pos 2_000_000) none (pos 0)
      exception_type none_object function none_object
