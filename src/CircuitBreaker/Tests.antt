-- ===== src/CircuitBreaker/Tests.antt =====
-- The theorems at concrete inputs, and the scenarios of tests/test_circuit_breaker.py.
use pydecorators.Prelude.{
  ℕ, zero, ◌+◌, ◌≡◌, ◌≢◌, ◌↔◌, refl, Bool, true, false, none, some, [], ◌∷◌, arith,
}
use pydecorators.Prelude.Int.{pos, ◌+ℤ◌, ◌-ℤ◌}
use pydecorators.Prelude.Effect.{Action, returned, raised}
use pydecorators.Exceptions.{Exn, assertion_error}
use pydecorators.Objects.{int, float, none_object, tuple, nil, cons, exception_type}
use pydecorators.CircuitBreaker.{
  Config, Breaker, Readings, initial, half_open, current_state, before_call, record_failure,
  record_success, wrapper,
}
use pydecorators.CircuitBreaker.Calls
use pydecorators.CircuitBreaker.Calls.{Attempt, IsBlocked, attempt, drive, closed_at, open_since}
use pydecorators.CircuitBreaker.Interleaving
use pydecorators.CircuitBreaker.Interleaving.{System, Reach, IsSound, begin}
use pydecorators.CircuitBreaker.Probes
use pydecorators.CircuitBreaker.Validation
use pydecorators.CircuitBreaker.Validation.{validate_config, IsAcceptable}

-- Exception 0 counts, the others do not; three failures, thirty seconds.
abbrev is_zero : ℕ → Bool
is_zero zero = true
is_zero _ = false

abbrev config : Config ℕ
config = record {
  failure_threshold = 3;
  reset_timeout = pos 30;
  counted = is_zero;
  exception_filter = none;
}

abbrev at : ℕ → Readings
at t = record { promote = pos t; elapsed = pos t; failed = pos t }

abbrev failing : ℕ → Attempt ℕ ℕ
failing t = record { clock = at t; outcome = raised 0 }

abbrev passing : ℕ → Attempt ℕ ℕ
passing t = record { clock = at t; outcome = returned 7 }

recovers :
    drive config (failing 1 ∷ failing 2 ∷ failing 3 ∷ passing 4 ∷ passing 33 ∷ []) initial ≡ initial
unfolding drive attempt wrapper before_call current_state record_failure record_success ◌-ℤ◌
recovers = refl

-- A service that counts its runs.
abbrev healthy : Action ℕ ℕ ℕ
healthy w = (returned 7, w + 1)

abbrev broken : Action ℕ ℕ ℕ
broken w = (raised 0, w + 1)

abbrev tripped : Breaker
tripped = open_since config (pos 3)

before_call-admits_iff_example :
    ((before_call config (pos 33) (pos 33) tripped).1 ≡ returned tt)
    ↔ (¬ IsBlocked config (pos 33) tripped)
before_call-admits_iff_example =
    Calls.before_call-admits_iff config (pos 33) (pos 33) tripped (omega arith)

wrapper_runs_example : wrapper config broken (at 40) tripped 0 ≡ (
  raised (Exn.foreign 0),
  record_failure config (pos 40) 0 (current_state config (pos 40) tripped),
  1,
)
unfolding ◌+ℤ◌
wrapper_runs_example =
    Calls.wrapper_runs config broken (at 40) tripped 0 (omega arith) (λ b. omega arith)

drive-opens_example :
    (drive config (failing 1 ∷ failing 2 ∷ []) (closed_at 0) ≡ closed_at 2)
    × (drive config (failing 1 ∷ failing 2 ∷ failing 3 ∷ []) (closed_at 0) ≡ tripped)
drive-opens_example =
    Calls.drive-opens config (failing 1 ∷ failing 2 ∷ []) (failing 3) 0 (refl, (refl, tt)) refl
      (omega arith)

probe_decides_example : attempt config (failing 40) tripped ≡ open_since config (pos 40)
unfolding ◌+ℤ◌
probe_decides_example = Calls.probe_decides config (failing 40) 3 (pos 3) (omega arith)

abbrev start : System
start = record { breaker = initial; pending = 0; now = pos 0 }

Reach-IsSound_example : IsSound config start
Reach-IsSound_example = Interleaving.Reach-IsSound config (omega arith) begin

before_call-never_asserts_example :
    (before_call config (pos 1) (pos 2) start.breaker).1 ≢ raised assertion_error
before_call-never_asserts_example =
    Interleaving.before_call-never_asserts config {start = pos 0} (pos 1) (pos 2) (omega arith)
      begin

many_probes_example : Reach config (pos 0) (record {
  breaker = record { state = half_open; failure_count = 3; opened_at = some (pos 0) };
  pending = 5;
  now = pos 0 +ℤ pos 30;
})
many_probes_example = Probes.many_probes config 0 refl (pos 0) 4 (omega arith) (omega arith)

validate_config-accepts_iff_example :
    (validate_config {E = ℕ}
        (int (pos 3))
        (float (pos 30))
        (tuple (cons exception_type nil))
        none_object
        none_object
      ≡ returned tt)
    ↔ IsAcceptable
        (int (pos 3))
        (float (pos 30))
        (tuple (cons exception_type nil))
        none_object
        none_object
validate_config-accepts_iff_example =
    Validation.validate_config-accepts_iff (int (pos 3)) (float (pos 30))
      (tuple (cons exception_type nil)) none_object none_object
