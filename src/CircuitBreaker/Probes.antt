-- ===== src/CircuitBreaker/Probes.antt =====
-- How many probes a half-open circuit lets through: as many as come before the first one ends.
use native.Mathlib.Numerals.{add-one}
use pydecorators.Prelude.{ℕ, zero, suc, ◌-◌, ◌<◌, ◌≡◌, refl, ap, arith, true}
use pydecorators.Prelude.Int.{ℤ, pos, ◌≤ℤ◌, int_laws, ◌+ℤ◌, -ℤ_parts, +ℤ_parts}
use pydecorators.Prelude.Effect.{returned}
use pydecorators.CircuitBreaker.{
  half_open, Config, Breaker, current_state, before_call, record_failure, is_counted,
}
use pydecorators.CircuitBreaker.Calls.{closed_at, open_since}
use pydecorators.CircuitBreaker.Interleaving.{System, admit, fail, Reach, begin, later}

module _ {E : Type 0} (config : Config E) (exc : E) (counts : is_counted config exc ≡ true) where
  abbrev idle : Breaker → ℤ → System
  idle b now = record { breaker = b; pending = 0; now = now }

  abbrev probing : ℤ → ℤ → ℕ → System
  probing opened now n = record {
    breaker = record (open_since config opened) { state = half_open };
    pending = n;
    now = now;
  }

  -- a call that is admitted in a closed circuit, and fails
  fails_once :
      (start : ℤ) (n : ℕ)
      → Reach config start (idle (closed_at n) start)
      → Reach config start (idle (record_failure config start exc (closed_at n)) start)
  unfolding before_call current_state
  fails_once start n r =
      later (later r (admit start start (omega arith) (omega arith) refl))
        (fail start exc (omega arith) (omega arith))

  closed_reached :
      (start : ℤ) (n : ℕ)
      → n < config.failure_threshold
      → Reach config start (idle (closed_at n) start)
  unfolding record_failure
  closed_reached start zero h = begin
  closed_reached start (suc n) h =
      let e : record_failure config start exc (closed_at n) ≡ closed_at (suc n) = ground arith in
      rw e at (fails_once start n (closed_reached start n (omega arith)))

  open_reached :
      (start : ℤ)
      → 0 < config.failure_threshold
      → Reach config start (idle (open_since config start) start)
  unfolding record_failure
  open_reached start h =
      let e : record_failure config start exc (closed_at (config.failure_threshold - 1))
          ≡ open_since config start =
        ground arith in
      rw e at
        (fails_once start _ (closed_reached start (config.failure_threshold - 1) (omega arith)))

  abbrev due : ℤ → ℤ
  due start = start +ℤ config.reset_timeout

  promotes :
      (start : ℤ)
      → before_call config (due start) (due start) (open_since config start)
        ≡ (record (open_since config start) { state = half_open }, returned tt)
  unfolding before_call current_state
  promotes start =
      ground
        (arith, +ℤ_parts start config.reset_timeout, -ℤ_parts (start +ℤ config.reset_timeout) start)

  -- a half-open circuit lets every call through
  one_more :
      (start : ℤ) (n : ℕ)
      → Reach config start (probing start (due start) n)
      → Reach config start (probing start (due start) (suc n))
  unfolding before_call current_state
  one_more start n r =
      rw add-one at (later r (admit (due start) (due start) (omega arith) (omega arith) refl))

  -- For every number of calls there is a run after which the circuit is half-open and that many
  -- calls are in flight, whenever some exception counts as a failure.
  pub many_probes :
      (start : ℤ) (n : ℕ)
      → 0 < config.failure_threshold
      → pos 0 ≤ℤ config.reset_timeout
      → Reach config start (probing start (due start) (suc n))
  many_probes start zero h q =
      let r = later (open_reached start h) (
        admit (due start) (due start) (omega int_laws) (omega arith)
          (ap (λ p. p.1) (promotes start))) in
      rw (promotes start) at r
  many_probes start (suc n) h q = one_more start (suc n) (many_probes start n h q)
