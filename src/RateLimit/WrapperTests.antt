-- ===== src/RateLimit/WrapperTests.antt =====
-- The theorems on the wrapper at concrete inputs: a world that is a clock.
use pydecorators.Prelude.{All, ℕ, ◌≡◌, refl, none, arith, inl, nat_eq}
use pydecorators.Prelude.Int.{ℤ, pos, ◌≤ℤ◌, ◌+ℤ◌, ◌-ℤ◌}
use pydecorators.Prelude.Dict.{Dict, lookup, insert}
use pydecorators.Prelude.Effect.{returned, raised, Action}
use pydecorators.Exceptions.{infinite, rate_limit_exceeded}
use pydecorators.Objects.{int}
use pydecorators.RateLimit.{
  Bucket, prune, used_cost, wait_until_freed, window_wait_seconds, check_windows, append_event,
  prune_bucket, prune_idle_windows, reserve_or_delay,
}
use pydecorators.RateLimit.Wrapper.{
  raise_mode, block_mode, fixed, check_cost, run_function, attempts, wrapper,
}
use pydecorators.RateLimit.Retrying.{CanFit}
use pydecorators.RateLimit.Blocking
use pydecorators.RateLimit.Tests.{config, no_bounds, busy, window, names_differ, busy-IsWellFormed}

abbrev clock : Action ℤ ℕ ℤ
clock w = (returned w, w)

abbrev sleep : ℤ → Action ℤ ℕ (Unit {0})
sleep wait w = (returned tt, w +ℤ wait)

abbrev func : Action ℤ ℕ ℕ
func w = (returned 7, w)

busy-CanFit : All (CanFit no_bounds config 0 1 busy) config
unfolding lookup
busy-CanFit = ((refl, omega arith, omega arith), ((refl, omega arith, omega arith), tt))

wrapper_rejects_over_capacity_example :
    wrapper no_bounds config block_mode clock sleep func 5
      (fixed (int (pos 3)))
      0
      none
      (busy, pos 4)
    ≡ (raised (rate_limit_exceeded infinite), (busy, pos 4))
unfolding check_cost
wrapper_rejects_over_capacity_example =
    Blocking.wrapper_rejects_over_capacity no_bounds config clock sleep func block_mode 5
      (fixed (int (pos 3))) 0 none (busy, pos 4) (busy, pos 4) 3 (window 2 10 "short") refl
      (inl refl) (omega arith)

abbrev left : Dict ℕ Bucket
left = (reserve_or_delay no_bounds config (pos 4) 0 1 busy).0

retry_after_holds_example :
    attempts no_bounds config raise_mode clock sleep func 1 0 1 (left, pos 12)
    ≡ run_function no_bounds config raise_mode clock sleep func
        ((reserve_or_delay no_bounds config (pos 12) 0 1 left).0, pos 12)
unfolding attempts reserve_or_delay prune_idle_windows prune_bucket check_windows
    window_wait_seconds wait_until_freed used_cost append_event prune lookup insert ◌-ℤ◌ ◌+ℤ◌
retry_after_holds_example =
    Blocking.retry_after_holds no_bounds config clock sleep func 0 1 busy left (pos 4) (pos 4)
      (pos 12) (pos 12) (pos 4) (pos 4) (pos 12) (pos 7) 0 0 busy-IsWellFormed names_differ
      busy-CanFit refl refl refl (omega arith)

never_back : (wait x : ℤ) → (y : ℤ) × (sleep wait x ≡ (returned tt, y)) × (x +ℤ wait ≤ℤ y)
never_back wait x = (x +ℤ wait, refl, omega arith)

block_mode_runs_example :
    (s' : Dict ℕ Bucket) × (w' : ℤ) × (attempts no_bounds config block_mode clock sleep func 2 0 1
        (busy, pos 4)
      ≡ run_function no_bounds config block_mode clock sleep func (s', w'))
block_mode_runs_example =
    Blocking.block_mode_runs no_bounds config clock sleep func (λ x. x) 0 1 busy (pos 4) 0
      (λ x. refl) never_back busy-IsWellFormed names_differ busy-CanFit
