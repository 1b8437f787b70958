-- ===== src/RateLimit/Wrapper.antt =====
-- The wrapper that `rate_limit` puts around a function, with the in-process limiter. The async
-- wrapper is the same code with an await. The loop runs on fuel: `none` is a call still waiting.
use pydecorators.Prelude.{
  ℕ, zero, suc, Bool, true, false, ◌||◌, not, Option, none, some, List, if◌then◌else◌, Hashable,
}
use pydecorators.Prelude.Int.{ℤ, pos, pos_part, leb_ℤ}
use pydecorators.Prelude.Dict.{Dict}
use pydecorators.Prelude.Effect.{Outcome, returned, raised, Action, pure, raise, ◌>>=◌, ◌>>◌}
use pydecorators.Exceptions.{
  Exn, finite, infinite, configuration_error, rate_limit_exceeded, foreign,
}
use pydecorators.Objects.{Object, bool, is_int, number}
use pydecorators.RateLimit.{NormalizedWindow, Bucket, cost_exceeds_capacity, reserve_or_delay}

pub data Mode : Type 0 where
  raise_mode block_mode : Mode

-- `cost`, a number or a callable
pub data Cost (W E : Type 0) : Type 0 where
  fixed : Object → Cost W E
  computed : Action W E Object → Cost W E

abbrev is_bool : Object → Bool
is_bool (bool _) = true
is_bool _ = false

-- the checks of `_resolve_rate_limit_cost`
unfoldable pub check_cost : {E : Type 0} → Object → Outcome (Exn E) ℕ
check_cost resolved =
    if is_bool resolved || not (is_int resolved)
    then raised (configuration_error "rate limit cost must resolve to a positive integer")
    else if leb_ℤ (number resolved) (pos 0)
    then raised (configuration_error "rate limit cost must be greater than zero")
    else returned (pos_part (number resolved))

-- The limiter's state beside the rest of the world.
abbrev pub State : Type 0 → Type 0 → Type 0
State K W = Dict K Bucket × W

module _ {K W E : Type 0} where
  -- code that does not touch the limiter
  abbrev pub beside : {A : Type 0} → Dict K Bucket → Outcome E A × W → Outcome (Exn E) A × State K W
  beside s (returned a, w) = (returned a, (s, w))
  beside s (raised e, w) = (raised (foreign e), (s, w))

  abbrev pub outside : {A : Type 0} → Action W E A → Action (State K W) (Exn E) A
  outside m (s, w) = beside s (m w)

  abbrev pub resolve_cost : Cost W E → Action (State K W) (Exn E) ℕ
  resolve_cost (fixed cost) state = (check_cost cost, state)
  resolve_cost (computed cost) state =
      (outside cost >>= λ resolved state'. (check_cost resolved, state')) state

  -- `_bucket_key`; `global` is the key of a decorator without a `key`
  abbrev pub bucket_key : K → Option (Action W E K) → Action (State K W) (Exn E) K
  bucket_key global none = pure global
  bucket_key global (some key) = outside key

module _ {K Z W E A : Type 0} ⦃e : Hashable K⦄ (bounds : NormalizedWindow Z → ℤ → ℤ × ℤ)
    (config : List (NormalizedWindow Z)) (mode : Mode) (clock : Action W E ℤ)
    (sleep : ℤ → Action W E (Unit {0})) (func : Action W E A) where
  abbrev pub reserve_at : K → ℕ → ℤ → Action (State K W) (Exn E) (Option ℤ)
  reserve_at key cost now (s, w) =
      let (s', result) = reserve_or_delay bounds config now key cost s in (returned result, (s', w))

  abbrev pub reserve : K → ℕ → Action (State K W) (Exn E) (Option ℤ)
  reserve key cost = outside clock >>= reserve_at key cost

  -- what the loop does when the call has to wait
  abbrev pub wait_or_raise : Mode → ℤ → Action (State K W) (Exn E) (Unit {0})
  wait_or_raise raise_mode wait = raise (rate_limit_exceeded (finite wait))
  wait_or_raise block_mode wait = outside (sleep wait)

  abbrev pub run_function : Action (State K W) (Exn E) (Option A)
  run_function = outside func >>= λ a. pure (some a)

  -- run the function, or wait and go round again
  abbrev pub decide :
      Action (State K W) (Exn E) (Option A) → Option ℤ → Action (State K W) (Exn E) (Option A)
  decide again none = run_function
  decide again (some wait) = wait_or_raise mode wait >> again

  -- `while True`
  unfoldable pub attempts : ℕ → K → ℕ → Action (State K W) (Exn E) (Option A)
  attempts zero key cost = pure none
  attempts (suc fuel) key cost =
      let again = attempts fuel key cost in reserve key cost >>= decide again

  -- what costs more than a window ever allows is not tried
  abbrev pub admit :
      ℕ
      → Action (State K W) (Exn E) K
      → (K → Action (State K W) (Exn E) (Option A))
      → Action (State K W) (Exn E) (Option A)
  admit call_cost bucket go =
      if cost_exceeds_capacity call_cost config
      then raise (rate_limit_exceeded infinite)
      else bucket >>= go

  unfoldable pub wrapper :
      ℕ → Cost W E → K → Option (Action W E K) → Action (State K W) (Exn E) (Option A)
  wrapper fuel cost global key = resolve_cost cost >>= λ call_cost.
      admit call_cost (bucket_key global key) (λ bucket. attempts fuel bucket call_cost)
