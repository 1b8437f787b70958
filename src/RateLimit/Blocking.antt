-- ===== src/RateLimit/Blocking.antt =====
-- The loop of the wrapper: when it ends, what it leads to, and what `retry_after` promises.
use pydecorators.Prelude.{
  ℕ, suc, ◌<◌, ◌≡◌, refl, true, Option, none, some, List, [], ◌∷◌, Hashable, All, Option-cases, inl,
  inr, arith, ◌∙◌, sym, ap, subst,
}
use pydecorators.Prelude.Int.{ℤ, pos, ◌+ℤ◌, ◌≤ℤ◌}
use pydecorators.Prelude.Dict.{Dict}
use pydecorators.Prelude.Effect.{Outcome, returned, raised, Action, pure, resume, bind_returned}
use pydecorators.Exceptions.{Exn, finite, infinite, Wait, rate_limit_exceeded}
use pydecorators.RateLimit.{NormalizedWindow, Bucket, cost_exceeds_capacity, reserve_or_delay}
use pydecorators.RateLimit.Buckets.{IsOneOf}
use pydecorators.RateLimit.Windows.{HasDistinctNames}
use pydecorators.RateLimit.State.{IsWellFormed}
use pydecorators.RateLimit.Retrying.{CanFit, reserve_or_delay-admits_later}
use pydecorators.RateLimit.Wrapper.{
  beside, reserve_at, admit, bucket_key, Mode, raise_mode, block_mode, Cost, State, outside,
  reserve, resolve_cost, run_function, attempts, wrapper,
}

exceeds_member :
    {Z : Type 0} (cost : ℕ) (w : NormalizedWindow Z) (ws : List (NormalizedWindow Z))
    → IsOneOf w ws
    → w.calls < cost
    → cost_exceeds_capacity cost ws ≡ true
unfolding cost_exceeds_capacity
exceeds_member cost w [] m h = absurd m
exceeds_member cost w (v ∷ ws) (inl same) h =
    let h' : v.calls < cost = subst (λ u. u.calls < cost) same h in ground arith
exceeds_member cost w (v ∷ ws) (inr m) h = ground (arith, exceeds_member cost w ws m h)

-- the `retry_after` of a rejection
abbrev wait_of : {E A : Type 0} → Outcome (Exn E) A → ℤ
wait_of (raised (rate_limit_exceeded (finite wait))) = wait
wait_of _ = pos 0

module _ {K Z W E A : Type 0} ⦃e : Hashable K⦄ (bounds : NormalizedWindow Z → ℤ → ℤ × ℤ)
    (config : List (NormalizedWindow Z)) (clock : Action W E ℤ) (sleep : ℤ → Action W E (Unit {0}))
    (func : Action W E A) where
  -- A call that costs more than some window ever allows is rejected for good: nothing is reserved, the
  -- function is not run, and nothing happens but that the cost is computed.
  pub wrapper_rejects_over_capacity :
      (mode : Mode) (fuel : ℕ) (cost : Cost W E) (global : K) (key : Option (Action W E K))
      (state state' : State K W) (n : ℕ) (w : NormalizedWindow Z)
      → resolve_cost cost state ≡ (returned n, state')
      → IsOneOf w config
      → w.calls < n
      → wrapper bounds config mode clock sleep func fuel cost global key state
        ≡ (raised (rate_limit_exceeded infinite), state')
  unfolding wrapper
  wrapper_rejects_over_capacity mode fuel cost global key state state' n w resolved member over =
      let full = exceeds_member n w config member over in
      bind_returned (resolve_cost cost)
        (λ c.
          admit bounds config mode clock sleep func c (bucket_key global key)
            (λ bucket. attempts bounds config mode clock sleep func fuel bucket c))
        state state' n resolved
      ∙ rw full refl

  module _ (key : K) (cost : ℕ) (s : Dict K Bucket) (w w' : W) (now : ℤ)
      (read : clock w ≡ (returned now, w')) where
    abbrev after : Dict K Bucket × Option ℤ
    after = reserve_or_delay bounds config now key cost s

    reserve_result :
        (mode : Mode) (result : Option ℤ)
        → after.1 ≡ result
        → reserve bounds config mode clock sleep func key cost (s, w)
          ≡ (returned result, (after.0, w'))
    reserve_result mode result h =
        bind_returned (outside clock) (reserve_at bounds config mode clock sleep func key cost)
          (s, w) (s, w') now (ap (beside s) read)
        ∙ ap (λ r. (returned r, (after.0, w'))) h

    attempts_admitted :
        (mode : Mode) (fuel : ℕ)
        → after.1 ≡ none
        → attempts bounds config mode clock sleep func (suc fuel) key cost (s, w)
          ≡ run_function bounds config mode clock sleep func (after.0, w')
    unfolding attempts
    attempts_admitted mode fuel h =
        bind_returned (reserve bounds config mode clock sleep func key cost) _ (s, w) _ none
          (reserve_result mode none h)

    attempts_waits :
        (fuel : ℕ) (wait : ℤ) (w'' : W)
        → after.1 ≡ some wait
        → sleep wait w' ≡ (returned tt, w'')
        → attempts bounds config block_mode clock sleep func (suc fuel) key cost (s, w)
          ≡ attempts bounds config block_mode clock sleep func fuel key cost (after.0, w'')
    unfolding attempts
    attempts_waits fuel wait w'' h slept =
        bind_returned (reserve bounds config block_mode clock sleep func key cost) _ (s, w) _
          (some wait) (reserve_result block_mode (some wait) h)
        ∙ bind_returned (outside (sleep wait)) _ (after.0, w') _ tt (ap (beside after.0) slept)

    attempts_raises :
        (fuel : ℕ) (wait : ℤ)
        → after.1 ≡ some wait
        → attempts bounds config raise_mode clock sleep func (suc fuel) key cost (s, w)
          ≡ (raised (rate_limit_exceeded (finite wait)), (after.0, w'))
    unfolding attempts
    attempts_raises fuel wait h =
        bind_returned (reserve bounds config raise_mode clock sleep func key cost) _ (s, w) _
          (some wait) (reserve_result raise_mode (some wait) h)

  -- A rejection is never the function's own.
  no_rejection :
      (mode : Mode) (s : Dict K Bucket) (r : Outcome E A × W) (wait : Wait) (state : State K W)
      → resume (λ a. pure (some a)) (beside s r) ≡ (raised (rate_limit_exceeded wait), state)
      → ⊥
  no_rejection mode s (returned a, w) wait state h = cc
  no_rejection mode s (raised x, w) wait state h = cc

  -- What `retry_after` promises: if a call in raise mode is rejected with `retry_after` of `d` seconds,
  -- a call with the same key and cost, with no call in between and no earlier than `d` after the first
  -- one read the clock, runs the function. The windows are sliding with different names, their events
  -- are in order, and the cost exceeds no limit.
  pub retry_after_holds :
      (key : K) (cost : ℕ) (s s' : Dict K Bucket) (w w' v v' u : W) (now later d : ℤ)
      (fuel fuel' : ℕ)
      → IsWellFormed s
      → HasDistinctNames config
      → All (CanFit bounds config key cost s) config
      → clock w ≡ (returned now, w')
      → clock v ≡ (returned later, v')
      → attempts bounds config raise_mode clock sleep func (suc fuel) key cost (s, w)
        ≡ (raised (rate_limit_exceeded (finite d)), (s', u))
      → now +ℤ d ≤ℤ later
      → attempts bounds config raise_mode clock sleep func (suc fuel') key cost (s', v)
        ≡ run_function bounds config raise_mode clock sleep func
            ((reserve_or_delay bounds config later key cost s').0, v')
  retry_after_holds key cost s s' w w' v v' u now later d fuel fuel' wf names fit read read'
        rejected rested =
      let done = reserve_or_delay bounds config now key cost s in
      elim (Option-cases done.1) [
        | inl free ↦
            let runs = attempts_admitted key cost s w w' now read raise_mode fuel free in
            absurd
              (no_rejection raise_mode done.0 (func w') (finite d) (s', u) (sym runs ∙ rejected))
        | inr (wait, held) ↦
            let same = sym (attempts_raises key cost s w w' now read fuel wait held) ∙ rejected in
            let state_same : done.0 ≡ s' = ap (λ r. r.1.0) same in
            let wait_same : wait ≡ d = ap (λ r. wait_of r.0) same in
            let free =
              reserve_or_delay-admits_later bounds config key cost s now later d wf names
                (held ∙ ap some wait_same) rested fit in
            attempts_admitted key cost s' v v' later read' raise_mode fuel' (
              subst (λ t. (reserve_or_delay bounds config later key cost t).1 ≡ none) state_same
                free)
      ]

  -- In block mode every call ends: if the clock tells the time, sleeping takes at least as long as it is
  -- asked to, and no other call of the limiter happens while this one sleeps, two rounds of the loop are
  -- enough, and the last thing that happens is that the function runs. The windows are sliding with different names, their events are in order, and the cost exceeds
  -- no limit.
  pub block_mode_runs :
      (time : W → ℤ) (key : K) (cost : ℕ) (s : Dict K Bucket) (w : W) (fuel : ℕ)
      → ((x : W) → clock x ≡ (returned (time x), x))
      → ((wait : ℤ) (x : W)
          → (y : W) × (sleep wait x ≡ (returned tt, y)) × (time x +ℤ wait ≤ℤ time y))
      → IsWellFormed s
      → HasDistinctNames config
      → All (CanFit bounds config key cost s) config
      → (s' : Dict K Bucket) × (w' : W) × (attempts bounds config block_mode clock sleep func
            (suc (suc fuel))
            key
            cost
            (s, w)
          ≡ run_function bounds config block_mode clock sleep func (s', w'))
  block_mode_runs time key cost s w fuel tells sleeps wf names fit =
      let done = reserve_or_delay bounds config (time w) key cost s in
      elim (Option-cases done.1) [
        | inl free ↦ (
          done.0,
          w,
          attempts_admitted key cost s w w (time w) (tells w) block_mode (suc fuel) free,
        )
        | inr (wait, held) ↦
            let (y, slept, rested) = sleeps wait w in
            let free =
              reserve_or_delay-admits_later bounds config key cost s (time w) (time y) wait wf names
                held rested fit in
            (
              (reserve_or_delay bounds config (time y) key cost done.0).0,
              y,
              attempts_waits key cost s w w (time w) (tells w) (suc fuel) wait y held slept
                  ∙ attempts_admitted key cost done.0 y y (time y) (tells y) block_mode fuel free,
            )
      ]
