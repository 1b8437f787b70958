-- ===== src/CircuitBreaker/Calls.antt =====
-- What one call of the wrapper does, and what a run of calls does.
use pydecorators.Prelude.{
  ℕ, ◌+◌, ◌<◌, ◌≡◌, ◌↔◌, true, Option, none, some, arith, refl, List, [], ◌∷◌, All, length, ◌++◌,
  ◌∙◌, ap, if◌then◌else◌,
}
use pydecorators.Prelude.Int.{ℤ, pos, ◌-ℤ◌, ◌+ℤ◌, ◌≤ℤ◌, ◌<ℤ◌, -ℤ_parts, +ℤ_parts}
use pydecorators.Prelude.Effect.{Outcome, returned, raised, Action}
use pydecorators.Exceptions.{Exn, circuit_breaker_open, foreign}
use pydecorators.CircuitBreaker.{
  CircuitState, closed, open_state, half_open, Config, Breaker, Readings, initial, current_state,
  remaining, before_call, is_counted, record_failure, record_success, wrapper,
}
use pydecorators.CircuitBreaker.Invariant.{IsValid}

module _ {E : Type 0} (config : Config E) where
  -- Open, and the time is before the end of the reset timeout.
  abbrev IsBlockedAt : ℤ → CircuitState → Option ℤ → Type 0
  IsBlockedAt now open_state (some opened) = now <ℤ opened +ℤ config.reset_timeout
  IsBlockedAt _ _ _ = ⊥

  abbrev pub IsBlocked : ℤ → Breaker → Type 0
  IsBlocked now b = IsBlockedAt now b.state b.opened_at

  -- The seconds that a rejection reports, with the time of its own clock reading.
  abbrev pub HasOpenedBy : ℤ → Option ℤ → Type 0
  HasOpenedBy now none = Unit
  HasOpenedBy now (some opened) = opened ≤ℤ now

  admits_at :
      (now now' : ℤ) (s : CircuitState) (n : ℕ) (o : Option ℤ)
      → let b : Breaker = record { state = s; failure_count = n; opened_at = o } in
        IsValid config b → ((before_call config now now' b).1 ≡ returned tt) ↔ (¬ IsBlocked now b)
  unfolding before_call current_state
  admits_at now now' closed n none h = (λ _ blocked. blocked, λ _. refl)
  admits_at now now' half_open n (some t) h = (λ _ blocked. blocked, λ _. refl)
  admits_at now now' open_state n (some t) h = (
    λ e blocked. ground (arith, -ℤ_parts now t, +ℤ_parts t config.reset_timeout),
    λ free. ground (arith, -ℤ_parts now t, +ℤ_parts t config.reset_timeout),
  )
  admits_at now now' closed n (some t) h = absurd h
  admits_at now now' half_open n none h = absurd h
  admits_at now now' open_state n none h = absurd h

  -- On a valid breaker a call is let through exactly when the circuit is not open, or its reset
  -- timeout has passed at the first clock reading.
  pub before_call-admits_iff :
      (now now' : ℤ) (b : Breaker)
      → IsValid config b
      → ((before_call config now now' b).1 ≡ returned tt) ↔ (¬ IsBlocked now b)
  before_call-admits_iff now now' b h = admits_at now now' b.state b.failure_count b.opened_at h

module _ {E W A : Type 0} (config : Config E) (func : Action W E A) (clock : Readings) where
  rejects_at :
      (s : CircuitState) (n : ℕ) (o : Option ℤ) (w : W)
      → let b : Breaker = record { state = s; failure_count = n; opened_at = o } in
        pos 0 ≤ℤ config.reset_timeout
        → IsBlocked config clock.promote b
        → HasOpenedBy config clock.elapsed b.opened_at
        → (wait : ℤ) × (wrapper config func clock b w ≡ (raised (circuit_breaker_open wait), b, w))
          × (pos 0 ≤ℤ wait)
          × (wait ≤ℤ config.reset_timeout)
  unfolding wrapper before_call current_state
  rejects_at open_state n (some t) w q h o = (
    remaining config clock.elapsed t,
    ground (arith, -ℤ_parts clock.promote t, +ℤ_parts t config.reset_timeout),
    ground arith,
    ground (arith, -ℤ_parts clock.elapsed t, -ℤ_parts config.reset_timeout (clock.elapsed -ℤ t)),
  )
  rejects_at closed n o w q h _ = absurd h
  rejects_at half_open n o w q h _ = absurd h
  rejects_at open_state n none w q h _ = absurd h

  -- While the circuit is open and its reset timeout has not passed, a call is rejected: the function
  -- is not run, the breaker stays as it is, and the wait that is reported lies between 0 and the
  -- reset timeout, if the clock has not gone back behind the time of opening.
  pub wrapper_rejects :
      (b : Breaker) (w : W)
      → pos 0 ≤ℤ config.reset_timeout
      → IsBlocked config clock.promote b
      → HasOpenedBy config clock.elapsed b.opened_at
      → (wait : ℤ) × (wrapper config func clock b w ≡ (raised (circuit_breaker_open wait), b, w))
        × (pos 0 ≤ℤ wait)
        × (wait ≤ℤ config.reset_timeout)
  wrapper_rejects b w = rejects_at b.state b.failure_count b.opened_at w

  -- The state after a call that was let through.
  abbrev pub settled : Breaker → Outcome E A → Breaker
  settled b (returned _) = initial
  settled b (raised exc) = record_failure config clock.failed exc b

  abbrev pub passed_on : Outcome E A → Outcome (Exn E) A
  passed_on (returned a) = returned a
  passed_on (raised exc) = raised (foreign exc)

  -- A call that is let through runs the function once, passes its result or its exception on, and
  -- resets the breaker after a result, or records the exception.
  pub wrapper_runs :
      (b : Breaker) (w : W)
      → IsValid config b
      → ¬ IsBlocked config clock.promote b
      → let (r, w') = func w in
        wrapper config func clock b w
        ≡ (passed_on r, settled (current_state config clock.promote b) r, w')
  unfolding wrapper before_call record_success
  wrapper_runs b w h free =
      ground (arith, (before_call-admits_iff config clock.promote clock.elapsed b h).1 free)

-- One attempted call, by its clock readings and what the function would do.
pub record Attempt (E A : Type 0) : Type 0 where
  pub clock : Readings
  pub outcome : Outcome E A

abbrev pub closed_at : ℕ → Breaker
closed_at n = record { state = closed; failure_count = n; opened_at = none }

abbrev pub open_since : {E : Type 0} → Config E → ℤ → Breaker
open_since config opened = record {
  state = open_state;
  failure_count = config.failure_threshold;
  opened_at = some opened;
}

module _ {E A : Type 0} (config : Config E) where
  -- The breaker after one call, and after a run of calls, one after the other.
  unfoldable pub attempt : Attempt E A → Breaker → Breaker
  attempt a b = (wrapper config (λ (w : Unit {0}). (a.outcome, w)) a.clock b tt).1

  unfoldable pub drive : List (Attempt E A) → Breaker → Breaker
  drive [] b = b
  drive (a ∷ rest) b = drive rest (attempt a b)

  abbrev CountsAs : Outcome E A → Type 0
  CountsAs (returned _) = ⊥
  CountsAs (raised exc) = is_counted config exc ≡ true

  -- The call raises an exception that counts.
  abbrev pub CountsAsFailure : Attempt E A → Type 0
  CountsAsFailure a = CountsAs a.outcome

  fails_below :
      (clock : Readings) (o : Outcome E A) (n : ℕ)
      → CountsAs o
      → n + 1 < config.failure_threshold
      → attempt (record { clock = clock; outcome = o }) (closed_at n) ≡ closed_at (n + 1)
  unfolding attempt wrapper before_call current_state record_failure
  fails_below clock (raised exc) n c h = ground arith
  fails_below clock (returned _) n c h = absurd c

  fails_at :
      (clock : Readings) (o : Outcome E A) (n : ℕ)
      → CountsAs o
      → n + 1 ≡ config.failure_threshold
      → attempt (record { clock = clock; outcome = o }) (closed_at n)
        ≡ open_since config clock.failed
  unfolding attempt wrapper before_call current_state record_failure
  fails_at clock (raised exc) n c h = ground arith
  fails_at clock (returned _) n c h = absurd c

  -- Fewer failures in a row than are still needed leave the circuit closed, and each is counted.
  pub drive-closed :
      (calls : List (Attempt E A)) (n : ℕ)
      → All CountsAsFailure calls
      → n + length calls < config.failure_threshold
      → drive calls (closed_at n) ≡ closed_at (n + length calls)
  unfolding drive
  drive-closed [] n c h = ground arith
  drive-closed (a ∷ rest) n c h =
      rw (fails_below a.clock a.outcome n c.0 (omega arith))
        (drive-closed rest (n + 1) c.1 (omega arith) ∙ ap closed_at (omega arith))

  drive-append :
      (calls : List (Attempt E A)) (a : Attempt E A) (b : Breaker)
      → drive (calls ++ a ∷ []) b ≡ attempt a (drive calls b)
  unfolding drive
  drive-append [] a b = refl
  drive-append (c ∷ calls) a b = drive-append calls a (attempt c b)

  -- From a closed circuit, failures in a row open it with the one that reaches the threshold, at the
  -- time that the clock shows then, and no earlier one does.
  pub drive-opens :
      (calls : List (Attempt E A)) (a : Attempt E A) (n : ℕ)
      → All CountsAsFailure calls
      → CountsAsFailure a
      → n + length calls + 1 ≡ config.failure_threshold
      → (drive calls (closed_at n) ≡ closed_at (n + length calls))
        × (drive (calls ++ a ∷ []) (closed_at n) ≡ open_since config a.clock.failed)
  drive-opens calls a n cs c h =
      let below = drive-closed calls n cs (omega arith) in
      (below, rw (drive-append, below) (fails_at a.clock a.outcome (n + length calls) c h))

  -- A probe decides: after the reset timeout of an open circuit the call is let through, a result
  -- closes the circuit with no failures counted, an exception that counts opens it again from the
  -- time of the failure, and any other exception leaves it half-open.
  pub probe_decides :
      (a : Attempt E A) (n : ℕ) (opened : ℤ)
      → opened +ℤ config.reset_timeout ≤ℤ a.clock.promote
      → let b : Breaker = record {
        state = open_state;
        failure_count = n;
        opened_at = some opened;
      } in
        attempt a b ≡ elim a.outcome [
          | returned _ ↦ initial
          | raised exc ↦
              if is_counted config exc
              then open_since config a.clock.failed
              else record b { state = half_open }
        ]
  unfolding attempt wrapper before_call current_state record_failure record_success
  probe_decides a n opened h =
      ground (arith, -ℤ_parts a.clock.promote opened, +ℤ_parts opened config.reset_timeout)
