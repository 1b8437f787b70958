-- ===== src/CircuitBreaker/Interleaving.antt =====
-- Calls of several threads or tasks at once. The lock makes each function atomic, and the decorated
-- function runs outside the lock, so a call is two steps: it is admitted (or rejected), and later it
-- ends, while other calls come and go in between.
use pydecorators.Prelude.{ℕ, ◌+◌, ◌-◌, ◌<◌, ◌≡◌, ◌≢◌, Option, none, some, arith}
use pydecorators.Prelude.Int.{ℤ, ◌≤ℤ◌}
use pydecorators.Prelude.Effect.{returned, raised}
use pydecorators.Exceptions.{Exn, assertion_error}
use pydecorators.CircuitBreaker.{
  CircuitState, closed, open_state, half_open, Config, Breaker, initial, current_state, before_call,
  record_failure, record_success,
}
use pydecorators.CircuitBreaker.Invariant.{
  IsValid, IsConsistent, current_state-IsValid, record_failure-IsValid, record_success-IsValid,
  before_call-IsValid,
}
use pydecorators.CircuitBreaker.Calls.{HasOpenedBy}

-- The breaker, the number of calls that were admitted and have not ended, and the latest reading
-- of the clock, which does not go back.
pub record System : Type 0 where
  pub breaker : Breaker
  pub pending : ℕ
  pub now : ℤ

module _ {E : Type 0} (config : Config E) where
  pub data Step (s : System) : System → Type 0 where
    admit :
        (t t' : ℤ)
        → s.now ≤ℤ t
        → t ≤ℤ t'
        → (before_call config t t' s.breaker).1 ≡ returned tt
        → Step s (record {
          breaker = (before_call config t t' s.breaker).0;
          pending = s.pending + 1;
          now = t';
        })
    reject :
        (t t' : ℤ) (e : Exn E)
        → s.now ≤ℤ t
        → t ≤ℤ t'
        → (before_call config t t' s.breaker).1 ≡ raised e
        → Step s (record s { breaker = (before_call config t t' s.breaker).0; now = t' })
    succeed :
        0 < s.pending
        → Step s (record s { breaker = record_success s.breaker; pending = s.pending - 1 })
    fail :
        (t : ℤ) (exc : E)
        → s.now ≤ℤ t
        → 0 < s.pending
        → Step s (record {
          breaker = record_failure config t exc s.breaker;
          pending = s.pending - 1;
          now = t;
        })
    inspect :
        (t : ℤ)
        → s.now ≤ℤ t
        → Step s (record s { breaker = current_state config t s.breaker; now = t })

  pub data Reach (start : ℤ) : System → Type 0 where
    begin : Reach start (record { breaker = initial; pending = 0; now = start })
    later : {s t : System} → Reach start s → Step s t → Reach start t

  pub record IsSound (s : System) : Type 0 where
    pub valid : IsValid config s.breaker
    pub opened : HasOpenedBy config s.now s.breaker.opened_at

  opened_later :
      (t t' : ℤ) (o : Option ℤ) → HasOpenedBy config t o → t ≤ℤ t' → HasOpenedBy config t' o
  opened_later t t' none h le = tt
  opened_later t t' (some o) h le = omega arith

  opened-current_state : (t : ℤ) (b : Breaker) → (current_state config t b).opened_at ≡ b.opened_at
  unfolding current_state
  opened-current_state t b = ground arith

  opened-record_failure :
      (t : ℤ) (exc : E) (b : Breaker)
      → HasOpenedBy config t b.opened_at
      → HasOpenedBy config t (record_failure config t exc b).opened_at
  unfolding record_failure
  opened-record_failure t exc b h = ground arith

  opened-before_call :
      (t t' : ℤ) (b : Breaker) → (before_call config t t' b).0.opened_at ≡ b.opened_at
  unfolding before_call
  opened-before_call t t' b = opened-current_state t b

  Step-IsSound : {s t : System} → 0 < config.failure_threshold → Step s t → IsSound s → IsSound t
  unfolding record_success
  Step-IsSound {s} p (admit t t' h h' _) v = record {
    valid = before_call-IsValid config t t' s.breaker v.valid;
    opened =
        rw (opened-before_call t t' s.breaker)
          (opened_later s.now t' s.breaker.opened_at v.opened (omega arith));
  }
  Step-IsSound {s} p (reject t t' e h h' _) v = record {
    valid = before_call-IsValid config t t' s.breaker v.valid;
    opened =
        rw (opened-before_call t t' s.breaker)
          (opened_later s.now t' s.breaker.opened_at v.opened (omega arith));
  }
  Step-IsSound {s} p (succeed _) v = record {
    valid = record_success-IsValid config s.breaker p;
    opened = tt;
  }
  Step-IsSound {s} p (fail t exc h _) v = record {
    valid = record_failure-IsValid config t exc s.breaker v.valid;
    opened =
        opened-record_failure t exc s.breaker (opened_later s.now t s.breaker.opened_at v.opened h);
  }
  Step-IsSound {s} p (inspect t h) v = record {
    valid = current_state-IsValid config t s.breaker v.valid;
    opened =
        rw (opened-current_state t s.breaker) (opened_later s.now t s.breaker.opened_at v.opened h);
  }

  -- Whatever the threads do, the circuit is closed with fewer failures than the threshold and no
  -- opening time, or has at least that many failures and an opening time that is not in the future.
  pub Reach-IsSound :
      {start : ℤ} {s : System} → 0 < config.failure_threshold → Reach start s → IsSound s
  Reach-IsSound p begin = record { valid = p; opened = tt }
  Reach-IsSound p (later r st) = Step-IsSound p st (Reach-IsSound p r)

  asserts_at :
      (t t' : ℤ) (s : CircuitState) (n : ℕ) (o : Option ℤ)
      → IsConsistent config.failure_threshold s n o
      → (before_call config t t' (record { state = s; failure_count = n; opened_at = o })).1
        ≢ raised assertion_error
  unfolding before_call current_state
  asserts_at t t' closed n none h = λ e. ground arith
  asserts_at t t' closed n (some _) h = absurd h
  asserts_at t t' open_state n none h = absurd h
  asserts_at t t' open_state n (some o) h = λ e. ground arith
  asserts_at t t' half_open n none h = absurd h
  asserts_at t t' half_open n (some o) h = λ e. ground arith

  -- In no reachable state does the `assert opened_at is not None` of `before_call` fail.
  pub before_call-never_asserts :
      {start : ℤ} {s : System} (t t' : ℤ)
      → 0 < config.failure_threshold
      → Reach start s
      → (before_call config t t' s.breaker).1 ≢ raised assertion_error
  before_call-never_asserts {s = s} t t' p r =
      asserts_at t t' s.breaker.state s.breaker.failure_count s.breaker.opened_at
        (Reach-IsSound p r).valid
