-- ===== src/Retry/Settling.antt =====
-- The loop of `retry` ends by returning or by raising: the `AssertionError` after it is not reached.
use pydecorators.Prelude.{
  ℕ, zero, suc, ◌+◌, ◌≤◌, ◌≡◌, ◌≢◌, refl, Bool, true, false, some, leb, arith, subst, ◌-◌,
  Bool-cases, inl, inr,
}
use pydecorators.Prelude.Int.{ℤ}
use pydecorators.Prelude.Effect.{Outcome, returned, raised, Action, resume, ◌>>=◌, ◌>>◌}
use pydecorators.Exceptions.{Exn, assertion_error}
use pydecorators.Retry.{
  Config, next_delay, delay_with_jitter, should_retry, call_before, call_after, uncaught, outside,
  try_body, retry_or_raise, handler, caught, rounds, wrapper,
}

abbrev pub IsSettled : {E W A : Type 0} → Outcome (Exn E) A × W → Type 0
IsSettled p = p.0 ≢ raised assertion_error

resume-IsSettled :
    {E W A B : Type 0} (f : A → Action W (Exn E) B) (p : Outcome (Exn E) A × W)
    → IsSettled p
    → ((a : A) (w : W) → IsSettled (f a w))
    → IsSettled (resume f p)
resume-IsSettled f (returned a, w) h hf = hf a w
resume-IsSettled f (raised e, w) h hf = λ same. h (ground arith)

module _ {W E A : Type 0} (config : Config W E) (sleep : ℤ → Action W E (Unit {0}))
    (func : Action W E A) where
  uncaught-IsSettled : {B : Type 0} (p : Outcome E B × W) → IsSettled (uncaught config sleep func p)
  uncaught-IsSettled (returned b, w) = λ h. cc
  uncaught-IsSettled (raised exc, w) = λ h. cc

  retry_or_raise-IsSettled :
      (exc : E) (d : ℤ) (again : Action W (Exn E) A)
      → ((w : W) → IsSettled (again w))
      → (b : Bool) (w : W) → IsSettled (retry_or_raise config sleep func exc d again b w)
  retry_or_raise-IsSettled exc d again h true w =
      let slept = (delay_with_jitter config d >>= sleep) w in
      resume-IsSettled (λ _. again) (uncaught config sleep func slept) (uncaught-IsSettled slept)
        (λ _. h)
  retry_or_raise-IsSettled exc d again h false w = λ same. cc

  -- After the last attempt the exception is raised again.
  last_attempt :
      (n : ℕ) (d : ℤ) (again : Action W (Exn E) A) (exc : E) (p : Outcome (Exn E) (Unit {0}) × W)
      → config.attempts ≤ n
      → IsSettled p
      → IsSettled (
          resume
            (retry_or_raise config sleep func exc d again)
            (resume (λ _. outside config sleep func (should_retry config exc n)) p))
  last_attempt n d again exc (returned u, w) h hp =
      let last : leb config.attempts n ≡ true = ground arith in rw last (λ same. cc)
  last_attempt n d again exc (raised e, w) h hp = λ same. hp (ground arith)

  handler-IsSettled :
      (n left : ℕ) (d : ℤ) (again : Action W (Exn E) A) (exc : E) (w : W)
      → n + left ≡ config.attempts
      → (¬ (left ≡ 0) → (x : W) → IsSettled (again x))
      → IsSettled (handler config sleep func n d again exc w)
  handler-IsSettled n zero d again exc w h ha =
      let first = uncaught config sleep func (call_after config n (some exc) w) in
      last_attempt n d again exc first (omega arith)
        (uncaught-IsSettled (call_after config n (some exc) w))
  handler-IsSettled n (suc left) d again exc w h ha =
      let first = uncaught config sleep func (call_after config n (some exc) w) in
      let ask : Unit {0} → Action W (Exn E) Bool =
        λ _. outside config sleep func (should_retry config exc n) in
      resume-IsSettled (retry_or_raise config sleep func exc d again) (resume ask first)
        (resume-IsSettled ask first (uncaught-IsSettled (call_after config n (some exc) w))
          (λ _ x. uncaught-IsSettled (should_retry config exc n x)))
        (retry_or_raise-IsSettled exc d again (ha (omega arith)))

  caught-IsSettled :
      (n : ℕ) (d : ℤ) (again : Action W (Exn E) A) (p : Outcome E A × W)
      → ((exc : E) (w : W) → IsSettled (handler config sleep func n d again exc w))
      → IsSettled (caught config sleep func n d again p)
  caught-IsSettled n d again (returned a, w) h = λ same. cc
  caught-IsSettled n d again (raised exc, w) h = elim (Bool-cases (config.matches exc)) [
    | inl matched ↦ rw matched (h exc w)
    | inr other ↦ rw other (λ same. cc)
  ]

  round-IsSettled :
      (n left : ℕ) (d : ℤ) (again : Action W (Exn E) A) (w : W)
      → n + left ≡ config.attempts
      → (¬ (left ≡ 0) → (x : W) → IsSettled (again x))
      → IsSettled (
          (outside config sleep func (call_before config n)
              >> (λ x. caught config sleep func n d again (try_body config sleep func n x)))
            w)
  round-IsSettled n left d again w h ha =
      let before = call_before config n w in
      resume-IsSettled (λ _ x. caught config sleep func n d again (try_body config sleep func n x))
        (uncaught config sleep func before) (uncaught-IsSettled before)
        (λ _ x.
          caught-IsSettled n d again (try_body config sleep func n x)
            (λ exc y. handler-IsSettled n left d again exc y h ha))

  rounds-IsSettled :
      (left n : ℕ) (d : ℤ) (w : W)
      → n + left ≡ config.attempts
      → IsSettled (rounds config sleep func (suc left) n d w)
  unfolding rounds
  rounds-IsSettled zero n d w h = round-IsSettled n zero d _ w h (λ ne. absurd (ne refl))
  rounds-IsSettled (suc left) n d w h =
      round-IsSettled n (suc left) d _ w h
        (λ _ x. rounds-IsSettled left (n + 1) (next_delay config d) x (omega arith))

  -- With at least one attempt, the wrapper returns what the function returns or raises an exception of
  -- the caller's code, whatever the hooks, the predicate and the sleep do: the assertion after the loop
  -- is never reached.
  pub wrapper_never_asserts :
      (w : W) → 1 ≤ config.attempts → (wrapper config sleep func w).0 ≢ raised assertion_error
  wrapper_never_asserts w h =
      subst (λ m. IsSettled (rounds config sleep func m 1 config.delay w)) (omega arith)
        (rounds-IsSettled (config.attempts - 1) 1 config.delay w (omega arith))
