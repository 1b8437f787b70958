-- ===== src/Retry/Script.antt =====
-- `retry` against a script: the outcomes of a function, one for each time it runs. The world counts
-- the runs and logs the delays that are slept.
use pydecorators.Prelude.{
  ℕ, zero, suc, ◌+◌, ◌≤◌, ◌<◌, ◌≡◌, refl, Bool, true, false, Option, none, some, List, [], ◌∷◌,
  ◌++◌, if◌then◌else◌, leb, ◌-◌, arith, Bool-cases, ◌⊎◌, inl, inr, ap, sym, ◌∙◌, subst, All,
}
use mathlib.Core.List.{append-nil, append_assoc}
use pydecorators.Prelude.Int.{ℤ, ◌≤ℤ◌}
use pydecorators.Prelude.Effect.{Outcome, returned, raised, Action, resume, pure, ◌>>◌}
use pydecorators.Exceptions.{Exn}
use pydecorators.Retry.{
  Config, call_after, next_delay, asks, uncaught, caught, retry_or_raise, rounds, wrapper,
}

abbrev pub World : Type 0
World = ℕ × List ℤ

module _ {E A : Type 0} (attempts : ℕ) (delay : ℤ) (max_delay : Option ℤ) (matches : E → Bool)
    (predicate : Option (E → Bool)) (times_backoff : ℤ → ℤ) (script : ℕ → Outcome E A) where
  abbrev as_predicate : Option (E → Bool) → Option (E → Action World E Bool)
  as_predicate none = none
  as_predicate (some p) = some (λ exc. pure (p exc))

  abbrev passes : Option (E → Bool) → E → Bool
  passes none exc = true
  passes (some p) exc = p exc

  -- no hooks and no jitter
  abbrev pub plain_config : Config World E
  plain_config = record {
    attempts = attempts;
    delay = delay;
    max_delay = max_delay;
    matches = matches;
    retry_if = as_predicate predicate;
    before_attempt = none;
    after_attempt = none;
    times_backoff = times_backoff;
    uniform = none;
  }

  abbrev pub run_script : Action World E A
  run_script (n, slept) = (script n, (n + 1, slept))

  abbrev pub log_sleep : ℤ → Action World E (Unit {0})
  log_sleep d (n, slept) = (returned tt, (n, slept ++ d ∷ []))

  -- An outcome that is tried again while attempts are left.
  abbrev pub is_retryable : Outcome E A → Bool
  is_retryable (returned a) = false
  is_retryable (raised exc) = if matches exc then passes predicate exc else false

  -- The delays before the attempts that follow: each is the next of the one before.
  abbrev pub schedule : ℕ → ℤ → List ℤ
  schedule zero d = []
  schedule (suc k) d = d ∷ schedule k (next_delay plain_config d)

  abbrev rounds_of : ℕ → ℕ → ℤ → Action World (Exn E) A
  rounds_of = rounds plain_config log_sleep run_script

  abbrev pub settle : ℕ → World → Outcome (Exn E) A × World
  settle j w = uncaught plain_config log_sleep run_script (script j, w)

  asked :
      (p : Option (E → Bool)) (exc : E) (w : World)
      → asks plain_config exc (as_predicate p) w ≡ (returned (passes p exc), w)
  asked none exc w = refl
  asked (some p) exc w = refl

  -- what the handler does with the predicate's answer
  answered :
      (d : ℤ) (again : Action World (Exn E) A) (exc : E) (w : World) (b : Bool)
      → passes predicate exc ≡ b
      → resume (retry_or_raise plain_config log_sleep run_script exc d again) (
          uncaught plain_config log_sleep run_script
            (asks plain_config exc (as_predicate predicate) w))
        ≡ retry_or_raise plain_config log_sleep run_script exc d again b w
  answered d again exc w b h =
      ap
        (λ r.
          resume (retry_or_raise plain_config log_sleep run_script exc d again)
            (uncaught plain_config log_sleep run_script r))
        (asked predicate exc w ∙ ap (λ c. (returned c, w)) h)

  caught_again :
      (n : ℕ) (d : ℤ) (again : Action World (Exn E) A) (o : Outcome E A) (m : ℕ) (slept : List ℤ)
      → n < attempts
      → is_retryable o ≡ true
      → caught plain_config log_sleep run_script n d again (o, (m, slept))
        ≡ again (m, slept ++ d ∷ [])
  caught_again n d again (returned a) m slept h r = cc
  caught_again n d again (raised exc) m slept h r =
      let left : leb attempts n ≡ false = ground arith in
      let matched : matches exc ≡ true = ground arith in
      let passed : passes predicate exc ≡ true = ground arith in
      rw (matched, left) (answered d again exc (m, slept) true passed)

  caught_last :
      (n : ℕ) (d : ℤ) (again : Action World (Exn E) A) (o : Outcome E A) (w : World)
      → (attempts ≤ n) ⊎ (is_retryable o ≡ false)
      → caught plain_config log_sleep run_script n d again (o, w)
        ≡ uncaught plain_config log_sleep run_script (o, w)
  caught_last n d again (returned a) w h = refl
  caught_last n d again (raised exc) w h = elim (Bool-cases (matches exc)) [
    | inr other ↦ rw other refl
    | inl matched ↦ elim (Bool-cases (leb attempts n)) [
      | inl last ↦ rw (matched, last) refl
      | inr left ↦
          let refused : passes predicate exc ≡ false = ground arith in
          rw (matched, left) (answered d again exc w false refused)
    ]
  ]

  body_outcome :
      (n : ℕ) (o : Outcome E A) (w : World)
      → resume (λ result. call_after plain_config n none >> pure result) (o, w) ≡ (o, w)
  body_outcome n (returned a) w = refl
  body_outcome n (raised exc) w = refl

  rounds_last :
      (r n : ℕ) (d : ℤ) (m : ℕ) (slept : List ℤ)
      → (attempts ≤ n) ⊎ (is_retryable (script m) ≡ false)
      → rounds_of (suc r) n d (m, slept) ≡ settle m (m + 1, slept)
  unfolding rounds
  rounds_last r n d m slept h =
      let again = rounds_of r (n + 1) (next_delay plain_config d) in
      ap (caught plain_config log_sleep run_script n d again)
        (body_outcome n (script m) (m + 1, slept))
      ∙ caught_last n d again (script m) (m + 1, slept) h

  rounds_again :
      (r n : ℕ) (d : ℤ) (m : ℕ) (slept : List ℤ)
      → n < attempts
      → is_retryable (script m) ≡ true
      → rounds_of (suc r) n d (m, slept)
        ≡ rounds_of r (n + 1) (next_delay plain_config d) (m + 1, slept ++ d ∷ [])
  unfolding rounds
  rounds_again r n d m slept h retry =
      let again = rounds_of r (n + 1) (next_delay plain_config d) in
      ap (caught plain_config log_sleep run_script n d again)
        (body_outcome n (script m) (m + 1, slept))
      ∙ caught_again n d again (script m) (m + 1) slept h retry

  rounds-settle :
      (k r n : ℕ) (d : ℤ) (m j : ℕ) (slept : List ℤ)
      → n + r ≡ attempts
      → k ≤ r
      → m + k ≡ j
      → ((i : ℕ) → m ≤ i → i < j → is_retryable (script i) ≡ true)
      → (r ≡ k) ⊎ (is_retryable (script j) ≡ false)
      → rounds_of (suc r) n d (m, slept) ≡ settle j (j + 1, slept ++ schedule k d)
  rounds-settle zero r n d m j slept total le at retries final =
      let same : m ≡ j = omega arith in
      let last : (attempts ≤ n) ⊎ (is_retryable (script m) ≡ false) = elim final [
        | inl none_left ↦ inl (omega arith)
        | inr settled ↦ inr (subst (λ i. is_retryable (script i) ≡ false) (sym same) settled)
      ] in
      rounds_last r n d m slept last
      ∙ ap (λ i. settle i (i + 1, slept)) same
      ∙ ap (λ log. settle j (j + 1, log)) (sym (append-nil slept))
  rounds-settle (suc k) zero n d m j slept total le at retries final = absurd (omega arith)
  rounds-settle (suc k) (suc r) n d m j slept total le at retries final =
      rounds_again (suc r) n d m slept (omega arith) (retries m (omega arith) (omega arith))
      ∙ rounds-settle k r (n + 1) (next_delay plain_config d) (m + 1) j (slept ++ d ∷ [])
          (omega arith) (omega arith) (omega arith) (λ i lo hi. retries i (omega arith) hi)
          (elim final [ inl all ↦ inl (omega arith) | inr settled ↦ inr settled ])
      ∙ ap (λ log. settle j (j + 1, log))
          (append_assoc slept (d ∷ []) (schedule k (next_delay plain_config d)))

  -- The wrapper without hooks or jitter, against any script: if the attempts before attempt `j + 1` all
  -- fail with exceptions to be tried again, and that attempt is the last or its outcome is not to be
  -- tried again, then the wrapper gives that outcome, the function has run `j + 1` times, and what was
  -- slept between the runs is the first `j` delays of the schedule.
  pub wrapper-settle :
      (j : ℕ)
      → j < attempts
      → ((i : ℕ) → i < j → is_retryable (script i) ≡ true)
      → (j + 1 ≡ attempts) ⊎ (is_retryable (script j) ≡ false)
      → wrapper plain_config log_sleep run_script (0, []) ≡ settle j (j + 1, schedule j delay)
  wrapper-settle j h retries final =
      subst (λ a. rounds_of a 1 delay (0, []) ≡ settle j (j + 1, schedule j delay)) (omega arith)
        (rounds-settle j (attempts - 1) 1 delay 0 j [] (omega arith) (omega arith) (omega arith)
          (λ i lo hi. retries i hi)
          (elim final [ inl all ↦ inl (omega arith) | inr settled ↦ inr settled ]))

  -- Every delay after the first is at most the given `max_delay`.
  pub schedule-capped :
      (cap : ℤ) (k : ℕ) (d : ℤ)
      → max_delay ≡ some cap
      → All (λ x. x ≤ℤ cap) (schedule k (next_delay plain_config d))
  schedule-capped cap zero d h = tt
  schedule-capped cap (suc k) d h =
      (rw h (ground arith), schedule-capped cap k (next_delay plain_config d) h)
