-- ===== src/RateLimit/Waiting.antt =====
-- How long a call has to wait for a sliding window: until the first moment at which it fits.
use pydecorators.Prelude.{
  ℕ, ◌+◌, ◌-◌, ◌<◌, ◌≤◌, ◌≡◌, refl, true, false, none, List, [], ◌∷◌, arith, leb, All, Bool-cases,
  inl, inr, ◌∙◌, sym, ap, subst,
}
use pydecorators.Prelude.Int.{
  ℤ, pos, ◌+ℤ◌, ◌-ℤ◌, ◌≤ℤ◌, ◌<ℤ◌, max_ℤ, +ℤ_parts, -ℤ_parts, eq_of_parts,
}
use pydecorators.RateLimit.{
  RuntimeWindow, Event, used_cost, wait_until_freed, wait_over_limit, window_wait_seconds,
}
use pydecorators.RateLimit.Events.{used_after-le, used_after, IsSorted}

-- A call of this cost fits after the bound, and after no earlier one.
abbrev pub IsFirstFit : ℕ → ℕ → ℤ → List Event → Type 0
IsFirstFit calls cost bound events =
    (used_after bound events + cost ≤ calls)
    × ((b : ℤ) → b <ℤ bound → calls < used_after b events + cost)

used_after_newer :
    (b t : ℤ) (es : List Event)
    → b <ℤ t
    → All (λ f. t ≤ℤ f.timestamp) es
    → used_after b es ≡ used_cost es
unfolding used_cost
used_after_newer b t [] h a = refl
used_after_newer b t (e ∷ es) h a = ground (arith, used_after_newer b t es h a.1)

this_event-IsFirstFit :
    (calls cost rest : ℕ) (e : Event) (es : List Event)
    → IsSorted (e ∷ es)
    → used_cost (e ∷ es) ≡ rest
    → calls < rest + cost
    → rest - e.cost + cost ≤ calls
    → IsFirstFit calls cost e.timestamp (e ∷ es)
unfolding used_cost
this_event-IsFirstFit calls cost rest e es sorted total over enough = (
  ground (arith, used_after-le e.timestamp es),
  λ b h. ground (arith, used_after_newer b e.timestamp es h sorted.0),
)

later_event-IsFirstFit :
    (calls cost : ℕ) (bound : ℤ) (e : Event) (es : List Event)
    → e.timestamp ≤ℤ bound
    → IsFirstFit calls cost bound es
    → IsFirstFit calls cost bound (e ∷ es)
later_event-IsFirstFit calls cost bound e es h (fits, first) =
    (ground arith, λ b hb. ground (arith, first b hb))

module _ (w : RuntimeWindow) (now : ℤ) (cost : ℕ) where
  -- the left end of the window when the wait is over
  abbrev pub freed_bound : ℤ → ℤ
  freed_bound wait = now +ℤ wait -ℤ w.period

  freed_bound_event :
      (t : ℤ) → now -ℤ w.period <ℤ t → freed_bound (max_ℤ (pos 0) (t +ℤ w.period -ℤ now)) ≡ t
  freed_bound_event t h =
      let left = t +ℤ w.period -ℤ now in
      let positive : max_ℤ (pos 0) left ≡ left =
        ground (arith, -ℤ_parts now w.period, +ℤ_parts t w.period, -ℤ_parts (t +ℤ w.period) now) in
      ap freed_bound positive
      ∙ eq_of_parts (now +ℤ left -ℤ w.period) t (
          omega (
            arith,
            +ℤ_parts t w.period,
            -ℤ_parts (t +ℤ w.period) now,
            +ℤ_parts now left,
            -ℤ_parts (now +ℤ left) w.period,
          ))

  -- the wait leads to the first fit, and what is freed ends at or after `lo`
  abbrev IsFreeing : ℤ → List Event → ℤ → Type 0
  IsFreeing lo es wait = (lo ≤ℤ freed_bound wait) × IsFirstFit w.calls cost (freed_bound wait) es

  wait_this :
      (used freed : ℕ) (e : Event) (es : List Event)
      → leb (used - (freed + e.cost) + cost) w.calls ≡ true
      → wait_until_freed w now cost used freed (e ∷ es)
        ≡ max_ℤ (pos 0) (e.timestamp +ℤ w.period -ℤ now)
  unfolding wait_until_freed
  wait_this used freed e es h = rw h refl

  wait_later :
      (used freed : ℕ) (e : Event) (es : List Event)
      → leb (used - (freed + e.cost) + cost) w.calls ≡ false
      → wait_until_freed w now cost used freed (e ∷ es)
        ≡ wait_until_freed w now cost used (freed + e.cost) es
  unfolding wait_until_freed
  wait_later used freed e es h = rw h refl

  this_event-IsFreeing :
      (lo : ℤ) (used freed : ℕ) (e : Event) (es : List Event)
      → IsSorted (e ∷ es)
      → lo ≤ℤ e.timestamp
      → now -ℤ w.period <ℤ e.timestamp
      → freed + used_cost (e ∷ es) ≡ used
      → w.calls < used - freed + cost
      → leb (used - (freed + e.cost) + cost) w.calls ≡ true
      → IsFreeing lo (e ∷ es) (wait_until_freed w now cost used freed (e ∷ es))
  this_event-IsFreeing lo used freed e es sorted above fresh total over enough =
      let fit =
        this_event-IsFirstFit w.calls cost (used - freed) e es sorted (omega arith) over
          (ground arith) in
      subst (IsFreeing lo (e ∷ es)) (sym (wait_this used freed e es enough)) (
        subst (λ b. (lo ≤ℤ b) × IsFirstFit w.calls cost b (e ∷ es))
          (sym (freed_bound_event e.timestamp fresh)) (above, fit))

  wait_until_freed-IsFreeing :
      (lo : ℤ) (used freed : ℕ) (e : Event) (es : List Event)
      → IsSorted (e ∷ es)
      → lo ≤ℤ e.timestamp
      → All (λ f. now -ℤ w.period <ℤ f.timestamp) (e ∷ es)
      → freed + used_cost (e ∷ es) ≡ used
      → cost ≤ w.calls
      → w.calls < used - freed + cost
      → IsFreeing lo (e ∷ es) (wait_until_freed w now cost used freed (e ∷ es))
  unfolding used_cost
  wait_until_freed-IsFreeing lo used freed e [] sorted above fresh total small over =
      this_event-IsFreeing lo used freed e [] sorted above fresh.0 total over (ground arith)
  wait_until_freed-IsFreeing lo used freed e (f ∷ es) sorted above fresh total small over =
      elim (Bool-cases (leb (used - (freed + e.cost) + cost) w.calls)) [
        | inl enough ↦
            this_event-IsFreeing lo used freed e (f ∷ es) sorted above fresh.0 total over enough
        | inr more ↦
            let next =
              wait_until_freed-IsFreeing e.timestamp used (freed + e.cost) f es sorted.1 sorted.0.0
                fresh.1 (omega arith) small (ground arith) in
            let bound = freed_bound (wait_until_freed w now cost used (freed + e.cost) (f ∷ es)) in
            subst (IsFreeing lo (e ∷ f ∷ es)) (sym (wait_later used freed e (f ∷ es) more)) (
              omega (arith, next.0),
              later_event-IsFirstFit w.calls cost bound e (f ∷ es) next.0 next.1,
            )
      ]

  window_wait_over_limit :
      (es : List Event)
      → w.reset_at ≡ none
      → w.calls < used_cost es + cost
      → window_wait_seconds es w now cost ≡ wait_until_freed w now cost (used_cost es) 0 es
  unfolding window_wait_seconds
  window_wait_over_limit es reset over =
      let full : leb (used_cost es + cost) w.calls ≡ false = ground arith in
      rw full (ap (wait_over_limit w now cost es) reset)

  -- The wait for a sliding window that has no room ends at the first moment at which the call fits:
  -- after it the window has room, and at every earlier moment it has none. The events are sorted
  -- and inside the window, and the cost is not larger than the limit.
  pub window_wait_seconds-IsFirstFit :
      (es : List Event)
      → w.reset_at ≡ none
      → IsSorted es
      → All (λ f. now -ℤ w.period <ℤ f.timestamp) es
      → cost ≤ w.calls
      → w.calls < used_cost es + cost
      → IsFirstFit w.calls cost (freed_bound (window_wait_seconds es w now cost)) es
  window_wait_seconds-IsFirstFit [] reset sorted fresh small over =
      unfold used_cost in absurd (omega arith)
  window_wait_seconds-IsFirstFit (e ∷ es) reset sorted fresh small over =
      let freeing =
        wait_until_freed-IsFreeing e.timestamp (used_cost (e ∷ es)) 0 e es sorted (omega arith)
          fresh (omega arith) small (omega arith) in
      subst (λ d. IsFirstFit w.calls cost (freed_bound d) (e ∷ es))
        (sym (window_wait_over_limit (e ∷ es) reset over)) freeing.1
