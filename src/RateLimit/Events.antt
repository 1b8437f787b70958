-- ===== src/RateLimit/Events.antt =====
-- The events of one window: pruning, what is used, and when a call has to wait.
use pydecorators.Prelude.{
  ℕ, ◌+◌, ◌≤◌, ◌≡◌, refl, none, List, [], ◌∷◌, ◌++◌, arith, All, All-append, Bool-cases, inl, inr,
  if◌then◌else◌,
}
use pydecorators.Prelude.Int.{ℤ, pos, ◌+ℤ◌, ◌-ℤ◌, ◌≤ℤ◌, ◌<ℤ◌, leb_ℤ, ltb_ℤ, +ℤ_parts, -ℤ_parts}
use pydecorators.RateLimit.{
  Event, RuntimeWindow, prune, used_cost, wait_until_freed, window_wait_seconds,
}

-- The cost of the events after a time.
abbrev pub used_after : ℤ → List Event → ℕ
used_after bound [] = 0
used_after bound (e ∷ rest) =
    (if ltb_ℤ bound e.timestamp then e.cost else 0) + used_after bound rest

pub used_after_mono : (b c : ℤ) (es : List Event) → b ≤ℤ c → used_after c es ≤ used_after b es
used_after_mono b c [] h = omega arith
used_after_mono b c (e ∷ es) h = ground (arith, used_after_mono b c es h)

pub used_after-le : (b : ℤ) (es : List Event) → used_after b es ≤ used_cost es
unfolding used_cost
used_after-le b [] = omega arith
used_after-le b (e ∷ es) = ground (arith, used_after-le b es)

-- Oldest first.
abbrev pub IsSorted : List Event → Type 0
IsSorted [] = Unit
IsSorted (e ∷ rest) = All (λ f. e.timestamp ≤ℤ f.timestamp) rest × IsSorted rest

pub used_after-prune :
    (p b : ℤ) (es : List Event) → p ≤ℤ b → used_after b (prune p es) ≡ used_after b es
unfolding prune
used_after-prune p b [] h = refl
used_after-prune p b (e ∷ es) h = ground (arith, used_after-prune p b es)

pub prune-All : (P : Event → Type 0) (p : ℤ) (es : List Event) → All P es → All P (prune p es)
unfolding prune
prune-All P p [] h = tt
prune-All P p (e ∷ es) h = elim (Bool-cases (leb_ℤ e.timestamp p)) [
  | inl old ↦ rw old (prune-All P p es h.1)
  | inr new ↦ rw new h
]

pub prune-IsSorted : (p : ℤ) (es : List Event) → IsSorted es → IsSorted (prune p es)
unfolding prune
prune-IsSorted p [] h = tt
prune-IsSorted p (e ∷ es) h = elim (Bool-cases (leb_ℤ e.timestamp p)) [
  | inl old ↦ rw old (prune-IsSorted p es h.1)
  | inr new ↦ rw new h
]

later_fresh :
    (p t : ℤ) (es : List Event)
    → p <ℤ t
    → All (λ f. t ≤ℤ f.timestamp) es
    → All (λ f. p <ℤ f.timestamp) es
later_fresh p t [] h a = tt
later_fresh p t (e ∷ es) h a = (omega arith, later_fresh p t es h a.1)

-- What is left after pruning a sorted window is newer than the bound.
pub prune-fresh : (p : ℤ) (es : List Event) → IsSorted es → All (λ e. p <ℤ e.timestamp) (prune p es)
unfolding prune
prune-fresh p [] h = tt
prune-fresh p (e ∷ es) h = elim (Bool-cases (leb_ℤ e.timestamp p)) [
  | inl old ↦ rw old (prune-fresh p es h.1)
  | inr new ↦ rw new (ground arith, later_fresh p e.timestamp es (ground arith) h.0)
]

pub used_cost-fresh :
    (p : ℤ) (es : List Event) → All (λ e. p <ℤ e.timestamp) es → used_cost es ≡ used_after p es
unfolding used_cost
used_cost-fresh p [] h = refl
used_cost-fresh p (e ∷ es) h = ground (arith, used_cost-fresh p es h.1)

pub used_after-append :
    (b : ℤ) (es : List Event) (e : Event)
    → used_after b (es ++ e ∷ []) ≡ used_after b es + used_after b (e ∷ [])
used_after-append b [] e = omega arith
used_after-append b (f ∷ es) e = omega (arith, used_after-append b es e)

pub append-IsSorted :
    (es : List Event) (e : Event)
    → IsSorted es
    → All (λ f. f.timestamp ≤ℤ e.timestamp) es
    → IsSorted (es ++ e ∷ [])
append-IsSorted [] e h a = (tt, tt)
append-IsSorted (f ∷ es) e h a = (
  All-append (λ g. f.timestamp ≤ℤ g.timestamp) es (e ∷ []) h.0 (a.0, tt),
  append-IsSorted es e h.1 a.1,
)

wait_until_freed_pos :
    (w : RuntimeWindow) (now : ℤ) (cost used freed : ℕ) (es : List Event)
    → pos 0 <ℤ w.period
    → All (λ e. now -ℤ w.period <ℤ e.timestamp) es
    → pos 0 <ℤ wait_until_freed w now cost used freed es
unfolding wait_until_freed
wait_until_freed_pos w now cost used freed [] h a = ground arith
wait_until_freed_pos w now cost used freed (e ∷ es) h a = ground (
  arith,
  wait_until_freed_pos w now cost used (freed + e.cost) es h a.1,
  -ℤ_parts now w.period,
  +ℤ_parts e.timestamp w.period,
  -ℤ_parts (e.timestamp +ℤ w.period) now,
)

-- A sliding window that is over its limit always makes the call wait.
pub fits_of_no_wait :
    (w : RuntimeWindow) (now : ℤ) (cost : ℕ) (es : List Event)
    → w.reset_at ≡ none
    → pos 0 <ℤ w.period
    → All (λ e. now -ℤ w.period <ℤ e.timestamp) es
    → window_wait_seconds es w now cost ≤ℤ pos 0
    → used_cost es + cost ≤ w.calls
unfolding window_wait_seconds
fits_of_no_wait w now cost es r h a n =
    ground (arith, wait_until_freed_pos w now cost (used_cost es) 0 es h a)
