-- ===== src/RateLimit/Tracking.antt =====
-- The events a window keeps, against the log of all calls that were admitted: pruning forgets only
-- what no window ending now or later counts.
use pydecorators.Prelude.{
  ℕ, ◌+◌, ◌≤◌, ◌≡◌, refl, ◌&&◌, List, [], ◌∷◌, ◌++◌, arith, All, All-append, Bool-cases, inl, inr,
  if◌then◌else◌, ◌∙◌,
}
use pydecorators.Prelude.Int.{ℤ, ◌-ℤ◌, ◌≤ℤ◌, ◌<ℤ◌, leb_ℤ, ltb_ℤ, -ℤ_parts}
use pydecorators.RateLimit.{Event, prune, used_cost}
use pydecorators.RateLimit.Events.{
  used_after_mono, used_after, IsSorted, used_after-prune, prune-All, prune-IsSorted,
  used_cost-fresh, used_after-append, append-IsSorted,
}

-- The cost of the events in the window of a time span: after `start`, up to `end`.
abbrev pub cost_within : (start end : ℤ) → List Event → ℕ
cost_within start end [] = 0
cost_within start end (e ∷ rest) =
    (if ltb_ℤ start e.timestamp && leb_ℤ e.timestamp end then e.cost else 0)
    + cost_within start end rest

abbrev pub IsUpTo : ℤ → Event → Type 0
IsUpTo last e = e.timestamp ≤ℤ last

-- No span of the period's length has more cost than the calls allow.
abbrev pub IsWithinLimit : ℕ → ℤ → List Event → Type 0
IsWithinLimit calls period log = (t : ℤ) → cost_within (t -ℤ period) t log ≤ calls

-- The events that are kept agree with the log on everything after `last - period`.
abbrev pub IsTracked : ℤ → ℤ → List Event → List Event → Type 0
IsTracked period last events log =
    IsSorted events
    × All (IsUpTo last) events
    × All (IsUpTo last) log
    × ((b : ℤ) → last -ℤ period ≤ℤ b → used_after b events ≡ used_after b log)

IsUpTo-later :
    (last now : ℤ) (es : List Event) → last ≤ℤ now → All (IsUpTo last) es → All (IsUpTo now) es
IsUpTo-later last now [] h a = tt
IsUpTo-later last now (e ∷ es) h a = (omega arith, IsUpTo-later last now es h a.1)

cost_within-up_to :
    (lo hi : ℤ) (es : List Event) → All (IsUpTo hi) es → cost_within lo hi es ≡ used_after lo es
cost_within-up_to lo hi [] a = refl
cost_within-up_to lo hi (e ∷ es) a = ground (arith, cost_within-up_to lo hi es a.1)

cost_within-append :
    (lo hi : ℤ) (es : List Event) (e : Event)
    → cost_within lo hi (es ++ e ∷ []) ≡ cost_within lo hi es + cost_within lo hi (e ∷ [])
cost_within-append lo hi [] e = omega arith
cost_within-append lo hi (f ∷ es) e = omega (arith, cost_within-append lo hi es e)

start_le : (last now period : ℤ) → last ≤ℤ now → last -ℤ period ≤ℤ now -ℤ period
start_le last now period h = omega (arith, -ℤ_parts last period, -ℤ_parts now period)

pub prune-IsTracked :
    (period last now p : ℤ) (es log : List Event)
    → last ≤ℤ now
    → p ≤ℤ now -ℤ period
    → IsTracked period last es log
    → IsTracked period now (prune p es) log
prune-IsTracked period last now p es log h hp (sorted, up_to, past, same) = (
  prune-IsSorted p es sorted,
  prune-All (IsUpTo now) p es (IsUpTo-later last now es h up_to),
  IsUpTo-later last now log h past,
  λ b hb.
      used_after-prune p b es (omega arith) ∙ same b (omega (arith, start_le last now period h)),
)

pub append-IsTracked :
    (period : ℤ) (e : Event) (es log : List Event)
    → IsTracked period e.timestamp es log
    → IsTracked period e.timestamp (es ++ e ∷ []) (log ++ e ∷ [])
append-IsTracked period e es log (sorted, up_to, past, same) = (
  append-IsSorted es e sorted up_to,
  All-append (IsUpTo e.timestamp) es (e ∷ []) up_to (omega arith, tt),
  All-append (IsUpTo e.timestamp) log (e ∷ []) past (omega arith, tt),
  λ b hb. omega (arith, used_after-append b es e, used_after-append b log e, same b hb),
)

-- A call that fits into its window keeps every span within the limit.
pub append-IsWithinLimit :
    (calls : ℕ) (period : ℤ) (e : Event) (es log : List Event)
    → IsTracked period e.timestamp es log
    → All (λ f. e.timestamp -ℤ period <ℤ f.timestamp) es
    → used_cost es + e.cost ≤ calls
    → IsWithinLimit calls period log
    → IsWithinLimit calls period (log ++ e ∷ [])
append-IsWithinLimit calls period e es log (sorted, up_to, past, same) fresh fits limit t =
    let start = e.timestamp -ℤ period in
    elim (Bool-cases (leb_ℤ e.timestamp t)) [
      | inl counted ↦
          let le : e.timestamp ≤ℤ t = ground arith in
          ground (
            arith,
            cost_within-append (t -ℤ period) t log e,
            cost_within-up_to (t -ℤ period) t log (IsUpTo-later e.timestamp t log le past),
            used_after_mono start (t -ℤ period) log (start_le e.timestamp t period le),
            used_cost-fresh start es fresh,
            same start (omega arith),
          )
      | inr later ↦ ground (arith, cost_within-append (t -ℤ period) t log e, limit t)
    ]
