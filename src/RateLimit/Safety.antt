-- ===== src/RateLimit/Safety.antt =====
-- The limit itself: what a run of calls of the in-process limiter admits in any window of time.
use mathlib.Core.List.{append-nil, append_assoc}
use pydecorators.Prelude.{
  ℕ, ◌≡◌, Option, none, some, List, [], ◌∷◌, ◌++◌, arith, if◌then◌else◌, Hashable, ◌≤◌, ◌≢◌, sym,
  refl, ◌==◌, ==_iff, Bool-cases, inl, inr, subst,
}
use pydecorators.Prelude.Int.{ℤ, pos, ◌-ℤ◌, ◌≤ℤ◌, ◌<ℤ◌}
use pydecorators.Prelude.Dict.{Dict, lookup}
use pydecorators.RateLimit.Ids.{plain}
use pydecorators.RateLimit.{
  prune, runtime_of, sliding, Kind, NormalizedWindow, Event, Bucket, reserve_or_delay,
}
use pydecorators.RateLimit.Buckets.{IsOneOf}
use pydecorators.RateLimit.Windows.{HasDistinctNames, cleanup_le}
use pydecorators.RateLimit.Tracking.{
  append-IsTracked, append-IsWithinLimit, cost_within, IsWithinLimit, IsTracked, prune-IsTracked,
}
use pydecorators.RateLimit.State.{events_of, IsWellFormed}
use pydecorators.RateLimit.Steps.{
  kept_events, IsSettled, reserve_or_delay-IsWellFormed, reserve_or_delay-other_key,
  reserve_or_delay-IsSettled,
}
use pydecorators.RateLimit.Events.{IsSorted, prune-fresh, fits_of_no_wait}

-- One call: what the clock reads, the bucket key and the cost.
pub record Request (K : Type 0) : Type 0 where
  pub now : ℤ
  pub key : K
  pub cost : ℕ

-- The clock never goes back.
abbrev pub IsOrdered : {K : Type 0} → ℤ → List (Request K) → Type 0
IsOrdered last [] = Unit
IsOrdered last (r ∷ rs) = (last ≤ℤ r.now) × IsOrdered r.now rs

module _ {K Z : Type 0} ⦃e : Hashable K⦄ (bounds : NormalizedWindow Z → ℤ → ℤ × ℤ)
    (config : List (NormalizedWindow Z)) where
  -- The event a call leaves in the log of a key: none if it is turned away or has another key.
  abbrev pub granted : K → Request K → Option ℤ → List Event
  granted k r (some wait) = []
  granted k r none = if k == r.key then record { timestamp = r.now; cost = r.cost } ∷ [] else []

  -- The calls with one key that a run admits.
  abbrev pub admitted : K → List (Request K) → Dict K Bucket → List Event
  admitted k [] state = []
  admitted k (r ∷ rs) state =
      let (state', result) = reserve_or_delay bounds config r.now r.key r.cost state in
      granted k r result ++ admitted k rs state'

  -- The limiter after a run.
  abbrev pub state_after : List (Request K) → Dict K Bucket → Dict K Bucket
  state_after [] state = state
  state_after (r ∷ rs) state =
      state_after rs (reserve_or_delay bounds config r.now r.key r.cost state).0

  module _ (w : NormalizedWindow Z) (k : K) (kind : w.kind ≡ sliding) (member : IsOneOf w config)
      (names : HasDistinctNames config) (positive : pos 0 <ℤ w.period) where
    abbrev sliding_events : Dict K Bucket → List Event
    sliding_events s = events_of k (plain w.window_id) s

    -- The events of the window are well kept, and the log is within the limit.
    abbrev IsSafe : ℤ → Dict K Bucket → List Event → Type 0
    IsSafe last s log =
        IsWellFormed s
        × IsTracked w.period last (sliding_events s) log
        × IsWithinLimit w.calls w.period log

    kept-IsTracked :
        (last now : ℤ) (s : Dict K Bucket) (log : List Event)
        → last ≤ℤ now
        → IsTracked w.period last (sliding_events s) log
        → IsTracked w.period now (kept_events config now k (plain w.window_id) s) log
    kept-IsTracked last now s log h t =
        prune-IsTracked w.period last now _ _ log h (cleanup_le w config member now) t

    -- Nothing is admitted: what is kept stays safe.
    kept-IsSafe :
        (last now : ℤ) (s s' : Dict K Bucket) (log : List Event)
        → IsSafe last s log
        → IsWellFormed s'
        → IsTracked w.period now (sliding_events s') log
        → IsSafe now s' (log ++ [])
    kept-IsSafe last now s s' log (_, _, limit) wf tracked =
        subst (IsSafe now s') (sym (append-nil log)) (wf, tracked, limit)

    granted_same :
        (r : Request K)
        → k ≡ r.key
        → granted k r none ≡ record { timestamp = r.now; cost = r.cost } ∷ []
    granted_same r same = ground (arith, ==_iff k r.key)

    granted_other : (r : Request K) (result : Option ℤ) → k ≢ r.key → granted k r result ≡ []
    granted_other r none ne = ground (arith, ==_iff k r.key)
    granted_other r (some wait) ne = refl

    -- A call settled for this window: what it leaves is safe for the log with the call, if it is admitted.
    settled-IsSafe :
        (last : ℤ) (r : Request K) (s s' : Dict K Bucket) (log : List Event) (result : Option ℤ)
        → last ≤ℤ r.now
        → k ≡ r.key
        → IsSafe last s log
        → IsWellFormed s'
        → let v = runtime_of bounds sliding w r.now in
          IsSettled bounds config r.now r.key r.cost v
            (prune v.prune_before (kept_events config r.now k v.window_id s))
            (sliding_events s')
            result
          → IsSafe r.now s' (log ++ granted k r result)
    settled-IsSafe last r s s' log (some wait) h same safe wf (_, _, eq) =
        let start = r.now -ℤ w.period in
        let kept = kept-IsTracked last r.now s log h safe.1 in
        let pruned =
          prune-IsTracked w.period r.now r.now start _ log (omega arith) (omega arith) kept in
        kept-IsSafe last r.now s s' log safe wf
          (subst (λ es. IsTracked w.period r.now es log) (sym eq) pruned)
    settled-IsSafe last r s s' log none h same safe wf (free, eq) =
        let start = r.now -ℤ w.period in
        let event : Event = record { timestamp = r.now; cost = r.cost } in
        let kept = kept-IsTracked last r.now s log h safe.1 in
        let fresh = prune-fresh start (kept_events config r.now k (plain w.window_id) s) kept.0 in
        let pruned =
          prune-IsTracked w.period r.now r.now start _ log (omega arith) (omega arith) kept in
        let fits =
          fits_of_no_wait (runtime_of bounds sliding w r.now) r.now r.cost _ refl positive fresh
            free in
        subst (λ es. IsSafe r.now s' (log ++ es)) (sym (granted_same r same))
          (
            wf,
            subst (λ es. IsTracked w.period r.now es (log ++ event ∷ [])) (sym eq)
                (append-IsTracked w.period event _ log pruned),
            append-IsWithinLimit w.calls w.period event _ log pruned fresh fits safe.2,
          )

    -- The window's own part of a call with its key.
    sliding-IsSettled :
        (r : Request K) (s : Dict K Bucket)
        → k ≡ r.key
        → IsWellFormed s
        → let v = runtime_of bounds sliding w r.now in
          let done = reserve_or_delay bounds config r.now r.key r.cost s in
          IsSettled bounds config r.now r.key r.cost v
            (prune v.prune_before (kept_events config r.now k v.window_id s))
            (sliding_events done.0)
            done.1
    sliding-IsSettled r s same wf =
        let done = reserve_or_delay bounds config r.now r.key r.cost s in
        let settled =
          reserve_or_delay-IsSettled bounds config r.now r.key r.cost w s wf member names in
        let goal : Kind → K → Type 0 = λ j i.
          let v = runtime_of bounds j w r.now in
          IsSettled bounds config r.now r.key r.cost v
            (prune v.prune_before (kept_events config r.now i v.window_id s))
            (events_of i v.window_id done.0) done.1 in
        subst (goal sliding) (sym same) (subst (λ j. goal j r.key) kind settled)

    -- Every call keeps the state safe.
    step-IsSafe :
        (last : ℤ) (r : Request K) (s : Dict K Bucket) (log : List Event)
        → last ≤ℤ r.now
        → IsSafe last s log
        → let done = reserve_or_delay bounds config r.now r.key r.cost s in
          IsSafe r.now done.0 (log ++ granted k r done.1)
    step-IsSafe last r s log h safe =
        let done = reserve_or_delay bounds config r.now r.key r.cost s in
        let wf = reserve_or_delay-IsWellFormed bounds config r.now r.key r.cost s safe.0 in
        elim (Bool-cases (k == r.key)) [
          | inl here ↦
              let same : k ≡ r.key = ground (arith, ==_iff k r.key) in
              settled-IsSafe last r s done.0 log done.1 h same safe wf
                (sliding-IsSettled r s same safe.0)
          | inr there ↦
              let ne : k ≢ r.key = ground (arith, ==_iff k r.key) in
              let eq =
                reserve_or_delay-other_key bounds config r.now r.key r.cost k (plain w.window_id) s
                  safe.0 ne in
              subst (λ es. IsSafe r.now done.0 (log ++ es)) (sym (granted_other r done.1 ne))
                (kept-IsSafe last r.now s done.0 log safe wf (
                  subst (λ es. IsTracked w.period r.now es log) (sym eq)
                    (kept-IsTracked last r.now s log h safe.1)))
        ]

    fresh-IsSafe : (start : ℤ) → IsSafe start [] []
    unfolding lookup
    fresh-IsSafe start = ((tt, tt), (tt, tt, tt, λ b h. refl), λ t. omega arith)

    run-IsWithinLimit :
        (last : ℤ) (rs : List (Request K)) (s : Dict K Bucket) (log : List Event)
        → IsOrdered last rs
        → IsSafe last s log
        → IsWithinLimit w.calls w.period (log ++ admitted k rs s)
    run-IsWithinLimit last [] s log o safe =
        subst (IsWithinLimit w.calls w.period) (sym (append-nil log)) safe.2
    run-IsWithinLimit last (r ∷ rs) s log o safe =
        let done = reserve_or_delay bounds config r.now r.key r.cost s in
        let step = step-IsSafe last r s log o.0 safe in
        let rest = run-IsWithinLimit r.now rs done.0 (log ++ granted k r done.1) o.1 step in
        subst (IsWithinLimit w.calls w.period)
          (append_assoc log (granted k r done.1) (admitted k rs done.0)) rest

    -- Whatever calls are made on a fresh limiter, with any keys and costs and with a clock that never
    -- goes back: the cost that a sliding window of the configuration lets through for one key in any
    -- span of the length of its period, after `t - period` and up to `t`, is at most its calls. The
    -- windows have different names, and the period is positive.
    pub admitted-IsWithinLimit :
        (start : ℤ) (rs : List (Request K))
        → IsOrdered start rs
        → (t : ℤ) → cost_within (t -ℤ w.period) t (admitted k rs []) ≤ w.calls
    admitted-IsWithinLimit start rs o = run-IsWithinLimit start rs [] [] o (fresh-IsSafe start)

    run-IsSorted :
        (last : ℤ) (rs : List (Request K)) (s : Dict K Bucket) (log : List Event)
        → IsOrdered last rs
        → IsSafe last s log
        → IsWellFormed (state_after rs s) × IsSorted (sliding_events (state_after rs s))
    run-IsSorted last [] s log o safe = (safe.0, safe.1.0)
    run-IsSorted last (r ∷ rs) s log o safe =
        let done = reserve_or_delay bounds config r.now r.key r.cost s in
        run-IsSorted r.now rs done.0 (log ++ granted k r done.1) o.1
          (step-IsSafe last r s log o.0 safe)

    -- After any run of calls on a fresh limiter with a clock that never goes back, the state holds no key
    -- and no window of a key twice, and the events of a sliding window of the configuration are in order
    -- for every key. The windows have different names, and the period is positive.
    pub state_after-IsSorted :
        (start : ℤ) (rs : List (Request K))
        → IsOrdered start rs
        → IsWellFormed (state_after rs [])
          × IsSorted (events_of k (plain w.window_id) (state_after rs []))
    state_after-IsSorted start rs o = run-IsSorted start rs [] [] o (fresh-IsSafe start)
